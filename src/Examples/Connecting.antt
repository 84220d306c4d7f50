-- ===== src/Examples/Connecting.antt =====
-- A request over a connection whose stream has the response.
use kafka.Base.{ℕ, ◌≡◌, refl, List, [], ◌∷◌, ◌++◌, none, false, length, arith, map}
use kafka.Base.Program.{Exec, done, panic}
use kafka.Wire.BigEndian.{put_uint8, put_uint16, put_uint32, put_uint64}
use kafka.Wire.Errors.{eof}
use kafka.Wire.Reads.{put_array}
use kafka.Wire.Encoder.{Buffer, buffer_writer, Written}
use kafka.MessageSet.ReadLaws.{source_of}
use kafka.Messages.Frame.{frame, write_to}
use kafka.Messages.OffsetReq
use kafka.Messages.OffsetReq.{OffsetReq}
use kafka.Messages.OffsetReq.Layout as OffsetReqLayout
use kafka.Messages.OffsetResp.Layout as OffsetRespLayout
use kafka.Messages.FetchReq
use kafka.Messages.FetchReq.{FetchReq, FetchReqTopic}
use kafka.Messages.FetchResp.{FetchRespTopic}
use kafka.Messages.FetchReq.Layout as FetchReqLayout
use kafka.Messages.FetchResp.Layout as FetchRespLayout
use kafka.Connection.Outcome.{returned}
use kafka.Connection.Send.{Connection, send_request, correlate}
use kafka.Connection.Calls.{fetch, trim_topics, trim_partitions}
use kafka.Connection.Answers.{IfDone, ClosedIfRefused, send_request-Closed}
use kafka.Connection.Trimmed.{CutOffTopics}
use kafka.Connection.Exchanges.{
  Answered, offset_req_sent, fetch_req_sent, fetch_exchange, fetch_panics,
}
use kafka.Broker.Consumer.{trim}
use kafka.Examples.{codecs, codecs-CodecLaws}
use kafka.Examples.OffsetReq as OffsetReqExample
use kafka.Examples.OffsetResp as OffsetRespExample
use kafka.Examples.FetchReq as FetchReqExample
use kafka.Examples.FetchResp as FetchRespExample

abbrev connection : List ℕ → Connection Buffer
connection incoming = record {
  socket = [];
  rd = source_of incoming eof;
  rnd = λ i. 7;
  closed = false;
  closes = 0;
}

abbrev offset_stream : List ℕ
offset_stream = frame (OffsetRespLayout.wire OffsetRespExample.sample) ++ (1 ∷ 2 ∷ [])

-- The request as its caller makes it: the id is drawn, and the replica id replaced.
abbrev offset_asked : OffsetReq
offset_asked = record OffsetReqExample.sample { correlation_id = 0; replica_id = 3 }

abbrev offset_written : List ℕ
offset_written = frame (OffsetReqLayout.wire OffsetReqExample.sample)

offset_Answered :
    Answered
      (offset_req_sent offset_asked (connection offset_stream))
      7
      (put_array OffsetRespLayout.wire_topic OffsetRespExample.sample.topics)
      (1 ∷ 2 ∷ [])
      eof
      offset_written
      (connection offset_stream)
unfolding OffsetReq.send write_to correlate put_uint16 put_uint32 put_uint64
offset_Answered = record {
  count = length offset_written;
  written =
      rw
        (OffsetReqLayout.read-bytes_offset_req OffsetReqExample.sample [] eof
          OffsetReqExample.sample-Fits).0
        refl;
  stream = refl;
  id_fits = omega arith;
  size_fits = omega arith;
}

abbrev fetch_stream : List ℕ
fetch_stream = frame (FetchRespLayout.wire codecs FetchRespExample.sample) ++ (1 ∷ [])

-- A request for the offset 43, and one for nothing.
abbrev asked_for : List FetchReqTopic → FetchReq
asked_for topics = record FetchReqExample.sample { topics = topics }

abbrev from_43 : FetchReq
from_43 = asked_for (
    record {
      name = (97 ∷ 98 ∷ []);
      partitions = (record { id = 0; fetch_offset = 43; max_bytes = 1024 } ∷ []);
    }
    ∷ [])

from_43-Fits : FetchReqLayout.Fits from_43
from_43-Fits = record {
  correlation_id = omega arith;
  client_id = omega arith;
  max_wait_time = (refl, omega arith);
  min_bytes = omega arith;
  topics_count = omega arith;
  topics = (
    record {
      name = omega arith;
      partitions_count = omega arith;
      partitions =
          (record { id = omega arith; fetch_offset = omega arith; max_bytes = omega arith }, tt);
    },
    tt,
  );
}

for_nothing-Fits : FetchReqLayout.Fits (asked_for [])
for_nothing-Fits = record {
  correlation_id = omega arith;
  client_id = omega arith;
  max_wait_time = (refl, omega arith);
  min_bytes = omega arith;
  topics_count = omega arith;
  topics = tt;
}

abbrev fetch_written : List FetchReqTopic → List ℕ
fetch_written topics = frame (FetchReqLayout.wire (asked_for topics))

fetch_Answered :
    (topics : List FetchReqTopic)
    → FetchReqLayout.Fits (asked_for topics)
    → Answered
        (fetch_req_sent (asked_for topics) (connection fetch_stream))
        7
        (put_array (FetchRespLayout.wire_topic codecs) FetchRespExample.sample.topics)
        (1 ∷ [])
        eof
        (fetch_written topics)
        (connection fetch_stream)
unfolding FetchReq.send write_to correlate put_uint8 put_uint16 put_uint32 put_uint64
fetch_Answered topics fits = record {
  count = length (fetch_written topics);
  written = rw (FetchReqLayout.read-bytes_fetch_req (asked_for topics) [] eof fits).0 refl;
  stream = refl;
  id_fits = omega arith;
  size_fits = omega arith;
}

-- The only message has the offset 42.
fetch_exchange_example :
    (topics : List FetchRespTopic) × CutOffTopics from_43.topics
      (map FetchRespLayout.received_topic FetchRespExample.sample.topics)
      topics
    × (fetch codecs 2 false from_43 (connection fetch_stream)
        ≡ done (
          returned (record FetchRespExample.sample { topics = topics }),
          record (correlate 7 (connection fetch_stream)).1 {
            socket = fetch_written from_43.topics;
            rd = source_of (1 ∷ []) eof;
          },
        ))
unfolding correlate
fetch_exchange_example =
    fetch_exchange codecs 0 from_43 FetchRespExample.sample (1 ∷ []) eof
      (fetch_written from_43.topics) (connection fetch_stream) codecs-CodecLaws
      FetchRespExample.sample-Fits refl (fetch_Answered from_43.topics from_43-Fits)
      (omega arith, tt)

nothing_left :
    trim_topics from_43.topics (map FetchRespLayout.received_topic FetchRespExample.sample.topics)
    ≡ done (
        record {
          name = (97 ∷ 98 ∷ []);
          partitions = (record { id = 0; err = none; tip_offset = 43; messages = [] } ∷ []);
        }
        ∷ [])
unfolding trim_topics trim_partitions trim
nothing_left = refl

fetch_panics_example : fetch codecs 2 false (asked_for []) (connection fetch_stream) ≡ panic
unfolding correlate
fetch_panics_example =
    fetch_panics codecs 0 (asked_for []) FetchRespExample.sample (1 ∷ []) eof (fetch_written [])
      (connection fetch_stream) codecs-CodecLaws FetchRespExample.sample-Fits refl
      (fetch_Answered [] for_nothing-Fits) (omega arith)

-- A writer that takes everything.
abbrev written_all : List ℕ → Exec (Written Buffer)
written_all w = done (record { count = 2; err = none; writer = 5 ∷ 6 ∷ w })

send_request-Closed_example :
    IfDone ClosedIfRefused (send_request false written_all 7 (connection (1 ∷ 2 ∷ [])))
send_request-Closed_example = send_request-Closed false written_all 7 (connection (1 ∷ 2 ∷ []))
