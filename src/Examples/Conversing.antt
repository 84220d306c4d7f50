-- ===== src/Examples/Conversing.antt =====
-- A client of the mock server that commits an offset and asks for it.
use kafka.Base.{◌≡◌, List, [], ◌∷◌, arith}
use kafka.Base.Maps.{string_eq, ℕ_eq, lookup, assign, delete}
use kafka.Base.Program.{after}
use kafka.Wire.BigEndian.{put_uint16, put_uint32, put_uint64}
use kafka.Wire.Errors.{eof}
use kafka.MessageSet.ReadLaws.{source_of}
use kafka.Server.Store.{new_server}
use kafka.Server.Offsets.{
  handle_offset_commit_request, commit_topics, commit_partitions, set_topic_offset,
  get_topic_offset, handle_offset_fetch_request, stored_topics, stored_partitions,
}
use kafka.Server.Serving.{handle_client}
use kafka.Server.Service.{
  Request, commits, fetches_offset, FitsRequest, FitsRun, FitsAnswer, stream, serve, serve_all,
  arriving,
}
use kafka.Server.Conversation.{handle_client-serves}
use kafka.Examples.{codecs, codecs-CodecLaws}
use kafka.Examples.OffsetCommitReq as Committing
use kafka.Examples.OffsetFetchReq as Asking

abbrev requests : List Request
requests = commits Committing.sample ∷ fetches_offset Asking.sample ∷ []

commit_fits : FitsRequest codecs (commits Committing.sample)
unfolding put_uint16 put_uint32 put_uint64
commit_fits = record { fields = Committing.sample-Fits; size = omega arith }

fetch_fits : FitsRequest codecs (fetches_offset Asking.sample)
unfolding put_uint16 put_uint32 put_uint64
fetch_fits = record { fields = Asking.sample-Fits; size = omega arith }

commit_answer : FitsAnswer codecs (serve 100 (arriving (commits Committing.sample)) new_server)
unfolding handle_offset_commit_request commit_topics commit_partitions set_topic_offset assign
    new_server
commit_answer = record {
  correlation_id = omega arith;
  topics_count = omega arith;
  topics = (
    record {
      name = omega arith;
      partitions_count = omega arith;
      partitions = (record { id = omega arith; err = tt }, tt);
    },
    tt,
  );
}

fetch_answer : FitsAnswer codecs (
    serve 100
      (fetches_offset Asking.sample)
      (after (serve 100 (arriving (commits Committing.sample)) new_server) new_server))
unfolding handle_offset_commit_request commit_topics commit_partitions set_topic_offset
    get_topic_offset assign delete lookup new_server handle_offset_fetch_request stored_topics
    stored_partitions
fetch_answer = record {
  correlation_id = omega arith;
  topics_count = omega arith;
  topics = (
    record {
      name = omega arith;
      partitions_count = omega arith;
      partitions = (
        record { id = omega arith; offset = omega arith; metadata = omega arith; err = tt },
        (record { id = omega arith; offset = omega arith; metadata = omega arith; err = tt }, tt),
      );
    },
    tt,
  );
}

requests_fit : FitsRun codecs 100 requests new_server
unfolding FitsRun
requests_fit = (commit_fits, commit_answer, (fetch_fits, fetch_answer, tt))

handle_client-serves_example :
    handle_client codecs 2 100 [] 3 (source_of (stream codecs requests) eof) new_server
    ≡ serve_all codecs 100 requests new_server
handle_client-serves_example =
    handle_client-serves codecs 0 100 codecs-CodecLaws 3 requests new_server (omega arith)
      requests_fit
