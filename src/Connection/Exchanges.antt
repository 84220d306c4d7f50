-- ===== src/Connection/Exchanges.antt =====
-- Whole requests of connection.go whose response is the next on the stream.
use kafka.Base.{
  ℕ, ◌+◌, ◌^◌, ◌<◌, ◌≡◌, refl, ap, sym, ◌∙◌, List, [], ◌++◌, append-nil, none, false, length, map,
  suc, arith, ◌∷◌,
}
use kafka.Base.Program.{Exec, done, panic, then_exec}
use kafka.Wire.BigEndian.{put_uint32}
use kafka.Wire.Errors.{Error, eof}
use kafka.Wire.Source.{Source}
use kafka.Wire.Decoder.{Result, ok}
use kafka.Wire.Encoder.{Writer, Written}
use kafka.Wire.Reads.{put_array}
use kafka.MessageSet.Message.{Codecs}
use kafka.MessageSet.RoundTrip.{CodecLaws}
use kafka.MessageSet.ReadLaws.{source_of}
use kafka.Messages.Frame.{frame, minus_one32}
use kafka.Messages.FetchReq
use kafka.Messages.FetchReq.{FetchReq}
use kafka.Messages.FetchResp
use kafka.Messages.FetchResp.{FetchResp, FetchRespTopic}
use kafka.Messages.FetchResp.Layout as FetchLayout
use kafka.Messages.OffsetReq
use kafka.Messages.OffsetReq.{OffsetReq}
use kafka.Messages.OffsetResp
use kafka.Messages.OffsetResp.{OffsetResp}
use kafka.Messages.OffsetResp.Layout as OffsetLayout
use kafka.Connection.Outcome.{returned}
use kafka.Connection.Send.{Connection, send_request, correlate, parse}
use kafka.Connection.Calls.{fetch, trim_topics, offset}
use kafka.Connection.Trimmed.{Covers, CutOffTopics, trim_topics-CutOff, trim_topics_panics}
use kafka.Connection.Answers.{send_request_lem}

module _ {W : Type 0} where
  -- A request that was written, and whose response stands next on the stream.
  pub record Answered (send : W → Exec (Written W)) (id : ℕ) (payload rest : List ℕ)
      (ending : Error) (w : W) (c : Connection W) : Type 0 where
    pub count : ℕ
    pub written : send c.socket ≡ done (record { count = count; err = none; writer = w })
    pub stream : c.rd ≡ source_of (frame (put_uint32 id ++ payload) ++ rest) ending
    pub id_fits : id < 2 ^ 32
    pub size_fits : length payload + 8 < 2 ^ 31

  call_lem :
      {R : Type 0} (read : Source → Exec (Result R)) (r : R) (send : W → Exec (Written W)) (id : ℕ)
      (payload rest : List ℕ) (ending : Error) (w : W) (c : Connection W)
      → Answered send id payload rest ending w c
      → read (source_of (frame (put_uint32 id ++ payload) ++ []) eof) ≡ done (ok r)
      → then_exec (send_request false send id c) (λ (b, after). parse read b after)
        ≡ done (returned r, record c { socket = w; rd = source_of rest ending })
  call_lem read r send id payload rest ending w c a h =
      let whole = frame (put_uint32 id ++ payload) in
      let exact : read (source_of whole eof) ≡ done (ok r) =
        ap (λ (bs : List ℕ). read (source_of bs eof)) (sym (append-nil whole)) ∙ h in
      rw
        (
          send_request_lem send id a.count payload rest ending w c a.written a.stream a.id_fits
              a.size_fits,
          exact,
        )
        refl

length-received :
    (topics : List FetchRespTopic) → length (map FetchLayout.received_topic topics) ≡ length topics
length-received [] = refl
length-received (topic ∷ topics) = ap suc (length-received topics)

module _ {W : Type 0} ⦃wr : Writer W⦄ where
  abbrev pub offset_req_sent : OffsetReq → Connection W → W → Exec (Written W)
  offset_req_sent req c =
      OffsetReq.send (record req {
        correlation_id = (correlate req.correlation_id c).0;
        replica_id = minus_one32;
      })

  -- Offset, where its request is written and the next on the stream is a response that fits its fields
  -- and has the request's correlation id, returns exactly that response and takes nothing else off the
  -- stream; the connection is left open as it was. The request goes out with replica id -1, and with a
  -- random correlation id in place of 0.
  pub offset_exchange :
      (req : OffsetReq) (resp : OffsetResp) (rest : List ℕ) (ending : Error) (w : W)
      (c : Connection W)
      → OffsetLayout.Fits resp
      → resp.correlation_id ≡ (correlate req.correlation_id c).0
      → Answered
          (offset_req_sent req c)
          (correlate req.correlation_id c).0
          (put_array OffsetLayout.wire_topic resp.topics)
          rest
          ending
          w
          c
      → offset false req c
        ≡ done (
          returned resp,
          record (correlate req.correlation_id c).1 { socket = w; rd = source_of rest ending },
        )
  unfolding offset correlate
  offset_exchange req resp rest ending w c fits same a =
      let (id, drawn) = correlate req.correlation_id c in
      call_lem OffsetResp.read resp (offset_req_sent req c) id
        (put_array OffsetLayout.wire_topic resp.topics) rest ending w drawn
        (record {
          count = a.count;
          written = a.written;
          stream = a.stream;
          id_fits = a.id_fits;
          size_fits = a.size_fits;
        })
        (rw (← same) (OffsetLayout.read-bytes_offset_resp resp [] eof fits).1)

  abbrev pub fetch_req_sent : FetchReq → Connection W → W → Exec (Written W)
  fetch_req_sent req c =
      FetchReq.send (record req { correlation_id = (correlate req.correlation_id c).0 })

  -- Fetch on the response that stands next on the stream: what its loops make of it.
  module _ (codecs : Codecs) (depth : ℕ) (req : FetchReq) (resp : FetchResp) (rest : List ℕ)
      (ending : Error) (w : W) (c : Connection W) where
    fetch_lem :
        CodecLaws codecs
        → FetchLayout.Fits codecs resp
        → resp.correlation_id ≡ (correlate req.correlation_id c).0
        → Answered
            (fetch_req_sent req c)
            (correlate req.correlation_id c).0
            (put_array (FetchLayout.wire_topic codecs) resp.topics)
            rest
            ending
            w
            c
        → fetch codecs (suc (suc depth)) false req c
          ≡ then_exec
              (trim_topics req.topics (map FetchLayout.received_topic resp.topics))
              λ topics. done (
                returned (record resp { topics = topics }),
                record (correlate req.correlation_id c).1 {
                  socket = w;
                  rd = source_of rest ending;
                },
              )
    unfolding fetch correlate
    fetch_lem laws fits same a =
        let (id, drawn) = correlate req.correlation_id c in
        let whole =
          frame (put_uint32 id ++ put_array (FetchLayout.wire_topic codecs) resp.topics) in
        let received : FetchResp = record resp {
          topics = map FetchLayout.received_topic resp.topics;
        } in
        let read_back : FetchResp.read codecs (suc (suc depth)) (source_of (whole ++ []) eof)
            ≡ done (ok received) =
          rw (← same) (FetchLayout.read-bytes_fetch_resp codecs depth resp [] eof laws fits).1 in
        let exact : FetchResp.read codecs (suc (suc depth)) (source_of whole eof)
            ≡ done (ok received) =
          ap (λ (bs : List ℕ). FetchResp.read codecs (suc (suc depth)) (source_of bs eof))
            (sym (append-nil whole))
          ∙ read_back in
        rw
          (
            send_request_lem (fetch_req_sent req c) id a.count
                (put_array (FetchLayout.wire_topic codecs) resp.topics) rest ending w drawn
                a.written a.stream a.id_fits a.size_fits,
            exact,
          )
          refl

    -- Fetch, where its request is written and the next on the stream is a response that fits its fields and
    -- has the request's correlation id, and where the request has a topic and a partition at each index of
    -- the response: it returns that response, its messages with their topic, partition, tip offset and
    -- checksum set, without those in front of a partition that lie below the offset requested at its index.
    -- Every other message is kept, in its order. It takes exactly the response off the stream.
    pub fetch_exchange :
        CodecLaws codecs
        → FetchLayout.Fits codecs resp
        → resp.correlation_id ≡ (correlate req.correlation_id c).0
        → Answered
            (fetch_req_sent req c)
            (correlate req.correlation_id c).0
            (put_array (FetchLayout.wire_topic codecs) resp.topics)
            rest
            ending
            w
            c
        → Covers req.topics (map FetchLayout.received_topic resp.topics)
        → (topics : List FetchRespTopic) × CutOffTopics req.topics
            (map FetchLayout.received_topic resp.topics)
            topics
          × (fetch codecs (suc (suc depth)) false req c
              ≡ done (
                returned (record resp { topics = topics }),
                record (correlate req.correlation_id c).1 {
                  socket = w;
                  rd = source_of rest ending;
                },
              ))
    fetch_exchange laws fits same a covers =
        let (topics, trimmed, cut) =
          trim_topics-CutOff req.topics (map FetchLayout.received_topic resp.topics) covers in
        (topics, cut, rw (fetch_lem laws fits same a, trimmed) refl)

    -- Fetch panics where its request is written and the next on the stream is a response that fits its
    -- fields, has the request's correlation id, and has more topics than the request.
    pub fetch_panics :
        CodecLaws codecs
        → FetchLayout.Fits codecs resp
        → resp.correlation_id ≡ (correlate req.correlation_id c).0
        → Answered
            (fetch_req_sent req c)
            (correlate req.correlation_id c).0
            (put_array (FetchLayout.wire_topic codecs) resp.topics)
            rest
            ending
            w
            c
        → length req.topics < length resp.topics
        → fetch codecs (suc (suc depth)) false req c ≡ panic
    fetch_panics laws fits same a longer =
        rw
          (
            fetch_lem laws fits same a,
            trim_topics_panics req.topics (map FetchLayout.received_topic resp.topics)
                (omega (arith, length-received resp.topics)),
          )
          refl
