-- ===== src/Server/Conversation.antt =====
-- handleClient of kafkatest/server.go against what it is to do: a client's requests are answered one
-- after the other.
use kafka.Base.{
  ℕ, zero, suc, ◌+◌, ◌^◌, ◌<◌, ◌≡◌, refl, ap, sym, subst, List, [], ◌∷◌, ◌++◌, none, some, length,
  append_assoc, arith,
}
use kafka.Base.Program.{Exec, done, panic, out_of_fuel, then_exec, after}
use kafka.Wire.BigEndian.{put_uint16}
use kafka.Wire.Errors.{eof}
use kafka.Wire.Decoder.{ok}
use kafka.MessageSet.Message.{Codecs}
use kafka.MessageSet.ReadLaws.{source_of}
use kafka.MessageSet.RoundTrip.{CodecLaws}
use kafka.Messages.Frame.{frame}
use kafka.Messages.Envelope.{read_req}
use kafka.Messages.Envelope.Laws.{read_req-frame, read_req-end}
use kafka.Server.Store.{Server}
use kafka.Server.Serving.{handle_kind, respond, handle_client}
use kafka.Server.Service.{
  Request, produces, fetches, asks_offset, asks_metadata, commits, fetches_offset, asks_coordinator,
  kind_of, arriving, ServeResult, serve, wire_request, FieldsFit, FitsAnswer, sent, stream,
  serve_all, FitsRun,
}
use kafka.Server.Wired.{
  produce_answered, fetch_answered, offset_answered, metadata_answered, offset_commit_answered,
  offset_fetch_answered, coordinator_answered,
}

-- A request's layout begins with its kind.
kind_first :
    (c : Codecs) (req : Request)
    → (payload : List ℕ) × (wire_request c req ≡ put_uint16 (kind_of req) ++ payload)
kind_first c (produces req) = (_, append_assoc (put_uint16 0) (put_uint16 0) _)
kind_first c (fetches req) = (_, append_assoc (put_uint16 1) (put_uint16 0) _)
kind_first c (asks_offset req) = (_, append_assoc (put_uint16 2) (put_uint16 0) _)
kind_first c (asks_metadata req) = (_, append_assoc (put_uint16 3) (put_uint16 0) _)
kind_first c (commits req) = (_, refl)
kind_first c (fetches_offset req) = (_, append_assoc (put_uint16 9) (put_uint16 1) _)
kind_first c (asks_coordinator req) = (_, append_assoc (put_uint16 10) (put_uint16 0) _)

kind_small : (req : Request) → kind_of req < 2 ^ 16
kind_small (produces req) = omega arith
kind_small (fetches req) = omega arith
kind_small (asks_offset req) = omega arith
kind_small (asks_metadata req) = omega arith
kind_small (commits req) = omega arith
kind_small (fetches_offset req) = omega arith
kind_small (asks_coordinator req) = omega arith

read_req-wire :
    (c : Codecs) (req : Request) (rest : List ℕ)
    → length (wire_request c req) + 4 < 2 ^ 31
    → read_req (source_of (frame (wire_request c req) ++ rest) eof)
      ≡ done (ok (kind_of req, frame (wire_request c req)), source_of rest eof)
read_req-wire c req rest small =
    let (payload, split) = kind_first c req in
    let size : length payload + 2 ≡ length (put_uint16 (kind_of req) ++ payload) =
      unfold put_uint16 in omega arith in
    subst
      (λ (w : List ℕ).
        read_req (source_of (frame w ++ rest) eof)
        ≡ done (ok (kind_of req, frame w), source_of rest eof))
      (sym split)
      (read_req-frame (kind_of req) payload rest eof (kind_small req)
        (omega (arith, size, ap length split)))

module _ (c : Codecs) (depth node_id : ℕ) (laws : CodecLaws c) where
  respond-wire :
      (req : Request) (s : Server)
      → FieldsFit c req
      → FitsAnswer c (serve node_id (arriving req) s)
      → respond c (suc (suc depth)) node_id [] (kind_of req) (frame (wire_request c req)) s
        ≡ sent c (serve node_id (arriving req) s)
  unfolding respond handle_kind
  respond-wire (produces req) s fits fit = produce_answered c depth node_id laws req s fits fit
  respond-wire (fetches req) s fits fit = fetch_answered c depth node_id laws req s fits fit
  respond-wire (asks_offset req) s fits fit = offset_answered c depth node_id laws req s fits fit
  respond-wire (asks_metadata req) s fits fit =
      metadata_answered c depth node_id laws req s fits fit
  respond-wire (commits req) s fits fit = offset_commit_answered c depth node_id laws req s fits fit
  respond-wire (fetches_offset req) s fits fit =
      offset_fetch_answered c depth node_id laws req s fits fit
  respond-wire (asks_coordinator req) s fits fit =
      coordinator_answered c depth node_id laws req s fits fit

  -- What follows an answer depends on the server behind it alone.
  go_on :
      (answer : ServeResult) (f g : Server → Exec (List ℕ × Server)) (s : Server)
      → f (after answer s) ≡ g (after answer s)
      → (then_exec {B = List ℕ × Server} (sent c answer) λ (reply, next). elim reply [
        | none ↦ done ([], next)
        | some b ↦ then_exec {B = List ℕ × Server} (f next) λ (rest, last). done (b ++ rest, last)
      ])
        ≡ then_exec {B = List ℕ × Server} (sent c answer) λ (reply, next). elim reply [
          | none ↦ done ([], next)
          | some b ↦ then_exec {B = List ℕ × Server} (g next) λ (rest, last). done (b ++ rest, last)
        ]
  go_on (done (some reply, next)) f g s h = rw h refl
  go_on (done (none, next)) f g s h = refl
  go_on panic f g s h = refl
  go_on out_of_fuel f g s h = refl

  -- The requests of one client, each of which fits its fields and the sizes, as do the replies: without
  -- middlewares and with more rounds than requests, handleClient on the bytes of the requests behind one
  -- another writes the bytes of the replies in the order of the requests, each request handled by the
  -- server that the ones before it left. It stops at the first request without a response, and panics
  -- where a handler does.
  pub handle_client-serves :
      (n : ℕ) (reqs : List Request) (s : Server)
      → length reqs < n
      → FitsRun c node_id reqs s
      → handle_client c (suc (suc depth)) node_id [] n (source_of (stream c reqs) eof) s
        ≡ serve_all c node_id reqs s
  unfolding handle_client serve_all FitsRun
  handle_client-serves zero reqs s enough fits = absurd (omega arith)
  handle_client-serves (suc n) [] s enough fits = rw (read_req-end eof) refl
  handle_client-serves (suc n) (req ∷ reqs) s enough fits =
      let (fit, answer, later) = fits in
      let served_next = after (serve node_id (arriving req) s) s in
      rw (read_req-wire c req (stream c reqs) fit.size, respond-wire req s fit.fields answer)
        (go_on (serve node_id (arriving req) s)
          (λ next.
            handle_client c (suc (suc depth)) node_id [] n (source_of (stream c reqs) eof) next)
          (λ next. serve_all c node_id reqs next) s
          (handle_client-serves n reqs served_next (omega arith) later))
