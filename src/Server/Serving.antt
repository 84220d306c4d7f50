-- ===== src/Server/Serving.antt =====
-- handleClient of kafkatest/server.go. A middleware gives the outcome of Bytes of its response, if it has
-- one; each write to the connection is taken to succeed.
use kafka.Base.{ℕ, zero, suc, List, [], ◌∷◌, ◌++◌, Option, none, some, ◌==◌, if◌then◌else◌}
use kafka.Base.Program.{Exec, done, then_exec}
use kafka.Wire.Errors.{eof}
use kafka.Wire.Source.{Source}
use kafka.Wire.Decoder.{Result, ok, failed}
use kafka.MessageSet.Message.{Codecs}
use kafka.Messages.Frame.{
  produce_req_kind, fetch_req_kind, offset_req_kind, metadata_req_kind, offset_commit_req_kind,
  offset_fetch_req_kind, group_coordinator_req_kind,
}
use kafka.Messages.Envelope.{read_req}
use kafka.Messages.ProduceReq
use kafka.Messages.ProduceResp
use kafka.Messages.FetchReq
use kafka.Messages.FetchResp
use kafka.Messages.OffsetReq
use kafka.Messages.OffsetResp
use kafka.Messages.MetadataReq
use kafka.Messages.MetadataResp
use kafka.Messages.OffsetCommitReq
use kafka.Messages.OffsetCommitResp
use kafka.Messages.OffsetFetchReq
use kafka.Messages.OffsetFetchResp
use kafka.Messages.GroupCoordinatorReq
use kafka.Messages.GroupCoordinatorResp
use kafka.Server.Store.{Server}
use kafka.Server.Handlers.{handle_produce_request, handle_fetch_request, handle_metadata_request}
use kafka.Server.Offsets.{
  handle_offset_request, handle_offset_commit_request, handle_offset_fetch_request,
  handle_group_coordinator_request,
}

-- What is written for a request, or none where the connection is closed; and the server after it.
abbrev pub Handled : Type 0
Handled = Exec (Option (List ℕ) × Server)

-- A response that Bytes cannot write leaves nothing to be written, and the connection open.
abbrev pub written : Server → Exec (Result (List ℕ)) → Handled
written s bytes =
    then_exec bytes λ r. elim r [ ok b ↦ done (some b, s) | failed e ↦ done (some [], s) ]

-- A request that cannot be parsed closes the connection.
abbrev pub parsed : {Q : Type 0} → Exec (Result Q) → Server → (Q → Handled) → Handled
parsed read s handle =
    then_exec read λ r. elim r [ ok req ↦ handle req | failed e ↦ done (none, s) ]

abbrev pub source : List ℕ → Source
source b = record { bytes = b; ending = eof }

module _ (codecs : Codecs) (depth node_id : ℕ) where
  unfoldable pub handle_produce : List ℕ → Server → Handled
  unfolding ProduceReq.read ProduceResp.bytes handle_produce_request
  handle_produce b s = parsed (ProduceReq.read codecs depth (source b)) s λ req.
      let (resp, after) = handle_produce_request req s in written after (ProduceResp.bytes resp)

  unfoldable pub handle_fetch : List ℕ → Server → Handled
  unfolding FetchReq.read FetchResp.bytes handle_fetch_request
  handle_fetch b s =
      parsed (FetchReq.read (source b)) s λ req.
        then_exec (handle_fetch_request req s) λ resp. written s (FetchResp.bytes codecs resp)

  -- A nil response closes the connection.
  unfoldable pub handle_offset : List ℕ → Server → Handled
  unfolding OffsetReq.read OffsetResp.bytes handle_offset_request
  handle_offset b s = parsed (OffsetReq.read (source b)) s λ req.
      then_exec (handle_offset_request req s)
        λ o. elim o [ none ↦ done (none, s) | some resp ↦ written s (OffsetResp.bytes resp) ]

  unfoldable pub handle_metadata : List ℕ → Server → Handled
  unfolding MetadataReq.read MetadataResp.bytes handle_metadata_request
  handle_metadata b s = parsed (MetadataReq.read (source b)) s λ req.
      then_exec (handle_metadata_request node_id req s)
        λ (resp, after). written after (MetadataResp.bytes resp)

  unfoldable pub handle_offset_commit : List ℕ → Server → Handled
  unfolding OffsetCommitReq.read OffsetCommitResp.bytes handle_offset_commit_request
  handle_offset_commit b s = parsed (OffsetCommitReq.read (source b)) s λ req.
      let (resp, after) = handle_offset_commit_request req s in
      written after (OffsetCommitResp.bytes resp)

  unfoldable pub handle_offset_fetch : List ℕ → Server → Handled
  unfolding OffsetFetchReq.read OffsetFetchResp.bytes handle_offset_fetch_request
  handle_offset_fetch b s = parsed (OffsetFetchReq.read (source b)) s λ req.
      let (resp, after) = handle_offset_fetch_request req s in
      written after (OffsetFetchResp.bytes resp)

  unfoldable pub handle_group_coordinator : List ℕ → Server → Handled
  unfolding GroupCoordinatorReq.read GroupCoordinatorResp.bytes handle_group_coordinator_request
  handle_group_coordinator b s = parsed (GroupCoordinatorReq.read (source b)) s λ req.
      then_exec (handle_group_coordinator_request req s)
        λ resp. written s (GroupCoordinatorResp.bytes resp)

  -- The switch on the kind.
  unfoldable pub handle_kind : ℕ → List ℕ → Server → Handled
  unfolding handle_produce handle_fetch handle_offset handle_metadata handle_offset_commit
      handle_offset_fetch handle_group_coordinator
  handle_kind kind b s =
      if kind == produce_req_kind
      then handle_produce b s
      else if kind == fetch_req_kind
      then handle_fetch b s
      else if kind == offset_req_kind
      then handle_offset b s
      else if kind == metadata_req_kind
      then handle_metadata b s
      else if kind == offset_commit_req_kind
      then handle_offset_commit b s
      else if kind == offset_fetch_req_kind
      then handle_offset_fetch b s
      else if kind == group_coordinator_req_kind
      then handle_group_coordinator b s
      else done (none, s)

  abbrev pub Middleware : Type 0
  Middleware = ℕ → ℕ → List ℕ → Option (Exec (Result (List ℕ)))

  -- The first middleware with a response, and the handlers where none has one.
  unfoldable pub respond : List Middleware → ℕ → List ℕ → Server → Handled
  unfolding handle_kind
  respond [] kind b s = handle_kind kind b s
  respond (middleware ∷ rest) kind b s = elim (middleware node_id kind b) [
    | some bytes ↦ written s bytes
    | none ↦ respond rest kind b s
  ]

  -- The loop, over at most `n` requests: what is written, and the server after it.
  unfoldable pub handle_client : List Middleware → ℕ → Source → Server → Exec (List ℕ × Server)
  unfolding read_req respond
  handle_client middlewares zero r s = done ([], s)
  handle_client middlewares (suc n) r s = then_exec (read_req r) λ (envelope, later).
      elim envelope [
        | failed e ↦ done ([], s)
        | ok request ↦ then_exec (respond middlewares request.0 request.1 s) λ (reply, after).
            elim reply [
              | none ↦ done ([], after)
              | some b ↦
                  then_exec (handle_client middlewares n later after)
                    λ (rest, last). done (b ++ rest, last)
            ]
      ]
