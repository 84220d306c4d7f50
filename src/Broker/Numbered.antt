-- ===== src/Broker/Numbered.antt =====
-- What Produce of broker.go does to its messages.
use kafka.Base.{
  ℕ, zero, suc, ◌+◌, ◌%◌, ◌^◌, ◌<◌, ◌≡◌, refl, ap, ◌∙◌, List, [], ◌∷◌, Option, none, some, false,
  ◌==◌, length, map, arith,
}
use kafka.MessageSet.Message.{Message}
use kafka.Messages.ProduceResp.{ProduceResp, ProduceRespPartition}
use kafka.Connection.Outcome.{returned, NetworkErrors}
use kafka.Broker.Attempts.{took, gave_back}
use kafka.Broker.Producing.{produce, produce_once, assign_offsets, find_produced}

-- The offset of the i-th message, if there is one.
abbrev pub offset_at : ℕ → List Message → Option ℕ
offset_at i [] = none
offset_at zero (msg ∷ msgs) = some msg.offset
offset_at (suc i) (msg ∷ msgs) = offset_at i msgs

-- A message without its offset.
abbrev pub content : Message → Message
content msg = record msg { offset = 0 }

offset_at-assign_offsets :
    (i k offset : ℕ) (msgs : List Message)
    → i < length msgs
    → offset_at i (assign_offsets k offset msgs) ≡ some ((offset + (k + i)) % 2 ^ 64)
unfolding assign_offsets
offset_at-assign_offsets i k offset [] h = absurd (omega arith)
offset_at-assign_offsets zero k offset (msg ∷ msgs) h =
    ap (λ (n : ℕ). some (n % 2 ^ 64)) (omega arith)
offset_at-assign_offsets (suc i) k offset (msg ∷ msgs) h =
    offset_at-assign_offsets i (suc k) offset msgs (omega arith)
    ∙ ap (λ (n : ℕ). some (n % 2 ^ 64)) (omega arith)

content-assign_offsets :
    (k offset : ℕ) (msgs : List Message)
    → map content (assign_offsets k offset msgs) ≡ map content msgs
unfolding assign_offsets
content-assign_offsets k offset [] = refl
content-assign_offsets k offset (msg ∷ msgs) =
    ap (◌∷◌ (content msg)) (content-assign_offsets (suc k) offset msgs)

-- Produce with acknowledgements, on a connection to the leader and a response that has the partition
-- without an error, returns the partition's offset, gives the i-th message that offset plus i and leaves
-- its messages alone otherwise, and gives the connection back.
pub produce_numbers :
    (net : NetworkErrors) (required_acks : ℕ) (topic : List ℕ) (partition conn i : ℕ)
    (messages : List Message) (resp : ProduceResp) (part : ProduceRespPartition)
    → (required_acks == 0) ≡ false
    → find_produced topic partition resp ≡ some part
    → part.err ≡ none
    → i < length messages
    → let made =
        produce net required_acks topic partition messages (returned conn) (returned resp) in
      (made.offset ≡ returned part.offset)
      × (offset_at i made.messages ≡ some ((part.offset + i) % 2 ^ 64))
      × (map content made.messages ≡ map content messages)
      × (made.actions ≡ took conn ∷ gave_back conn ∷ [])
unfolding produce produce_once
produce_numbers net required_acks topic partition conn i messages resp part acked there fine
      inside =
    rw (acked, there, fine)
      (
        refl,
        offset_at-assign_offsets i 0 part.offset messages inside
            ∙ ap (λ (n : ℕ). some ((part.offset + n) % 2 ^ 64)) (omega arith),
        content-assign_offsets 0 part.offset messages,
        refl,
      )
