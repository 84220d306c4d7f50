-- ===== src/Broker/Delivery.antt =====
-- What the calls of Consume deliver, one after the other.
use kafka.Base.{
  ℕ, zero, suc, ◌+◌, ◌-◌, ◌%◌, ◌^◌, ◌≡◌, refl, ap, List, [], ◌∷◌, ◌++◌, none, some, true, false,
  map, join_map, take, ◌⊎◌, ◌∙◌, inl, inr, All,
}
use kafka.Wire.Decoder.{ok}
use kafka.MessageSet.Message.{Message}
use kafka.Broker.Consumer.{
  Consumer, Fetches, Batch, got, fetching, Called, consume, gives_up, consume_one, consume_from,
  take_batch, trim, int64_ge,
}

-- `n` calls of Consume, and the messages that they return.
unfoldable pub consume_times : ℕ → Fetches → Consumer → List Message
consume_times zero fetches c = []
consume_times (suc n) fetches c =
    let called = consume_one fetches c in
    let rest = consume_times n called.fetches called.after in
    elim called.message [ none ↦ rest | some msg ↦ msg ∷ rest ]

abbrev pub batches_of : List (List Message) → List Message
batches_of bs = join_map (λ b. b) bs

take_nothing : (n : ℕ) → take {A = Message} n [] ≡ []
take_nothing zero = refl
take_nothing (suc n) = refl

abbrev unlimited : ℕ
unlimited = 2 ^ 64 - 1

-- What consume finds among the batches to come: the first that is not empty, or none.
abbrev Found : ℕ → List (List Message) → Type 0
Found retry bs =
    ((batches_of bs ≡ []) × (consume unlimited retry (map ok bs) ≡ (fetching, [])))
    ⊎ ((msg : Message) × (msgs : List Message) × (rest : List (List Message)) × (batches_of bs
          ≡ (msg ∷ msgs) ++ batches_of rest)
        × (consume unlimited retry (map ok bs) ≡ (got msg msgs, map ok rest)))

consume-Found : (retry : ℕ) (bs : List (List Message)) → Found retry bs
unfolding consume gives_up
consume-Found retry [] = inl (refl, refl)
consume-Found retry ([] ∷ bs) = consume-Found ((retry + 1) % 2 ^ 64) bs
consume-Found retry ((msg ∷ msgs) ∷ bs) = inr (msg, msgs, bs, refl, refl)

-- What a call leads to.
abbrev after_called : ℕ → Called → List Message
after_called n called =
    let rest = consume_times n called.fetches called.after in
    elim called.message [ none ↦ rest | some msg ↦ msg ∷ rest ]

abbrev empty_at : ℕ → Consumer
empty_at offset = record { retry_limit = unlimited; offset = offset; msgbuf = [] }

-- A call on an empty buffer, by what consume finds.
consume_times-found :
    (n : ℕ) (fetches : Fetches) (offset : ℕ) (found : Batch × Fetches)
    → consume unlimited 0 fetches ≡ found
    → consume_times (suc n) fetches (empty_at offset)
      ≡ after_called n (take_batch found.0 found.1 (empty_at offset))
unfolding consume_times consume_one consume_from
consume_times-found n fetches offset found h =
    ap (λ (f : Batch × Fetches). after_called n (take_batch f.0 f.1 (empty_at offset))) h

-- A consumer without a retry limit delivers, call by call, the messages in its buffer and then those of
-- the fetched batches, in their order: none is lost, repeated or moved, whichever batches are empty and
-- however many calls are made.
pub consume_times-take :
    (n : ℕ) (bs : List (List Message)) (offset : ℕ) (buf : List Message)
    → consume_times n
        (map ok bs)
        (record { retry_limit = unlimited; offset = offset; msgbuf = buf })
      ≡ take n (buf ++ batches_of bs)
unfolding consume_times consume_one consume_from take_batch
consume_times-take zero bs offset buf = refl
consume_times-take (suc n) bs offset (msg ∷ msgs) =
    ap (◌∷◌ msg) (consume_times-take n bs ((msg.offset + 1) % 2 ^ 64) msgs)
consume_times-take (suc n) bs offset [] = elim (consume-Found 0 bs) [
  | inl found ↦ rw found.0 (
      consume_times-found n (map ok bs) offset (fetching, []) found.1
      ∙ consume_times-take n [] offset []
      ∙ take_nothing n)
  | inr (msg, msgs, rest, whole, found) ↦ rw whole (
      consume_times-found n (map ok bs) offset (got msg msgs, map ok rest) found
      ∙ ap (◌∷◌ msg) (consume_times-take n rest ((msg.offset + 1) % 2 ^ 64) msgs))
]

-- The messages in front that are below the requested offset.
abbrev AllBelow : ℕ → List Message → Type 0
AllBelow fetch_offset = All (λ msg. int64_ge msg.offset fetch_offset ≡ false)

-- Fetch drops the messages in front that lie below the requested offset, and keeps the rest from the
-- first message that does not, whatever the offsets behind it are.
pub trim-append :
    (fetch_offset : ℕ) (front : List Message) (msg : Message) (msgs : List Message)
    → AllBelow fetch_offset front
    → int64_ge msg.offset fetch_offset ≡ true
    → trim fetch_offset (front ++ (msg ∷ msgs)) ≡ msg ∷ msgs
unfolding trim
trim-append fetch_offset [] msg msgs below here = rw here refl
trim-append fetch_offset (m ∷ front) msg msgs below here =
    rw below.0 (trim-append fetch_offset front msg msgs below.1 here)
