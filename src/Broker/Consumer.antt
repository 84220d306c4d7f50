-- ===== src/Broker/Consumer.antt =====
-- The consumer of broker.go, and the trimming of what it fetches in connection.go. The outcomes of the
-- fetches are given, in their order: messages or an error.
use kafka.Base.{
  ℕ, ◌+◌, ◌-◌, ◌%◌, ◌^◌, List, [], ◌∷◌, Option, none, some, Bool, not, ◌&&◌, ◌||◌, ◌==◌, leb,
  if◌then◌else◌,
}
use kafka.Wire.BigEndian.{is_negative64}
use kafka.Wire.Errors.{Error}
use kafka.Wire.Decoder.{Result, ok, failed}
use kafka.MessageSet.Message.{Message}

-- `a >= b` on int64.
abbrev pub int64_ge : ℕ → ℕ → Bool
int64_ge a b = if is_negative64 a then is_negative64 b && leb b a else is_negative64 b || leb b a

-- The loop of Fetch that drops leading messages below the requested offset.
unfoldable pub trim : ℕ → List Message → List Message
trim fetch_offset [] = []
trim fetch_offset (msg ∷ msgs) =
    if int64_ge msg.offset fetch_offset then msg ∷ msgs else trim fetch_offset msgs

pub record Consumer : Type 0 where
  -- conf.RetryLimit, an int
  pub retry_limit : ℕ
  pub offset : ℕ
  pub msgbuf : List Message

-- The outcomes of the fetches that are still to come.
abbrev pub Fetches : Type 0
Fetches = List (Result (List Message))

-- What consume returns; `fetching` is a call that has not returned.
pub data Batch : Type 0 where
  got : Message → List Message → Batch
  no_data fetching : Batch
  fetch_failed : Error → Batch

-- `c.conf.RetryLimit != -1 && retry > c.conf.RetryLimit`
unfoldable pub gives_up : ℕ → ℕ → Bool
gives_up limit retry = not (limit == 2 ^ 64 - 1) && not (int64_ge limit retry)

unfoldable pub consume : ℕ → ℕ → Fetches → Batch × Fetches
unfolding gives_up
consume limit retry [] = (fetching, [])
consume limit retry (failed e ∷ fetches) = (fetch_failed e, fetches)
consume limit retry (ok [] ∷ fetches) =
    let more = consume limit ((retry + 1) % 2 ^ 64) fetches in
    if gives_up limit ((retry + 1) % 2 ^ 64) then (no_data, fetches) else more
consume limit retry (ok (msg ∷ msgs) ∷ fetches) = (got msg msgs, fetches)

-- A call of Consume: its message, if it returned one, the fetches left and the consumer after it.
pub record Called : Type 0 where
  pub message : Option Message
  pub fetches : Fetches
  pub after : Consumer

abbrev take_first : Message → List Message → Fetches → Consumer → Called
take_first msg msgs fetches c = record {
  message = some msg;
  fetches = fetches;
  after = record c { offset = (msg.offset + 1) % 2 ^ 64; msgbuf = msgs };
}

-- An error leaves no messages, as `c.msgbuf` is assigned before it is looked at.
unfoldable pub take_batch : Batch → Fetches → Consumer → Called
take_batch (got msg msgs) fetches c = take_first msg msgs fetches c
take_batch _ fetches c = record {
  message = none;
  fetches = fetches;
  after = record c { msgbuf = [] };
}

unfoldable pub consume_from : List Message → Fetches → Consumer → Called
unfolding consume take_batch
consume_from [] fetches c =
    let (batch, rest) = consume c.retry_limit 0 fetches in take_batch batch rest c
consume_from (msg ∷ msgs) fetches c = take_first msg msgs fetches c

-- Consume.
unfoldable pub consume_one : Fetches → Consumer → Called
unfolding consume_from
consume_one fetches c = consume_from c.msgbuf fetches c

abbrev pub last_of_batch : Message → List Message → Message
last_of_batch msg [] = msg
last_of_batch msg (m ∷ msgs) = last_of_batch m msgs

-- ConsumeBatch leaves the buffer alone.
unfoldable pub consume_batch : Fetches → Consumer → Batch × Consumer
unfolding consume
consume_batch fetches c = elim (consume c.retry_limit 0 fetches).0 [
  | got msg msgs ↦
      (got msg msgs, record c { offset = ((last_of_batch msg msgs).offset + 1) % 2 ^ 64 })
  | no_data ↦ (no_data, c)
  | fetching ↦ (fetching, c)
  | fetch_failed e ↦ (fetch_failed e, c)
]

-- SeekToLatest, with the outcome of OffsetLatest.
unfoldable pub seek_to_latest : Result ℕ → Consumer → Consumer
seek_to_latest (failed e) c = c
seek_to_latest (ok off) c = record c { offset = off; msgbuf = [] }
