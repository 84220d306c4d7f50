-- ===== src/Connection/Trimmed.antt =====
-- What Fetch of connection.go makes of a response's topics and partitions.
use kafka.Base.{
  ℕ, ◌≤◌, true, false, Bool-cases, ◌++◌, All, ◌<◌, ◌≡◌, refl, ap, ◌⊎◌, inl, inr, List, [], ◌∷◌,
  length, arith,
}
use kafka.Base.Program.{Exec, done, panic}
use kafka.MessageSet.Message.{Message}
use kafka.Broker.Consumer.{trim, int64_ge}
use kafka.Messages.FetchReq.{FetchReqTopic, FetchReqPartition}
use kafka.Messages.FetchResp.{FetchRespTopic, FetchRespPartition}
use kafka.Connection.Calls.{trim_partition, trim_partitions, trim_topics}

-- Whether a message lies below the requested offset, and a list begins with one that does not.
abbrev pub Below : ℕ → Message → Type 0
Below requested msg = int64_ge msg.offset requested ≡ false

abbrev pub BeginsAt : ℕ → List Message → Type 0
BeginsAt requested [] = Unit {0}
BeginsAt requested (msg ∷ msgs) = int64_ge msg.offset requested ≡ true

-- A partition of which the messages in front that lie below the requested offset are cut off, and no other,
-- with everything else as it was.
pub record CutOff (req : FetchReqPartition) (part result : FetchRespPartition) : Type 0 where
  pub front : List Message
  pub split : part.messages ≡ front ++ result.messages
  pub below : All (Below req.fetch_offset) front
  pub reached : BeginsAt req.fetch_offset result.messages
  pub same : result ≡ record part { messages = result.messages }

-- Each partition, by the request's at the same index.
abbrev pub CutOffAll :
    List FetchReqPartition → List FetchRespPartition → List FetchRespPartition → Type 0
CutOffAll reqs [] [] = Unit {0}
CutOffAll (req ∷ reqs) (part ∷ parts) (result ∷ results) =
    CutOff req part result × CutOffAll reqs parts results
CutOffAll _ _ _ = ⊥

abbrev pub CutOffTopics : List FetchReqTopic → List FetchRespTopic → List FetchRespTopic → Type 0
CutOffTopics reqs [] [] = Unit {0}
CutOffTopics (req ∷ reqs) (topic ∷ topics) (result ∷ results) =
    (result.name ≡ topic.name)
    × CutOffAll req.partitions topic.partitions result.partitions
    × CutOffTopics reqs topics results
CutOffTopics _ _ _ = ⊥

-- The request has a topic and a partition at each index of the response.
abbrev pub Covers : List FetchReqTopic → List FetchRespTopic → Type 0
Covers reqs [] = Unit {0}
Covers [] (topic ∷ topics) = ⊥
Covers (req ∷ reqs) (topic ∷ topics) =
    (length topic.partitions ≤ length req.partitions) × Covers reqs topics

trim-cut :
    (requested : ℕ) (msgs : List Message)
    → (front : List Message) × (msgs ≡ front ++ trim requested msgs)
      × All (Below requested) front
      × BeginsAt requested (trim requested msgs)
unfolding trim
trim-cut requested [] = ([], refl, tt, tt)
trim-cut requested (msg ∷ msgs) = elim (Bool-cases (int64_ge msg.offset requested)) [
  | inl h ↦ rw h ([], refl, tt, h)
  | inr h ↦
      let (front, split, below, reached) = trim-cut requested msgs in
      rw h (msg ∷ front, ap (◌∷◌ msg) split, (h, below), reached)
]

trim_partitions-CutOff :
    (reqs : List FetchReqPartition) (parts : List FetchRespPartition)
    → length parts ≤ length reqs
    → (results : List FetchRespPartition) × (trim_partitions reqs parts ≡ done results)
      × CutOffAll reqs parts results
unfolding trim_partitions
trim_partitions-CutOff reqs [] h = ([], refl, tt)
trim_partitions-CutOff [] (part ∷ parts) h = absurd (omega arith)
trim_partitions-CutOff (req ∷ reqs) (part ∷ parts) h =
    let (results, eq, rest) = trim_partitions-CutOff reqs parts (omega arith) in
    let (front, split, below, reached) = trim-cut req.fetch_offset part.messages in
    (
      trim_partition req part ∷ results,
      rw eq refl,
      (
        record { front = front; split = split; below = below; reached = reached; same = refl },
        rest,
      ),
    )

-- Fetch's loops on a response that the request covers.
pub trim_topics-CutOff :
    (reqs : List FetchReqTopic) (topics : List FetchRespTopic)
    → Covers reqs topics
    → (results : List FetchRespTopic) × (trim_topics reqs topics ≡ done results)
      × CutOffTopics reqs topics results
unfolding trim_topics
trim_topics-CutOff reqs [] h = ([], refl, tt)
trim_topics-CutOff [] (topic ∷ topics) h = absurd h
trim_topics-CutOff (req ∷ reqs) (topic ∷ topics) h =
    let (parts, part_eq, cut) = trim_partitions-CutOff req.partitions topic.partitions h.0 in
    let (results, eq, rest) = trim_topics-CutOff reqs topics h.1 in
    (record topic { partitions = parts } ∷ results, rw (part_eq, eq) refl, (refl, cut, rest))

-- A loop of the model without fuel ends or panics.
abbrev Ends {ℓ} : {A : Type ℓ} → Exec A → Type ℓ
Ends {A = A} p = ((a : A) × (p ≡ done a)) ⊎ (p ≡ panic)

trim_partitions-Ends :
    (reqs : List FetchReqPartition) (parts : List FetchRespPartition)
    → Ends (trim_partitions reqs parts)
unfolding trim_partitions
trim_partitions-Ends reqs [] = inl ([], refl)
trim_partitions-Ends [] (part ∷ parts) = inr refl
trim_partitions-Ends (req ∷ reqs) (part ∷ parts) = elim (trim_partitions-Ends reqs parts) [
  | inl (rest, h) ↦ inl (trim_partition req part ∷ rest, rw h refl)
  | inr h ↦ inr (rw h refl)
]

-- The loops panic on more topics than the request has, whatever they hold.
pub trim_topics_panics :
    (reqs : List FetchReqTopic) (topics : List FetchRespTopic)
    → length reqs < length topics
    → trim_topics reqs topics ≡ panic
unfolding trim_topics
trim_topics_panics reqs [] h = absurd (omega arith)
trim_topics_panics [] (topic ∷ topics) h = refl
trim_topics_panics (req ∷ reqs) (topic ∷ topics) h =
    elim (trim_partitions-Ends req.partitions topic.partitions) [
      | inl (parts, g) ↦ rw (g, trim_topics_panics reqs topics (omega arith)) refl
      | inr g ↦ rw g refl
    ]
