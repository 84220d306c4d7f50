-- ===== src/Server/Stored.antt =====
-- What the mock server of kafkatest/server.go gives back of what it stored.
use kafka.Base.{
  ℕ, suc, ◌+◌, ◌%◌, ◌^◌, ◌<◌, ◌≡◌, refl, ap, sym, subst, ==_iff, ◌∙◌, List, [], ◌∷◌, ◌++◌, none,
  some, Bool, true, false, ◌&&◌, ◌==◌, length, length-append, drop-length_append, append_assoc,
  append-nil, if◌then◌else◌, arith, Bool-cases, inl, inr,
}
use kafka.Base.Maps.{ℕ_eq, string_eq, string_same, string_same_iff, lookup, assign, lookup-assign}
use kafka.Base.Program.{done}
use kafka.Wire.BigEndian.{is_negative64}
use kafka.MessageSet.Message.{Message}
use kafka.Messages.ProduceReq.{ProduceReq, ProduceReqTopic}
use kafka.Messages.FetchReq.{FetchReq, FetchReqTopic}
use kafka.Cluster.Refresh.{int64_gt}
use kafka.Server.Store.{Server, TopicOffset, or_empty, or_no_messages}
use kafka.Server.Handlers.{
  append_all, handle_produce_request, produce_topics, produce_partitions, handle_fetch_request,
  fetch_topics, fetch_partitions, fetch_stored,
}
use kafka.Server.Offsets.{get_topic_offset, set_topic_offset, groups_of}

-- The messages as they are stored, from an offset on.
abbrev pub numbered : List ℕ → ℕ → List Message → List Message
numbered topic offset [] = []
numbered topic offset (msg ∷ msgs) =
    record msg { offset = offset % 2 ^ 64; topic = topic } ∷ numbered topic (suc offset) msgs

append_all-numbered :
    (topic : List ℕ) (stored msgs : List Message)
    → append_all topic stored msgs ≡ stored ++ numbered topic (length stored) msgs
unfolding append_all
append_all-numbered topic stored [] = sym (append-nil stored)
append_all-numbered topic stored (msg ∷ msgs) =
    let one : Message = record msg { offset = length stored % 2 ^ 64; topic = topic } in
    let longer : length (stored ++ (one ∷ [])) ≡ suc (length stored) =
      omega (arith, length-append stored (one ∷ [])) in
    append_all-numbered topic (stored ++ (one ∷ [])) msgs
    ∙ ap (λ (n : ℕ). (stored ++ (one ∷ [])) ++ numbered topic n msgs) longer
    ∙ append_assoc stored (one ∷ []) (numbered topic (suc (length stored)) msgs)

length-numbered :
    (topic : List ℕ) (offset : ℕ) (msgs : List Message)
    → length (numbered topic offset msgs) ≡ length msgs
length-numbered topic offset [] = refl
length-numbered topic offset (msg ∷ msgs) = ap suc (length-numbered topic (suc offset) msgs)

-- The messages of a partition.
abbrev pub stored_messages : List ℕ → ℕ → Server → List Message
stored_messages topic id s = or_no_messages (lookup id (or_empty (lookup topic s.topics)))

same_string : (a : List ℕ) → string_same a a ≡ true
same_string a = (string_same_iff a a).1 refl

same_number : (n : ℕ) → (n == n) ≡ true
same_number n = ground arith

-- A fetch from the end of what was there gives what came behind it.
fetch_stored_lem :
    (id max_bytes : ℕ) (old new : List Message)
    → length old + length new < 2 ^ 63
    → fetch_stored
        (record { id = id; fetch_offset = length old; max_bytes = max_bytes })
        (some (old ++ new))
      ≡ done (record { id = id; err = none; tip_offset = length old + length new; messages = new })
fetch_stored_lem id max_bytes old new small =
    let sum = length-append old new in
    let inside : int64_gt (length old) (length (old ++ new)) ≡ false = ground (arith, sum) in
    let positive : is_negative64 (length old) ≡ false = ground arith in
    rw (inside, positive, sum, drop-length_append old new) refl

-- A request to produce to one partition, and one to fetch from it.
abbrev pub one_produced : List ℕ → ℕ → List Message → List ProduceReqTopic
one_produced topic id msgs =
    record { name = topic; partitions = (record { id = id; messages = msgs } ∷ []) } ∷ []

abbrev pub one_fetched : List ℕ → ℕ → ℕ → ℕ → List FetchReqTopic
one_fetched topic id offset max_bytes =
    record {
      name = topic;
      partitions = (record { id = id; fetch_offset = offset; max_bytes = max_bytes } ∷ []);
    }
    ∷ []

-- What a client produces to a partition of the mock server, and then fetches from the offset that the
-- partition ended at, is exactly what it produced: in its order, under the topic's name and with
-- consecutive offsets from there on, and with the end of the partition as tip offset. Its length and what
-- was stored before are together below 2 ^ 63.
pub fetch-produce :
    (produce : ProduceReq) (fetch : FetchReq) (topic : List ℕ) (id max_bytes : ℕ)
    (msgs : List Message) (s : Server)
    → produce.topics ≡ one_produced topic id msgs
    → fetch.topics ≡ one_fetched topic id (length (stored_messages topic id s)) max_bytes
    → length (stored_messages topic id s) + length msgs < 2 ^ 63
    → handle_fetch_request fetch (handle_produce_request produce s).1
      ≡ done (record {
        correlation_id = fetch.correlation_id;
        topics =
            (record {
              name = topic;
              partitions =
                  (record {
                    id = id;
                    err = none;
                    tip_offset = length (stored_messages topic id s) + length msgs;
                    messages = numbered topic (length (stored_messages topic id s)) msgs;
                  }
                    ∷ []);
            }
              ∷ []);
      })
unfolding handle_fetch_request fetch_topics fetch_partitions handle_produce_request produce_topics
    produce_partitions
fetch-produce produce fetch topic id max_bytes msgs s made asked small =
    let old = stored_messages topic id s in
    let new = numbered topic (length old) msgs in
    let parts = or_empty (lookup topic s.topics) in
    let whole = append_all topic old msgs in
    let count = length-numbered topic (length old) msgs in
    rw (made, asked)
      (rw
        (
          lookup-assign topic topic (assign id whole parts) s.topics,
          same_string topic,
          lookup-assign id id whole parts,
          same_number id,
          append_all-numbered topic old msgs,
          fetch_stored_lem id max_bytes old new (omega (arith, count)),
          count,
        )
        refl)

-- Which entry an assignment to the committed offsets changes.
abbrev pub same_entry : List ℕ → List ℕ → ℕ → List ℕ → List ℕ → ℕ → Bool
same_entry group topic part group' topic' part' =
    string_same topic' topic && (part' == part && string_same group' group)

at_group :
    (group topic group' : List ℕ) (part : ℕ) (o : TopicOffset) (s : Server)
    → get_topic_offset group topic part (set_topic_offset group' topic part o s)
      ≡ (if string_same group' group then o else get_topic_offset group topic part s)
unfolding get_topic_offset set_topic_offset
at_group group topic group' part o s =
    let groups = groups_of topic part s in
    rw
      (
        lookup-assign topic topic _ s.offsets,
        same_string topic,
        lookup-assign part part (assign group' o groups) (or_empty (lookup topic s.offsets)),
        same_number part,
        lookup-assign group group' o groups,
      )
      (elim (Bool-cases (string_same group' group)) [ inl g ↦ rw g refl | inr g ↦ rw g refl ])

at_part :
    (group topic group' : List ℕ) (part part' : ℕ) (o : TopicOffset) (s : Server)
    → get_topic_offset group topic part (set_topic_offset group' topic part' o s) ≡ (
        if part' == part && string_same group' group
        then o
        else get_topic_offset group topic part s)
unfolding get_topic_offset set_topic_offset
at_part group topic group' part part' o s = elim (Bool-cases (part' == part)) [
  | inl p ↦ rw p (
      subst
        (λ (x : ℕ).
          get_topic_offset group topic part (set_topic_offset group' topic x o s)
          ≡ (if string_same group' group then o else get_topic_offset group topic part s))
        (sym ((==_iff part' part).0 p)) (at_group group topic group' part o s))
  | inr p ↦
      rw
        (
          p,
          lookup-assign topic topic _ s.offsets,
          same_string topic,
          lookup-assign part part' (assign group' o (groups_of topic part' s))
              (or_empty (lookup topic s.offsets)),
          p,
        )
        refl
]

-- An assignment to a committed offset is what getTopicOffset finds afterwards for its group, topic and
-- partition, and leaves every other as it was.
pub get_topic_offset-set :
    (group topic group' topic' : List ℕ) (part part' : ℕ) (o : TopicOffset) (s : Server)
    → get_topic_offset group topic part (set_topic_offset group' topic' part' o s) ≡ (
        if same_entry group topic part group' topic' part'
        then o
        else get_topic_offset group topic part s)
unfolding get_topic_offset set_topic_offset
get_topic_offset-set group topic group' topic' part part' o s =
    elim (Bool-cases (string_same topic' topic)) [
      | inl t ↦
          let rest = part' == part && string_same group' group in
          let old = get_topic_offset group topic part s in
          subst
            (λ (x : List ℕ).
              get_topic_offset group topic part (set_topic_offset group' x part' o s)
              ≡ (if rest then o else old))
            (sym ((string_same_iff topic' topic).0 t)) (at_part group topic group' part part' o s)
          ∙ ap (λ (b : Bool). if b && rest then o else old) (sym t)
      | inr t ↦ rw (lookup-assign topic topic' _ s.offsets, t) refl
    ]
