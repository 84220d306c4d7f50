-- ===== src/Producer/RoundRobin.antt =====
-- The calls of Distribute of distributing_producer.go, one after the other, while the producer succeeds.
use kafka.Base.{
  ℕ, zero, suc, ◌<◌, ◌≡◌, refl, ap, sym, ◌∙◌, List, [], ◌∷◌, ◌++◌, some, Bool, false, leb,
  if◌then◌else◌, length, arith, ◌+◌, ◌^◌, ◌%◌, map,
}
use native.Mathlib.Nat.{mod-eq_of_lt, add-mod_right}
use kafka.Base.Maps.{string_eq, lookup, lookup-assign, string_same_iff}
use kafka.Base.Program.{Exec, done, after, Program, pure, ◌>>=◌, ◌>>◌}
use kafka.Producer.Line.{PartitionData, fresh, starting, Line, make_line, partitions_from, receive}
use kafka.Producer.Manager.{
  PartitionManager, Handle, set_line, is_count, get_partition_count, rebuild, set_locked,
  set_partition_count, get_partition,
}
use kafka.Producer.Distribute.{Distributed, sent, distribute, report_success}
use kafka.Producer.Turns.{
  settled_at, settled, succeeding, distribute_times, same_self, round_from, round_from-snoc,
  length-round_from, partitions_from-round, queued, line_at, served, after_success, served_lem,
}

-- Where a topic stands before its k-th call.
record Turn (topic : List ℕ) (count k : ℕ) (m : PartitionManager) : Type 0 where
  pub id : ℕ
  pub data_of : ℕ → PartitionData
  pub found : lookup topic m.available_partitions ≡ some id
  pub waiting : m.lines id ≡ line_at count k data_of

-- What a success returns.
abbrev reported : (ℕ → ℕ) → Handle → Program PartitionManager Distributed
reported offset h m = done (sent h.partition (offset h.partition), after (report_success h m) m)

module _ (topic : List ℕ) (count : ℕ) (offset : ℕ → ℕ) where
  -- Distribute, once the count is set and a partition is taken.
  distribute_lem :
      (m t : PartitionManager) (id p : ℕ) (line : Line)
      → set_partition_count topic count m ≡ done (tt, t)
      → lookup topic t.available_partitions ≡ some id
      → receive (t.lines id) ≡ some (p, line)
      → distribute (some count) false (succeeding offset) topic m
        ≡ reported offset (record { line = id; partition = p }) (set_line id line t)
  unfolding distribute ◌>>=◌ ◌>>◌ get_partition pure report_success
  distribute_lem m t id p line counted found got = rw (counted, found, got) refl

mod-add_self : (k c : ℕ) → (suc k + c) % suc c ≡ k % suc c
mod-add_self k c = ap (λ (n : ℕ). n % suc c) (omega arith) ∙ add-mod_right k (suc c)

-- The line of a topic, with a partition in the hands of a caller.
abbrev taken_of : ℕ → ℕ → List ℕ → (ℕ → PartitionData) → Line
taken_of n p rest data_of = record {
  capacity = suc n;
  queue = rest;
  data_of = data_of;
  goroutines = record { partition = p; phase = starting } ∷ [];
}

abbrev handle : ℕ → ℕ → Handle
handle id p = record { line = id; partition = p }

abbrev taken : ℕ → List ℕ → (ℕ → PartitionData) → Line
taken p rest data_of = taken_of (length rest) p rest data_of

-- The manager after a call.
abbrev called_once : ℕ → ℕ → List ℕ → (ℕ → PartitionData) → PartitionManager → PartitionManager
called_once id p rest data_of t =
    let m = set_line id (taken p rest data_of) t in after (report_success (handle id p) m) m

called_once-line :
    (id p : ℕ) (rest : List ℕ) (data_of : ℕ → PartitionData) (t : PartitionManager)
    → (settled_at (called_once id p rest data_of t) (some id)).lines id
      ≡ served (suc (length rest)) p rest data_of
unfolding report_success
called_once-line id p rest data_of t = rw (same_self id) refl

called_once-available :
    (id p : ℕ) (rest : List ℕ) (data_of : ℕ → PartitionData) (t : PartitionManager)
    → (called_once id p rest data_of t).available_partitions ≡ t.available_partitions
unfolding report_success
called_once-available id p rest data_of t = refl

served-line_at :
    (c k : ℕ) (data_of : ℕ → PartitionData)
    → let p = k % suc c in
      let rest = round_from (suc c) (suc k) c in
      served (suc (length rest)) p rest data_of ≡ line_at (suc c) (suc k) (after_success p data_of)
served-line_at c k data_of =
    let p = k % suc c in
    let rest = round_from (suc c) (suc k) c in
    let d = after_success p data_of in
    let line : ℕ → List ℕ → Line =
      λ n queue. record { capacity = n; queue = queue; data_of = d; goroutines = [] } in
    served_lem (suc (length rest)) p rest data_of (omega arith)
    ∙ ap (λ (n : ℕ). line (suc n) (rest ++ (p ∷ []))) (length-round_from (suc c) (suc k) c)
    ∙ ap (λ (q : ℕ). line (suc c) (rest ++ (q ∷ []))) (sym (mod-add_self k c))
    ∙ ap (line (suc c)) (sym (round_from-snoc (suc c) (suc k) c))

module _ (topic : List ℕ) (c : ℕ) (offset : ℕ → ℕ) where
  -- The k-th call, of a topic whose count is set.
  abbrev Called : ℕ → PartitionManager → Type 0
  Called k m =
      (t : PartitionManager) × (distribute (some (suc c)) false (succeeding offset) topic m
        ≡ done (sent (k % suc c) (offset (k % suc c)), t))
      × Turn topic (suc c) (suc k) (settled topic t)

  Called_lem :
      (k : ℕ) (m t : PartitionManager)
      → set_partition_count topic (suc c) m ≡ done (tt, t)
      → Turn topic (suc c) k t
      → Called k m
  unfolding receive
  Called_lem k m t counted turn =
      let p = k % suc c in
      let rest = round_from (suc c) (suc k) c in
      let after_call = called_once turn.id p rest turn.data_of t in
      let size : length rest ≡ c = length-round_from (suc c) (suc k) c in
      let got : receive (t.lines turn.id) ≡ some (p, taken p rest turn.data_of) =
        rw turn.waiting (ap (λ (n : ℕ). some (p, taken_of n p rest turn.data_of)) (sym size)) in
      let found : lookup topic after_call.available_partitions ≡ some turn.id =
        rw (called_once-available turn.id p rest turn.data_of t) turn.found in
      (
        after_call,
        distribute_lem topic (suc c) offset m t turn.id p (taken p rest turn.data_of) counted
            turn.found got,
        rw found (record {
          id = turn.id;
          data_of = after_success p turn.data_of;
          found = found;
          waiting =
              called_once-line turn.id p rest turn.data_of t ∙ served-line_at c k turn.data_of;
        }),
      )

  -- What the i-th call of a round returns.
  abbrev turn_of : ℕ → Distributed
  turn_of i = sent (i % suc c) (offset (i % suc c))

  abbrev following : ℕ → PartitionManager → Exec (Distributed × PartitionManager) → List Distributed
  following n m called =
      let rest = distribute_times n (suc c) offset topic (settled topic (after called m)) in
      elim called [ done (d, t) ↦ d ∷ rest | _ ↦ rest ]

  distribute_times-suc :
      (n k : ℕ) (m : PartitionManager) (called : Called k m)
      → distribute_times (suc n) (suc c) offset topic m
        ≡ turn_of k ∷ distribute_times n (suc c) offset topic (settled topic called.0)
  unfolding distribute_times
  distribute_times-suc n k m called = ap (following n m) called.1

  module _ (small : suc c < 2 ^ 31) where
    counted_already :
        (k : ℕ) (m : PartitionManager)
        → Turn topic (suc c) k m
        → set_partition_count topic (suc c) m ≡ done (tt, m)
    unfolding set_partition_count get_partition_count
    counted_already k m turn =
        let exact : suc c % 2 ^ 32 ≡ suc c = mod-eq_of_lt (omega arith) in
        rw (turn.found, turn.waiting, exact, same_self (suc c)) refl

    distribute_times-turns :
        (n k : ℕ) (m : PartitionManager)
        → Turn topic (suc c) k m
        → distribute_times n (suc c) offset topic m ≡ map turn_of (partitions_from k n)
    unfolding distribute_times
    distribute_times-turns zero k m turn = refl
    distribute_times-turns (suc n) k m turn =
        let called = Called_lem k m m (counted_already k m turn) turn in
        distribute_times-suc n k m called
        ∙ ap (◌∷◌ (turn_of k)) (distribute_times-turns n (suc k) (settled topic called.0) called.2)

    -- The manager where a count is set anew.
    abbrev rebuilt : PartitionManager → PartitionManager
    rebuilt m = after (rebuild topic (suc c) m) m

    counted_anew :
        (m : PartitionManager)
        → is_count (suc c) (get_partition_count topic m) ≡ false
        → set_partition_count topic (suc c) m ≡ done (tt, rebuilt m)
    unfolding set_partition_count set_locked
    counted_anew m h = let fits : leb (2 ^ 31) (suc c) ≡ false = ground arith in rw (h, fits) refl

    rebuilt-Turn : (m : PartitionManager) → Turn topic (suc c) 0 (rebuilt m)
    unfolding make_line
    rebuilt-Turn m =
        let fits : leb (2 ^ 31) (suc c) ≡ false = ground arith in
        rw fits (record {
          id = m.made;
          data_of = λ p. fresh;
          found =
              lookup-assign topic topic m.made m.available_partitions
              ∙ ap (λ (b : Bool). if b then some m.made else lookup topic m.available_partitions)
                  ((string_same_iff topic topic).1 refl);
          waiting = rw (same_self m.made) (
              ap (queued (suc c) (λ p. fresh))
                (partitions_from-round (suc c) 0 (suc c) (omega arith)));
        })

    -- Once SetPartitionCount has made a topic's channel, for a count that it did not have, the calls of
    -- Distribute whose messages the producer takes go round all its partitions in their order, from 0
    -- on, with the offsets that Produce returned. Each call's goroutine ends before the next call.
    pub distribute_times-round_robin :
        (n : ℕ) (m : PartitionManager)
        → is_count (suc c) (get_partition_count topic m) ≡ false
        → distribute_times n (suc c) offset topic m ≡ map turn_of (partitions_from 0 n)
    unfolding distribute_times
    distribute_times-round_robin zero m h = refl
    distribute_times-round_robin (suc n) m h =
        let called = Called_lem 0 m (rebuilt m) (counted_anew m h) (rebuilt-Turn m) in
        distribute_times-suc n 0 m called
        ∙ ap (◌∷◌ (turn_of 0)) (distribute_times-turns n 1 (settled topic called.0) called.2)
