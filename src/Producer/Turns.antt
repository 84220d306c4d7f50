-- ===== src/Producer/Turns.antt =====
-- The channel of a topic of distributing_producer.go as its partitions are taken and come back in turn.
use kafka.Base.{
  ℕ, zero, suc, ◌≤◌, ◌<◌, ◌≡◌, refl, ap, ◌∙◌, List, [], ◌∷◌, ◌++◌, none, some, Option, true, false,
  ltb, ◌==◌, if◌then◌else◌, length, arith, ◌+◌, ◌%◌,
}
use native.Mathlib.Nat.{mod-eq_of_lt}
use kafka.Base.Maps.{string_eq, lookup}
use kafka.Base.Program.{done, after}
use kafka.Wire.Decoder.{Result, ok}
use kafka.Producer.Line.{
  PartitionData, starting, Line, timer, partitions_from, success, run_goroutine,
}
use kafka.Producer.Manager.{PartitionManager, set_line}
use kafka.Producer.Distribute.{Distributed, distribute}

-- The goroutine that the last call started comes to its end.
abbrev pub settled_line : Line → Line
settled_line line = run_goroutine timer 0 (run_goroutine timer 0 line)

abbrev pub settled_at : PartitionManager → Option ℕ → PartitionManager
settled_at m none = m
settled_at m (some id) = set_line id (settled_line (m.lines id)) m

abbrev pub settled : List ℕ → PartitionManager → PartitionManager
settled topic m = settled_at m (lookup topic m.available_partitions)

abbrev pub succeeding : (ℕ → ℕ) → ℕ → Result ℕ
succeeding offset p = ok (offset p)

-- `n` calls for one topic, each of which ends, with the goroutine that it started, before the next.
unfoldable pub distribute_times : ℕ → ℕ → (ℕ → ℕ) → List ℕ → PartitionManager → List Distributed
distribute_times zero count offset topic m = []
distribute_times (suc n) count offset topic m =
    let called = distribute (some count) false (succeeding offset) topic m in
    let rest = distribute_times n count offset topic (settled topic (after called m)) in
    elim called [ done (d, t) ↦ d ∷ rest | _ ↦ rest ]

pub same_self : (n : ℕ) → (n == n) ≡ true
same_self n = ground arith

-- One round of the partitions, from the k-th call on.
abbrev pub round_from : ℕ → ℕ → ℕ → List ℕ
round_from count k zero = []
round_from count k (suc n) = k % count ∷ round_from count (suc k) n

pub round_from-snoc :
    (count k n : ℕ) → round_from count k (suc n) ≡ round_from count k n ++ ((k + n) % count ∷ [])
round_from-snoc count k zero = ap (λ (j : ℕ). j % count ∷ []) (omega arith)
round_from-snoc count k (suc n) = ap (◌∷◌ (k % count)) (
    round_from-snoc count (suc k) n
    ∙ ap (λ (j : ℕ). round_from count (suc k) n ++ (j % count ∷ [])) (omega arith))

pub length-round_from : (count k n : ℕ) → length (round_from count k n) ≡ n
length-round_from count k zero = refl
length-round_from count k (suc n) = ap suc (length-round_from count (suc k) n)

pub partitions_from-round :
    (count i n : ℕ) → i + n ≤ count → partitions_from i n ≡ round_from count i n
partitions_from-round count i zero h = refl
partitions_from-round count i (suc n) h =
    let small : i % count ≡ i = mod-eq_of_lt (omega arith) in
    rw small (ap (◌∷◌ i) (partitions_from-round count (suc i) n (omega arith)))

-- The line of a topic before its k-th call.
abbrev pub queued : ℕ → (ℕ → PartitionData) → List ℕ → Line
queued count data_of queue = record {
  capacity = count;
  queue = queue;
  data_of = data_of;
  goroutines = [];
}

abbrev pub line_at : ℕ → ℕ → (ℕ → PartitionData) → Line
line_at count k data_of = queued count data_of (round_from count k count)

-- The line after a partition was taken, produced to and enqueued again.
abbrev pub served : ℕ → ℕ → List ℕ → (ℕ → PartitionData) → Line
served count p rest data_of = settled_line (
    success p (record {
      capacity = count;
      queue = rest;
      data_of = data_of;
      goroutines = record { partition = p; phase = starting } ∷ [];
    }))

abbrev pub after_success : ℕ → (ℕ → PartitionData) → ℕ → PartitionData
after_success p data_of q =
    if q == p then record { successive_failures = 0; reset = true } else data_of q

pub served_lem :
    (count p : ℕ) (rest : List ℕ) (data_of : ℕ → PartitionData)
    → length rest < count
    → served count p rest data_of ≡ record {
      capacity = count;
      queue = rest ++ (p ∷ []);
      data_of = after_success p data_of;
      goroutines = [];
    }
unfolding run_goroutine success
served_lem count p rest data_of h =
    let less : ltb (length rest) count ≡ true = ground arith in rw (same_self p, less) refl
