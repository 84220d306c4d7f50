-- ===== src/Producer/Handing.antt =====
-- What the partitionManager of distributing_producer.go keeps, whichever callers and goroutines run and
-- in whichever order.
use kafka.Base.{
  ℕ, ◌<◌, ◌≡◌, refl, List, [], ◌∷◌, ◌++◌, none, some, Option, Bool, true, false, ltb, leb, ◌==◌,
  length, arith, inl, inr, Bool-cases, ◌+◌, ◌^◌, ap,
}
use kafka.Base.Maps.{string_eq, lookup}
use kafka.Base.Program.{Exec, done, after}
use kafka.Producer.Line.{
  Line, Goroutine, Case, make_line, success, failure, receive, hand_out, run_goroutine,
}
use kafka.Producer.Manager.{
  PartitionManager, Handle, new_partition_manager, set_line, is_count, get_partition_count, rebuild,
  set_locked, get_partition, get_from, handed_out,
}
use kafka.Producer.Distribute.{report_success, report_failure}
use kafka.Producer.Balanced.{
  Balanced, LeftBalanced, times, partitions_of, one_if, make_line-Balanced, success-Balanced,
  failure-Balanced, receive-Balanced, run_goroutine-Balanced, room,
}

-- The managers that any calls and goroutines lead to. SetPartitionCount does nothing or goes on under its
-- lock; Success and Failure may come at any time, for an object of any channel.
pub data Reachable : PartitionManager → Type 0 where
  start : Reachable new_partition_manager
  counted :
      {m : PartitionManager} (topic : List ℕ) (count : ℕ)
      → Reachable m
      → Reachable (after (set_locked topic count m) m)
  got :
      {m : PartitionManager} (timed_out : Bool) (topic : List ℕ)
      → Reachable m
      → Reachable (after (get_partition timed_out topic m) m)
  succeeded :
      {m : PartitionManager} (h : Handle) → Reachable m → Reachable (after (report_success h m) m)
  failed_once :
      {m : PartitionManager} (h : Handle) → Reachable m → Reachable (after (report_failure h m) m)
  ran :
      {m : PartitionManager} (c : Case) (id i : ℕ)
      → Reachable m
      → Reachable (set_line id (run_goroutine c i (m.lines id)) m)

abbrev AllBalanced : PartitionManager → Type 0
AllBalanced m = (id : ℕ) → Balanced (m.lines id)

set_line-AllBalanced :
    (id : ℕ) (line : Line) (m : PartitionManager)
    → Balanced line
    → AllBalanced m
    → AllBalanced (set_line id line m)
set_line-AllBalanced id line m b all j = elim (Bool-cases (j == id)) [
  | inl h ↦ rw h b
  | inr h ↦ rw h (all j)
]

rebuild-AllBalanced :
    (topic : List ℕ) (count : ℕ) (m : PartitionManager)
    → AllBalanced m
    → AllBalanced (after (rebuild topic count m) m)
rebuild-AllBalanced topic count m all = elim (Bool-cases (leb (2 ^ 31) count)) [
  | inl h ↦ rw h all
  | inr h ↦ rw h (set_line-AllBalanced m.made (make_line count) m (make_line-Balanced count) all)
]

set_locked-AllBalanced :
    (topic : List ℕ) (count : ℕ) (m : PartitionManager)
    → AllBalanced m
    → AllBalanced (after (set_locked topic count m) m)
unfolding set_locked
set_locked-AllBalanced topic count m all =
    elim (Bool-cases (is_count count (get_partition_count topic m))) [
      | inl h ↦ rw h all
      | inr h ↦ rw h (rebuild-AllBalanced topic count m all)
    ]

handed_out-AllBalanced :
    (id : ℕ) (m : PartitionManager) (found : Option (ℕ × Line))
    → LeftBalanced found
    → AllBalanced m
    → AllBalanced (handed_out id m found).1
handed_out-AllBalanced id m none b all = all
handed_out-AllBalanced id m (some (p, line)) b all = set_line-AllBalanced id line m b all

get_from-AllBalanced :
    (timed_out : Bool) (m : PartitionManager) (found : Option ℕ)
    → AllBalanced m
    → AllBalanced (get_from timed_out m found).1
get_from-AllBalanced timed_out m none all = all
get_from-AllBalanced true m (some id) all = all
get_from-AllBalanced false m (some id) all =
    handed_out-AllBalanced id m (receive (m.lines id)) (receive-Balanced (m.lines id) (all id)) all

Reachable-AllBalanced : {m : PartitionManager} → Reachable m → AllBalanced m
unfolding new_partition_manager get_partition report_success report_failure
Reachable-AllBalanced start = λ id. make_line-Balanced 0
Reachable-AllBalanced (counted {m = m} topic count r) =
    set_locked-AllBalanced topic count m (Reachable-AllBalanced r)
Reachable-AllBalanced (got {m = m} timed_out topic r) =
    get_from-AllBalanced timed_out m (lookup topic m.available_partitions) (Reachable-AllBalanced r)
Reachable-AllBalanced (succeeded {m = m} h r) =
    let all = Reachable-AllBalanced r in
    set_line-AllBalanced h.line (success h.partition (m.lines h.line)) m
      (success-Balanced h.partition (m.lines h.line) (all h.line)) all
Reachable-AllBalanced (failed_once {m = m} h r) =
    let all = Reachable-AllBalanced r in
    set_line-AllBalanced h.line (failure h.partition (m.lines h.line)) m
      (failure-Balanced h.partition (m.lines h.line) (all h.line)) all
Reachable-AllBalanced (ran {m = m} c id i r) =
    let all = Reachable-AllBalanced r in
    set_line-AllBalanced id (run_goroutine c i (m.lines id)) m
      (run_goroutine-Balanced c i (m.lines id) (all id)) all

-- Whatever calls and goroutines run, and in whichever order, every partition below a channel's capacity
-- is either in the channel or with one goroutine of reEnqueue, and once in all; no other partition is.
pub partitions_once :
    {m : PartitionManager} (id p : ℕ)
    → Reachable m
    → times p (m.lines id).queue + times p (partitions_of (m.lines id).goroutines)
      ≡ one_if (ltb p (m.lines id).capacity)
partitions_once id p r = (Reachable-AllBalanced r id).once p

-- The programmer error of reEnqueue never happens: while a goroutine of a channel has not ended, the
-- channel has room for its partition, also where the channel was replaced.
pub send_has_room :
    {m : PartitionManager} (id : ℕ) (before after : List Goroutine) (g : Goroutine)
    → Reachable m
    → (m.lines id).goroutines ≡ before ++ (g ∷ after)
    → length (m.lines id).queue < (m.lines id).capacity
send_has_room {m} id before after g r h =
    room before after g (m.lines id) h (Reachable-AllBalanced r id)

-- What a call of GetPartition returned.
abbrev pub handle_of : Exec (Option Handle × PartitionManager) → Option Handle
handle_of (done (o, m)) = o
handle_of _ = none

-- The object is of a partition that no goroutine has, and that the channel counts.
abbrev pub Alone : PartitionManager → Option Handle → Type 0
Alone m none = Unit
Alone m (some h) =
    (h.partition < (m.lines h.line).capacity)
    × (times h.partition (partitions_of (m.lines h.line).goroutines) ≡ 0)

hand_out-Alone :
    (id : ℕ) (queue : List ℕ) (m : PartitionManager)
    → (m.lines id).queue ≡ queue
    → Balanced (m.lines id)
    → Alone m (handed_out id m (hand_out queue (m.lines id))).0
hand_out-Alone id [] m h b = tt
hand_out-Alone id (p ∷ rest) m h b =
    let here = ap (λ (q : List ℕ). times p q) h in ground (arith, b.once p, here)

get_from-Alone :
    (timed_out : Bool) (m : PartitionManager) (found : Option ℕ)
    → ((id : ℕ) → Balanced (m.lines id))
    → Alone m (get_from timed_out m found).0
unfolding receive
get_from-Alone timed_out m none all = tt
get_from-Alone true m (some id) all = tt
get_from-Alone false m (some id) all = hand_out-Alone id (m.lines id).queue m refl (all id)

-- Where GetPartition hands an object out, its partition is below the capacity of its channel, and no
-- goroutine of reEnqueue is running or sleeping for it: a suspended partition is not handed out.
pub get_partition-Alone :
    {m : PartitionManager} (timed_out : Bool) (topic : List ℕ)
    → Reachable m
    → Alone m (handle_of (get_partition timed_out topic m))
unfolding get_partition
get_partition-Alone {m} timed_out topic r =
    get_from-Alone timed_out m (lookup topic m.available_partitions) (Reachable-AllBalanced r)
