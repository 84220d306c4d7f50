-- ===== src/Producer/Manager.antt =====
-- partitionManager of distributing_producer.go. A channel is named by its place among those that were
-- ever made, so a replaced one is still there for the objects and goroutines that refer to it.
use kafka.Base.{
  ℕ, suc, ◌%◌, ◌^◌, List, [], Option, none, some, Bool, true, false, leb, ◌==◌, if◌then◌else◌,
}
use kafka.Base.Maps.{Map, string_eq, lookup, assign}
use kafka.Base.Program.{Exec, done, panic, Program}
use kafka.Producer.Line.{Line, make_line, receive}

pub record PartitionManager : Type 0 where
  pub available_partitions : Map (List ℕ) ℕ
  pub lines : ℕ → Line
  -- how many channels were made
  pub made : ℕ

unfoldable pub new_partition_manager : PartitionManager
unfolding make_line
new_partition_manager = record { available_partitions = []; lines = λ id. make_line 0; made = 0 }

abbrev pub set_line : ℕ → Line → PartitionManager → PartitionManager
set_line id line m = record m { lines = λ j. if j == id then line else m.lines j }

-- `int32(cap(availablePartitions))`
abbrev pub count_of : PartitionManager → Option ℕ → Option ℕ
count_of m none = none
count_of m (some id) = some ((m.lines id).capacity % 2 ^ 32)

-- GetPartitionCount; none is its error.
unfoldable pub get_partition_count : List ℕ → PartitionManager → Option ℕ
unfolding lookup
get_partition_count topic m = count_of m (lookup topic m.available_partitions)

abbrev pub is_count : ℕ → Option ℕ → Bool
is_count count none = false
is_count count (some n) = n == count

-- The channel that replaces the topic's; `make` panics on a negative size.
abbrev pub rebuild : List ℕ → ℕ → PartitionManager → Exec (Unit {0} × PartitionManager)
rebuild topic count m =
    if leb (2 ^ 31) count
    then panic
    else done (
      tt,
      record (set_line m.made (make_line count) m) {
        available_partitions = assign topic m.made m.available_partitions;
        made = suc m.made;
      },
    )

-- What follows the lock, on a manager that another caller may have changed since the first test.
unfoldable pub set_locked : List ℕ → ℕ → Program PartitionManager (Unit {0})
unfolding get_partition_count make_line assign
set_locked topic count m =
    if is_count count (get_partition_count topic m) then done (tt, m) else rebuild topic count m

unfoldable pub set_partition_count : List ℕ → ℕ → Program PartitionManager (Unit {0})
unfolding set_locked
set_partition_count topic count m =
    if is_count count (get_partition_count topic m) then done (tt, m) else set_locked topic count m

-- The object that GetPartition hands out: its channel and its partition.
pub record Handle : Type 0 where
  pub line : ℕ
  pub partition : ℕ

abbrev pub handed_out : ℕ → PartitionManager → Option (ℕ × Line) → Option Handle × PartitionManager
handed_out id m none = (none, m)
handed_out id m (some (p, line)) = (some (record { line = id; partition = p }), set_line id line m)

abbrev pub get_from : Bool → PartitionManager → Option ℕ → Option Handle × PartitionManager
get_from timed_out m none = (none, m)
get_from true m (some id) = (none, m)
get_from false m (some id) = handed_out id m (receive (m.lines id))

-- GetPartition; none is its error. Where the channel is empty it waits until the time-out, and where it
-- is not, `timed_out` tells which ready case the select takes.
unfoldable pub get_partition : Bool → List ℕ → Program PartitionManager (Option Handle)
unfolding receive
get_partition timed_out topic m = done (get_from timed_out m (lookup topic m.available_partitions))
