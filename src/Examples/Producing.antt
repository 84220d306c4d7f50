-- ===== src/Examples/Producing.antt =====
-- A topic of two partitions, as the distributing producer goes round them.
use kafka.Base.{ℕ, ◌+◌, ◌≡◌, ◌<◌, refl, List, [], ◌∷◌, false, ltb, length, arith}
use kafka.Base.Maps.{lookup, delete, assign}
use kafka.Base.Program.{after}
use kafka.Producer.Line.{starting, make_line, receive, failure, run_goroutine}
use kafka.Producer.Manager.{
  PartitionManager, new_partition_manager, get_partition_count, set_locked, get_partition,
}
use kafka.Producer.Distribute.{sent, report_failure}
use kafka.Producer.Balanced.{times, partitions_of, one_if}
use kafka.Producer.Handing.{
  Reachable, start, counted, got, partitions_once, send_has_room, handle_of, Alone,
  get_partition-Alone,
}
use kafka.Producer.Turns.{settled, distribute_times}
use kafka.Producer.RoundRobin.{distribute_times-round_robin}

abbrev topic : List ℕ
topic = 97 ∷ []

abbrev ready : PartitionManager
ready = after (set_locked topic 2 new_partition_manager) new_partition_manager

ready-Reachable : Reachable ready
ready-Reachable = counted topic 2 start

-- One partition is in the hands of a caller.
abbrev handed : PartitionManager
handed = after (get_partition false topic ready) ready

handed-Reachable : Reachable handed
handed-Reachable = got false topic ready-Reachable

partitions_once_example :
    times 0 (handed.lines 0).queue + times 0 (partitions_of (handed.lines 0).goroutines)
    ≡ one_if (ltb 0 (handed.lines 0).capacity)
partitions_once_example = partitions_once 0 0 handed-Reachable

send_has_room_example : length (handed.lines 0).queue < (handed.lines 0).capacity
unfolding set_locked new_partition_manager get_partition_count make_line lookup delete assign
    get_partition receive
send_has_room_example =
    send_has_room 0 [] [] (record { partition = 0; phase = starting }) handed-Reachable refl

get_partition-Alone_example : Alone handed (handle_of (get_partition false topic handed))
get_partition-Alone_example = get_partition-Alone false topic handed-Reachable

distribute_times-round_robin_example :
    distribute_times 3 2 (λ p. p + 40) topic new_partition_manager
    ≡ sent 0 40 ∷ sent 1 41 ∷ sent 0 40 ∷ []
unfolding new_partition_manager get_partition_count lookup
distribute_times-round_robin_example =
    distribute_times-round_robin topic 1 (λ p. p + 40) (omega arith) 3 new_partition_manager refl

-- Where the goroutine of reEnqueue ends before Produce fails, the failing partition is back in the channel
-- and can be handed out again: the failure only counts for the next reEnqueue.
abbrev failed_late : PartitionManager
failed_late =
    let back = settled topic handed in
    after (report_failure (record { line = 0; partition = 0 }) back) back

not_set_aside :
    ((failed_late.lines 0).queue ≡ 1 ∷ 0 ∷ [])
    × (((failed_late.lines 0).data_of 0).successive_failures ≡ 1)
unfolding set_locked new_partition_manager get_partition_count make_line lookup delete assign
    get_partition receive report_failure failure run_goroutine
not_set_aside = (refl, refl)

-- Where Produce fails first, the partition is suspended.
abbrev failed_early : PartitionManager
failed_early =
    settled topic (after (report_failure (record { line = 0; partition = 0 }) handed) handed)

set_aside : (failed_early.lines 0).queue ≡ 1 ∷ []
unfolding set_locked new_partition_manager get_partition_count make_line lookup delete assign
    get_partition receive report_failure failure run_goroutine
set_aside = refl
