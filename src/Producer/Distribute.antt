-- ===== src/Producer/Distribute.antt =====
-- errorAverseRRProducer of distributing_producer.go. The outcomes of PartitionCount and of Produce are
-- given, the latter for each partition.
use kafka.Base.{ℕ, List, Option, none, some, Bool}
use kafka.Base.Program.{done, Program, pure, ◌>>=◌, ◌>>◌}
use kafka.Wire.Errors.{Error}
use kafka.Wire.Decoder.{Result, ok, failed}
use kafka.Producer.Line.{success, failure}
use kafka.Producer.Manager.{PartitionManager, Handle, set_line, set_partition_count, get_partition}

pub data Distributed : Type 0 where
  sent : (partition : ℕ) → (offset : ℕ) → Distributed
  no_partitions_available : Distributed
  not_produced : Error → Distributed

-- An unknown topic is given one partition.
abbrev pub count_or_one : Option ℕ → ℕ
count_or_one none = 1
count_or_one (some count) = count

unfoldable pub report_success : Handle → Program PartitionManager (Unit {0})
report_success h m = done (tt, set_line h.line (success h.partition (m.lines h.line)) m)

unfoldable pub report_failure : Handle → Program PartitionManager (Unit {0})
report_failure h m = done (tt, set_line h.line (failure h.partition (m.lines h.line)) m)

abbrev pub after_produce : Handle → Result ℕ → Program PartitionManager Distributed
after_produce h (failed e) = do report_failure h; pure (not_produced e)
after_produce h (ok offset) = do report_success h; pure (sent h.partition offset)

abbrev pub produce_to : (ℕ → Result ℕ) → Option Handle → Program PartitionManager Distributed
produce_to produce none = pure no_partitions_available
produce_to produce (some h) = after_produce h (produce h.partition)

unfoldable pub distribute :
    Option ℕ → Bool → (ℕ → Result ℕ) → List ℕ → Program PartitionManager Distributed
unfolding ◌>>=◌ ◌>>◌ set_partition_count get_partition
distribute counted timed_out produce topic = do
  set_partition_count topic (count_or_one counted)
  handle ← get_partition timed_out topic
  produce_to produce handle
