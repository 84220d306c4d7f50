-- ===== src/Producer/Line.antt =====
-- partitionData of distributing_producer.go, with the channel that its objects share and the goroutines
-- of reEnqueue. An object is named by its channel and its partition, as a channel gets one object for
-- each partition; what ForAttempt and the timers measure is left out, so a timer may fire at any time.
use kafka.Base.{
  ℕ, zero, suc, ◌+◌, ◌%◌, ◌^◌, List, [], ◌∷◌, ◌++◌, Option, none, some, Bool, true, false, ltb,
  ◌==◌, if◌then◌else◌, length, take, drop,
}

-- The fields of a partitionData that change; `reset` tells whether its channel of capacity 1 is full.
pub record PartitionData : Type 0 where
  pub successive_failures : ℕ
  pub reset : Bool

-- Where the goroutine of a reEnqueue stands: before it loads successiveFailures, in its first select, or
-- before it sends the partition.
pub data Phase : Type 0 where
  starting suspended sending : Phase

pub record Goroutine : Type 0 where
  pub partition : ℕ
  pub phase : Phase

-- A channel availablePartitions: its capacity and what waits in it, with the objects and the goroutines
-- that refer to it.
pub record Line : Type 0 where
  pub capacity : ℕ
  pub queue : List ℕ
  pub data_of : ℕ → PartitionData
  pub goroutines : List Goroutine

abbrev pub fresh : PartitionData
fresh = record { successive_failures = 0; reset = false }

-- The partitions from `i` on, `n` of them.
abbrev pub partitions_from : ℕ → ℕ → List ℕ
partitions_from i zero = []
partitions_from i (suc n) = i ∷ partitions_from (suc i) n

-- The channel that SetPartitionCount makes and fills.
unfoldable pub make_line : ℕ → Line
make_line count = record {
  capacity = count;
  queue = partitions_from 0 count;
  data_of = λ p. fresh;
  goroutines = [];
}

abbrev pub set_data : ℕ → PartitionData → Line → Line
set_data p d line = record line { data_of = λ q. if q == p then d else line.data_of q }

unfoldable pub success : ℕ → Line → Line
success p line = set_data p (record { successive_failures = 0; reset = true }) line

unfoldable pub failure : ℕ → Line → Line
failure p line =
    let d = line.data_of p in
    set_data p (record d { successive_failures = (d.successive_failures + 1) % 2 ^ 64 }) line

-- A partition is taken from the channel, and reEnqueue starts its goroutine.
abbrev pub hand_out : List ℕ → Line → Option (ℕ × Line)
hand_out [] line = none
hand_out (p ∷ rest) line =
    let started : Goroutine = record { partition = p; phase = starting } in
    some (p, record line { queue = rest; goroutines = started ∷ line.goroutines })

unfoldable pub receive : Line → Option (ℕ × Line)
receive line = hand_out line.queue line

-- Which case of the first select of reEnqueue is tried.
pub data Case : Type 0 where
  timer reset_seen : Case

-- A step of a goroutine: its phase after it, or none where it has ended.
abbrev pub load_failures : ℕ → Phase
load_failures zero = sending
load_failures (suc n) = suspended

-- The last select: its default is the programmer error, and the partition is lost.
abbrev pub send : ℕ → Line → Line
send p line =
    if ltb (length line.queue) line.capacity
    then record line { queue = line.queue ++ (p ∷ []) }
    else line

abbrev pub see_reset : ℕ → Line → Option Phase × Line
see_reset p line =
    let d = line.data_of p in
    if d.reset
    then (some sending, set_data p (record d { reset = false }) line)
    else (some suspended, line)

abbrev pub resume : Case → ℕ → Phase → Line → Option Phase × Line
resume c p starting line = (some (load_failures (line.data_of p).successive_failures), line)
resume timer p suspended line = (some sending, line)
resume reset_seen p suspended line = see_reset p line
resume c p sending line = (none, send p line)

abbrev pub stay : ℕ → Option Phase → List Goroutine
stay p none = []
stay p (some phase) = record { partition = p; phase = phase } ∷ []

abbrev pub run_between : Case → List Goroutine → List Goroutine → Line → Line
run_between c before [] line = line
run_between c before (g ∷ after) line =
    let (phase, next) = resume c g.partition g.phase line in
    record next { goroutines = before ++ (stay g.partition phase ++ after) }

-- A step of the i-th goroutine of the line.
unfoldable pub run_goroutine : Case → ℕ → Line → Line
run_goroutine c i line = run_between c (take i line.goroutines) (drop i line.goroutines) line
