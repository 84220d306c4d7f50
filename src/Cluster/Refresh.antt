-- ===== src/Cluster/Refresh.antt =====
-- RefreshMetadata of cluster.go, called by any number of goroutines at once: what one of them does
-- between two others is one step. The time-out only lets a caller go early and is left out.
use kafka.Base.{
  ℕ, suc, ◌+◌, ◌%◌, ◌^◌, List, [], ◌∷◌, Option, none, some, Bool, true, false, ◌==◌, ltb,
  if◌then◌else◌, ◌&&◌, ◌||◌,
}
use kafka.Wire.BigEndian.{is_negative64}
use kafka.Messages.MetadataResp.{MetadataResp}
use kafka.Cluster.Metadata.{Cluster, cache}

-- How far a call is: `ctr1` is loaded, then the lock is waited for, then the metadata is fetched under
-- it; it returned nil or an error.
pub data Phase : Type 0 where
  not_called : Phase
  waiting fetching : ℕ → Phase
  returned : ℕ → Bool → Phase

pub record World : Type 0 where
  pub cluster : Cluster
  -- an int64
  pub epoch : ℕ
  -- who holds refLock
  pub holder : Option ℕ
  pub phases : ℕ → Phase
  -- how often metadata was fetched, which the code does not keep
  pub fetches : ℕ

abbrev pub update : ℕ → Phase → (ℕ → Phase) → ℕ → Phase
update i p phases j = if j == i then p else phases j

-- `ctr2 > ctr1` on int64.
abbrev pub int64_gt : ℕ → ℕ → Bool
int64_gt a b = if is_negative64 a then is_negative64 b && ltb b a else is_negative64 b || ltb b a

abbrev pub set_phase : ℕ → Phase → World → World
set_phase i p w = record w { phases = update i p w.phases }

-- The lock is free: if the counter moved since it was loaded, someone else refreshed.
unfoldable pub lock : ℕ → ℕ → World → World
lock i ctr1 w =
    if int64_gt w.epoch ctr1
    then set_phase i (returned ctr1 true) w
    else record w { holder = some i; phases = update i (fetching ctr1) w.phases }

-- Fetch came back, with metadata or with an error.
unfoldable pub fetched : ℕ → ℕ → Option MetadataResp → World → World
fetched i ctr1 none w = record w { holder = none; phases = update i (returned ctr1 false) w.phases }
fetched i ctr1 (some meta) w = record {
  cluster = (cache meta w.cluster).0;
  epoch = (ctr1 + 1) % 2 ^ 64;
  holder = none;
  phases = update i (returned ctr1 true) w.phases;
  fetches = suc w.fetches;
}

-- Only a free lock lets a caller go on.
unfoldable pub try_lock : Option ℕ → ℕ → ℕ → World → World
try_lock none i ctr1 w = lock i ctr1 w
try_lock (some _) i ctr1 w = w

-- The next step of a caller, with the outcome of its Fetch where it gets one.
unfoldable pub next : Phase → ℕ → Option MetadataResp → World → World
next not_called i outcome w = set_phase i (waiting w.epoch) w
next (waiting ctr1) i outcome w = try_lock w.holder i ctr1 w
next (fetching ctr1) i outcome w = fetched i ctr1 outcome w
next (returned _ _) i outcome w = w

unfoldable pub advance : ℕ → Option MetadataResp → World → World
advance i outcome w = next (w.phases i) i outcome w

-- Any order of the callers' steps.
unfoldable pub run : List (ℕ × Option MetadataResp) → World → World
run [] w = w
run (e ∷ events) w = run events (advance e.0 e.1 w)

unfoldable pub new_cluster : Cluster → World
new_cluster cm = record {
  cluster = cm;
  epoch = 0;
  holder = none;
  phases = λ _. not_called;
  fetches = 0;
}
