-- ===== src/Cluster/Epoch.antt =====
-- RefreshMetadata: one refresh at a time, and none that is older than the call.
use kafka.Base.{
  ℕ, suc, ◌+◌, ◌%◌, ◌^◌, ◌≤◌, ◌<◌, ◌≡◌, refl, sym, ◌∙◌, List, [], ◌∷◌, Option, none, some, true,
  false, ◌==◌, Bool-cases, inl, inr, arith, ==_iff, length,
}
use kafka.Messages.MetadataResp.{MetadataResp}
use kafka.Cluster.Metadata.{Cluster}
use kafka.Cluster.Refresh.{
  Phase, not_called, waiting, fetching, returned, World, update, int64_gt, lock, fetched, try_lock,
  next, advance, run, new_cluster,
}

-- What holds of a caller: a counter that it loaded is not ahead, the one that fetches holds the lock and
-- the counter did not move since, and it moved for one to whom nil was returned.
abbrev pub Sound : ℕ → Option ℕ → ℕ → Phase → Type 0
Sound epoch holder i not_called = Unit {0}
Sound epoch holder i (waiting ctr1) = ctr1 ≤ epoch
Sound epoch holder i (fetching ctr1) = (ctr1 ≡ epoch) × (holder ≡ some i)
Sound epoch holder i (returned ctr1 true) = ctr1 < epoch
Sound epoch holder i (returned ctr1 false) = Unit {0}

pub record Refreshed (w : World) : Type 0 where
  pub epoch : w.epoch ≡ w.fetches
  pub sound : (i : ℕ) → Sound w.epoch w.holder i (w.phases i)

update-Sound :
    (epoch : ℕ) (holder : Option ℕ) (i : ℕ) (p : Phase) (phases : ℕ → Phase)
    → Sound epoch holder i p
    → ((j : ℕ) → (j == i) ≡ false → Sound epoch holder j (phases j))
    → (j : ℕ) → Sound epoch holder j (update i p phases j)
update-Sound epoch holder i p phases h others j = elim (Bool-cases (j == i)) [
  | inl e ↦ let here : j ≡ i = (==_iff j i).0 e in rw (e, here) h
  | inr e ↦ rw e (others j e)
]

-- Who gets the lock finds that no other holds it.
locked-Sound : (epoch i j : ℕ) (p : Phase) → Sound epoch none j p → Sound epoch (some i) j p
locked-Sound epoch i j not_called h = tt
locked-Sound epoch i j (waiting c) h = h
locked-Sound epoch i j (fetching c) h = cc
locked-Sound epoch i j (returned c true) h = h
locked-Sound epoch i j (returned c false) h = tt

some_injective : (i j : ℕ) → some i ≡ some j → j ≡ i
some_injective i j h = cc

-- Who lets the lock go leaves no other fetching.
unlocked-Sound :
    (epoch later i j : ℕ) (p : Phase)
    → epoch ≤ later
    → (j == i) ≡ false
    → Sound epoch (some i) j p
    → Sound later none j p
unlocked-Sound epoch later i j not_called e n h = tt
unlocked-Sound epoch later i j (waiting c) e n h = omega arith
unlocked-Sound epoch later i j (fetching c) e n h =
    let same : j ≡ i = some_injective i j h.1 in ground arith
unlocked-Sound epoch later i j (returned c true) e n h = omega arith
unlocked-Sound epoch later i j (returned c false) e n h = tt

lock-Refreshed :
    (i ctr1 : ℕ) (w : World)
    → w.fetches < 2 ^ 63
    → w.holder ≡ none
    → ctr1 ≤ w.epoch
    → Refreshed w
    → Refreshed (lock i ctr1 w)
unfolding lock
lock-Refreshed i ctr1 w small free old r =
    let others : (j : ℕ) → Sound w.epoch none j (w.phases j) = λ j. rw free at (r.sound j) in
    elim (Bool-cases (int64_gt w.epoch ctr1)) [
      | inl e ↦ rw e (record {
        epoch = r.epoch;
        sound =
            update-Sound w.epoch w.holder i (returned ctr1 true) w.phases (ground (arith, r.epoch))
              (λ j _. r.sound j);
      })
      | inr e ↦ rw e (record {
        epoch = r.epoch;
        sound =
            update-Sound w.epoch (some i) i (fetching ctr1) w.phases (ground (arith, r.epoch), refl)
              (λ j _. locked-Sound w.epoch i j (w.phases j) (others j));
      })
    ]

fetched-Refreshed :
    (i ctr1 : ℕ) (outcome : Option MetadataResp) (w : World)
    → suc w.fetches < 2 ^ 63
    → w.holder ≡ some i
    → ctr1 ≡ w.epoch
    → Refreshed w
    → Refreshed (fetched i ctr1 outcome w)
unfolding fetched
fetched-Refreshed i ctr1 none w small held now r = record {
  epoch = r.epoch;
  sound = update-Sound w.epoch none i (returned ctr1 false) w.phases tt (λ j n.
      unlocked-Sound w.epoch w.epoch i j (w.phases j) (omega arith) n (rw held at (r.sound j)));
}
fetched-Refreshed i ctr1 (some meta) w small held now r =
    let later : (ctr1 + 1) % 2 ^ 64 ≡ suc w.epoch = omega (arith, r.epoch) in
    record {
      epoch = omega (arith, r.epoch);
      sound =
          update-Sound ((ctr1 + 1) % 2 ^ 64) none i (returned ctr1 true) w.phases (omega arith)
            (λ j n.
              unlocked-Sound w.epoch ((ctr1 + 1) % 2 ^ 64) i j (w.phases j) (omega arith) n
                (rw held at (r.sound j)));
    }

try_lock-Refreshed :
    (holder : Option ℕ) (i ctr1 : ℕ) (w : World)
    → w.fetches < 2 ^ 63
    → w.holder ≡ holder
    → ctr1 ≤ w.epoch
    → Refreshed w
    → Refreshed (try_lock holder i ctr1 w)
unfolding try_lock
try_lock-Refreshed none i ctr1 w small free old r = lock-Refreshed i ctr1 w small free old r
try_lock-Refreshed (some j) i ctr1 w small taken old r = r

pub next-Refreshed :
    (phase : Phase) (i : ℕ) (outcome : Option MetadataResp) (w : World)
    → suc w.fetches < 2 ^ 63
    → Sound w.epoch w.holder i phase
    → Refreshed w
    → Refreshed (next phase i outcome w)
unfolding next
next-Refreshed not_called i outcome w small h r = record {
  epoch = r.epoch;
  sound =
      update-Sound w.epoch w.holder i (waiting w.epoch) w.phases (omega arith) (λ j _. r.sound j);
}
next-Refreshed (waiting ctr1) i outcome w small h r =
    try_lock-Refreshed w.holder i ctr1 w (omega arith) refl h r
next-Refreshed (fetching ctr1) i outcome w small h r =
    fetched-Refreshed i ctr1 outcome w small h.1 h.0 r
next-Refreshed (returned ctr1 nil) i outcome w small h r = r

-- At most one more fetch with each step.
fetches-try_lock :
    (holder : Option ℕ) (i ctr1 : ℕ) (w : World) → (try_lock holder i ctr1 w).fetches ≡ w.fetches
unfolding try_lock lock
fetches-try_lock none i ctr1 w = ground arith
fetches-try_lock (some j) i ctr1 w = refl

pub fetches-next :
    (phase : Phase) (i : ℕ) (outcome : Option MetadataResp) (w : World)
    → (next phase i outcome w).fetches ≤ suc w.fetches
unfolding next fetched
fetches-next not_called i outcome w = omega arith
fetches-next (waiting ctr1) i outcome w = omega (arith, fetches-try_lock w.holder i ctr1 w)
fetches-next (fetching ctr1) i none w = omega arith
fetches-next (fetching ctr1) i (some meta) w = omega arith
fetches-next (returned ctr1 nil) i outcome w = omega arith

pub run-Refreshed :
    (events : List (ℕ × Option MetadataResp)) (w : World)
    → w.fetches + length events < 2 ^ 63
    → Refreshed w
    → Refreshed (run events w)
unfolding run advance
run-Refreshed [] w small r = r
run-Refreshed (e ∷ events) w small r =
    run-Refreshed events (advance e.0 e.1 w) (omega (arith, fetches-next (w.phases e.0) e.0 e.1 w))
      (next-Refreshed (w.phases e.0) e.0 e.1 w (omega arith) (r.sound e.0) r)

pub new_cluster-Refreshed : (cm : Cluster) → Refreshed (new_cluster cm)
unfolding new_cluster
new_cluster-Refreshed cm = record { epoch = refl; sound = λ i. tt }

-- However the calls of RefreshMetadata interleave, in fewer than 2 ^ 63 steps, at most one of them
-- fetches metadata at a time.
pub run_exclusive :
    (events : List (ℕ × Option MetadataResp)) (cm : Cluster) (i j a b : ℕ)
    → length events < 2 ^ 63
    → (run events (new_cluster cm)).phases i ≡ fetching a
    → (run events (new_cluster cm)).phases j ≡ fetching b
    → i ≡ j
run_exclusive events cm i j a b small one other =
    let r =
      run-Refreshed events (new_cluster cm) (unfold new_cluster in omega arith)
        (new_cluster-Refreshed cm) in
    let mine : (a ≡ (run events (new_cluster cm)).epoch)
        × ((run events (new_cluster cm)).holder ≡ some i) =
      rw one at (r.sound i) in
    let yours : (b ≡ (run events (new_cluster cm)).epoch)
        × ((run events (new_cluster cm)).holder ≡ some j) =
      rw other at (r.sound j) in
    some_injective j i (sym yours.1 ∙ mine.1)
