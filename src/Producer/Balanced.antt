-- ===== src/Producer/Balanced.antt =====
-- Which partitions a channel of the partitionManager holds, and which are about to come back.
use kafka.Base.{
  ℕ, zero, suc, ◌+◌, ◌<◌, ◌≡◌, refl, ap, List, [], ◌∷◌, ◌++◌, none, some, Option, Bool, true, false,
  ltb, ◌==◌, if◌then◌else◌, length, length-append, take, drop, map, arith, inl, inr, Bool-cases,
}
use kafka.Producer.Line.{
  Phase, starting, suspended, sending, Goroutine, Line, make_line, partitions_from, success,
  failure, receive, Case, timer, reset_seen, run_goroutine, send, stay, resume, run_between,
  load_failures, set_data, hand_out,
}

abbrev pub one_if : Bool → ℕ
one_if true = 1
one_if false = 0

-- How often a partition stands in a list.
abbrev pub times : ℕ → List ℕ → ℕ
times p [] = 0
times p (q ∷ qs) = one_if (q == p) + times p qs

abbrev pub partitions_of : List Goroutine → List ℕ
partitions_of gs = map (λ g. g.partition) gs

-- The partitions below the capacity are each in the channel or with one goroutine, once in all.
pub record Balanced (line : Line) : Type 0 where
  pub whole : length line.queue + length line.goroutines ≡ line.capacity
  pub once :
      (p : ℕ)
      → times p line.queue + times p (partitions_of line.goroutines) ≡ one_if (ltb p line.capacity)

times-append : (p : ℕ) (xs ys : List ℕ) → times p (xs ++ ys) ≡ times p xs + times p ys
times-append p [] ys = omega arith
times-append p (x ∷ xs) ys = omega (arith, times-append p xs ys)

partitions_of-append :
    (gs hs : List Goroutine) → partitions_of (gs ++ hs) ≡ partitions_of gs ++ partitions_of hs
partitions_of-append [] hs = refl
partitions_of-append (g ∷ gs) hs = ap (◌∷◌ g.partition) (partitions_of-append gs hs)

length-partitions_from : (i n : ℕ) → length (partitions_from i n) ≡ n
length-partitions_from i zero = refl
length-partitions_from i (suc n) = ap suc (length-partitions_from (suc i) n)

abbrev in_range : ℕ → ℕ → ℕ → ℕ
in_range p i n = if ltb p i then 0 else one_if (ltb p (i + n))

times-partitions_from : (p i n : ℕ) → times p (partitions_from i n) ≡ in_range p i n
times-partitions_from p i zero = ground arith
times-partitions_from p i (suc n) = ground (arith, times-partitions_from p (suc i) n)

-- A channel that SetPartitionCount made is balanced.
pub make_line-Balanced : (count : ℕ) → Balanced (make_line count)
unfolding make_line
make_line-Balanced count = record {
  whole = omega (arith, length-partitions_from 0 count);
  once = λ p. ground (arith, times-partitions_from p 0 count);
}

pub success-Balanced : (p : ℕ) (line : Line) → Balanced line → Balanced (success p line)
unfolding success
success-Balanced p line b = record { whole = b.whole; once = b.once }

pub failure-Balanced : (p : ℕ) (line : Line) → Balanced line → Balanced (failure p line)
unfolding failure
failure-Balanced p line b = record { whole = b.whole; once = b.once }

-- What holds of the line that is left, where one is.
abbrev pub LeftBalanced : Option (ℕ × Line) → Type 0
LeftBalanced none = Unit
LeftBalanced (some (p, line)) = Balanced line

hand_out-Balanced :
    (queue : List ℕ) (line : Line)
    → line.queue ≡ queue
    → Balanced line
    → LeftBalanced (hand_out queue line)
hand_out-Balanced [] line h b = tt
hand_out-Balanced (p ∷ rest) line h b = record {
  whole = omega (arith, b.whole, ap (λ (q : List ℕ). length q) h);
  once = λ q. omega (arith, b.once q, ap (λ (q' : List ℕ). times q q') h);
}

pub receive-Balanced : (line : Line) → Balanced line → LeftBalanced (receive line)
unfolding receive
receive-Balanced line b = hand_out-Balanced line.queue line refl b

append-take-drop : (i : ℕ) (gs : List Goroutine) → gs ≡ take i gs ++ drop i gs
append-take-drop zero gs = refl
append-take-drop (suc i) [] = refl
append-take-drop (suc i) (g ∷ gs) = ap (◌∷◌ g) (append-take-drop i gs)

-- What a line is after a step of a goroutine that stood between others.
abbrev moved : List Goroutine → List Goroutine → ℕ → Option Phase × Line → Line
moved before after p (phase, next) = record next { goroutines = before ++ (stay p phase ++ after) }

times-between :
    (q p : ℕ) (phase : Phase) (before after : List Goroutine)
    → times q (partitions_of (before ++ (record { partition = p; phase = phase } ∷ after)))
      ≡ times q (partitions_of (before ++ after)) + one_if (p == q)
times-between q p phase [] after = omega arith
times-between q p phase (g ∷ before) after = omega (arith, times-between q p phase before after)

length-between :
    (g : Goroutine) (before after : List Goroutine)
    → length (before ++ (g ∷ after)) ≡ suc (length (before ++ after))
length-between g [] after = refl
length-between g (h ∷ before) after = ap suc (length-between g before after)

-- A goroutine that goes on keeps its partition.
kept-Balanced :
    (before after : List Goroutine) (p : ℕ) (phase later : Phase) (line next : Line)
    → line.goroutines ≡ before ++ (record { partition = p; phase = phase } ∷ after)
    → next.queue ≡ line.queue
    → next.capacity ≡ line.capacity
    → Balanced line
    → Balanced (moved before after p (some later, next))
kept-Balanced before after p phase later line next h hq hc b = record {
  whole = omega (
    arith,
    b.whole,
    hc,
    ap (λ (q : List ℕ). length q) hq,
    ap (λ (gs : List Goroutine). length gs) h,
    length-between (record { partition = p; phase = phase }) before after,
    length-between (record { partition = p; phase = later }) before after,
  );
  once = λ q.
      rw (hq, hc)
        (omega (
          arith,
          b.once q,
          ap (λ (gs : List Goroutine). times q (partitions_of gs)) h,
          times-between q p phase before after,
          times-between q p later before after,
        ));
}

-- The channel has room for a partition that a goroutine is about to send.
pub room :
    (before after : List Goroutine) (g : Goroutine) (line : Line)
    → line.goroutines ≡ before ++ (g ∷ after)
    → Balanced line
    → length line.queue < line.capacity
room before after g line h b =
    omega (arith, b.whole, ap (λ (gs : List Goroutine). length gs) h, length-between g before after)

sent-Balanced :
    (before after : List Goroutine) (p : ℕ) (line : Line)
    → line.goroutines ≡ before ++ (record { partition = p; phase = sending } ∷ after)
    → Balanced line
    → Balanced (moved before after p (none, send p line))
sent-Balanced before after p line h b =
    let g : Goroutine = record { partition = p; phase = sending } in
    let lt = room before after g line h b in
    let full : ltb (length line.queue) line.capacity ≡ true = ground arith in
    rw full (record {
      whole = omega (
        arith,
        b.whole,
        ap (λ (gs : List Goroutine). length gs) h,
        length-between g before after,
        length-append line.queue (p ∷ []),
      );
      once = λ q. omega (
        arith,
        b.once q,
        ap (λ (gs : List Goroutine). times q (partitions_of gs)) h,
        times-between q p sending before after,
        times-append q line.queue (p ∷ []),
      );
    })

resume-Balanced :
    (c : Case) (before after : List Goroutine) (p : ℕ) (phase : Phase) (line : Line)
    → line.goroutines ≡ before ++ (record { partition = p; phase = phase } ∷ after)
    → Balanced line
    → Balanced (moved before after p (resume c p phase line))
resume-Balanced c before after p starting line h b =
    kept-Balanced before after p starting (load_failures (line.data_of p).successive_failures) line
      line h refl refl b
resume-Balanced timer before after p suspended line h b =
    kept-Balanced before after p suspended sending line line h refl refl b
resume-Balanced reset_seen before after p suspended line h b =
    elim (Bool-cases (line.data_of p).reset) [
      | inl r ↦ rw r (
          kept-Balanced before after p suspended sending line
            (set_data p (record (line.data_of p) { reset = false }) line) h refl refl b)
      | inr r ↦ rw r (kept-Balanced before after p suspended suspended line line h refl refl b)
    ]
resume-Balanced c before after p sending line h b = sent-Balanced before after p line h b

run_between-Balanced :
    (c : Case) (before gs : List Goroutine) (line : Line)
    → line.goroutines ≡ before ++ gs
    → Balanced line
    → Balanced (run_between c before gs line)
run_between-Balanced c before [] line h b = b
run_between-Balanced c before (g ∷ after) line h b =
    resume-Balanced c before after g.partition g.phase line h b

-- A step of a goroutine keeps the line balanced, the last one because the channel has room.
pub run_goroutine-Balanced :
    (c : Case) (i : ℕ) (line : Line) → Balanced line → Balanced (run_goroutine c i line)
unfolding run_goroutine
run_goroutine-Balanced c i line b =
    run_between-Balanced c (take i line.goroutines) (drop i line.goroutines) line
      (append-take-drop i line.goroutines) b
