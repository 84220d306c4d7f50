-- ===== src/MessageSet/Termination.antt =====
-- The loop of snappyDecode of proto/snappy.go ends within the rounds that it is given.
use kafka.Base.{
  ℕ, zero, suc, ◌+◌, ◌≤◌, List, [], ◌∷◌, ◌++◌, Option, none, some, Bool, true, false, length, take,
  drop, length-drop, ltb, ◌==◌, not, if◌then◌else◌, arith,
}
use kafka.Base.Program.{Exec, out_of_fuel}
use kafka.Wire.BigEndian.{get_uint32}
use kafka.MessageSet.Message.{Codecs}
use kafka.MessageSet.Snappy.{
  decode_chunks, decode_framed, snappy_decode, decoded_or_error, has_prefix, snappy_java_magic,
}

-- A call returns or panics, within the rounds that its loops were given.
abbrev pub Terminates : {A : Type 0} → Exec A → Type 0
Terminates out_of_fuel = ⊥
Terminates _ = Unit {0}

if-Terminates :
    {A : Type 0} (b : Bool) (x y : Exec A)
    → Terminates x
    → Terminates y
    → Terminates (if b then x else y)
if-Terminates true x y h k = h
if-Terminates false x y h k = k

option-Terminates :
    {X A : Type 0} (o : Option X) (x : Exec A) (f : X → Exec A)
    → Terminates x
    → ((a : X) → Terminates (f a))
    → Terminates (elim o as (λ _. Exec A) [ none ↦ x | some a ↦ f a ])
option-Terminates none x f h later = h
option-Terminates (some a) x f h later = later a

decode_chunks-Terminates :
    (decode : List ℕ → Option (List ℕ)) (fuel : ℕ) (b decoded : List ℕ)
    → length b ≤ fuel
    → Terminates (decode_chunks decode fuel b decoded)
unfolding decode_chunks
decode_chunks-Terminates decode fuel [] decoded h = tt
decode_chunks-Terminates decode zero (x ∷ xs) decoded h = absurd (omega arith)
decode_chunks-Terminates decode (suc fuel) (x ∷ xs) decoded h =
    let b = x ∷ xs in
    let n = get_uint32 (take 4 b) in
    let rest = drop n (drop 4 b) in
    let shorter : length rest ≤ fuel = omega (arith, length-drop n (drop 4 b), length-drop 4 b) in
    if-Terminates (ltb (length b) 4) _ _ tt (
      if-Terminates (ltb (length b) (4 + n)) _ _ tt (
        option-Terminates (decode (take n (drop 4 b))) _ _ tt
          λ out. decode_chunks-Terminates decode fuel rest (decoded ++ out) shorter))

decoded-Terminates : (o : Option (List ℕ)) → Terminates (decoded_or_error o)
unfolding decoded_or_error
decoded-Terminates none = tt
decoded-Terminates (some out) = tt

-- snappyDecode returns or panics on every value, framed or not, and whatever the chunks decode to: its loop
-- makes no more rounds than the value has bytes.
pub snappy_decode-Terminates : (c : Codecs) (b : List ℕ) → Terminates (snappy_decode c b)
unfolding snappy_decode decode_framed
snappy_decode-Terminates c b =
    if-Terminates (not (has_prefix b snappy_java_magic)) _ _
      (decoded-Terminates (c.snappy_decode b))
      (if-Terminates (ltb (length b) 12) _ _ tt (
        if-Terminates (get_uint32 (take 4 (drop 8 b)) == 1) _ _
          (decode_chunks-Terminates c.snappy_decode (length b) (drop 16 b) []
            (omega (arith, length-drop 16 b)))
          tt))
