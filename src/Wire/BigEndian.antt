-- ===== src/Wire/BigEndian.antt =====
-- Go's encoding/binary.BigEndian, as the package uses it. An intN is its bit pattern, a number
-- below 2 ^ N, so that the conversions between intN and uintN are the identity.
use kafka.Base.{ℕ, ◌+◌, ◌*◌, ◌/◌, ◌%◌, ◌^◌, ◌<◌, List, [], ◌∷◌, ◌++◌, ◌≡◌, arith, Bool, leb}

unfoldable pub put_uint8 : ℕ → List ℕ
put_uint8 v = v % 256 ∷ []

unfoldable pub put_uint16 : ℕ → List ℕ
put_uint16 v = (v / 256 % 256) ∷ (v % 256) ∷ []

unfoldable pub put_uint32 : ℕ → List ℕ
put_uint32 v = (v / 2 ^ 24 % 256) ∷ (v / 2 ^ 16 % 256) ∷ (v / 256 % 256) ∷ (v % 256) ∷ []

unfoldable pub put_uint64 : ℕ → List ℕ
unfolding put_uint32
put_uint64 v = put_uint32 (v / 2 ^ 32) ++ put_uint32 v

-- Callers hand over a slice of the right size; Go would panic on a shorter one.
unfoldable pub get_uint8 : List ℕ → ℕ
get_uint8 (a ∷ _) = a
get_uint8 _ = 0

unfoldable pub get_uint16 : List ℕ → ℕ
get_uint16 (a ∷ b ∷ _) = a * 256 + b
get_uint16 _ = 0

unfoldable pub get_uint32 : List ℕ → ℕ
get_uint32 (a ∷ b ∷ c ∷ d ∷ _) = a * 2 ^ 24 + b * 2 ^ 16 + c * 256 + d
get_uint32 _ = 0

unfoldable pub get_uint64 : List ℕ → ℕ
unfolding get_uint32
get_uint64 (a ∷ b ∷ c ∷ d ∷ rest) = get_uint32 (a ∷ b ∷ c ∷ d ∷ []) * 2 ^ 32 + get_uint32 rest
get_uint64 _ = 0

-- The sign of an intN.
abbrev pub is_negative16 : ℕ → Bool
is_negative16 v = leb (2 ^ 15) v

abbrev pub is_negative32 : ℕ → Bool
is_negative32 v = leb (2 ^ 31) v

abbrev pub is_negative64 : ℕ → Bool
is_negative64 v = leb (2 ^ 63) v

pub get_uint8-put_uint8 : (v : ℕ) → v < 2 ^ 8 → get_uint8 (put_uint8 v) ≡ v
unfolding get_uint8 put_uint8
get_uint8-put_uint8 v h = omega arith

pub get_uint16-put_uint16 : (v : ℕ) → v < 2 ^ 16 → get_uint16 (put_uint16 v) ≡ v
unfolding get_uint16 put_uint16
get_uint16-put_uint16 v h = omega arith

pub get_uint32-put_uint32 : (v : ℕ) → get_uint32 (put_uint32 v) ≡ v % 2 ^ 32
unfolding get_uint32 put_uint32
get_uint32-put_uint32 v = omega arith

pub get_uint64-put_uint64 : (v : ℕ) → v < 2 ^ 64 → get_uint64 (put_uint64 v) ≡ v
unfolding get_uint64 put_uint64
get_uint64-put_uint64 v h =
    omega (arith, get_uint32-put_uint32 (v / 2 ^ 32), get_uint32-put_uint32 v)
