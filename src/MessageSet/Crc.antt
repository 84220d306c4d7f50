-- ===== src/MessageSet/Crc.antt =====
-- crc32.ChecksumIEEE of Go's hash/crc32, bit by bit.
use Prim.Native.Nat.{bit_xor}
use kafka.Base.{
  ℕ, zero, suc, ◌/◌, ◌%◌, ◌^◌, ◌<◌, ◌≡◌, refl, List, [], ◌∷◌, ◌==◌, if◌then◌else◌, arith,
}

shift_bit : ℕ → ℕ
shift_bit c = if c % 2 == 1 then bit_xor (c / 2) 0xEDB88320 else c / 2

shift_bits : ℕ → ℕ → ℕ
unfolding shift_bit
shift_bits zero c = c
shift_bits (suc n) c = shift_bits n (shift_bit c)

update : ℕ → List ℕ → ℕ
unfolding shift_bits
update c [] = c
update c (b ∷ bs) = update (shift_bits 8 (bit_xor c b)) bs

-- The result is a uint32.
unfoldable pub checksum : List ℕ → ℕ
unfolding update
checksum bs = bit_xor (update 0xFFFFFFFF bs) 0xFFFFFFFF % 2 ^ 32

pub checksum-lt : (bs : List ℕ) → checksum bs < 2 ^ 32
unfolding checksum
checksum-lt bs = omega arith

-- The check value of the standard, for "123456789".
checksum_standard :
    checksum (0x31 ∷ 0x32 ∷ 0x33 ∷ 0x34 ∷ 0x35 ∷ 0x36 ∷ 0x37 ∷ 0x38 ∷ 0x39 ∷ []) ≡ 0xCBF43926
unfolding checksum
checksum_standard = refl
