-- ===== src/MessageSet/Snappy.antt =====
-- snappyDecode of proto/snappy.go: plain snappy, or the framing of snappy-java.
use kafka.Base.{
  ℕ, zero, suc, ◌+◌, List, [], ◌∷◌, ◌++◌, Option, none, some, Bool, true, false, ◌&&◌, length, take,
  drop, ltb, ◌==◌, not, if◌then◌else◌,
}
use kafka.Base.Program.{Exec, done, panic, out_of_fuel}
use kafka.Wire.BigEndian.{get_uint32}
use kafka.Wire.Errors.{snappy_error, bad_codec_version}
use kafka.Wire.Decoder.{Result, ok, failed}
use kafka.MessageSet.Message.{Codecs}

-- "\x82SNAPPY\x00"
abbrev pub snappy_java_magic : List ℕ
snappy_java_magic = 0x82 ∷ 0x53 ∷ 0x4e ∷ 0x41 ∷ 0x50 ∷ 0x50 ∷ 0x59 ∷ 0x00 ∷ []

unfoldable pub has_prefix : List ℕ → List ℕ → Bool
has_prefix xs [] = true
has_prefix [] (p ∷ ps) = false
has_prefix (x ∷ xs) (p ∷ ps) = x == p && has_prefix xs ps

unfoldable pub decoded_or_error : Option (List ℕ) → Exec (Result (List ℕ))
decoded_or_error none = done (failed snappy_error)
decoded_or_error (some out) = done (ok out)

-- The loop from byte 16 on, over what is left of `b`. A slice that ends behind `b` panics. Every round
-- takes four bytes at least, so a round for each byte is enough.
unfoldable pub decode_chunks :
    (List ℕ → Option (List ℕ)) → ℕ → List ℕ → List ℕ → Exec (Result (List ℕ))
decode_chunks decode fuel [] decoded = done (ok decoded)
decode_chunks decode zero (x ∷ xs) decoded = out_of_fuel
decode_chunks decode (suc fuel) (x ∷ xs) decoded =
    let b = x ∷ xs in
    let n = get_uint32 (take 4 b) in
    let chunk = decode (take n (drop 4 b)) in
    let more : List ℕ → Exec (Result (List ℕ)) =
      λ out. decode_chunks decode fuel (drop n (drop 4 b)) (decoded ++ out) in
    if ltb (length b) 4
    then panic
    else if ltb (length b) (4 + n)
    then panic
    else elim chunk [ none ↦ done (failed snappy_error) | some out ↦ more out ]

unfoldable pub decode_framed : Codecs → List ℕ → Exec (Result (List ℕ))
unfolding decode_chunks
decode_framed c b =
    if ltb (length b) 12
    then panic
    else if get_uint32 (take 4 (drop 8 b)) == 1
    then decode_chunks c.snappy_decode (length b) (drop 16 b) []
    else done (failed bad_codec_version)

unfoldable pub snappy_decode : Codecs → List ℕ → Exec (Result (List ℕ))
unfolding has_prefix decoded_or_error decode_framed
snappy_decode c b =
    if not (has_prefix b snappy_java_magic)
    then decoded_or_error (c.snappy_decode b)
    else decode_framed c b
