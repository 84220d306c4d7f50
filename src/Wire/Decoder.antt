-- ===== src/Wire/Decoder.antt =====
-- The decoder of proto/serialization.go. Its scratch buffer is never seen from outside: every value
-- is copied out of it, so the model keeps the reader and the first error.
use kafka.Base.{ℕ, List, [], Option, none, some, ◌||◌, ◌==◌, length, if◌then◌else◌}
use kafka.Base.Program.{Program, Exec, done, panic, repeat, ◌>>=◌, pure}
use kafka.Wire.Source.{Source, ReadResult, read_full}
use kafka.Wire.Errors.{Error, not_enough_data, err_from_no}
use kafka.Wire.BigEndian.{
  get_uint8, get_uint16, get_uint32, get_uint64, is_negative16, is_negative32,
}

pub record Decoder : Type 0 where
  pub source : Source
  pub err : Option Error

abbrev pub Decoding : Type 0 → Type 0
Decoding A = Program Decoder A

abbrev pub new_decoder : Source → Decoder
new_decoder r = record { source = r; err = none }

-- What follows io.ReadFull in each method: an error is kept and the zero value returned.
unfoldable pub checked : {A : Type 0} → A → ℕ → (List ℕ → A) → ReadResult → Exec (A × Decoder)
checked zero_value size value r = elim r.err [
  | some e ↦ done (zero_value, record { source = r.source; err = some e })
  | none ↦
      if length r.buf == size
      then done (value r.buf, record { source = r.source; err = none })
      else done (zero_value, record { source = r.source; err = some not_enough_data })
]

-- Nothing is read once an error is set.
unfoldable pub read_value : {A : Type 0} → A → ℕ → (List ℕ → A) → Decoding A
unfolding checked read_full
read_value zero_value size value d = elim d.err [
  | some e ↦ done (zero_value, d)
  | none ↦ checked zero_value size value (read_full size d.source)
]

unfoldable pub decode_int8 : Decoding ℕ
unfolding read_value
decode_int8 = read_value 0 1 get_uint8

unfoldable pub decode_int16 : Decoding ℕ
unfolding read_value
decode_int16 = read_value 0 2 get_uint16

unfoldable pub decode_int32 : Decoding ℕ
unfolding read_value
decode_int32 = read_value 0 4 get_uint32

unfoldable pub decode_uint32 : Decoding ℕ
unfolding read_value
decode_uint32 = read_value 0 4 get_uint32

unfoldable pub decode_int64 : Decoding ℕ
unfolding read_value
decode_int64 = read_value 0 8 get_uint64

-- The bytes of a string behind its length; `slen < 1` on the int16 gives the empty string.
unfoldable pub string_body : ℕ → Decoding (List ℕ)
unfolding read_value
string_body slen d =
    if slen == 0 || is_negative16 slen then done ([], d) else read_value [] slen (λ b. b) d

-- After an error of DecodeInt16 the length is 0, and the result the empty string.
unfoldable pub decode_string : Decoding (List ℕ)
unfolding string_body decode_int16 ◌>>=◌
decode_string = decode_int16 >>= string_body

unfoldable pub bytes_body : ℕ → Decoding (Option (List ℕ))
unfolding read_value
bytes_body slen d =
    if slen == 0 || is_negative32 slen then done (none, d) else read_value none slen some d

-- `none` is the nil slice.
unfoldable pub decode_bytes : Decoding (Option (List ℕ))
unfolding bytes_body decode_int32 ◌>>=◌
decode_bytes = decode_int32 >>= bytes_body

unfoldable pub decode_array_len : Decoding ℕ
unfolding decode_int32
decode_array_len = decode_int32

-- `make([]T, n)` panics when `n` is negative; `range` then fills the entries.
unfoldable pub make_and_fill : {A : Type 0} → Decoding A → ℕ → Decoding (List A)
unfolding repeat
make_and_fill p n d = if is_negative32 n then panic else repeat n p d

unfoldable pub decode_array : {A : Type 0} → Decoding A → Decoding (List A)
unfolding make_and_fill decode_array_len ◌>>=◌
decode_array p = decode_array_len >>= make_and_fill p

-- The end of each Read function: `if dec.Err() != nil { return nil, dec.Err() }`.
pub data Result (A : Type 0) : Type 0 where
  ok : A → Result A
  failed : Error → Result A

abbrev finish : {A : Type 0} → A × Decoder → Exec (Result A)
finish (a, d) = elim d.err [ none ↦ done (ok a) | some e ↦ done (failed e) ]

abbrev finished : {A : Type 0} → Exec (A × Decoder) → Exec (Result A)
finished (done r) = finish r
finished panic = panic
finished Exec.out_of_fuel = Exec.out_of_fuel

-- A Read function: a fresh decoder on the reader, the fields in turn, the error at the end.
unfoldable pub read_with : {A : Type 0} → Decoding A → Source → Exec (Result A)
read_with p r = finished (p (new_decoder r))

-- `errFromNo(dec.DecodeInt16())`, as the responses read an error.
unfoldable pub decode_error : Decoding (Option Error)
unfolding decode_int16 ◌>>=◌ pure
decode_error = do errno ← decode_int16; pure (err_from_no errno)
