-- ===== src/Wire/Encoder.antt =====
-- The encoder of proto/serialization.go, over any io.Writer.
use kafka.Base.{ℕ, ◌^◌, ◌-◌, ◌%◌, List, ◌++◌, Option, none, some, ◌==◌, length, if◌then◌else◌}
use kafka.Base.Program.{Program, done, panic, for_each, ◌>>◌}
use kafka.Wire.Errors.{Error, kafka_error, short_write, cannot_encode_type}
use kafka.Wire.BigEndian.{put_uint8, put_uint16, put_uint32, put_uint64}

-- `Write(p) (n, err)`, with the writer after it.
pub record Written (W : Type 0) : Type 0 where
  pub count : ℕ
  pub err : Option Error
  pub writer : W

pub record Writer (W : Type 0) : Type 0 where
  pub write : W → List ℕ → Written W

-- bytes.Buffer, and the `buffer` of proto/messages.go: Write appends and never fails.
abbrev pub Buffer : Type 0
Buffer = List ℕ

instance abbrev pub buffer_writer : Writer Buffer
buffer_writer = record { write = λ w p. record { count = length p; err = none; writer = w ++ p } }

pub record Encoder (W : Type 0) : Type 0 where
  pub w : W
  pub err : Option Error

abbrev pub Enc : Type 0 → Type 0
Enc W = Program (Encoder W) (Unit {0})

abbrev pub new_encoder : {W : Type 0} → W → Encoder W
new_encoder w = record { w = w; err = none }

-- The dynamic types that Encode tells apart; `other` is any further one. A nil slice is `none`.
pub data Value : Type 0 where
  int8 int16 int32 int64 uint16 uint32 uint64 : ℕ → Value
  string : List ℕ → Value
  bytes : Option (List ℕ) → Value
  int32s : List ℕ → Value
  other : Value

module _ {W : Type 0} ⦃wr : Writer W⦄ where
  unfoldable pub write_all : W → List ℕ → Option Error × W
  write_all w b =
      let r = wr.write w b in
      elim r.err [
        | some e ↦ (some e, r.writer)
        | none ↦ (if r.count == length b then none else some short_write, r.writer)
      ]

  -- `e.err = writeAll(e.w, b)`
  unfoldable pub emit : List ℕ → Enc W
  unfolding write_all
  emit b e = let (err, w) = write_all e.w b in done (tt, record { w = w; err = err })

  -- `_, e.err = e.w.Write(b)`: the count is not looked at.
  unfoldable pub emit_byte : List ℕ → Enc W
  emit_byte b e = let r = wr.write e.w b in done (tt, record { w = r.writer; err = r.err })

  -- `if e.err != nil { return }` before the body.
  unfoldable pub guarded : Enc W → Enc W
  guarded p e = elim e.err [ some _ ↦ done (tt, e) | none ↦ p e ]

  -- `e.err = writeAll(e.w, buf); if e.err == nil { e.err = writeAll(e.w, val) }`
  emit_both : List ℕ → List ℕ → Enc W
  unfolding emit guarded ◌>>◌
  emit_both buf val = emit buf >> guarded (emit val)

  bytes_value : Option (List ℕ) → Enc W
  unfolding emit emit_both
  bytes_value none = emit (put_uint32 (2 ^ 32 - 1))
  bytes_value (some val) = emit_both (put_uint32 (length val)) val

  string_value : List ℕ → Enc W
  unfolding emit_both
  string_value val = emit_both (put_uint16 (length val)) val

  unfoldable pub encode_int8 : ℕ → Enc W
  unfolding guarded emit_byte
  encode_int8 val = guarded (emit_byte (put_uint8 val))

  unfoldable pub encode_int16 : ℕ → Enc W
  unfolding guarded emit
  encode_int16 val = guarded (emit (put_uint16 val))

  unfoldable pub encode_int32 : ℕ → Enc W
  unfolding guarded emit
  encode_int32 val = guarded (emit (put_uint32 val))

  unfoldable pub encode_int64 : ℕ → Enc W
  unfolding guarded emit
  encode_int64 val = guarded (emit (put_uint64 val))

  unfoldable pub encode_uint32 : ℕ → Enc W
  unfolding guarded emit
  encode_uint32 val = guarded (emit (put_uint32 val))

  unfoldable pub encode_bytes : Option (List ℕ) → Enc W
  unfolding guarded bytes_value
  encode_bytes val = guarded (bytes_value val)

  unfoldable pub encode_string : List ℕ → Enc W
  unfolding guarded string_value
  encode_string val = guarded (string_value val)

  unfoldable pub encode_array_len : ℕ → Enc W
  unfolding encode_int32
  encode_array_len n = encode_int32 (n % 2 ^ 32)

  set_err : Error → Enc W
  set_err e enc = done (tt, record enc { err = some e })

  -- EncodeError looks at no earlier error and overwrites it. An error that is no *KafkaError is
  -- recorded, and then the nil pointer `kerr` is read: a panic.
  unfoldable pub encode_error : Option Error → Enc W
  unfolding emit
  encode_error none = emit (put_uint16 0)
  encode_error (some (kafka_error kerr)) = emit (put_uint16 kerr.errno)
  encode_error (some _) = λ _. panic

  -- The elements of a []int32: each goes through Encode again, whose int32 case is EncodeInt32.
  int32_values : List ℕ → Enc W
  unfolding for_each encode_int32
  int32_values = for_each encode_int32

  encode_value : Value → Enc W
  unfolding emit_byte emit string_value bytes_value encode_array_len int32_values set_err ◌>>◌
  encode_value (int8 val) = emit_byte (put_uint8 val)
  encode_value (int16 val) = emit (put_uint16 val)
  encode_value (int32 val) = emit (put_uint32 val)
  encode_value (int64 val) = emit (put_uint64 val)
  encode_value (uint16 val) = emit (put_uint16 val)
  encode_value (uint32 val) = emit (put_uint32 val)
  encode_value (uint64 val) = emit (put_uint64 val)
  encode_value (string val) = string_value val
  encode_value (bytes val) = bytes_value val
  encode_value (int32s val) = encode_array_len (length val) >> int32_values val
  encode_value other = set_err cannot_encode_type

  unfoldable pub encode : Value → Enc W
  unfolding guarded encode_value
  encode value = guarded (encode_value value)
