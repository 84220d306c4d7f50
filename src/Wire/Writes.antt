-- ===== src/Wire/Writes.antt =====
-- What an encoding program appends to a buffer, by rules for each encoder.
use kafka.Base.{
  ℕ, ◌%◌, ◌^◌, ◌<◌, List, [], ◌∷◌, ◌++◌, Option, none, some, ◌≡◌, refl, arith, length, append_assoc,
  append-nil, join_map, All,
}
use kafka.Base.Program.{done, ◌>>◌, for_each, pure}
use kafka.Wire.Errors.{Error, kafka_error, err_from_no}
use kafka.Wire.BigEndian.{put_uint8, put_uint16, put_uint32, put_uint64}
use kafka.Wire.Reads.{Reads, read_last, int16_read, put_string, put_bytes, put_array}
use kafka.Wire.Decoder.{decode_error}
use kafka.Wire.Encoder.{
  Enc, Buffer, buffer_writer, Value, encode, encode_int8, encode_int16, encode_int32, encode_int64,
  encode_uint32, encode_bytes, encode_string, encode_error, encode_array_len, new_encoder,
}

-- `p` appends exactly `bs` to a buffer and sets no error.
pub record Writes (p : Enc Buffer) (bs : List ℕ) : Type 0 where
  pub writes : (ws : Buffer) → p (new_encoder ws) ≡ done (tt, new_encoder (ws ++ bs))

pub write_then :
    {p q : Enc Buffer} {xs ys : List ℕ} → Writes p xs → Writes q ys → Writes (p >> q) (xs ++ ys)
unfolding ◌>>◌
write_then {xs = xs} {ys = ys} hp hq = record {
  writes = λ ws. rw (hp.writes ws, hq.writes (ws ++ xs), append_assoc ws xs ys);
}

-- The api key and the api version, which the requests read back as one int32.
pub write_pair :
    {p q r : Enc Buffer} {xs ys zs : List ℕ}
    → Writes p xs
    → Writes q ys
    → Writes r zs
    → Writes (p >> (q >> r)) ((xs ++ ys) ++ zs)
write_pair {xs = xs} {ys = ys} {zs = zs} hp hq hr =
    rw (append_assoc xs ys zs) (write_then hp (write_then hq hr))

pub int8_written : (v : ℕ) → Writes (encode_int8 v) (put_uint8 v)
unfolding encode_int8
int8_written v = record { writes = λ ws. refl }

pub int16_written : (v : ℕ) → Writes (encode_int16 v) (put_uint16 v)
unfolding encode_int16
int16_written v = record { writes = λ ws. ground arith }

pub int32_written : (v : ℕ) → Writes (encode_int32 v) (put_uint32 v)
unfolding encode_int32
int32_written v = record { writes = λ ws. ground arith }

pub int64_written : (v : ℕ) → Writes (encode_int64 v) (put_uint64 v)
unfolding encode_int64
int64_written v = record { writes = λ ws. ground arith }

pub uint32_written : (v : ℕ) → Writes (encode_uint32 v) (put_uint32 v)
unfolding encode_uint32
uint32_written v = record { writes = λ ws. ground arith }

pub array_len_written : (n : ℕ) → n < 2 ^ 31 → Writes (encode_array_len n) (put_uint32 n)
unfolding encode_array_len
array_len_written n h = let same : n % 2 ^ 32 ≡ n = omega arith in rw same (int32_written n)

pub bytes_written : (b : Option (List ℕ)) → Writes (encode_bytes b) (put_bytes b)
unfolding encode_bytes
bytes_written none = record { writes = λ ws. ground arith }
bytes_written (some b) = record {
  writes = λ ws. ground (arith, append_assoc ws (put_uint32 (length b)) b);
}

pub string_written : (s : List ℕ) → Writes (encode_string s) (put_string s)
unfolding encode_string
string_written s = record {
  writes = λ ws. ground (arith, append_assoc ws (put_uint16 (length s)) s);
}

-- The bytes of an error on the wire; only a *KafkaError or nil is encoded.
abbrev pub put_error : Option Error → List ℕ
put_error none = put_uint16 0
put_error (some (kafka_error k)) = put_uint16 k.errno
put_error (some _) = []

-- An error that the table of the protocol holds, or nil.
abbrev pub FitsError : Option Error → Type 0
FitsError none = Unit {0}
FitsError (some (kafka_error k)) = (k.errno < 2 ^ 16) × (err_from_no k.errno ≡ some (kafka_error k))
FitsError (some _) = ⊥

pub error_written : (e : Option Error) → FitsError e → Writes (encode_error e) (put_error e)
unfolding encode_error
error_written none h = record { writes = λ ws. ground arith }
error_written (some (kafka_error k)) h = record { writes = λ ws. ground arith }
error_written (some _) h = absurd h

module _ {A : Type 0} (p : A → Enc Buffer) (put : A → List ℕ) (Fits : A → Type 0) where
  pub for_each_written :
      ((x : A) → Fits x → Writes (p x) (put x))
      → (xs : List A) → All Fits xs
      → Writes (for_each p xs) (join_map put xs)
  unfolding for_each
  for_each_written each [] h = record { writes = λ ws. rw append-nil (unfold pure in refl) }
  for_each_written each (x ∷ xs) h = write_then (each x h.0) (for_each_written each xs h.1)

-- The cases of Encode agree with the methods of their types.
pub encode-int16 : (v : ℕ) → Writes (encode (Value.int16 v)) (put_uint16 v)
unfolding encode
encode-int16 v = record { writes = λ ws. ground arith }

pub encode-int32 : (v : ℕ) → Writes (encode (Value.int32 v)) (put_uint32 v)
unfolding encode
encode-int32 v = record { writes = λ ws. ground arith }

pub encode-int64 : (v : ℕ) → Writes (encode (Value.int64 v)) (put_uint64 v)
unfolding encode
encode-int64 v = record { writes = λ ws. ground arith }

pub encode-string : (s : List ℕ) → Writes (encode (Value.string s)) (put_string s)
unfolding encode
encode-string s = record {
  writes = λ ws. ground (arith, append_assoc ws (put_uint16 (length s)) s);
}

abbrev pub FitsInt32 : ℕ → Type 0
FitsInt32 v = v < 2 ^ 32

abbrev pub FitsInt64 : ℕ → Type 0
FitsInt64 v = v < 2 ^ 64

abbrev pub FitsString : List ℕ → Type 0
FitsString s = length s < 2 ^ 15

-- A []int32 is its length and its elements.
int32s_body :
    (v : List ℕ)
    → length v < 2 ^ 31
    → All FitsInt32 v
    → Writes (encode_array_len (length v) >> for_each encode_int32 v) (put_array put_uint32 v)
int32s_body v n h =
    write_then (array_len_written (length v) n)
      (for_each_written encode_int32 put_uint32 FitsInt32 (λ x _. int32_written x) v h)

pub encode-int32s :
    (v : List ℕ)
    → length v < 2 ^ 31
    → All FitsInt32 v
    → Writes (encode (Value.int32s v)) (put_array put_uint32 v)
unfolding encode
encode-int32s v n h = record { writes = (int32s_body v n h).writes }

pub error_read : (e : Option Error) → FitsError e → Reads decode_error (put_error e) e
unfolding decode_error err_from_no
error_read none h = read_last err_from_no (int16_read 0 (omega arith))
error_read (some (kafka_error k)) h = rw h.1 at (read_last err_from_no (int16_read k.errno h.0))
error_read (some _) h = absurd h
