-- ===== src/Wire/Reads.antt =====
-- What a decoding program reads off the front of any input, by rules for each decoder.
use kafka.Base.{
  ℕ, ◌%◌, ◌^◌, ◌<◌, List, [], ◌∷◌, ◌++◌, Option, none, some, ◌≡◌, refl, arith, length, append_assoc,
  length-append, take-length_append, drop-length_append, join_map, All, map, ◌-◌, ap,
}
use kafka.Base.Program.{done, repeat, ◌>>=◌, pure}
use kafka.Wire.Errors.{Error}
use kafka.Wire.BigEndian.{
  put_uint8, put_uint16, put_uint32, put_uint64, get_uint8-put_uint8, get_uint16-put_uint16,
  get_uint32-put_uint32, get_uint64-put_uint64, get_uint8, get_uint16, get_uint32, get_uint64,
}
use kafka.Wire.Decoder.{
  Decoding, Decoder, ok, decode_int8, decode_int16, decode_int32, decode_uint32, decode_int64,
  decode_string, decode_bytes, decode_array_len, decode_array, read_with, read_value, string_body,
  bytes_body, make_and_fill,
}

-- A decoder with no error yet.
abbrev pub at_input : List ℕ → Error → Decoder
at_input bs ending = record { source = record { bytes = bs; ending = ending }; err = none }

-- `p` takes exactly `bs` from the front, whatever follows, and returns `a`.
pub record Reads {A : Type 0} (p : Decoding A) (bs : List ℕ) (a : A) : Type 0 where
  pub reads :
      (rest : List ℕ) (ending : Error)
      → p (at_input (bs ++ rest) ending) ≡ done (a, at_input rest ending)

module _ {A B : Type 0} where
  pub read_then :
      {p : Decoding A} (f : A → Decoding B) {xs ys : List ℕ} {a : A} {b : B}
      → Reads p xs a
      → Reads (f a) ys b
      → Reads (p >>= f) (xs ++ ys) b
  unfolding ◌>>=◌
  read_then f {xs = xs} {ys = ys} hp hf = record {
    reads = λ rest ending.
        rw (append_assoc xs ys rest, hp.reads (ys ++ rest) ending) (hf.reads rest ending);
  }

  -- The last field, after which the value is put together.
  pub read_last :
      {p : Decoding A} (f : A → B) {xs : List ℕ} {a : A}
      → Reads p xs a
      → Reads (p >>= λ x. pure (f x)) xs (f a)
  unfolding ◌>>=◌ pure
  read_last f hp = record { reads = λ rest ending. rw (hp.reads rest ending) }

get_uint32_of_lt : (v : ℕ) → v < 2 ^ 32 → get_uint32 (put_uint32 v) ≡ v
get_uint32_of_lt v h = omega (arith, get_uint32-put_uint32 v)

-- `length bs` bytes are there.
read_value-Reads :
    {A : Type 0} (zero_value : A) (size : ℕ) (value : List ℕ → A) (bs : List ℕ)
    → length bs ≡ size
    → Reads (read_value zero_value size value) bs (value bs)
unfolding read_value
read_value-Reads z size value bs h = record {
  reads = λ rest ending. rw (← h) (
      ground
        (arith, length-append bs rest, take-length_append bs rest, drop-length_append bs rest));
}

pub int8_read : (v : ℕ) → v < 2 ^ 8 → Reads decode_int8 (put_uint8 v) v
unfolding decode_int8 put_uint8
int8_read v h = rw (get_uint8-put_uint8 v h) at (read_value-Reads 0 1 get_uint8 (put_uint8 v) refl)

pub int16_read : (v : ℕ) → v < 2 ^ 16 → Reads decode_int16 (put_uint16 v) v
unfolding decode_int16 put_uint16
int16_read v h =
    rw (get_uint16-put_uint16 v h) at (read_value-Reads 0 2 get_uint16 (put_uint16 v) refl)

pub int32_read : (v : ℕ) → v < 2 ^ 32 → Reads decode_int32 (put_uint32 v) v
unfolding decode_int32 put_uint32
int32_read v h = rw (get_uint32_of_lt v h) at (read_value-Reads 0 4 get_uint32 (put_uint32 v) refl)

-- Any number is read modulo 2 ^ 32.
pub int32_read_any : (v : ℕ) → Reads decode_int32 (put_uint32 v) (v % 2 ^ 32)
unfolding decode_int32 put_uint32
int32_read_any v =
    rw (get_uint32-put_uint32 v) at (read_value-Reads 0 4 get_uint32 (put_uint32 v) refl)

-- Two int16 read as one int32.
pub int16s_read :
    (a b : ℕ)
    → Reads decode_int32 (put_uint16 a ++ put_uint16 b) (get_uint32 (put_uint16 a ++ put_uint16 b))
unfolding decode_int32 put_uint16
int16s_read a b = read_value-Reads 0 4 get_uint32 (put_uint16 a ++ put_uint16 b) refl

pub uint32_read : (v : ℕ) → v < 2 ^ 32 → Reads decode_uint32 (put_uint32 v) v
unfolding decode_uint32 put_uint32
uint32_read v h = rw (get_uint32_of_lt v h) at (read_value-Reads 0 4 get_uint32 (put_uint32 v) refl)

pub int64_read : (v : ℕ) → v < 2 ^ 64 → Reads decode_int64 (put_uint64 v) v
unfolding decode_int64 put_uint64
int64_read v h =
    rw (get_uint64-put_uint64 v h) at (read_value-Reads 0 8 get_uint64 (put_uint64 v) refl)

-- A string as it stands on the wire: its length as an int16, then its bytes.
abbrev pub put_string : List ℕ → List ℕ
put_string s = put_uint16 (length s) ++ s

string_body-Reads : (s : List ℕ) → length s < 2 ^ 15 → Reads (string_body (length s)) s s
unfolding string_body
string_body-Reads [] h = record { reads = λ rest ending. refl }
string_body-Reads (c ∷ s) h = record {
  reads = λ rest ending.
      ground
        (arith, (read_value-Reads [] (length (c ∷ s)) (λ b. b) (c ∷ s) refl).reads rest ending);
}

pub string_read : (s : List ℕ) → length s < 2 ^ 15 → Reads decode_string (put_string s) s
unfolding decode_string
string_read s h =
    read_then string_body (int16_read (length s) (omega arith)) (string_body-Reads s h)

-- A byte slice on the wire; the nil slice has length -1.
abbrev pub put_bytes : Option (List ℕ) → List ℕ
put_bytes none = put_uint32 (2 ^ 32 - 1)
put_bytes (some b) = put_uint32 (length b) ++ b

-- The empty slice is read back as the nil slice.
abbrev pub nil_if_empty : Option (List ℕ) → Option (List ℕ)
nil_if_empty none = none
nil_if_empty (some []) = none
nil_if_empty (some (c ∷ b)) = some (c ∷ b)

abbrev pub FitsBytes : Option (List ℕ) → Type 0
FitsBytes none = Unit {0}
FitsBytes (some b) = length b < 2 ^ 31

bytes_body-Reads :
    (b : List ℕ) → length b < 2 ^ 31 → Reads (bytes_body (length b)) b (nil_if_empty (some b))
unfolding bytes_body
bytes_body-Reads [] h = record { reads = λ rest ending. refl }
bytes_body-Reads (c ∷ b) h = record {
  reads = λ rest ending.
      ground (arith, (read_value-Reads none (length (c ∷ b)) some (c ∷ b) refl).reads rest ending);
}

pub bytes_read :
    (b : Option (List ℕ)) → FitsBytes b → Reads decode_bytes (put_bytes b) (nil_if_empty b)
unfolding decode_bytes put_uint32
bytes_read none h = record {
  reads = λ rest ending.
      rw ((read_then bytes_body (int32_read (2 ^ 32 - 1) (omega arith)) nothing).reads rest ending);
}
  where
    nothing : Reads (bytes_body (2 ^ 32 - 1)) [] none
    nothing = record { reads = λ rest ending. unfold bytes_body in refl }
bytes_read (some b) h =
    read_then bytes_body (int32_read (length b) (omega arith)) (bytes_body-Reads b h)

-- An array on the wire: its length, then its elements.
abbrev pub put_array : {A : Type 0} → (A → List ℕ) → List A → List ℕ
put_array f xs = put_uint32 (length xs) ++ join_map f xs

module _ {A B : Type 0} (p : Decoding B) (put : A → List ℕ) (Fits : A → Type 0) (back : A → B) where
  repeat-Reads :
      ((x : A) → Fits x → Reads p (put x) (back x))
      → (xs : List A) → All Fits xs
      → Reads (repeat (length xs) p) (join_map put xs) (map back xs)
  unfolding repeat
  repeat-Reads each [] h = record { reads = λ rest ending. unfold pure in refl }
  repeat-Reads each (x ∷ xs) h =
      read_then _ (each x h.0) (read_last (λ ys. back x ∷ ys) (repeat-Reads each xs h.1))

  -- Every element is read back by `p`, if the array has less than 2 ^ 31 of them.
  pub array_read :
      ((x : A) → Fits x → Reads p (put x) (back x))
      → (xs : List A) → length xs < 2 ^ 31
      → All Fits xs
      → Reads (decode_array p) (put_array put xs) (map back xs)
  unfolding decode_array decode_array_len make_and_fill
  array_read each xs n h =
      read_then _ (int32_read (length xs) (omega arith)) (record {
        reads = λ rest ending. ground (arith, (repeat-Reads each xs h).reads rest ending);
      })

map_self : {A : Type 0} (xs : List A) → map (λ x. x) xs ≡ xs
map_self [] = refl
map_self (x ∷ xs) = ap (◌∷◌ x) (map_self xs)

-- The same where every element comes back as it was.
pub array_read_same :
    {A : Type 0} (p : Decoding A) (put : A → List ℕ) (Fits : A → Type 0)
    → ((x : A) → Fits x → Reads p (put x) x)
    → (xs : List A) → length xs < 2 ^ 31
    → All Fits xs
    → Reads (decode_array p) (put_array put xs) xs
array_read_same p put Fits each xs n h =
    rw (map_self xs) at (array_read p put Fits (λ x. x) each xs n h)

-- A Read function on what `p` reads.
pub read_with-Reads :
    {A : Type 0} {p : Decoding A} {bs : List ℕ} {a : A}
    → Reads p bs a
    → (rest : List ℕ) (ending : Error)
    → read_with p (record { bytes = bs ++ rest; ending = ending }) ≡ done (ok a)
unfolding read_with
read_with-Reads r rest ending = rw (r.reads rest ending)
