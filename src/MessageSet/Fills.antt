-- ===== src/MessageSet/Fills.antt =====
-- The encoder of proto/serialization.go over the sliceWriter of proto/messages.go: what each method
-- puts into a slice that has room for it.
use kafka.Base.{
  ℕ, zero, suc, ◌+◌, ◌-◌, ◌^◌, ◌≤◌, ◌≡◌, refl, ap, List, [], ◌∷◌, ◌++◌, Option, none, some, length,
  drop, length-append, arith,
}
use kafka.Base.Program.{done, ◌>>◌}
use kafka.Wire.BigEndian.{put_uint8, put_uint32, put_uint64}
use kafka.Wire.Reads.{put_bytes}
use kafka.Wire.Encoder.{
  Enc, new_encoder, encode_int64, encode_int32, encode_uint32, encode_int8, encode_bytes, emit,
  emit_byte, guarded,
}
use kafka.MessageSet.SliceWriter.{SliceWriter, slice_writer, write, copy_at}

pub length-copy_at : (pos : ℕ) (p dst : List ℕ) → length (copy_at pos p dst) ≡ length dst
length-copy_at zero [] dst = refl
length-copy_at zero (x ∷ p) [] = refl
length-copy_at zero (x ∷ p) (d ∷ dst) = ap suc (length-copy_at zero p dst)
length-copy_at (suc pos) p [] = refl
length-copy_at (suc pos) p (d ∷ dst) = ap suc (length-copy_at pos p dst)

copy_at_empty : (pos : ℕ) (p : List ℕ) → copy_at pos p [] ≡ []
copy_at_empty zero [] = refl
copy_at_empty zero (x ∷ p) = refl
copy_at_empty (suc pos) p = refl

pub copy_at_twice :
    (pos : ℕ) (xs ys dst : List ℕ)
    → copy_at (pos + length xs) ys (copy_at pos xs dst) ≡ copy_at pos (xs ++ ys) dst
copy_at_twice zero [] ys dst = refl
copy_at_twice zero (x ∷ xs) ys [] = copy_at_empty (zero + length (x ∷ xs)) ys
copy_at_twice zero (x ∷ xs) ys (d ∷ dst) =
    let shift : zero + suc (length xs) ≡ suc (zero + length xs) = omega arith in
    rw shift (ap (◌∷◌ x) (copy_at_twice zero xs ys dst))
copy_at_twice (suc pos) xs ys [] = copy_at_empty (suc pos + length xs) ys
copy_at_twice (suc pos) xs ys (d ∷ dst) =
    let shift : suc pos + length xs ≡ suc (pos + length xs) = omega arith in
    rw shift (ap (◌∷◌ d) (copy_at_twice pos xs ys dst))

pub copy_at_front :
    (p dst : List ℕ) → length p ≤ length dst → copy_at zero p dst ≡ p ++ drop (length p) dst
copy_at_front [] dst h = refl
copy_at_front (x ∷ p) [] h = absurd (omega arith)
copy_at_front (x ∷ p) (d ∷ dst) h = ap (◌∷◌ x) (copy_at_front p dst (omega arith))

-- The writer after `bs` at its position.
unfoldable pub advance : SliceWriter → List ℕ → SliceWriter
advance w bs = record w { buf = copy_at w.pos bs w.buf; pos = w.pos + length bs }

-- `p` writes exactly `bs`, where the slice has room for them.
pub record Fills (p : Enc SliceWriter) (bs : List ℕ) : Type 0 where
  pub fills :
      (w : SliceWriter)
      → w.pos + length bs ≤ length w.buf
      → p (new_encoder w) ≡ done (tt, new_encoder (advance w bs))

pub write_advance :
    (w : SliceWriter) (p : List ℕ)
    → w.pos + length p ≤ length w.buf
    → write w p ≡ record { count = length p; err = none; writer = advance w p }
unfolding write advance
write_advance w p h = ground arith

pub fill_then :
    {p q : Enc SliceWriter} {xs ys : List ℕ} → Fills p xs → Fills q ys → Fills (p >> q) (xs ++ ys)
unfolding ◌>>◌ advance
fill_then {xs = xs} {ys = ys} hp hq = record {
  fills = λ w h.
      let room : w.pos + length xs + length ys ≤ length w.buf =
        omega (arith, length-append xs ys) in
      let kept = length-copy_at w.pos xs w.buf in
      let where_to : w.pos + length (xs ++ ys) ≡ w.pos + length xs + length ys =
        omega (arith, length-append xs ys) in
      rw (
        hp.fills w (omega arith),
        hq.fills (advance w xs) (omega arith),
        copy_at_twice w.pos xs ys w.buf,
        where_to,
      );
}

pub emit-Fills : (b : List ℕ) → Fills (emit b) b
unfolding emit
emit-Fills b = record { fills = λ w h. ground (arith, write_advance w b h) }

pub emit_byte-Fills : (b : List ℕ) → Fills (emit_byte b) b
unfolding emit_byte
emit_byte-Fills b = record { fills = λ w h. rw (write_advance w b h) }

pub guarded-Fills : {p : Enc SliceWriter} {bs : List ℕ} → Fills p bs → Fills (guarded p) bs
unfolding guarded
guarded-Fills hp = record { fills = λ w h. hp.fills w h }

pub int8-Fills : (v : ℕ) → Fills (encode_int8 v) (put_uint8 v)
unfolding encode_int8
int8-Fills v = guarded-Fills (emit_byte-Fills (put_uint8 v))

pub int32-Fills : (v : ℕ) → Fills (encode_int32 v) (put_uint32 v)
unfolding encode_int32
int32-Fills v = guarded-Fills (emit-Fills (put_uint32 v))

pub uint32-Fills : (v : ℕ) → Fills (encode_uint32 v) (put_uint32 v)
unfolding encode_uint32
uint32-Fills v = guarded-Fills (emit-Fills (put_uint32 v))

pub int64-Fills : (v : ℕ) → Fills (encode_int64 v) (put_uint64 v)
unfolding encode_int64
int64-Fills v = guarded-Fills (emit-Fills (put_uint64 v))

pub bytes-Fills : (b : Option (List ℕ)) → Fills (encode_bytes b) (put_bytes b)
unfolding encode_bytes
bytes-Fills none = guarded-Fills (emit-Fills (put_uint32 (2 ^ 32 - 1)))
bytes-Fills (some b) =
    guarded-Fills (fill_then (emit-Fills (put_uint32 (length b))) (guarded-Fills (emit-Fills b)))
