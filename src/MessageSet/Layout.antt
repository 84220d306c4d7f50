-- ===== src/MessageSet/Layout.antt =====
-- The layout of one message of a set, and that writeMessageSet's slice writer holds it.
use kafka.Base.{
  ℕ, zero, suc, ◌+◌, ◌%◌, ◌^◌, ◌≤◌, ◌≡◌, refl, ap, List, [], ◌∷◌, ◌++◌, Option, none, some, length,
  take, drop, length-append, take-length_append, arith,
}
use native.Mathlib.Nat.{zero-add}
use kafka.Base.Program.{done}
use kafka.Wire.BigEndian.{put_uint8, put_uint32, put_uint64}
use kafka.Wire.Reads.{put_bytes}
use kafka.Wire.Encoder.{buffer_writer, new_encoder}
use kafka.MessageSet.Crc.{checksum}
use kafka.MessageSet.Message.{Message, size_of}
use kafka.MessageSet.SliceWriter.{SliceWriter, slice_writer, reset, slice, copy_at, zeros}
use kafka.MessageSet.Write.{bsize, msize, message_fields, set_crc}
use kafka.MessageSet.Fills.{
  copy_at_front, advance, Fills, fill_then, int8-Fills, int32-Fills, uint32-Fills, int64-Fills,
  bytes-Fills,
}

-- What the checksum covers: magic byte, attributes, key and value.
abbrev pub content : ℕ → Message → List ℕ
content compression m =
    put_uint8 0 ++ (put_uint8 compression ++ (put_bytes m.key ++ put_bytes m.value))

abbrev head_of : Message → List ℕ
head_of m = put_uint64 m.offset ++ put_uint32 (msize m % 2 ^ 32)

-- The layout of a message in a set.
abbrev pub wire_message : ℕ → Message → List ℕ
wire_message compression m =
    put_uint64 m.offset
    ++ (put_uint32 (msize m % 2 ^ 32)
        ++ (put_uint32 (checksum (content compression m)) ++ content compression m))

-- The same with the placeholder for the checksum.
abbrev raw_message : ℕ → Message → List ℕ
raw_message compression m =
    put_uint64 m.offset
    ++ (put_uint32 (msize m % 2 ^ 32) ++ (put_uint32 0 ++ content compression m))

message_fields-Fills :
    (compression : ℕ) (m : Message)
    → Fills (message_fields compression m) (raw_message compression m)
unfolding message_fields
message_fields-Fills compression m = fill_then (int64-Fills m.offset) (
    fill_then (int32-Fills (msize m % 2 ^ 32)) (
      fill_then (uint32-Fills 0) (
        fill_then (int8-Fills 0) (
          fill_then (int8-Fills compression)
            (fill_then (bytes-Fills m.key) (bytes-Fills m.value))))))

length-put_bytes : (b : Option (List ℕ)) → length (put_bytes b) ≡ 4 + size_of b
unfolding put_uint32
length-put_bytes none = refl
length-put_bytes (some b) = omega arith

pub length-content :
    (compression : ℕ) (m : Message)
    → length (content compression m) ≡ 10 + size_of m.key + size_of m.value
unfolding put_uint8
length-content compression m = omega (
  arith,
  length-append (put_bytes m.key) (put_bytes m.value),
  length-put_bytes m.key,
  length-put_bytes m.value,
)

window :
    (front mid tail : List ℕ)
    → drop (length front) (take (length front + length mid) (front ++ (mid ++ tail))) ≡ mid
window [] mid tail = rw (zero-add (length mid)) (take-length_append mid tail)
window (x ∷ front) mid tail =
    let shift : suc (length front) + length mid ≡ suc (length front + length mid) = omega arith in
    rw shift (window front mid tail)

-- The checksum goes over its placeholder, and nothing else of the slice changes.
set_crc-raw :
    (compression : ℕ) (m : Message) (tail : List ℕ) (w : SliceWriter)
    → w.buf ≡ raw_message compression m ++ tail
    → (set_crc (bsize m) w).buf ≡ wire_message compression m ++ tail
unfolding set_crc put_uint64 put_uint32
set_crc-raw compression m tail w e =
    let size : bsize m ≡ 16 + length (content compression m) =
      omega (arith, length-content compression m) in
    let front = put_uint64 m.offset ++ (put_uint32 (msize m % 2 ^ 32) ++ put_uint32 0) in
    rw (e, size, window front (content compression m) tail)

length-raw : (compression : ℕ) (m : Message) → length (raw_message compression m) ≡ bsize m
unfolding put_uint64 put_uint32
length-raw compression m = omega (arith, length-content compression m)

pub length-wire_message :
    (compression : ℕ) (m : Message) → length (wire_message compression m) ≡ bsize m
unfolding put_uint64 put_uint32
length-wire_message compression m = omega (arith, length-content compression m)

length-zeros : (n : ℕ) → length (zeros n) ≡ n
unfolding zeros
length-zeros zero = refl
length-zeros (suc n) = ap suc (length-zeros n)

reset-room : (b : SliceWriter) (n : ℕ) → ((reset b n).pos ≡ 0) × (n ≤ length (reset b n).buf)
unfolding reset
reset-room b n = ground (arith, length-zeros (n + 1000))

-- The slice writer after the fields of a message: it never lacks room.
pub filled : ℕ → Message → SliceWriter → SliceWriter
filled compression m b = advance (reset b (bsize m)) (raw_message compression m)

pub message_fields-filled :
    (compression : ℕ) (m : Message) (b : SliceWriter)
    → message_fields compression m (new_encoder (reset b (bsize m)))
      ≡ done (tt, new_encoder (filled compression m b))
unfolding filled
message_fields-filled compression m b =
    (message_fields-Fills compression m).fills (reset b (bsize m))
      (omega (arith, reset-room b (bsize m), length-raw compression m))

copy_at_front_of :
    (n : ℕ) (p dst : List ℕ) → length p ≡ n → n ≤ length dst → copy_at zero p dst ≡ p ++ drop n dst
copy_at_front_of n p dst e h = rw (← e) (copy_at_front p dst (omega arith))

filled-buf :
    (compression : ℕ) (m : Message) (b : SliceWriter)
    → (filled compression m b).buf
      ≡ raw_message compression m ++ drop (bsize m) (reset b (bsize m)).buf
unfolding filled advance
filled-buf compression m b =
    let (start, room) = reset-room b (bsize m) in
    rw start (
      copy_at_front_of (bsize m) (raw_message compression m) (reset b (bsize m)).buf
        (length-raw compression m) room)

filled-pos :
    (compression : ℕ) (m : Message) (b : SliceWriter) → (filled compression m b).pos ≡ bsize m
unfolding filled advance
filled-pos compression m b = omega (arith, (reset-room b (bsize m)).0, length-raw compression m)

take_front_of : (n : ℕ) (xs ys : List ℕ) → length xs ≡ n → take n (xs ++ ys) ≡ xs
take_front_of n xs ys e = rw (← e) (take-length_append xs ys)

pub slice-filled :
    (compression : ℕ) (m : Message) (b : SliceWriter)
    → slice (set_crc (bsize m) (filled compression m b)) ≡ wire_message compression m
unfolding slice
slice-filled compression m b =
    let tail = drop (bsize m) (reset b (bsize m)).buf in
    rw (set_crc-raw compression m tail (filled compression m b) (filled-buf compression m b)) (
      unfold set_crc in
      rw (filled-pos compression m b) (
        take_front_of (bsize m) (wire_message compression m) tail
          (length-wire_message compression m)))
