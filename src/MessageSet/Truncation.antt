-- ===== src/MessageSet/Truncation.antt =====
-- readMessageSet on a set that is cut off inside its last message, as the broker sends it.
use kafka.Base.{
  ℕ, suc, ◌+◌, ◌-◌, ◌%◌, ◌^◌, ◌≤◌, ◌<◌, ◌≡◌, refl, ap, List, [], ◌∷◌, ◌++◌, some, length, join_map,
  length-append, take-length_append, drop-length_append, arith, All, leb, map, false,
}
use native.Mathlib.Decide.{dec_lt}
use kafka.Base.Program.{Exec, done}
use kafka.Wire.BigEndian.{put_uint32, put_uint64, get_uint32, get_uint64}
use kafka.Wire.Source.{Source, read_full, limit_reader, after_limit, short_read}
use kafka.Wire.Errors.{Error, eof}
use kafka.Wire.Reads.{int32_read, int64_read}
use kafka.Wire.Decoder.{ok, new_decoder, decode_int32, decode_int64, read_value}
use kafka.MessageSet.Crc.{checksum}
use kafka.MessageSet.Message.{Message, Codecs}
use kafka.MessageSet.Write.{msize}
use kafka.MessageSet.Layout.{content, length-content, wire_message, length-wire_message}
use kafka.MessageSet.Read.{SetRead, Rest, stop, read_sized, read_messages, read_message_set}
use kafka.MessageSet.ReadLaws.{
  FitsMessage, received, source_of, scratch_length-after, read_messages-All, loop,
}

short_read-stops : (bs : List ℕ) (set : List Message) → stop (short_read bs eof) set ≡ ok set
unfolding stop short_read
short_read-stops [] set = refl
short_read-stops (b ∷ bs) set = refl

read_full-short :
    (n : ℕ) (bs : List ℕ)
    → length bs < n
    → read_full n (source_of bs eof)
      ≡ record { buf = bs; err = some (short_read bs eof); source = source_of [] eof }
unfolding read_full
read_full-short n bs h = ground arith

read_value-short :
    {A : Type 0} (zero_value : A) (n : ℕ) (value : List ℕ → A) (bs : List ℕ)
    → length bs < n
    → read_value zero_value n value (new_decoder (source_of bs eof))
      ≡ done (zero_value, record { source = source_of [] eof; err = some (short_read bs eof) })
unfolding read_value
read_value-short z n value bs h = ground (arith, read_full-short n bs h)

-- A list that begins with `xs`, or ends inside it.
split_front :
    (xs ys front back : List ℕ)
    → front ++ back ≡ xs ++ ys
    → length xs ≤ length front
    → (more : List ℕ) × (front ≡ xs ++ more) × (more ++ back ≡ ys)
split_front [] ys front back e h = (front, refl, e)
split_front (x ∷ xs) ys [] back e h = absurd (omega arith)
split_front (x ∷ xs) ys (f ∷ front) back e h =
    let (more, p, q) = split_front xs ys front back (cc) (omega arith) in (more, cc, q)

shorter : (front back ys : List ℕ) (x : ℕ) → front ++ (x ∷ back) ≡ ys → length front < length ys
shorter front back ys x e = omega (arith, ap length e, length-append front (x ∷ back))

length-body :
    (compression : ℕ) (m : Message)
    → length (put_uint32 (checksum (content compression m)) ++ content compression m) ≡ msize m
unfolding put_uint32
length-body compression m = omega (arith, length-content compression m)

module _ (c : Codecs) (nested : Source → ℕ → Exec SetRead) (set : List Message) where
  cut_in_body :
      (offset buf_len size : ℕ) (part : List ℕ) (more : Rest)
      → length part < size
      → size + 10240 < 2 ^ 31
      → read_sized c nested offset buf_len size (source_of part eof) more set
        ≡ done (ok set, source_of [] eof)
  unfolding read_sized
  cut_in_body offset buf_len size part more short h =
      let positive : leb (2 ^ 31) size ≡ false = ground arith in
      rw (positive, scratch_length-after buf_len size h)
        (ground (arith, read_full-short size part short, short_read-stops part set))

  pub cut_in_offset :
      (fuel buf_len : ℕ) (part : List ℕ)
      → length part < 8
      → read_messages c nested (suc fuel) buf_len set (source_of part eof)
        ≡ done (ok set, source_of [] eof)
  unfolding read_messages decode_int64
  cut_in_offset fuel buf_len part h =
      rw (read_value-short 0 8 get_uint64 part h) (rw (short_read-stops part set))

  cut_in_size :
      (fuel buf_len offset : ℕ) (part : List ℕ)
      → offset < 2 ^ 64
      → length part < 4
      → read_messages c nested (suc fuel) buf_len set (source_of (put_uint64 offset ++ part) eof)
        ≡ done (ok set, source_of [] eof)
  unfolding read_messages decode_int32
  cut_in_size fuel buf_len offset part f h =
      rw ((int64_read offset f).reads part eof, read_value-short 0 4 get_uint32 part h)
        (rw (short_read-stops part set))

  cut_behind_size :
      (fuel buf_len offset size : ℕ) (part : List ℕ)
      → offset < 2 ^ 64
      → length part < size
      → size + 10240 < 2 ^ 31
      → read_messages c nested
          (suc fuel)
          buf_len
          set
          (source_of (put_uint64 offset ++ (put_uint32 size ++ part)) eof)
        ≡ done (ok set, source_of [] eof)
  unfolding read_messages
  cut_behind_size fuel buf_len offset size part f short h =
      rw
        (
          (int64_read offset f).reads (put_uint32 size ++ part) eof,
          (int32_read size (omega arith)).reads part eof,
          cut_in_body offset buf_len size part (loop c nested fuel) short h,
        )
        refl

  -- The bytes of a message, cut anywhere before its end.
  cut_message :
      (fuel buf_len compression : ℕ) (m : Message) (part : List ℕ) (x : ℕ) (back : List ℕ)
      → FitsMessage m
      → part ++ (x ∷ back) ≡ wire_message compression m
      → read_messages c nested (suc fuel) buf_len set (source_of part eof)
        ≡ done (ok set, source_of [] eof)
  cut_message fuel buf_len compression m part x back f e = elim (dec_lt (length part) 8) [
    | yes h ↦ cut_in_offset fuel buf_len part h
    | no h ↦
        let (p1, e1, r1) =
          split_front (put_uint64 m.offset) _ part (x ∷ back) e
            (unfold put_uint64 put_uint32 in omega arith) in
        rw e1 (elim (dec_lt (length p1) 4) [
          | yes h1 ↦ cut_in_size fuel buf_len m.offset p1 f.offset h1
          | no h1 ↦
              let (p2, e2, r2) =
                split_front (put_uint32 (msize m % 2 ^ 32)) _ p1 (x ∷ back) r1
                  (unfold put_uint32 in omega arith) in
              let size : msize m % 2 ^ 32 ≡ msize m = omega (arith, f.size) in
              rw (e2, size)
                (cut_behind_size fuel buf_len m.offset (msize m) p2 f.offset
                  (omega (arith, shorter p2 back _ x r2, length-body compression m)) f.size)
        ])
  ]

-- The messages of a set are no more than its bytes.
pub count-le : (ms : List Message) → length ms ≤ length (join_map (wire_message 0) ms)
count-le [] = omega arith
count-le (m ∷ ms) = omega (
  arith,
  count-le ms,
  length-append (wire_message 0 m) (join_map (wire_message 0) ms),
  length-wire_message 0 m,
)

pub limit_reader-exact :
    (bs rest : List ℕ) (ending : Error)
    → limit_reader (length bs) (source_of (bs ++ rest) ending) ≡ source_of bs eof
unfolding limit_reader
limit_reader-exact bs rest ending =
    ground (arith, take-length_append bs rest, length-append bs rest)

-- An uncompressed set of messages that fit, below 2 ^ 31 bytes, that was cut off inside a message or
-- between two: readMessageSet takes all the bytes that it may, and returns the whole messages in front
-- of the cut, with no error.
pub read_message_set-cut :
    (c : Codecs) (depth : ℕ) (ms : List Message) (m : Message) (part back rest : List ℕ) (x : ℕ)
    (ending : Error)
    → All FitsMessage ms
    → FitsMessage m
    → part ++ (x ∷ back) ≡ wire_message 0 m
    → length (join_map (wire_message 0) ms ++ part) < 2 ^ 31
    → let bs = join_map (wire_message 0) ms ++ part in
      read_message_set c (suc depth) (source_of (bs ++ rest) ending) (length bs)
      ≡ done (ok (map received ms), source_of rest ending)
unfolding read_message_set after_limit
read_message_set-cut c depth ms m part back rest x ending hs h e small =
    let bs = join_map (wire_message 0) ms ++ part in
    let nested = λ (s : Source) (n : ℕ). read_message_set c depth s n in
    let positive : leb (2 ^ 31) (length bs) ≡ false = ground arith in
    let fuel = length bs - length ms in
    let enough : suc (length bs) ≡ length ms + suc fuel =
      omega (arith, count-le ms, length-append (join_map (wire_message 0) ms) part) in
    let read = read_messages-All c nested ms (suc fuel) 0 [] part eof hs in
    rw
      (
        positive,
        limit_reader-exact bs rest ending,
        enough,
        read.1,
        cut_message c nested (map received ms) fuel read.0 0 m part x back h e,
      )
      (rw (drop-length_append bs rest))
