-- ===== src/MessageSet/ReadLaws.antt =====
-- readMessageSet on what writeMessageSet wrote.
use kafka.Base.{
  ℕ, suc, ◌+◌, ◌%◌, ◌^◌, ◌<◌, ◌≡◌, refl, List, [], ◌∷◌, ◌++◌, Option, none, some, length,
  append_assoc, append-nil, join_map, length-append, take-length_append, drop-length_append, arith,
  All, ◌==◌, if◌then◌else◌, ltb, leb, map, false, true,
}
use native.Mathlib.Nat.{zero-add}
use kafka.Base.Program.{Exec, then_exec}
use kafka.Wire.BigEndian.{put_uint8, put_uint32, put_uint64}
use kafka.Wire.Source.{Source, read_full}
use kafka.Wire.Errors.{Error, eof}
use kafka.Wire.Reads.{
  Reads, read_then, read_last, at_input, put_bytes, nil_if_empty, FitsBytes, int8_read, int32_read,
  uint32_read, int64_read, bytes_read,
}
use kafka.MessageSet.Crc.{checksum, checksum-lt}
use kafka.MessageSet.Message.{Message, Codecs, size_of}
use kafka.MessageSet.Write.{msize}
use kafka.MessageSet.Layout.{content, length-content, wire_message}
use kafka.MessageSet.Read.{
  SetRead, Rest, settle, decode_content, by_compression, decode_checked, decode_message,
  scratch_length, read_sized, read_messages,
}

-- A message whose offset and size fit their fields, with room for the reader's scratch buffer.
pub record FitsMessage (m : Message) : Type 0 where
  pub offset : m.offset < 2 ^ 64
  pub size : msize m + 10240 < 2 ^ 31

FitsMessage-key : {m : Message} → FitsMessage m → FitsBytes m.key
FitsMessage-key {m} h = fits m.key (omega arith)
  where
    fits : (b : Option (List ℕ)) → size_of b < 2 ^ 31 → FitsBytes b
    fits none l = tt
    fits (some b) l = l

FitsMessage-value : {m : Message} → FitsMessage m → FitsBytes m.value
FitsMessage-value {m} h = fits m.value (omega arith)
  where
    fits : (b : Option (List ℕ)) → size_of b < 2 ^ 31 → FitsBytes b
    fits none l = tt
    fits (some b) l = l

content-Reads :
    (m : Message)
    → FitsMessage m
    → Reads decode_content
        (put_bytes m.key ++ put_bytes m.value)
        (nil_if_empty m.key, nil_if_empty m.value)
unfolding decode_content
content-Reads m h =
    read_then _ (bytes_read m.key (FitsMessage-key h))
      (read_last _ (bytes_read m.value (FitsMessage-value h)))

module _ (c : Codecs) (nested : Source → ℕ → Exec SetRead) where
  decode_checked-content :
      (offset crc compression : ℕ) (m : Message)
      → compression < 3
      → FitsMessage m
      → decode_checked c nested offset crc (at_input (content compression m) eof)
        ≡ by_compression c nested offset crc compression (nil_if_empty m.key) (nil_if_empty m.value)
  unfolding decode_checked
  decode_checked-content offset crc compression m h f =
      let kv = put_bytes m.key ++ put_bytes m.value in
      let small : compression % 4 ≡ compression = omega arith in
      let not_three : (compression == 3) ≡ false = ground arith in
      rw
        (
          (int8_read 0 (omega arith)).reads (put_uint8 compression ++ kv) eof,
          (int8_read compression (omega arith)).reads kv eof,
          small,
          not_three,
          ← append-nil kv,
          (content-Reads m f).reads [] eof,
          small,
        )
        refl

  -- A message's bytes behind its size: the checksum holds, and the content is read.
  pub decode_message-body :
      (offset compression : ℕ) (m : Message)
      → compression < 3
      → FitsMessage m
      → decode_message c nested offset
          (put_uint32 (checksum (content compression m)) ++ content compression m)
        ≡ by_compression c nested offset
            (checksum (content compression m))
            compression
            (nil_if_empty m.key)
            (nil_if_empty m.value)
  unfolding decode_message
  decode_message-body offset compression m h f =
      let crc = checksum (content compression m) in
      let same : (crc == crc) ≡ true = ground arith in
      rw
        (
          (uint32_read crc (checksum-lt (content compression m))).reads (content compression m) eof,
          decode_checked-content offset crc compression m h f,
        )
        (unfold put_uint32 in ground arith)

abbrev pub source_of : List ℕ → Error → Source
source_of bs ending = record { bytes = bs; ending = ending }

pub read_full_exact :
    (n : ℕ) (bs rest : List ℕ) (ending : Error)
    → length bs ≡ n
    → read_full n (source_of (bs ++ rest) ending)
      ≡ record { buf = bs; err = none; source = source_of rest ending }
unfolding read_full
read_full_exact n bs rest ending e =
    rw (← e) (
      ground (arith, length-append bs rest, take-length_append bs rest, drop-length_append bs rest))

-- The scratch buffer's length after a message of `size` bytes.
abbrev pub scratch_after : ℕ → ℕ → ℕ
scratch_after buf_len size = if ltb buf_len size then size + 10240 else buf_len

pub scratch_length-after :
    (buf_len size : ℕ)
    → size + 10240 < 2 ^ 31
    → scratch_length buf_len size ≡ some (scratch_after buf_len size)
unfolding scratch_length
scratch_length-after buf_len size h = ground arith

-- How a message comes back: the empty slices as nil, the checksum set.
abbrev pub received : Message → Message
received m = record {
  key = nil_if_empty m.key;
  value = nil_if_empty m.value;
  offset = m.offset;
  crc = checksum (content 0 m);
  topic = [];
  partition = 0;
  tip_offset = 0;
}

module _ (c : Codecs) (nested : Source → ℕ → Exec SetRead) where
  pub read_sized-body :
      (offset buf_len size : ℕ) (body rest : List ℕ) (ending : Error) (more : Rest)
      (set : List Message)
      → length body ≡ size
      → size + 10240 < 2 ^ 31
      → read_sized c nested offset buf_len size (source_of (body ++ rest) ending) more set
        ≡ then_exec
            (decode_message c nested offset body)
            (settle more (scratch_after buf_len size) set (source_of rest ending))
  unfolding read_sized
  read_sized-body offset buf_len size body rest ending more set e h =
      let positive : leb (2 ^ 31) size ≡ false = ground arith in
      rw (positive, scratch_length-after buf_len size h)
        (ground (arith, read_full_exact size body rest ending e))

  abbrev pub loop : ℕ → Rest
  loop fuel n set rd = read_messages c nested fuel n set rd

  -- One round on a whole message of any compression.
  pub read_messages-message :
      (fuel buf_len compression : ℕ) (set : List Message) (m : Message) (rest : List ℕ)
      (ending : Error)
      → compression < 3
      → FitsMessage m
      → read_messages c nested
          (suc fuel)
          buf_len
          set
          (source_of (wire_message compression m ++ rest) ending)
        ≡ then_exec
            (by_compression c nested m.offset
              (checksum (content compression m))
              compression
              (nil_if_empty m.key)
              (nil_if_empty m.value))
            (settle (loop fuel) (scratch_after buf_len (msize m)) set (source_of rest ending))
  unfolding read_messages put_uint32
  read_messages-message fuel buf_len compression set m rest ending h f =
      let body = put_uint32 (checksum (content compression m)) ++ content compression m in
      let size : msize m % 2 ^ 32 ≡ msize m = omega (arith, f.size) in
      let whole : length body ≡ msize m = omega (
        arith,
        length-content compression m,
        length-append (put_uint32 (checksum (content compression m))) (content compression m),
      ) in
      rw
        (
          append_assoc (put_uint64 m.offset) (put_uint32 (msize m % 2 ^ 32) ++ body) rest,
          (int64_read m.offset f.offset).reads ((put_uint32 (msize m % 2 ^ 32) ++ body) ++ rest)
              ending,
          append_assoc (put_uint32 (msize m % 2 ^ 32)) body rest,
          size,
          (int32_read (msize m) (omega (arith, f.size))).reads (body ++ rest) ending,
          read_sized-body m.offset buf_len (msize m) body rest ending (loop fuel) set whole f.size,
          decode_message-body c nested m.offset compression m h f,
        )
        refl

  -- One round on an uncompressed message adds it to the set.
  read_messages-plain :
      (fuel buf_len : ℕ) (set : List Message) (m : Message) (rest : List ℕ) (ending : Error)
      → FitsMessage m
      → read_messages c nested (suc fuel) buf_len set (source_of (wire_message 0 m ++ rest) ending)
        ≡ read_messages c nested fuel
            (scratch_after buf_len (msize m))
            (set ++ (received m ∷ []))
            (source_of rest ending)
  unfolding by_compression settle
  read_messages-plain fuel buf_len set m rest ending f =
      read_messages-message fuel buf_len 0 set m rest ending (omega arith) f

  -- Uncompressed messages are read one after the other, with a round for each.
  pub read_messages-All :
      (ms : List Message) (fuel buf_len : ℕ) (set : List Message) (rest : List ℕ) (ending : Error)
      → All FitsMessage ms
      → (n : ℕ) × (read_messages c nested
            (length ms + fuel)
            buf_len
            set
            (source_of (join_map (wire_message 0) ms ++ rest) ending)
          ≡ read_messages c nested fuel n (set ++ map received ms) (source_of rest ending))
  read_messages-All [] fuel buf_len set rest ending h = (buf_len, rw (zero-add fuel, append-nil))
  read_messages-All (m ∷ ms) fuel buf_len set rest ending h =
      let next =
        read_messages-All ms fuel (scratch_after buf_len (msize m)) (set ++ (received m ∷ [])) rest
          ending h.1 in
      let rounds : suc (length ms) + fuel ≡ suc (length ms + fuel) = omega arith in
      (
        next.0,
        rw
            (
              rounds,
              append_assoc (wire_message 0 m) (join_map (wire_message 0) ms) rest,
              read_messages-plain (length ms + fuel) buf_len set m
                  (join_map (wire_message 0) ms ++ rest) ending h.0,
            )
            (rw (append_assoc set (received m ∷ []) (map received ms)) at next.1),
      )
