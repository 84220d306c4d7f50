-- ===== src/MessageSet/RoundTrip.antt =====
-- readMessageSet gives back the messages of what writeMessageSet wrote, compressed or not.
use kafka.Base.{
  ℕ, zero, suc, ◌+◌, ◌%◌, ◌^◌, ◌<◌, ◌≡◌, refl, List, [], ◌∷◌, ◌++◌, none, some, length, append-nil,
  join_map, arith, All, leb, map, false, drop-length_append,
}
use kafka.Base.Program.{Exec, done}
use kafka.Wire.BigEndian.{put_uint32, put_uint64}
use kafka.Wire.Source.{Source, after_limit}
use kafka.Wire.Errors.{Error, eof}
use kafka.Wire.Encoder.{Buffer}
use kafka.Wire.Decoder.{Result, ok}
use kafka.Wire.Reads.{nil_if_empty}
use kafka.MessageSet.Crc.{checksum}
use kafka.MessageSet.Message.{Message, size_of, Codecs, plain_message}
use kafka.MessageSet.Snappy.{snappy_decode, has_prefix, snappy_java_magic, decoded_or_error}
use kafka.MessageSet.Write.{msize, write_message_set}
use kafka.MessageSet.Layout.{content, wire_message, length-wire_message}
use kafka.MessageSet.WriteLaws.{wrapper, wire_set, write_message_set-wire}
use kafka.MessageSet.Read.{
  SetRead, adds, or_empty, gunzip, unpack, by_compression, settle, read_messages, read_message_set,
}
use kafka.MessageSet.ReadLaws.{
  FitsMessage, received, source_of, scratch_after, read_messages-message,
}
use kafka.MessageSet.Truncation.{limit_reader-exact, read_message_set-cut, cut_in_offset}

-- What the libraries document: decompression undoes compression, and no snappy block begins with the
-- magic of snappy-java, since its first element would be a copy of bytes that are not there.
pub record CodecLaws (c : Codecs) : Type 0 where
  pub gunzip-gzip : (b : List ℕ) → c.gunzip (c.gzip b) ≡ some b
  pub snappy_decode-snappy_encode : (b : List ℕ) → c.snappy_decode (c.snappy_encode b) ≡ some b
  pub snappy_unframed : (b : List ℕ) → has_prefix (c.snappy_encode b) snappy_java_magic ≡ false

blank : Message
blank = plain_message none none 0

-- A whole uncompressed set.
pub read_message_set-whole :
    (c : Codecs) (depth : ℕ) (ms : List Message) (rest : List ℕ) (ending : Error)
    → All FitsMessage ms
    → length (join_map (wire_message 0) ms) < 2 ^ 31
    → let bs = join_map (wire_message 0) ms in
      read_message_set c (suc depth) (source_of (bs ++ rest) ending) (length bs)
      ≡ done (ok (map received ms), source_of rest ending)
unfolding blank put_uint64 put_uint32
read_message_set-whole c depth ms rest ending hs small =
    let bs = join_map (wire_message 0) ms in
    rw append-nil at (
      read_message_set-cut c depth ms blank [] _ rest _ ending hs (omega arith) refl
        (rw append-nil small))

or_empty-nil_if_empty : (b : List ℕ) → or_empty (nil_if_empty (some b)) ≡ b
or_empty-nil_if_empty [] = refl
or_empty-nil_if_empty (x ∷ b) = refl

-- The bytes of the messages of a set before any compression.
abbrev pub plain_bytes : List Message → List ℕ
plain_bytes ms = join_map (wire_message 0) ms

-- The set is what the loop makes of the bytes inside the limit, if it takes them all.
read_message_set-loop :
    (c : Codecs) (depth : ℕ) (bs rest : List ℕ) (ending : Error) (set : Result (List Message))
    → length bs < 2 ^ 31
    → read_messages c
        (λ s n. read_message_set c depth s n)
        (suc (length bs))
        0
        []
        (source_of bs eof)
      ≡ done (set, source_of [] eof)
    → read_message_set c (suc depth) (source_of (bs ++ rest) ending) (length bs)
      ≡ done (set, source_of rest ending)
unfolding read_message_set after_limit
read_message_set-loop c depth bs rest ending set small e =
    let positive : leb (2 ^ 31) (length bs) ≡ false = ground arith in
    rw (positive, limit_reader-exact bs rest ending, e) (rw (drop-length_append bs rest))

module _ (c : Codecs) (depth : ℕ) where
  abbrev nested : Source → ℕ → Exec SetRead
  nested s n = read_message_set c (suc depth) s n

  -- A compressed message whose value decodes to the bytes of a set adds that set's messages.
  unpack-set :
      (decoded : Exec (Result (List ℕ))) (ms : List Message)
      → decoded ≡ done (ok (plain_bytes ms))
      → All FitsMessage ms
      → length (plain_bytes ms) < 2 ^ 31
      → unpack nested decoded ≡ done (adds (map received ms))
  unfolding unpack
  unpack-set decoded ms e h small =
      let size : length (plain_bytes ms) % 2 ^ 32 ≡ length (plain_bytes ms) = omega arith in
      let inner = rw append-nil at (read_message_set-whole c depth ms [] eof h small) in
      rw (e, size, inner)

  -- A set that is one compressed message.
  read_compressed :
      (compression : ℕ) (w : Message) (ms : List Message) (rest : List ℕ) (ending : Error)
      → compression < 3
      → FitsMessage w
      → by_compression c nested w.offset
          (checksum (content compression w))
          compression
          (nil_if_empty w.key)
          (nil_if_empty w.value)
        ≡ done (adds ms)
      → read_message_set c
          (suc (suc depth))
          (source_of (wire_message compression w ++ rest) ending)
          (length (wire_message compression w))
        ≡ done (ok ms, source_of rest ending)
  unfolding settle
  read_compressed compression w ms rest ending small f e =
      let bs = wire_message compression w in
      let size : length bs ≡ suc (25 + size_of w.key + size_of w.value) =
        omega (arith, length-wire_message compression w) in
      read_message_set-loop c (suc depth) bs rest ending (ok ms)
        (omega (arith, f.size, length-wire_message compression w))
        (rw
          (
            size,
            ← append-nil bs,
            read_messages-message c nested (suc (25 + size_of w.key + size_of w.value)) 0
                compression [] w [] eof small f,
            e,
          )
          (cut_in_offset c nested ms (25 + size_of w.key + size_of w.value)
            (scratch_after 0 (msize w)) [] (omega arith)))

-- The message that wraps a compressed set fits too.
abbrev FitsWrapper : Codecs → ℕ → Message → List Message → Type 0
FitsWrapper c zero m ms = Unit {0}
FitsWrapper c (suc zero) m ms = FitsMessage (wrapper c.gzip m ms)
FitsWrapper c (suc (suc compression)) m ms = FitsMessage (wrapper c.snappy_encode m ms)

-- A set fits if its messages do, and so do its uncompressed bytes and the message that wraps them.
abbrev pub FitsSet : Codecs → ℕ → List Message → Type 0
FitsSet c compression [] = Unit {0}
FitsSet c compression (m ∷ ms) =
    All FitsMessage (m ∷ ms)
    × (length (plain_bytes (m ∷ ms)) < 2 ^ 31)
    × FitsWrapper c compression m ms

wire_set-Reads :
    (c : Codecs) (depth compression : ℕ) (m : Message) (ms : List Message) (rest : List ℕ)
    (ending : Error)
    → CodecLaws c
    → compression < 3
    → FitsSet c compression (m ∷ ms)
    → read_message_set c
        (suc (suc depth))
        (source_of (wire_set c compression (m ∷ ms) ++ rest) ending)
        (length (wire_set c compression (m ∷ ms)))
      ≡ done (ok (map received (m ∷ ms)), source_of rest ending)
unfolding by_compression gunzip snappy_decode decoded_or_error
wire_set-Reads c depth zero m ms rest ending laws small h =
    read_message_set-whole c (suc depth) (m ∷ ms) rest ending h.0 h.1
wire_set-Reads c depth (suc zero) m ms rest ending laws small h =
    let bs = plain_bytes (m ∷ ms) in
    read_compressed c depth 1 (wrapper c.gzip m ms) (map received (m ∷ ms)) rest ending small h.2 (
      unpack-set c depth _ (m ∷ ms)
        (rw (or_empty-nil_if_empty (c.gzip bs)) (rw (laws.gunzip-gzip bs, gunzip))) h.0 h.1)
wire_set-Reads c depth (suc (suc zero)) m ms rest ending laws small h =
    let bs = plain_bytes (m ∷ ms) in
    read_compressed c depth 2 (wrapper c.snappy_encode m ms) (map received (m ∷ ms)) rest ending
      small h.2
      (unpack-set c depth _ (m ∷ ms)
        (rw (
          or_empty-nil_if_empty (c.snappy_encode bs),
          laws.snappy_unframed bs,
          laws.snappy_decode-snappy_encode bs,
        ))
        h.0 h.1)
wire_set-Reads c depth (suc (suc (suc n))) m ms rest ending laws small h = absurd (omega arith)

-- readMessageSet, two levels deep or more, reads the bytes of a set that fits, compressed or not, and
-- stops behind them: every message comes back with its checksum, an empty slice as the nil slice.
pub wire_set_read :
    (c : Codecs) (depth compression : ℕ) (ms : List Message) (rest : List ℕ) (ending : Error)
    → CodecLaws c
    → compression < 3
    → FitsSet c compression ms
    → read_message_set c
        (suc (suc depth))
        (source_of (wire_set c compression ms ++ rest) ending)
        (length (wire_set c compression ms))
      ≡ done (ok (map received ms), source_of rest ending)
wire_set_read c depth compression [] rest ending laws small h =
    read_message_set-whole c (suc depth) [] rest ending tt (omega arith)
wire_set_read c depth compression (m ∷ ms) rest ending laws small h =
    wire_set-Reads c depth compression m ms rest ending laws small h

-- writeMessageSet appends the bytes of a set and returns their number and no error. If the set fits and
-- the compression methods can be undone, readMessageSet gives its messages back from these bytes, with
-- their checksums and with an empty slice as the nil slice, and leaves what follows them.
pub read_message_set-write_message_set :
    (c : Codecs) (depth compression : ℕ) (w : Buffer) (ms : List Message) (rest : List ℕ)
    (ending : Error)
    → CodecLaws c
    → compression < 3
    → FitsSet c compression ms
    → let bs = wire_set c compression ms in
      (write_message_set c w ms compression
        ≡ done (record { count = length bs; err = none; writer = w ++ bs }))
      × (read_message_set c (suc (suc depth)) (source_of (bs ++ rest) ending) (length bs)
          ≡ done (ok (map received ms), source_of rest ending))
read_message_set-write_message_set c depth compression w ms rest ending laws small h = (
  write_message_set-wire c w ms compression,
  wire_set_read c depth compression ms rest ending laws small h,
)
