-- ===== src/MessageSet/Damage.antt =====
-- readMessageSet on damaged sets: a wrong checksum ends the set, and a wrong size panics.
use kafka.Base.{
  ℕ, suc, ◌+◌, ◌-◌, ◌^◌, ◌≤◌, ◌<◌, ◌≡◌, ◌≢◌, refl, List, [], ◌∷◌, ◌++◌, length, append_assoc,
  join_map, length-append, drop-length_append, arith, All, leb, map, false, true, ◌⊎◌, inl, inr,
}
use kafka.Base.Program.{Exec, done, panic, then_exec}
use kafka.Wire.BigEndian.{put_uint32, put_uint64}
use kafka.Wire.Source.{Source, after_limit}
use kafka.Wire.Errors.{Error, eof}
use kafka.Wire.Decoder.{ok, decode_uint32}
use kafka.Wire.Reads.{int32_read, uint32_read, int64_read}
use kafka.MessageSet.Crc.{checksum}
use kafka.MessageSet.Message.{Message, Codecs}
use kafka.MessageSet.Layout.{wire_message}
use kafka.MessageSet.Read.{
  SetRead, settle, ends, decode_message, read_sized, read_messages, read_message_set,
}
use kafka.MessageSet.ReadLaws.{
  FitsMessage, received, source_of, read_sized-body, read_messages-All, loop,
}
use kafka.MessageSet.Truncation.{limit_reader-exact, count-le}

-- A message with any checksum: what lies behind the size is `crc` and `body`.
abbrev pub wire_any : ℕ → ℕ → List ℕ → List ℕ
wire_any offset crc body =
    put_uint64 offset ++ (put_uint32 (4 + length body) ++ (put_uint32 crc ++ body))

module _ (c : Codecs) (nested : Source → ℕ → Exec SetRead) (set : List Message) where
  read_messages-header :
      (fuel buf_len offset size : ℕ) (bytes : List ℕ)
      → offset < 2 ^ 64
      → size < 2 ^ 32
      → read_messages c nested
          (suc fuel)
          buf_len
          set
          (source_of (put_uint64 offset ++ (put_uint32 size ++ bytes)) eof)
        ≡ read_sized c nested offset buf_len size (source_of bytes eof) (loop c nested fuel) set
  unfolding read_messages
  read_messages-header fuel buf_len offset size bytes f h =
      rw
        (
          (int64_read offset f).reads (put_uint32 size ++ bytes) eof,
          (int32_read size h).reads bytes eof,
        )
        refl

  decode_message-mismatch :
      (offset crc : ℕ) (body : List ℕ)
      → crc < 2 ^ 32
      → crc ≢ checksum body
      → decode_message c nested offset (put_uint32 crc ++ body) ≡ done ends
  unfolding decode_message
  decode_message-mismatch offset crc body h wrong =
      rw ((uint32_read crc h).reads body eof) (unfold put_uint32 in ground arith)

  -- The reader is left right behind the message.
  bad_checksum_round :
      (fuel buf_len offset crc : ℕ) (body rest : List ℕ)
      → offset < 2 ^ 64
      → crc < 2 ^ 32
      → crc ≢ checksum body
      → 4 + length body + 10240 < 2 ^ 31
      → read_messages c nested
          (suc fuel)
          buf_len
          set
          (source_of (wire_any offset crc body ++ rest) eof)
        ≡ done (ok set, source_of rest eof)
  unfolding settle
  bad_checksum_round fuel buf_len offset crc body rest f h wrong small =
      let size = 4 + length body in
      let whole : length (put_uint32 crc ++ body) ≡ size = unfold put_uint32 in omega arith in
      rw
        (
          append_assoc (put_uint64 offset) (put_uint32 size ++ (put_uint32 crc ++ body)) rest,
          append_assoc (put_uint32 size) (put_uint32 crc ++ body) rest,
          read_messages-header fuel buf_len offset size ((put_uint32 crc ++ body) ++ rest) f
              (omega arith),
          read_sized-body c nested offset buf_len size (put_uint32 crc ++ body) rest eof
              (loop c nested fuel) set whole small,
          decode_message-mismatch offset crc body h wrong,
        )
        refl

  decode_message-short :
      (offset : ℕ) (body : List ℕ) → length body < 4 → decode_message c nested offset body ≡ panic
  unfolding decode_message decode_uint32
  decode_message-short offset [] h = refl
  decode_message-short offset (a ∷ []) h = refl
  decode_message-short offset (a ∷ b ∷ []) h = refl
  decode_message-short offset (a ∷ b ∷ d ∷ []) h = refl
  decode_message-short offset (a ∷ b ∷ d ∷ x ∷ more) h = absurd (omega arith)

  short_round :
      (fuel buf_len offset size : ℕ) (body rest : List ℕ)
      → offset < 2 ^ 64
      → length body ≡ size
      → size < 4
      → read_messages c nested
          (suc fuel)
          buf_len
          set
          (source_of (put_uint64 offset ++ (put_uint32 size ++ (body ++ rest))) eof)
        ≡ panic
  short_round fuel buf_len offset size body rest f e h =
      rw
        (
          read_messages-header fuel buf_len offset size (body ++ rest) f (omega arith),
          read_sized-body c nested offset buf_len size body rest eof (loop c nested fuel) set e
              (omega arith),
          decode_message-short offset body (omega arith),
        )
        refl

  negative_round :
      (fuel buf_len offset size : ℕ) (rest : List ℕ)
      → offset < 2 ^ 64
      → 2 ^ 31 ≤ size
      → size < 2 ^ 32
      → read_messages c nested
          (suc fuel)
          buf_len
          set
          (source_of (put_uint64 offset ++ (put_uint32 size ++ rest)) eof)
        ≡ panic
  unfolding read_sized
  negative_round fuel buf_len offset size rest f low high =
      let negative : leb (2 ^ 31) size ≡ true = ground arith in
      rw (read_messages-header fuel buf_len offset size rest f high, negative)

-- The bytes of whole messages, and what follows them inside the limit.
module _ (c : Codecs) (depth : ℕ) (ms : List Message) (damaged rest : List ℕ) (ending : Error)
    (hs : All FitsMessage ms) where
  abbrev all_bytes : List ℕ
  all_bytes = join_map (wire_message 0) ms ++ damaged

  -- The whole messages are read first; what the next round answers is the answer.
  read_message_set-then :
      (answer : Exec SetRead)
      → length all_bytes < 2 ^ 31
      → ((fuel n : ℕ)
          → read_messages c
              (λ s k. read_message_set c depth s k)
              (suc fuel)
              n
              (map received ms)
              (source_of damaged eof)
            ≡ answer)
      → read_message_set c (suc depth) (source_of (all_bytes ++ rest) ending) (length all_bytes)
        ≡ then_exec answer (λ (set, left).
          done (set, after_limit (length all_bytes) (source_of (all_bytes ++ rest) ending) left))
  unfolding read_message_set
  read_message_set-then answer small next =
      let positive : leb (2 ^ 31) (length all_bytes) ≡ false = ground arith in
      let fuel = length all_bytes - length ms in
      let enough : suc (length all_bytes) ≡ length ms + suc fuel =
        omega (arith, count-le ms, length-append (join_map (wire_message 0) ms) damaged) in
      let read =
        read_messages-All c (λ s k. read_message_set c depth s k) ms (suc fuel) 0 [] damaged eof
          hs in
      rw (positive, limit_reader-exact all_bytes rest ending, enough, read.1, next fuel read.0) refl

-- A message whose checksum does not hold, behind any whole uncompressed messages that fit, ends the
-- set: readMessageSet returns the messages in front of it with no error, and leaves the reader right
-- behind it, so the bytes of the set that follow are not skipped. Its offset, checksum and size fit, and
-- the set is below 2 ^ 31 bytes.
pub read_message_set_bad_checksum :
    (c : Codecs) (depth : ℕ) (ms : List Message) (offset crc : ℕ) (body tail rest : List ℕ)
    (ending : Error)
    → All FitsMessage ms
    → offset < 2 ^ 64
    → crc < 2 ^ 32
    → crc ≢ checksum body
    → 4 + length body + 10240 < 2 ^ 31
    → length (join_map (wire_message 0) ms ++ (wire_any offset crc body ++ tail)) < 2 ^ 31
    → let bs = join_map (wire_message 0) ms ++ (wire_any offset crc body ++ tail) in
      read_message_set c (suc depth) (source_of (bs ++ rest) ending) (length bs)
      ≡ done (ok (map received ms), source_of (tail ++ rest) ending)
unfolding after_limit
read_message_set_bad_checksum c depth ms offset crc body tail rest ending hs f h wrong small
      all_small =
    let damaged = wire_any offset crc body ++ tail in
    let nested = λ (s : Source) (k : ℕ). read_message_set c depth s k in
    let found =
      read_message_set-then c depth ms damaged rest ending hs
        (done (ok (map received ms), source_of tail eof)) all_small
        (λ fuel n.
          bad_checksum_round c nested (map received ms) fuel n offset crc body tail f h wrong
            small) in
    rw found (rw (drop-length_append (join_map (wire_message 0) ms ++ damaged) rest))

-- A message in a set whose size field is negative, or is below 4 with that many bytes behind it,
-- behind any whole uncompressed messages that fit, in a set below 2 ^ 31 bytes: readMessageSet panics.
pub read_message_set_bad_size :
    (c : Codecs) (depth : ℕ) (ms : List Message) (offset size : ℕ) (body tail rest : List ℕ)
    (ending : Error)
    → All FitsMessage ms
    → offset < 2 ^ 64
    → ((length body ≡ size) × (size < 4)) ⊎ ((2 ^ 31 ≤ size) × (size < 2 ^ 32))
    → length
        (join_map (wire_message 0) ms ++ (put_uint64 offset ++ (put_uint32 size ++ (body ++ tail))))
      < 2 ^ 31
    → let bs =
        join_map (wire_message 0) ms
        ++ (put_uint64 offset ++ (put_uint32 size ++ (body ++ tail))) in
      read_message_set c (suc depth) (source_of (bs ++ rest) ending) (length bs) ≡ panic
read_message_set_bad_size c depth ms offset size body tail rest ending hs f (inl short) small =
    let nested = λ (s : Source) (k : ℕ). read_message_set c depth s k in
    read_message_set-then c depth ms (put_uint64 offset ++ (put_uint32 size ++ (body ++ tail))) rest
      ending hs panic small
      (λ fuel n.
        short_round c nested (map received ms) fuel n offset size body tail f short.0 short.1)
read_message_set_bad_size c depth ms offset size body tail rest ending hs f (inr negative) small =
    let nested = λ (s : Source) (k : ℕ). read_message_set c depth s k in
    read_message_set-then c depth ms (put_uint64 offset ++ (put_uint32 size ++ (body ++ tail))) rest
      ending hs panic small
      (λ fuel n.
        negative_round c nested (map received ms) fuel n offset size (body ++ tail) f negative.0
          negative.1)
