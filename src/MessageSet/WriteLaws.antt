-- ===== src/MessageSet/WriteLaws.antt =====
-- What writeMessageSet writes: the layout of each message, one after the other.
use kafka.Base.{
  ℕ, zero, ◌+◌, ◌≡◌, refl, List, [], ◌∷◌, ◌++◌, none, some, length, append_assoc, append-nil,
  join_map, length-append, arith, ◌==◌, if◌then◌else◌,
}
use kafka.Base.Program.{done}
use kafka.Wire.Writes.{Writes, write_then, int8_written, bytes_written}
use kafka.Wire.Encoder.{Buffer, buffer_writer}
use kafka.MessageSet.Crc.{checksum}
use kafka.MessageSet.Message.{
  compute_crc, crc_fields, Message, Codecs, plain_message, compression_none, compression_gzip,
  compression_snappy,
}
use kafka.MessageSet.SliceWriter.{SliceWriter, slice_writer, new_slice_writer}
use kafka.MessageSet.Write.{
  bsize, set_crc, write_messages, write_all_messages, write_wrapped, write_message_set, last_offset,
}
use kafka.MessageSet.Layout.{content, wire_message, filled, message_fields-filled, slice-filled}

-- A set is its messages' layouts, one after the other, whatever their number.
pub write_messages-wire :
    (compression : ℕ) (ms : List Message) (b : SliceWriter) (w : Buffer) (total : ℕ)
    → let bs = join_map (wire_message compression) ms in
      write_messages compression b w total ms
      ≡ done (record { count = total + length bs; err = none; writer = w ++ bs })
unfolding write_messages
write_messages-wire compression [] b w total =
    let n : total + 0 ≡ total = omega arith in rw (append-nil, n)
write_messages-wire compression (m ∷ ms) b w total =
    let bs = join_map (wire_message compression) ms in
    let p = wire_message compression m in
    let n : total + length p + length bs ≡ total + length (p ++ bs) =
      omega (arith, length-append p bs) in
    rw (
      message_fields-filled compression m b,
      slice-filled compression m b,
      write_messages-wire compression ms (set_crc (bsize m) (filled compression m b)) (w ++ p)
          (total + length p),
      append_assoc w p bs,
      n,
    )

-- The message that wraps a compressed set.
abbrev pub wrapper : (List ℕ → List ℕ) → Message → List Message → Message
wrapper compress m ms =
    plain_message none (some (compress (join_map (wire_message compression_none) (m ∷ ms))))
      (last_offset m ms)

-- A set on the wire, by its compression.
abbrev pub wire_set : Codecs → ℕ → List Message → List ℕ
wire_set c compression [] = []
wire_set c compression (m ∷ ms) =
    if compression == compression_gzip
    then wire_message compression (wrapper c.gzip m ms)
    else if compression == compression_snappy
    then wire_message compression (wrapper c.snappy_encode m ms)
    else join_map (wire_message compression) (m ∷ ms)

write_all_messages-wire :
    (compression : ℕ) (ms : List Message) (w : Buffer)
    → let bs = join_map (wire_message compression) ms in
      write_all_messages compression w ms
      ≡ done (record { count = length bs; err = none; writer = w ++ bs })
unfolding write_all_messages
write_all_messages-wire compression ms w =
    let n : zero + length (join_map (wire_message compression) ms)
        ≡ length (join_map (wire_message compression) ms) =
      omega arith in
    rw (write_messages-wire compression ms (new_slice_writer 0) w 0, n)

write_wrapped-wire :
    (compress : List ℕ → List ℕ) (compression : ℕ) (w : Buffer) (m : Message) (ms : List Message)
    → let bs = wire_message compression (wrapper compress m ms) in
      write_wrapped compress compression w m ms
      ≡ done (record { count = length bs; err = none; writer = w ++ bs })
unfolding write_wrapped
write_wrapped-wire compress compression w m ms = rw (
  write_all_messages-wire compression_none (m ∷ ms) [],
  write_all_messages-wire compression (wrapper compress m ms ∷ []) w,
  append-nil,
)

-- writeMessageSet appends the set's layout to the writer, returns its length and no error: the slice
-- writer always has room for a message.
pub write_message_set-wire :
    (c : Codecs) (w : Buffer) (ms : List Message) (compression : ℕ)
    → write_message_set c w ms compression
      ≡ done (record {
        count = length (wire_set c compression ms);
        err = none;
        writer = w ++ wire_set c compression ms;
      })
unfolding write_message_set
write_message_set-wire c w [] compression = rw append-nil
write_message_set-wire c w (m ∷ ms) compression = ground (
  arith,
  write_wrapped-wire c.gzip compression w m ms,
  write_wrapped-wire c.snappy_encode compression w m ms,
  write_all_messages-wire compression (m ∷ ms) w,
)

crc_fields-Writes :
    (m : Message) (compression : ℕ) → Writes (crc_fields m compression) (content compression m)
unfolding crc_fields
crc_fields-Writes m compression = write_then (int8_written 0) (
    write_then (int8_written compression)
      (write_then (bytes_written m.key) (bytes_written m.value)))

-- ComputeCrc never fails and gives the checksum of the magic byte, the attributes, the key and the
-- value, which is the checksum that writeMessageSet puts in front of them.
pub compute_crc-content :
    (m : Message) (compression : ℕ)
    → compute_crc m compression ≡ done (checksum (content compression m))
unfolding compute_crc
compute_crc-content m compression = rw ((crc_fields-Writes m compression).writes []) refl
