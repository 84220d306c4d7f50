-- ===== src/Examples/Sets.antt =====
-- A message set, written and read back, whole, cut and damaged.
use kafka.Base.{
  ℕ, ◌≡◌, ◌≢◌, ◌<◌, ◌^◌, refl, List, [], ◌∷◌, ◌++◌, none, arith, length, take, drop, map, join_map,
  inl,
}
use kafka.Base.Program.{done, panic}
use kafka.Wire.BigEndian.{put_uint8, put_uint32, put_uint64}
use kafka.Wire.Errors.{eof}
use kafka.Wire.Decoder.{ok}
use kafka.MessageSet.Crc.{checksum}
use kafka.MessageSet.Write.{write_message_set}
use kafka.MessageSet.Layout.{wire_message}
use kafka.MessageSet.WriteLaws.{wire_set, write_message_set-wire}
use kafka.MessageSet.Read.{read_message_set}
use kafka.MessageSet.Snappy.{snappy_java_magic, snappy_decode}
use kafka.MessageSet.Termination.{Terminates, snappy_decode-Terminates}
use kafka.MessageSet.ReadLaws.{received, source_of}
use kafka.MessageSet.RoundTrip.{read_message_set-write_message_set}
use kafka.MessageSet.Truncation.{read_message_set-cut}
use kafka.MessageSet.Damage.{wire_any, read_message_set_bad_checksum, read_message_set_bad_size}
use kafka.Examples.{
  codecs, codecs-CodecLaws, sample_message, sample_message-FitsMessage, fits_snappy,
}

read_message_set-write_message_set_example :
    let bs = wire_set codecs 2 (sample_message ∷ []) in
    (write_message_set codecs (9 ∷ []) (sample_message ∷ []) 2
      ≡ done (record { count = length bs; err = none; writer = (9 ∷ []) ++ bs }))
    × (read_message_set codecs 2 (source_of (bs ++ (7 ∷ [])) eof) (length bs)
        ≡ done (ok (map received (sample_message ∷ [])), source_of (7 ∷ []) eof))
read_message_set-write_message_set_example =
    read_message_set-write_message_set codecs 0 2 (9 ∷ []) (sample_message ∷ []) (7 ∷ []) eof
      codecs-CodecLaws (omega arith) fits_snappy

write_message_set-wire_example :
    write_message_set codecs (9 ∷ []) (sample_message ∷ []) 1
    ≡ done (record {
      count = length (wire_set codecs 1 (sample_message ∷ []));
      err = none;
      writer = (9 ∷ []) ++ wire_set codecs 1 (sample_message ∷ []);
    })
write_message_set-wire_example = write_message_set-wire codecs (9 ∷ []) (sample_message ∷ []) 1

-- The first twenty bytes of a message.
abbrev cut_part : List ℕ
cut_part = take 20 (wire_message 0 sample_message)

abbrev cut_back : List ℕ
cut_back = drop 21 (wire_message 0 sample_message)

abbrev cut_set : List ℕ
cut_set = join_map (wire_message 0) (sample_message ∷ []) ++ cut_part

cut_joins : cut_part ++ (0 ∷ cut_back) ≡ wire_message 0 sample_message
unfolding put_uint8 put_uint32 put_uint64
cut_joins = refl

cut_small : length cut_set < 2 ^ 31
unfolding put_uint8 put_uint32 put_uint64
cut_small = omega arith

read_message_set-cut_example :
    read_message_set codecs 1 (source_of (cut_set ++ (7 ∷ [])) eof) (length cut_set)
    ≡ done (ok (map received (sample_message ∷ [])), source_of (7 ∷ []) eof)
read_message_set-cut_example =
    read_message_set-cut codecs 0 (sample_message ∷ []) sample_message cut_part cut_back (7 ∷ []) 0
      eof (sample_message-FitsMessage, tt) sample_message-FitsMessage cut_joins cut_small

abbrev damaged_set : List ℕ
damaged_set =
    join_map (wire_message 0) (sample_message ∷ []) ++ (wire_any 43 1 (0 ∷ 0 ∷ []) ++ (8 ∷ []))

damaged_small : length damaged_set < 2 ^ 31
unfolding put_uint8 put_uint32 put_uint64
damaged_small = omega arith

wrong_checksum : 1 ≢ checksum (0 ∷ 0 ∷ [])
unfolding checksum
wrong_checksum = λ e. omega arith

read_message_set_bad_checksum_example :
    read_message_set codecs 1 (source_of (damaged_set ++ (7 ∷ [])) eof) (length damaged_set)
    ≡ done (ok (map received (sample_message ∷ [])), source_of ((8 ∷ []) ++ (7 ∷ [])) eof)
read_message_set_bad_checksum_example =
    read_message_set_bad_checksum codecs 0 (sample_message ∷ []) 43 1 (0 ∷ 0 ∷ []) (8 ∷ []) (7 ∷ [])
      eof (sample_message-FitsMessage, tt) (omega arith) (omega arith) wrong_checksum (omega arith)
      damaged_small

abbrev short_set : List ℕ
short_set =
    join_map (wire_message 0) (sample_message ∷ [])
    ++ (put_uint64 43 ++ (put_uint32 2 ++ ((0 ∷ 0 ∷ []) ++ [])))

short_small : length short_set < 2 ^ 31
unfolding put_uint8 put_uint32 put_uint64
short_small = omega arith

read_message_set_bad_size_example :
    read_message_set codecs 1 (source_of (short_set ++ (7 ∷ [])) eof) (length short_set) ≡ panic
read_message_set_bad_size_example =
    read_message_set_bad_size codecs 0 (sample_message ∷ []) 43 2 (0 ∷ 0 ∷ []) [] (7 ∷ []) eof
      (sample_message-FitsMessage, tt) (omega arith) (inl (refl, omega arith)) short_small

-- The framing of snappy-java around one chunk of two bytes.
abbrev framed : List ℕ
framed = snappy_java_magic ++ (put_uint32 1 ++ (put_uint32 1 ++ (put_uint32 2 ++ (0 ∷ 9 ∷ []))))

snappy_decode-Terminates_example : Terminates (snappy_decode codecs framed)
snappy_decode-Terminates_example = snappy_decode-Terminates codecs framed
