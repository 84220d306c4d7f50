-- ===== src/Messages/Frame.antt =====
-- What all messages of proto/messages.go share: the constants, the size in front, WriteTo.
use kafka.Base.{ℕ, suc, ◌-◌, ◌^◌, ◌≡◌, List, [], ◌++◌, none, some, length, drop, arith}
use kafka.Base.Program.{Exec, done, then_exec}
use kafka.Wire.BigEndian.{put_uint32}
use kafka.Wire.Errors.{Error}
use kafka.Wire.Decoder.{Result, ok, failed, Decoding, read_with}
use kafka.Wire.Encoder.{Enc, Encoder, Buffer, buffer_writer, Writer, Written, new_encoder}
use kafka.Wire.Reads.{Reads, read_with-Reads}
use kafka.Wire.Writes.{Writes}

abbrev pub produce_req_kind : ℕ
produce_req_kind = 0

abbrev pub fetch_req_kind : ℕ
fetch_req_kind = 1

abbrev pub offset_req_kind : ℕ
offset_req_kind = 2

abbrev pub metadata_req_kind : ℕ
metadata_req_kind = 3

abbrev pub offset_commit_req_kind : ℕ
offset_commit_req_kind = 8

abbrev pub offset_fetch_req_kind : ℕ
offset_fetch_req_kind = 9

abbrev pub group_coordinator_req_kind : ℕ
group_coordinator_req_kind = 10

-- -1 as an intN.
abbrev pub minus_one32 : ℕ
minus_one32 = 2 ^ 32 - 1

abbrev pub minus_one64 : ℕ
minus_one64 = 2 ^ 64 - 1

-- `binary.BigEndian.PutUint32(b, uint32(len(b)-4))`: the size goes over the placeholder.
unfoldable pub set_size : List ℕ → List ℕ
set_size b = put_uint32 (length b - 4) ++ drop 4 b

abbrev sized : Encoder Buffer → Exec (Result (List ℕ))
sized e = elim e.err [ some x ↦ done (failed x) | none ↦ done (ok (set_size e.w)) ]

-- The frame of every Bytes method: a fresh buffer, the fields, the encoder's error, the size.
unfoldable pub bytes_of : Enc Buffer → Exec (Result (List ℕ))
unfolding set_size
bytes_of fields = then_exec (fields (new_encoder [])) λ (_, e). sized e

-- What WriteTo returns: the count and the error, with the writer after it.
unfoldable pub write_to :
    {W : Type 0} ⦃wr : Writer W⦄ → Exec (Result (List ℕ)) → W → Exec (Written W)
write_to ⦃wr⦄ bs w = then_exec bs λ r. elim r [
  | failed e ↦ done (record { count = 0; err = some e; writer = w })
  | ok b ↦ done (wr.write w b)
]

-- A message on the wire: the size of the rest, then the rest.
abbrev pub frame : List ℕ → List ℕ
frame body = put_uint32 (length body) ++ body

bytes_of-Writes :
    {fields : Enc Buffer} (body : List ℕ)
    → Writes fields (put_uint32 0 ++ body)
    → bytes_of fields ≡ done (ok (frame body))
unfolding bytes_of put_uint32
bytes_of-Writes body w =
    let size : suc (suc (suc (suc (length body)))) - 4 ≡ length body = omega arith in
    rw (w.writes []) (rw size)

-- What is written by the layout is read back from any reader that begins with it.
pub carried :
    {A : Type 0} {fields : Enc Buffer} {decode : Decoding A} {a : A} (body : List ℕ)
    → Writes fields (put_uint32 0 ++ body)
    → Reads decode (frame body) a
    → (rest : List ℕ) (ending : Error)
    → (bytes_of fields ≡ done (ok (frame body)))
      × (read_with decode (record { bytes = frame body ++ rest; ending = ending }) ≡ done (ok a))
carried body w r rest ending = (bytes_of-Writes body w, read_with-Reads r rest ending)
