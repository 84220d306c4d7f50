-- ===== src/Messages/Envelope/Laws.antt =====
-- Messages follow one another on a stream, and a wrong size panics.
use kafka.Base.{
  [], ℕ, ◌+◌, ◌-◌, ◌^◌, ◌≤◌, ◌<◌, ◌≡◌, refl, List, ◌++◌, length, append_assoc, arith, ◌⊎◌, inl, inr,
}
use kafka.Base.Program.{done, panic, ◌>>=◌, pure}
use kafka.Wire.BigEndian.{put_uint16, put_uint32}
use kafka.Wire.Errors.{Error}
use kafka.Wire.Decoder.{ok, failed, decode_int32, decode_int16}
use kafka.Wire.Source.{read_full, short_read}
use kafka.Wire.Reads.{Reads, read_then, read_last, int16_read, int32_read}
use kafka.Messages.Frame.{frame}
use kafka.MessageSet.ReadLaws.{source_of, read_full_exact}
use native.Mathlib.Decide.{dec_lt}
use kafka.Messages.Envelope.{
  Envelope, read_rest, read_req, read_resp, req_header, resp_header, fits_header, total_size,
}

req_header-Reads :
    (size kind : ℕ)
    → size < 2 ^ 32
    → kind < 2 ^ 16
    → Reads req_header (put_uint32 size ++ put_uint16 kind) (size, kind)
unfolding req_header
req_header-Reads size kind h k = read_then _ (int32_read size h) (read_last _ (int16_read kind k))

resp_header-Reads :
    (size id : ℕ)
    → size < 2 ^ 32
    → id < 2 ^ 32
    → Reads resp_header (put_uint32 size ++ put_uint32 id) (size, id)
unfolding resp_header
resp_header-Reads size id h k = read_then _ (int32_read size h) (read_last _ (int32_read id k))

fits_header_lem :
    (header total : ℕ) → header ≤ total → total < 2 ^ 31 → fits_header header total ≡ done tt
unfolding fits_header
fits_header_lem header total h k = ground arith

-- ReadResp takes exactly one response off a stream, of whatever kind, if its correlation id fits and its
-- whole size is below 2 ^ 31: it returns the id that stands behind the size, and the bytes with the size
-- in front, as the Read functions take them.
pub read_resp-frame :
    (id : ℕ) (payload rest : List ℕ) (ending : Error)
    → id < 2 ^ 32
    → length payload + 8 < 2 ^ 31
    → read_resp (source_of (frame (put_uint32 id ++ payload) ++ rest) ending)
      ≡ done (ok (id, frame (put_uint32 id ++ payload)), source_of rest ending)
unfolding read_resp
read_resp-frame id payload rest ending h small =
    let size = length (put_uint32 id ++ payload) in
    let body : size ≡ length payload + 4 = unfold put_uint32 in omega arith in
    let total : total_size size ≡ length payload + 8 = unfold total_size in omega arith in
    let left : length payload ≡ length payload + 8 - 8 = omega arith in
    rw
      (
        append_assoc (put_uint32 size) (put_uint32 id ++ payload) rest,
        append_assoc (put_uint32 id) payload rest,
        ← append_assoc (put_uint32 size) (put_uint32 id) (payload ++ rest),
        (resp_header-Reads size id (omega arith) h).reads (payload ++ rest) ending,
        total,
        fits_header_lem 8 (length payload + 8) (omega arith) small,
      )
      (ground (
        arith,
        read_full_exact (length payload + 8 - 8) payload rest ending left,
        append_assoc (put_uint32 size) (put_uint32 id) payload,
      ))

-- Where a stream has ended, ReadReq returns what ends it.
pub read_req-end :
    (ending : Error) → read_req (source_of [] ending) ≡ done (failed ending, source_of [] ending)
unfolding read_req req_header decode_int32 decode_int16 read_full short_read ◌>>=◌ pure
read_req-end ending = refl

-- ReadReq takes exactly one request off a stream, of whatever kind, if the kind fits and its whole size
-- is below 2 ^ 31: it returns the kind that stands behind the size, and the bytes with the size in
-- front, as the Read functions take them.
pub read_req-frame :
    (kind : ℕ) (payload rest : List ℕ) (ending : Error)
    → kind < 2 ^ 16
    → length payload + 6 < 2 ^ 31
    → read_req (source_of (frame (put_uint16 kind ++ payload) ++ rest) ending)
      ≡ done (ok (kind, frame (put_uint16 kind ++ payload)), source_of rest ending)
unfolding read_req
read_req-frame kind payload rest ending h small =
    let size = length (put_uint16 kind ++ payload) in
    let body : size ≡ length payload + 2 = unfold put_uint16 in omega arith in
    let total : total_size size ≡ length payload + 6 = unfold total_size in omega arith in
    let left : length payload ≡ length payload + 6 - 6 = omega arith in
    rw
      (
        append_assoc (put_uint32 size) (put_uint16 kind ++ payload) rest,
        append_assoc (put_uint16 kind) payload rest,
        ← append_assoc (put_uint32 size) (put_uint16 kind) (payload ++ rest),
        (req_header-Reads size kind (omega arith) h).reads (payload ++ rest) ending,
        total,
        fits_header_lem 6 (length payload + 6) (omega arith) small,
      )
      (ground (
        arith,
        read_full_exact (length payload + 6 - 6) payload rest ending left,
        append_assoc (put_uint32 size) (put_uint16 kind) payload,
      ))

fits_header_bad :
    (header total : ℕ) → (total < header) ⊎ (2 ^ 31 ≤ total) → fits_header header total ≡ panic
unfolding fits_header
fits_header_bad header total h = ground arith

total_size-bad :
    (size : ℕ)
    → size < 2 ^ 32
    → (size < 4) ⊎ (2 ^ 31 - 4 ≤ size)
    → (total_size size < 8) ⊎ (2 ^ 31 ≤ total_size size)
unfolding total_size
total_size-bad size h (inl small) = inl (omega arith)
total_size-bad size h (inr large) = elim (dec_lt size (2 ^ 32 - 4)) [
  | yes below ↦ inr (omega arith)
  | no above ↦ inl (omega arith)
]

-- ReadResp panics on exactly the sizes that, as an int32, are below 4, or above 2 ^ 31 - 5 so that adding the
-- 4 bytes of the size itself overflows, whatever follows; on any other size it returns.
pub read_resp-panics :
    (size id : ℕ) (rest : List ℕ) (ending : Error)
    → size < 2 ^ 32
    → id < 2 ^ 32
    → let read = read_resp (source_of ((put_uint32 size ++ put_uint32 id) ++ rest) ending) in
      ((size < 4) ⊎ (2 ^ 31 - 4 ≤ size) → read ≡ panic)
      × (4 ≤ size → size < 2 ^ 31 - 4 → (result : Envelope) × (read ≡ done result))
unfolding read_resp
read_resp-panics size id rest ending h k = (
  λ bad.
      let total : (total_size size < 8) ⊎ (2 ^ 31 ≤ total_size size) = total_size-bad size h bad in
      rw
        (
          (resp_header-Reads size id h k).reads rest ending,
          fits_header_bad 8 (total_size size) total,
        )
        refl,
  λ low high.
      let total : total_size size ≡ size + 4 = unfold total_size in omega arith in
      (
        read_rest id (put_uint32 size ++ put_uint32 id) (size + 4 - 8) (source_of rest ending),
        rw
            (
              (resp_header-Reads size id h k).reads rest ending,
              total,
              fits_header_lem 8 (size + 4) (omega arith) (omega arith),
            )
            refl,
      ),
)
