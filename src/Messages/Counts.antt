-- ===== src/Messages/Counts.antt =====
-- Responses of proto/messages.go whose first array has a negative length on the wire.
use kafka.Base.{ℕ, ◌%◌, ◌^◌, ◌≤◌, ◌<◌, ◌≡◌, refl, List, ◌++◌}
use kafka.Base.Program.{panic, ◌>>=◌}
use kafka.Wire.BigEndian.{put_uint32}
use kafka.Wire.Errors.{Error}
use kafka.Wire.Source.{Source}
use kafka.Wire.Decoder.{Decoding, decode_array, decode_int32, read_with}
use kafka.Wire.Reads.{int32_read_any}
use kafka.Wire.Limits.{decode_array_negative}
use kafka.MessageSet.Message.{Codecs}
use kafka.Messages.MetadataResp
use kafka.Messages.ProduceResp
use kafka.Messages.FetchResp
use kafka.Messages.OffsetResp
use kafka.Messages.OffsetFetchResp
use kafka.Messages.OffsetCommitResp

abbrev pub with_count : ℕ → ℕ → ℕ → List ℕ → Error → Source
with_count size id count rest ending = record {
  bytes = put_uint32 size ++ (put_uint32 id ++ (put_uint32 count ++ rest));
  ending = ending;
}

-- A size, a correlation id and an array.
counted_panics :
    {A B : Type 0} (p : ℕ → ℕ → Decoding A) (f : ℕ → ℕ → List A → Decoding B) (size id count : ℕ)
    (rest : List ℕ) (ending : Error)
    → 2 ^ 31 ≤ count
    → count < 2 ^ 32
    → read_with
        (decode_int32 >>= λ s. decode_int32 >>= λ i. decode_array (p s i) >>= f s i)
        (with_count size id count rest ending)
      ≡ panic
unfolding read_with ◌>>=◌
counted_panics p f size id count rest ending low high =
    rw
      (
        (int32_read_any size).reads (put_uint32 id ++ (put_uint32 count ++ rest)) ending,
        (int32_read_any id).reads (put_uint32 count ++ rest) ending,
        decode_array_negative (p (size % 2 ^ 32) (id % 2 ^ 32)) count rest ending low high,
      )
      refl

-- A response to a request for metadata, to produce, to fetch, for offsets, or to fetch or commit offsets in
-- which the length of its first array is negative as an int32, whatever stands in front and behind it,
-- makes its Read function panic.
pub read_negative :
    (c : Codecs) (depth size id count : ℕ) (rest : List ℕ) (ending : Error)
    → 2 ^ 31 ≤ count
    → count < 2 ^ 32
    → let r = with_count size id count rest ending in
      (MetadataResp.read r ≡ panic)
      × (ProduceResp.read r ≡ panic)
      × (FetchResp.read c depth r ≡ panic)
      × (OffsetResp.read r ≡ panic)
      × (OffsetFetchResp.read r ≡ panic)
      × (OffsetCommitResp.read r ≡ panic)
unfolding MetadataResp.read ProduceResp.read FetchResp.read OffsetResp.read OffsetFetchResp.read
    OffsetCommitResp.read MetadataResp.decode ProduceResp.decode FetchResp.decode OffsetResp.decode
    OffsetFetchResp.decode OffsetCommitResp.decode
read_negative c depth size id count rest ending low high = (
  counted_panics _ _ size id count rest ending low high,
  counted_panics _ _ size id count rest ending low high,
  counted_panics _ _ size id count rest ending low high,
  counted_panics _ _ size id count rest ending low high,
  counted_panics _ _ size id count rest ending low high,
  counted_panics _ _ size id count rest ending low high,
)
