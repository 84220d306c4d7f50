-- ===== src/Examples.antt =====
-- Concrete messages, on which the theorems of the library are run.
mod MetadataReq
mod MetadataResp
mod FetchReq
mod GroupCoordinatorReq
mod GroupCoordinatorResp
mod OffsetCommitReq
mod OffsetCommitResp
mod OffsetFetchReq
mod OffsetFetchResp
mod ProduceResp
mod OffsetReq
mod OffsetResp
mod ProduceReq
mod FetchResp
mod Sets
mod Streams
mod Limits
mod Pool
mod Cluster
mod Addresses
mod Consuming
mod RoundTrips
mod Producing
mod Connecting
mod Leading
mod Storing
mod Conversing
mod Caching
use kafka.Base.{ℕ, ◌≡◌, refl, List, [], ◌∷◌, Option, none, some, arith}
use kafka.Wire.BigEndian.{put_uint8, put_uint32, put_uint64}
use kafka.Wire.Errors.{kafka_error, err_request_timeout, err_from_no, find_errno, errno_to_err}
use kafka.Wire.Writes.{FitsError}
use kafka.MessageSet.Message.{Message, Codecs, plain_message}
use kafka.MessageSet.Write.{last_offset}
use kafka.MessageSet.Snappy.{has_prefix}
use kafka.MessageSet.ReadLaws.{FitsMessage}
use kafka.MessageSet.RoundTrip.{CodecLaws, FitsSet}

pub fits_request_timeout : FitsError (some (kafka_error err_request_timeout))
unfolding err_from_no find_errno errno_to_err
fits_request_timeout = (omega arith, refl)

-- Codecs that lose nothing: gzip copies, and snappy puts a zero in front.
abbrev tail : List ℕ → Option (List ℕ)
tail [] = none
tail (x ∷ xs) = some xs

abbrev pub codecs : Codecs
codecs = record {
  gzip = λ b. b;
  gunzip = λ b. some b;
  snappy_encode = λ b. 0 ∷ b;
  snappy_decode = tail;
}

pub codecs-CodecLaws : CodecLaws codecs
unfolding has_prefix
codecs-CodecLaws = record {
  gunzip-gzip = λ b. refl;
  snappy_decode-snappy_encode = λ b. refl;
  snappy_unframed = λ b. refl;
}

abbrev pub sample_message : Message
sample_message = plain_message (some (1 ∷ 2 ∷ [])) (some (3 ∷ [])) 42

pub sample_message-FitsMessage : FitsMessage sample_message
sample_message-FitsMessage = record { offset = omega arith; size = omega arith }

pub fits_plain : FitsSet codecs 0 (sample_message ∷ [])
unfolding put_uint8 put_uint32 put_uint64
fits_plain = ((sample_message-FitsMessage, tt), omega arith, tt)

pub fits_gzip : FitsSet codecs 1 (sample_message ∷ [])
unfolding put_uint8 put_uint32 put_uint64 last_offset
fits_gzip = ((sample_message-FitsMessage, tt), omega arith, omega arith)

pub fits_snappy : FitsSet codecs 2 (sample_message ∷ [])
unfolding put_uint8 put_uint32 put_uint64 last_offset
fits_snappy = ((sample_message-FitsMessage, tt), omega arith, omega arith)
