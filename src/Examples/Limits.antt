-- ===== src/Examples/Limits.antt =====
-- Wrong lengths and unknown errors.
use kafka.Base.{ℕ, ◌≡◌, ◌↔◌, ◌^◌, ◌-◌, refl, [], ◌∷◌, none, arith}
use kafka.Base.Program.{panic}
use kafka.Wire.Errors.{eof, errno_to_err, find_errno, err_from_no}
use kafka.Wire.Encoder.{Buffer, buffer_writer, new_encoder, encode_error}
use kafka.Messages.MetadataResp
use kafka.Messages.ProduceResp
use kafka.Messages.FetchResp
use kafka.Messages.OffsetResp
use kafka.Messages.OffsetFetchResp
use kafka.Messages.OffsetCommitResp
use kafka.Messages.Counts.{with_count, read_negative}
use kafka.Examples.{codecs}
use kafka.Wire.Limits.{err_from_no-none, encode_error-err_from_no}

read_negative_example :
    let r = with_count 8 7 (2 ^ 32 - 1) (9 ∷ []) eof in
    (MetadataResp.read r ≡ panic)
    × (ProduceResp.read r ≡ panic)
    × (FetchResp.read codecs 2 r ≡ panic)
    × (OffsetResp.read r ≡ panic)
    × (OffsetFetchResp.read r ≡ panic)
    × (OffsetCommitResp.read r ≡ panic)
read_negative_example =
    read_negative codecs 2 8 7 (2 ^ 32 - 1) (9 ∷ []) eof (omega arith) (omega arith)

-- A number that the table lacks.
abbrev unnamed : ℕ
unnamed = 13

err_from_no-none_example : (err_from_no unnamed ≡ none) ↔ (unnamed ≡ 0)
err_from_no-none_example = err_from_no-none unnamed

no_entry : find_errno 13 errno_to_err ≡ none
unfolding find_errno errno_to_err
no_entry = refl

encode_error-err_from_no_example :
    encode_error {W = Buffer} (err_from_no 13) (new_encoder (1 ∷ [])) ≡ panic
encode_error-err_from_no_example =
    encode_error-err_from_no 13 (new_encoder (1 ∷ [])) (λ e. omega arith) no_entry
