-- ===== src/Wire/Limits.antt =====
-- Where proto/serialization.go and proto/errors.go meet their limits: wrong array lengths, and errors
-- that the protocol has no name for.
use kafka.Base.{
  ℕ, ◌^◌, ◌≤◌, ◌<◌, ◌≡◌, ◌≢◌, ◌↔◌, refl, List, ◌++◌, none, some, arith, All, false, ◌==◌,
}
use kafka.Base.Program.{done, panic}
use kafka.Wire.BigEndian.{put_uint32}
use kafka.Wire.Errors.{
  Error, kafka_error, errno_to_err, find_errno, err_from_no, unknown_unless-some,
}
use native.Mathlib.Decide.{dec_lt}
use kafka.Wire.Decoder.{Decoding, decode_array, decode_array_len, make_and_fill}
use kafka.Wire.Encoder.{Encoder, Buffer, buffer_writer, encode_error}
use kafka.Wire.Reads.{at_input, int32_read}

array_len_read :
    (n : ℕ) (rest : List ℕ) (ending : Error)
    → n < 2 ^ 32
    → decode_array_len (at_input (put_uint32 n ++ rest) ending) ≡ done (n, at_input rest ending)
unfolding decode_array_len
array_len_read n rest ending h = (int32_read n h).reads rest ending

-- An array whose length on the wire is negative as an int32 makes a reader with no error yet panic,
-- whatever its elements are.
pub decode_array_negative :
    {A : Type 0} (p : Decoding A) (n : ℕ) (rest : List ℕ) (ending : Error)
    → 2 ^ 31 ≤ n
    → n < 2 ^ 32
    → decode_array p (at_input (put_uint32 n ++ rest) ending) ≡ panic
unfolding decode_array make_and_fill
decode_array_negative p n rest ending low high =
    rw (array_len_read n rest ending high) (ground arith)

-- Every entry of the table of errors stands under its own number, and errFromNo finds it there.
pub err_from_no-table :
    All
      (λ entry. (entry.0 ≡ entry.1.errno) × (err_from_no entry.0 ≡ some (kafka_error entry.1)))
      errno_to_err
unfolding err_from_no errno_to_err find_errno
err_from_no-table = (
  (refl, refl),
  (
    (refl, refl),
    (
      (refl, refl),
      (
        (refl, refl),
        (
          (refl, refl),
          (
            (refl, refl),
            (
              (refl, refl),
              (
                (refl, refl),
                (
                  (refl, refl),
                  (
                    (refl, refl),
                    (
                      (refl, refl),
                      (
                        (refl, refl),
                        (
                          (refl, refl),
                          (
                            (refl, refl),
                            (
                              (refl, refl),
                              (
                                (refl, refl),
                                (
                                  (refl, refl),
                                  (
                                    (refl, refl),
                                    (
                                      (refl, refl),
                                      (
                                        (refl, refl),
                                        (
                                          (refl, refl),
                                          (
                                            (refl, refl),
                                            (
                                              (refl, refl),
                                              (
                                                (refl, refl),
                                                (
                                                  (refl, refl),
                                                  (
                                                    (refl, refl),
                                                    (
                                                      (refl, refl),
                                                      (
                                                        (refl, refl),
                                                        ((refl, refl), ((refl, refl), tt)),
                                                      ),
                                                    ),
                                                  ),
                                                ),
                                              ),
                                            ),
                                          ),
                                        ),
                                      ),
                                    ),
                                  ),
                                ),
                              ),
                            ),
                          ),
                        ),
                      ),
                    ),
                  ),
                ),
              ),
            ),
          ),
        ),
      ),
    ),
  ),
)

-- errFromNo gives nil for 0 only.
pub err_from_no-none : (errno : ℕ) → (err_from_no errno ≡ none) ↔ (errno ≡ 0)
unfolding err_from_no
err_from_no-none errno = (
  λ e. elim (dec_lt 0 errno) [
    | no h ↦ omega arith
    | yes h ↦
        let nonzero : (errno == 0) ≡ false = ground arith in
        absurd (unknown_unless-some errno (find_errno errno errno_to_err) (rw nonzero at e))
  ],
  λ z. ground (arith, z),
)

-- An error number that is not in the table is read as an error that EncodeError panics on, whatever
-- was encoded before.
pub encode_error-err_from_no :
    (errno : ℕ) (e : Encoder Buffer)
    → errno ≢ 0
    → find_errno errno errno_to_err ≡ none
    → encode_error (err_from_no errno) e ≡ panic
unfolding encode_error err_from_no
encode_error-err_from_no errno e h unknown = rw unknown (ground arith)
