-- ===== src/Messages/Duration.antt =====
-- time.Duration, an int64 of nanoseconds, as the requests carry it: an int32 of milliseconds.
use kafka.Base.{ℕ, ◌-◌, ◌*◌, ◌/◌, ◌%◌, ◌^◌, ◌<◌, ◌≡◌, ltb, if◌then◌else◌, arith}
use kafka.Base.Program.{◌>>=◌, pure}
use kafka.Wire.BigEndian.{put_uint32}
use kafka.Wire.Decoder.{Decoding, decode_int32}
use kafka.Wire.Reads.{Reads, read_last, int32_read}

abbrev millisecond : ℕ
millisecond = 10 ^ 6

-- `int32(d / time.Millisecond)`; Go's division of a negative number rounds towards zero.
unfoldable pub to_milliseconds : ℕ → ℕ
to_milliseconds d =
    if ltb d (2 ^ 63)
    then d / millisecond % 2 ^ 32
    else (2 ^ 32 - (2 ^ 64 - d) / millisecond % 2 ^ 32) % 2 ^ 32

-- `time.Duration(v) * time.Millisecond` for an int32 v.
unfoldable pub from_milliseconds : ℕ → ℕ
from_milliseconds v =
    if ltb v (2 ^ 31) then v * millisecond else 2 ^ 64 - (2 ^ 32 - v) * millisecond

unfoldable pub decode_duration : Decoding ℕ
unfolding from_milliseconds ◌>>=◌ pure
decode_duration = do ms ← decode_int32; pure (from_milliseconds ms)

-- A non-negative whole number of milliseconds that an int32 holds.
abbrev pub FitsDuration : ℕ → Type 0
FitsDuration d = (d % millisecond ≡ 0) × (d / millisecond < 2 ^ 31)

from_milliseconds-to_milliseconds :
    (d : ℕ) → FitsDuration d → from_milliseconds (to_milliseconds d) ≡ d
unfolding from_milliseconds to_milliseconds
from_milliseconds-to_milliseconds d h = ground arith

to_milliseconds-lt : (d : ℕ) → to_milliseconds d < 2 ^ 32
unfolding to_milliseconds
to_milliseconds-lt d = ground arith

pub duration_read :
    (d : ℕ) → FitsDuration d → Reads decode_duration (put_uint32 (to_milliseconds d)) d
unfolding decode_duration
duration_read d h =
    rw (from_milliseconds-to_milliseconds d h) at
      (read_last from_milliseconds (int32_read (to_milliseconds d) (to_milliseconds-lt d)))
