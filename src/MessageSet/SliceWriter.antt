-- ===== src/MessageSet/SliceWriter.antt =====
-- The slicewriter of proto/messages.go: an io.Writer into a slice of fixed size.
use kafka.Base.{ℕ, ◌+◌, List, [], ◌∷◌, none, some, length, take, ltb, if◌then◌else◌, zero, suc}
use kafka.Wire.Errors.{buffer_too_small}
use kafka.Wire.Encoder.{Writer, Written}

pub record SliceWriter : Type 0 where
  pub buf : List ℕ
  pub pos : ℕ
  pub size : ℕ

unfoldable pub zeros : ℕ → List ℕ
zeros zero = []
zeros (suc n) = 0 ∷ zeros n

unfoldable pub new_slice_writer : ℕ → SliceWriter
unfolding zeros
new_slice_writer bufsize = record { buf = zeros bufsize; pos = 0; size = 0 }

-- `copy(dst[pos:], p)`: what does not fit is not copied.
abbrev pub copy_at : ℕ → List ℕ → List ℕ → List ℕ
copy_at zero [] dst = dst
copy_at zero (x ∷ p) [] = []
copy_at zero (x ∷ p) (d ∷ dst) = x ∷ copy_at zero p dst
copy_at (suc pos) p [] = []
copy_at (suc pos) p (d ∷ dst) = d ∷ copy_at pos p dst

unfoldable pub write : SliceWriter → List ℕ → Written SliceWriter
write w p =
    if ltb (length w.buf) (w.pos + length p)
    then record { count = 0; err = some buffer_too_small; writer = w }
    else record {
      count = length p;
      err = none;
      writer = record w { buf = copy_at w.pos p w.buf; pos = w.pos + length p };
    }

-- A bigger slice is made where the old one is too small; its bytes are not cleared otherwise.
unfoldable pub reset : SliceWriter → ℕ → SliceWriter
reset w size = record {
  buf = if ltb (length w.buf) size then zeros (size + 1000) else w.buf;
  pos = 0;
  size = size;
}

unfoldable pub slice : SliceWriter → List ℕ
slice w = take w.pos w.buf

instance abbrev pub slice_writer : Writer SliceWriter
slice_writer = record { write = write }
