-- ===== src/Wire/Source.antt =====
-- Go's io.Reader as the package reads from it: the bytes to come, and the error behind them.
use kafka.Base.{ℕ, List, [], ◌∷◌, ◌++◌, Option, none, some, length, take, drop, leb, if◌then◌else◌}
use kafka.Wire.Errors.{Error, eof, unexpected_eof}

pub record Source : Type 0 where
  pub bytes : List ℕ
  pub ending : Error

-- What io.ReadFull returns, and the reader after it.
pub record ReadResult : Type 0 where
  pub buf : List ℕ
  pub err : Option Error
  pub source : Source

-- io.EOF only if no byte was read, io.ErrUnexpectedEOF if some were; other errors are passed on.
unfoldable pub short_read : List ℕ → Error → Error
short_read [] e = e
short_read (_ ∷ _) eof = unexpected_eof
short_read (_ ∷ _) e = e

-- io.ReadFull(r, b) with `size` the length of b.
unfoldable pub read_full : ℕ → Source → ReadResult
read_full size s =
    if leb size (length s.bytes)
    then record {
      buf = take size s.bytes;
      err = none;
      source = record s { bytes = drop size s.bytes };
    }
    else record {
      buf = s.bytes;
      err = some (short_read s.bytes s.ending);
      source = record s { bytes = [] };
    }

-- io.LimitReader(r, n): the part of the reader that it lets through.
unfoldable pub limit_reader : ℕ → Source → Source
limit_reader n s = record {
  bytes = take n s.bytes;
  ending = if leb n (length s.bytes) then eof else s.ending;
}

-- The underlying reader, once what the limited one has left is known.
unfoldable pub after_limit : ℕ → Source → Source → Source
after_limit n s limited = record s { bytes = limited.bytes ++ drop n s.bytes }
