-- ===== src/Stream.antt =====
-- The `FILE*` that the writers of opencore/src/main/cpp/opencore/lp64/opencore.cpp and lp32 share.
-- A stream has its contents, its position, and the script of what the disk answers to the next
-- calls of `fwrite`; past the end of the script every call succeeds.
pub mod Append
use open_core_sdk.Prelude.{ℕ, ◌+◌, ◌-◌, List, [], ◌∷◌, ◌++◌, length, take, drop, replicate}

-- `errno` after a failed write: the program tells ENOSPC from all others.
pub data Errno : Type 0 where
  enospc other : Errno

-- `short n e`: the call writes `n` bytes only, and sets `errno`.
pub data Outcome : Type 0 where
  complete : Outcome
  short : ℕ → Errno → Outcome

pub record Stream : Type 0 where
  pub bytes : List ℕ
  pub pos : ℕ
  pub outcomes : List Outcome

-- What `fwrite(p, n, 1, fp)` returns: 1, or 0 with `errno`.
pub data Written : Type 0 where
  wrote : Written
  failed : Errno → Written

-- The bytes go over what stands at the position; a gap before it reads as zeros.
unfoldable pub put_bytes : List ℕ → Stream → Stream
put_bytes bs f = record f {
  bytes =
      take f.pos f.bytes
      ++ (replicate (f.pos - length f.bytes) 0 ++ (bs ++ drop (f.pos + length bs) f.bytes));
  pos = f.pos + length bs;
}

fwrite_with : List Outcome → List ℕ → Stream → Written × Stream
fwrite_with [] bs f = (wrote, put_bytes bs f)
fwrite_with (complete ∷ rest) bs f = (wrote, put_bytes bs (record f { outcomes = rest }))
fwrite_with (short n e ∷ rest) bs f =
    (failed e, put_bytes (take n bs) (record f { outcomes = rest }))

unfoldable pub fwrite : List ℕ → Stream → Written × Stream
unfolding fwrite_with
fwrite bs f = fwrite_with f.outcomes bs f

-- Calls of `fwrite` in a row whose results nobody looks at.
unfoldable pub fwrite_all : List (List ℕ) → Stream → Stream
fwrite_all [] f = f
fwrite_all (c ∷ cs) f = fwrite_all cs (fwrite c f).1

-- `fseek(fp, p, SEEK_SET)`.
abbrev pub fseek : ℕ → Stream → Stream
fseek p f = record f { pos = p }

-- `fopen(filename, "wb")`: an empty file.
abbrev pub fresh : List Outcome → Stream
fresh os = record { bytes = []; pos = 0; outcomes = os }
