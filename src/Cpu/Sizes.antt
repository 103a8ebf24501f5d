-- ===== src/Cpu/Sizes.antt =====
-- How many bytes the buffers and the notes of the threads take.
use open_core_sdk.Prelude.{
  ℕ, zero, suc, ◌+◌, ◌*◌, ◌≡◌, refl, arith, List, [], ◌∷◌, ◌++◌, length, length-append, take, drop,
  length-take, length-drop,
}
use open_core_sdk.Elf.Encode.{le, encode_nhdr, length-le, length-encode_nhdr}
use open_core_sdk.Elf.{siginfo_size, nt_siginfo}
use open_core_sdk.Stream.Append.{concat, length-concat-append}
use open_core_sdk.Lp.{OpencoreImpl, PrStatus}
use open_core_sdk.Lp.Write.{buffer, linux_nhdr, linux_magic, signal_info_writes, siginfo_bytes}
use open_core_sdk.Lp.Load.Healthy.{length-buffer}
use open_core_sdk.Lp.Layout.Notes.{length-note}
use open_core_sdk.Cpu.{encode_registers, other_threads, each_thread, over_stack}

pub length-over_stack : (n : ℕ) (stack bs : List ℕ) → length (over_stack n stack bs) ≡ n
unfolding over_stack
length-over_stack n stack bs = omega (
  arith,
  length-append (take n bs) (drop (length (take n bs)) (buffer n stack)),
  length-take n bs,
  length-drop (length (take n bs)) (buffer n stack),
  length-buffer n stack,
)

pub length-encode_registers :
    (size n : ℕ) (regs : List ℕ) → length (encode_registers size n regs) ≡ size * n
unfolding encode_registers
length-encode_registers size zero regs = omega arith
length-encode_registers size (suc n) [] = omega (
  arith,
  length-append (le size 0) (encode_registers size n []),
  length-le size 0,
  length-encode_registers size n [],
)
length-encode_registers size (suc n) (x ∷ regs) = omega (
  arith,
  length-append (le size x) (encode_registers size n regs),
  length-le size x,
  length-encode_registers size n regs,
)

pub length-linux_note :
    (descsz type : ℕ) (rest : List (List ℕ))
    → length (concat (encode_nhdr (linux_nhdr descsz type) ∷ linux_magic ∷ rest))
      ≡ 20 + length (concat rest)
length-linux_note descsz type rest = omega (
  arith,
  length-append (encode_nhdr (linux_nhdr descsz type)) (linux_magic ++ concat rest),
  length-encode_nhdr (linux_nhdr descsz type),
)

pub length-signal_info_writes : (s : OpencoreImpl) → length (concat (signal_info_writes s)) ≡ 148
unfolding signal_info_writes
length-signal_info_writes s = omega (
  arith,
  length-note siginfo_size nt_siginfo (buffer siginfo_size (siginfo_bytes s.siginfo) ∷ []),
  length-append (buffer siginfo_size (siginfo_bytes s.siginfo)) [],
  length-buffer siginfo_size (siginfo_bytes s.siginfo),
)

-- The bytes of a table of threads, whose notes take `size` bytes each and `more` for the first.
abbrev pub thread_notes : ℕ → ℕ → ℕ → ℕ
thread_notes more size zero = 0
thread_notes more size (suc n) = more + size * suc n

module _ (first rest : PrStatus → List (List ℕ)) (more size : ℕ)
    (first_size : (p : PrStatus) → length (concat (first p)) ≡ more + size)
    (rest_size : (p : PrStatus) → length (concat (rest p)) ≡ size) where
  length-other_threads :
      (ps : List PrStatus) → length (concat (other_threads rest ps)) ≡ size * length ps
  unfolding other_threads
  length-other_threads [] = omega arith
  length-other_threads (p ∷ ps) = omega (
    arith,
    length-concat-append (rest p) (other_threads rest ps),
    rest_size p,
    length-other_threads ps,
  )

  pub length-each_thread :
      (ps : List PrStatus)
      → length (concat (each_thread first rest ps)) ≡ thread_notes more size (length ps)
  unfolding each_thread
  length-each_thread [] = refl
  length-each_thread (p ∷ ps) = omega (
    arith,
    length-concat-append (first p) (other_threads rest ps),
    first_size p,
    length-other_threads ps,
  )
