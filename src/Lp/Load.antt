-- ===== src/Lp/Load.antt =====
-- WriteCoreLoadSegment (opencore/src/main/cpp/opencore/lp64/opencore.cpp and lp32/opencore.cpp).
pub mod Healthy
pub mod Place
pub mod Memory
pub mod Padding
pub mod FullDisk
pub mod Failures
pub mod Shifted
use open_core_sdk.Prelude.{
  ℕ, zero, suc, ◌+◌, ◌*◌, ◌/◌, ◌^◌, Bool, true, false, List, [], ◌∷◌, ltb, if◌then◌else◌, replicate,
}
use open_core_sdk.Elf.{ElfClass, wrap, int, Phdr}
use open_core_sdk.Stream.{Stream, Written, wrote, failed, enospc, other, fwrite, fwrite_all, fseek}
use open_core_sdk.Lp.Write.{buffer}

-- `int count = p_memsz / align_size`; a loop up to a negative count does not run.
unfoldable pub block_count : ℕ → Phdr → ℕ
block_count align_size p =
    let count = int (p.p_memsz / align_size) in if ltb count (2 ^ 31) then count else 0

-- The address that block `i` is read from: `i * align_size` is a product of 32 bits.
unfoldable pub block_address : ElfClass → ℕ → Phdr → ℕ → ℕ
block_address c align_size p i = wrap c (p.p_vaddr + int (i * align_size))

-- The page `zero`, cleared and read into.
unfoldable pub read_block : (ℕ → ℕ → List ℕ) → ElfClass → ℕ → Phdr → ℕ → List ℕ
read_block pread c align_size p i =
    buffer align_size (pread (block_address c align_size p i) p.p_align)

-- How the loop over the blocks of a segment ends.
pub data Blocks : Type 0 where
  all_written no_space need_padd_zero : Blocks

-- After `fwrite`: the loop goes on, returns, or breaks.
abbrev pub after_write : Written × Stream → (Stream → Blocks × Stream) → Blocks × Stream
after_write (wrote, f) next = next f
after_write (failed enospc, f) next = (no_space, f)
after_write (failed other, f) next = (need_padd_zero, f)

-- Blocks `i` to `i + n`.
unfoldable pub write_blocks :
    (ℕ → ℕ → List ℕ) → ElfClass → ℕ → Phdr → ℕ → ℕ → Stream → Blocks × Stream
write_blocks pread c align_size p zero i f = (all_written, f)
write_blocks pread c align_size p (suc n) i f =
    after_write (fwrite (read_block pread c align_size p i) f)
      (λ f'. write_blocks pread c align_size p n (i + 1) f')

abbrev pub zero_pages : ℕ → ℕ → List (List ℕ)
zero_pages zero align_size = []
zero_pages (suc n) align_size = replicate align_size 0 ∷ zero_pages n align_size

-- A segment whose write failed is written anew, as zeros, from where it began.
unfoldable pub padd_zero : ℕ → Phdr → ℕ → Stream → Stream
padd_zero align_size p current_pos f =
    if ltb 0 current_pos
    then fwrite_all (zero_pages (block_count align_size p) align_size) (fseek current_pos f)
    else f

-- After the blocks of a segment that began at `current_pos`; `false` is the return on ENOSPC.
abbrev pub after_blocks : ℕ → Phdr → ℕ → Blocks × Stream → Bool × Stream
after_blocks align_size p current_pos (all_written, f) = (true, f)
after_blocks align_size p current_pos (no_space, f) = (false, f)
after_blocks align_size p current_pos (need_padd_zero, f) =
    (true, padd_zero align_size p current_pos f)

-- One round of the loop over `phdr`.
unfoldable pub write_segment : (ℕ → ℕ → List ℕ) → ElfClass → ℕ → Phdr → Stream → Bool × Stream
write_segment pread c align_size p f =
    if ltb 0 p.p_filesz
    then after_blocks align_size p f.pos
        (write_blocks pread c align_size p (block_count align_size p) 0 f)
    else (true, f)

abbrev pub after_segment : Bool × Stream → (Stream → Stream) → Stream
after_segment (true, f) next = next f
after_segment (false, f) next = f

unfoldable pub write_segments : (ℕ → ℕ → List ℕ) → ElfClass → ℕ → List Phdr → Stream → Stream
write_segments pread c align_size [] f = f
write_segments pread c align_size (p ∷ ps) f =
    after_segment (write_segment pread c align_size p f)
      (λ f'. write_segments pread c align_size ps f')

-- WriteCoreLoadSegment; the flag is whether /proc/PID/mem can be opened.
unfoldable pub write_core_load_segment :
    Bool → (ℕ → ℕ → List ℕ) → ElfClass → ℕ → List Phdr → Stream → Stream
write_core_load_segment opens pread c align_size phdr f =
    if opens then write_segments pread c align_size phdr f else f
