-- ===== src/Lp/Load/Healthy.antt =====
-- WriteCoreLoadSegment over a disk that takes every write: it appends the blocks of each segment.
use open_core_sdk.Prelude.{
  ℕ, zero, suc, ◌-◌, take, replicate, ◌+◌, ◌*◌, ◌/◌, ◌%◌, ◌^◌, ◌<◌, ◌≡◌, refl, sym, ap, ◌∙◌, ◌⊎◌,
  true, arith, List, [], ◌∷◌, ◌++◌, ltb, if◌then◌else◌, length, length-append, length-take,
  length-replicate, All,
}
use open_core_sdk.Elf.{ElfClass, Phdr}
use open_core_sdk.Stream.{Stream}
use open_core_sdk.Stream.Append.{
  IsAppending, append, append-IsAppending, append-nil_stream, append-append, fwrite-append,
}
use open_core_sdk.Lp.Write.{buffer}
use open_core_sdk.Lp.Load.{
  block_count, read_block, block_address, all_written, write_blocks, write_segment, write_segments,
}

pub length-buffer : (n : ℕ) (bs : List ℕ) → length (buffer n bs) ≡ n
unfolding buffer
length-buffer n bs = omega (
  arith,
  length-append (take n bs) (replicate (n - length (take n bs)) 0),
  length-take n bs,
  length-replicate {A = ℕ} (n - length (take n bs)) 0,
)

module _ (pread : ℕ → ℕ → List ℕ) (c : ElfClass) (align_size : ℕ) where
  -- The bytes of `n` blocks from the block `i` on.
  unfoldable pub block_run : Phdr → ℕ → ℕ → List ℕ
  block_run p zero i = []
  block_run p (suc n) i = read_block pread c align_size p i ++ block_run p n (i + 1)

  -- The bytes that a segment has in the file.
  unfoldable pub segment_bytes : Phdr → List ℕ
  unfolding block_run
  segment_bytes p = if ltb 0 p.p_filesz then block_run p (block_count align_size p) 0 else []

  unfoldable pub segments_bytes : List Phdr → List ℕ
  segments_bytes [] = []
  segments_bytes (p ∷ ps) = segment_bytes p ++ segments_bytes ps

  write_blocks-append :
      (p : Phdr) (n i : ℕ) {f : Stream}
      → IsAppending f
      → write_blocks pread c align_size p n i f ≡ (all_written, append (block_run p n i) f)
  unfolding write_blocks block_run
  write_blocks-append p zero i {f} v = ap (λ g. (all_written, g)) (sym (append-nil_stream f))
  write_blocks-append p (suc n) i {f} v =
      let block = read_block pread c align_size p i in
      rw (fwrite-append block v) (
        rw (write_blocks-append p n (i + 1) (append-IsAppending block v))
          (rw (append-append block (block_run p n (i + 1)) f)))

  write_segment-append :
      (p : Phdr) {f : Stream}
      → IsAppending f
      → write_segment pread c align_size p f ≡ (true, append (segment_bytes p) f)
  unfolding write_segment segment_bytes
  write_segment-append p {f} v =
      ground (arith, write_blocks-append p (block_count align_size p) 0 v, append-nil_stream f)

  -- The segments follow one another in the order of the program headers.
  pub write_segments-append :
      (ps : List Phdr) {f : Stream}
      → IsAppending f
      → write_segments pread c align_size ps f ≡ append (segments_bytes ps) f
  unfolding write_segments segments_bytes
  write_segments-append [] {f} v = sym (append-nil_stream f)
  write_segments-append (p ∷ ps) {f} v = rw (write_segment-append p v) (
      write_segments-append ps (append-IsAppending (segment_bytes p) v)
      ∙ append-append (segment_bytes p) (segments_bytes ps) f)

  length-block_run : (p : Phdr) (n i : ℕ) → length (block_run p n i) ≡ n * align_size
  unfolding block_run read_block
  length-block_run p zero i = omega arith
  length-block_run p (suc n) i =
      let block = read_block pread c align_size p i in
      omega (
        arith,
        length-append block (block_run p n (i + 1)),
        length-buffer align_size (pread (block_address c align_size p i) p.p_align),
        length-block_run p n (i + 1),
      )

-- What the tables say of a mapping: whole pages, fewer than 2 ^ 31 of them, dumped or left out.
pub record IsPaged (p : Phdr) : Type 0 where
  pub whole : p.p_memsz % 4096 ≡ 0
  pub counted : p.p_memsz < 2 ^ 43
  pub all_or_none : (p.p_filesz ≡ 0) ⊎ (p.p_filesz ≡ p.p_memsz)

abbrev pub total_filesz : List Phdr → ℕ
total_filesz [] = 0
total_filesz (p ∷ ps) = p.p_filesz + total_filesz ps

pub block_count-pages : {p : Phdr} → IsPaged p → block_count 4096 p ≡ p.p_memsz / 4096
unfolding block_count
block_count-pages v = ground arith

module _ (pread : ℕ → ℕ → List ℕ) (c : ElfClass) where
  -- A segment has as many bytes in the file as its header says.
  pub length-segment_bytes :
      {p : Phdr} → IsPaged p → length (segment_bytes pread c 4096 p) ≡ p.p_filesz
  unfolding segment_bytes
  length-segment_bytes {p} v =
      ground (arith, block_count-pages v, length-block_run pread c 4096 p (block_count 4096 p) 0)

  pub length-segments_bytes :
      (ps : List Phdr) → All IsPaged ps → length (segments_bytes pread c 4096 ps) ≡ total_filesz ps
  unfolding segments_bytes
  length-segments_bytes [] v = refl
  length-segments_bytes (p ∷ ps) (v, vs) = omega (
    arith,
    length-append (segment_bytes pread c 4096 p) (segments_bytes pread c 4096 ps),
    length-segment_bytes v,
    length-segments_bytes ps vs,
  )
