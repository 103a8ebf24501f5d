-- ===== src/Lp/Layout/Sizes.antt =====
-- The arithmetic of the layout: no sum wraps, and the two ways to the first page agree.
use open_core_sdk.Prelude.{ℕ, ◌+◌, ◌-◌, ◌%◌, ◌^◌, ◌≤◌, ◌<◌, ◌≡◌, refl, arith}
use open_core_sdk.Elf.{ElfClass, class32, class64, word_bits, wrap, sign_extend, nhdr_size}
use open_core_sdk.Elf.Wrap.{wrap_small}
use open_core_sdk.Rounding.{round_up}
use open_core_sdk.Rounding.Laws.{round_up_page64, round_up_page32, round_up_word}
use open_core_sdk.Lp.Write.{auxv_note_size, file_desc_size, padding_size}
use open_core_sdk.Lp.Layout.{words, pages, note_size, headers_size}

pub round_up_page :
    (c : ElfClass) (n : ℕ) → n + 4095 < 2 ^ word_bits c → round_up (word_bits c) n 4096 ≡ pages n
round_up_page class32 n h = round_up_page32 n h
round_up_page class64 n h = round_up_page64 n h

pub sign_extend_small : (c : ElfClass) (n : ℕ) → n < 2 ^ 31 → sign_extend c n ≡ n
sign_extend_small class32 n h = refl
sign_extend_small class64 n h = ground arith

pub words_int : (c : ElfClass) (n : ℕ) → n + 3 < 2 ^ 31 → sign_extend c (round_up 32 n 4) ≡ words n
words_int c n h = rw (round_up_word n (omega arith)) (sign_extend_small c (words n) (omega arith))

-- The three sums of WriteCoreNoteHeader.
pub note_filesz :
    (c : ElfClass) (filesz auxvnum extra phnum fileslen : ℕ)
    → filesz ≡ 0
    → extra < 2 ^ 31
    → fileslen + 3 < 2 ^ 31
    → note_size c auxvnum extra phnum fileslen < 2 ^ word_bits c
    → wrap c (
        wrap c (wrap c (filesz + auxv_note_size c auxvnum) + sign_extend c extra)
        + (nhdr_size + 8 + file_desc_size c phnum fileslen))
      ≡ note_size c auxvnum extra phnum fileslen
note_filesz class32 filesz auxvnum extra phnum fileslen hz he hf fits =
    rw (words_int class32 fileslen hf, sign_extend_small class32 extra he) (omega arith)
note_filesz class64 filesz auxvnum extra phnum fileslen hz he hf fits =
    rw (words_int class64 fileslen hf, sign_extend_small class64 extra he) (omega arith)

-- The notes end on a word, so leaving the last word of the names unpadded reaches the same page.
pub same_page :
    (end fileslen : ℕ)
    → end % 4 ≡ 0
    → words fileslen ≤ end
    → pages (end - words fileslen + fileslen) ≡ pages end
same_page end fileslen h fits = omega arith

-- AlignNoteSegment fills up to the page that WriteCoreProgramHeaders gave the first segment.
pub padding_size_lem :
    (c : ElfClass) (p_offset p_filesz fileslen : ℕ)
    → fileslen + 3 < 2 ^ 31
    → words fileslen ≤ p_filesz
    → (p_offset + p_filesz) % 4 ≡ 0
    → p_offset + p_filesz + 4095 < 2 ^ word_bits c
    → padding_size c 4096 p_offset p_filesz fileslen
        + (p_filesz - words fileslen + fileslen)
        + p_offset
      ≡ pages (p_offset + p_filesz)
unfolding padding_size
padding_size_lem c p_offset p_filesz fileslen hf inside h fits =
    rw
      (
        words_int c fileslen hf,
        sign_extend_small c fileslen (omega arith),
        unwrapped c fits,
        whole c fits,
        round_up_page c end (omega arith),
      )
      (last c fits)
  where
    end : ℕ
    end = p_offset + (p_filesz - words fileslen + fileslen)

    unwrapped :
        (c : ElfClass)
        → p_offset + p_filesz + 4095 < 2 ^ word_bits c
        → wrap c (p_filesz + 2 ^ word_bits c - words fileslen + fileslen)
          ≡ p_filesz - words fileslen + fileslen
    unwrapped class32 f = omega arith
    unwrapped class64 f = omega arith

    whole : (c : ElfClass) → p_offset + p_filesz + 4095 < 2 ^ word_bits c → wrap c end ≡ end
    whole class32 f = omega arith
    whole class64 f = omega arith

    last :
        (c : ElfClass)
        → p_offset + p_filesz + 4095 < 2 ^ word_bits c
        → wrap c (pages end + 2 ^ word_bits c - end)
            + (p_filesz - words fileslen + fileslen)
            + p_offset
          ≡ pages (p_offset + p_filesz)
    last class32 f = omega arith
    last class64 f = omega arith

-- The headers and the notes are whole words.
pub whole_words :
    (c : ElfClass) (auxvnum extra phnum fileslen : ℕ)
    → extra % 4 ≡ 0
    → (headers_size c phnum + note_size c auxvnum extra phnum fileslen) % 4 ≡ 0
whole_words class32 auxvnum extra phnum fileslen h = omega arith
whole_words class64 auxvnum extra phnum fileslen h = omega arith

-- The offset that WriteCoreProgramHeaders gives the first segment.
pub first_offset :
    (c : ElfClass) (p_offset p_filesz align_size start size : ℕ)
    → p_offset ≡ start
    → p_filesz ≡ size
    → align_size ≡ 4096
    → start + size + 4095 < 2 ^ word_bits c
    → round_up (word_bits c) (wrap c (p_offset + p_filesz)) align_size ≡ pages (start + size)
first_offset c p_offset p_filesz align_size start size eo ef ea fits =
    rw (eo, ef, ea, wrap_small c (start + size) (omega arith)) (round_up_page c (start + size) fits)

pub padding_at :
    (c : ElfClass) (align_size p_offset p_filesz fileslen start size : ℕ)
    → align_size ≡ 4096
    → p_offset ≡ start
    → p_filesz ≡ size
    → fileslen + 3 < 2 ^ 31
    → words fileslen ≤ size
    → (start + size) % 4 ≡ 0
    → start + size + 4095 < 2 ^ word_bits c
    → padding_size c align_size p_offset p_filesz fileslen
        + (size - words fileslen + fileslen)
        + start
      ≡ pages (start + size)
padding_at c align_size p_offset p_filesz fileslen start size ea eo ef hf inside h fits =
    rw (ea, eo, ef) (padding_size_lem c start size fileslen hf inside h fits)
