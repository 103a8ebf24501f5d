-- ===== src/Examples/Writes.antt =====
-- The theorems on writes that fail, on the page of Examples.
use open_core_sdk.Prelude.{◌+◌, ◌≡◌, true, arith, [], ◌∷◌, ◌++◌, map, length}
use open_core_sdk.Elf.{class32}
use open_core_sdk.Stream.{other}
use open_core_sdk.Lp.Load.{write_segment, write_segments}
use open_core_sdk.Lp.Load.Healthy.{total_filesz, segments_bytes}
use open_core_sdk.Lp.Load.Padding.{at_end, fails_after, write_segment-padding}
use open_core_sdk.Lp.Load.Failures.{
  Fate, intact, broken, script, outcome_bytes, fate_bytes, write_segments-fates,
}
use open_core_sdk.Lp.Dump.{write_core}
use open_core_sdk.Lp.Layout.Spoiled.{core_script, segment_survives}
use open_core_sdk.Cpu.Arm.{arm}
use open_core_sdk.Cpu.Arm.Notes.{arm-NotesLaws}
use open_core_sdk.Stream.{fresh}
use open_core_sdk.Prelude.{ℕ, take, drop, refl, replicate}
use open_core_sdk.Lp.Load.FullDisk.{full_after, write_segments-full}
use open_core_sdk.Lp.Load.Shifted.{padding_fails, write_segment-shifted}
use open_core_sdk.Examples.{
  one_page, placed_page, padded, collected, collected-IsReady, core_phdrs_page,
}
use open_core_sdk.Elf.{Phdr}
use open_core_sdk.Prelude.{List}

-- The disk takes no block of the page, and three bytes of the first.
write_segment-padding_example :
    write_segment (one_page.pread 5) class32 4096 placed_page (at_end (1 ∷ []) (fails_after 0 3))
    ≡ (true, at_end ((1 ∷ []) ++ replicate placed_page.p_filesz 0) [])
write_segment-padding_example =
    write_segment-padding (one_page.pread 5) class32 placed_page 3 0 (1 ∷ []) padded (omega arith)
      (omega arith) (omega arith)

-- The disk is full after five bytes of the first block of the page.
write_segments-full_example :
    (ys : List ℕ) × (rest : List ℕ) × ((write_segments
        (one_page.pread 5)
        class32
        4096
        (placed_page ∷ [])
        (at_end (1 ∷ []) (full_after 0 5))).bytes
      ≡ (1 ∷ []) ++ ys)
    × (ys ++ rest ≡ segments_bytes (one_page.pread 5) class32 4096 (placed_page ∷ []))
write_segments-full_example =
    write_segments-full (one_page.pread 5) class32 4096 5 0 (placed_page ∷ []) (1 ∷ [])

-- Three segments, of which the first and the last fail.
abbrev fates : List (Phdr × Fate)
fates = (placed_page, broken 0 3) ∷ (placed_page, intact) ∷ (placed_page, broken 0 0) ∷ []

write_segments-fates_test :
    (write_segments
        (one_page.pread 5)
        class32
        4096
        (map (λ s. s.0) fates)
        (at_end (1 ∷ []) (script fates))
      ≡ at_end ((1 ∷ []) ++ outcome_bytes (one_page.pread 5) class32 fates) [])
    × (length (outcome_bytes (one_page.pread 5) class32 fates)
        ≡ total_filesz (map (λ s. s.0) fates))
write_segments-fates_test =
    write_segments-fates (one_page.pread 5) class32 fates (1 ∷ [])
      ((padded, omega arith), ((padded, tt), ((padded, omega arith), tt))) (omega arith)

-- The core file of the process, whose one page fails after three bytes.
segment_survives_example :
    take placed_page.p_filesz (
      drop placed_page.p_offset
        (write_core arm one_page collected (
          fresh (
            core_script arm arm-NotesLaws one_page collected collected-IsReady refl
              ((placed_page, broken 0 3) ∷ [])))).1.bytes)
    ≡ fate_bytes (one_page.pread 5) class32 placed_page (broken 0 3)
segment_survives_example =
    segment_survives arm arm-NotesLaws one_page collected collected-IsReady refl
      ((placed_page, broken 0 3) ∷ []) 0 placed_page (broken 0 3) ((padded, omega arith), tt)
      core_phdrs_page refl

-- The block fails after three bytes, and the zero page after one.
write_segment-shifted_example :
    let (goes_on, f) =
      write_segment
        (one_page.pread 5)
        class32
        4096
        placed_page
        (at_end (1 ∷ []) (fails_after 0 3 ++ padding_fails 0 1 other)) in
    (goes_on ≡ true) × (f.pos + 4096 ≡ 1 + placed_page.p_filesz + 1)
write_segment-shifted_example =
    write_segment-shifted (one_page.pread 5) class32 placed_page 3 0 0 1 other (1 ∷ []) padded
      (omega arith) (omega arith) (omega arith) (omega arith) (omega arith)
