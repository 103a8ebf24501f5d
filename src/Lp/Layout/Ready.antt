-- ===== src/Lp/Layout/Ready.antt =====
-- The tables that DoCoredump collects in an object that has dumped nothing yet
-- (opencore/src/main/cpp/opencore/lp64/opencore.cpp and lp32/opencore.cpp).
use open_core_sdk.Prelude.{
  ℕ, ◌+◌, ◌*◌, ◌%◌, ◌^◌, ◌<◌, ◌≡◌, ◌++◌, length-replicate, sym, ap, ◌∙◌, subst, arith, List, Option,
  none, some, length, All, replicate, length-append,
}
use open_core_sdk.Elf.{ElfClass, word_bits, wrap, ehdr_size, phdr_size, Auxv, Phdr}
use open_core_sdk.Prelude.{refl}
use open_core_sdk.Elf.{pt_note}
use open_core_sdk.Elf.Wrap.{wrap_small}
use open_core_sdk.Kernel.{Kernel, VirtualMemoryArea}
use open_core_sdk.Opencore.Threads.{stop_the_world}
use open_core_sdk.Opencore.Threads.Frame.{stop_listed_frame}
use open_core_sdk.Lp.{OpencoreImpl}
use open_core_sdk.Lp.Prepare.{
  parse_process_maps_vma, create_core_header, create_core_note_header, create_core_auxv, read_auxv,
}
use open_core_sdk.Lp.Load.Healthy.{total_filesz}
use open_core_sdk.Lp.Dump.{Arch, collect, gather, special_core_filter, filter_phdrs}
use open_core_sdk.Lp.Dump.Filtered.{
  IsMapping, map-eq-some, filter_phdrs_lem, filter_phdrs-IsStorable,
}
use open_core_sdk.Lp.Layout.{headers_size, note_size, names_size}
use open_core_sdk.Lp.Layout.File.{NotesLaws, IsReady}
use open_core_sdk.Lp.Layout.Parsed.{IsUnused, IsParsed, parse_tables-IsParsed}

-- What a core file can count: `int` sums, 16 bits of program headers, and offsets of one word.
pub record IsCountable (c : ElfClass) (notes : ℕ → ℕ) (s : OpencoreImpl) : Type 0 where
  pub extra_int : notes (length s.prstatus) < 2 ^ 31
  pub names_int : names_size s.maps + 3 < 2 ^ 31
  pub phnum_half : length s.phdr + 1 < 2 ^ 16
  pub fits :
      headers_size c (length s.phdr)
        + note_size c s.auxvnum (notes (length s.prstatus)) (length s.phdr) (names_size s.maps)
        + 4096
        + total_filesz s.phdr
      < 2 ^ word_bits c

abbrev no_entry : Auxv
no_entry = record { type = 0; value = 0 }

module _ (arch : Arch) (laws : NotesLaws arch) (k : Kernel) where
  open arch use {elf_class as c, machine}

  -- What CreateCoreAUXV and SpecialCoreFilter make of the tables.
  abbrev filtered : OpencoreImpl → List Phdr → OpencoreImpl
  filtered s qs = record (create_core_auxv k s.pid s) { phdr = qs }

  abbrev headed : OpencoreImpl → OpencoreImpl
  headed s = create_core_note_header c (create_core_header c machine s)

  -- The tables with what the class of the processor sets.
  abbrev with_threads_of : ℕ → OpencoreImpl → OpencoreImpl → OpencoreImpl
  with_threads_of extra s t = record s {
    base = record (s.base) { extra_note_filesz = extra };
    prstatus = t.prstatus;
  }

  note_offset :
      (phnum : ℕ)
      → phnum + 1 < 2 ^ 16
      → headers_size c phnum < 2 ^ word_bits c
      → wrap c (ehdr_size c + (phnum + 1) % 2 ^ 16 * phdr_size c) ≡ headers_size c phnum
  note_offset phnum half fits =
      let e : (phnum + 1) % 2 ^ 16 ≡ phnum + 1 = omega (arith, half) in
      rw e (wrap_small c (headers_size c phnum) fits)

  module _ (e : ℕ) (s t : OpencoreImpl) (flag : VirtualMemoryArea → Option ℕ) (qs : List Phdr)
      (v : IsParsed c s) (ms : All (IsMapping c) s.maps)
      (found : filter_phdrs flag s.maps s.phdr ≡ some qs)
      (extra : laws.notes (length t.prstatus) < 2 ^ 31 → e ≡ laws.notes (length t.prstatus)) where
    filtered-IsReady :
        (auxv : List Auxv) (auxvnum : ℕ)
        → length auxv ≡ auxvnum
        → let u = record (with_threads_of e (headed s) t) {
          auxv = auxv;
          auxvnum = auxvnum;
          phdr = qs;
        } in
          IsCountable c laws.notes u → IsReady c laws.notes u
    unfolding create_core_header create_core_note_header
    filtered-IsReady auxv auxvnum l b =
        let (paged, same) = filter_phdrs_lem flag s.maps s.phdr qs v.mapped (v.paged ms) found in
        let named = v.names (omega (arith, b.names_int)) in
        let counted = extra b.extra_int in
        let headed_fits : headers_size c (length qs) < 2 ^ word_bits c = omega (arith, b.fits) in
        record {
          page = v.page;
          note_at =
              subst
                (λ n.
                  wrap c (ehdr_size c + (length s.phdr + 1) % 2 ^ 16 * phdr_size c)
                  ≡ headers_size c n)
                (sym same)
                (note_offset (length s.phdr) (omega (arith, same, b.phnum_half))
                  (subst (λ n. headers_size c n < 2 ^ word_bits c) same headed_fits));
          note_empty = ap (λ p. p.p_filesz) v.no_note;
          extra = counted;
          extra_int = omega (arith, counted, b.extra_int);
          auxv_read = l;
          files = v.files ∙ sym same;
          mapped = v.mapped ∙ sym same;
          names = named;
          names_int = omega (arith, named, b.names_int);
          paged = paged;
          storable = filter_phdrs-IsStorable c flag s.maps s.phdr qs v.storable found;
          table_at = refl;
          table_entries =
              let e : (length s.phdr + 1) % 2 ^ 16 ≡ length s.phdr + 1 =
                omega (arith, same, b.phnum_half) in
              e ∙ ap (λ n. n + 1) (sym same);
          table_half = b.phnum_half;
          note_rest =
              ap (λ (p : Phdr). record p { p_type = pt_note; p_offset = (headed s).note.p_offset })
                v.no_note;
          fits = rw (counted, named) b.fits;
        }

  -- The step from the tables as CreateCorePrStatus leaves them.
  abbrev Completes : (VirtualMemoryArea → Option ℕ) → List Phdr → OpencoreImpl → Type 0
  Completes flag qs s5 =
      let s6 = create_core_auxv k s5.pid s5 in
      filter_phdrs flag s6.maps s6.phdr ≡ some qs
      → All (IsMapping c) s6.maps
      → IsCountable c laws.notes (record s6 { phdr = qs })
      → IsReady c laws.notes (record s6 { phdr = qs })

  read_auxv-IsReady :
      (e : ℕ) (s t : OpencoreImpl) (flag : VirtualMemoryArea → Option ℕ) (qs : List Phdr)
      → IsParsed c s
      → (laws.notes (length t.prstatus) < 2 ^ 31 → e ≡ laws.notes (length t.prstatus))
      → (o : Option (List Auxv))
      → let s6 = read_auxv o (with_threads_of e (headed s) t) in
        filter_phdrs flag s6.maps s6.phdr ≡ some qs
        → All (IsMapping c) s6.maps
        → IsCountable c laws.notes (record s6 { phdr = qs })
        → IsReady c laws.notes (record s6 { phdr = qs })
  unfolding read_auxv create_core_header create_core_note_header
  read_auxv-IsReady e s t flag qs v extra none found ms =
      filtered-IsReady e s t flag qs v ms found extra s.auxv s.auxvnum
        (ap length v.no_auxv ∙ sym v.no_auxvnum)
  read_auxv-IsReady e s t flag qs v extra (some entries) found ms =
      filtered-IsReady e s t flag qs v ms found extra (entries ++ replicate s.auxvnum no_entry) _
        (length-append entries _ ∙ omega (arith, length-replicate s.auxvnum no_entry))

  created-IsReady :
      (s : OpencoreImpl) (flag : VirtualMemoryArea → Option ℕ) (qs : List Phdr)
      → IsParsed c s
      → Completes flag qs (arch.create_core_prstatus k (headed s))
  unfolding create_core_auxv create_core_header create_core_note_header
  created-IsReady s flag qs v = subst (Completes flag qs) (sym (laws.create_frame k (headed s))) (
      read_auxv-IsReady s'.extra_note_filesz s s' flag qs v
        (λ h.
          laws.extra-create k (headed s) v.no_extra (subst (λ n. laws.notes n < 2 ^ 31) counted h)
          ∙ ap laws.notes (sym counted))
        (k.proc_auxv s.pid))
    where
      s' : OpencoreImpl
      s' = arch.create_core_prstatus k (headed s)

      counted : length s'.prstatus ≡ length s.threads
      counted = laws.length-create k (headed s) v.no_prstatus

  stopped-IsUnused :
      (s : OpencoreImpl) → IsUnused s → IsUnused (record s { base = stop_the_world k s.pid s.base })
  stopped-IsUnused s u =
      subst (λ b. IsUnused (record s { base = b }))
        (sym (stop_listed_frame k (k.proc_task s.pid) s.base))
        (record {
          page = u.page;
          no_extra = u.no_extra;
          no_maps = u.no_maps;
          no_phdr = u.no_phdr;
          no_files = u.no_files;
          no_names = u.no_names;
          no_auxv = u.no_auxv;
          no_auxvnum = u.no_auxvnum;
          no_prstatus = u.no_prstatus;
          no_note = u.no_note;
        })

  -- An object that has dumped nothing, whatever the kernel answers: if the filters give an answer,
  -- every mapping is one that the kernel prints, and the tables can be counted, then the tables are
  -- ready for the writers.
  pub collect-IsReady :
      (s0 s : OpencoreImpl)
      → IsUnused s0
      → collect arch k s0 ≡ some s
      → All (IsMapping c) s.maps
      → IsCountable c laws.notes s
      → IsReady c laws.notes s
  unfolding collect gather special_core_filter parse_process_maps_vma
  collect-IsReady s0 s u found ms b =
      let v = stopped-IsUnused s0 u in
      let (qs, kept, e) = map-eq-some (filter_phdrs _ _ _) _ found in
      subst Wanted e (created-IsReady _ _ qs (parse_tables-IsParsed c _ _ v) kept) ms b
    where
      Wanted : OpencoreImpl → Type 0
      Wanted s = All (IsMapping c) s.maps → IsCountable c laws.notes s → IsReady c laws.notes s
