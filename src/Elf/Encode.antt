-- ===== src/Elf/Encode.antt =====
-- The bytes that `fwrite` copies out of the structures of `Elf`: little-endian, in field order.
use open_core_sdk.Prelude.{ℕ, zero, suc, ◌/◌, ◌%◌, ◌≡◌, refl, ap, List, [], ◌∷◌, ◌++◌, length}
use open_core_sdk.Elf.{
  ElfClass, class32, class64, word_size, ehdr_size, phdr_size, nhdr_size, auxv_size, file_size,
  Ehdr, Phdr, Nhdr, Auxv, File,
}

-- The low `n` bytes of `v`, lowest first.
unfoldable pub le : ℕ → ℕ → List ℕ
le zero v = []
le (suc n) v = v % 256 ∷ le n (v / 256)

unfoldable pub encode_ident : Ehdr → List ℕ
encode_ident h =
    0x7f ∷ 0x45 ∷ 0x4c ∷ 0x46 ∷ h.ei_class ∷ h.ei_data ∷ h.ei_version ∷ 0 ∷ 0 ∷ 0 ∷ 0 ∷ 0 ∷ 0 ∷ 0
    ∷ 0 ∷ 0 ∷ []

unfoldable pub encode_ehdr : ElfClass → Ehdr → List ℕ
unfolding encode_ident
encode_ehdr c h =
    encode_ident h
    ++ (le 2 h.e_type
        ++ (le 2 h.e_machine
            ++ (le 4 h.e_version
                ++ (le (word_size c) h.e_entry
                    ++ (le (word_size c) h.e_phoff
                        ++ (le (word_size c) h.e_shoff
                            ++ (le 4 h.e_flags
                                ++ (le 2 h.e_ehsize
                                    ++ (le 2 h.e_phentsize
                                        ++ (le 2 h.e_phnum
                                            ++ (le 2 h.e_shentsize
                                                ++ (le 2 h.e_shnum ++ le 2 h.e_shstrndx))))))))))))

-- `p_flags` comes second in Elf64_Phdr and last but one in Elf32_Phdr.
unfoldable pub encode_phdr : ElfClass → Phdr → List ℕ
encode_phdr class64 p =
    le 4 p.p_type
    ++ (le 4 p.p_flags
        ++ (le 8 p.p_offset
            ++ (le 8 p.p_vaddr
                ++ (le 8 p.p_paddr ++ (le 8 p.p_filesz ++ (le 8 p.p_memsz ++ le 8 p.p_align))))))
encode_phdr class32 p =
    le 4 p.p_type
    ++ (le 4 p.p_offset
        ++ (le 4 p.p_vaddr
            ++ (le 4 p.p_paddr
                ++ (le 4 p.p_filesz ++ (le 4 p.p_memsz ++ (le 4 p.p_flags ++ le 4 p.p_align))))))

unfoldable pub encode_nhdr : Nhdr → List ℕ
encode_nhdr n = le 4 n.n_namesz ++ (le 4 n.n_descsz ++ le 4 n.n_type)

unfoldable pub encode_auxv : ElfClass → Auxv → List ℕ
encode_auxv c a = le (word_size c) a.type ++ le (word_size c) a.value

unfoldable pub encode_file : ElfClass → File → List ℕ
encode_file c f = le (word_size c) f.begin ++ (le (word_size c) f.end ++ le (word_size c) f.offset)

pub length-le : (n v : ℕ) → length (le n v) ≡ n
unfolding le
length-le zero v = refl
length-le (suc n) v = ap suc (length-le n (v / 256))

pub length-encode_ehdr : (c : ElfClass) (h : Ehdr) → length (encode_ehdr c h) ≡ ehdr_size c
unfolding encode_ehdr le
length-encode_ehdr class32 h = refl
length-encode_ehdr class64 h = refl

pub length-encode_phdr : (c : ElfClass) (p : Phdr) → length (encode_phdr c p) ≡ phdr_size c
unfolding encode_phdr le
length-encode_phdr class32 p = refl
length-encode_phdr class64 p = refl

pub length-encode_nhdr : (n : Nhdr) → length (encode_nhdr n) ≡ nhdr_size
unfolding encode_nhdr le
length-encode_nhdr n = refl

pub length-encode_auxv : (c : ElfClass) (a : Auxv) → length (encode_auxv c a) ≡ auxv_size c
unfolding encode_auxv le
length-encode_auxv class32 a = refl
length-encode_auxv class64 a = refl

pub length-encode_file : (c : ElfClass) (f : File) → length (encode_file c f) ≡ file_size c
unfolding encode_file le
length-encode_file class32 f = refl
length-encode_file class64 f = refl
