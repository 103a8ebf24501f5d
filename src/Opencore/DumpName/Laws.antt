-- ===== src/Opencore/DumpName/Laws.antt =====
-- The name of a core file is what its flags say (Opencore::Dump,
-- opencore/src/main/cpp/opencore/opencore.cpp).
use open_core_sdk.Prelude.{
  ℕ, ◌%◌, ◌<◌, take, refl, ap, inl, inr, Option, some, ◌==◌, ◌&&◌, ◌||◌, Bool-cases, arith, bit_or,
  ◌≡◌, sym, ◌∙◌, Bool, true, false, List, [], ◌∷◌, ◌++◌, append-nil, append_assoc, none,
  if◌then◌else◌,
}
use open_core_sdk.Prelude.Bits.{bit, single, bit_and-single, bit-bit_or, bit_and-low}
use open_core_sdk.Prelude.Joined.{chosen, each_after, joined}
use open_core_sdk.Opencore.{has_bit, flag_all}
use open_core_sdk.Opencore.Filter.{codes}
use open_core_sdk.Opencore.DumpName.{
  Names, c_string, comm_name, to_string, add_part, add_parts, name_flag, name_parts, dir_prefix,
  output_name,
}

add_parts-after :
    (parts : List (Bool × List ℕ)) (output : List ℕ)
    → (add_parts parts (output, true)).0 ≡ output ++ each_after b'_' (chosen parts)
unfolding add_parts add_part
add_parts-after [] output = sym (append-nil output)
add_parts-after ((true, text) ∷ parts) output =
    add_parts-after parts ((output ++ (b'_' ∷ [])) ++ text)
    ∙ append_assoc (output ++ (b'_' ∷ [])) text (each_after b'_' (chosen parts))
    ∙ append_assoc output (b'_' ∷ []) (text ++ each_after b'_' (chosen parts))
add_parts-after ((false, text) ∷ parts) output = add_parts-after parts output

add_parts-joined :
    (parts : List (Bool × List ℕ)) (output : List ℕ)
    → (add_parts parts (output, false)).0 ≡ output ++ joined b'_' (chosen parts)
unfolding add_parts add_part
add_parts-joined [] output = sym (append-nil output)
add_parts-joined ((true, text) ∷ parts) output =
    add_parts-after parts (output ++ text)
    ∙ append_assoc output text (each_after b'_' (chosen parts))
add_parts-joined ((false, text) ∷ parts) output = add_parts-joined parts output

-- The bytes before the first of a kind.
abbrev pub until : ℕ → List ℕ → List ℕ
until end [] = []
until end (b ∷ bs) = let rest = until end bs in if b == end then [] else b ∷ rest

-- The text for a `comm` file: what is before the first newline or zero of its first 15 bytes;
-- "unknown" if it is empty, and nothing if it cannot be opened.
abbrev pub comm_text : Option (List ℕ) → List ℕ
comm_text none = []
comm_text (some []) = codes "unknown"
comm_text (some (b ∷ bs)) = until 0 (until b'\n' (take 15 (b ∷ bs)))

-- None of the six flags, FLAG_CORE to FLAG_TIMESTAMP, is set.
abbrev pub no_flags : ℕ → Bool
no_flags flag = flag % 64 == 0

-- What the name says after "core.", each part with the flag that asks for it: digit 1 for the name of
-- the process, 2 for its number, 3 for the name of the thread, 4 for its number, 5 for the second.
-- Without any flag it is the thread's number.
abbrev pub named : Names → ℕ → ℕ → ℕ → List (Bool × List ℕ)
named os flag pid tid =
    (bit 1 flag, comm_text (os.process_comm pid))
    ∷ (bit 2 flag, to_string pid)
    ∷ (bit 3 flag, comm_text (os.thread_comm pid tid))
    ∷ (no_flags flag || bit 4 flag, to_string tid)
    ∷ (bit 5 flag, to_string os.tv_sec)
    ∷ []

abbrev pub heading : ℕ → List ℕ
heading flag = if no_flags flag || bit 0 flag then codes "core." else []

abbrev pub directory : List ℕ → List ℕ
directory [] = []
directory (b ∷ bs) = (b ∷ bs) ++ codes "/"

dir_prefix-directory : (dir : List ℕ) → dir_prefix dir ≡ directory dir
unfolding dir_prefix
dir_prefix-directory [] = refl
dir_prefix-directory (b ∷ bs) = ground arith

c_string-until : (bs : List ℕ) → c_string bs ≡ until 0 (until b'\n' bs)
unfolding c_string
c_string-until [] = refl
c_string-until (b ∷ bs) = elim (Bool-cases (b == b'\n')) [
  | inl newline ↦ rw newline refl
  | inr other ↦ elim (Bool-cases (b == 0)) [
    | inl end ↦ rw (other, end) refl
    | inr more ↦ rw (other, more) (ap (λ t. b ∷ t) (c_string-until bs))
  ]
]

comm_name-comm_text : (comm : Option (List ℕ)) → comm_name comm ≡ comm_text comm
unfolding comm_name
comm_name-comm_text none = refl
comm_name-comm_text (some []) = refl
comm_name-comm_text (some (b ∷ bs)) = c_string-until (take 15 (b ∷ bs))

-- The flags that the code goes by.
has_bit-name_flag :
    (n flag : ℕ)
    → n < 6
    → has_bit (name_flag flag) (single n) ≡ ((no_flags flag && (bit n 1 || bit n 16)) || bit n flag)
unfolding name_flag
has_bit-name_flag n flag h = bit_and-single n (name_flag flag) ∙ elim (Bool-cases (no_flags flag)) [
  | inl none_set ↦
      rw (none_set, no_known none_set)
        (bit-bit_or n (bit_or flag 1) 16
          ∙ rw (bit-bit_or n flag 1) (or_comm (bit n flag) (bit n 1) (bit n 16)))
  | inr some_set ↦ rw (some_set, known some_set) refl
]
  where
    or_comm : (a b c : Bool) → ((a || b) || c) ≡ ((b || c) || a)
    or_comm true true c = refl
    or_comm true false true = refl
    or_comm true false false = refl
    or_comm false true true = refl
    or_comm false true false = refl
    or_comm false false true = refl
    or_comm false false false = refl

    no_known : no_flags flag ≡ true → has_bit flag flag_all ≡ false
    no_known e = ground (arith, bit_and-low 6 flag)

    known : no_flags flag ≡ false → has_bit flag flag_all ≡ true
    known e = ground (arith, bit_and-low 6 flag)

only : (none_set b : Bool) → ((none_set && false) || b) ≡ b
only true b = refl
only false b = refl

also : (none_set b : Bool) → ((none_set && true) || b) ≡ (none_set || b)
also true b = refl
also false b = refl

name_parts-named :
    (os : Names) (flag pid tid : ℕ) → name_parts os (name_flag flag) pid tid ≡ named os flag pid tid
unfolding name_parts
name_parts-named os flag pid tid =
    rw
      (
        has_bit-name_flag 1 flag (omega arith) ∙ only (no_flags flag) (bit 1 flag),
        has_bit-name_flag 2 flag (omega arith) ∙ only (no_flags flag) (bit 2 flag),
        has_bit-name_flag 3 flag (omega arith) ∙ only (no_flags flag) (bit 3 flag),
        has_bit-name_flag 4 flag (omega arith) ∙ also (no_flags flag) (bit 4 flag),
        has_bit-name_flag 5 flag (omega arith) ∙ only (no_flags flag) (bit 5 flag),
        comm_name-comm_text (os.process_comm pid),
        comm_name-comm_text (os.thread_comm pid tid),
      )
      refl

-- Without a name from the caller, the file's name is the directory with a slash, if there is one,
-- "core." if the lowest of the six flags is set, and the texts of the others that are set, in the order
-- process name, process, thread name, thread, second, with one underscore between two of them and
-- none at the ends. With none of the six set it is "core." and the thread.
pub output_name-joined :
    (os : Names) (dir : List ℕ) (flag pid tid : ℕ)
    → output_name os dir flag pid tid none
      ≡ directory dir ++ (heading flag ++ joined b'_' (chosen (named os flag pid tid)))
unfolding output_name
output_name-joined os dir flag pid tid =
    add_parts-joined (name_parts os (name_flag flag) pid tid) _
    ∙ append_assoc (dir_prefix dir) _
        (joined b'_' (chosen (name_parts os (name_flag flag) pid tid)))
    ∙ rw
        (
          dir_prefix-directory dir,
          name_parts-named os flag pid tid,
          has_bit-name_flag 0 flag (omega arith) ∙ also (no_flags flag) (bit 0 flag),
        )
        refl
