-- ===== src/Sdk/Strings/Laws.antt =====
-- What coreFlagToString and coreFilterToString print
-- (opencore/src/main/java/penguin/opencore/sdk/Coredump.java).
use Prim.Native.String.{String}
use open_core_sdk.Prelude.{
  ℕ, ◌≡◌, ◌≢◌, sym, ap, ◌∙◌, ◌⊎◌, inl, inr, arith, Bool, true, false, List, [], ◌∷◌, ◌++◌,
  append-nil, append_assoc, Bool-cases, ◌==◌, if◌then◌else◌, get_or,
}
use mathlib.Core.List.{append_cancel_left}
use open_core_sdk.Prelude.Joined.{chosen, chosen-append, each_after, joined, lead, joined-append}
use open_core_sdk.Opencore.{
  has_bit, filter_special_vma, filter_file_vma, filter_shared_vma, filter_sanitizer_shadow_vma,
  filter_non_read_vma, filter_signal_context, filter_minidump, filter_javaheap_vma,
  filter_jit_cache_vma,
}
use open_core_sdk.Opencore.Filter.{codes}
use open_core_sdk.Sdk.Strings.{
  append_name, append_names, flag_names, filter_names, core_flag_to_string, core_filter_to_string,
}

-- Each name with the test of its bit.
abbrev pub marks : ℕ → List (ℕ × String) → List (Bool × List ℕ)
marks value [] = []
marks value ((bit, name) ∷ names) = (has_bit value bit, codes name) ∷ marks value names

-- The names of the bits that are set, in order, with a bar between two of them.
abbrev pub set_names : ℕ → List (ℕ × String) → List ℕ
set_names value names = joined b'|' (chosen (marks value names))

append_names-after :
    (value : ℕ) (names : List (ℕ × String)) (sb : List ℕ)
    → (append_names value names (sb, true)).0 ≡ sb ++ each_after b'|' (chosen (marks value names))
unfolding append_names append_name
append_names-after value [] sb = sym (append-nil sb)
append_names-after value ((bit, name) ∷ names) sb =
    elim (has_bit value bit)
      as (λ b.
        (append_names value names (append_name b (codes name) (sb, true))).0
        ≡ sb ++ each_after b'|' (chosen ((b, codes name) ∷ marks value names))) [
          | true ↦
              (append_names-after value names ((sb ++ (b'|' ∷ [])) ++ codes name)
                ∙ append_assoc (sb ++ (b'|' ∷ [])) (codes name)
                    (each_after b'|' (chosen (marks value names)))
                ∙ append_assoc sb (b'|' ∷ [])
                    (codes name ++ each_after b'|' (chosen (marks value names))))
          | false ↦ (append_names-after value names sb)
        ]

append_names-joined :
    (value : ℕ) (names : List (ℕ × String)) (sb : List ℕ)
    → (append_names value names (sb, false)).0 ≡ sb ++ set_names value names
unfolding append_names append_name
append_names-joined value [] sb = sym (append-nil sb)
append_names-joined value ((bit, name) ∷ names) sb =
    elim (has_bit value bit)
      as (λ b.
        (append_names value names (append_name b (codes name) (sb, false))).0
        ≡ sb ++ joined b'|' (chosen ((b, codes name) ∷ marks value names))) [
          | true ↦
              (append_names-after value names (sb ++ codes name)
                ∙ append_assoc sb (codes name) (each_after b'|' (chosen (marks value names))))
          | false ↦ (append_names-joined value names sb)
        ]

-- Any flags but none at all are printed as the names of those that are set.
pub core_flag_to_string-set_names :
    (flag : ℕ) → flag ≢ 0 → core_flag_to_string flag ≡ set_names flag flag_names
unfolding core_flag_to_string
core_flag_to_string-set_names flag some_set =
    let nonzero : (flag == 0) ≡ false = ground arith in
    rw nonzero (append_names-joined flag flag_names [])

-- The names of the filters as the class declares them.
abbrev front_titles : List (ℕ × String)
front_titles =
    (filter_special_vma, "FILTER_SPECIAL_VMA")
    ∷ (filter_file_vma, "FILTER_FILE_VMA")
    ∷ (filter_shared_vma, "FILTER_SHARED_VMA")
    ∷ (filter_sanitizer_shadow_vma, "FILTER_SANITIZER_SHADOW_VMA")
    ∷ []

abbrev back_titles : List (ℕ × String)
back_titles =
    (filter_signal_context, "FILTER_SIGNAL_CONTEXT")
    ∷ (filter_minidump, "FILTER_MINIDUMP")
    ∷ (filter_javaheap_vma, "FILTER_JAVAHEAP_VMA")
    ∷ (filter_jit_cache_vma, "FILTER_JIT_CACHE_VMA")
    ∷ []

abbrev pub filter_titles : List (ℕ × String)
filter_titles = front_titles ++ ((filter_non_read_vma, "FILTER_NON_READ_VMA") ∷ back_titles)

-- The names with `name` in the place of FILTER_NON_READ_VMA.
abbrev with_name : ℕ → Bool → String → List ℕ
with_name filter set name =
    joined b'|'
      (chosen (marks filter front_titles ++ ((set, codes name) ∷ marks filter back_titles)))

with_name-clear : (filter : ℕ) (a b : String) → with_name filter false a ≡ with_name filter false b
with_name-clear filter a b = ap (joined b'|') (
    chosen-append (marks filter front_titles) ((false, codes a) ∷ marks filter back_titles)
    ∙ sym (chosen-append (marks filter front_titles) ((false, codes b) ∷ marks filter back_titles)))

with_name-set :
    (filter : ℕ) (a : String)
    → with_name filter true a
      ≡ lead b'|' (chosen (marks filter front_titles))
        ++ (codes a ++ each_after b'|' (chosen (marks filter back_titles)))
with_name-set filter a =
    ap (joined b'|')
      (chosen-append (marks filter front_titles) ((true, codes a) ∷ marks filter back_titles))
    ∙ joined-append b'|' (chosen (marks filter front_titles)) (chosen (marks filter back_titles))
        (codes a)

second_letter : (xs ys : List ℕ) → codes "FLAG_TID" ++ xs ≢ codes "FILTER_NON_READ_VMA" ++ ys
second_letter xs ys e = absurd (omega (arith, second))
  where
    second : ◌≡◌ {A = ℕ} b'L' b'I'
    second = ap (λ zs. get_or zs 1 0) e

-- Any filters but none at all are printed as the names of those that are set, if FILTER_NON_READ_VMA
-- is not one of them; if it is, they are printed as something else.
pub core_filter_to_string-set_names :
    (filter : ℕ)
    → filter ≢ 0
    → ((has_bit filter filter_non_read_vma ≡ false)
        × (core_filter_to_string filter ≡ set_names filter filter_titles))
      ⊎ ((has_bit filter filter_non_read_vma ≡ true)
          × (core_filter_to_string filter ≢ set_names filter filter_titles))
unfolding core_filter_to_string
core_filter_to_string-set_names filter some_set =
    elim (Bool-cases (has_bit filter filter_non_read_vma)) [
      | inr clear ↦ inl (
        clear,
        printed
            ∙ ap (λ b. with_name filter b "FLAG_TID") clear
            ∙ with_name-clear filter "FLAG_TID" "FILTER_NON_READ_VMA"
            ∙ ap (λ b. with_name filter b "FILTER_NON_READ_VMA") (sym clear),
      )
      | inl set ↦ inr (
        set,
        λ e. second_letter _ _ (
            append_cancel_left (lead b'|' (chosen (marks filter front_titles))) _ _ (
              sym (with_name-set filter "FLAG_TID")
              ∙ ap (λ b. with_name filter b "FLAG_TID") (sym set)
              ∙ sym printed
              ∙ e
              ∙ ap (λ b. with_name filter b "FILTER_NON_READ_VMA") set
              ∙ with_name-set filter "FILTER_NON_READ_VMA")),
      )
    ]
  where
    nonzero : (filter == 0) ≡ false
    nonzero = ground arith

    printed :
        (if filter == 0
          then codes "FILTER_NONE"
          else (append_names filter filter_names ([], false)).0)
        ≡ with_name filter (has_bit filter filter_non_read_vma) "FLAG_TID"
    printed = rw nonzero (append_names-joined filter filter_names [])
