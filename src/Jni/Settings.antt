-- ===== src/Jni/Settings.antt =====
-- The settings of the Java class Coredump (opencore/src/main/cpp/opencore_jni.cpp): what the getters
-- answer after any calls of the setters.
use open_core_sdk.Prelude.{
  ℕ, ◌≡◌, refl, ap, ◌∙◌, arith, List, [], ◌∷◌, Option, none, some, ltb, if◌then◌else◌,
}
use open_core_sdk.Opencore.DumpName.{set_timeout}
use open_core_sdk.Lp.{OpencoreImpl}
use open_core_sdk.Process.{
  on_instance, set_dir, set_flag, set_filter, get_dir, get_flag, get_timeout, get_filter,
}
use open_core_sdk.Process.Crash.{Process}
use open_core_sdk.Jni.{Machine}
use open_core_sdk.Jni.Methods.{
  native_set_dir, native_set_flag, native_set_timeout, native_set_filter, native_get_dir,
  native_get_flag, native_get_timeout, native_get_filter,
}

-- A call of a setter, with its argument.
pub data SetCall (J : Type 0) : Type 0 where
  to_dir : Option J → SetCall J
  to_flag : ℕ → SetCall J
  to_timeout : ℕ → SetCall J
  to_filter : ℕ → SetCall J

-- The settings that a run of calls comes to.
pub record Settings : Type 0 where
  pub dir : List ℕ
  pub flag : ℕ
  pub timeout : ℕ
  pub filter : ℕ

-- An `int` above zero.
abbrev pub positive_or : ℕ → ℕ → ℕ
positive_or sec old = if ltb 0 sec then (if ltb sec 0x8000_0000 then sec else old) else old

abbrev pub settings_of : OpencoreImpl → Settings
settings_of s = record { dir = s.dir; flag = s.flag; timeout = s.timeout; filter = s.filter }

settings-set_timeout :
    (t : ℕ) (s : OpencoreImpl)
    → settings_of (record s { base = set_timeout t s.base })
      ≡ record (settings_of s) { timeout = positive_or t s.timeout }
unfolding set_timeout
settings-set_timeout t s = ground arith

module _ {J : Type 0} (vm : Machine J) where
  abbrev pub latest : List (SetCall J) → Settings → Settings
  latest [] x = x
  latest (to_dir none ∷ calls) x = latest calls x
  latest (to_dir (some d) ∷ calls) x = latest calls (record x { dir = vm.get_string_utf_chars d })
  latest (to_flag f ∷ calls) x = latest calls (record x { flag = f })
  latest (to_timeout t ∷ calls) x = latest calls (record x { timeout = positive_or t x.timeout })
  latest (to_filter f ∷ calls) x = latest calls (record x { filter = f })

module _ {A J : Type 0} (vm : Machine J) where
  abbrev pub run : List (SetCall J) → Process A → Process A
  run [] p = p
  run (to_dir d ∷ calls) p = run calls (native_set_dir vm d p)
  run (to_flag f ∷ calls) p = run calls (native_set_flag f p)
  run (to_timeout t ∷ calls) p = run calls (native_set_timeout t p)
  run (to_filter f ∷ calls) p = run calls (native_set_filter f p)

  abbrev Answers : Settings → Process A → Type 0
  Answers x p =
      (native_get_dir vm p ≡ vm.new_string_utf x.dir)
      × (native_get_flag p ≡ x.flag)
      × (native_get_timeout p ≡ x.timeout)
      × (native_get_filter p ≡ x.filter)

  run-Answers :
      (calls : List (SetCall J)) (p : Process A) (s : OpencoreImpl) (x : Settings)
      → p.instance_ ≡ some s
      → settings_of s ≡ x
      → Answers (latest vm calls x) (run calls p)
  unfolding native_set_dir native_set_flag native_set_timeout native_set_filter native_get_dir
      native_get_flag native_get_timeout native_get_filter get_dir get_flag get_timeout get_filter
      set_dir set_flag set_filter on_instance
  run-Answers [] p s x e same = (
    ap (λ i. vm.new_string_utf (get_dir i)) e ∙ ap (λ (y : Settings). vm.new_string_utf y.dir) same,
    ap get_flag e ∙ ap (λ (y : Settings). y.flag) same,
    ap get_timeout e ∙ ap (λ (y : Settings). y.timeout) same,
    ap get_filter e ∙ ap (λ (y : Settings). y.filter) same,
  )
  run-Answers (to_dir none ∷ calls) p s x e same = run-Answers calls p s x e same
  run-Answers (to_dir (some d) ∷ calls) p s x e same =
      let bytes = vm.get_string_utf_chars d in
      run-Answers calls (native_set_dir vm (some d) p)
        (record s { base = record (s.base) { dir = bytes } }) (record x { dir = bytes })
        (ap (set_dir bytes) e) (ap (λ (y : Settings). record y { dir = bytes }) same)
  run-Answers (to_flag f ∷ calls) p s x e same =
      run-Answers calls (native_set_flag f p) (record s { base = record (s.base) { flag = f } })
        (record x { flag = f }) (ap (set_flag f) e)
        (ap (λ (y : Settings). record y { flag = f }) same)
  run-Answers (to_timeout t ∷ calls) p s x e same =
      run-Answers calls (native_set_timeout t p) (record s { base = set_timeout t s.base })
        (record x { timeout = positive_or t x.timeout }) (ap (on_instance (set_timeout t)) e)
        (settings-set_timeout t s
          ∙ ap (λ (y : Settings). record y { timeout = positive_or t y.timeout }) same)
  run-Answers (to_filter f ∷ calls) p s x e same =
      run-Answers calls (native_set_filter f p) (record s { base = record (s.base) { filter = f } })
        (record x { filter = f }) (ap (set_filter f) e)
        (ap (λ (y : Settings). record y { filter = f }) same)

  -- With an object, after any calls of the four setters the getters answer the argument of the last
  -- call of their setter, a null directory and a timeout that is not above zero passed over, and
  -- what the object had if there is none.
  pub get-set :
      (calls : List (SetCall J)) (p : Process A) (s : OpencoreImpl)
      → p.instance_ ≡ some s
      → let x = latest vm calls (settings_of s) in
        (native_get_dir vm (run calls p) ≡ vm.new_string_utf x.dir)
        × (native_get_flag (run calls p) ≡ x.flag)
        × (native_get_timeout (run calls p) ≡ x.timeout)
        × (native_get_filter (run calls p) ≡ x.filter)
  get-set calls p s e = run-Answers calls p s (settings_of s) e refl
