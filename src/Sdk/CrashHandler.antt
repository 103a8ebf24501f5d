-- ===== src/Sdk/CrashHandler.antt =====
-- JavaCrashHandler (opencore/src/main/java/penguin/opencore/sdk/Coredump.java), and the handler of
-- uncaught exceptions that Java keeps for all threads. A handler is a number.
use open_core_sdk.Prelude.{
  ℕ, Bool, true, false, Option, none, some, ◌==◌, ◌≡◌, ◌≢◌, ◌⊎◌, inl, inr, refl, arith,
}

-- `defaultHandler`, and what getDefaultUncaughtExceptionHandler answers.
pub record CrashHandler : Type 0 where
  pub default_handler : Option ℕ
  pub current : Option ℕ

abbrev pub or_else : Option ℕ → Option ℕ → Option ℕ
or_else none other = other
or_else (some h) other = some h

module _ (this : ℕ) where
  -- JavaCrashHandler.enable; a handler that is kept already stays.
  unfoldable pub enable : CrashHandler → Bool × CrashHandler
  enable c =
      (true, record { default_handler = or_else c.default_handler c.current; current = some this })

  -- JavaCrashHandler.disable.
  unfoldable pub disable : CrashHandler → Bool × CrashHandler
  disable c = (true, record c { current = or_else c.default_handler c.current })

  is_handler : Option ℕ → Bool
  is_handler none = false
  is_handler (some h) = h == this

  -- JavaCrashHandler.isEnabled.
  unfoldable pub is_enabled : CrashHandler → Bool
  unfolding is_handler
  is_enabled c = is_handler c.current

  -- With a handler of another in place, enable and then disable put it back; with none in place
  -- disable answers true as well and takes nothing back.
  pub disable-enable_crash :
      (h : Option ℕ)
      → h ≢ some this
      → let c = (enable (record { default_handler = none; current = h })).1 in
        let (done, c') = disable c in
        (is_enabled c ≡ true)
        × (done ≡ true)
        × (((c'.current ≡ h) × (is_enabled c' ≡ false)) ⊎ ((h ≡ none) × (is_enabled c' ≡ true)))
  unfolding enable disable is_enabled
  disable-enable_crash none other = (ground arith, refl, inr (refl, ground arith))
  disable-enable_crash (some h) other =
      let apart : h ≢ this = λ e. other (λ i. some (e i)) in
      (ground arith, refl, inl (refl, ground arith))

  -- After a second enable, disable puts back the handler of the first one, and not the one that was
  -- set between.
  pub disable-enable_again :
      (h other : ℕ)
      → let c1 = (enable (record { default_handler = none; current = some h })).1 in
        let c2 = record ((disable c1).1) { current = some other } in
        ((disable ((enable c2).1)).1).current ≡ some h
  unfolding enable disable
  disable-enable_again h other = refl
