-- ===== src/Opencore/Handlers/Laws.antt =====
-- Installing the signal handlers and taking them away again (Opencore::Enable and Opencore::Disable,
-- opencore/src/main/cpp/opencore/opencore.cpp).
use open_core_sdk.Prelude.{
  ℕ, ◌+◌, ◌≡◌, refl, ap, arith, true, false, List, [], ◌∷◌, map, length, length-map, ◌⊎◌, inl, inr,
  Bool,
}
use open_core_sdk.Opencore.Handlers.{
  Sigaction, Handlers, store_old, set_actions, enable, disable, is_enabled, after_store,
}

module _ {A : Type 0} (os : Sigaction) where
  store_old_lem :
      (i : ℕ) (actions restore : List A)
      → ((j : ℕ) → os.queries j ≡ true)
      → length restore ≡ length actions
      → store_old os i actions restore ≡ (true, actions)
  unfolding store_old
  store_old_lem i [] [] q l = refl
  store_old_lem i [] (r ∷ restore) q l = absurd (omega arith)
  store_old_lem i (a ∷ actions) [] q l = absurd (omega arith)
  store_old_lem i (a ∷ actions) (r ∷ restore) q l =
      rw (q i, store_old_lem (i + 1) actions restore q (omega arith)) refl

  pub set_actions_lem :
      (i : ℕ) (news actions : List A)
      → ((j : ℕ) → os.sets j ≡ true)
      → length news ≡ length actions
      → set_actions os i news actions ≡ news
  unfolding set_actions
  set_actions_lem i [] [] q l = refl
  set_actions_lem i [] (a ∷ actions) q l = absurd (omega arith)
  set_actions_lem i (new ∷ news) [] q l = absurd (omega arith)
  set_actions_lem i (new ∷ news) (a ∷ actions) q l =
      rw (q i) (ap (λ rest. new ∷ rest) (set_actions_lem (i + 1) news actions q (omega arith)))

  -- When the handlers are not installed and `sigaction` does not fail, Enable succeeds and puts the
  -- library's action on every signal, and Disable then succeeds, leaves the handlers uninstalled
  -- and every signal with the action that it had before Enable.
  pub disable-enable :
      (stact zero_action : A) (s : Handlers A)
      → ((j : ℕ) → os.queries j ≡ true)
      → ((j : ℕ) → os.sets j ≡ true)
      → s.handlers_installed ≡ false
      → length s.g_restore_action ≡ length s.actions
      → let (enabled, s') = enable os stact s in
        let (disabled, s'') = disable os zero_action s' in
        (enabled ≡ true)
        × (s'.actions ≡ map (λ a. stact) s.actions)
        × (disabled ≡ true)
        × (is_enabled s'' ≡ false)
        × (s''.actions ≡ s.actions)
  unfolding enable disable is_enabled
  disable-enable stact zero_action s q w off l =
      let stored = store_old_lem 0 s.actions s.g_restore_action q l in
      let taken =
        set_actions_lem 0 (map (λ a. stact) s.actions) s.actions w (length-map s.actions _) in
      let back =
        set_actions_lem 0 s.actions (map (λ a. stact) s.actions) w
          (omega (arith, length-map s.actions (λ a. stact))) in
      rw (off, stored, taken, back) (refl, refl, refl, refl, refl)

  -- An Enable, whichever way the handlers stood and the reading of the actions ended.
  abbrev Settles : A → Bool → Bool × Handlers A → Type 0
  Settles stact before (ok, s') =
      ((ok ≡ true) × (enable os stact s' ≡ (false, s'))) ⊎ ((ok ≡ false) × (is_enabled s' ≡ before))

  stored-Settles :
      (stact : A) (restore actions : List A) (r : Bool × List A)
      → Settles stact false (
          after_store os stact
            (record { handlers_installed = false; g_restore_action = restore; actions = actions })
            r)
  unfolding enable is_enabled
  stored-Settles stact restore actions (true, old) = inl (refl, refl)
  stored-Settles stact restore actions (false, old) = inr (refl, refl)

  enabled-Settles :
      (stact : A) (before : Bool) (restore actions : List A)
      → Settles stact before (
          enable os stact
            (record { handlers_installed = before; g_restore_action = restore; actions = actions }))
  unfolding enable is_enabled
  enabled-Settles stact true restore actions = inr (refl, refl)
  enabled-Settles stact false restore actions =
      stored-Settles stact restore actions (store_old os 0 actions restore)

  -- Whatever `sigaction` answers, Enable either returns true, and then the next Enable returns false
  -- and changes nothing, or returns false and leaves the handlers installed or not, as they were.
  pub enable-enable :
      (stact : A) (s : Handlers A)
      → let (ok, s') = enable os stact s in
        ((ok ≡ true) × (enable os stact s' ≡ (false, s')))
        ⊎ ((ok ≡ false) × (is_enabled s' ≡ is_enabled s))
  unfolding is_enabled
  enable-enable stact s = enabled-Settles stact s.handlers_installed s.g_restore_action s.actions
