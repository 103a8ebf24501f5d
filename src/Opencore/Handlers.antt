-- ===== src/Opencore/Handlers.antt =====
-- Opencore::Enable, Disable, IsEnabled and IgnoreHandler (opencore/src/main/cpp/opencore/opencore.cpp), with the
-- file's `g_restore_action` and `handlers_installed`. The two mutexes make each call one step. A
-- `struct sigaction` is an element of the type `A`.
pub mod Laws
use open_core_sdk.Prelude.{ℕ, ◌+◌, Bool, true, false, List, [], ◌∷◌, map, if◌then◌else◌}

-- What `sigaction` answers for the signal at an index of `kExceptionSignals`: whether the present
-- action can be read, and whether a new one is taken.
pub record Sigaction : Type 0 where
  pub queries : ℕ → Bool
  pub sets : ℕ → Bool

-- `actions` is the process's table, by the index in `kExceptionSignals`.
pub record Handlers (A : Type 0) : Type 0 where
  pub handlers_installed : Bool
  pub g_restore_action : List A
  pub actions : List A

module _ {A : Type 0} (os : Sigaction) where
  -- The first loop of Enable: each action goes to `g_restore_action`, until one cannot be read.
  unfoldable pub store_old : ℕ → List A → List A → Bool × List A
  store_old i [] restore = (true, restore)
  store_old i (a ∷ actions) [] = (true, [])
  store_old i (a ∷ actions) (r ∷ restore) =
      let (stored, rest) = store_old (i + 1) actions restore in
      if os.queries i then (stored, a ∷ rest) else (false, r ∷ restore)

  -- A loop that calls `sigaction` for every signal, and does not look at the results.
  unfoldable pub set_actions : ℕ → List A → List A → List A
  set_actions i [] actions = actions
  set_actions i (new ∷ news) [] = []
  set_actions i (new ∷ news) (a ∷ actions) =
      (if os.sets i then new else a) ∷ set_actions (i + 1) news actions

  abbrev pub after_store : A → Handlers A → Bool × List A → Bool × Handlers A
  after_store stact s (false, restore) = (false, record s { g_restore_action = restore })
  after_store stact s (true, restore) = (
    true,
    record {
      handlers_installed = true;
      g_restore_action = restore;
      actions = set_actions 0 (map (λ a. stact) s.actions) s.actions;
    },
  )

  -- Opencore::Enable; `stact` is the action with HandleSignal.
  unfoldable pub enable : A → Handlers A → Bool × Handlers A
  enable stact s =
      if s.handlers_installed
      then (false, s)
      else after_store stact s (store_old 0 s.actions s.g_restore_action)

  -- Opencore::Disable; `zero` is a cleared `struct sigaction`.
  unfoldable pub disable : A → Handlers A → Bool × Handlers A
  disable zero_action s =
      if s.handlers_installed
      then (
        true,
        record {
          handlers_installed = false;
          g_restore_action = map (λ a. zero_action) s.g_restore_action;
          actions = set_actions 0 s.g_restore_action s.actions;
        },
      )
      else (false, s)

  -- Opencore::IgnoreHandler, with the process's action for SIGCHLD, which stands at index 6 of what
  -- `sigaction` answers. `stact` is the action with SIG_IGN.
  unfoldable pub ignore_handler : A → A × Handlers A → A × Handlers A
  ignore_handler stact (sigchld, s) = (
    if os.sets 6 then stact else sigchld,
    record s { actions = set_actions 0 (map (λ a. stact) s.actions) s.actions },
  )

-- Opencore::IsEnabled.
unfoldable pub is_enabled : {A : Type 0} → Handlers A → Bool
is_enabled s = s.handlers_installed
