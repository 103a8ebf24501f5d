-- ===== src/Process/Crash/Restored.antt =====
-- What Opencore::Dump leaves of the process (opencore/src/main/cpp/opencore/opencore.cpp).
use open_core_sdk.Prelude.{ℕ, ◌≡◌, refl, ◌⊎◌, inl, arith, true, List, Option, none, some}
use open_core_sdk.Opencore.DumpName.{DumpOption, dump}
use open_core_sdk.Lp.{OpencoreImpl}
use open_core_sdk.Process.Crash.{
  System, Process, set_dumpable, set_ptracer, restore, dump_as, dump_instance, dump_option,
  ptracer_any,
}
use open_core_sdk.Process.{get_dir, get_flag, get_timeout, get_filter}

-- The members that the static functions get and set.
abbrev pub SameSettings : Option OpencoreImpl → Option OpencoreImpl → Type 0
SameSettings i j =
    (get_dir j ≡ get_dir i)
    × (get_flag j ≡ get_flag i)
    × (get_timeout j ≡ get_timeout i)
    × (get_filter j ≡ get_filter i)

module _ {A : Type 0} (os : System A) where
  pub handlers-set_dumpable : (v : ℕ) (p : Process A) → (set_dumpable os v p).handlers ≡ p.handlers
  unfolding set_dumpable
  handlers-set_dumpable v p = ground arith

  pub handlers-set_ptracer : (v : ℕ) (p : Process A) → (set_ptracer os v p).handlers ≡ p.handlers
  unfolding set_ptracer
  handlers-set_ptracer v p = ground arith

  -- The two pairs of calls on a process, whose first values were accepted or not.
  abbrev Leaves : Process A → Process A → Type 0
  Leaves p q =
      (q.handlers ≡ p.handlers)
      × (q.dumpable ≡ p.dumpable)
      × ((q.ptracer ≡ p.ptracer) ⊎ (q.ptracer ≡ 0))
      × (q.instance_ ≡ p.instance_)

  restore_lem :
      (p : Process A)
      → os.takes_dumpable p.dumpable ≡ true
      → os.takes_ptracer 0 ≡ true
      → Leaves p (restore os p.dumpable (set_ptracer os ptracer_any (set_dumpable os 1 p)))
  unfolding restore set_dumpable set_ptracer
  restore_lem p h z = ground arith

  settings-dump :
      (option : Option DumpOption) (s : OpencoreImpl)
      → SameSettings (some s) (some (record s { base = (dump os.names option s.base).1 }))
  unfolding dump get_dir get_flag get_timeout get_filter
  settings-dump none s = (refl, refl, refl, refl)
  settings-dump (some option) s = ground arith

  abbrev Restores : Process A → Process A → Type 0
  Restores p q =
      (q.handlers ≡ p.handlers)
      × (q.dumpable ≡ p.dumpable)
      × ((q.ptracer ≡ p.ptracer) ⊎ (q.ptracer ≡ 0))
      × SameSettings p.instance_ q.instance_

  dump_as-Restores :
      (output : Option (List ℕ)) (s : OpencoreImpl) (p : Process A)
      → os.takes_dumpable p.dumpable ≡ true
      → os.takes_ptracer 0 ≡ true
      → SameSettings p.instance_ (some s)
      → Restores p (dump_as os output s p).1
  unfolding dump_as
  dump_as-Restores none s p h z same = (refl, refl, inl refl, (refl, refl, refl, refl))
  dump_as-Restores (some output) s p h z same =
      let (handlers, dumpable, ptracer, instance_) =
        restore_lem (record p { instance_ = some s }) h z in
      (handlers, dumpable, ptracer, rw instance_ same)

  dump_instance-Restores :
      (option : Option DumpOption) (i : Option OpencoreImpl) (p : Process A)
      → p.instance_ ≡ i
      → os.takes_dumpable p.dumpable ≡ true
      → os.takes_ptracer 0 ≡ true
      → Restores p (dump_instance os option i p).1
  unfolding dump_instance
  dump_instance-Restores option none p e h z = (refl, refl, inl refl, (refl, refl, refl, refl))
  dump_instance-Restores option (some s) p e h z =
      let (output, base) = dump os.names option s.base in
      dump_as-Restores output (record s { base = base }) p h z (rw e (settings-dump option s))

  -- When `prctl` takes back the value that PR_GET_DUMPABLE gave, and the tracer 0, and whatever it
  -- answers otherwise and is asked for, Dump leaves the signal handlers, that value, and the directory, flags, timeout and
  -- filter as they were, and the process with its former tracer or with none.
  pub dump_option-Restores :
      (option : Option DumpOption) (p : Process A)
      → os.takes_dumpable p.dumpable ≡ true
      → os.takes_ptracer 0 ≡ true
      → let q = (dump_option os option p).1 in
        (q.handlers ≡ p.handlers)
        × (q.dumpable ≡ p.dumpable)
        × ((q.ptracer ≡ p.ptracer) ⊎ (q.ptracer ≡ 0))
        × SameSettings p.instance_ q.instance_
  unfolding dump_option
  dump_option-Restores option p h z = dump_instance-Restores option p.instance_ p refl h z
