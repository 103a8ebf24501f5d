-- ===== src/Process.antt =====
-- The process that the library is in: the static functions of class Opencore
-- (opencore/src/main/cpp/opencore/opencore.cpp) over the one object that GetInstance returns, but for
-- SetTimeout, which Opencore/DumpName has.
pub mod Child
pub mod Frame
pub mod Attached
pub mod Ends
pub mod Ignored
pub mod Crash
pub mod Whole
use open_core_sdk.Prelude.{ℕ, List, [], Option, none, some}
use open_core_sdk.Opencore.{Opencore, def_timeout, filter_none}
use open_core_sdk.Lp.{OpencoreImpl}
use mathlib.Core.Option

-- A member function on the object, if GetInstance returns one.
unfoldable pub on_instance : (Opencore → Opencore) → Option OpencoreImpl → Option OpencoreImpl
on_instance f instance_ = Option.map (λ (s : OpencoreImpl). record s { base = f s.base }) instance_

-- Opencore::SetDir.
unfoldable pub set_dir : List ℕ → Option OpencoreImpl → Option OpencoreImpl
set_dir d = on_instance (λ (s : Opencore). record s { dir = d })

-- Opencore::SetCallback.
unfoldable pub set_callback : ℕ → Option OpencoreImpl → Option OpencoreImpl
set_callback callback = on_instance (λ (s : Opencore). record s { cb = some callback })

-- Opencore::SetFlag.
unfoldable pub set_flag : ℕ → Option OpencoreImpl → Option OpencoreImpl
set_flag f = on_instance (λ (s : Opencore). record s { flag = f })

-- Opencore::SetFilter.
unfoldable pub set_filter : ℕ → Option OpencoreImpl → Option OpencoreImpl
set_filter f = on_instance (λ (s : Opencore). record s { filter = f })

-- Opencore::GetDir.
unfoldable pub get_dir : Option OpencoreImpl → List ℕ
get_dir none = []
get_dir (some s) = s.dir

-- Opencore::GetFlag.
unfoldable pub get_flag : Option OpencoreImpl → ℕ
get_flag none = 0
get_flag (some s) = s.flag

-- Opencore::GetTimeout.
unfoldable pub get_timeout : Option OpencoreImpl → ℕ
get_timeout none = def_timeout
get_timeout (some s) = s.timeout

-- Opencore::GetFilter.
unfoldable pub get_filter : Option OpencoreImpl → ℕ
get_filter none = filter_none
get_filter (some s) = s.filter
