-- ===== src/Sdk/Protocol.antt =====
-- doCoredump, the two handlers and the callback of class Coredump
-- (opencore/src/main/java/penguin/opencore/sdk/Coredump.java), as steps of three threads: the one in
-- doCoredump, which holds the monitor of the object; the handler's, which runs nativeCoredump and
-- waits in it for the thread of callbackEvent; and the post handler's, which runs the listener.
-- A read and write of `mCondition` is one step.
pub mod Turns
pub mod Laws
use open_core_sdk.Prelude.{
  ℕ, suc, Bool, true, false, ◌&&◌, List, [], ◌∷◌, ◌++◌, Option, none, some, ◌≡◌, if◌then◌else◌,
}

-- Where the thread in doCoredump stands, with the number of the call: in front of sendEvent, or in
-- waitCore.
pub data Caller : Type 0 where
  outside : Caller
  cleared : ℕ → Caller
  waiting : ℕ → Caller

-- The handler's thread and that of callbackEvent: waiting for a message; in nativeCoredump before
-- the callback; in doCompleted, in front of sendEvent there, in waitCompleted; in nativeCoredump
-- behind the callback; in front of notifyCore.
pub data Work : Type 0 where
  resting : Work
  dumping : ℕ → Work
  completing : ℕ → Work
  posting : ℕ → Work
  awaiting : ℕ → Work
  returning : ℕ → Work
  notifying : ℕ → Work

-- The post handler's thread: waiting for a message, in the listener, in front of notifyCompleted.
pub data Post : Type 0 where
  free : Post
  listening : ℕ → Post
  listened : ℕ → Post

-- `coredumped` and `completed` are the bits of `mCondition`. `dumps` are the calls whose
-- nativeCoredump has returned, and `returns` those that have returned, with the result, the last one
-- first.
pub record Sdk : Type 0 where
  pub coredumped : Bool
  pub completed : Bool
  pub caller : Caller
  pub work : Work
  pub post : Post
  pub work_queue : List ℕ
  pub post_queue : List ℕ
  pub dumps : List ℕ
  pub returns : List (ℕ × Bool)
  pub requests : ℕ

-- `sReady`; whether `mListener` is set; whether the listener calls a synchronized method of the
-- object; whether the thread in waitCore may be interrupted.
pub record Config : Type 0 where
  pub ready : Bool
  pub listener : Bool
  pub synchronized : Bool
  pub interruptible : Bool

pub data Action : Type 0 where
  call : Action
  send : Action
  wake : Action
  interrupt : Action
  take_work : Action
  call_back : Action
  clear_completed : Action
  send_completed : Action
  wake_callback : Action
  native_returns : Action
  notify_core : Action
  take_post : Action
  run_listener : Action
  notify_completed : Action

-- doCoredump up to `mCondition &= ~COREDUMPED`.
unfoldable pub on_call : Bool → Caller → Sdk → Option Sdk
on_call true outside s =
    some (record s { caller = cleared s.requests; requests = suc s.requests; coredumped = false })
on_call false outside s =
    some (record s { returns = (s.requests, false) ∷ s.returns; requests = suc s.requests })
on_call ready (cleared n) s = none
on_call ready (waiting n) s = none

unfoldable pub on_send : Caller → Sdk → Option Sdk
on_send outside s = none
on_send (cleared n) s =
    some (record s { caller = waiting n; work_queue = s.work_queue ++ (n ∷ []) })
on_send (waiting n) s = none

-- waitCore, which leaves the loop when the bit is set.
unfoldable pub on_wake : Bool → Caller → Sdk → Option Sdk
on_wake coredumped outside s = none
on_wake coredumped (cleared n) s = none
on_wake false (waiting n) s = none
on_wake true (waiting n) s = some (record s { caller = outside; returns = (n, true) ∷ s.returns })

-- The InterruptedException in waitCore.
unfoldable pub on_interrupt : Bool → Caller → Sdk → Option Sdk
on_interrupt interruptible outside s = none
on_interrupt interruptible (cleared n) s = none
on_interrupt false (waiting n) s = none
on_interrupt true (waiting n) s =
    some (record s { caller = outside; returns = (n, false) ∷ s.returns })

-- handleMessage of the handler. When the class is not ready it goes to notifyCore.
unfoldable pub on_take_work : Bool → Work → List ℕ → Sdk → Option Sdk
on_take_work ready resting [] s = none
on_take_work ready resting (n ∷ queue) s =
    some (record s { work = if ready then dumping n else notifying n; work_queue = queue })
on_take_work ready (dumping n) queue s = none
on_take_work ready (completing n) queue s = none
on_take_work ready (posting n) queue s = none
on_take_work ready (awaiting n) queue s = none
on_take_work ready (returning n) queue s = none
on_take_work ready (notifying n) queue s = none

-- nativeCoredump calls callbackEvent, in a thread that it waits for.
unfoldable pub on_call_back : Work → Sdk → Option Sdk
on_call_back resting s = none
on_call_back (dumping n) s = some (record s { work = completing n })
on_call_back (completing n) s = none
on_call_back (posting n) s = none
on_call_back (awaiting n) s = none
on_call_back (returning n) s = none
on_call_back (notifying n) s = none

-- doCompleted up to `mCondition &= ~COREDUMP_COMPLETED`; without a listener it returns.
unfoldable pub on_clear_completed : Bool → Work → Sdk → Option Sdk
on_clear_completed listener resting s = none
on_clear_completed listener (dumping n) s = none
on_clear_completed true (completing n) s = some (record s { work = posting n; completed = false })
on_clear_completed false (completing n) s = some (record s { work = returning n })
on_clear_completed listener (posting n) s = none
on_clear_completed listener (awaiting n) s = none
on_clear_completed listener (returning n) s = none
on_clear_completed listener (notifying n) s = none

unfoldable pub on_send_completed : Work → Sdk → Option Sdk
on_send_completed resting s = none
on_send_completed (dumping n) s = none
on_send_completed (completing n) s = none
on_send_completed (posting n) s =
    some (record s { work = awaiting n; post_queue = s.post_queue ++ (n ∷ []) })
on_send_completed (awaiting n) s = none
on_send_completed (returning n) s = none
on_send_completed (notifying n) s = none

-- waitCompleted.
unfoldable pub on_wake_callback : Bool → Work → Sdk → Option Sdk
on_wake_callback completed resting s = none
on_wake_callback completed (dumping n) s = none
on_wake_callback completed (completing n) s = none
on_wake_callback completed (posting n) s = none
on_wake_callback true (awaiting n) s = some (record s { work = returning n })
on_wake_callback false (awaiting n) s = none
on_wake_callback completed (returning n) s = none
on_wake_callback completed (notifying n) s = none

-- nativeCoredump returns, with its callback or without one.
unfoldable pub on_native_returns : Work → Sdk → Option Sdk
on_native_returns resting s = none
on_native_returns (dumping n) s = some (record s { work = notifying n; dumps = n ∷ s.dumps })
on_native_returns (completing n) s = none
on_native_returns (posting n) s = none
on_native_returns (awaiting n) s = none
on_native_returns (returning n) s = some (record s { work = notifying n; dumps = n ∷ s.dumps })
on_native_returns (notifying n) s = none

-- notifyCore.
unfoldable pub on_notify_core : Work → Sdk → Option Sdk
on_notify_core resting s = none
on_notify_core (dumping n) s = none
on_notify_core (completing n) s = none
on_notify_core (posting n) s = none
on_notify_core (awaiting n) s = none
on_notify_core (returning n) s = none
on_notify_core (notifying n) s = some (record s { work = resting; coredumped = true })

-- handleMessage of the post handler.
unfoldable pub on_take_post : Post → List ℕ → Sdk → Option Sdk
on_take_post free [] s = none
on_take_post free (n ∷ queue) s = some (record s { post = listening n; post_queue = queue })
on_take_post (listening n) queue s = none
on_take_post (listened n) queue s = none

-- Whether a thread is in doCoredump, with the monitor.
unfoldable pub holds_monitor : Caller → Bool
holds_monitor outside = false
holds_monitor (cleared n) = true
holds_monitor (waiting n) = true

-- onCompleted of the listener, which has to take the monitor if it calls a synchronized method.
unfoldable pub on_run_listener : Bool → Post → Sdk → Option Sdk
on_run_listener blocked free s = none
on_run_listener true (listening n) s = none
on_run_listener false (listening n) s = some (record s { post = listened n })
on_run_listener blocked (listened n) s = none

-- notifyCompleted.
unfoldable pub on_notify_completed : Post → Sdk → Option Sdk
on_notify_completed free s = none
on_notify_completed (listening n) s = none
on_notify_completed (listened n) s = some (record s { post = free; completed = true })

-- One step of one thread; `none` where that thread is not there, or cannot go on.
unfoldable pub step : Config → Action → Sdk → Option Sdk
unfolding on_call on_send on_wake on_interrupt on_take_work on_call_back on_clear_completed
    on_send_completed on_wake_callback on_native_returns on_notify_core on_take_post holds_monitor
    on_run_listener on_notify_completed
step c call s = on_call c.ready s.caller s
step c send s = on_send s.caller s
step c wake s = on_wake s.coredumped s.caller s
step c interrupt s = on_interrupt c.interruptible s.caller s
step c take_work s = on_take_work c.ready s.work s.work_queue s
step c call_back s = on_call_back s.work s
step c clear_completed s = on_clear_completed c.listener s.work s
step c send_completed s = on_send_completed s.work s
step c wake_callback s = on_wake_callback s.completed s.work s
step c native_returns s = on_native_returns s.work s
step c notify_core s = on_notify_core s.work s
step c take_post s = on_take_post s.post s.post_queue s
step c run_listener s = on_run_listener (c.synchronized && holds_monitor s.caller) s.post s
step c notify_completed s = on_notify_completed s.post s

-- Before the first call of doCoredump.
abbrev pub init : Sdk
init = record {
  coredumped = false;
  completed = false;
  caller = outside;
  work = resting;
  post = free;
  work_queue = [];
  post_queue = [];
  dumps = [];
  returns = [];
  requests = 0;
}

-- The states that the threads come to, in any order of their steps.
pub data Reach (c : Config) : Sdk → Type 0 where
  start : Reach c init
  next : {s t : Sdk} → Reach c s → (a : Action) → step c a s ≡ some t → Reach c t
