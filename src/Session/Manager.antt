-- ===== src/Session/Manager.antt =====
-- packages/session/src/index.ts: `VirtualSessionManager`. A stored session is an object that calls hold
-- across their awaits, also when the map has dropped it: the objects are a list, their positions the
-- references, and `sessions` maps ids to references in the order of insertion. A method that awaits
-- the adapter is cut there: `begin_…` runs up to the call, `finish_…` goes on with the answer, and other
-- calls run in between.
pub mod Promote
pub mod Closing
pub mod Lifetime
pub mod Capacity
pub mod Promotion
mod Tests
use rote.Prelude.{
  ℕ, zero, suc, ◌+◌, String, Option, some, none, Bool, true, false, not, ◌&&◌, ◌||◌, List, [], ◌∷◌,
  ◌++◌, same, leb, ◌==◌, length, select, String-discrete, if◌then◌else◌, Result, ok, err, ◌>>=◌,
}
use rote.Session.EffectFence.{SessionScope}

pub data VirtualSessionMode : Type 0 where
  live shadow : VirtualSessionMode

pub data VirtualSessionStatus : Type 0 where
  active promoted discarded crashed : VirtualSessionStatus

pub record VirtualSessionRef : Type 0 where
  pub session_id : String
  pub mode : VirtualSessionMode
  pub status : VirtualSessionStatus
  pub scope : SessionScope
  pub epoch : ℕ

pub record Base : Type 0 where
  pub live_id : String
  pub live_epoch : ℕ

pub record StoredSession : Type 0 where
  pub ref : VirtualSessionRef
  pub context_id : String
  pub base : Option Base

pub data ErrorCode : Type 0 where
  session_not_found inactive_session stale_context scope_mismatch : ErrorCode
  promotion_failed session_limit : ErrorCode

pub data Operation : Type 0 where
  discard crash promotion : Operation

pub data Rejection : Type 0 where
  stale_context scope_mismatch inactive : Rejection

pub data LifecycleKind : Type 0 where
  opened cloned navigated promoted discarded crashed : LifecycleKind
  promotion_rejected : Rejection → LifecycleKind
  cleanup_failed : Operation → LifecycleKind

pub record LifecycleEvent : Type 0 where
  pub seq : ℕ
  pub kind : LifecycleKind
  pub session_id : String
  pub epoch : ℕ

pub data CleanupStatus : Type 0 where
  completed failed : CleanupStatus

pub record Manager : Type 0 where
  pub objects : List StoredSession
  pub sessions : List (String × ℕ)
  pub events : List LifecycleEvent
  pub next_event : ℕ
  pub max_sessions : ℕ

-- The constructor refuses a cap of 0; 32 is the default.
unfoldable pub new_manager : Option ℕ → Result ErrorCode Manager
new_manager none =
    ok (record { objects = []; sessions = []; events = []; next_event = 0; max_sessions = 32 })
new_manager (some zero) = err session_limit
new_manager (some (suc n)) =
    ok (record { objects = []; sessions = []; events = []; next_event = 0; max_sessions = suc n })

-- The object behind a reference.
abbrev pub object_at : ℕ → List StoredSession → Option StoredSession
object_at h [] = none
object_at zero (o ∷ os) = some o
object_at (suc h) (o ∷ os) = object_at h os

-- Assignments to the fields of an object.
abbrev pub change_at : ℕ → (StoredSession → StoredSession) → List StoredSession → List StoredSession
change_at h f [] = []
change_at zero f (o ∷ os) = f o ∷ os
change_at (suc h) f (o ∷ os) = o ∷ change_at h f os

-- `sessions.get(id)` and `sessions.set(id, …)`.
abbrev pub find_session : String → List (String × ℕ) → Option ℕ
find_session id [] = none
find_session id ((k, h) ∷ ss) = if same String-discrete k id then some h else find_session id ss

abbrev pub set_session : String → ℕ → List (String × ℕ) → List (String × ℕ)
set_session id h [] = (id, h) ∷ []
set_session id h ((k, g) ∷ ss) =
    if same String-discrete k id then (k, h) ∷ ss else (k, g) ∷ set_session id h ss

abbrev pub is_active : VirtualSessionStatus → Bool
is_active active = true
is_active _ = false

abbrev pub is_live : VirtualSessionMode → Bool
is_live live = true
is_live shadow = false

unfoldable pub emit : LifecycleKind → String → ℕ → Manager → Manager
emit k id epoch m = record m {
  events = m.events ++ record { seq = m.next_event; kind = k; session_id = id; epoch = epoch } ∷ [];
  next_event = m.next_event + 1;
}

unfoldable pub change : ℕ → (StoredSession → StoredSession) → Manager → Manager
change h f m = record m { objects = change_at h f m.objects }

-- A reference that the manager holds.
pub record Held : Type 0 where
  pub handle : ℕ
  pub object : StoredSession

abbrev pub held_active : ℕ → Option StoredSession → Result ErrorCode Held
held_active h none = err session_not_found
held_active h (some o) =
    if is_active o.ref.status then ok (record { handle = h; object = o }) else err inactive_session

unfoldable pub require_active : String → Manager → Result ErrorCode Held
require_active id m = elim (find_session id m.sessions) [
  | none ↦ err session_not_found
  | some h ↦ held_active h (object_at h m.objects)
]

unfoldable pub has_capacity : Manager → Bool
has_capacity m = not (leb m.max_sessions (length m.sessions))

-- A new object, and its id in the map: an entry of that id is replaced.
unfoldable pub store : LifecycleKind → StoredSession → Manager → Manager
unfolding emit
store k o m = emit k o.ref.session_id o.ref.epoch (record m {
  objects = m.objects ++ o ∷ [];
  sessions = set_session o.ref.session_id (length m.objects) m.sessions;
})

-- `openLive` up to `createContext`; a scope that the schema rejects throws before.
unfoldable pub begin_open : Manager → Result ErrorCode (Unit {0})
unfolding has_capacity
begin_open m = if has_capacity m then ok tt else err session_limit

abbrev pub new_ref : String → VirtualSessionMode → SessionScope → ℕ → VirtualSessionRef
new_ref id mode scope epoch = record {
  session_id = id;
  mode = mode;
  status = active;
  scope = scope;
  epoch = epoch;
}

unfoldable pub finish_open : String → SessionScope → String → Manager → Manager
unfolding store
finish_open id scope context m =
    store opened (record { ref = new_ref id live scope 0; context_id = context; base = none }) m

abbrev pub live_with_capacity : Manager → Held → Result ErrorCode Held
unfolding has_capacity
live_with_capacity m l =
    if not (is_live l.object.ref.mode)
    then err scope_mismatch
    else if has_capacity m
    then ok l
    else err session_limit

-- `cloneShadow` up to `captureStorageState`.
unfoldable pub begin_clone : String → Manager → Result ErrorCode Held
unfolding require_active live_with_capacity has_capacity
begin_clone live_id m = require_active live_id m >>= live_with_capacity m

-- Its end: the live session is read again, by the reference.
unfoldable pub finish_clone : String → ℕ → String → String → Manager → Manager
unfolding store
finish_clone live_id h id context m = elim (object_at h m.objects) [
  | none ↦ m
  | some l ↦
      store cloned
        (record {
          ref = new_ref id shadow l.ref.scope l.ref.epoch;
          context_id = context;
          base = some (record { live_id = live_id; live_epoch = l.ref.epoch });
        })
        m
]

abbrev pub next_epoch : StoredSession → StoredSession
next_epoch o = record o { ref = record (o.ref) { epoch = o.ref.epoch + 1 } }

abbrev pub with_status : VirtualSessionStatus → StoredSession → StoredSession
with_status s o = record o { ref = record (o.ref) { status = s } }

abbrev pub is_expected : Option ℕ → ℕ → Bool
is_expected none epoch = true
is_expected (some e) epoch = epoch == e

unfoldable pub navigate_held : String → Held → Manager → Manager
unfolding emit change
navigate_held id s m = emit navigated id (s.object.ref.epoch + 1) (change s.handle next_epoch m)

unfoldable pub advance_epoch : String → Option ℕ → Manager → Result ErrorCode Manager
unfolding require_active navigate_held
advance_epoch id expected m = require_active id m >>= λ s.
    if is_expected expected s.object.ref.epoch then ok (navigate_held id s m) else err stale_context

-- `cleanup` from the answer of `disposeContext` on.
abbrev pub status_after : Operation → VirtualSessionStatus
status_after crash = crashed
status_after _ = discarded

abbrev pub kind_after : Operation → LifecycleKind
kind_after crash = crashed
kind_after _ = discarded

abbrev pub epoch_at : ℕ → List StoredSession → ℕ
epoch_at h os = elim (object_at h os) [ none ↦ 0 | some o ↦ o.ref.epoch ]

unfoldable pub finish_cleanup : String → ℕ → Operation → Bool → Manager → CleanupStatus × Manager
unfolding emit change
finish_cleanup id h op true m = (
  completed,
  emit (kind_after op) id (epoch_at h m.objects) (change h (with_status (status_after op)) m),
)
finish_cleanup id h op false m = (failed, emit (cleanup_failed op) id (epoch_at h m.objects) m)

-- `discard` and `crash` up to `disposeContext`.
abbrev pub begin_cleanup : String → Manager → Result ErrorCode Held
begin_cleanup id m = require_active id m
