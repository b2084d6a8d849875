-- ===== src/Session/Manager/Capacity.antt =====
-- packages/session/src/index.ts: the cap on the sessions of a manager.
use rote.Prelude.{
  ℕ, ◌+◌, ◌≤◌, ◌<◌, String, Option, some, none, Bool, true, false, List, [], ◌∷◌, ◌++◌, same,
  same_iff, leb, length, select, String-discrete, ok, err, bind_ok, ◌≡◌, ◌≢◌, refl, ap, subst,
  arith, Bool-cases, Option-cases, inl, inr,
}
use rote.Session.EffectFence.{SessionScope}
use rote.Session.Manager.{
  StoredSession, Manager, Operation, LifecycleKind, opened, cloned, object_at, find_session,
  set_session, emit, change, store, has_capacity, begin_open, finish_open, begin_clone,
  finish_clone, session_limit, live_with_capacity, require_active, Held, is_live, new_ref, live,
  shadow, scope_mismatch, advance_epoch, navigate_held, finish_cleanup,
}
use rote.Session.Manager.Promote.{begin_promote, finish_promote}
use rote.Session.Manager.Closing.{entry_is_active, evict_inactive}
use rote.Session.Manager.Lifetime.{advanced, begin_promote-Untouched}

length-set_session :
    (id : String) (h : ℕ) (ss : List (String × ℕ)) → length (set_session id h ss) ≤ length ss + 1
length-set_session id h [] = omega arith
length-set_session id h ((k, g) ∷ ss) = ground (arith, length-set_session id h ss)

-- An id that the map does not have makes it longer.
length-set_new :
    (id : String) (h : ℕ) (ss : List (String × ℕ))
    → find_session id ss ≡ none
    → length (set_session id h ss) ≡ length ss + 1
length-set_new id h [] e = refl
length-set_new id h ((k, g) ∷ ss) e = elim (Bool-cases (same String-discrete k id)) [
  | inl t ↦ let found : some g ≡ none = rw t at e in absurd cc
  | inr f ↦ rw f (omega (arith, length-set_new id h ss (rw f at e)))
]

find-set_other :
    (id other : String) (h : ℕ) (ss : List (String × ℕ))
    → id ≢ other
    → find_session other ss ≡ none
    → find_session other (set_session id h ss) ≡ none
find-set_other id other h [] ne e = ground (arith, same_iff String-discrete id other)
find-set_other id other h ((k, g) ∷ ss) ne e = ground (
  arith,
  same_iff String-discrete k id,
  same_iff String-discrete k other,
  same_iff String-discrete id other,
  find-set_other id other h ss,
)

abbrev pub IsWithin : Manager → Type 0
IsWithin m = length m.sessions ≤ m.max_sessions

has_capacity-lt : (m : Manager) → has_capacity m ≡ true → length m.sessions < m.max_sessions
unfolding has_capacity
has_capacity-lt m e = ground arith

begin_open-lt : (m : Manager) → begin_open m ≡ ok tt → length m.sessions < m.max_sessions
unfolding begin_open
begin_open-lt m e = elim (Bool-cases (has_capacity m)) [
  | inl c ↦ has_capacity-lt m c
  | inr c ↦ let threw : err session_limit ≡ ok tt = rw c at e in absurd cc
]

store-IsWithin :
    (k : LifecycleKind) (o : StoredSession) (m : Manager)
    → length m.sessions < m.max_sessions
    → IsWithin (store k o m)
unfolding store emit
store-IsWithin k o m h =
    omega (arith, length-set_session o.ref.session_id (length m.objects) m.sessions)

-- Two calls of `openLive` whose capacity was checked before either had its context: each was let in,
-- and where one slot was free and the ids are new the manager ends above its cap.
pub opens_overrun :
    (m : Manager) (a b c d : String) (scope : SessionScope)
    → length m.sessions + 1 ≡ m.max_sessions
    → a ≢ b
    → find_session a m.sessions ≡ none
    → find_session b m.sessions ≡ none
    → (begin_open m ≡ ok tt)
      × (length (finish_open b scope d (finish_open a scope c m)).sessions ≡ m.max_sessions + 1)
unfolding begin_open has_capacity finish_open store emit
opens_overrun m a b c d scope full ne fa fb =
    let allowed : leb m.max_sessions (length m.sessions) ≡ false = ground arith in
    (
      rw allowed refl,
      omega (
        arith,
        length-set_new a (length m.objects) m.sessions fa,
        length-set_new b (length (m.objects ++ _ ∷ []))
            (set_session a (length m.objects) m.sessions)
            (find-set_other a b (length m.objects) m.sessions ne fb),
      ),
    )

-- A call that no other overlaps.
pub data Call : Manager → Manager → Type 0 where
  opens :
      {m : Manager} (id : String) (scope : SessionScope) (context : String)
      → begin_open m ≡ ok tt
      → Call m (finish_open id scope context m)
  clones :
      {m : Manager} (live_id : String) (l : Held) (id context : String)
      → begin_clone live_id m ≡ ok l
      → Call m (finish_clone live_id l.handle id context m)
  navigates :
      {m u : Manager} (id : String) (expected : Option ℕ)
      → advance_epoch id expected m ≡ ok u
      → Call m u
  asks : {m : Manager} (id : String) → Call m (begin_promote id m).1
  promotes_to :
      {m : Manager} (id : String) (l s : ℕ) (context : String)
      → Call m (finish_promote id l s context m)
  cleans :
      {m : Manager} (id : String) (h : ℕ) (op : Operation) (disposed : Bool)
      → Call m (finish_cleanup id h op disposed m).1
  evicts : {m : Manager} → Call m (evict_inactive m)

pub data Calls (m : Manager) : Manager → Type 0 where
  here : Calls m m
  next : {u v : Manager} → Calls m u → Call u v → Calls m v

begin_clone-lt :
    (live_id : String) (m : Manager) (l : Held)
    → begin_clone live_id m ≡ ok l
    → length m.sessions < m.max_sessions
unfolding begin_clone live_with_capacity
begin_clone-lt live_id m l e =
    let (h, _, fits) = bind_ok (require_active live_id m) (live_with_capacity m) l e in
    elim (Bool-cases (is_live h.object.ref.mode)) [
      | inl good ↦ elim (Bool-cases (has_capacity m)) [
        | inl c ↦ has_capacity-lt m c
        | inr c ↦ let threw : err session_limit ≡ ok l = rw (good, c) at fits in absurd cc
      ]
      | inr bad ↦ let threw : err scope_mismatch ≡ ok l = rw bad at fits in absurd cc
    ]

finish_clone-IsWithin :
    (live_id : String) (h : ℕ) (id context : String) (m : Manager)
    → length m.sessions < m.max_sessions
    → IsWithin (finish_clone live_id h id context m)
unfolding finish_clone
finish_clone-IsWithin live_id h id context m lt = elim (Option-cases (object_at h m.objects)) [
  | inl e ↦ rw (e, finish_clone) (omega arith)
  | inr (l, e) ↦
      rw (e, finish_clone)
        (store-IsWithin cloned
          (record {
            ref = new_ref id shadow l.ref.scope l.ref.epoch;
            context_id = context;
            base = some (record { live_id = live_id; live_epoch = l.ref.epoch });
          })
          m lt)
]

length-select : {A : Type 0} (p : A → Bool) (xs : List A) → length (select p xs) ≤ length xs
length-select p [] = omega arith
length-select p (x ∷ xs) = ground (arith, length-select p xs)

navigate_held-IsWithin :
    (id : String) (s : Held) (m : Manager) → IsWithin m → IsWithin (navigate_held id s m)
unfolding navigate_held emit change
navigate_held-IsWithin id s m i = i

finish_cleanup-IsWithin :
    (id : String) (h : ℕ) (op : Operation) (b : Bool) (m : Manager)
    → IsWithin m
    → IsWithin (finish_cleanup id h op b m).1
unfolding finish_cleanup emit change
finish_cleanup-IsWithin id h op true m i = i
finish_cleanup-IsWithin id h op false m i = i

Call-IsWithin : {m u : Manager} → Call m u → IsWithin m → IsWithin u
unfolding finish_open finish_promote emit change evict_inactive
Call-IsWithin {m = m} (opens id scope context e) i =
    store-IsWithin opened
      (record { ref = new_ref id live scope 0; context_id = context; base = none }) m
      (begin_open-lt m e)
Call-IsWithin {m = m} (clones live_id l id context e) i =
    finish_clone-IsWithin live_id l.handle id context m (begin_clone-lt live_id m l e)
Call-IsWithin {m = m} {u = u} (navigates id expected e) i =
    let (s, same_manager) = advanced id expected m u e in
    subst IsWithin same_manager (navigate_held-IsWithin id s m i)
Call-IsWithin {m = m} (asks id) i =
    let q = begin_promote-Untouched id m in omega (arith, i, ap length q.sessions, q.cap)
Call-IsWithin (promotes_to id l s context) i = i
Call-IsWithin {m = m} (cleans id h op disposed) i = finish_cleanup-IsWithin id h op disposed m i
Call-IsWithin {m = m} evicts i =
    omega (arith, i, length-select (entry_is_active m.objects) m.sessions)

-- While no two calls overlap, the map never holds more sessions than the cap.
pub Calls-IsWithin : {m u : Manager} → Calls m u → IsWithin m → IsWithin u
Calls-IsWithin here i = i
Calls-IsWithin (next cs c) i = Call-IsWithin c (Calls-IsWithin cs i)
