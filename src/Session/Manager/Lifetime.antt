-- ===== src/Session/Manager/Lifetime.antt =====
-- packages/session/src/index.ts: what every stored session keeps, however the calls overlap.
use rote.Prelude.{
  ℕ, zero, suc, ◌≤◌, String, Option, some, none, Bool, true, false, List, [], ◌∷◌, ◌++◌, Result, ok,
  err, bind_ok, ok_injective, ◌≡◌, refl, sym, subst, ◌∙◌, arith, if_both, ◌==◌, Bool-cases,
  Option-cases, inl, inr, if◌then◌else◌,
}
use rote.Session.EffectFence.{SessionScope}
use rote.Session.Manager.{
  StoredSession, Manager, Held, Operation, crash, discard, promotion, LifecycleKind,
  VirtualSessionStatus, is_active, object_at, change_at, emit, change, store, require_active,
  finish_open, finish_clone, next_epoch, with_status, status_after, is_expected, navigate_held,
  advance_epoch, finish_cleanup, promoted, opened, cloned, ErrorCode, Base, VirtualSessionMode,
  live, shadow,
}
use rote.Session.Manager.Promote.{
  PromoteCall, against_live, promote_attached, promote_held, begin_promote, take_over,
  finish_promote,
}
use rote.Session.Manager.Closing.{evict_inactive}

-- What stays of a session, and what only grows: one that is not active never becomes active again.
pub record Outlives (o u : StoredSession) : Type 0 where
  pub same_id : u.ref.session_id ≡ o.ref.session_id
  pub same_mode : u.ref.mode ≡ o.ref.mode
  pub same_scope : u.ref.scope ≡ o.ref.scope
  pub same_base : u.base ≡ o.base
  pub later : o.ref.epoch ≤ u.ref.epoch
  pub ended : is_active o.ref.status ≡ false → is_active u.ref.status ≡ false

Outlives-refl : (o : StoredSession) → Outlives o o
Outlives-refl o = record {
  same_id = refl;
  same_mode = refl;
  same_scope = refl;
  same_base = refl;
  later = omega arith;
  ended = λ e. e;
}

Outlives-trans : (o u v : StoredSession) → Outlives o u → Outlives u v → Outlives o v
Outlives-trans o u v a b = record {
  same_id = b.same_id ∙ a.same_id;
  same_mode = b.same_mode ∙ a.same_mode;
  same_scope = b.same_scope ∙ a.same_scope;
  same_base = b.same_base ∙ a.same_base;
  later = omega (arith, a.later, b.later);
  ended = λ e. b.ended (a.ended e);
}

-- Every object of the first list is one of the second, at its place, and lives on there.
pub record Lasts (os us : List StoredSession) : Type 0 where
  pub lasts :
      (h : ℕ) (o : StoredSession)
      → object_at h os ≡ some o
      → (u : StoredSession) × (object_at h us ≡ some u) × Outlives o u

Lasts-refl : (os : List StoredSession) → Lasts os os
Lasts-refl os = record { lasts = λ h o e. (o, e, Outlives-refl o) }

pub Lasts-trans : (os us vs : List StoredSession) → Lasts os us → Lasts us vs → Lasts os vs
Lasts-trans os us vs a b = record {
  lasts = λ h o e.
      let (u, eu, ou) = a.lasts h o e in
      let (v, ev, uv) = b.lasts h u eu in (v, ev, Outlives-trans o u v ou uv);
}

changed :
    (f : StoredSession → StoredSession)
    → ((o : StoredSession) → Outlives o (f o))
    → (g h : ℕ) (os : List StoredSession) (o : StoredSession) → object_at h os ≡ some o
    → (u : StoredSession) × (object_at h (change_at g f os) ≡ some u) × Outlives o u
changed f p g h [] o e = absurd cc
changed f p zero zero (x ∷ os) o e = let same_object : x ≡ o = cc in (f o, cc, p o)
changed f p zero (suc h) (x ∷ os) o e = (o, e, Outlives-refl o)
changed f p (suc g) zero (x ∷ os) o e = (o, e, Outlives-refl o)
changed f p (suc g) (suc h) (x ∷ os) o e = changed f p g h os o e

appended :
    (x : StoredSession) (h : ℕ) (os : List StoredSession) (o : StoredSession)
    → object_at h os ≡ some o
    → object_at h (os ++ x ∷ []) ≡ some o
appended x h [] o e = absurd cc
appended x zero (y ∷ os) o e = e
appended x (suc h) (y ∷ os) o e = appended x h os o e

-- One uninterrupted piece of a call.
pub data Step : Manager → Manager → Type 0 where
  opens :
      {m : Manager} (id : String) (scope : SessionScope) (context : String)
      → Step m (finish_open id scope context m)
  clones :
      {m : Manager} (live_id : String) (h : ℕ) (id context : String)
      → Step m (finish_clone live_id h id context m)
  navigates :
      {m u : Manager} (id : String) (expected : Option ℕ)
      → advance_epoch id expected m ≡ ok u
      → Step m u
  asks : {m : Manager} (id : String) → Step m (begin_promote id m).1
  promotes_to :
      {m : Manager} (id : String) (l s : ℕ) (context : String)
      → Step m (finish_promote id l s context m)
  cleans :
      {m : Manager} (id : String) (h : ℕ) (op : Operation) (disposed : Bool)
      → Step m (finish_cleanup id h op disposed m).1
  evicts : {m : Manager} → Step m (evict_inactive m)

pub data Reach (m : Manager) : Manager → Type 0 where
  here : Reach m m
  next : {u v : Manager} → Reach m u → Step u v → Reach m v

change-Lasts :
    (f : StoredSession → StoredSession)
    → ((o : StoredSession) → Outlives o (f o))
    → (g : ℕ) (os : List StoredSession) → Lasts os (change_at g f os)
change-Lasts f p g os = record { lasts = λ h o e. changed f p g h os o e }

store-Lasts :
    (k : LifecycleKind) (x : StoredSession) (m : Manager) → Lasts m.objects (store k x m).objects
unfolding store emit
store-Lasts k x m = record { lasts = λ h o e. (o, appended x h m.objects o e, Outlives-refl o) }

next_epoch-Outlives : (o : StoredSession) → Outlives o (next_epoch o)
next_epoch-Outlives o = record {
  same_id = refl;
  same_mode = refl;
  same_scope = refl;
  same_base = refl;
  later = omega arith;
  ended = λ e. e;
}

take_over-Outlives : (context : String) (o : StoredSession) → Outlives o (take_over context o)
take_over-Outlives context o = record {
  same_id = refl;
  same_mode = refl;
  same_scope = refl;
  same_base = refl;
  later = omega arith;
  ended = λ e. e;
}

with_status-Outlives :
    (s : VirtualSessionStatus)
    → is_active s ≡ false
    → (o : StoredSession) → Outlives o (with_status s o)
with_status-Outlives s e o = record {
  same_id = refl;
  same_mode = refl;
  same_scope = refl;
  same_base = refl;
  later = omega arith;
  ended = λ _. e;
}

status_after_ended : (op : Operation) → is_active (status_after op) ≡ false
status_after_ended discard = refl
status_after_ended crash = refl
status_after_ended promotion = refl

finish_clone-Lasts :
    (live_id : String) (h : ℕ) (id context : String) (m : Manager)
    → Lasts m.objects (finish_clone live_id h id context m).objects
unfolding finish_clone
finish_clone-Lasts live_id h id context m = elim (Option-cases (object_at h m.objects)) [
  | inl e ↦ rw (e, finish_clone) (Lasts-refl m.objects)
  | inr (l, e) ↦ rw (e, finish_clone) (store-Lasts cloned _ m)
]

navigate_held-Lasts :
    (id : String) (s : Held) (m : Manager) → Lasts m.objects (navigate_held id s m).objects
unfolding navigate_held emit change
navigate_held-Lasts id s m = change-Lasts next_epoch next_epoch-Outlives s.handle m.objects

-- An epoch that was advanced.
pub advanced :
    (id : String) (expected : Option ℕ) (m u : Manager)
    → advance_epoch id expected m ≡ ok u
    → (s : Held) × (navigate_held id s m ≡ u)
unfolding advance_epoch
advanced id expected m u e =
    let (s, _, moved) =
      bind_ok (require_active id m)
        (λ s.
          if is_expected expected s.object.ref.epoch
          then ok (navigate_held id s m)
          else err ErrorCode.stale_context)
        u e in
    elim (Bool-cases (is_expected expected s.object.ref.epoch)) [
      | inl good ↦ (s, ok_injective _ u (rw good at moved))
      | inr bad ↦ let threw : err ErrorCode.stale_context ≡ ok u = rw bad at moved in absurd cc
    ]

advance_epoch-Lasts :
    (id : String) (expected : Option ℕ) (m u : Manager)
    → advance_epoch id expected m ≡ ok u
    → Lasts m.objects u.objects
advance_epoch-Lasts id expected m u e =
    let (s, same_manager) = advanced id expected m u e in
    subst (λ v. Lasts m.objects v.objects) same_manager (navigate_held-Lasts id s m)

-- Only the events may differ.
pub record Untouched (m u : Manager) : Type 0 where
  pub objects : u.objects ≡ m.objects
  pub sessions : u.sessions ≡ m.sessions
  pub cap : u.max_sessions ≡ m.max_sessions

Untouched-refl : (m : Manager) → Untouched m m
Untouched-refl m = record { objects = refl; sessions = refl; cap = refl }

emit-Untouched :
    (k : LifecycleKind) (id : String) (epoch : ℕ) (m : Manager) → Untouched m (emit k id epoch m)
unfolding emit
emit-Untouched k id epoch m = record { objects = refl; sessions = refl; cap = refl }

against_live-Untouched :
    (id : String) (s : Held) (b : Base) (m : Manager) (r : Result ErrorCode Held)
    → Untouched m (against_live id s b m r).1
unfolding against_live
against_live-Untouched id s b m (err c) = Untouched-refl m
against_live-Untouched id s b m (ok l) =
    if_both (λ (x : PromoteCall × Manager). Untouched m x.1) (l.object.ref.epoch == b.live_epoch) _
      _ (Untouched-refl m) (emit-Untouched _ id _ m)

promote_attached-Untouched :
    (id : String) (s : Held) (mode : VirtualSessionMode) (b : Option Base) (m : Manager)
    → Untouched m (promote_attached id s mode b m).1
unfolding promote_attached
promote_attached-Untouched id s shadow (some b) m = against_live-Untouched id s b m _
promote_attached-Untouched id s shadow none m = emit-Untouched _ id _ m
promote_attached-Untouched id s live b m = emit-Untouched _ id _ m

promote_held-Untouched :
    (id : String) (m : Manager) (r : Result ErrorCode Held) → Untouched m (promote_held id m r).1
unfolding promote_held
promote_held-Untouched id m (err c) = Untouched-refl m
promote_held-Untouched id m (ok s) =
    promote_attached-Untouched id s s.object.ref.mode s.object.base m

-- Asking for a promotion changes no session.
pub begin_promote-Untouched : (id : String) (m : Manager) → Untouched m (begin_promote id m).1
unfolding begin_promote
begin_promote-Untouched id m = promote_held-Untouched id m (require_active id m)

begin_promote-Lasts : (id : String) (m : Manager) → Lasts m.objects (begin_promote id m).1.objects
begin_promote-Lasts id m =
    subst (Lasts m.objects) (sym ((begin_promote-Untouched id m).objects)) (Lasts-refl m.objects)

finish_cleanup-Lasts :
    (id : String) (h : ℕ) (op : Operation) (disposed : Bool) (m : Manager)
    → Lasts m.objects (finish_cleanup id h op disposed m).1.objects
unfolding finish_cleanup emit change
finish_cleanup-Lasts id h op true m =
    change-Lasts (with_status (status_after op))
      (with_status-Outlives (status_after op) (status_after_ended op)) h m.objects
finish_cleanup-Lasts id h op false m = Lasts-refl m.objects

Step-Lasts : {m u : Manager} → Step m u → Lasts m.objects u.objects
unfolding finish_open emit change finish_promote evict_inactive
Step-Lasts {m = m} (opens id scope context) = store-Lasts opened _ m
Step-Lasts {m = m} (clones live_id h id context) = finish_clone-Lasts live_id h id context m
Step-Lasts {m = m} {u = u} (navigates id expected e) = advance_epoch-Lasts id expected m u e
Step-Lasts {m = m} (asks id) = begin_promote-Lasts id m
Step-Lasts {m = m} (promotes_to id l s context) =
    Lasts-trans m.objects _ _
      (change-Lasts (take_over context) (take_over-Outlives context) l m.objects)
      (change-Lasts (with_status promoted) (with_status-Outlives promoted refl) s _)
Step-Lasts {m = m} (cleans id h op disposed) = finish_cleanup-Lasts id h op disposed m
Step-Lasts {m = m} evicts = Lasts-refl m.objects

-- However calls overlap, every stored session keeps its id, mode, scope and base, its epoch never
-- falls, and once it was promoted, discarded or crashed it never is active again.
pub Reach-Lasts : {m u : Manager} → Reach m u → Lasts m.objects u.objects
Reach-Lasts {m = m} here = Lasts-refl m.objects
Reach-Lasts (next r s) = Lasts-trans _ _ _ (Reach-Lasts r) (Step-Lasts s)
