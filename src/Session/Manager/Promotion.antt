-- ===== src/Session/Manager/Promotion.antt =====
-- packages/session/src/index.ts: `promote`, for which shadows it goes on and how often.
use rote.Prelude.{
  ℕ, zero, suc, ◌+◌, ◌<◌, String, Option, some, none, true, List, [], ◌∷◌, Result, ok, err,
  ok_injective, ◌≡◌, refl, sym, ap, subst, ◌∙◌, arith, ◌==◌, Bool-cases, Option-cases, inl, inr,
  ==_iff,
}
use rote.Session.Manager.Lifetime.{Reach, Reach-Lasts}
use rote.Session.Manager.{
  StoredSession, Manager, Held, VirtualSessionStatus, VirtualSessionMode, live, shadow, is_active,
  object_at, find_session, emit, require_active, held_active, with_status, promoted, change_at,
  change, ErrorCode, session_not_found, inactive_session, Base,
}
use rote.Session.Manager.Promote.{
  refused, stale, promotes, against_live, promote_attached, promote_held, begin_promote,
  finish_promote, take_over,
}

-- An active session of the manager, and where it is.
pub record IsHeld (id : String) (m : Manager) (s : Held) : Type 0 where
  pub found : find_session id m.sessions ≡ some s.handle
  pub is_there : object_at s.handle m.objects ≡ some s.object
  pub running : is_active s.object.ref.status ≡ true

pub require_active-IsHeld :
    (id : String) (m : Manager) (s : Held) → require_active id m ≡ ok s → IsHeld id m s
unfolding require_active
require_active-IsHeld id m s e = elim (Option-cases (find_session id m.sessions)) [
  | inl missing ↦
      let threw : err session_not_found ≡ ok s = rw (missing, require_active) at e in absurd cc
  | inr (h, f) ↦
      let held : held_active h (object_at h m.objects) ≡ ok s = rw (f, require_active) at e in
      elim (Option-cases (object_at h m.objects)) [
        | inl missing ↦ let threw : err session_not_found ≡ ok s = rw missing at held in absurd cc
        | inr (o, there) ↦ elim (Bool-cases (is_active o.ref.status)) [
          | inl a ↦
              let same_held : ok (record { handle = h; object = o }) ≡ ok s =
                rw (there, a) at held in
              subst (IsHeld id m) (ok_injective _ s same_held)
                (record { found = f; is_there = there; running = a })
          | inr a ↦ let threw : err inactive_session ≡ ok s = rw (there, a) at held in absurd cc
        ]
      ]
]

-- A shadow and the live session whose epoch it was cloned at.
pub record IsAttached (id : String) (m : Manager) (l s : Held) : Type 0 where
  pub shadow_held : IsHeld id m s
  pub is_shadow : s.object.ref.mode ≡ shadow
  pub cloned_from : Base
  pub from : s.object.base ≡ some cloned_from
  pub live_held : IsHeld (cloned_from.live_id) m l
  pub unmoved : l.object.ref.epoch ≡ cloned_from.live_epoch

against_live-IsAttached :
    (id : String) (s : Held) (b : Base) (m : Manager) (l t : Held)
    → IsHeld id m s
    → s.object.ref.mode ≡ shadow
    → s.object.base ≡ some b
    → (r : Result ErrorCode Held) → require_active b.live_id m ≡ r
    → (against_live id s b m r).0 ≡ promotes l t
    → IsAttached id m l t
unfolding against_live
against_live-IsAttached id s b m l t held is_s from (err c) e p =
    let other : refused c ≡ promotes l t = p in absurd cc
against_live-IsAttached id s b m l t held is_s from (ok k) e p =
    elim (Bool-cases (k.object.ref.epoch == b.live_epoch)) [
      | inl same_epoch ↦
          let it : promotes k s ≡ promotes l t = rw same_epoch at p in
          let same_live : k ≡ l = cc in
          let same_shadow : s ≡ t = cc in
          subst (λ x. IsAttached id m x t) same_live
            (subst (IsAttached id m k) same_shadow (record {
              shadow_held = held;
              is_shadow = is_s;
              cloned_from = b;
              from = from;
              live_held = require_active-IsHeld b.live_id m k e;
              unmoved = (==_iff k.object.ref.epoch b.live_epoch).0 same_epoch;
            }))
      | inr other_epoch ↦ let other : stale s ≡ promotes l t = rw other_epoch at p in absurd cc
    ]

promote_attached-IsAttached :
    (id : String) (s : Held) (mode : VirtualSessionMode) (base : Option Base) (m : Manager)
    (l t : Held)
    → IsHeld id m s
    → s.object.ref.mode ≡ mode
    → s.object.base ≡ base
    → (promote_attached id s mode base m).0 ≡ promotes l t
    → IsAttached id m l t
unfolding promote_attached
promote_attached-IsAttached id s shadow (some b) m l t held is_s from p =
    against_live-IsAttached id s b m l t held is_s from (require_active b.live_id m) refl p
promote_attached-IsAttached id s shadow none m l t held is_s from p =
    let other : refused ErrorCode.scope_mismatch ≡ promotes l t = p in absurd cc
promote_attached-IsAttached id s live base m l t held is_s from p =
    let other : refused ErrorCode.scope_mismatch ≡ promotes l t = p in absurd cc

promote_held-IsAttached :
    (id : String) (m : Manager) (l s : Held) (r : Result ErrorCode Held)
    → require_active id m ≡ r
    → (promote_held id m r).0 ≡ promotes l s
    → IsAttached id m l s
unfolding promote_held
promote_held-IsAttached id m l s (err c) e p = let other : refused c ≡ promotes l s = p in absurd cc
promote_held-IsAttached id m l s (ok t) e p =
    promote_attached-IsAttached id t t.object.ref.mode t.object.base m l s
      (require_active-IsHeld id m t e) refl refl p

-- A promotion goes on only of an active shadow whose live session is active, in the manager, and at
-- the epoch that the shadow was cloned at.
pub promote-IsAttached :
    (id : String) (m : Manager) (l s : Held)
    → (begin_promote id m).0 ≡ promotes l s
    → IsAttached id m l s
unfolding begin_promote
promote-IsAttached id m l s p = promote_held-IsAttached id m l s (require_active id m) refl p

changed_at :
    (h : ℕ) (f : StoredSession → StoredSession) (os : List StoredSession) (o : StoredSession)
    → object_at h os ≡ some o
    → object_at h (change_at h f os) ≡ some (f o)
changed_at h f [] o e = absurd cc
changed_at zero f (x ∷ os) o e = let same_object : x ≡ o = cc in ap (λ y. some (f y)) same_object
changed_at (suc h) f (x ∷ os) o e = changed_at h f os o e

-- A change of another object that keeps the epochs.
epoch_kept :
    (h g : ℕ) (s : VirtualSessionStatus) (os : List StoredSession) (o : StoredSession)
    → object_at h os ≡ some o
    → (u : StoredSession) × (object_at h (change_at g (with_status s) os) ≡ some u)
      × (u.ref.epoch ≡ o.ref.epoch)
      × (u.context_id ≡ o.context_id)
epoch_kept h g s [] o e = absurd cc
epoch_kept zero zero s (x ∷ os) o e =
    let same_object : x ≡ o = cc in
    (with_status s x, refl, ap (λ y. y.ref.epoch) same_object, ap (λ y. y.context_id) same_object)
epoch_kept zero (suc g) s (x ∷ os) o e = (o, e, refl, refl)
epoch_kept (suc h) zero s (x ∷ os) o e = (o, e, refl, refl)
epoch_kept (suc h) (suc g) s (x ∷ os) o e = epoch_kept h g s os o e

-- The live session after a promotion.
finish_promote_live :
    (id : String) (l s : ℕ) (context : String) (m : Manager) (o : StoredSession)
    → object_at l m.objects ≡ some o
    → (u : StoredSession) × (object_at l (finish_promote id l s context m).objects ≡ some u)
      × (u.ref.epoch ≡ o.ref.epoch + 1)
      × (u.context_id ≡ context)
unfolding finish_promote change emit
finish_promote_live id l s context m o e =
    epoch_kept l s promoted (change_at l (take_over context) m.objects) (take_over context o)
      (changed_at l (take_over context) m.objects o e)

-- However calls overlap, a promotion onto a live session that is asked for after another of the same
-- session has ended goes on only for a shadow of a later epoch than the first one's.
pub promotes_later :
    {m u v : Manager} (a b : String) (l s k t : Held) (context : String)
    → (first : (begin_promote a m).0 ≡ promotes l s) → Reach m u
    → Reach (finish_promote a l.handle s.handle context u) v
    → (second : (begin_promote b v).0 ≡ promotes k t) → k.handle ≡ l.handle
    → (promote-IsAttached a m l s first).cloned_from.live_epoch
      < (promote-IsAttached b v k t second).cloned_from.live_epoch
promotes_later {m = m} {u = u} {v = v} a b l s k t context first before after second same_live =
    let p = promote-IsAttached a m l s first in
    let q = promote-IsAttached b v k t second in
    let (o, is_o, lives_o) = (Reach-Lasts before).lasts l.handle l.object p.live_held.is_there in
    let (w, is_w, epoch_w, _) = finish_promote_live a l.handle s.handle context u o is_o in
    let (x, is_x, lives_x) = (Reach-Lasts after).lasts l.handle w is_w in
    let there : some k.object ≡ some x =
      sym q.live_held.is_there ∙ ap (λ h. object_at h v.objects) same_live ∙ is_x in
    let same_object : k.object ≡ x = cc in
    omega (
      arith,
      p.unmoved,
      q.unmoved,
      lives_o.later,
      epoch_w,
      lives_x.later,
      ap (λ y. y.ref.epoch) same_object,
    )

-- Two shadows whose promotions were both let in before either ended: the second's context replaces
-- the first's, and the live session's epoch moves on twice.
pub promotions_overlap :
    (m : Manager) (a b : String) (l s t : Held) (c d : String)
    → (first : (begin_promote a m).0 ≡ promotes l s)
    → (second : (begin_promote b (begin_promote a m).1).0 ≡ promotes l t)
    → (u : StoredSession) × (object_at l.handle
          (finish_promote b l.handle t.handle d
            (finish_promote a l.handle s.handle c (begin_promote a m).1)).objects
        ≡ some u)
      × (u.ref.epoch ≡ l.object.ref.epoch + 2)
      × (u.context_id ≡ d)
promotions_overlap m a b l s t c d first second =
    let n = (begin_promote a m).1 in
    let q = promote-IsAttached b n l t second in
    let (o, is_o, epoch_o, _) =
      finish_promote_live a l.handle s.handle c n l.object q.live_held.is_there in
    let (u, is_u, epoch_u, context_u) =
      finish_promote_live b l.handle t.handle d (finish_promote a l.handle s.handle c n) o is_o in
    (u, is_u, omega (arith, epoch_o, epoch_u), context_u)
