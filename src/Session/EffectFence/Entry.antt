-- ===== src/Session/EffectFence/Entry.antt =====
-- The first part of `speculate`: what reaches the executor.
use rote.Prelude.{
  String, ◌+◌, ◌<◌, Option, some, none, Bool, true, false, List, [], ◌∷◌, map, ◌≡◌, refl, inl, inr,
  arith, includes, Result, ok, err, Bool-cases, leb, ◌||◌,
}
use rote.Action.SpeculationFence.{
  SpeculationClass, SpeculationClass-discrete, pure_read, local_nav, external_effect, PolicyError,
  classify_speculation, may_speculate,
}
use rote.Action.SpeculationFence.Boundary.{
  is_eligible, IsHarmless, classify_iff, may_speculate-ne_external,
}
use rote.Session.EffectFence.{
  FencedClass, read, nav, class_of, Policy, Request, Speculator, Source, EventKind, Failure,
  budget_exhausted, effect_boundary, Started, refused, dispatched, fenced_class, record_event,
  refuse, dispatch, fence, start,
}

-- A call that reached the executor: its request and the class that the executor was told.
abbrev pub Call : Type 0
Call = Request × FencedClass

-- A dispatched action is harmless, and of the class that the call was given.
abbrev pub IsFenced : Call → Type 0
IsFenced k = IsHarmless k.0.action × ((classify_speculation k.0.action).class ≡ class_of k.1)

abbrev pub IsPermitted : Policy → FencedClass → Type 0
IsPermitted p c = includes SpeculationClass-discrete (map class_of p.permit) (class_of c) ≡ true

-- The ways in which the first part of a call ends.
pub data Start (p : Policy) (input : Option Request) (s : Speculator) (r : Started × Speculator)
    : Type 0 where
  refusal :
      (f : Failure) (src : Source) (id : String)
      → r ≡ (refused f, record_event (EventKind.discarded f) src id s)
      → Start p input s r
  call :
      (q : Request) (c : FencedClass)
      → input ≡ some q
      → IsFenced (q, c)
      → IsPermitted p c
      → s.dispatches < p.max_dispatches
      → s.in_flight < p.max_in_flight
      → r
        ≡ (dispatched q c, record s { dispatches = s.dispatches + 1; in_flight = s.in_flight + 1 })
      → Start p input s r

pub not_permitted :
    (l : List FencedClass)
    → includes SpeculationClass-discrete (map class_of l) external_effect ≡ false
unfolding SpeculationClass-discrete
not_permitted [] = refl
not_permitted (read ∷ l) = not_permitted l
not_permitted (nav ∷ l) = not_permitted l

dispatch-Start :
    (p : Policy) (q : Request) (s : Speculator) (o : Option FencedClass)
    → ((c : FencedClass) → o ≡ some c → IsFenced (q, c) × IsPermitted p c)
    → Start p (some q) s (dispatch p q s o)
unfolding dispatch refuse
dispatch-Start p q s none h = refusal _ _ _ refl
dispatch-Start p q s (some c) h =
    elim (Bool-cases (leb p.max_dispatches s.dispatches || leb p.max_in_flight s.in_flight)) [
      | inl over ↦ refusal budget_exhausted q.source q.shadow_id (rw over refl)
      | inr room ↦
          call q c refl (h c refl).0 (h c refl).1 (ground arith) (ground arith) (rw room refl)
    ]

pub fenced_class_sound :
    (k : SpeculationClass) (c : FencedClass) → fenced_class k ≡ some c → k ≡ class_of c
fenced_class_sound pure_read read h = refl
fenced_class_sound local_nav nav h = refl
fenced_class_sound _ _ h = cc

eligible_of :
    (k : SpeculationClass) (c : FencedClass) → fenced_class k ≡ some c → is_eligible k ≡ true
eligible_of pure_read c h = refl
eligible_of local_nav c h = refl
eligible_of _ c h = cc

fence-Start :
    (p : Policy) (q : Request) (s : Speculator) (r : Result PolicyError Bool)
    → may_speculate (classify_speculation q.action) (map class_of p.permit) ≡ r
    → Start p (some q) s (fence p q s (classify_speculation q.action) r)
unfolding fence refuse may_speculate
fence-Start p q s (ok true) e = dispatch-Start p q s _ λ c h.
    let k = fenced_class_sound _ c h in
    (
      ((classify_iff q.action).0 (eligible_of _ c h), k),
      rw k at (may_speculate-ne_external (classify_speculation q.action) _ e).1,
    )
fence-Start p q s (ok false) e = refusal effect_boundary q.source q.shadow_id refl
fence-Start p q s (err x) e = absurd (ground (arith, not_permitted p.permit))

pub start-Start : (p : Policy) (o : Option Request) (s : Speculator) → Start p o s (start p o s)
unfolding start
start-Start p none s = refusal _ _ _ refl
start-Start p (some q) s = fence-Start p q s _ refl
