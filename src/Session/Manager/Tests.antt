-- ===== src/Session/Manager/Tests.antt =====
-- A manager with one live session and two shadows of it.
use rote.Prelude.{
  ℕ, String, Option, some, none, [], ok, ◌≡◌, ◌≢◌, ◌<◌, refl, arith, length, String-discrete,
  same_iff,
}
use rote.Session.EffectFence.{SessionScope}
use rote.Session.Manager.{
  StoredSession, Manager, Base, Held, VirtualSessionMode, live, shadow, object_at, new_ref, emit,
  change, store, has_capacity, begin_open, finish_open, finish_clone, require_active,
}
use rote.Session.Manager.Promote.{
  begin_promote, finish_promote, promotes, against_live, promote_attached, promote_held,
}
use rote.Session.Manager.Lifetime.{Lasts, Reach, Reach-Lasts, Step}
use rote.Session.Manager.Capacity.{IsWithin, Calls, Call, Calls-IsWithin, opens_overrun}
use rote.Session.Manager.Promotion.{
  IsAttached, promote-IsAttached, promotes_later, promotions_overlap,
}

abbrev scope : SessionScope
scope = record { environment_digest = "e"; principal_digest = "p"; binding_digest = "b" }

abbrev fresh : ℕ → Manager
fresh cap = record { objects = []; sessions = []; events = []; next_event = 0; max_sessions = cap }

abbrev opened_one : ℕ → Manager
opened_one cap = finish_open "live" scope "c0" (fresh cap)

abbrev two_shadows : Manager
two_shadows = finish_clone "live" 0 "b" "c2" (finish_clone "live" 0 "a" "c1" (opened_one 4))

abbrev object_of : VirtualSessionMode → String → String → ℕ → Option Base → StoredSession
object_of mode id context epoch base = record {
  ref = new_ref id mode scope epoch;
  context_id = context;
  base = base;
}

abbrev live_held : Held
live_held = record { handle = 0; object = object_of live "live" "c0" 0 none }

abbrev shadow_held : String → String → ℕ → Held
shadow_held id context h = record {
  handle = h;
  object = object_of shadow id context 0 (some (record { live_id = "live"; live_epoch = 0 }));
}

first_promotes : (begin_promote "a" two_shadows).0 ≡ promotes live_held (shadow_held "a" "c1" 1)
unfolding begin_promote promote_held promote_attached against_live require_active finish_clone
    finish_open store emit String-discrete
first_promotes = refl

second_promotes :
    (begin_promote "b" (begin_promote "a" two_shadows).1).0
    ≡ promotes live_held (shadow_held "b" "c2" 2)
unfolding begin_promote promote_held promote_attached against_live require_active finish_clone
    finish_open store emit String-discrete
second_promotes = refl

promote-IsAttached_example : IsAttached "a" two_shadows live_held (shadow_held "a" "c1" 1)
promote-IsAttached_example =
    promote-IsAttached "a" two_shadows live_held (shadow_held "a" "c1" 1) first_promotes

promotions_overlap_example :
    (u : StoredSession) × (object_at 0
        (finish_promote "b" 0 2 "d"
          (finish_promote "a" 0 1 "c" (begin_promote "a" two_shadows).1)).objects
      ≡ some u)
    × (u.ref.epoch ≡ 2)
    × (u.context_id ≡ "d")
promotions_overlap_example =
    promotions_overlap two_shadows "a" "b" live_held (shadow_held "a" "c1" 1)
      (shadow_held "b" "c2" 2) "c" "d" first_promotes second_promotes

-- After the first promotion a shadow is cloned anew.
abbrev promoted_once : Manager
promoted_once = finish_promote "a" 0 1 "c" two_shadows

abbrev cloned_again : Manager
cloned_again = finish_clone "live" 0 "x" "c3" promoted_once

abbrev live_later : Held
live_later = record { handle = 0; object = object_of live "live" "c" 1 none }

abbrev shadow_later : Held
shadow_later = record {
  handle = 3;
  object = object_of shadow "x" "c3" 1 (some (record { live_id = "live"; live_epoch = 1 }));
}

later_promotes : (begin_promote "x" cloned_again).0 ≡ promotes live_later shadow_later
unfolding begin_promote promote_held promote_attached against_live require_active finish_clone
    finish_open finish_promote change store emit String-discrete
later_promotes = refl

promotes_later_example :
    (promote-IsAttached "a" two_shadows live_held
      (shadow_held "a" "c1" 1)
      first_promotes).cloned_from.live_epoch
    < (promote-IsAttached "x" cloned_again live_later shadow_later
        later_promotes).cloned_from.live_epoch
promotes_later_example =
    promotes_later "a" "x" live_held (shadow_held "a" "c1" 1) live_later shadow_later "c"
      first_promotes Reach.here (Reach.next Reach.here (Step.clones "live" 0 "x" "c3"))
      later_promotes refl

Reach-Lasts_example : Lasts two_shadows.objects cloned_again.objects
Reach-Lasts_example = Reach-Lasts (
    Reach.next (Reach.next Reach.here (Step.promotes_to "a" 0 1 "c"))
      (Step.clones "live" 0 "x" "c3"))

allowed : begin_open (fresh 1) ≡ ok tt
unfolding begin_open has_capacity
allowed = refl

Calls-IsWithin_example : IsWithin (opened_one 1)
Calls-IsWithin_example =
    Calls-IsWithin (Calls.next Calls.here (Call.opens "live" scope "c0" allowed)) (omega arith)

differs : ◌≢◌ {A = String} "a" "b"
unfolding String-discrete
differs = λ e. absurd (ground (arith, e, same_iff String-discrete "a" "b"))

opens_overrun_example :
    (begin_open (fresh 1) ≡ ok tt)
    × (length (finish_open "b" scope "d" (finish_open "a" scope "c" (fresh 1))).sessions ≡ 2)
opens_overrun_example = opens_overrun (fresh 1) "a" "b" "c" "d" scope refl differs refl refl
