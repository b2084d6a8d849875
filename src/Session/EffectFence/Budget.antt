-- ===== src/Session/EffectFence/Budget.antt =====
-- Calls of `speculate` that overlap: what holds between any two of their steps.
use rote.Prelude.{
  ℕ, String, suc, ◌+◌, ◌-◌, ◌≤◌, Option, some, none, Bool, true, false, List, [], ◌∷◌, ◌++◌, ◌≡◌,
  refl, ◌⊎◌, inl, inr, length, length-append, length-middle, All, All-middle, arith, Option-cases,
  ap,
}
use rote.Session.EffectFence.Entry.{Call, IsFenced, Start, refusal, call, start-Start}
use rote.Session.EffectFence.{
  FencedClass, Policy, Request, Event, Speculator, Source, EventKind, Failure, promotion_rejected,
  Started, refused, dispatched, threw, Answer, new_speculator, record_event, start, answer_failure,
  settle, close, promote,
}

-- The object with the calls that wait for the executor or the callback, and with every call that was
-- ever handed to the executor, whether it has ended or not.
pub record Session : Type 0 where
  pub speculator : Speculator
  pub executing : List Call
  pub promoting : List Call
  pub handed : List Call

abbrev pub opened : Session
opened = record { speculator = new_speculator; executing = []; promoting = []; handed = [] }

-- A call enters: if it reached the executor, it waits for the answer.
pub enter : Session → Started × Speculator → Session
enter t (dispatched q c, s) = record t {
  speculator = s;
  executing = (q, c) ∷ t.executing;
  handed = (q, c) ∷ t.handed;
}
enter t (refused f, s) = record t { speculator = s }
enter t (threw e, s) = record t { speculator = s }

-- An answer arrives at a call: it ends, or it waits for the callback.
pub receive : Session → List Call → Call → Option Failure × Speculator → Session
receive t others k (none, s) = record t {
  speculator = s;
  executing = others;
  promoting = k ∷ t.promoting;
}
receive t others k (some f, s) = record t { speculator = s; executing = others }

-- One step of one of the calls, in any order.
pub data Step (O : Type 0) (p : Policy) (t : Session) : Session → Type 0 where
  begin : (input : Option Request) → Step O p t (enter t (start p input t.speculator))
  answer :
      (xs ys : List Call) (k : Call) (a : Answer O)
      → t.executing ≡ xs ++ k ∷ ys
      → Step O p t (receive t (xs ++ ys) k (settle k.0 a t.speculator))
  finish :
      (xs ys : List Call) (k : Call) (accepted : Bool)
      → t.promoting ≡ xs ++ k ∷ ys
      → Step O p t (record t {
        speculator = (promote k.0 k.1 accepted t.speculator).1;
        promoting = xs ++ ys;
      })

pub data Reach (O : Type 0) (p : Policy) (t : Session) : Session → Type 0 where
  here : Reach O p t t
  next : {u v : Session} → Reach O p t u → Step O p u v → Reach O p t v

-- Events are numbered from `n` on without a gap.
abbrev pub NumberedFrom : ℕ → List Event → Type 0
NumberedFrom n [] = Unit
NumberedFrom n (e ∷ es) = (e.seq ≡ n) × NumberedFrom (suc n) es

pub record IsBounded (p : Policy) (t : Session) : Type 0 where
  pub counted : t.speculator.in_flight ≡ length t.executing + length t.promoting
  pub in_flight_capped : t.speculator.in_flight ≤ p.max_in_flight
  pub dispatches_counted : t.speculator.dispatches ≡ length t.handed
  pub dispatches_capped : length t.handed ≤ p.max_dispatches
  pub once_each : t.speculator.in_flight ≤ t.speculator.dispatches
  pub numbered : NumberedFrom 0 t.speculator.events
  pub next_free : t.speculator.next_seq ≡ length t.speculator.events
  pub fenced_handed : All IsFenced t.handed
  pub fenced : All IsFenced t.executing
  pub fenced_promoting : All IsFenced t.promoting

NumberedFrom-append :
    (n : ℕ) (es : List Event) (e : Event)
    → NumberedFrom n es
    → e.seq ≡ n + length es
    → NumberedFrom n (es ++ e ∷ [])
NumberedFrom-append n [] e h eq = (omega arith, tt)
NumberedFrom-append n (x ∷ es) e h eq = (h.0, NumberedFrom-append (suc n) es e h.1 (omega arith))

-- What an event leaves of the log and the counters.
record Logged (s u : Speculator) : Type 0 where
  numbered : NumberedFrom 0 u.events
  next_free : u.next_seq ≡ length u.events
  same_in_flight : u.in_flight ≡ s.in_flight
  same_dispatches : u.dispatches ≡ s.dispatches

record_event-Logged :
    (k : EventKind) (src : Source) (id : String) (s : Speculator)
    → NumberedFrom 0 s.events
    → s.next_seq ≡ length s.events
    → Logged s (record_event k src id s)
unfolding record_event
record_event-Logged k src id s h e = record {
  numbered = NumberedFrom-append 0 s.events _ h (omega arith);
  next_free = omega (
    arith,
    length-append s.events
        (record { seq = s.next_seq; kind = k; source = src; shadow_id = id } ∷ []),
  );
  same_in_flight = refl;
  same_dispatches = refl;
}

logged :
    (k : EventKind) (src : Source) (id : String) (p : Policy) (t : Session)
    → IsBounded p t
    → Logged t.speculator (record_event k src id t.speculator)
logged k src id p t b = record_event-Logged k src id t.speculator b.numbered b.next_free

enter-IsBounded :
    (p : Policy) (input : Option Request) (t : Session) (r : Started × Speculator)
    → Start p input t.speculator r
    → IsBounded p t
    → IsBounded p (enter t r)
unfolding enter
enter-IsBounded p input t r (refusal f src id e) b =
    let l = logged (EventKind.discarded f) src id p t b in
    rw e (record {
      counted = omega (arith, l.same_in_flight, b.counted);
      in_flight_capped = omega (arith, l.same_in_flight, b.in_flight_capped);
      dispatches_counted = omega (arith, l.same_dispatches, b.dispatches_counted);
      dispatches_capped = b.dispatches_capped;
      once_each = omega (arith, l.same_in_flight, l.same_dispatches, b.once_each);
      numbered = l.numbered;
      next_free = l.next_free;
      fenced_handed = b.fenced_handed;
      fenced = b.fenced;
      fenced_promoting = b.fenced_promoting;
    })
enter-IsBounded p input t r (call q c given safe permitted d i e) b = rw e (record {
  counted = omega (arith, b.counted);
  in_flight_capped = omega arith;
  dispatches_counted = omega (arith, b.dispatches_counted);
  dispatches_capped = omega (arith, b.dispatches_counted);
  once_each = omega (arith, b.once_each);
  numbered = b.numbered;
  next_free = b.next_free;
  fenced_handed = (safe, b.fenced_handed);
  fenced = (safe, b.fenced);
  fenced_promoting = b.fenced_promoting;
})

-- A call ends: its event is logged, and it is no longer in flight.
end_call : EventKind → Request → Speculator → Speculator
end_call k q s =
    let t = record_event k q.source q.shadow_id s in record t { in_flight = t.in_flight - 1 }

ended-IsBounded :
    (p : Policy) (t : Session) (k : EventKind) (q : Request) (es ps : List Call)
    → IsBounded p t
    → suc (length es + length ps) ≡ length t.executing + length t.promoting
    → All IsFenced es
    → All IsFenced ps
    → IsBounded p
        (record t { speculator = end_call k q t.speculator; executing = es; promoting = ps })
unfolding end_call
ended-IsBounded p t k q es ps b one fe fp =
    let l = logged k q.source q.shadow_id p t b in
    record {
      counted = omega (arith, l.same_in_flight, b.counted, one);
      in_flight_capped = omega (arith, l.same_in_flight, b.in_flight_capped);
      dispatches_counted = omega (arith, l.same_dispatches, b.dispatches_counted);
      dispatches_capped = b.dispatches_capped;
      once_each = omega (arith, l.same_in_flight, l.same_dispatches, b.once_each);
      numbered = l.numbered;
      next_free = l.next_free;
      fenced_handed = b.fenced_handed;
      fenced = fe;
      fenced_promoting = fp;
    }

settle_cases :
    {O : Type 0} (q : Request) (a : Answer O) (s : Speculator)
    → ((f : Failure) × (settle q a s ≡ (some f, end_call (EventKind.discarded f) q s)))
      ⊎ (settle q a s ≡ (none, s))
unfolding settle close end_call
settle_cases q a s = elim (Option-cases (answer_failure q a)) [
  | inl e ↦ inr (rw (e, settle) refl)
  | inr (f, e) ↦ inl (f, rw (e, settle) refl)
]

receive-IsBounded :
    (p : Policy) (t : Session) (xs ys : List Call) (k : Call) (r : Option Failure × Speculator)
    → t.executing ≡ xs ++ k ∷ ys
    → ((f : Failure) × (r ≡ (some f, end_call (EventKind.discarded f) k.0 t.speculator)))
      ⊎ (r ≡ (none, t.speculator))
    → IsBounded p t
    → IsBounded p (receive t (xs ++ ys) k r)
unfolding receive
receive-IsBounded p t xs ys k r e (inl (f, er)) b =
    let (now, rest) = All-middle IsFenced xs ys k (rw e at b.fenced) in
    rw er (
      ended-IsBounded p t (EventKind.discarded f) k.0 (xs ++ ys) t.promoting b
        (omega (arith, ap length e, length-middle xs ys k)) rest b.fenced_promoting)
receive-IsBounded p t xs ys k r e (inr er) b =
    let (now, rest) = All-middle IsFenced xs ys k (rw e at b.fenced) in
    rw er (record {
      counted = omega (arith, b.counted, ap length e, length-middle xs ys k);
      in_flight_capped = b.in_flight_capped;
      dispatches_counted = b.dispatches_counted;
      dispatches_capped = b.dispatches_capped;
      once_each = b.once_each;
      numbered = b.numbered;
      next_free = b.next_free;
      fenced_handed = b.fenced_handed;
      fenced = rest;
      fenced_promoting = (now, b.fenced_promoting);
    })

promote_ends :
    (q : Request) (c : FencedClass) (accepted : Bool) (s : Speculator)
    → (k : EventKind) × ((promote q c accepted s).1 ≡ end_call k q s)
unfolding promote close end_call
promote_ends q c true s = (EventKind.promoted c, refl)
promote_ends q c false s = (EventKind.discarded promotion_rejected, refl)

Step-IsBounded :
    {O : Type 0} {p : Policy} {t u : Session} → Step O p t u → IsBounded p t → IsBounded p u
Step-IsBounded {p = p} {t = t} (begin input) b =
    enter-IsBounded p input t _ (start-Start p input t.speculator) b
Step-IsBounded {p = p} {t = t} (answer xs ys k a e) b =
    receive-IsBounded p t xs ys k _ e (settle_cases k.0 a t.speculator) b
Step-IsBounded {p = p} {t = t} (finish xs ys k accepted e) b =
    let (kind, ends) = promote_ends k.0 k.1 accepted t.speculator in
    let (now, rest) = All-middle IsFenced xs ys k (rw e at b.fenced_promoting) in
    rw ends (
      ended-IsBounded p t kind k.0 t.executing (xs ++ ys) b
        (omega (arith, ap length e, length-middle xs ys k)) b.fenced rest)

opened-IsBounded : (p : Policy) → IsBounded p opened
unfolding new_speculator
opened-IsBounded p = ground arith

-- However calls of `speculate` on a new speculator overlap: never more than `max_in_flight` calls
-- are in flight, and of all that were ever handed to the executor, ended or not, there are never
-- more than `max_dispatches`; both counters are the numbers of these calls, the events are numbered
-- 0, 1, 2, …, and every action that was handed over is harmless and of the class that the executor
-- was told.
pub Reach-IsBounded : {O : Type 0} (p : Policy) {t : Session} → Reach O p opened t → IsBounded p t
Reach-IsBounded p here = opened-IsBounded p
Reach-IsBounded p (next r st) = Step-IsBounded st (Reach-IsBounded p r)
