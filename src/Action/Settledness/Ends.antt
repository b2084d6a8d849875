-- ===== src/Action/Settledness/Ends.antt =====
-- packages/action/src/settledness.ts: the wait is bounded.
use rote.Prelude.{
  ℕ, zero, suc, ◌+◌, ◌-◌, ◌<◌, ◌≤◌, Option, some, none, leb, ◌≢◌, arith, Bool-cases, inl, inr,
}
use rote.Action.Settledness.{
  ActivitySample, SettleOptions, changed_at, is_settled, turns, wait_for_settled,
}

module _ (o : SettleOptions) (started : ℕ) (now : ℕ → ℕ) (sample : ℕ → ActivitySample) where
  turns_end :
      ((n : ℕ) → started + n ≤ now n)
      → (fuel n : ℕ) (previous : Option ActivitySample) (last : ℕ) → o.timeout < fuel + n
      → n ≤ o.timeout
      → turns o started now sample fuel n previous last ≢ none
  unfolding turns
  turns_end ticks zero n previous last enough early = absurd (omega arith)
  turns_end ticks (suc fuel) n previous last enough early =
      let moved = changed_at o previous (sample n) (now n) last in
      elim (Bool-cases (is_settled o (sample n) (now n) moved)) [
        | inl settled ↦ rw settled (λ e. absurd cc)
        | inr unsettled ↦ elim (Bool-cases (leb o.timeout (now n - started))) [
          | inl late ↦ rw (unsettled, late) (λ e. absurd cc)
          | inr still ↦
              rw (unsettled, still)
                (turns_end ticks fuel (suc n) (some (sample n)) moved (omega (arith, enough))
                  (ground (arith, ticks n, still)))
        ]
      ]

  -- If the clock has moved on by a millisecond at least with every turn, then whatever the browser
  -- does, the wait ends, by an answer or by the timeout, after at most one turn more than the timeout
  -- has milliseconds.
  pub wait_for_settled_ends :
      ((n : ℕ) → started + n ≤ now n)
      → (fuel : ℕ) → o.timeout < fuel
      → wait_for_settled o started now sample fuel ≢ none
  unfolding wait_for_settled
  wait_for_settled_ends ticks fuel enough =
      turns_end ticks fuel 0 none started (omega arith) (omega arith)
