-- ===== src/Action/Settledness.antt =====
-- packages/action/src/settledness.ts: `waitForSettled`. The n-th turn of the loop reads the clock as
-- `now n` and has the sample `sample n`; before turn 0 the clock has read `started`. Times are whole
-- milliseconds, and a clock does not go back. Fuel counts turns, `none` is fuel that was not enough.
pub mod Quiet
pub mod Ends
mod Tests
use rote.Prelude.{
  ℕ, zero, suc, ◌+◌, ◌-◌, Option, some, none, Bool, true, false, not, ◌&&◌, ◌||◌, same, leb, ltb,
  ◌==◌, if◌then◌else◌, Result, ok, err,
}

pub record ActivitySample : Type 0 where
  pub pending_requests : ℕ
  pub mutation_version : ℕ
  pub network_version : Option ℕ

-- `maxPendingRequests` is the type's: no negative number is given.
pub record SettleOptions : Type 0 where
  pub quiet_window : ℕ
  pub timeout : ℕ
  pub max_pending : ℕ

abbrev pub default_options : SettleOptions
default_options = record { quiet_window = 250; timeout = 5000; max_pending = 0 }

abbrev pub same_version : (a b : Option ℕ) → Bool
same_version none none = true
same_version (some a) (some b) = a == b
same_version _ _ = false

abbrev pub is_changed : Option ActivitySample → ActivitySample → Bool
is_changed none s = true
is_changed (some p) s =
    not (s.mutation_version == p.mutation_version)
    || not (same_version s.network_version p.network_version)

-- `lastChangedAt` after the turn's first test.
unfoldable pub changed_at :
    SettleOptions → Option ActivitySample → ActivitySample → (now last : ℕ) → ℕ
changed_at o previous s now last =
    if is_changed previous s || ltb o.max_pending s.pending_requests then now else last

abbrev pub is_settled : SettleOptions → ActivitySample → (now last : ℕ) → Bool
is_settled o s now last = leb s.pending_requests o.max_pending && leb o.quiet_window (now - last)

-- `err` is `SettlednessTimeoutError`, with the last sample.
module _ (o : SettleOptions) (started : ℕ) (now : ℕ → ℕ) (sample : ℕ → ActivitySample) where
  unfoldable pub turns :
      (fuel n : ℕ)
      → Option ActivitySample
      → (last : ℕ) → Option (Result ActivitySample ActivitySample)
  unfolding changed_at
  turns zero n previous last = none
  turns (suc fuel) n previous last =
      let moved = changed_at o previous (sample n) (now n) last in
      let rest = turns fuel (suc n) (some (sample n)) moved in
      if is_settled o (sample n) (now n) moved
      then some (ok (sample n))
      else if leb o.timeout (now n - started)
      then some (err (sample n))
      else rest

  unfoldable pub wait_for_settled : (fuel : ℕ) → Option (Result ActivitySample ActivitySample)
  unfolding turns
  wait_for_settled fuel = turns fuel 0 none started
