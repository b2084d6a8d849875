-- ===== src/Action/Settledness/Tests.antt =====
-- packages/action/src/settledness.ts: a page that is busy until the second turn.
use rote.Prelude.{ℕ, zero, suc, ◌<◌, ◌≤◌, some, none, ok, err, ◌≡◌, ◌≢◌, refl, arith}
use rote.Action.Settledness.{ActivitySample, SettleOptions, changed_at, turns, wait_for_settled}
use rote.Action.Settledness.Quiet.{
  IsQuiet, Settled, wait_for_settled-Settled, wait_for_settled_answers,
}
use rote.Action.Settledness.Ends.{wait_for_settled_ends}

abbrev options : SettleOptions
options = record { quiet_window = 2; timeout = 9; max_pending = 0 }

-- A turn each millisecond.
abbrev clock : ℕ → ℕ
clock n = n

abbrev seen : ℕ → ℕ → ActivitySample
seen pending version = record {
  pending_requests = pending;
  mutation_version = version;
  network_version = some 0;
}

abbrev page : ℕ → ActivitySample
page zero = seen 1 0
page (suc zero) = seen 1 1
page (suc (suc n)) = seen 0 2

settles : wait_for_settled options 0 clock page 6 ≡ some (ok (seen 0 2))
unfolding wait_for_settled turns changed_at
settles = refl

-- A page that never stops.
times_out : wait_for_settled options 0 clock (λ n. seen 0 n) 11 ≡ some (err (seen 0 9))
unfolding wait_for_settled turns changed_at
times_out = refl

wait_for_settled-Settled_example : Settled options 0 clock page (seen 0 2)
wait_for_settled-Settled_example =
    wait_for_settled-Settled options 0 clock page 6 (seen 0 2) settles

wait_for_settled_ends_example : wait_for_settled options 0 clock (λ n. seen 0 n) 10 ≢ none
wait_for_settled_ends_example =
    wait_for_settled_ends options 0 clock (λ n. seen 0 n) (λ n. omega arith) 10 (omega arith)

page-IsQuiet : (i : ℕ) → 2 ≤ i → i < 4 → IsQuiet options 0 clock page i
page-IsQuiet zero h k = absurd (omega arith)
page-IsQuiet (suc zero) h k = absurd (omega arith)
page-IsQuiet (suc (suc i)) h k = record {
  same_mutations = refl;
  same_network = refl;
  few = omega arith;
}

wait_for_settled_answers_example :
    (s : ActivitySample) × (wait_for_settled options 0 clock page 5 ≡ some (ok s))
wait_for_settled_answers_example =
    wait_for_settled_answers options 0 clock page 2 4 page-IsQuiet (λ i h. omega arith)
      (omega arith) (λ i. omega arith) (omega arith) (omega arith) 5 (omega arith)
