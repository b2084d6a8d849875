-- ===== src/Agent/History/Representatives.antt =====
-- packages/agent/src/history-compaction.ts: which older actions represent the others.
use rote.Prelude.{
  ℕ, zero, suc, ◌≤◌, false, List, [], ◌∷◌, ◌++◌, length, length-append, includes, same_iff, ◌≡◌,
  ◌≢◌, sym, inl, inr, All, All-append, Bool-cases, arith,
}
use rote.Agent.Action.{BrowserAction}
use rote.Agent.History.{Key, Key-discrete, representative_key, reversed, pick}

-- Some of the actions, in their order.
pub data Sublist : List BrowserAction → List BrowserAction → Type 0 where
  nothing : Sublist [] []
  kept :
      {xs ys : List BrowserAction} (a : BrowserAction) → Sublist xs ys → Sublist (a ∷ xs) (a ∷ ys)
  left_out : {xs ys : List BrowserAction} (a : BrowserAction) → Sublist xs ys → Sublist xs (a ∷ ys)

Sublist-none : (ys : List BrowserAction) → Sublist [] ys
Sublist-none [] = nothing
Sublist-none (y ∷ ys) = left_out y (Sublist-none ys)

Sublist-kept :
    (a : BrowserAction) {xs ys : List BrowserAction}
    → Sublist xs ys
    → Sublist (xs ++ a ∷ []) (ys ++ a ∷ [])
Sublist-kept a nothing = kept a nothing
Sublist-kept a (kept b s) = kept b (Sublist-kept a s)
Sublist-kept a (left_out b s) = left_out b (Sublist-kept a s)

Sublist-left_out :
    (a : BrowserAction) {xs ys : List BrowserAction} → Sublist xs ys → Sublist xs (ys ++ a ∷ [])
Sublist-left_out a nothing = left_out a nothing
Sublist-left_out a (kept b s) = kept b (Sublist-left_out a s)
Sublist-left_out a (left_out b s) = left_out b (Sublist-left_out a s)

-- No two actions have one key.
abbrev pub HasDistinctKeys : List BrowserAction → Type 0
HasDistinctKeys [] = Unit
HasDistinctKeys (x ∷ xs) =
    All (λ y. representative_key x ≢ representative_key y) xs × HasDistinctKeys xs

HasDistinctKeys-append :
    (xs : List BrowserAction) (a : BrowserAction)
    → All (λ x. representative_key x ≢ representative_key a) xs
    → HasDistinctKeys xs
    → HasDistinctKeys (xs ++ a ∷ [])
HasDistinctKeys-append [] a h d = (tt, tt)
HasDistinctKeys-append (x ∷ xs) a h d = (
  All-append (λ y. representative_key x ≢ representative_key y) xs (a ∷ []) d.0 (h.0, tt),
  HasDistinctKeys-append xs a h.1 d.1,
)

-- What `pick` promises of the actions that it picks.
pub record Picks (limit : ℕ) (seen : List Key) (xs ps : List BrowserAction) : Type 0 where
  pub few : length ps ≤ limit
  pub chosen : Sublist ps (reversed xs)
  pub unseen : All (λ a. includes Key-discrete seen (representative_key a) ≡ false) ps
  pub distinct : HasDistinctKeys ps

Picks-none : (limit : ℕ) (seen : List Key) (xs : List BrowserAction) → Picks limit seen xs []
Picks-none limit seen xs = record {
  few = omega arith;
  chosen = Sublist-none (reversed xs);
  unseen = tt;
  distinct = tt;
}

Picks-skip :
    (limit : ℕ) (seen : List Key) (a : BrowserAction) (xs ps : List BrowserAction)
    → Picks limit seen xs ps
    → Picks limit seen (a ∷ xs) ps
Picks-skip limit seen a xs ps p = record {
  few = p.few;
  chosen = Sublist-left_out a p.chosen;
  unseen = p.unseen;
  distinct = p.distinct;
}

-- The keys that were not seen before `a` are not seen, and differ from its own.
apart :
    (seen : List Key) (a : BrowserAction) (ps : List BrowserAction)
    → All
        (λ x. includes Key-discrete (representative_key a ∷ seen) (representative_key x) ≡ false)
        ps
    → All (λ x. includes Key-discrete seen (representative_key x) ≡ false) ps
      × All (λ x. representative_key x ≢ representative_key a) ps
apart seen a [] h = (tt, tt)
apart seen a (x ∷ ps) h =
    let (unseen, others) = apart seen a ps h.1 in
    (
      (ground (arith, h.0), unseen),
      (
        λ e. ground (
          arith,
          h.0,
          same_iff Key-discrete (representative_key a) (representative_key x),
          sym e,
        ),
        others,
      ),
    )

Picks-take :
    (limit : ℕ) (seen : List Key) (a : BrowserAction) (xs ps : List BrowserAction)
    → includes Key-discrete seen (representative_key a) ≡ false
    → Picks limit (representative_key a ∷ seen) xs ps
    → Picks (suc limit) seen (a ∷ xs) (ps ++ a ∷ [])
Picks-take limit seen a xs ps new p =
    let (unseen, others) = apart seen a ps p.unseen in
    record {
      few = omega (arith, length-append ps (a ∷ []), p.few);
      chosen = Sublist-kept a p.chosen;
      unseen =
          All-append (λ x. includes Key-discrete seen (representative_key x) ≡ false) ps (a ∷ [])
            unseen (new, tt);
      distinct = HasDistinctKeys-append ps a others p.distinct;
    }

pub pick-Picks :
    (limit : ℕ) (seen : List Key) (xs : List BrowserAction)
    → Picks limit seen xs (pick limit seen xs)
unfolding pick
pick-Picks zero seen xs = Picks-none zero seen xs
pick-Picks (suc limit) seen [] = Picks-none (suc limit) seen []
pick-Picks (suc limit) seen (a ∷ xs) =
    let later = pick-Picks (suc limit) seen xs in
    let earlier = pick-Picks limit (representative_key a ∷ seen) xs in
    elim (Bool-cases (includes Key-discrete seen (representative_key a))) [
      | inl there ↦ rw there (Picks-skip (suc limit) seen a xs _ later)
      | inr new ↦ rw new (Picks-take limit seen a xs _ new earlier)
    ]
