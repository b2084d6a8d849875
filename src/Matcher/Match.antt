-- ===== src/Matcher/Match.antt =====
-- packages/matcher/src/match.ts: `matchPlaybook`. The score of a task's text against an intent
-- (`intentScore`), the order of texts and the test of a finite number are parameters: scores, threshold
-- and margin are numbers in one unit. Names that every object inherits are left aside.
pub mod Sorted
pub mod Sound
mod Tests
use rote.Prelude.{
  ℕ, zero, suc, ◌+◌, String, Option, some, none, Bool, true, false, not, ◌&&◌, ◌||◌, List, [], ◌∷◌,
  ◌++◌, map, same, leb, ltb, ◌==◌, includes, length, select, String-discrete, if◌then◌else◌,
}
use rote.Executor.Playbook.{Playbook, Param, ParamType, string, number, boolean, money}
use rote.Executor.Attempt.{Binding, text, amount, flag, Bindings}
use rote.Core.Template.{find_binding}

pub record LibraryEntry (N : Type 0) : Type 0 where
  pub playbook : Playbook N
  pub fingerprint_hash : String
  pub playbook_path : Option String
  pub source_run_id : Option String

pub record MatchRequest (N : Type 0) : Type 0 where
  pub task : String
  pub params : Bindings N
  pub fingerprint_hash : String
  pub candidates : List (LibraryEntry N)
  pub threshold : ℕ
  pub ambiguity_margin : ℕ

pub data NoMatchReason : Type 0 where
  no_candidates fingerprint_mismatch params_unbound below_threshold ambiguous : NoMatchReason

pub record ScoredCandidate (N : Type 0) : Type 0 where
  pub entry : LibraryEntry N
  pub score : ℕ
  pub unbound : List String

pub data MatchResult (N : Type 0) : Type 0 where
  match_with :
      (entry : LibraryEntry N) (score : ℕ) (bindings : Bindings N) (considered : ℕ) → MatchResult N
  no_match : NoMatchReason → (considered : ℕ) → (best : Option (ScoredCandidate N)) → MatchResult N

pub record MatchHost (N : Type 0) : Type 0 where
  -- `intentScore(task, params, playbook)`.
  pub intent_score : String → Bindings N → Playbook N → ℕ
  -- `a.localeCompare(b) <= 0`.
  pub name_le : String → String → Bool
  pub is_finite : N → Bool

abbrev pub rebound_params : List String
rebound_params = "base_url" ∷ "initial_url" ∷ []

abbrev pub is_nonempty : String → Bool
is_nonempty String.[] = false
is_nonempty (String.◌∷◌ c s) = true

module _ {N : Type 0} (h : MatchHost N) where
  unfoldable pub is_bindable : ParamType → Option (Binding N) → Bool
  is_bindable string (some (text s)) = is_nonempty s
  is_bindable boolean (some (flag b)) = true
  is_bindable number (some (amount n)) = h.is_finite n
  is_bindable money (some (amount n)) = h.is_finite n
  is_bindable _ _ = false

  abbrev pub is_unbound : Bindings N → Param → Bool
  unfolding is_bindable
  is_unbound bs p =
      not (includes String-discrete rebound_params p.name)
      && not (is_bindable p.type (find_binding p.name bs))

  unfoldable pub unbound_params : Bindings N → List Param → List String
  unfolding is_unbound is_bindable
  unbound_params bs ps = map (λ p. p.name) (select (is_unbound bs) ps)

  abbrev pub bindings_for : List Param → Bindings N → Bindings N
  bindings_for [] bs = []
  bindings_for (p ∷ ps) bs = elim (find_binding p.name bs) [
    | none ↦ bindings_for ps bs
    | some b ↦ (p.name, b) ∷ bindings_for ps bs
  ]

  abbrev pub score_of : MatchRequest N → LibraryEntry N → ScoredCandidate N
  unfolding unbound_params
  score_of r e = record {
    entry = e;
    score = h.intent_score r.task r.params e.playbook;
    unbound = unbound_params r.params e.playbook.params;
  }

  -- The comparison of the sort: by score, then by version, both falling, then by name.
  abbrev pub comes_first : ScoredCandidate N → ScoredCandidate N → Bool
  comes_first a b =
      ltb b.score a.score
      || ((a.score == b.score)
          && (ltb b.entry.playbook.version a.entry.playbook.version
              || ((a.entry.playbook.version == b.entry.playbook.version)
                  && h.name_le a.entry.playbook.playbook b.entry.playbook.playbook)))

  -- A stable sort.
  unfoldable pub insert : ScoredCandidate N → List (ScoredCandidate N) → List (ScoredCandidate N)
  insert c [] = c ∷ []
  insert c (d ∷ ds) = let rest = insert c ds in if comes_first c d then c ∷ d ∷ ds else d ∷ rest

  unfoldable pub sort : List (ScoredCandidate N) → List (ScoredCandidate N)
  unfolding insert
  sort [] = []
  sort (c ∷ cs) = insert c (sort cs)

  abbrev pub is_bound_candidate : ScoredCandidate N → Bool
  is_bound_candidate c = elim (c.unbound) [ [] ↦ true | n ∷ ns ↦ false ]

  -- A different playbook within the margin: such a candidate is another than the top one.
  abbrev pub is_rival : ℕ → ScoredCandidate N → ScoredCandidate N → Bool
  is_rival margin top c =
      not (same String-discrete c.entry.playbook.playbook top.entry.playbook.playbook)
      && ltb top.score (c.score + margin)

  abbrev pub same_environment : MatchRequest N → List (LibraryEntry N)
  same_environment r =
      select (λ e. same String-discrete e.fingerprint_hash r.fingerprint_hash) r.candidates

  -- From the first of the bindable candidates on.
  unfoldable pub choose :
      MatchRequest N → ScoredCandidate N → List (ScoredCandidate N) → MatchResult N
  choose r top bindable =
      if ltb top.score r.threshold
      then no_match below_threshold (length r.candidates) (some top)
      else elim (select (is_rival r.ambiguity_margin top) bindable) [
        | [] ↦
            match_with top.entry top.score (bindings_for top.entry.playbook.params r.params)
              (length r.candidates)
        | c ∷ cs ↦ no_match ambiguous (length r.candidates) (some top)
      ]

  unfoldable pub pick_bindable :
      MatchRequest N → Option (ScoredCandidate N) → List (ScoredCandidate N) → MatchResult N
  unfolding choose
  pick_bindable r best [] = no_match params_unbound (length r.candidates) best
  pick_bindable r best (top ∷ rest) = choose r top (top ∷ rest)

  abbrev pub first_of : List (ScoredCandidate N) → Option (ScoredCandidate N)
  first_of [] = none
  first_of (c ∷ cs) = some c

  -- Of the candidates of the request's environment.
  unfoldable pub match_among : MatchRequest N → List (LibraryEntry N) → MatchResult N
  unfolding pick_bindable sort score_of
  match_among r [] = no_match fingerprint_mismatch (length r.candidates) none
  match_among r (e ∷ es) =
      let scored = sort (map (score_of r) (e ∷ es)) in
      pick_bindable r (first_of scored) (select is_bound_candidate scored)

  unfoldable pub match_listed : MatchRequest N → List (LibraryEntry N) → MatchResult N
  unfolding match_among
  match_listed r [] = no_match no_candidates 0 none
  match_listed r (e ∷ es) = match_among r (same_environment r)

  unfoldable pub match_playbook : MatchRequest N → MatchResult N
  unfolding match_listed
  match_playbook r = match_listed r r.candidates
