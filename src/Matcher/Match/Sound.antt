-- ===== src/Matcher/Match/Sound.antt =====
-- packages/matcher/src/match.ts: what a match promises.
use rote.Prelude.{ℕ, ◌+◌, ◌<◌, ◌≤◌, List, [], length, ◌≡◌, ◌≢◌, All}
use rote.Core.Evidence.Satisfied.{Some}
use rote.Executor.Attempt.{Bindings}
use rote.Matcher.Match.{
  LibraryEntry, MatchRequest, NoMatchReason, ScoredCandidate, MatchResult, match_with, no_match,
  below_threshold, ambiguous, params_unbound, fingerprint_mismatch, no_candidates, MatchHost,
  unbound_params, bindings_for, score_of,
}

module _ {N : Type 0} (h : MatchHost N) where
  -- An entry of the library that this request may use.
  abbrev pub IsUsable : MatchRequest N → LibraryEntry N → Type 0
  IsUsable r e =
      Some (λ x. x ≡ e) r.candidates
      × (e.fingerprint_hash ≡ r.fingerprint_hash)
      × (unbound_params h r.params e.playbook.params ≡ [])

  -- Another usable playbook is behind by at least the margin.
  abbrev pub IsBehind : MatchRequest N → LibraryEntry N → LibraryEntry N → Type 0
  IsBehind r e c =
      c.fingerprint_hash ≡ r.fingerprint_hash
      → unbound_params h r.params c.playbook.params ≡ []
      → c.playbook.playbook ≢ e.playbook.playbook
      → h.intent_score r.task r.params c.playbook + r.ambiguity_margin
        ≤ h.intent_score r.task r.params e.playbook

  pub record IsMatch (r : MatchRequest N) (e : LibraryEntry N) (score : ℕ) (bs : Bindings N)
      : Type 0 where
    pub usable : IsUsable r e
    pub scored : score ≡ h.intent_score r.task r.params e.playbook
    pub enough : r.threshold ≤ score
    pub alone : All (IsBehind r e) r.candidates
    pub bound : bs ≡ bindings_for h e.playbook.params r.params

  -- What stands behind a result.
  abbrev pub IsRefused : MatchRequest N → NoMatchReason → Type 0
  IsRefused r no_candidates = r.candidates ≡ []
  IsRefused r fingerprint_mismatch = All (λ c. c.fingerprint_hash ≢ r.fingerprint_hash) r.candidates
  IsRefused r params_unbound =
      All
        (λ c.
          c.fingerprint_hash ≡ r.fingerprint_hash
          → unbound_params h r.params c.playbook.params ≢ [])
        r.candidates
  IsRefused r below_threshold =
      (e : LibraryEntry N) × IsUsable r e
      × (h.intent_score r.task r.params e.playbook < r.threshold)
  IsRefused r ambiguous =
      (e : LibraryEntry N) × (c : LibraryEntry N) × IsUsable r e
      × IsUsable r c
      × (c.playbook.playbook ≢ e.playbook.playbook)
      × (h.intent_score r.task r.params e.playbook
          < h.intent_score r.task r.params c.playbook + r.ambiguity_margin)

  abbrev pub IsJustified : MatchRequest N → MatchResult N → Type 0
  IsJustified r (match_with e score bs considered) =
      IsMatch r e score bs × (considered ≡ length r.candidates)
  IsJustified r (no_match reason considered best) =
      IsRefused r reason × (considered ≡ length r.candidates)

  module _ (r : MatchRequest N) where
    -- A candidate as it was scored, of the request's environment.
    record IsScored (c : ScoredCandidate N) : Type 0 where
      pub of_library : Some (λ x. x ≡ c.entry) r.candidates
      pub here : c.entry.fingerprint_hash ≡ r.fingerprint_hash
      pub as_scored : c ≡ score_of h r c.entry

    Back : List (ScoredCandidate N) → Type 1
    Back cs =
        (P : ScoredCandidate N → Type 0)
        → All P cs
        → All
            (λ e.
              e.fingerprint_hash ≡ r.fingerprint_hash
              → unbound_params h r.params e.playbook.params ≡ []
              → P (score_of h r e))
            r.candidates
