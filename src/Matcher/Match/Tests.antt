-- ===== src/Matcher/Match/Tests.antt =====
-- packages/matcher/src/match.ts: two playbooks, the better one of another environment.
use rote.Prelude.{ℕ, String, none, true, [], ◌∷◌, ◌≡◌, refl, String-discrete, same, if◌then◌else◌}
use rote.Executor.Playbook.{Playbook, string}
use rote.Executor.Attempt.{text}
use rote.Matcher.Match.{
  LibraryEntry, MatchRequest, MatchHost, match_with, is_bindable, unbound_params, insert, sort,
  choose, pick_bindable, match_among, match_listed, match_playbook,
}

abbrev host : MatchHost ℕ
host = record {
  intent_score = λ task params p. if same String-discrete p.playbook "best" then 9 else 8;
  name_le = λ a b. true;
  is_finite = λ n. true;
}

abbrev book : String → Playbook ℕ
book name = record {
  playbook = name;
  version = 1;
  params = record { name = "who"; type = string } ∷ [];
  steps = [];
  verify = [];
}

abbrev entry : String → String → LibraryEntry ℕ
entry name environment = record {
  playbook = book name;
  fingerprint_hash = environment;
  playbook_path = none;
  source_run_id = none;
}

abbrev request : MatchRequest ℕ
request = record {
  task = "greet you";
  params = ("who", text "you") ∷ [];
  fingerprint_hash = "here";
  candidates = entry "best" "elsewhere" ∷ entry "good" "here" ∷ [];
  threshold = 8;
  ambiguity_margin = 1;
}

stays_here :
    match_playbook host request ≡ match_with (entry "good" "here") 8 (("who", text "you") ∷ []) 2
unfolding match_playbook match_listed match_among pick_bindable choose sort insert unbound_params
    is_bindable String-discrete
stays_here = refl
