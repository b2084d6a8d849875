-- ===== src/Executor/ExpectEvaluator.antt =====
-- packages/executor/src/expect-evaluator.ts: one assertion against the world. Only whether it passes
-- is modelled, not the text of its reason.
use rote.Prelude.{
  Option, some, none, Bool, true, false, not, same, includes, some_of, String-discrete,
}
use rote.Executor.Json.{
  Json, null, string, array, object, no_item, no_field, Host, json_path, Found, not_found, value,
}
use rote.Executor.Playbook.{
  Expect, exit_code, selector_visible, selector_absent, input_value, url_contains, text_visible,
  json_path_exists, json_path_equals, output_matches, nonempty,
}
use rote.Executor.WorldState.{WorldState, lookup, or_else}

-- `===` where one side may be undefined.
abbrev pub is_value : {A : Type 0} → Discrete A → Option A → A → Bool
is_value d none b = false
is_value d (some a) b = same d a b

module _ {N : Type 0} where
  unfoldable pub is_empty : Option (Json N) → Bool
  is_empty none = true
  is_empty (some null) = true
  is_empty (some (string s)) = same String-discrete s ""
  is_empty (some (array no_item)) = true
  is_empty (some (object no_field)) = true
  is_empty (some _) = false

  abbrev pub exists : Found N → Bool
  exists not_found = false
  exists _ = true

  -- `deepEqual`: the texts that `JSON.stringify` gives are equal, or neither side has one.
  abbrev pub deep_equal : Host N → Found N → Option (Json N) → Bool
  deep_equal h (value v) (some w) = same String-discrete (h.stringify v) (h.stringify w)
  deep_equal h (value v) none = false
  deep_equal h _ (some w) = false
  deep_equal h _ none = true

  -- `none` is the error of a pattern that is no regular expression.
  unfoldable pub evaluate_expect : Host N → Expect N → WorldState N → Option Bool
  unfolding is_empty lookup json_path
  evaluate_expect h (exit_code n) w = some (is_value h.same_number w.last_exit_code n)
  evaluate_expect h (selector_visible s) w = some (includes String-discrete w.visible_selectors s)
  evaluate_expect h (selector_absent s) w =
      some (not (includes String-discrete w.visible_selectors s))
  evaluate_expect h (input_value s v) w =
      some (is_value String-discrete (lookup s w.input_values) v)
  evaluate_expect h (url_contains s) w = some (h.contains (or_else w.url "") s)
  evaluate_expect h (text_visible s) w = some (some_of (λ t. h.contains t s) w.visible_text)
  evaluate_expect h (json_path_exists p) w = some (exists (json_path h w.last_json p))
  evaluate_expect h (json_path_equals p v) w = some (deep_equal h (json_path h w.last_json p) v)
  evaluate_expect h (output_matches p) w = h.matches p w.last_output
  evaluate_expect h nonempty w = some (not (is_empty w.last_json))
