-- ===== src/Executor/WorldState.antt =====
-- packages/executor/src/world-state.ts: what the executor believes of the world. A `Record` is the
-- list of its pairs in the order of insertion.
use rote.Prelude.{String, Option, some, none, List, [], ◌∷◌, same, String-discrete, if◌then◌else◌}
use rote.Executor.Json.{
  Json, number, string, array, object, Items, no_item, item, Fields, no_field, field, Host,
  get_field,
}

-- `record[key]`.
unfoldable pub lookup : {V : Type 0} → String → List (String × V) → Option V
lookup k [] = none
lookup k ((l, v) ∷ ps) = if same String-discrete l k then some v else lookup k ps

-- `record[key] = value`.
unfoldable pub assign : {V : Type 0} → String → V → List (String × V) → List (String × V)
assign k v [] = (k, v) ∷ []
assign k v ((l, w) ∷ ps) = if same String-discrete l k then (l, v) ∷ ps else (l, w) ∷ assign k v ps

-- `{ ...left, ...right }`.
unfoldable pub spread : {V : Type 0} → List (String × V) → List (String × V) → List (String × V)
unfolding assign
spread left [] = left
spread left ((k, v) ∷ ps) = spread (assign k v left) ps

-- `new ?? old`.
abbrev pub or_else : {A : Type 0} → Option A → A → A
or_else none old = old
or_else (some new) old = new

abbrev pub or_option : {A : Type 0} → Option A → Option A → Option A
or_option none old = old
or_option (some new) old = some new

pub record Observation (N : Type 0) : Type 0 where
  pub exit_code : Option N
  pub url : Option String
  pub visible_selectors : Option (List String)
  pub input_values : Option (List (String × String))
  pub visible_text : Option (List String)

pub record WorldState (N : Type 0) : Type 0 where
  pub url : Option String
  pub visible_selectors : List String
  pub input_values : List (String × String)
  pub visible_text : List String
  pub last_exit_code : Option N
  pub last_json : Option (Json N)
  pub last_output : String

-- `visible_text`, or the single `text`.
unfoldable pub visible_text_of : Option (List String) → Option String → Option (List String)
visible_text_of (some ts) _ = some ts
visible_text_of none (some t) = some (t ∷ [])
visible_text_of none none = none

unfoldable pub input_values_after :
    List (String × String) → Option (List (String × String)) → List (String × String)
unfolding spread
input_values_after old none = old
input_values_after old (some new) = spread old new

module _ {N : Type 0} where
  unfoldable pub initial_world_state : WorldState N
  initial_world_state = record {
    url = none;
    visible_selectors = [];
    input_values = [];
    visible_text = [];
    last_exit_code = none;
    last_json = none;
    last_output = "";
  }

  abbrev pub number_of : Option (Json N) → Option N
  number_of (some (number n)) = some n
  number_of _ = none

  abbrev pub string_of : Option (Json N) → Option String
  string_of (some (string s)) = some s
  string_of _ = none

  -- The strings of an array; other items are dropped.
  unfoldable pub strings : Items N → List String
  strings no_item = []
  strings (item (string s) vs) = s ∷ strings vs
  strings (item _ vs) = strings vs

  unfoldable pub string_fields : Fields N → List (String × String)
  string_fields no_field = []
  string_fields (field k (string s) fs) = (k, s) ∷ string_fields fs
  string_fields (field k _ fs) = string_fields fs

  unfoldable pub strings_of : Option (Json N) → Option (List String)
  unfolding strings
  strings_of (some (array vs)) = some (strings vs)
  strings_of _ = none

  unfoldable pub input_values_of : Option (Json N) → Option (List (String × String))
  unfolding string_fields
  input_values_of (some (object fs)) = some (string_fields fs)
  input_values_of _ = none

  abbrev pub nothing_observed : Observation N
  nothing_observed = record {
    exit_code = none;
    url = none;
    visible_selectors = none;
    input_values = none;
    visible_text = none;
  }

  unfoldable pub observation_from_result : Json N → Observation N
  unfolding get_field strings_of input_values_of visible_text_of
  observation_from_result (object raw) = record {
    exit_code = number_of (get_field "exit_code" raw);
    url = string_of (get_field "url" raw);
    visible_selectors = strings_of (get_field "visible_selectors" raw);
    input_values = input_values_of (get_field "input_values" raw);
    visible_text =
        visible_text_of (strings_of (get_field "visible_text" raw))
          (string_of (get_field "text" raw));
  }
  observation_from_result _ = nothing_observed

  unfoldable pub observation_from_text : String → Observation N
  observation_from_text t = record {
    exit_code = none;
    url = none;
    visible_selectors = none;
    input_values = none;
    visible_text = some (t ∷ []);
  }

  abbrev pub output_of : Host N → Json N → String
  output_of h (string s) = s
  output_of h v = h.stringify v

  unfoldable pub merge_world_state : Host N → WorldState N → Observation N → Json N → WorldState N
  unfolding input_values_after
  merge_world_state h w o raw = record {
    url = or_option o.url w.url;
    visible_selectors = or_else o.visible_selectors w.visible_selectors;
    input_values = input_values_after w.input_values o.input_values;
    visible_text = or_else o.visible_text w.visible_text;
    last_exit_code = or_option o.exit_code w.last_exit_code;
    last_json = some raw;
    last_output = output_of h raw;
  }
