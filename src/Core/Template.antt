-- ===== src/Core/Template.antt =====
-- packages/core/src/template.ts. `matchAll` of the pattern `{{name}}` cuts a text into segments: a
-- reference with the number of backslashes right before it, or a character of the rest. The slices
-- that the source appends are appended character by character. A key `__proto__` is left aside.
pub mod Segments
pub mod Bound
pub mod Plain
mod Tests
use Prim.Native.Char.{Char, code}
use Prim.Native.String.{◌++◌ as join}
use rote.Prelude.{
  ℕ, zero, suc, ◌+◌, ◌-◌, String, Option, some, none, Bool, true, false, not, ◌&&◌, ◌||◌, List, [],
  ◌∷◌, same, leb, ltb, ◌==◌, includes, String-discrete, if◌then◌else◌, ◌++◌,
}
use rote.Executor.Json.{
  Json, null, boolean, number, string, array, object, Items, no_item, item, Fields, no_field, field,
}
use rote.Executor.Attempt.{Binding, text, amount, flag, Bindings}

-- `\w`.
abbrev pub is_word : ℕ → Bool
is_word c =
    (leb b'0' c && leb c b'9')
    || (leb b'A' c && leb c b'Z')
    || (c == b'_')
    || (leb b'a' c && leb c b'z')

abbrev pub size : String → ℕ
size String.[] = 0
size (String.◌∷◌ c s) = suc (size s)

-- The longest text of word characters at the start, and what follows it.
abbrev pub word : String → String
word String.[] = String.[]
word (String.◌∷◌ c s) = if is_word (code c) then String.◌∷◌ c (word s) else String.[]

abbrev pub after_word : String → String
after_word String.[] = String.[]
after_word (String.◌∷◌ c s) = if is_word (code c) then after_word s else String.◌∷◌ c s

abbrev pub opens : String → Option String
opens (String.◌∷◌ c (String.◌∷◌ d s)) =
    if (code c == b'{') && (code d == b'{') then some s else Option.none
opens _ = none

abbrev pub closes : String → Bool
closes (String.◌∷◌ c (String.◌∷◌ d s)) = (code c == b'}') && (code d == b'}')
closes _ = false

abbrev pub is_named : String → Bool
is_named String.[] = false
is_named (String.◌∷◌ c s) = true

abbrev pub name_of : String → Option String
name_of s = if is_named (word s) && closes (after_word s) then some (word s) else Option.none

-- The name, where a reference stands at the start.
unfoldable pub reference_at : String → Option String
reference_at s = elim (opens s) [ none ↦ none | some rest ↦ name_of rest ]

pub data Segment : Type 0 where
  character : Char → Segment
  reference : (slashes : ℕ) (name : String) → Segment

abbrev pub backslash : Char
backslash = "\\"

abbrev pub slash_segments : ℕ → List Segment → List Segment
slash_segments zero ss = ss
slash_segments (suc k) ss = character backslash ∷ slash_segments k ss

-- `skip` characters belong to the last reference; `slashes` backslashes stand right before the text.
unfoldable pub segments : (skip slashes : ℕ) → String → List Segment
unfolding reference_at
segments skip slashes String.[] = slash_segments slashes []
segments (suc skip) slashes (String.◌∷◌ c s) = segments skip slashes s
segments zero slashes (String.◌∷◌ c s) = elim (reference_at (String.◌∷◌ c s)) [
  | some name ↦ reference slashes name ∷ segments (size name + 3) 0 s
  | none ↦
      if code c == b'\\'
      then segments zero (suc slashes) s
      else slash_segments slashes (character c ∷ segments zero 0 s)
]

-- `^{{name}}$`.
unfoldable pub sole_reference : String → Option String
unfolding reference_at
sole_reference s = elim (reference_at s) [
  | none ↦ none
  | some name ↦ if size s == size name + 4 then some name else Option.none
]

abbrev pub is_odd : ℕ → Bool
is_odd zero = false
is_odd (suc n) = not (is_odd n)

abbrev pub half : ℕ → ℕ
half zero = 0
half (suc n) = let h = half n in if is_odd n then suc h else h

-- `isEscapedReference` of a reference with so many backslashes before it.
unfoldable pub is_escaped : (version slashes : ℕ) → Bool
is_escaped version slashes = if ltb version 2 then ltb 0 slashes else is_odd slashes

-- The backslashes that are kept before it.
unfoldable pub kept_slashes : (version slashes : ℕ) → ℕ
kept_slashes version slashes = if leb 2 version then half slashes else slashes - 1

abbrev pub repeat_slash : ℕ → String → String
repeat_slash zero s = s
repeat_slash (suc k) s = String.◌∷◌ backslash (repeat_slash k s)

abbrev pub add_ref : List String → String → List String
add_ref refs name = if includes String-discrete refs name then refs else refs ++ name ∷ []

-- The references that are not escaped.
abbrev pub add_segments : ℕ → List Segment → List String → List String
add_segments version [] refs = refs
add_segments version (character c ∷ ss) refs = add_segments version ss refs
add_segments version (reference k name ∷ ss) refs =
    add_segments version ss (if is_escaped version k then refs else add_ref refs name)

unfoldable pub add_refs : ℕ → String → List String → List String
unfolding segments
add_refs version s refs = add_segments version (segments 0 0 s) refs

abbrev pub find_binding : {N : Type 0} → String → Bindings N → Option (Binding N)
find_binding name [] = none
find_binding name ((k, b) ∷ bs) =
    if same String-discrete k name then some b else find_binding name bs

-- `String(value)`; the text of a number is the host's.
abbrev pub show_binding : {N : Type 0} → (N → String) → Binding N → String
show_binding show (text s) = s
show_binding show (amount n) = show n
show_binding show (flag true) = "true"
show_binding show (flag false) = "false"

abbrev pub binding_value : {N : Type 0} → Binding N → Json N
binding_value (text s) = string s
binding_value (amount n) = number n
binding_value (flag b) = boolean b

abbrev pub map_option : {A B : Type 0} → (A → B) → Option A → Option B
map_option f none = none
map_option f (some a) = some (f a)

-- `none` is `UnboundParamError`.
module _ {N : Type 0} (show : N → String) (version : ℕ) (bs : Bindings N) where
  abbrev pub render_reference : ℕ → String → Option String
  render_reference k name =
      if is_escaped version k
      then some (join "{{" (join name "}}"))
      else map_option (show_binding show) (find_binding name bs)

  unfoldable pub render_segments : List Segment → Option String
  unfolding is_escaped kept_slashes
  render_segments [] = some String.[]
  render_segments (character c ∷ ss) = map_option (String.◌∷◌ c) (render_segments ss)
  render_segments (reference k name ∷ ss) = elim (render_reference k name) [
    | none ↦ none
    | some t ↦
        map_option (λ rest. repeat_slash (kept_slashes version k) (join t rest))
          (render_segments ss)
  ]

  unfoldable pub render_string : String → Option (Json N)
  unfolding sole_reference render_segments segments
  render_string s = elim (sole_reference s) [
    | some name ↦ map_option binding_value (find_binding name bs)
    | none ↦ map_option string (render_segments (segments 0 0 s))
  ]

  unfoldable mutual
    unfolding render_string

    -- `renderTemplate`.
    pub render_template : Json N → Option (Json N)
    render_template (string s) = render_string s
    render_template (array is) = map_option array (render_items is)
    render_template (object fs) = map_option object (render_fields fs)
    render_template null = some null
    render_template (boolean b) = some (boolean b)
    render_template (number n) = some (number n)

    pub render_items : Items N → Option (Items N)
    render_items no_item = some no_item
    render_items (item j is) = elim (render_template j) [
      | none ↦ none
      | some u ↦ map_option (item u) (render_items is)
    ]

    pub render_fields : Fields N → Option (Fields N)
    render_fields no_field = some no_field
    render_fields (field k j fs) = elim (render_template j) [
      | none ↦ none
      | some u ↦ map_option (field k u) (render_fields fs)
    ]

module _ {N : Type 0} (version : ℕ) where
  unfoldable mutual
    unfolding add_refs

    -- `walkStrings`, with the callback of `extractParamRefs`.
    pub walk_strings : Json N → List String → List String
    walk_strings (string s) refs = add_refs version s refs
    walk_strings (array is) refs = walk_items is refs
    walk_strings (object fs) refs = walk_fields fs refs
    walk_strings null refs = refs
    walk_strings (boolean b) refs = refs
    walk_strings (number n) refs = refs

    pub walk_items : Items N → List String → List String
    walk_items no_item refs = refs
    walk_items (item j is) refs = walk_items is (walk_strings j refs)

    pub walk_fields : Fields N → List String → List String
    walk_fields no_field refs = refs
    walk_fields (field k j fs) refs = walk_fields fs (walk_strings j refs)

  unfoldable pub extract_param_refs : Json N → List String
  unfolding walk_strings
  extract_param_refs j = walk_strings j []
