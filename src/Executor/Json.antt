-- ===== src/Executor/Json.antt =====
-- JSON values, which the sources type as `unknown`, and packages/executor/src/json-path.ts. Numbers
-- are of a type `N` whose equality is decided. Regular expressions, `String.includes` and the texts
-- of numbers and values are the host's. `key in record` is true of the names that every object
-- inherits, whose values are functions (`__proto__` aside): no JSON value, and not `NOT_FOUND`.
use rote.Prelude.{
  ℕ, zero, suc, String, Option, some, none, Bool, List, [], ◌∷◌, same, String-discrete,
  if◌then◌else◌,
}

mutual
  pub data Json (N : Type 0) : Type 0 where
    null : Json N
    boolean : Bool → Json N
    number : N → Json N
    string : String → Json N
    array : Items N → Json N
    object : Fields N → Json N

  pub data Items (N : Type 0) : Type 0 where
    no_item : Items N
    item : Json N → Items N → Items N

  pub data Fields (N : Type 0) : Type 0 where
    no_field : Fields N
    field : String → Json N → Fields N → Fields N

-- What a path leads to: `other` is `undefined` or a function.
pub data Found (N : Type 0) : Type 0 where
  not_found : Found N
  value : Json N → Found N
  other : Found N

pub record Host (N : Type 0) : Type 0 where
  -- `String(n)`.
  pub show_number : N → String
  pub same_number : Discrete N
  pub stringify : Json N → String
  -- `text.includes(part)`, the text first.
  pub contains : String → String → Bool
  -- `new RegExp(pattern).test(text)`, the pattern first; `none` where the pattern is invalid.
  pub matches : String → String → Option Bool
  -- `path.match(SEGMENT_PATTERN) ?? []`.
  pub segments : String → List String
  -- `Number(segment)` where `/^\d+$/` accepts the segment.
  pub index_of : String → Option ℕ
  -- `name in {}`.
  pub is_inherited : String → Bool

module _ {N : Type 0} where
  unfoldable pub get_field : String → Fields N → Option (Json N)
  get_field k no_field = none
  get_field k (field l v fs) = if same String-discrete l k then some v else get_field k fs

  unfoldable pub get_item : ℕ → Items N → Option (Json N)
  get_item n no_item = none
  get_item zero (item v vs) = some v
  get_item (suc n) (item v vs) = get_item n vs

  abbrev pub found : Option (Json N) → Found N
  found none = not_found
  found (some v) = value v

  unfoldable pub member : Host N → String → Option (Json N) → Found N
  member h s none = if h.is_inherited s then other else not_found
  member h s (some v) = value v

  -- One turn of the loop of `resolve`. Objects of the language that are no JSON values end the path.
  unfoldable pub resolve_segment : Host N → String → Json N → Found N
  unfolding get_field get_item member
  resolve_segment h s (array vs) = elim (h.index_of s) [
    | none ↦ not_found
    | some n ↦ found (get_item n vs)
  ]
  resolve_segment h s (object fs) = member h s (get_field s fs)
  resolve_segment h s _ = not_found

  unfoldable pub resolve : Host N → List String → Found N → Found N
  unfolding resolve_segment
  resolve h [] v = v
  resolve h (s ∷ ss) (value v) = resolve h ss (resolve_segment h s v)
  resolve h (s ∷ ss) _ = not_found

  -- The value of a step may be undefined.
  unfoldable pub json_path : Host N → Option (Json N) → String → Found N
  unfolding resolve
  json_path h none path = elim (h.segments path) [ [] ↦ other | s ∷ ss ↦ not_found ]
  json_path h (some v) path = resolve h (h.segments path) (value v)
