-- ===== src/Core/Template/Tests.antt =====
-- Templates of both versions, with one parameter bound.
use rote.Prelude.{ℕ, String, some, none, [], ◌∷◌, ◌≡◌, refl, String-discrete}
use rote.Executor.Json.{Json, string, number, object, field, no_field}
use rote.Executor.Attempt.{Bindings, text, amount}
use rote.Core.Template.{
  segments, reference_at, sole_reference, is_escaped, kept_slashes, add_refs, render_segments,
  render_string, render_template, walk_strings, extract_param_refs,
}
use rote.Core.Template.Segments.{show_all, show_all-segments}
use rote.Core.Template.Bound.{is_some, every, is_bound, render-extract}
use rote.Core.Template.Plain.{render-plain}

abbrev show : ℕ → String
show n = "7"

abbrev bindings : Bindings ℕ
bindings = ("who", text "you") ∷ ("n", amount 7) ∷ []

mixed :
    render_string show 1 bindings "hi {{who}}, {{{n}} \\{{no}}" ≡ some (string "hi you, {7 {{no}}")
unfolding render_string render_segments sole_reference segments reference_at is_escaped kept_slashes
    String-discrete
mixed = refl

sole_number : render_string show 1 bindings "{{n}}" ≡ some (number 7)
unfolding render_string sole_reference reference_at String-discrete
sole_number = refl

-- In version 2 a pair of backslashes is one, and the reference is none that is escaped.
escaped_slash : render_string show 2 bindings "a\\\\{{who}}" ≡ some (string "a\\you")
unfolding render_string render_segments sole_reference segments reference_at is_escaped kept_slashes
    String-discrete
escaped_slash = refl

unbound : render_string show 1 bindings "a {{b}}" ≡ none
unfolding render_string render_segments sole_reference segments reference_at is_escaped kept_slashes
    String-discrete
unbound = refl

abbrev arguments : Json ℕ
arguments =
    object (field "to" (string "{{who}} and {{b}}") (field "literal" (string "\\{{c}}") no_field))

collected : extract_param_refs 1 arguments ≡ "who" ∷ "b" ∷ []
unfolding extract_param_refs walk_strings add_refs segments reference_at is_escaped String-discrete
collected = refl

render-extract_example :
    is_some (render_template show 1 bindings arguments)
    ≡ every (is_bound bindings) (extract_param_refs 1 arguments)
render-extract_example = render-extract show 1 bindings arguments

show_all-segments_example : show_all (segments 0 0 "a \\{{b}}") ≡ "a \\{{b}}"
show_all-segments_example = show_all-segments "a \\{{b}}"

render-plain_example : render_string show 1 bindings "a {b} \\" ≡ some (string "a {b} \\")
unfolding segments reference_at
render-plain_example = render-plain show 1 bindings "a {b} \\" refl
