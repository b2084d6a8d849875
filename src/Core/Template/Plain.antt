-- ===== src/Core/Template/Plain.antt =====
-- packages/core/src/template.ts: texts without references.
use rote.Prelude.{
  ℕ, String, some, Bool, true, false, List, [], ◌∷◌, ◌≡◌, refl, sym, ap, ◌∙◌, Option-cases, inl,
  inr,
}
use rote.Executor.Json.{string}
use rote.Executor.Attempt.{Bindings}
use rote.Core.Template.{
  Segment, character, reference, segments, sole_reference, map_option, render_segments,
  render_string,
}
use rote.Core.Template.Segments.{show_all, show_all-segments}
use rote.Core.Template.Bound.{sole_segments}

-- Escaped or not.
abbrev pub has_reference : List Segment → Bool
has_reference [] = false
has_reference (character c ∷ ss) = has_reference ss
has_reference (reference k n ∷ ss) = true

module _ {N : Type 0} (show : N → String) (version : ℕ) (bs : Bindings N) where
  render_segments-plain :
      (ss : List Segment)
      → has_reference ss ≡ false
      → render_segments show version bs ss ≡ some (show_all ss)
  unfolding render_segments
  render_segments-plain [] h = refl
  render_segments-plain (character c ∷ ss) h = rw (render_segments-plain ss h) refl
  render_segments-plain (reference k n ∷ ss) h = absurd cc

  -- A text in which no reference stands renders to itself, whatever is bound.
  pub render-plain :
      (s : String)
      → has_reference (segments 0 0 s) ≡ false
      → render_string show version bs s ≡ some (string s)
  unfolding render_string
  render-plain s h = elim (Option-cases (sole_reference s)) [
    | inr (n, e) ↦
        let found : true ≡ false = ap has_reference (sym (sole_segments s n e)) ∙ h in absurd cc
    | inl e ↦
        rw (e, render_string)
          (ap (map_option string) (render_segments-plain (segments 0 0 s) h)
            ∙ ap (λ t. some (string t)) (show_all-segments s))
  ]
