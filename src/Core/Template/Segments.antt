-- ===== src/Core/Template/Segments.antt =====
-- packages/core/src/template.ts: the segments of a text are the text.
use Prim.Native.Char.{Char, code}
use Prim.Native.String.{◌++◌ as join}
use text.Mathlib.TextEquality.{Char-path}
use text.Mathlib.TextLemmas.{nil-append, cons-append}
use rote.Prelude.{
  ℕ, zero, suc, ◌+◌, String, some, none, true, ◌&&◌, List, [], ◌∷◌, ◌==◌, ◌≡◌, refl, sym, ap, subst,
  ◌∙◌, arith, Bool-cases, Option-cases, inl, inr,
}
use rote.Core.Template.{
  is_word, size, word, after_word, opens, closes, is_named, name_of, reference_at, Segment,
  character, reference, backslash, slash_segments, segments, repeat_slash,
}

-- The text of the segments.
abbrev pub show_all : List Segment → String
show_all [] = String.[]
show_all (character c ∷ ss) = String.◌∷◌ c (show_all ss)
show_all (reference k n ∷ ss) = repeat_slash k (join "{{" (join n (join "}}" (show_all ss))))

abbrev pub remove : ℕ → String → String
remove zero s = s
remove (suc n) String.[] = String.[]
remove (suc n) (String.◌∷◌ c s) = remove n s

abbrev open_brace : Char
open_brace = "{"

abbrev close_brace : Char
close_brace = "}"

join_two :
    (a b : Char) (s : String)
    → String.◌∷◌ a (String.◌∷◌ b s) ≡ join (String.◌∷◌ a (String.◌∷◌ b String.[])) s
join_two a b s = sym (
    cons-append a (String.◌∷◌ b String.[]) s
    ∙ ap (String.◌∷◌ a) (cons-append b String.[] s ∙ ap (String.◌∷◌ b) (nil-append s)))

tail : String → String
tail String.[] = String.[]
tail (String.◌∷◌ c s) = s

both_text :
    (a c d : Char) (s : String)
    → ((code c == code a) && (code d == code a)) ≡ true
    → String.◌∷◌ c (String.◌∷◌ d s) ≡ join (String.◌∷◌ a (String.◌∷◌ a String.[])) s
both_text a c d s e =
    let same_c : c ≡ a = Char-path c a (ground (arith, e)) in
    let same_d : d ≡ a = Char-path d a (ground (arith, e)) in
    subst (λ x. String.◌∷◌ x (String.◌∷◌ d s) ≡ join (String.◌∷◌ a (String.◌∷◌ a String.[])) s)
      (sym same_c)
      (subst (λ x. String.◌∷◌ a (String.◌∷◌ x s) ≡ join (String.◌∷◌ a (String.◌∷◌ a String.[])) s)
        (sym same_d) (join_two a a s))

opens_text : (s rest : String) → opens s ≡ some rest → s ≡ join "{{" rest
opens_text String.[] rest e = absurd cc
opens_text (String.◌∷◌ c String.[]) rest e = absurd cc
opens_text (String.◌∷◌ c (String.◌∷◌ d s)) rest e =
    elim (Bool-cases ((code c == b'{') && (code d == b'{'))) [
      | inl t ↦
          let same_rest : s ≡ rest = cc (rw t at e) in
          both_text open_brace c d s t ∙ ap (join "{{") same_rest
      | inr f ↦ let found : none ≡ some rest = rw f at e in absurd cc
    ]

closes_text : (s : String) → closes s ≡ true → (u : String) × (s ≡ join "}}" u)
closes_text String.[] e = absurd cc
closes_text (String.◌∷◌ c String.[]) e = absurd cc
closes_text (String.◌∷◌ c (String.◌∷◌ d s)) e = (s, both_text close_brace c d s e)

word_text : (s : String) → s ≡ join (word s) (after_word s)
word_text String.[] = refl
word_text (String.◌∷◌ c s) = elim (Bool-cases (is_word (code c))) [
  | inl e ↦ rw e (ap (String.◌∷◌ c) (word_text s) ∙ sym (cons-append c (word s) (after_word s)))
  | inr e ↦ rw e (sym (nil-append (String.◌∷◌ c s)))
]

remove_word : (n : String) (k : ℕ) (u : String) → remove (size n + k) (join n u) ≡ remove k u
remove_word String.[] k u = ap (remove (0 + k)) (nil-append u) ∙ ap (λ i. remove i u) (omega arith)
remove_word (String.◌∷◌ c n) k u =
    let counted : suc (size n) + k ≡ suc (size n + k) = omega arith in
    ap (λ i. remove i (join (String.◌∷◌ c n) u)) counted
    ∙ ap (remove (suc (size n + k))) (cons-append c n u)
    ∙ remove_word n k u

named_text : (s n : String) → name_of s ≡ some n → (u : String) × (s ≡ join n (join "}}" u))
named_text s n e = elim (Bool-cases (is_named (word s) && closes (after_word s))) [
  | inr f ↦ let found : none ≡ some n = rw f at e in absurd cc
  | inl t ↦
      let same_name : word s ≡ n = cc (rw t at e) in
      let (u, rest) = closes_text (after_word s) (ground (arith, t)) in
      (u, word_text s ∙ ap (λ x. join x (after_word s)) same_name ∙ ap (join n) rest)
]

reference_text :
    (s n : String) → reference_at s ≡ some n → (u : String) × (s ≡ join "{{" (join n (join "}}" u)))
unfolding reference_at
reference_text s n e = elim (Option-cases (opens s)) [
  | inl f ↦ let found : none ≡ some n = rw (f, reference_at) at e in absurd cc
  | inr (rest, o) ↦
      let (u, is_rest) = named_text rest n (rw (o, reference_at) at e) in
      (u, opens_text s rest o ∙ ap (join "{{") is_rest)
]

-- What a reference at the start covers.
covered :
    (c : Char) (s n : String)
    → reference_at (String.◌∷◌ c s) ≡ some n
    → join "{{" (join n (join "}}" (remove (size n + 3) s))) ≡ String.◌∷◌ c s
unfolding tail
covered c s n e =
    let (u, whole) = reference_text (String.◌∷◌ c s) n e in
    let body = join n (join "}}" u) in
    let is_tail : s ≡ String.◌∷◌ open_brace body =
      ap tail (whole ∙ sym (join_two open_brace open_brace body)) in
    let counted : size n + 3 ≡ suc (size n + 2) = omega arith in
    let rest : remove (size n + 3) s ≡ u =
      ap (remove (size n + 3)) is_tail
      ∙ ap (λ i. remove i (String.◌∷◌ open_brace body)) counted
      ∙ remove_word n 2 (join "}}" u)
      ∙ ap (remove 2) (sym (join_two close_brace close_brace u)) in
    ap (λ r. join "{{" (join n (join "}}" r))) rest ∙ sym whole

slash_moves :
    (k : ℕ) (s : String)
    → String.◌∷◌ backslash (repeat_slash k s) ≡ repeat_slash k (String.◌∷◌ backslash s)
slash_moves zero s = refl
slash_moves (suc k) s = ap (String.◌∷◌ backslash) (slash_moves k s)

show-slash_segments :
    (k : ℕ) (ss : List Segment) → show_all (slash_segments k ss) ≡ repeat_slash k (show_all ss)
show-slash_segments zero ss = refl
show-slash_segments (suc k) ss = ap (String.◌∷◌ backslash) (show-slash_segments k ss)

show-segments :
    (skip k : ℕ) (s : String) → show_all (segments skip k s) ≡ repeat_slash k (remove skip s)
unfolding segments
show-segments zero k String.[] = show-slash_segments k []
show-segments (suc skip) k String.[] = show-slash_segments k []
show-segments (suc skip) k (String.◌∷◌ c s) = show-segments skip k s
show-segments zero k (String.◌∷◌ c s) = elim (Option-cases (reference_at (String.◌∷◌ c s))) [
  | inr (n, e) ↦
      rw (e, segments)
        (ap (λ r. repeat_slash k (join "{{" (join n (join "}}" r))))
            (show-segments (size n + 3) 0 s)
          ∙ ap (repeat_slash k) (covered c s n e))
  | inl e ↦ elim (Bool-cases (code c == b'\\')) [
    | inl b ↦
        rw (e, b, segments)
          (show-segments zero (suc k) s
            ∙ slash_moves k s
            ∙ ap (λ d. repeat_slash k (String.◌∷◌ d s)) (Char-path backslash c (ground (arith, b))))
    | inr b ↦
        rw (e, b, segments)
          (show-slash_segments k (character c ∷ segments zero 0 s)
            ∙ ap (λ r. repeat_slash k (String.◌∷◌ c r)) (show-segments zero 0 s))
  ]
]

-- The segments of a text, written one after the other, are the text: none of it is lost or moved.
pub show_all-segments : (s : String) → show_all (segments 0 0 s) ≡ s
show_all-segments s = show-segments 0 0 s
