-- ===== src/Core/ActionContract/Matrix.antt =====
-- The compatibility matrix as a relation, and the comparison decides it.
use rote.Prelude.{
  String, Option, some, Bool, true, false, List, [], ◌∷◌, ◌++◌, ◌≡◌, refl, ◌↔◌, same_iff, arith,
}
use rote.Core.ActionContract.{
  Effect, ActionContract, MismatchField, Mismatch, Drift, Comparison, compatible, contract_mismatch,
  Effect-discrete, differ, differ_effect, mismatches, verdict, compare_action_contracts,
}

-- The effects agree where both sides declare one.
abbrev pub SameEffect : Option Effect → Option Effect → Type 0
SameEffect (some a) (some b) = a ≡ b
SameEffect a b = Unit

-- What the matrix demands: all but the accessible name and the stable id.
pub record IsCompatible (l r : ActionContract) : Type 0 where
  pub verb_eq : l.verb ≡ r.verb
  pub role_eq : l.target.role ≡ r.target.role
  pub context_eq : l.target.context_hash ≡ r.target.context_hash
  pub control_eq : l.affordance.control ≡ r.affordance.control
  pub input_eq : l.affordance.input_type ≡ r.affordance.input_type
  pub enter_eq : l.affordance.enter_behavior ≡ r.affordance.enter_behavior
  pub draggable_eq : l.affordance.draggable ≡ r.affordance.draggable
  pub destination_eq : l.affordance.destination_hash ≡ r.affordance.destination_hash
  pub method_eq : l.affordance.form_method ≡ r.affordance.form_method
  pub safety_eq : l.safety ≡ r.safety
  pub enabled_eq : l.enabled ≡ r.enabled
  pub effect_eq : SameEffect l.required_effect r.required_effect

module _ {A : Type 0} (d : Discrete A) (text : A → String) (f : MismatchField) where
  differ-eq_nil : (a b : A) → differ d text f a b ≡ [] → a ≡ b
  unfolding differ
  differ-eq_nil a b h = ground (arith, same_iff d a b)

  differ_of_eq : (a b : A) → a ≡ b → differ d text f a b ≡ []
  unfolding differ
  differ_of_eq a b h = ground (arith, same_iff d a b)

differ_effect-eq_nil : (a b : Option Effect) → differ_effect a b ≡ [] → SameEffect a b
unfolding differ differ_effect
differ_effect-eq_nil (some a) (some b) h = ground (arith, same_iff Effect-discrete a b)
differ_effect-eq_nil (some a) Option.none h = tt
differ_effect-eq_nil Option.none b h = tt

differ_effect_of_same : (a b : Option Effect) → SameEffect a b → differ_effect a b ≡ []
unfolding differ differ_effect
differ_effect_of_same (some a) (some b) h = ground (arith, same_iff Effect-discrete a b)
differ_effect_of_same (some a) Option.none h = refl
differ_effect_of_same Option.none b h = refl

append-eq_nil : {A : Type 0} (xs ys : List A) → xs ++ ys ≡ [] → (xs ≡ []) × (ys ≡ [])
append-eq_nil [] ys h = (refl, h)
append-eq_nil (x ∷ xs) ys h = cc

mismatches_sound : (l r : ActionContract) → mismatches l r ≡ [] → IsCompatible l r
unfolding mismatches
mismatches_sound l r h0 =
    let (e1, h1) = append-eq_nil _ _ h0 in
    let (e2, h2) = append-eq_nil _ _ h1 in
    let (e3, h3) = append-eq_nil _ _ h2 in
    let (e4, h4) = append-eq_nil _ _ h3 in
    let (e5, h5) = append-eq_nil _ _ h4 in
    let (e6, h6) = append-eq_nil _ _ h5 in
    let (e7, h7) = append-eq_nil _ _ h6 in
    let (e8, h8) = append-eq_nil _ _ h7 in
    let (e9, h9) = append-eq_nil _ _ h8 in
    let (e10, h10) = append-eq_nil _ _ h9 in
    let (e11, e12) = append-eq_nil _ _ h10 in
    record {
      verb_eq = differ-eq_nil _ _ _ _ _ e1;
      role_eq = differ-eq_nil _ _ _ _ _ e2;
      context_eq = differ-eq_nil _ _ _ _ _ e3;
      control_eq = differ-eq_nil _ _ _ _ _ e4;
      input_eq = differ-eq_nil _ _ _ _ _ e5;
      enter_eq = differ-eq_nil _ _ _ _ _ e6;
      draggable_eq = differ-eq_nil _ _ _ _ _ e7;
      destination_eq = differ-eq_nil _ _ _ _ _ e8;
      method_eq = differ-eq_nil _ _ _ _ _ e9;
      safety_eq = differ-eq_nil _ _ _ _ _ e10;
      enabled_eq = differ-eq_nil _ _ _ _ _ e11;
      effect_eq = differ_effect-eq_nil _ _ e12;
    }

mismatches_complete : (l r : ActionContract) → IsCompatible l r → mismatches l r ≡ []
unfolding mismatches
mismatches_complete l r c =
    rw
      (
        differ_of_eq _ _ _ _ _ c.verb_eq,
        differ_of_eq _ _ _ _ _ c.role_eq,
        differ_of_eq _ _ _ _ _ c.context_eq,
        differ_of_eq _ _ _ _ _ c.control_eq,
        differ_of_eq _ _ _ _ _ c.input_eq,
        differ_of_eq _ _ _ _ _ c.enter_eq,
        differ_of_eq _ _ _ _ _ c.draggable_eq,
        differ_of_eq _ _ _ _ _ c.destination_eq,
        differ_of_eq _ _ _ _ _ c.method_eq,
        differ_of_eq _ _ _ _ _ c.safety_eq,
        differ_of_eq _ _ _ _ _ c.enabled_eq,
      )
      (differ_effect_of_same _ _ c.effect_eq)

abbrev pub is_compatible : Comparison → Bool
is_compatible (compatible d) = true
is_compatible (contract_mismatch ms) = false

verdict_iff :
    (ms : List Mismatch) (d : List Drift) → (is_compatible (verdict ms d) ≡ true) ↔ (ms ≡ [])
unfolding verdict
verdict_iff [] d = (λ _. refl, λ _. refl)
verdict_iff (m ∷ ms) d = (λ h. cc, λ h. cc)

-- Two contracts compare as compatible exactly when verb, role, browsing context, control, input
-- type, Enter behaviour, draggability, destination, form method, safety class and the enabled
-- precondition are equal, and so are the required effects where both sides declare one.
pub compare_iff :
    (l r : ActionContract)
    → (is_compatible (compare_action_contracts l r) ≡ true) ↔ IsCompatible l r
unfolding compare_action_contracts
compare_iff l r = (
  λ h. mismatches_sound l r ((verdict_iff _ _).0 h),
  λ c. (verdict_iff _ _).1 (mismatches_complete l r c),
)
