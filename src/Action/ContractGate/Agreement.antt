-- ===== src/Action/ContractGate/Agreement.antt =====
-- packages/action/src/action-contract-gate.ts: the classes of a derived contract at the gate and at the
-- speculation fence, and the comparison of the contracts of two nodes.
use rote.Prelude.{
  Option, some, none, Bool, true, false, List, Result, ok, err, ok_injective, ◌≡◌, ◌↔◌, ◌⊎◌, inl,
  inr, refl, ◌≢◌, String, [], List-cases, sym, ap, subst, ◌∙◌,
}
use rote.Core.ActionContract.{
  Verb, navigate, click, hover, read, navigation, Control, link, submit, FormMethod, post,
  ActionContract, Mismatch, Drift, Comparison, compatible, contract_mismatch,
  compare_action_contracts,
}
use rote.Core.ActionContract.Matrix.{IsCompatible, is_compatible, compare_iff, SameEffect}
use rote.Perception.Node.{ContextCoordinate, NodeAffordance}
use rote.Action.SpeculationFence.{
  SpeculationInput, SpeculationClass, pure_read, local_nav, classify_speculation,
}
use rote.Action.SpeculationFence.Boundary.{read_class, nav_class}
use rote.Action.ContractGate.{
  contract_for, stable_node_ref, submit_safety, click_safety, derive_action_safety, DeriveInput,
  generic_affordance, context_hash_of, contract_with, contract_without, contract_of_affordance,
  derive_action_contract, assert_compatible, assert_action_contract,
}

-- A click on a link or on the submit of a form that does not post, or a navigation.
abbrev pub IsDestination : Verb → Control → Option FormMethod → Type 0
IsDestination v c m =
    (v ≡ navigate) ⊎ ((v ≡ click) × ((c ≡ link) ⊎ ((c ≡ submit) × (m ≢ some post))))

-- A contract and its class at the fence: the safety of the contract fits both the class and the verb.
pub record IsClassed (c : ActionContract) (class : SpeculationClass) : Type 0 where
  pub reads : class ≡ pure_read → c.safety ≡ read
  pub moves : class ≡ local_nav → c.safety ≡ navigation
  pub hovers : c.safety ≡ read → c.verb ≡ hover
  pub leads :
      c.safety ≡ navigation → IsDestination c.verb c.affordance.control c.affordance.form_method

submits :
    (m : Option FormMethod)
    → ((submit_safety m ≡ read) → ⊥) × (submit_safety m ≡ navigation → m ≢ some post)
submits none = (λ e. absurd cc, λ e k. absurd cc)
submits (some post) = (λ e. absurd cc, λ e k. absurd cc)
submits (some _) = (λ e. absurd cc, λ e k. absurd cc)

clicks :
    (m : Option FormMethod) (c : Control)
    → ((click_safety m c ≡ read) → ⊥)
      × (click_safety m c ≡ navigation → (c ≡ link) ⊎ ((c ≡ submit) × (m ≢ some post)))
clicks m link = (λ e. absurd cc, λ e. inl refl)
clicks m submit = ((submits m).0, λ e. inr (refl, (submits m).1 e))
clicks m _ = (λ e. absurd cc, λ e. absurd cc)

verbs :
    (a : NodeAffordance) (v : Verb)
    → (derive_action_safety v a ≡ read → v ≡ hover)
      × (derive_action_safety v a ≡ navigation → IsDestination v a.control a.form_method)
verbs a hover = (λ e. refl, λ e. absurd cc)
verbs a navigate = (λ e. absurd cc, λ e. inl refl)
verbs a click = (
  λ e. absurd ((clicks a.form_method a.control).0 e),
  λ e. inr (refl, (clicks a.form_method a.control).1 e),
)
verbs a _ = (λ e. absurd cc, λ e. absurd cc)

reads_safety : (a : NodeAffordance) (v : Verb) → v ≡ hover → derive_action_safety v a ≡ read
reads_safety a v e = ap (λ x. derive_action_safety x a) e

moves_safety :
    (a : NodeAffordance) (v : Verb)
    → (v ≡ navigate) ⊎ ((v ≡ click) × (a.control ≡ link))
    → derive_action_safety v a ≡ navigation
moves_safety a v (inl e) = ap (λ x. derive_action_safety x a) e
moves_safety a v (inr (e, on_link)) =
    ap (λ x. derive_action_safety x a) e ∙ ap (click_safety a.form_method) on_link

contract_with-IsClassed :
    (d : DeriveInput) (a : NodeAffordance) (id : String) (i : SpeculationInput)
    → contract_with d a id ≡ i.contract
    → IsClassed i.contract (classify_speculation i).class
contract_with-IsClassed d a id i e =
    subst (λ c. IsClassed c (classify_speculation i).class) e
      (record {
        reads = λ k. reads_safety a d.verb (subst (λ c. c.verb ≡ hover) (sym e) (read_class i k));
        moves = λ k. moves_safety a d.verb (
            subst (λ c. (c.verb ≡ navigate) ⊎ ((c.verb ≡ click) × (c.affordance.control ≡ link)))
              (sym e) (nav_class i k));
        hovers = (verbs a d.verb).0;
        leads = (verbs a d.verb).1;
      })

contract_for-IsClassed :
    (d : DeriveInput) (a : NodeAffordance) (id : Option String) (i : SpeculationInput)
    → contract_for d a id ≡ ok (i.contract)
    → IsClassed i.contract (classify_speculation i).class
contract_for-IsClassed d a none i e = absurd cc
contract_for-IsClassed d a (some id) i e = contract_with-IsClassed d a id i (ok_injective _ _ e)

contract_without-IsClassed :
    (d : DeriveInput) (v : Verb) (i : SpeculationInput)
    → contract_without d v ≡ ok (i.contract)
    → IsClassed i.contract (classify_speculation i).class
unfolding contract_without
contract_without-IsClassed d navigate i e =
    contract_for-IsClassed d generic_affordance (stable_node_ref d.node.id) i e
contract_without-IsClassed d _ i e = absurd cc

contract_of-IsClassed :
    (d : DeriveInput) (a : Option NodeAffordance) (i : SpeculationInput)
    → contract_of_affordance d a ≡ ok (i.contract)
    → IsClassed i.contract (classify_speculation i).class
unfolding contract_of_affordance
contract_of-IsClassed d none i e = contract_without-IsClassed d d.verb i e
contract_of-IsClassed d (some a) i e = contract_for-IsClassed d a (stable_node_ref d.node.id) i e

-- The classes of a contract that was derived from a live node fit each other: where the fence
-- classes it as a pure read its safety is `read`, and where it classes it as a local navigation its
-- safety is `navigation`; and a safety `read` is a hover's only, a safety `navigation` only that of
-- a navigation, of a click on a link or of a click on the submit of a form that does not post.
pub derived-IsClassed :
    (d : DeriveInput) (i : SpeculationInput)
    → derive_action_contract d ≡ ok (i.contract)
    → IsClassed i.contract (classify_speculation i).class
unfolding derive_action_contract
derived-IsClassed d i e = contract_of-IsClassed d d.node.affordance i e

-- No part of a browsing context lies between the node and the page.
abbrev pub IsOnPage : Option ContextCoordinate → Type 0
IsOnPage none = Unit
IsOnPage (some c) = c.path ≡ []

-- Both nodes stand on the page itself, or both below a path of contexts of one hash.
abbrev pub SameContext : Option ContextCoordinate → Option ContextCoordinate → Type 0
SameContext p q =
    (IsOnPage p × IsOnPage q)
    ⊎ ((c : ContextCoordinate) × (d : ContextCoordinate) × (p ≡ some c)
        × (q ≡ some d)
        × (c.path ≢ [])
        × (d.path ≢ [])
        × (c.context_hash ≡ d.context_hash))

Placed : Option ContextCoordinate → Type 0
Placed p =
    (IsOnPage p × (context_hash_of p ≡ none))
    ⊎ ((c : ContextCoordinate) × (p ≡ some c)
        × (c.path ≢ [])
        × (context_hash_of p ≡ some c.context_hash))

placed : (p : Option ContextCoordinate) → Placed p
unfolding Placed
placed none = inl (tt, refl)
placed (some c) = elim (List-cases c.path) [
  | inl e ↦ inl (e, rw e refl)
  | inr (s, ss, e) ↦ inr (c, refl, (λ k. absurd (cc (e, k))), rw e refl)
]

not_on_page :
    (p : Option ContextCoordinate) (c : ContextCoordinate)
    → p ≡ some c
    → c.path ≢ []
    → IsOnPage p
    → ⊥
not_on_page p c e deep top = deep (subst IsOnPage e top)

context_eq :
    {c d : ContextCoordinate} → ◌≡◌ {A = Option ContextCoordinate} (some c) (some d) → c ≡ d
context_eq e = cc

context_iff :
    (p q : Option ContextCoordinate) → (context_hash_of p ≡ context_hash_of q) ↔ SameContext p q
unfolding Placed
context_iff p q = elim (placed p) [
  | inl (top_p, hp) ↦ elim (placed q) [
    | inl (top_q, hq) ↦ (λ e. inl (top_p, top_q), λ s. hp ∙ sym hq)
    | inr (d, is_d, deep, hq) ↦ (
      λ e. absurd (cc (hp, hq, e)),
      λ s. elim s [
        | inl (x, y) ↦ absurd (not_on_page q d is_d deep y)
        | inr (c, _, is_c, _, deep_c, _, _) ↦ absurd (not_on_page p c is_c deep_c top_p)
      ],
    )
  ]
  | inr (c, is_c, deep_c, hp) ↦ elim (placed q) [
    | inl (top_q, hq) ↦ (
      λ e. absurd (cc (hp, hq, e)),
      λ s. elim s [
        | inl (x, y) ↦ absurd (not_on_page p c is_c deep_c x)
        | inr (_, d, _, is_d, _, deep_d, _) ↦ absurd (not_on_page q d is_d deep_d top_q)
      ],
    )
    | inr (d, is_d, deep_d, hq) ↦ (
      λ e. inr (c, d, is_c, is_d, deep_c, deep_d, cc (hp, hq, e)),
      λ s. elim s [
        | inl (x, y) ↦ absurd (not_on_page p c is_c deep_c x)
        | inr (c2, d2, is_c2, is_d2, _, _, h) ↦
            hp
            ∙ ap (λ x. some x)
                (ap (λ x. x.context_hash) (context_eq (sym is_c ∙ is_c2))
                  ∙ h
                  ∙ ap (λ x. x.context_hash) (context_eq (sym is_d2 ∙ is_d)))
            ∙ sym hq
      ],
    )
  ]
]

-- Two nodes that stand for the same control under the same verb.
pub record SameControl (d e : DeriveInput) (a b : NodeAffordance) : Type 0 where
  pub same_verb : d.verb ≡ e.verb
  pub same_role : d.node.role ≡ e.node.role
  pub same_context : SameContext d.node.context e.node.context
  pub same_affordance : a ≡ b
  pub same_effect : SameEffect d.required_effect e.required_effect

affordance_eq :
    (d e : DeriveInput) (a b : NodeAffordance) (id other : String)
    → IsCompatible (contract_with d a id) (contract_with e b other)
    → a ≡ b
affordance_eq d e a b id other c = λ k. record {
  control = c.control_eq k;
  input_type = c.input_eq k;
  enter_behavior = c.enter_eq k;
  destination_hash = c.destination_eq k;
  form_method = c.method_eq k;
  enabled = c.enabled_eq k;
  draggable = c.draggable_eq k;
}

IsCompatible-iff :
    (d e : DeriveInput) (a b : NodeAffordance) (id other : String)
    → IsCompatible (contract_with d a id) (contract_with e b other) ↔ SameControl d e a b
IsCompatible-iff d e a b id other = (
  λ c. record {
    same_verb = c.verb_eq;
    same_role = c.role_eq;
    same_context = (context_iff d.node.context e.node.context).0 c.context_eq;
    same_affordance = affordance_eq d e a b id other c;
    same_effect = c.effect_eq;
  },
  λ s. record {
    verb_eq = s.same_verb;
    role_eq = s.same_role;
    context_eq = (context_iff d.node.context e.node.context).1 s.same_context;
    control_eq = ap (λ x. x.control) s.same_affordance;
    input_eq = ap (λ x. x.input_type) s.same_affordance;
    enter_eq = ap (λ x. x.enter_behavior) s.same_affordance;
    draggable_eq = ap (λ x. x.draggable) s.same_affordance;
    destination_eq = ap (λ x. x.destination_hash) s.same_affordance;
    method_eq = ap (λ x. x.form_method) s.same_affordance;
    safety_eq = λ k. derive_action_safety (s.same_verb k) (s.same_affordance k);
    enabled_eq = ap (λ x. x.enabled) s.same_affordance;
    effect_eq = s.same_effect;
  },
)

abbrev pub passes : Result (List Mismatch) (List Drift) → Bool
passes (ok drifts) = true
passes (err ms) = false

passes_assert : (c : Comparison) → passes (assert_compatible c) ≡ is_compatible c
passes_assert (compatible ds) = refl
passes_assert (contract_mismatch ms) = refl

with_reference :
    (d : DeriveInput) (a : NodeAffordance) (id : Option String) (r : ActionContract)
    → contract_for d a id ≡ ok r
    → (x : String) × (contract_with d a x ≡ r)
with_reference d a none r e = absurd cc
with_reference d a (some x) r e = (x, ok_injective _ r e)

derived :
    (d : DeriveInput) (a : NodeAffordance) (r : ActionContract)
    → d.node.affordance ≡ some a
    → derive_action_contract d ≡ ok r
    → (x : String) × (contract_with d a x ≡ r)
unfolding derive_action_contract contract_of_affordance
derived d a r h e = with_reference d a (stable_node_ref d.node.id) r (rw h at e)

-- Of two nodes with affordances, the contract derived from the one lets the verb act on the other
-- exactly when verb and role, the whole affordance and the effects that both declare are the same,
-- and both nodes stand on the page itself or both below a non-empty path of contexts of one hash:
-- identity and name may change, and nothing else.
pub assert_iff :
    (d e : DeriveInput) (a b : NodeAffordance) (r c : ActionContract)
    → d.node.affordance ≡ some a
    → e.node.affordance ≡ some b
    → derive_action_contract d ≡ ok r
    → derive_action_contract e ≡ ok c
    → (passes (assert_action_contract r c) ≡ true) ↔ SameControl d e a b
unfolding assert_action_contract
assert_iff d e a b r c ha hb dr ec =
    let (id, is_r) = derived d a r ha dr in
    let (other, is_c) = derived e b c hb ec in
    let compared = passes_assert (compare_action_contracts r c) in
    (
      λ h. (IsCompatible-iff d e a b id other).0 (
          subst (λ x. IsCompatible x (contract_with e b other)) (sym is_r)
            (subst (IsCompatible r) (sym is_c) ((compare_iff r c).0 (sym compared ∙ h)))),
      λ s.
          compared
          ∙ (compare_iff r c).1 (
              subst (λ x. IsCompatible x c) is_r
                (subst (IsCompatible (contract_with d a id)) is_c
                  ((IsCompatible-iff d e a b id other).1 s))),
    )
