-- ===== src/Action/SpeculationFence/Boundary.antt =====
-- The fence: which actions a policy may run early.
use rote.Prelude.{
  ◌⊎◌, inl, inr, ℕ, String, Option, some, none, Bool, true, false, List, ◌≡◌, ◌≢◌, ◌↔◌, refl,
  includes, same_iff, String-discrete, ok, arith,
}
use rote.Core.ActionContract.{Verb, Control, navigate, click, hover, press, link, post}
use rote.Action.SpeculationFence.{
  SpeculationClass, pure_read, local_nav, external_effect, SpeculationClass-discrete, Verdict,
  SpeculationInput, Reason, same_origin_link, same_origin_navigation, classify_speculation,
  may_speculate, destination_verdict, click_verdict, verb_verdict, is_stale,
}

-- The document the contract was derived against is not known to be another than the live one: a
-- generation that is unknown is no obstacle.
abbrev pub IsFresh : Option ℕ → Option ℕ → Type 0
IsFresh (some r) (some c) = r ≡ c
IsFresh _ _ = Unit

-- The control leads to a destination that is known and that starts no download.
abbrev pub LeadsHome : SpeculationInput → Option String → Type 0
LeadsHome i none = ⊥
LeadsHome i (some d) =
    (includes String-discrete i.known_same_origin_destinations d ≡ true)
    × (includes String-discrete i.download_destinations d ≡ false)

-- What a click on this control can reach stays inside the browser.
abbrev pub ClickStays : SpeculationInput → Control → Type 0
ClickStays i link = LeadsHome i i.contract.affordance.destination_hash
ClickStays i _ = ⊥

-- A hover stays; a navigation and a click on a link stay if they lead home; nothing else does.
abbrev pub Stays : SpeculationInput → Verb → Type 0
Stays i hover = Unit
Stays i navigate = LeadsHome i i.contract.affordance.destination_hash
Stays i click = ClickStays i i.contract.affordance.control
Stays i _ = ⊥

pub record IsHarmless (i : SpeculationInput) : Type 0 where
  pub fresh : IsFresh i.recorded_document_generation i.current_document_generation
  pub matched : i.contract_mismatched ≡ false
  pub unambiguous : i.target_ambiguous ≡ false
  pub ready : i.contract.enabled ≡ true
  pub no_post : i.contract.affordance.form_method ≢ some post
  pub stays : Stays i i.contract.verb

-- No policy lets an external effect run: a verdict of that class is refused, or the policy is.
pub may_speculate-ne_external :
    (v : Verdict) (permit : List SpeculationClass)
    → may_speculate v permit ≡ ok true
    → (v.class ≢ external_effect)
      × (includes SpeculationClass-discrete permit v.class ≡ true)
      × (includes SpeculationClass-discrete permit external_effect ≡ false)
unfolding may_speculate
may_speculate-ne_external v permit h =
    ground (arith, same_iff SpeculationClass-discrete v.class external_effect)

IsFresh-iff : (r c : Option ℕ) → (is_stale r c ≡ false) ↔ IsFresh r c
unfolding is_stale
IsFresh-iff (some r) (some c) = ground arith
IsFresh-iff (some r) none = (λ _. tt, λ _. refl)
IsFresh-iff none c = (λ _. tt, λ _. refl)

-- The two classes that a policy of the effect-fenced speculator can name.
abbrev pub is_eligible : SpeculationClass → Bool
is_eligible pure_read = true
is_eligible local_nav = true
is_eligible _ = false

destination_iff :
    (i : SpeculationInput) (r : Reason) (d : Option String)
    → (is_eligible (destination_verdict i r d).class ≡ true) ↔ LeadsHome i d
unfolding destination_verdict
destination_iff i r none = (λ h. cc, λ h. absurd h)
destination_iff i r (some d) = (λ h. ground arith, λ h. ground arith)

click_iff :
    (i : SpeculationInput) (c : Control)
    → (is_eligible (click_verdict i c).class ≡ true) ↔ ClickStays i c
unfolding click_verdict
click_iff i link = destination_iff i same_origin_link i.contract.affordance.destination_hash
click_iff i _ = (λ h. cc, λ h. absurd h)

verb_iff :
    (i : SpeculationInput) (v : Verb) → (is_eligible (verb_verdict i v).class ≡ true) ↔ Stays i v
unfolding verb_verdict
verb_iff i hover = (λ _. tt, λ _. refl)
verb_iff i navigate =
    destination_iff i same_origin_navigation i.contract.affordance.destination_hash
verb_iff i click = click_iff i i.contract.affordance.control
verb_iff i press = (λ h. absurd (ground arith), λ h. absurd h)
verb_iff i _ = (λ h. cc, λ h. absurd h)

-- A contract is classed as a read or as a local navigation exactly when all of this holds: the
-- generation of the document it was derived against and that of the live document are equal where
-- both are known, and one that is unknown is no obstacle; it is not mismatched, not ambiguous,
-- enabled, of no form that posts; and it is a hover, or a navigation or a click on a link to a
-- destination that is known and starts no download.
pub classify_iff :
    (i : SpeculationInput) → (is_eligible (classify_speculation i).class ≡ true) ↔ IsHarmless i
unfolding classify_speculation
classify_iff i = (
  λ h. record {
    fresh = (IsFresh-iff _ _).0 (ground arith);
    matched = ground arith;
    unambiguous = ground arith;
    ready = ground arith;
    no_post = ground arith;
    stays = (verb_iff i i.contract.verb).0 (ground arith);
  },
  λ h. ground (
    arith,
    (IsFresh-iff i.recorded_document_generation i.current_document_generation).1 h.fresh,
    (verb_iff i i.contract.verb).1 h.stays,
  ),
)

-- The class of a destination is a local navigation or an external effect.
destination_class :
    (i : SpeculationInput) (r : Reason) (o : Option String)
    → (destination_verdict i r o).class ≡ pure_read
    → ⊥
unfolding destination_verdict
destination_class i r none e = cc
destination_class i r (some o) e = ground arith

-- Past the guards of the fence.
passes_guards :
    (i : SpeculationInput) (k : SpeculationClass)
    → k ≢ external_effect
    → (classify_speculation i).class ≡ k
    → (verb_verdict i i.contract.verb).class ≡ k
unfolding classify_speculation
passes_guards i k inside e = ground arith

read_verb : (i : SpeculationInput) (v : Verb) → (verb_verdict i v).class ≡ pure_read → v ≡ hover
unfolding verb_verdict click_verdict
read_verb i hover e = refl
read_verb i navigate e = absurd (destination_class i _ _ e)
read_verb i click e = absurd (no_click i.contract.affordance.control e)
  where
    no_click : (c : Control) → (click_verdict i c).class ≡ pure_read → ⊥
    no_click link e = destination_class i _ _ e
    no_click _ e = cc
read_verb i press e = absurd (ground arith)
read_verb i _ e = absurd cc

nav_click : (i : SpeculationInput) (c : Control) → (click_verdict i c).class ≡ local_nav → c ≡ link
unfolding click_verdict
nav_click i link e = refl
nav_click i _ e = absurd cc

nav_verb :
    (i : SpeculationInput) (v : Verb)
    → (verb_verdict i v).class ≡ local_nav
    → (v ≡ navigate) ⊎ ((v ≡ click) × (i.contract.affordance.control ≡ link))
unfolding verb_verdict
nav_verb i navigate e = inl refl
nav_verb i click e = inr (refl, nav_click i i.contract.affordance.control e)
nav_verb i press e = absurd (ground arith)
nav_verb i _ e = absurd cc

-- What is classed as a read is a hover.
pub read_class :
    (i : SpeculationInput) → (classify_speculation i).class ≡ pure_read → i.contract.verb ≡ hover
read_class i e = read_verb i i.contract.verb (passes_guards i pure_read (λ x. cc) e)

-- What is classed as a local navigation is a navigation or a click on a link.
pub nav_class :
    (i : SpeculationInput)
    → (classify_speculation i).class ≡ local_nav
    → (i.contract.verb ≡ navigate)
      ⊎ ((i.contract.verb ≡ click) × (i.contract.affordance.control ≡ link))
nav_class i e = nav_verb i i.contract.verb (passes_guards i local_nav (λ x. cc) e)
