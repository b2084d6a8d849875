-- ===== src/Continuation/ResumeGate/Resumable.antt =====
-- packages/continuation/src/resume-gate.ts: which checkpoints the gate lets through.
use rote.Prelude.{
  ℕ, String, Option, some, none, false, List, [], ◌∷◌, String-discrete, same_iff, ◌≡◌, refl, ◌↔◌,
  Bool, if◌then◌else◌, All, arith, Bool-cases, inl, inr, true, ◌⊎◌,
}
use rote.Core.Evidence.{Envelope, EvidenceClass-discrete}
use rote.Continuation.Checkpoint.{
  MismatchKind, evidence_stale, state_diverged, CheckpointEvidenceRef, ProcedureStatus, in_progress,
  completed, TaskCheckpoint,
}
use rote.Continuation.ResumeGate.{
  Playbook, ResumeContext, is_match, find_envelope, is_outdated, has_moved, check_refs,
  check_status, assert_resumable,
}

-- Two generations do not contradict each other.
abbrev pub Agrees : Option ℕ → Option ℕ → Type 0
Agrees (some now) (some then_at) = then_at ≡ now
Agrees _ _ = Unit

-- The first element of a list that has the property.
pub data First {A : Type 0} (P : A → Type 0) : List A → A → Type 0 where
  here : (x : A) (xs : List A) → P x → First P (x ∷ xs) x
  later : {y : A} {xs : List A} (x : A) → (P x → ⊥) → First P xs y → First P (x ∷ xs) y

abbrev pub IsOf : {S : Type 0} → CheckpointEvidenceRef → Envelope S → Type 0
IsOf r e = (e.adapter_id ≡ r.adapter_id) × (e.evidence_class ≡ r.evidence_class)

-- The first envelope of the reference's adapter and class carries the same payload digest.
abbrev pub Holds : {S : Type 0} → CheckpointEvidenceRef → List (Envelope S) → Type 0
Holds {S} r es = (e : Envelope S) × First (IsOf r) es e × (e.payload_sha256 ≡ r.payload_sha256)

Agrees-iff : (g h : Option ℕ) → (is_outdated g h ≡ false) ↔ Agrees g h
unfolding is_outdated
Agrees-iff (some a) (some b) = ground arith
Agrees-iff (some a) none = (λ _. tt, λ _. refl)
Agrees-iff none _ = (λ _. tt, λ _. refl)

first_fails_iff :
    (outdated moved : Bool) (rest : Option MismatchKind)
    → ((if outdated then some evidence_stale else if moved then some state_diverged else rest)
        ≡ none)
      ↔ ((outdated ≡ false) × (moved ≡ false) × (rest ≡ none))
first_fails_iff true moved rest = (λ h. cc, λ h. cc h.0)
first_fails_iff false true rest = (λ h. cc, λ h. cc h.1)
first_fails_iff false false rest = (λ h. (refl, refl, h), λ h. h.2)

module _ {S : Type 0} where
  abbrev pub IsCurrent : Option ℕ → List (Envelope S) → CheckpointEvidenceRef → Type 0
  IsCurrent g es r = Agrees g r.freshness_generation × Holds r es

  IsOf-iff : (r : CheckpointEvidenceRef) (e : Envelope S) → (is_match r e ≡ true) ↔ IsOf r e
  IsOf-iff r e = ground (
    arith,
    same_iff String-discrete e.adapter_id r.adapter_id,
    same_iff EvidenceClass-discrete e.evidence_class r.evidence_class,
  )

  -- In a list of at least one envelope.
  first_iff :
      (r : CheckpointEvidenceRef) (e : Envelope S) (es : List (Envelope S))
      → Holds r (e ∷ es)
      → (IsOf r e × (e.payload_sha256 ≡ r.payload_sha256)) ⊎ ((IsOf r e → ⊥) × Holds r es)
  first_iff r e es (_, here _ _ p, same_digest) = inl (p, same_digest)
  first_iff r e es (y, later _ other f, same_digest) = inr (other, (y, f, same_digest))

  Holds-iff :
      (r : CheckpointEvidenceRef) (es : List (Envelope S))
      → (has_moved r (find_envelope r es) ≡ false) ↔ Holds r es
  unfolding has_moved find_envelope
  Holds-iff r [] = (λ h. cc, λ h. absurd (no_first h))
    where
      no_first : Holds {S = S} r [] → ⊥
      no_first (y, f, same_digest) = elim f [ ]
  Holds-iff r (e ∷ es) = elim (Bool-cases (is_match r e)) [
    | inl t ↦
        let own = (IsOf-iff r e).0 t in
        rw t (
          λ h. (
            e,
            here e es own,
            ground (arith, h, same_iff String-discrete e.payload_sha256 r.payload_sha256),
          ),
          λ h. elim (first_iff r e es h) [
            | inl (o, d) ↦
                ground (arith, d, same_iff String-discrete e.payload_sha256 r.payload_sha256)
            | inr (other, hs) ↦ absurd (other own)
          ],
        )
    | inr f ↦
        let other : IsOf r e → ⊥ = λ o. absurd (cc (f, (IsOf-iff r e).1 o)) in
        rw f (
          λ h. let (y, first, d) = (Holds-iff r es).0 h in (y, later e other first, d),
          λ h. elim (first_iff r e es h) [
            | inl (o, d) ↦ absurd (other o)
            | inr (o, hs) ↦ (Holds-iff r es).1 hs
          ],
        )
  ]

  check_refs_iff :
      (g : Option ℕ) (es : List (Envelope S)) (rs : List CheckpointEvidenceRef)
      → (check_refs g es rs ≡ none) ↔ All (IsCurrent g es) rs
  unfolding check_refs
  check_refs_iff g es [] = (λ _. tt, λ _. refl)
  check_refs_iff g es (r ∷ rs) =
      let passes : (check_refs g es (r ∷ rs) ≡ none) ↔ (
          (is_outdated g r.freshness_generation ≡ false)
          × (has_moved r (find_envelope r es) ≡ false)
          × (check_refs g es rs ≡ none)) =
        first_fails_iff (is_outdated g r.freshness_generation) (has_moved r (find_envelope r es))
          (check_refs g es rs) in
      let agrees = Agrees-iff g r.freshness_generation in
      let holds = Holds-iff r es in
      let later = check_refs_iff g es rs in
      (
        λ h. let (a, b, c) = passes.0 h in ((agrees.0 a, holds.0 b), later.0 c),
        λ h. passes.1 (agrees.1 h.0.0, holds.1 h.0.1, later.1 h.1),
      )

  -- What a checkpoint must prove of itself.
  pub record IsResumable {B : Type 0} (playbook_sha256 : Playbook B → String) (c : TaskCheckpoint)
      (x : ResumeContext B S) : Type 0 where
    pub same_environment : c.env_fingerprint_hash ≡ x.env_fingerprint_hash
    pub same_principal : c.principal_sha256 ≡ x.principal_sha256
    pub same_task : c.task_id ≡ x.task_id
    pub same_name : c.procedure.playbook ≡ x.playbook.playbook
    pub same_version : c.procedure.version ≡ x.playbook.version
    pub same_playbook : c.procedure.playbook_sha256 ≡ playbook_sha256 x.playbook
    pub same_bindings : c.bindings_sha256 ≡ x.bindings_sha256
    pub current : All (IsCurrent x.current_generation x.envelopes) c.evidence_refs
    pub unfinished : c.procedure.status ≡ in_progress

check_status_iff : (s : ProcedureStatus) → (check_status s ≡ none) ↔ (s ≡ in_progress)
unfolding check_status
check_status_iff in_progress = (λ _. refl, λ _. refl)
check_status_iff completed = (λ h. cc, λ h. cc)

-- The gate lets a checkpoint through exactly when environment, principal, task, playbook name,
-- version and digest, and bindings are the session's, every evidence reference has the current
-- generation (where both sides know one) and its payload digest is that of the first envelope of
-- its adapter and its evidence class, which exists, and the procedure has not completed.
pub assert_resumable_iff :
    {B S : Type 0} (playbook_sha256 : Playbook B → String) (c : TaskCheckpoint)
    (x : ResumeContext B S)
    → (assert_resumable playbook_sha256 c x ≡ none) ↔ IsResumable playbook_sha256 c x
unfolding assert_resumable
assert_resumable_iff playbook_sha256 c x =
    let env = same_iff String-discrete c.env_fingerprint_hash x.env_fingerprint_hash in
    let who = same_iff String-discrete c.principal_sha256 x.principal_sha256 in
    let task = same_iff String-discrete c.task_id x.task_id in
    let name = same_iff String-discrete c.procedure.playbook x.playbook.playbook in
    let digest =
      same_iff String-discrete c.procedure.playbook_sha256 (playbook_sha256 x.playbook) in
    let given = same_iff String-discrete c.bindings_sha256 x.bindings_sha256 in
    let refs = check_refs_iff x.current_generation x.envelopes c.evidence_refs in
    let status = check_status_iff c.procedure.status in
    (
      λ h. record {
        same_environment = ground (arith, env);
        same_principal = ground (arith, who);
        same_task = ground (arith, task);
        same_name = ground (arith, name);
        same_version = ground arith;
        same_playbook = ground (arith, digest);
        same_bindings = ground (arith, given);
        current = ground (arith, refs);
        unfinished = ground (arith, status);
      },
      λ r. ground (
        arith,
        env.1 r.same_environment,
        who.1 r.same_principal,
        task.1 r.same_task,
        name.1 r.same_name,
        r.same_version,
        digest.1 r.same_playbook,
        given.1 r.same_bindings,
        refs.1 r.current,
        status.1 r.unfinished,
      ),
    )
