-- ===== src/Execution/Binding.antt =====
-- What a worker's result that is accepted tells of its handoff and of the work done.
use opl_flow.Base.{
  ap, ℕ, String, true, false, not, ◌&&◌, ◌||◌, ◌≡◌, inl, inr, refl, sym, ◌∙◌, Option, none, some,
  List, [], ◌==◌, arith, eq_iff, is_empty, ok, Result-cases, Option-cases,
}
use opl_flow.Json.{
  Value, Elements, no_element, element, text, arr, get, as_text, is_text_at, is_nil,
}
use opl_flow.Execution.{
  HandoffBinding, identity, identities, references, text_of, is_binding, validate_handoff,
  handoff_binding, validate_result,
}

as_text-text : (o : Option Value) (s : String) → as_text o ≡ some s → o ≡ some (text s)
as_text-text none s h = cc
as_text-text (some (text t)) s h = ground arith
as_text-text (some Value.null) s h = cc
as_text-text (some (Value.flag b)) s h = cc
as_text-text (some (Value.num z)) s h = cc
as_text-text (some (arr xs)) s h = cc
as_text-text (some (Value.obj fs)) s h = cc

is_text_at-text : (k s : String) (v : Value) → is_text_at k s v ≡ true → get k v ≡ some (text s)
unfolding is_text_at
is_text_at-text k s v h = elim (Option-cases (as_text (get k v))) [
  | inl none_there ↦ absurd (ground (arith, none_there))
  | inr (u, e) ↦
      let same : u ≡ s = ground (arith, e, eq_iff u s) in
      as_text-text (get k v) s (e ∙ ap some same)
]

-- what an equality with the expected binding tells of the value
is_binding-texts :
    (b : HandoffBinding) (o : Option Value)
    → is_binding b o ≡ true
    → (v : Value) × (o ≡ some v)
      × (get "attempt_id" v ≡ some (text b.attempt_id))
      × (get "objective_id" v ≡ some (text b.objective_id))
      × (get "owner_id" v ≡ some (text b.owner_id))
      × (get "handoff_sha256" v ≡ some (text b.handoff_sha256))
unfolding is_binding
is_binding-texts b none h = cc
is_binding-texts b (some v) h = (
  v,
  refl,
  is_text_at-text "attempt_id" b.attempt_id v (ground arith),
  is_text_at-text "objective_id" b.objective_id v (ground arith),
  is_text_at-text "owner_id" b.owner_id v (ground arith),
  is_text_at-text "handoff_sha256" b.handoff_sha256 v (ground arith),
)

identity-text : (o : Option Value) (s : String) → identity o ≡ ok s → o ≡ some (text s)
unfolding identity
identity-text none s h = cc
identity-text (some (text t)) s h = ground arith
identity-text (some Value.null) s h = cc
identity-text (some (Value.flag b)) s h = cc
identity-text (some (Value.num z)) s h = cc
identity-text (some (arr xs)) s h = cc
identity-text (some (Value.obj fs)) s h = cc

identities-is_empty :
    (xs : Elements) (l : List String) → identities xs ≡ ok l → is_empty l ≡ is_nil xs
unfolding identities
identities-is_empty no_element l h = ground arith
identities-is_empty (element v vs) l h = elim (Result-cases (identity (some v))) [
  | inr (x, e) ↦ absurd (ground (arith, e))
  | inl (s, e) ↦ elim (Result-cases (identities vs)) [
    | inr (x, e') ↦ absurd (ground (arith, e, e'))
    | inl (rest, e') ↦ ground (arith, e, e')
  ]
]

references-required :
    (o : Option Value) (l : List String) → references o true ≡ ok l → is_empty l ≡ false
unfolding references
references-required none l h = cc
references-required (some (arr xs)) l h = ground (arith, identities-is_empty xs l)
references-required (some (text s)) l h = cc
references-required (some Value.null) l h = cc
references-required (some (Value.flag b)) l h = cc
references-required (some (Value.num z)) l h = cc
references-required (some (Value.obj fs)) l h = cc

-- what an accepted result has stood up to
pub record Accepted (size : Value → ℕ) (fingerprint : Value → String) (v handoff out : Value)
    : Type 0 where
  pub returned : out ≡ v
  pub binding : HandoffBinding
  pub bound : handoff_binding size fingerprint handoff ≡ ok binding
  pub quoted : is_binding binding (get "binding" v) ≡ true
  pub artifacts : List String
  pub artifacts_read : references (get "artifact_refs" v) false ≡ ok artifacts
  pub checkpoints : List String
  pub checkpoints_read :
      references (get "checkpoint_refs" v) (text_of (as_text (get "outcome" v)) == "checkpoint")
      ≡ ok checkpoints
  pub remaining : List String
  pub remaining_read : references (get "remaining" v) false ≡ ok remaining
  pub evident :
      text_of (as_text (get "outcome" v)) == "completed"
        && (not (is_empty remaining) || is_empty artifacts)
      ≡ false

module _ (size : Value → ℕ) (fingerprint : Value → String) where
  validate_result-Accepted :
      (v handoff out : Value)
      → validate_result size fingerprint v handoff ≡ ok out
      → Accepted size fingerprint v handoff out
  unfolding validate_result
  validate_result-Accepted v handoff out h =
      let outcome = text_of (as_text (get "outcome" v)) in
      elim (Result-cases (handoff_binding size fingerprint handoff)) [
        | inr (x, e) ↦ absurd (ground (arith, e))
        | inl (b, bound) ↦ elim (Result-cases (references (get "artifact_refs" v) false)) [
          | inr (x, e) ↦ absurd (ground (arith, bound, e))
          | inl (a, ea) ↦
              elim (Result-cases (references (get "checkpoint_refs" v) (outcome == "checkpoint"))) [
                | inr (x, e) ↦ absurd (ground (arith, bound, ea, e))
                | inl (c, ec) ↦ elim (Result-cases (references (get "remaining" v) false)) [
                  | inr (x, e) ↦ absurd (ground (arith, bound, ea, ec, e))
                  | inl (r, er) ↦ record {
                    returned = ground (arith, bound, ea, ec, er);
                    binding = b;
                    bound = bound;
                    quoted = ground (arith, bound);
                    artifacts = a;
                    artifacts_read = ea;
                    checkpoints = c;
                    checkpoints_read = ec;
                    remaining = r;
                    remaining_read = er;
                    evident = ground (arith, bound, ea, ec, er);
                  }
                ]
              ]
        ]
      ]

  -- What a result quotes of its handoff.
  pub record Binds (v handoff : Value) : Type 0 where
    pub binding : Value
    pub quoted : get "binding" v ≡ some binding
    pub attempt : String
    pub objective : String
    pub owner : String
    pub handed_attempt : get "attempt_id" handoff ≡ some (text attempt)
    pub handed_objective : get "objective_id" handoff ≡ some (text objective)
    pub handed_owner : get "owner_id" handoff ≡ some (text owner)
    pub same_attempt : get "attempt_id" binding ≡ some (text attempt)
    pub same_objective : get "objective_id" binding ≡ some (text objective)
    pub same_owner : get "owner_id" binding ≡ some (text owner)
    pub same_handoff : get "handoff_sha256" binding ≡ some (text (fingerprint handoff))

  handoff_binding-fields :
      (handoff : Value) (b : HandoffBinding)
      → handoff_binding size fingerprint handoff ≡ ok b
      → (get "attempt_id" handoff ≡ some (text b.attempt_id))
        × (get "objective_id" handoff ≡ some (text b.objective_id))
        × (get "owner_id" handoff ≡ some (text b.owner_id))
        × (b.handoff_sha256 ≡ fingerprint handoff)
  unfolding handoff_binding validate_handoff
  handoff_binding-fields handoff b h = elim (Result-cases (identity (get "attempt_id" handoff))) [
    | inr (e, bad) ↦ absurd (ground (arith, bad))
    | inl (attempt, e1) ↦ elim (Result-cases (identity (get "objective_id" handoff))) [
      | inr (e, bad) ↦ absurd (ground (arith, e1, bad))
      | inl (objective, e2) ↦ elim (Result-cases (identity (get "owner_id" handoff))) [
        | inr (e, bad) ↦ absurd (ground (arith, e1, e2, bad))
        | inl (owner, e3) ↦
            let f1 = identity-text (get "attempt_id" handoff) attempt e1 in
            let f2 = identity-text (get "objective_id" handoff) objective e2 in
            let f3 = identity-text (get "owner_id" handoff) owner e3 in
            (
              ground (arith, e1, e2, e3, f1),
              ground (arith, e1, e2, e3, f2),
              ground (arith, e1, e2, e3, f3),
              ground (arith, e1, e2, e3),
            )
      ]
    ]
  ]

  -- A result that is accepted for a handoff is returned as it is, and its binding has the texts that
  -- stand in the handoff under `attempt_id`, `objective_id` and `owner_id`, and the fingerprint of the
  -- handoff.
  pub validate_result-Binds :
      (v handoff out : Value)
      → validate_result size fingerprint v handoff ≡ ok out
      → (out ≡ v) × Binds v handoff
  validate_result-Binds v handoff out h =
      let a = validate_result-Accepted v handoff out h in
      let b = a.binding in
      let (f1, f2, f3, f4) = handoff_binding-fields handoff b a.bound in
      let (quoted, at, g1, g2, g3, g4) = is_binding-texts b (get "binding" v) a.quoted in
      (
        a.returned,
        record {
          binding = quoted;
          quoted = at;
          attempt = b.attempt_id;
          objective = b.objective_id;
          owner = b.owner_id;
          handed_attempt = f1;
          handed_objective = f2;
          handed_owner = f3;
          same_attempt = g1;
          same_objective = g2;
          same_owner = g3;
          same_handoff = g4 ∙ ap (λ s. some (text s)) f4;
        },
      )

  -- A result that is accepted as `completed` names at least one artifact and nothing that remains.
  validate_result-completed :
      (v handoff out : Value)
      → validate_result size fingerprint v handoff ≡ ok out
      → get "outcome" v ≡ some (text "completed")
      → (a : List String) × (references (get "artifact_refs" v) false ≡ ok a)
        × (is_empty a ≡ false)
        × (references (get "remaining" v) false ≡ ok [])
  validate_result-completed v handoff out h e =
      let a = validate_result-Accepted v handoff out h in
      let done : (text_of (as_text (get "outcome" v)) == "completed") ≡ true = rw e refl in
      let evident = a.evident in
      let read = a.remaining_read in
      (
        a.artifacts,
        a.artifacts_read,
        ground (arith, evident, done),
        ground (arith, evident, read, done),
      )

  -- A result that is accepted as `checkpoint` names at least one checkpoint.
  pub validate_result-checkpoint :
      (v handoff out : Value)
      → validate_result size fingerprint v handoff ≡ ok out
      → get "outcome" v ≡ some (text "checkpoint")
      → (c : List String) × (references (get "checkpoint_refs" v) true ≡ ok c)
        × (is_empty c ≡ false)
  validate_result-checkpoint v handoff out h e =
      let a = validate_result-Accepted v handoff out h in
      let paused : (text_of (as_text (get "outcome" v)) == "checkpoint") ≡ true = rw e refl in
      let read : references (get "checkpoint_refs" v) true ≡ ok a.checkpoints =
        ap (λ b. references (get "checkpoint_refs" v) b) (sym paused) ∙ a.checkpoints_read in
      (a.checkpoints, read, references-required (get "checkpoint_refs" v) a.checkpoints read)
