-- ===== src/Execution.antt =====
-- scripts/opl_execution.py: handoffs to a worker, its results, and the evidence of an admission.
-- `fingerprint` stands for the SHA-256 of the canonical JSON text of a value and `size` for the
-- number of bytes of its JSON text. An error leaves out the label that its message quotes.
pub mod Binding
mod Tests
use opl_flow.Base.{
  ℕ, ◌≤◌, String, Bool, true, false, not, ◌&&◌, ◌||◌, ◌≡◌, Option, none, some, List, [], ◌∷◌, ◌==◌,
  member, is_empty, ltb, eqb, if◌then◌else◌, ok, err, raise_if, ◌>>=◌, ◌>>◌,
}
use opl_flow.Base.Results.{Result}
use opl_flow.Base.Text.{is_blank, is_hex_of, any_char, chars}
use opl_flow.Json.{
  Value, Elements, no_element, element, text, arr, get, has_exactly, as_text, is_text_at, is_true,
  as_items, is_nil,
}

pub data ExecutionError : Type 0 where
  invalid_reference not_a_list handoff_fields handoff_size : ExecutionError
  result_fields result_mismatch outcome_invalid completed_without_evidence : ExecutionError
  workspace_not_ready fingerprints_invalid node_not_admitted revision_invalid : ExecutionError

-- a non-blank text of at most 512 characters with no NUL, CR or LF
unfoldable pub identity : Option Value → Result ExecutionError String
identity (some (text s)) =
    if is_blank s || ltb 512 (chars s) || any_char (λ n. eqb n 0 || eqb n 13 || eqb n 10) s
    then err invalid_reference
    else ok s
identity _ = err invalid_reference

unfoldable pub identities : Elements → Result ExecutionError (List String)
identities no_element = ok []
identities (element v vs) = do s ← identity (some v); rest ← identities vs; ok (s ∷ rest)

unfoldable pub references : Option Value → Bool → Result ExecutionError (List String)
references (some (arr xs)) required = do raise_if (required && is_nil xs) not_a_list; identities xs
references _ required = err not_a_list

-- a text under the key, which `validate_handoff` has tested
abbrev pub text_of : Option String → String
text_of none = ""
text_of (some s) = s

pub record HandoffBinding : Type 0 where
  pub attempt_id : String
  pub objective_id : String
  pub owner_id : String
  pub handoff_sha256 : String

abbrev pub handoff_fields_of : List String
handoff_fields_of =
    "schema" ∷ "attempt_id" ∷ "objective_id" ∷ "owner_id" ∷ "scope" ∷ "input_refs"
    ∷ "checkpoint_refs" ∷ "expected_result" ∷ []

abbrev pub result_fields_of : List String
result_fields_of =
    "schema" ∷ "binding" ∷ "outcome" ∷ "artifact_refs" ∷ "checkpoint_refs" ∷ "remaining"
    ∷ "next_action" ∷ []

abbrev pub outcomes : List String
outcomes = "checkpoint" ∷ "completed" ∷ "blocked" ∷ "unknown" ∷ []

-- `value['binding'] == expected`, an equality of dicts
unfoldable pub is_binding : HandoffBinding → Option Value → Bool
is_binding b none = false
is_binding b (some v) =
    has_exactly ("attempt_id" ∷ "objective_id" ∷ "owner_id" ∷ "handoff_sha256" ∷ []) v
    && is_text_at "attempt_id" b.attempt_id v
    && is_text_at "objective_id" b.objective_id v
    && is_text_at "owner_id" b.owner_id v
    && is_text_at "handoff_sha256" b.handoff_sha256 v

module _ (size : Value → ℕ) (fingerprint : Value → String) where
  unfoldable pub validate_handoff : Value → Result ExecutionError Value
  validate_handoff v = do
    raise_if
        (not (has_exactly handoff_fields_of v)
          || not (is_text_at "schema" "opl_worker_handoff.v1" v))
        handoff_fields
    raise_if (ltb 32768 (size v)) handoff_size
    identity (get "attempt_id" v)
    identity (get "objective_id" v)
    identity (get "owner_id" v)
    identity (get "scope" v)
    identity (get "expected_result" v)
    references (get "input_refs" v) false
    references (get "checkpoint_refs" v) false
    ok v

  unfoldable pub handoff_binding : Value → Result ExecutionError HandoffBinding
  handoff_binding v = do
    handoff ← validate_handoff v
    ok (record {
      attempt_id = text_of (as_text (get "attempt_id" handoff));
      objective_id = text_of (as_text (get "objective_id" handoff));
      owner_id = text_of (as_text (get "owner_id" handoff));
      handoff_sha256 = fingerprint handoff;
    })

  unfoldable pub validate_result : Value → Value → Result ExecutionError Value
  validate_result v handoff = do
    expected ← handoff_binding handoff
    raise_if
        (not (has_exactly result_fields_of v) || not (is_text_at "schema" "opl_worker_result.v1" v))
        result_fields
    raise_if (not (is_binding expected (get "binding" v))) result_mismatch
    let outcome = text_of (as_text (get "outcome" v))
    raise_if (not (member outcome outcomes)) outcome_invalid
    artifacts ← references (get "artifact_refs" v) false
    references (get "checkpoint_refs" v) (outcome == "checkpoint")
    remaining ← references (get "remaining" v) false
    identity (get "next_action" v)
    raise_if (outcome == "completed" && (not (is_empty remaining) || is_empty artifacts))
        completed_without_evidence
    ok v

-- The evidence that a workspace is ready, and its fingerprints.
pub record WorkspaceEvidence : Type 0 where
  pub checked_at : String
  pub workspace_fingerprint : String
  pub environment_fingerprint : String
  pub repository_fingerprint : String

pub record NodeEvidence : Type 0 where
  pub node_checked_at : String
  pub control_commit : String

-- a text of so many hexadecimal digits
unfoldable pub hex_text : ℕ → ExecutionError → Option Value → Result ExecutionError String
hex_text n e (some (text s)) = if is_hex_of n s then ok s else err e
hex_text n e _ = err e

unfoldable pub workspace_evidence :
    Value → String → String → Result ExecutionError WorkspaceEvidence
workspace_evidence v profile_id node_id = do
  raise_if
      (not (is_text_at "schema" "opl_execution_workspace.v1" v)
        || not (is_text_at "profile_id" profile_id v)
        || not (is_text_at "node_id" node_id v)
        || not (is_true (get "ready" v)))
      workspace_not_ready
  workspace ← hex_text 64 fingerprints_invalid (get "workspace_fingerprint" v)
  environment ← hex_text 64 fingerprints_invalid (get "environment_fingerprint" v)
  repository ← hex_text 64 fingerprints_invalid (get "repository_fingerprint" v)
  checked_at ← identity (get "checked_at" v)
  ok (record {
    checked_at = checked_at;
    workspace_fingerprint = workspace;
    environment_fingerprint = environment;
    repository_fingerprint = repository;
  })

unfoldable pub node_evidence : Value → String → String → Result ExecutionError NodeEvidence
node_evidence v node_id objective_id = do
  raise_if
      (not (is_text_at "schema" "opl_execution_admission.v1" v)
        || not (is_text_at "node_id" node_id v)
        || not (is_text_at "objective_id" objective_id v)
        || not (is_true (get "ready" v)))
      node_not_admitted
  revision ← hex_text 40 revision_invalid (get "control_commit" v)
  checked_at ← identity (get "checked_at" v)
  ok (record { node_checked_at = checked_at; control_commit = revision })
