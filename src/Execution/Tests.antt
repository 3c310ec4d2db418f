-- ===== src/Execution/Tests.antt =====
-- Handoffs and results of a worker, and the theorems at concrete values.
use opl_flow.Base.{ℕ, String, ◌≡◌, refl, Option, some, err, member, subset}
use opl_flow.Base.Text.{is_blank, is_space, is_hex, is_hex_of}
use opl_flow.Json.{
  Value, Elements, text, arr, obj, field, no_field, no_element, element, get, get_field,
  field_names, has_exactly, is_text_at,
}
use opl_flow.Execution.{
  HandoffBinding, identity, identities, references, is_binding, validate_handoff, handoff_binding,
  validate_result, completed_without_evidence,
}
use opl_flow.Execution.Binding.{Binds, validate_result-Binds}

-- unfolds all that the validators call
unfoldable execution_code : Unit {0}
unfolding member subset is_space is_blank is_hex is_hex_of get_field field_names get has_exactly
    is_text_at identity identities references is_binding validate_handoff handoff_binding
    validate_result
execution_code = tt

-- stands for the number of bytes of the JSON text
abbrev sample_size : Value → ℕ
sample_size v = 300

-- stands for the fingerprint of a handoff: the scope, which tells these examples apart
abbrev scope_of : Option Value → String
scope_of (some (text s)) = s
scope_of _ = ""

abbrev sample_fingerprint : Value → String
sample_fingerprint v = scope_of (get "scope" v)

abbrev sample_handoff : Value
sample_handoff = obj (
    field "schema" (text "opl_worker_handoff.v1") (
      field "attempt_id" (text "attempt-1") (
        field "objective_id" (text "bd-12") (
          field "owner_id" (text "owner-a") (
            field "scope" (text "scripts") (
              field "input_refs" (arr no_element) (
                field "checkpoint_refs" (arr no_element)
                  (field "expected_result" (text "tests pass") no_field))))))))

abbrev sample_binding : HandoffBinding
sample_binding = record {
  attempt_id = "attempt-1";
  objective_id = "bd-12";
  owner_id = "owner-a";
  handoff_sha256 = "scripts";
}

abbrev sample_result : String → Elements → Elements → Elements → Value
sample_result outcome artifacts checkpoints remaining = obj (
    field "schema" (text "opl_worker_result.v1") (
      field "binding"
        (obj (
          field "attempt_id" (text "attempt-1") (
            field "objective_id" (text "bd-12") (
              field "owner_id" (text "owner-a")
                (field "handoff_sha256" (text "scripts") no_field)))))
        (field "outcome" (text outcome) (
          field "artifact_refs" (arr artifacts) (
            field "checkpoint_refs" (arr checkpoints)
              (field "remaining" (arr remaining) (field "next_action" (text "none") no_field)))))))

abbrev one_ref : Elements
one_ref = element (text "ref-1") no_element

abbrev completed_result : Value
completed_result = sample_result "completed" one_ref no_element no_element

abbrev checkpoint_result : Value
checkpoint_result = sample_result "checkpoint" no_element one_ref one_ref

bare_result :
    validate_result sample_size sample_fingerprint
      (sample_result "completed" no_element no_element no_element)
      sample_handoff
    ≡ err completed_without_evidence
unfolding execution_code
bare_result = refl

validate_result-Binds_example :
    (completed_result ≡ completed_result)
    × Binds sample_size sample_fingerprint completed_result sample_handoff
unfolding execution_code
validate_result-Binds_example =
    validate_result-Binds sample_size sample_fingerprint completed_result sample_handoff
      completed_result refl
