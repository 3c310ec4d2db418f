-- ===== src/Fleet/Dispatch/Requirements.antt =====
-- `validate_execution_requirements` and `read_execution_requirements` of fleet_dispatch.py. `size`
-- is the number of bytes of a value's JSON text.
use opl_flow.Base.{
  ℕ, String, Bool, false, not, ◌&&◌, ◌||◌, ◌==◌, Option, none, some, List, [], ◌∷◌, member, subset,
  sorted_set, eqb, ltb, leb, length, if◌then◌else◌, ok, err, raise_if, ◌>>=◌, ◌>>◌,
}
use opl_flow.Base.Results.{Result}
use opl_flow.Base.Int.{pos}
use opl_flow.Json.{
  Value, Elements, no_element, element, field, no_field, text, num, flag, arr, obj, get,
  field_names, is_text_at,
}
use opl_flow.Fleet.Common.{
  FleetError, requirements_not_object, requirements_too_large, requirements_not_json,
  requirements_unreadable, requirements_fields_invalid, requirements_list_invalid,
  requirements_field_invalid, requirements_workload_preemptible, lease_workload_classes,
  preemptible_workload_classes, lease_phases, gpu_apis, dispatch_adapter,
}
use opl_flow.Fleet.Lease.Validate.{is_bad_model, is_unset}
use opl_flow.Fleet.Dispatch.Words.{parse_requirements, join_commas}

-- The dict `normalized`.
pub record Requirements : Type 0 where
  pub adapter : String
  pub requires : List String
  pub min_memory_gb : ℕ
  pub gpu_api : String
  pub min_gpu_memory_gb : ℕ
  pub gpu_model : Option String
  pub workload_class : String
  pub priority : ℕ
  pub preemptible : Bool
  pub phase : String
  pub ttl_seconds : ℕ

abbrev pub execution_requirements_schema : String
execution_requirements_schema = "opl_execution_requirements.v1"

abbrev pub allowed_fields : List String
allowed_fields =
    "schema" ∷ "adapter" ∷ "requires" ∷ "min_memory_gb" ∷ "gpu_api" ∷ "min_gpu_memory_gb"
    ∷ "gpu_model" ∷ "workload_class" ∷ "priority" ∷ "preemptible" ∷ "phase" ∷ "ttl_seconds" ∷ []

abbrev pub names_of : Value → Option (List String)
names_of (obj fs) = some (field_names fs)
names_of _ = none

-- a list of texts
unfoldable pub texts_in : Elements → Result FleetError (List String)
texts_in no_element = ok []
texts_in (element (text s) vs) = do rest ← texts_in vs; ok (s ∷ rest)
texts_in (element _ vs) = err requirements_list_invalid

-- `value.get("requires", [])`, as a list of different texts
unfoldable pub requires_of : Option Value → Result FleetError (List String)
requires_of none = ok []
requires_of (some (arr vs)) = do
  requires ← texts_in vs
  raise_if (not (eqb (length requires) (length (sorted_set requires)))) requirements_list_invalid
  ok requires
requires_of (some _) = err requirements_list_invalid

unfoldable pub text_or_default : String → String → Option Value → Result FleetError String
text_or_default name default none = ok default
text_or_default name default (some (text s)) = ok s
text_or_default name default (some _) = err (requirements_field_invalid name)

-- a number that is not negative, and is no flag
unfoldable pub number_or_default : String → ℕ → Option Value → Result FleetError ℕ
number_or_default name default none = ok default
number_or_default name default (some (num (pos n))) = ok n
number_or_default name default (some _) = err (requirements_field_invalid name)

unfoldable pub model_of : Option Value → Result FleetError (Option String)
model_of none = ok none
model_of (some (text s)) =
    if is_bad_model (some s) then err (requirements_field_invalid "gpu_model") else ok (some s)
model_of (some _) = err (requirements_field_invalid "gpu_model")

unfoldable pub flag_or_false : String → Option Value → Result FleetError Bool
flag_or_false name none = ok false
flag_or_false name (some (flag b)) = ok b
flag_or_false name (some _) = err (requirements_field_invalid name)

-- the features that a request for a GPU implies, added to the set
abbrev pub with_gpu : List String → String → Bool → List String
with_gpu requires gpu_api asks =
    if not (gpu_api == "any")
    then sorted_set (gpu_api ∷ "gpu" ∷ requires)
    else if asks
    then sorted_set ("gpu" ∷ requires)
    else sorted_set requires

module _ (size : Value → ℕ) where
  unfoldable pub check_fields : Value → Result FleetError (Unit {0})
  check_fields v = elim (names_of v) [
    | none ↦ err requirements_not_object
    | some names ↦ (do
      raise_if (ltb 16384 (size v)) requirements_too_large
      raise_if
          (not (subset names allowed_fields)
            || not (is_text_at "schema" execution_requirements_schema v))
          requirements_fields_invalid)
  ]

  unfoldable pub validate_execution_requirements : Value → Result FleetError Requirements
  validate_execution_requirements v = do
    check_fields v
    requires ← requires_of (get "requires" v)
    parse_requirements (join_commas requires)
    adapter ← text_or_default "adapter" "lease-only" (get "adapter" v)
    gpu_api ← text_or_default "gpu_api" "any" (get "gpu_api" v)
    workload ← text_or_default "workload_class" "background" (get "workload_class" v)
    phase ← text_or_default "phase" "interruptible" (get "phase" v)
    dispatch_adapter adapter
    raise_if (not (member gpu_api gpu_apis)) (requirements_field_invalid "gpu_api")
    min_memory_gb ← number_or_default "min_memory_gb" 0 (get "min_memory_gb" v)
    min_gpu_memory_gb ← number_or_default "min_gpu_memory_gb" 0 (get "min_gpu_memory_gb" v)
    priority ← number_or_default "priority" 300 (get "priority" v)
    ttl_seconds ← number_or_default "ttl_seconds" 3600 (get "ttl_seconds" v)
    raise_if (ltb 1000 priority) (requirements_field_invalid "priority")
    raise_if (not (leb 60 ttl_seconds && leb ttl_seconds 86400))
        (requirements_field_invalid "ttl_seconds")
    gpu_model ← model_of (get "gpu_model" v)
    raise_if (not (member workload lease_workload_classes))
        (requirements_field_invalid "workload_class")
    raise_if (not (member phase lease_phases)) (requirements_field_invalid "phase")
    preemptible ← flag_or_false "preemptible" (get "preemptible" v)
    raise_if (preemptible && not (member workload preemptible_workload_classes))
        requirements_workload_preemptible
    ok (record {
      adapter = adapter;
      requires =
          with_gpu requires gpu_api (not (eqb min_gpu_memory_gb 0) || not (is_unset gpu_model));
      min_memory_gb = min_memory_gb;
      gpu_api = gpu_api;
      min_gpu_memory_gb = min_gpu_memory_gb;
      gpu_model = gpu_model;
      workload_class = workload;
      priority = priority;
      preemptible = preemptible;
      phase = phase;
      ttl_seconds = ttl_seconds;
    })

-- An argument that is a JSON text or names a file with one: not given, a file that is not there or
-- too large, a text that is no JSON, or the value.
pub data JsonSource : Type 0 where
  not_given : JsonSource
  unreadable : JsonSource
  malformed : JsonSource
  given : Value → JsonSource

unfoldable pub read_execution_requirements :
    (Value → ℕ) → JsonSource → Result FleetError Requirements
read_execution_requirements size not_given =
    validate_execution_requirements size
      (obj (field "schema" (text execution_requirements_schema) no_field))
read_execution_requirements size unreadable = err requirements_unreadable
read_execution_requirements size malformed = err requirements_not_json
read_execution_requirements size (given v) = validate_execution_requirements size v
