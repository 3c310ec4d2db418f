-- ===== src/Owner/Calls.antt =====
-- Sequences of calls on one issue, and the claim that they leave.
use opl_flow.Base.{String, Bool, List, [], ◌∷◌, ok, err}
use opl_flow.Base.Results.{Result}
use opl_flow.Json.{Value}
use opl_flow.Owner.Data.{OwnerError, Metadata, Objective, Issue, Digests}
use opl_flow.Owner.Steps.{ClaimRequest, claim, verify_target, release_source, rollback}
use opl_flow.Owner.Prepare.{PrepareRequest, prepare, preflight}

-- One call of the module, with its arguments and its clock reading; the issue may have been edited
-- before it, so each call brings the objective that it finds.
pub data Call : Type 0 where
  preparing : PrepareRequest → String → Call
  preflighting : String → Value → Value → String → String → Call
  claiming : String → ClaimRequest → String → Call
  verifying : String → String → Value → Value → String → String → Call
  releasing : String → String → String → Call
  rolling_back : String → String → String → Call

-- the metadata after a call; one that raises has changed nothing
abbrev pub kept : Metadata → Result OwnerError Metadata → Metadata
kept m (ok m') = m'
kept m (err e) = m

module _ (is_uuid : String → Bool) (digests : Digests) where
  unfoldable pub respond : Issue → Call → Result OwnerError Metadata
  respond i (preparing q now) = prepare is_uuid digests i q now
  respond i (preflighting id w n actor now) = preflight digests i id w n actor now
  respond i (claiming id q now) = claim i id q now
  respond i (verifying id handle w n actor now) = verify_target i id handle w n actor now
  respond i (releasing id actor now) = release_source i id actor now
  respond i (rolling_back id actor now) = rollback i id actor now

  unfoldable pub run_calls : Metadata → List (Objective × Call) → Metadata
  run_calls m [] = m
  run_calls m ((o, c) ∷ cs) =
      run_calls (kept m (respond (record { objective = o; metadata = m }) c)) cs
