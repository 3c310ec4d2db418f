-- ===== src/Custody/Tests/Superseded.antt =====
-- The close of a superseded receipt at a concrete ledger.
use opl_flow.Base.{String, true, false, ◌≡◌, refl, Option, some, [], ◌∷◌, ok, err}
use opl_flow.Base.Results.{Result}
use opl_flow.Custody.Absorption.{absent}
use opl_flow.Custody.Data.{LifecycleError, superseded_identity, superseded_held, Ledger}
use opl_flow.Custody.Tests.{custody_code, sample_host, second, pushed_ledger}
use opl_flow.Custody.Superseded.{
  SupersededArgs, SupersededAnswers, entries_at, unique_active, drop_entry, is_named_receipt,
  check_remotes, check_branch_name, check_surface, check_archive, check_paths, check_superseded,
  superseded_receipt, check_remaining, close_superseded,
}
use opl_flow.Custody.Retired.{Superseded, close_superseded-Superseded}

unfoldable superseding_code : Unit {0}
unfolding custody_code entries_at unique_active drop_entry is_named_receipt check_remotes
    check_branch_name check_surface check_archive check_paths check_superseded superseded_receipt
    check_remaining close_superseded
superseding_code = tt

-- the second lane is gone
abbrev sample_args : SupersededArgs
sample_args = record {
  repo_key = "/repo";
  root = "/repo";
  lane_key = "/lanes/a";
  lane = "/lanes/a";
  thread_id = "bob";
  objective_id = "bd-12";
  owner = "bob";
  reason = "taken up by bd-13";
  has_bundle = false;
  has_digest = false;
}

abbrev pub gone_answers : SupersededAnswers
gone_answers = record {
  top = "/repo";
  lane_present = false;
  target_branch = "main";
  holder_scan = true;
  valid_ref = λ b. true;
  still_present = false;
  registered = false;
  administered = false;
  local_ref = λ b. absent;
  remotes = λ b. record { tracking = absent; wire = false } ∷ [];
  config = λ b. absent;
  held = false;
  locked = false;
  target_head = "m1";
  target_wire = some "m1";
  archive = λ r. ok tt;
}

abbrev retired_step : Option Ledger × Result LifecycleError String
retired_step = close_superseded sample_host "mac" "t9" sample_args gone_answers (some second.1)

retired_well : retired_step.1 ≡ ok "superseded_no_recovery"
unfolding superseding_code
retired_well = refl

-- another owner's receipt, and a worktree that a process holds
retired_other :
    (close_superseded sample_host "mac" "t9"
        (record sample_args { owner = "alice" })
        gone_answers
        (some second.1)
      ≡ (some second.1, err superseded_identity))
    × (close_superseded sample_host "mac" "t9" sample_args
          (record gone_answers { held = true })
          (some second.1)
        ≡ (some second.1, err superseded_held))
unfolding superseding_code
retired_other = (refl, refl)

-- the first lane is gone too, with its branch, and an archive has its commit
abbrev archived_args : SupersededArgs
archived_args = record sample_args {
  lane_key = "/lanes/b";
  lane = "/lanes/b";
  thread_id = "alice";
  owner = "alice";
  has_bundle = true;
  has_digest = true;
}

abbrev archived_step : Option Ledger × Result LifecycleError String
archived_step =
    close_superseded sample_host "mac" "t9" archived_args gone_answers (some pushed_ledger)

close_superseded-Superseded_example :
    Superseded sample_host "mac" "t9" archived_args gone_answers
      (some pushed_ledger)
      archived_step.0
unfolding superseding_code
close_superseded-Superseded_example =
    close_superseded-Superseded sample_host "mac" "t9" archived_args gone_answers
      (some pushed_ledger) archived_step.0 "superseded_archived" refl
