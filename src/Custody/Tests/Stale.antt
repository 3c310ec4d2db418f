-- ===== src/Custody/Tests/Stale.antt =====
-- The close of a stale receipt at a concrete ledger.
use opl_flow.Base.{true, ◌≡◌, refl, Option, none, some, ok, err}
use opl_flow.Base.Results.{Result}
use opl_flow.Custody.Absorption.{Absorption, absent}
use opl_flow.Custody.Data.{
  LifecycleError, recovery_mismatch, not_absorbed, recovery_unverified, Ledger,
}
use opl_flow.Custody.Tests.{custody_code, sample_host, sample_answers, pushed_ledger}
use opl_flow.Custody.Tests.Superseded.{gone_answers}
use opl_flow.Custody.Close.{without_lane}
use opl_flow.Custody.Superseded.{entries_at, unique_active, check_remotes, check_surface}
use opl_flow.Custody.Stale.{
  StaleArgs, StaleAnswers, Absorbed, patch_equivalent, is_strict, absorbed_recovery,
  check_stale_paths, is_stale_receipt, check_stale, stale_receipt, check_none_left, close_stale,
}
use opl_flow.Custody.Cleared.{Cleared, close_stale-Cleared}

unfoldable stale_code : Unit {0}
unfolding custody_code without_lane entries_at unique_active check_remotes check_surface is_strict
    absorbed_recovery check_stale_paths is_stale_receipt check_stale stale_receipt check_none_left
    close_stale
stale_code = tt

-- the first lane is gone, and its commits are in the target under other names
abbrev stale_args : StaleArgs
stale_args = record {
  root = "/repo";
  lane_key = "/lanes/b";
  thread_id = "alice";
  objective_id = "bd-12";
  owner = "alice";
  branch = "lane-b";
}

abbrev equivalent_commits : Absorption
equivalent_commits = record {
  target_head = "m1";
  lane_head = sample_answers.commit;
  classification = "patch_equivalent";
  cleanup_allowed = true;
  lane_commit_count = 2;
  merge_commit_count = 0;
  equivalent_commit_count = 2;
  unabsorbed_commit_count = 0;
}

abbrev patched_answers : StaleAnswers
patched_answers = record {
  surface = gone_answers;
  tree_of = λ c. some sample_answers.tree;
  ancestor = λ c target. absent;
  absorption = λ c. some equivalent_commits;
}

abbrev stale_step : Option Ledger × Result LifecycleError Absorbed
stale_step = close_stale sample_host "mac" "t9" stale_args patched_answers (some pushed_ledger)

cleared_well : stale_step.1 ≡ ok patch_equivalent
unfolding stale_code
cleared_well = refl

-- another branch than that of the recovery, another tree, and a commit without an equivalent one
cleared_badly :
    (close_stale sample_host "mac" "t9"
        (record stale_args { branch = "lane-c" })
        patched_answers
        (some pushed_ledger)
      ≡ (some pushed_ledger, err recovery_mismatch))
    × (close_stale sample_host "mac" "t9" stale_args
          (record patched_answers { tree_of = λ c. none })
          (some pushed_ledger)
        ≡ (some pushed_ledger, err recovery_unverified))
    × (close_stale sample_host "mac" "t9" stale_args
          (record patched_answers {
            absorption = λ c. some (record equivalent_commits { equivalent_commit_count = 1 });
          })
          (some pushed_ledger)
        ≡ (some pushed_ledger, err not_absorbed))
unfolding stale_code
cleared_badly = (refl, refl, refl)

close_stale-Cleared_example :
    Cleared sample_host "mac" "t9" stale_args patched_answers (some pushed_ledger) stale_step.0
unfolding stale_code
close_stale-Cleared_example =
    close_stale-Cleared sample_host "mac" "t9" stale_args patched_answers (some pushed_ledger)
      stale_step.0 patch_equivalent refl
