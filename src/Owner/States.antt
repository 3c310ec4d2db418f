-- ===== src/Owner/States.antt =====
-- The tests of opl_task_owner.py on the state of a migration.
use opl_flow.Base.{Bool, true, false}
use opl_flow.Owner.Data.{
  MigrationState, source_checkpointed, target_preflighted, target_acknowledged, target_verified,
  completed, blocked, rolled_back,
}

-- `state == "…"`
abbrev pub is_source_checkpointed : MigrationState → Bool
is_source_checkpointed source_checkpointed = true
is_source_checkpointed _ = false

abbrev pub is_target_preflighted : MigrationState → Bool
is_target_preflighted target_preflighted = true
is_target_preflighted _ = false

abbrev pub is_target_acknowledged : MigrationState → Bool
is_target_acknowledged target_acknowledged = true
is_target_acknowledged _ = false

abbrev pub is_target_verified : MigrationState → Bool
is_target_verified target_verified = true
is_target_verified _ = false

abbrev pub is_completed : MigrationState → Bool
is_completed completed = true
is_completed _ = false

abbrev pub is_rolled_back : MigrationState → Bool
is_rolled_back rolled_back = true
is_rolled_back _ = false

-- `state in {"target_acknowledged", "target_verified", "completed"}`
abbrev pub is_claimed : MigrationState → Bool
is_claimed target_acknowledged = true
is_claimed target_verified = true
is_claimed completed = true
is_claimed _ = false

-- `state in {"target_verified", "completed"}`
abbrev pub is_verified : MigrationState → Bool
is_verified target_verified = true
is_verified completed = true
is_verified _ = false

-- `state in {"source_checkpointed", "target_preflighted", "blocked"}`
abbrev pub may_roll_back : MigrationState → Bool
may_roll_back source_checkpointed = true
may_roll_back target_preflighted = true
may_roll_back blocked = true
may_roll_back _ = false

-- neither `completed` nor `rolled_back`
abbrev pub is_active_state : MigrationState → Bool
is_active_state completed = false
is_active_state rolled_back = false
is_active_state _ = true
