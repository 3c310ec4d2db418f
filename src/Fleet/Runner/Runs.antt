-- ===== src/Fleet/Runner/Runs.antt =====
-- Sequences of runner commands for one role, one after the other: what every sequence keeps, and the
-- machine that it follows. A command is one step here; the lock of the lease store covers only each
-- transaction of it, so commands that run at the same time are not among these sequences.
use opl_flow.Base.{
  ℕ, String, Bool, ◌≡◌, refl, inl, inr, Option, none, some, ◌<◌, arith, ok, err, List, [], ◌∷◌,
}
use opl_flow.Base.Results.{Result}
use opl_flow.Base.Int.{ℤ}
use opl_flow.Fleet.Common.{FleetError}
use opl_flow.Fleet.Lease.Data.{Instant, Lease, LeaseStore}
use opl_flow.Fleet.Admission.Roles.{NodeRegistry}
use opl_flow.Fleet.Runner.Control.{ControlStatus, GithubState}
use opl_flow.Fleet.Runner.Record.{RunnerTransaction, TransactionFile, missing, stored, v1, v2}
use opl_flow.Fleet.Runner.Commands.{
  RoleState, Shutdown, StartArgs, StartAnswers, fleet_runner_start, fleet_runner_stop,
  fleet_runner_renew,
}
use opl_flow.Fleet.Runner.Held.{Holds, IsConsistent, lease_at, found-stored, found-missing}
use opl_flow.Fleet.Runner.Stops.{Stopped, fleet_runner_stop-err, fleet_runner_stop-Stopped}
use opl_flow.Fleet.Runner.Renewals.{fleet_runner_renew-err, fleet_runner_renew-Renewed}
use opl_flow.Fleet.Runner.Starts.{
  unchanged, returned, stranded, recorded, StartEnds, fleet_runner_start-StartEnds,
}

-- A command of the controller for the role, with what it reads.
pub data Command : Type 0 where
  start : StartArgs → StartAnswers → Command
  stop : Option String → String → Instant → Shutdown → Instant → Command
  renew :
      Option String
      → Option ℤ
      → String
      → Instant
      → Result FleetError ControlStatus
      → Result FleetError GithubState
      → String
      → Instant
      → Instant
      → Command

module _ (is_uuid : String → Bool) (casefold : String → String) (registry : NodeRegistry) where
  unfoldable pub run_command : RoleState → Command → RoleState
  run_command w (start a x) = (fleet_runner_start is_uuid casefold registry a x w).0
  run_command w (stop owner revision now x released_at) =
      (fleet_runner_stop is_uuid owner revision now x released_at w).0
  run_command w (renew owner ttl revision now status github nonce renew_at renewed_at) =
      (fleet_runner_renew is_uuid owner ttl revision now status github nonce renew_at renewed_at
        w).0

  unfoldable pub run_commands : RoleState → List Command → RoleState
  run_commands w [] = w
  run_commands w (c ∷ cs) = run_commands (run_command w c) cs

-- the lease that a transaction names: its id and its generation
unfoldable pub named_lease : TransactionFile → Option (String × ℕ)
named_lease missing = none
named_lease (stored mode (v1 t)) = some (t.lease_id, t.generation)
named_lease (stored mode (v2 t)) = some (t.start.lease_id, t.start.generation)

-- What a command tells of itself: with the lease that it returns, that it is rejected, or that it is a
-- start that fails.
pub data Event : Type 0 where
  started : String → ℕ → Event
  stopped : String → ℕ → Event
  renewed : String → ℕ → Event
  start_failed : Event
  rejected : Event

abbrev pub start_event : Result FleetError (Lease × GithubState) → Event
start_event (ok (l, o)) = started l.lease_id l.generation
start_event (err e) = start_failed

abbrev pub stop_event : Result FleetError (Lease × ControlStatus × GithubState) → Event
stop_event (ok (l, after, o)) = stopped l.lease_id l.generation
stop_event (err e) = rejected

abbrev pub renew_event : Result FleetError Lease → Event
renew_event (ok l) = renewed l.lease_id l.generation
renew_event (err e) = rejected

module _ (is_uuid : String → Bool) (casefold : String → String) (registry : NodeRegistry) where
  unfoldable pub event_of : RoleState → Command → Event
  event_of w (start a x) = start_event (fleet_runner_start is_uuid casefold registry a x w).1
  event_of w (stop owner revision now x released_at) =
      stop_event (fleet_runner_stop is_uuid owner revision now x released_at w).1
  event_of w (renew owner ttl revision now status github nonce renew_at renewed_at) =
      renew_event
        (fleet_runner_renew is_uuid owner ttl revision now status github nonce renew_at renewed_at
          w).1

  -- the events of the commands, one after the other
  unfoldable pub events_of : RoleState → List Command → List Event
  events_of w [] = []
  events_of w (c ∷ cs) = event_of w c ∷ events_of (run_command is_uuid casefold registry w c) cs

-- The machine of a role, whose state is the lease that is named. A lease that is returned by a start is
-- named where none was, one that is returned by a stop was named and is no more, and one that is
-- returned by a renewal has the id that was named, and a later generation. A command that is rejected
-- changes nothing. A start that fails may leave a lease named, where none was.
pub data Move : Event → Option (String × ℕ) → Option (String × ℕ) → Type 0 where
  starts : {id : String} {g : ℕ} → Move (started id g) none (some (id, g))
  stops : {id : String} {g : ℕ} → Move (stopped id g) (some (id, g)) none
  renews : {id : String} {g g' : ℕ} → g < g' → Move (renewed id g') (some (id, g)) (some (id, g'))
  rejects : {p : Option (String × ℕ)} → Move rejected p p
  fails : {p : Option (String × ℕ)} → Move start_failed p p
  strands : {id : String} {g : ℕ} → Move start_failed none (some (id, g))

-- A move for each event, in their order.
pub data Moves : List Event → Option (String × ℕ) → Option (String × ℕ) → Type 0 where
  done : {p : Option (String × ℕ)} → Moves [] p p
  then :
      {v : Event} {vs : List Event} {p q r : Option (String × ℕ)}
      → Move v p q
      → Moves vs q r
      → Moves (v ∷ vs) p r

-- A command makes the move of its event, and leaves a store that can be read and that has the named
-- lease.
pub record Steps (is_uuid : String → Bool) (v : Event) (w w' : RoleState) : Type 0 where
  pub store : LeaseStore
  pub consistent : IsConsistent is_uuid w' store
  pub moves : Move v (named_lease w.transaction) (named_lease w'.transaction)

module _ (is_uuid : String → Bool) where
  rejected-Steps :
      (w w' : RoleState) (s : LeaseStore)
      → w' ≡ w
      → IsConsistent is_uuid w s
      → Steps is_uuid rejected w w'
  rejected-Steps w w' s same c = rw same (record { store = s; consistent = c; moves = rejects })

  renewed-Move :
      (w w' : RoleState) (t t' : RunnerTransaction) (s : LeaseStore) (l : Lease)
      → w.transaction ≡ stored 384 (v2 t)
      → Holds w' s t' l
      → t'.start.lease_id ≡ t.start.lease_id
      → t.start.generation < t'.start.generation
      → Move
          (renewed l.lease_id l.generation)
          (named_lease w.transaction)
          (named_lease w'.transaction)
  unfolding named_lease
  renewed-Move w w' t t' s l before holds same newer =
      rw (before, holds.written, ← holds.id, ← holds.generation) (rw (← same) (renews newer))

  started-Move :
      (w w' : RoleState) (t : RunnerTransaction) (s : LeaseStore) (l : Lease)
      → w.transaction ≡ missing
      → Holds w' s t l
      → Move
          (started l.lease_id l.generation)
          (named_lease w.transaction)
          (named_lease w'.transaction)
  unfolding named_lease
  started-Move w w' t s l fresh holds =
      rw (fresh, holds.written, ← holds.id, ← holds.generation) starts

  stranded-Move :
      (w w' : RoleState) (t : RunnerTransaction)
      → w.transaction ≡ missing
      → w'.transaction ≡ stored 384 (v2 t)
      → Move start_failed (named_lease w.transaction) (named_lease w'.transaction)
  unfolding named_lease
  stranded-Move w w' t fresh written = rw (fresh, written) strands

  failed-Move :
      (w w' : RoleState)
      → w.transaction ≡ missing
      → w'.transaction ≡ missing
      → Move start_failed (named_lease w.transaction) (named_lease w'.transaction)
  unfolding named_lease
  failed-Move w w' fresh gone = rw (fresh, gone) fails

  -- the lease that a stop returns is the one that was named
  stopped-Move :
      (owner : Option String) (revision : String) (now : Instant) (w w' : RoleState)
      (s : LeaseStore) (l : Lease) (after : ControlStatus) (observed : GithubState)
      → IsConsistent is_uuid w s
      → Stopped is_uuid owner revision now w w' s l after observed
      → Move
          (stopped l.lease_id l.generation)
          (named_lease w.transaction)
          (named_lease w'.transaction)
  unfolding named_lease
  stopped-Move owner revision now w w' s l after observed c k = elim c.names [
    | inl gone ↦ absurd (found-missing is_uuid owner w k.transaction revision now gone k.found)
    | inr (t, m, holds) ↦
        let is_that : k.transaction ≡ t =
          found-stored is_uuid owner w t k.transaction revision now holds.written k.found in
        let (_, plain) = lease_at is_uuid w.store s t.start.node_id m c.reads holds.leased in
        let here : t.start.node_id ≡ k.node = ground (arith, k.normal, is_that, plain) in
        let same : m ≡ l = ground (arith, k.took.was, holds.leased, here) in
        rw (holds.written, k.removed, ← same, ← holds.id, ← holds.generation) stops
  ]

  started-Steps :
      (a : StartArgs) (x : StartAnswers) (w w' : RoleState) (s : LeaseStore)
      (r : Result FleetError (Lease × GithubState))
      → IsConsistent is_uuid w s
      → StartEnds is_uuid a x w w' s r
      → Steps is_uuid (start_event r) w w'
  started-Steps a x w w' s (ok (l, o)) c k = record {
    store = k.store;
    consistent = record {
      reads = k.reads;
      unique = k.unique;
      names = inr (k.transaction, l, k.holds);
    };
    moves = started-Move w w' k.transaction k.store l k.fresh k.holds;
  }
  started-Steps a x w w' s (err e) c (unchanged same) =
      rw same (record { store = s; consistent = c; moves = fails })
  started-Steps a x w w' s (err e) c (returned fresh u node normal reads unique free gone) =
      record {
        store = u;
        consistent = record { reads = reads; unique = unique; names = inl gone };
        moves = failed-Move w w' fresh gone;
      }
  started-Steps a x w w' s (err e) c (stranded fresh u l reads unique held gone refused) = record {
    store = u;
    consistent = record { reads = reads; unique = unique; names = inl gone };
    moves = failed-Move w w' fresh gone;
  }
  started-Steps a x w w' s (err e) c (recorded fresh u t l reads unique holds) = record {
    store = u;
    consistent = record { reads = reads; unique = unique; names = inr (t, l, holds) };
    moves = stranded-Move w w' t fresh holds.written;
  }

  stopped-Steps :
      (owner : Option String) (revision : String) (now : Instant) (x : Shutdown)
      (released_at : Instant) (w w' : RoleState) (s : LeaseStore)
      (r : Result FleetError (Lease × ControlStatus × GithubState))
      → IsConsistent is_uuid w s
      → fleet_runner_stop is_uuid owner revision now x released_at w ≡ (w', r)
      → Steps is_uuid (stop_event r) w w'
  stopped-Steps owner revision now x released_at w w' s (err e) c h =
      rejected-Steps w w' s
        (fleet_runner_stop-err is_uuid owner revision now x released_at w w' e h) c
  stopped-Steps owner revision now x released_at w w' s (ok (l, after, o)) c h =
      let k =
        fleet_runner_stop-Stopped is_uuid owner revision now x released_at w w' s l after o c.reads
          h in
      record {
        store = k.store;
        consistent = record {
          reads = k.reads;
          unique = k.took.nodup c.unique;
          names = inl k.removed;
        };
        moves = stopped-Move owner revision now w w' s l after o c k;
      }

  renewed-Steps :
      (owner : Option String) (ttl : Option ℤ) (revision : String) (now : Instant)
      (status : Result FleetError ControlStatus) (github : Result FleetError GithubState)
      (nonce : String) (renew_at renewed_at : Instant) (w w' : RoleState) (s : LeaseStore)
      (r : Result FleetError Lease)
      → IsConsistent is_uuid w s
      → fleet_runner_renew is_uuid owner ttl revision now status github nonce renew_at renewed_at w
        ≡ (w', r)
      → Steps is_uuid (renew_event r) w w'
  renewed-Steps owner ttl revision now status github nonce renew_at renewed_at w w' s (err e) c h =
      rejected-Steps w w' s
        (fleet_runner_renew-err is_uuid owner ttl revision now status github nonce renew_at
          renewed_at w w' e h)
        c
  renewed-Steps owner ttl revision now status github nonce renew_at renewed_at w w' s (ok l) c h =
      let k =
        fleet_runner_renew-Renewed is_uuid owner ttl revision now status github nonce renew_at
          renewed_at w w' s l c h in
      record {
        store = k.store;
        consistent = record {
          reads = k.reads;
          unique = k.unique;
          names = inr (k.transaction, l, k.holds);
        };
        moves = renewed-Move w w' k.before k.transaction k.store l k.was k.holds k.same_id k.newer;
      }

module _ (is_uuid : String → Bool) (casefold : String → String) (registry : NodeRegistry) where
  run_command-Steps :
      (w : RoleState) (c : Command) (s : LeaseStore)
      → IsConsistent is_uuid w s
      → Steps is_uuid
          (event_of is_uuid casefold registry w c)
          w
          (run_command is_uuid casefold registry w c)
  unfolding run_command event_of
  run_command-Steps w (start a x) s c =
      let (w', r) = fleet_runner_start is_uuid casefold registry a x w in
      started-Steps is_uuid a x w w' s r c
        (fleet_runner_start-StartEnds is_uuid casefold registry a x w w' s r c.reads c.unique refl)
  run_command-Steps w (stop owner revision now x released_at) s c =
      let (w', r) = fleet_runner_stop is_uuid owner revision now x released_at w in
      stopped-Steps is_uuid owner revision now x released_at w w' s r c refl
  run_command-Steps w (renew owner ttl revision now status github nonce renew_at renewed_at) s c =
      let (w', r) =
        fleet_runner_renew is_uuid owner ttl revision now status github nonce renew_at renewed_at
          w in
      renewed-Steps is_uuid owner ttl revision now status github nonce renew_at renewed_at w w' s r
        c refl

  -- Whatever commands are run for a role, with whatever answers, and whether they succeed or fail:
  -- from a state whose store can be read, has no node twice and has the lease that a transaction
  -- names, they leave such a state.
  pub run_commands-IsConsistent :
      (w : RoleState) (cs : List Command) (s : LeaseStore)
      → IsConsistent is_uuid w s
      → (s' : LeaseStore) × IsConsistent is_uuid (run_commands is_uuid casefold registry w cs) s'
  unfolding run_commands
  run_commands-IsConsistent w [] s c = (s, c)
  run_commands-IsConsistent w (x ∷ xs) s c =
      let k = run_command-Steps w x s c in
      run_commands-IsConsistent (run_command is_uuid casefold registry w x) xs k.store k.consistent

  -- From such a state, the lease that the transaction file names follows the machine of a role, by the
  -- move of each command's event in turn: a start that succeeds has the lease that it returns named
  -- where none was; a stop that succeeds returns the lease that was named, and none is named then; a
  -- renewal that succeeds keeps the id that is named and has a later generation named; a stop or a
  -- renewal that fails changes nothing; and a start that fails changes nothing or leaves a lease
  -- named where none was.
  pub run_commands-Moves :
      (w : RoleState) (cs : List Command) (s : LeaseStore)
      → IsConsistent is_uuid w s
      → Moves
          (events_of is_uuid casefold registry w cs)
          (named_lease w.transaction)
          (named_lease (run_commands is_uuid casefold registry w cs).transaction)
  unfolding run_commands events_of
  run_commands-Moves w [] s c = done
  run_commands-Moves w (x ∷ xs) s c =
      let k = run_command-Steps w x s c in
      then k.moves
        (run_commands-Moves (run_command is_uuid casefold registry w x) xs k.store k.consistent)
