-- ===== src/Fleet/Runner/Waits.antt =====
-- The two waiting loops of fleet_runner.py. What is read in each round is a function of the round,
-- and the clock gives the number of rounds that end before the deadline.
use opl_flow.Base.{
  ℕ, zero, suc, ◌+◌, ◌≤◌, Bool, true, false, ◌≡◌, ◌⊎◌, inl, inr, arith, eqb, ok, ◌>>=◌,
  Result-cases, Bool-cases,
}
use opl_flow.Base.Results.{Result}
use opl_flow.Fleet.Common.{FleetError}
use opl_flow.Fleet.Runner.Control.{ControlStatus, GithubState}

-- an equality of two flags
abbrev pub same_flag : Bool → Bool → Bool
same_flag true b = b
same_flag false true = false
same_flag false false = true

module _ {A : Type 0} (read : ℕ → Result FleetError A) (meets : A → Bool) where
  -- `while True`: read, return what meets the expectation, and return what was read last once the
  -- deadline has passed
  unfoldable pub wait_until : (rounds i : ℕ) → Result FleetError A
  wait_until zero i = read i
  wait_until (suc rounds) i = do
    last ← read i
    elim (meets last) [ true ↦ ok last | false ↦ wait_until rounds (i + 1) ]

abbrev pub is_zero : ControlStatus → Bool
is_zero s = eqb s.processes 0

unfoldable pub wait_runner_state :
    (ℕ → Result FleetError GithubState) → Bool → ℕ → Result FleetError GithubState
unfolding wait_until
wait_runner_state read expect_online rounds =
    wait_until read (λ s. same_flag s.online expect_online) rounds 0

unfoldable pub wait_runner_processes :
    (ℕ → Result FleetError ControlStatus) → Bool → ℕ → Result FleetError ControlStatus
unfolding wait_until
wait_runner_processes read expect_zero rounds =
    wait_until read (λ s. same_flag (is_zero s) expect_zero) rounds 0

-- what a wait that ends well has read
pub record Waited {A : Type 0} (read : ℕ → Result FleetError A) (meets : A → Bool) (rounds i : ℕ)
    (a : A) : Type 0 where
  pub round : ℕ
  pub from : i ≤ round
  pub within : round ≤ i + rounds
  pub was : read round ≡ ok a
  pub ends : (meets a ≡ true) ⊎ (round ≡ i + rounds)

-- A wait reads at most one time more than there are rounds before the deadline: what it returns was
-- read in one of these rounds, and either meets the expectation or was read after the deadline.
pub wait_until-Waited :
    {A : Type 0} (read : ℕ → Result FleetError A) (meets : A → Bool) (rounds i : ℕ) (a : A)
    → wait_until read meets rounds i ≡ ok a
    → Waited read meets rounds i a
unfolding wait_until
wait_until-Waited read meets zero i a h = record {
  round = i;
  from = omega arith;
  within = omega arith;
  was = h;
  ends = inr (omega arith);
}
wait_until-Waited read meets (suc rounds) i a h = elim (Result-cases (read i)) [
  | inr (e, bad) ↦ absurd (ground (arith, bad))
  | inl (b, was) ↦ elim (Bool-cases (meets b)) [
    | inl done ↦
        let same : b ≡ a = ground (arith, was, done) in
        record {
          round = i;
          from = omega arith;
          within = omega arith;
          was = rw (← same) was;
          ends = inl (rw (← same) done);
        }
    | inr more ↦
        let w = wait_until-Waited read meets rounds (i + 1) a (ground (arith, was, more)) in
        record {
          round = w.round;
          from = omega (arith, w.from);
          within = omega (arith, w.within);
          was = w.was;
          ends = elim w.ends [ inl met ↦ inl met | inr last ↦ inr (omega (arith, last)) ];
        }
  ]
]
