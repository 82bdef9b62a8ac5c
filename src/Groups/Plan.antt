-- ===== src/Groups/Plan.antt =====
-- src/orchestration.rs: stopping or restarting the workers of a group: the plan, and its application
-- through the lifecycle service. `report`, the caller's callback, is not modelled, and of a failure only
-- that there is one.
use herdr_tether.Prelude.{
  ℕ, ◌+◌, ◌-◌, ◌/◌, Bool, false, ◌&&◌, Option, none, some, List, [], ◌∷◌, ltb, ◌==◌, if◌then◌else◌,
  any, find, map,
}
use herdr_tether.Prelude.Text.{Text}
use herdr_tether.Session.{SessionStatus, SessionRecord, OrchestrationMember, State}
use herdr_tether.Session.Pace.{seconds, paced_restart_until, immediate_failure_run}
use herdr_tether.Store.{Env, World, find_session, load}
use herdr_tether.Lifecycle.{Result, ClosedWorkload}
use herdr_tether.Lifecycle.Stop.{CloseResult, stop_owned}
use herdr_tether.Lifecycle.Restart.{RestartResult, restart_owned}
use herdr_tether.Groups.{is_group}

pub data GroupAction : Type 0 where
  stop restart : GroupAction

pub data GroupSkip : Type 0 where
  missing_record no_ownership_proof missing_command membership_changed : GroupSkip
  wrong_status : SessionStatus → GroupSkip
  restart_paced : (seconds run : ℕ) → GroupSkip

pub data GroupDecision : Type 0 where
  act : GroupDecision
  skip : GroupSkip → GroupDecision

pub record GroupPlanEntry : Type 0 where
  pub session_id : ℕ
  pub membership_id : ℕ
  pub decision : GroupDecision

pub record GroupPlan : Type 0 where
  pub group_id : Text
  pub action : GroupAction
  pub entries : List GroupPlanEntry

pub data GroupMemberResult : Type 0 where
  stopped : ClosedWorkload → GroupMemberResult
  restarted : GroupMemberResult
  skipped : GroupSkip → GroupMemberResult
  failed : GroupMemberResult

pub record GroupOutcome : Type 0 where
  pub session_id : ℕ
  pub result : GroupMemberResult

-- The two readings of the clock are `now` and `later`. A millisecond has 1000000 nanoseconds.
unfoldable pub paced_seconds : ℕ → ℕ → SessionRecord → Option ℕ
paced_seconds now later r = elim (paced_restart_until r now) [
  | none ↦ none
  | some until ↦ if ltb later until then some (((until - later) / 1000000 + 999) / 1000) else none
]

abbrev pub paced_decision : Option ℕ → ℕ → GroupDecision
paced_decision none run = act
paced_decision (some seconds) run = skip (restart_paced seconds run)

unfoldable pub plan_restart : ℕ → ℕ → SessionRecord → GroupDecision
unfolding paced_seconds
plan_restart now later r = elim r.command [
  | none ↦ skip missing_command
  | some command ↦ paced_decision (paced_seconds now later r) (immediate_failure_run r later)
]

unfoldable pub plan_record : ℕ → ℕ → GroupAction → SessionStatus → SessionRecord → GroupDecision
unfolding plan_restart
plan_record now later stop SessionStatus.running r = act
plan_record now later stop SessionStatus.creating r = act
plan_record now later stop SessionStatus.stopping r = act
plan_record now later stop status r = skip (wrong_status status)
plan_record now later restart SessionStatus.ended r = plan_restart now later r
plan_record now later restart SessionStatus.creating r = plan_restart now later r
plan_record now later restart status r = skip (wrong_status status)

unfoldable pub plan_member : ℕ → ℕ → GroupAction → Option SessionRecord → GroupDecision
unfolding plan_record
plan_member now later action none = skip missing_record
plan_member now later action (some r) = elim r.ownership_proof [
  | none ↦ skip no_ownership_proof
  | some proof ↦ plan_record now later action r.status r
]

abbrev pub plan_entry : ℕ → ℕ → GroupAction → State → OrchestrationMember → GroupPlanEntry
unfolding plan_member
plan_entry now later action s m = record {
  session_id = m.session_id;
  membership_id = m.membership_id;
  decision = plan_member now later action (find_session m.session_id s.sessions);
}

-- `plan_group_action`, of the state read and with one time for all members; `none` for an unknown group.
unfoldable pub plan_group_action : ℕ → ℕ → Text → GroupAction → State → Option GroupPlan
unfolding plan_entry
plan_group_action now later id action s = elim (find (is_group id) s.orchestration_groups) [
  | none ↦ none
  | some g ↦ some (record {
    group_id = id;
    action = action;
    entries = map (plan_entry now later action s) g.workers;
  })
]

abbrev pub is_same_membership : GroupPlanEntry → OrchestrationMember → Bool
is_same_membership e m = m.session_id == e.session_id && m.membership_id == e.membership_id

unfoldable pub membership_unchanged : Text → GroupPlanEntry → State → Bool
membership_unchanged id e s = elim (find (is_group id) s.orchestration_groups) [
  | none ↦ false
  | some g ↦ any (is_same_membership e) g.workers
]

abbrev pub stop_result : Result CloseResult × World → GroupMemberResult × World
stop_result (Result.ok closed, w) = (stopped closed.workload, w)
stop_result (Result.err e, w) = (failed, w)

abbrev pub restart_result : Result RestartResult × World → GroupMemberResult × World
restart_result (Result.ok r, w) = (restarted, w)
restart_result (Result.err e, w) = (failed, w)

module _ (env : Env) where
  unfoldable pub paced_since_plan : ℕ → ℕ → ℕ → State → Option (ℕ × ℕ)
  unfolding paced_seconds
  paced_since_plan now later id s = elim (find_session id s.sessions) [
    | none ↦ none
    | some r ↦ elim (paced_seconds now later r) [
      | none ↦ none
      | some n ↦ some (n, immediate_failure_run r later)
    ]
  ]

  abbrev pub restart_unless_paced : ℕ → Option (ℕ × ℕ) → World → GroupMemberResult × World
  restart_unless_paced id none w = restart_result (restart_owned env id w)
  restart_unless_paced id (some (n, run)) w = (skipped (restart_paced n run), w)

  -- The pace is read again before a restart.
  unfoldable pub restart_member : ℕ → Option State × World → GroupMemberResult × World
  unfolding paced_since_plan
  restart_member id (none, w) = (failed, w)
  restart_member id (some s, w) =
      restart_unless_paced id (paced_since_plan (env.clock w.tick 0) (env.clock w.tick 1) id s) w

  unfoldable pub perform_member : GroupAction → ℕ → World → GroupMemberResult × World
  unfolding restart_member
  perform_member stop id w = stop_result (stop_owned env id w)
  perform_member restart id w = restart_member id (load env w)

  unfoldable pub act_if_unchanged :
      GroupPlan → GroupPlanEntry → Option State × World → GroupMemberResult × World
  unfolding perform_member membership_unchanged
  act_if_unchanged plan e (none, w) = (failed, w)
  act_if_unchanged plan e (some s, w) =
      if membership_unchanged plan.group_id e s
      then perform_member plan.action e.session_id w
      else (skipped membership_changed, w)

  unfoldable pub act_on_member : GroupPlan → GroupPlanEntry → World → GroupMemberResult × World
  unfolding act_if_unchanged
  act_on_member plan e w = elim e.decision [
    | skip reason ↦ (skipped reason, w)
    | act ↦ act_if_unchanged plan e (load env w)
  ]

  unfoldable pub apply_entries : GroupPlan → List GroupPlanEntry → World → List GroupOutcome × World
  unfolding act_on_member
  apply_entries plan [] w = ([], w)
  apply_entries plan (e ∷ es) w =
      let done = act_on_member plan e w in
      let rest = apply_entries plan es done.1 in
      (record { session_id = e.session_id; result = done.0 } ∷ rest.0, rest.1)

  unfoldable pub apply_group_action : GroupPlan → World → List GroupOutcome × World
  unfolding apply_entries
  apply_group_action plan w = apply_entries plan plan.entries w
