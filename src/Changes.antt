-- ===== src/Changes.antt =====
-- src/lifecycle.rs: what the closures under the state lock do to a session record and to the state.
-- A closure works on the record only if it is still the snapshot that the caller has judged.
pub mod Valid
use herdr_tether.Prelude.{
  ℕ, ℤ, Bool, true, false, not, Option, none, some, List, [], if◌then◌else◌, ite, ◌==◌, retain,
  unwrap_or, or_else, map, find,
}
use herdr_tether.Prelude.Text.{Text, text_eq}
use herdr_tether.Session.{
  SessionStatus, creating, running, stopping, ended, removed, SessionRecord, SessionRecord-discrete,
  OrchestrationGroup, State,
}
use herdr_tether.Session.Pace.{failed_immediately, note_immediate_failure}
use herdr_tether.Store.{Decision, fail, refuse, keep, commit, find_session, put_session}

abbrev pub revise : Decision → SessionRecord → (State → SessionRecord → Decision) → State → Decision
revise otherwise snapshot change s = elim (find_session snapshot.id s.sessions) [
  | none ↦ otherwise
  | some current ↦ ite (SessionRecord-discrete current snapshot) (change s current) otherwise
]

-- A closure that writes the record back.
abbrev pub rewrite : (SessionRecord → SessionRecord) → State → SessionRecord → Decision
rewrite change s current = commit (put_session s current.id (change current))

unfoldable pub to_stopping : Option ℕ → SessionRecord → SessionRecord
to_stopping identity r = record r {
  tmux_session_id = or_else identity r.tmux_session_id;
  status = stopping;
}

-- The judgement that an end is another immediate failure, or the end of a run of them.
unfoldable pub settle_failures : ℕ → SessionRecord → SessionRecord
settle_failures now r =
    if failed_immediately r now
    then note_immediate_failure r now
    else record r { immediate_failures = [] }

-- `finish_close`: `now` is the end, `later` what the clock says when the failures are judged.
unfoldable pub to_finished : Option ℤ → ℕ → ℕ → SessionRecord → SessionRecord
unfolding settle_failures
to_finished exit_status now later r =
    settle_failures later
      (record r { status = ended; closed_at = some now; exit_status = exit_status })

-- `mark_ended`
unfoldable pub to_ended : Option ℕ → Option ℤ → ℕ → ℕ → SessionRecord → SessionRecord
unfolding settle_failures
to_ended identity exit_status now later r = settle_failures later (record r {
  status = ended;
  tmux_session_id = or_else identity r.tmux_session_id;
  closed_at = some (unwrap_or r.closed_at now);
  exit_status = exit_status;
})

-- `open_owned`
unfoldable pub to_opened : ℕ → ℕ → SessionRecord → SessionRecord
to_opened identity now r = record r { tmux_session_id = some identity; last_used_at = now }

-- `observe_owned`, of a workload that runs
unfoldable pub to_observed : ℕ → SessionRecord → SessionRecord
to_observed identity r = record r {
  status = running;
  tmux_session_id = some identity;
  closed_at = none;
  exit_status = none;
}

-- `promote_running`
unfoldable pub to_promoted : ℕ → Option ℕ → Option Text → ℕ → SessionRecord → SessionRecord
to_promoted session pane socket now r = record r {
  status = running;
  tmux_session_id = some session;
  tmux_pane_id = pane;
  tmux_socket = socket;
  closed_at = none;
  exit_status = none;
  last_used_at = now;
}

-- The reservation of `restart_owned`
unfoldable pub to_reserved : SessionRecord → SessionRecord
to_reserved r = record r {
  status = creating;
  tmux_session_id = none;
  tmux_pane_id = none;
  tmux_socket = none;
  closed_at = none;
  exit_status = none;
}

-- `remove_owned`
unfoldable pub to_removed : ℕ → SessionRecord → SessionRecord
to_removed now r = record r {
  status = removed;
  last_used_at = now;
  closed_at = some (unwrap_or r.closed_at now);
}

abbrev pub drop_workers : (ℕ → Bool) → OrchestrationGroup → OrchestrationGroup
drop_workers gone g = record g { workers = retain (λ w. not (gone w.session_id)) g.workers }

unfoldable pub reconcile_orchestration_groups : (ℕ → Bool) → State → State
reconcile_orchestration_groups gone s = record s {
  orchestration_groups =
      map (drop_workers gone)
        (retain (λ g. not (gone g.orchestrator_session_id)) s.orchestration_groups);
}

abbrev pub may_stop : SessionStatus → Bool
may_stop creating = true
may_stop running = true
may_stop stopping = true
may_stop ended = false
may_stop removed = false

-- The closure of `ensure_stopping`.
unfoldable pub stopping_closure : SessionRecord → Option ℕ → State → Decision
stopping_closure snapshot identity = revise refuse snapshot (λ s current.
    if may_stop current.status then rewrite (to_stopping identity) s current else refuse)

abbrev pub finish_record :
    SessionStatus → (SessionRecord → SessionRecord) → State → SessionRecord → Decision
finish_record ended change s current = keep
finish_record stopping change s current = rewrite change s current
finish_record _ change s current = refuse

-- The closure of `finish_close`, which goes by the identifier and the target alone.
unfoldable pub finish_closure : ℕ → Text → Option ℤ → ℕ → ℕ → State → Decision
finish_closure id target exit_status now later s = elim (find_session id s.sessions) [
  | none ↦ refuse
  | some current ↦
      if text_eq current.target target
      then finish_record current.status (to_finished exit_status now later) s current
      else refuse
]

unfoldable pub removal_closure : SessionRecord → ℕ → State → Decision
unfolding reconcile_orchestration_groups
removal_closure snapshot now = revise fail snapshot (λ s current. commit (
    reconcile_orchestration_groups (λ session. session == snapshot.id)
      (put_session s current.id (to_removed now current))))
