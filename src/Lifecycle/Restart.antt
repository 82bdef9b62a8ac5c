-- ===== src/Lifecycle/Restart.antt =====
-- src/lifecycle.rs: `restart_owned` and `promote_running`.
use herdr_tether.Prelude.{ℕ, Bool, true, false, Option, none, some, ◌==◌, ◌&&◌, not, if◌then◌else◌}
use herdr_tether.Prelude.Text.{Text}
use herdr_tether.Session.{SessionStatus, creating, running, ended, removed, SessionRecord}
use herdr_tether.Changes.{to_promoted, to_reserved}
use herdr_tether.Store.{
  WorkloadState, missing, unknown, Backend, LaunchSpec, observed, restart, activate, Env,
}
use herdr_tether.Lifecycle.{
  M, ◌>>=◌, ◌>>◌, return, throw, ok_or, unknown_session, workload_unknown, concurrent_modification,
  missing_command, invalid_status, restarted, note, owned_record, backend_for, inspect_exact,
  close_exact, create_workload, require_ownership_proof,
}
use herdr_tether.Lifecycle.Open.{refuse_other, update_unchanged}

pub record RestartResult : Type 0 where
  pub id : ℕ
  pub identity : ℕ

abbrev pub is_creating : SessionStatus → Bool
is_creating creating = true
is_creating _ = false

-- `record.tmux_session_id != Some(identity)`.
abbrev pub is_incarnation : Option ℕ → ℕ → Bool
is_incarnation none identity = false
is_incarnation (some expected) identity = expected == identity

-- An incarnation that the record does not name is adopted only for a reservation.
abbrev pub require_adoptable : ℕ → SessionRecord → ℕ → M (Unit {0})
require_adoptable id r identity =
    if not (is_creating r.status) && not (is_incarnation r.tmux_session_id identity)
    then throw (concurrent_modification id)
    else return tt

abbrev pub refuse_removed : ℕ → SessionStatus → M (Unit {0})
refuse_removed id removed = throw (invalid_status id restarted removed)
refuse_removed id _ = return tt

abbrev pub require_restartable : ℕ → SessionStatus → M (Unit {0})
require_restartable id ended = return tt
require_restartable id creating = return tt
require_restartable id status = throw (invalid_status id restarted status)

abbrev pub launch_spec : ℕ → ℕ → Text → Text → LaunchSpec
launch_spec id proof directory command = record {
  id = id;
  ownership_proof = proof;
  directory = directory;
  command = command;
}

module _ (env : Env) where
  unfoldable pub promote_running : SessionRecord → ℕ → Option ℕ → Option Text → M (Unit {0})
  promote_running snapshot session pane socket =
      update_unchanged env snapshot (λ w. to_promoted session pane socket (env.clock w.tick 0))

  -- The second look at a workload whose program has ended, before its session is closed.
  unfoldable pub clear_ended : Backend → ℕ → ℕ → ℕ → WorkloadState → M (Unit {0})
  clear_ended backend id proof identity (WorkloadState.ended current exit_status) =
      if current == identity
      then close_exact env backend id proof identity
      else throw (concurrent_modification id)
  clear_ended backend id proof identity missing = return tt
  clear_ended backend id proof identity unknown = throw (workload_unknown id)
  clear_ended backend id proof identity (WorkloadState.running attached current) =
      throw (concurrent_modification id)

  -- An already running incarnation is adopted: the early return.
  unfoldable pub adopt_running : ℕ → SessionRecord → ℕ → M RestartResult
  adopt_running id r identity = do
    require_adoptable id r identity
    promote_running r identity r.tmux_pane_id r.tmux_socket
    note env (record r { tmux_session_id = some identity; exit_status = none }) observed r.status
        running
    return (record { id = id; identity = identity })

  -- The reservation, the creation, and the promotion of what was created.
  unfoldable pub recreate : ℕ → SessionRecord → ℕ → Text → M RestartResult
  recreate id r proof command = do
    require_restartable id r.status
    update_unchanged env r (λ w. to_reserved)
    found ← owned_record env id
    reservation ← ok_or found (unknown_session id)
    note env reservation restart r.status creating
    backend ← backend_for env id reservation.target none
    made ← create_workload env backend (launch_spec id proof reservation.directory command)
    promote_running reservation made.session (some made.pane) (some made.socket)
    note env
        (record reservation {
          tmux_session_id = some made.session;
          tmux_pane_id = some made.pane;
          tmux_socket = some made.socket;
          exit_status = none;
        })
        activate creating running
    return (record { id = id; identity = made.session })

  unfoldable pub restart_from :
      ℕ → SessionRecord → ℕ → Text → Backend → WorkloadState → M RestartResult
  restart_from id r proof command backend (WorkloadState.running attached identity) =
      adopt_running id r identity
  restart_from id r proof command backend (WorkloadState.ended identity exit_status) = do
    refuse_other r identity
    again ← inspect_exact env backend id proof r.tmux_pane_id
    clear_ended backend id proof identity again
    recreate id r proof command
  restart_from id r proof command backend missing = recreate id r proof command
  restart_from id r proof command backend unknown = throw (workload_unknown id)

  unfoldable pub restart_owned : ℕ → M RestartResult
  restart_owned id = do
    found ← owned_record env id
    r ← ok_or found (unknown_session id)
    proof ← require_ownership_proof r
    refuse_removed id r.status
    command ← ok_or r.command (missing_command id)
    backend ← backend_for env id r.target r.tmux_socket
    inspected ← inspect_exact env backend id proof r.tmux_pane_id
    restart_from id r proof command backend inspected
