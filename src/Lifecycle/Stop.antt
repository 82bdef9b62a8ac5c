-- ===== src/Lifecycle/Stop.antt =====
-- src/lifecycle.rs: `stop_owned`, which `close_owned` calls, and `observe_owned`'s counterpart of it.
use herdr_tether.Prelude.{ℕ, ℤ, Option, none, some, ◌==◌, if◌then◌else◌, or_else}
use herdr_tether.Prelude.Text.{Text}
use herdr_tether.Session.{SessionStatus, stopping, ended, removed, SessionRecord}
use herdr_tether.Changes.{stopping_closure, finish_closure}
use herdr_tether.Store.{WorkloadState, missing, unknown, Backend, stop, stopped, Env}
use herdr_tether.Lifecycle.{
  M, ◌>>=◌, ◌>>◌, return, throw, ok_or, ClosedWorkload, absent, terminated, unknown_session,
  already_closed, workload_unknown, concurrent_modification, state_access, finalize_failed,
  other_incarnation, note, owned_record, locked, backend_for, inspect_exact, close_exact,
  require_ownership_proof,
}

pub record CloseResult : Type 0 where
  pub id : ℕ
  pub workload : ClosedWorkload

abbrev pub refuse_closed : ℕ → SessionStatus → M (Unit {0})
refuse_closed id ended = throw (already_closed id)
refuse_closed id removed = throw (already_closed id)
refuse_closed id _ = return tt

module _ (env : Env) where
  unfoldable pub lookup_owned : ℕ → M SessionRecord
  lookup_owned id = do
    found ← owned_record env id
    r ← ok_or found (unknown_session id)
    refuse_closed id r.status
    return r

  -- The incarnation that the first look has found, if the record does not contradict it.
  abbrev pub expect_incarnation : SessionRecord → ℕ → M (Option ℕ)
  expect_incarnation r identity =
      if other_incarnation r.tmux_session_id identity
      then throw (concurrent_modification r.id)
      else return (some identity)

  abbrev pub stop_identity : SessionRecord → WorkloadState → M (Option ℕ)
  stop_identity r (WorkloadState.running attached identity) = expect_incarnation r identity
  stop_identity r (WorkloadState.ended identity exit_status) = expect_incarnation r identity
  stop_identity r missing = return none
  stop_identity r unknown = throw (workload_unknown r.id)

  unfoldable pub ensure_stopping : SessionRecord → Option ℕ → M (Unit {0})
  ensure_stopping snapshot identity =
      locked env state_access (concurrent_modification snapshot.id)
        (λ w. stopping_closure snapshot identity)

  unfoldable pub finish_close : ℕ → Text → Option ℤ → M (Unit {0})
  finish_close id target exit_status =
      locked env (finalize_failed id) (concurrent_modification id)
        (λ w. finish_closure id target exit_status (env.clock w.tick 0) (env.clock w.tick 1))

  -- The second look, and the close of exactly what it saw.
  unfoldable pub reap : Backend → ℕ → ℕ → ℕ → WorkloadState → M (ClosedWorkload × Option ℤ)
  reap backend id proof identity (WorkloadState.running attached current) =
      if current == identity
      then (close_exact env backend id proof identity >> return (terminated, none))
      else throw (concurrent_modification id)
  reap backend id proof identity (WorkloadState.ended current exit_status) =
      if current == identity
      then (close_exact env backend id proof identity >> return (terminated, exit_status))
      else throw (concurrent_modification id)
  reap backend id proof identity missing = return (absent, none)
  reap backend id proof identity unknown = throw (workload_unknown id)

  unfoldable pub terminate : Backend → ℕ → ℕ → Option ℕ → Option ℕ → M (ClosedWorkload × Option ℤ)
  terminate backend id proof pane none = return (absent, none)
  terminate backend id proof pane (some identity) =
      inspect_exact env backend id proof pane >>= reap backend id proof identity

  unfoldable pub stop_owned : ℕ → M CloseResult
  stop_owned id = do
    r ← lookup_owned id
    proof ← require_ownership_proof r
    backend ← backend_for env id r.target r.tmux_socket
    inspected ← inspect_exact env backend id proof r.tmux_pane_id
    identity ← stop_identity r inspected
    ensure_stopping r identity
    let reserved = record r { tmux_session_id = or_else identity r.tmux_session_id }
    note env reserved stop r.status stopping
    result ← terminate backend id proof r.tmux_pane_id identity
    finish_close id r.target result.1
    note env (record reserved { exit_status = result.1 }) stopped stopping ended
    return (record { id = id; workload = result.0 })
