-- ===== src/Lifecycle/Remove.antt =====
-- src/lifecycle.rs: `remove_owned`.
use herdr_tether.Prelude.{ℕ, not, Option, none, some, if◌then◌else◌}
use herdr_tether.Session.{SessionStatus, ended, removed, SessionRecord}
use herdr_tether.Changes.{removal_closure}
use herdr_tether.Store.{WorkloadState, missing, unknown, Backend, removed as removed_action, Env}
use herdr_tether.Lifecycle.{
  M, ◌>>=◌, ◌>>◌, return, throw, ok_or, ClosedWorkload, absent, terminated, unknown_session,
  workload_unknown, concurrent_modification, invalid_status, cleared, other_incarnation, note,
  owned_record, locked, backend_for, inspect_exact,
}
use herdr_tether.Lifecycle.Stop.{CloseResult}
use herdr_tether.Lifecycle.Restart.{clear_ended}

abbrev pub require_ended : ℕ → SessionStatus → M (Unit {0})
require_ended id ended = return tt
require_ended id status = throw (invalid_status id cleared status)

module _ (env : Env) where
  unfoldable pub save_removal : SessionRecord → M (Unit {0})
  save_removal snapshot =
      locked env (concurrent_modification snapshot.id) (concurrent_modification snapshot.id)
        (λ w. removal_closure snapshot (env.clock w.tick 0))

  unfoldable pub clear_workload : ℕ → SessionRecord → ℕ → Backend → WorkloadState → M ClosedWorkload
  clear_workload id r proof backend (WorkloadState.ended identity exit_status) =
      if not (other_incarnation r.tmux_session_id identity)
      then (inspect_exact env backend id proof r.tmux_pane_id
          >>= clear_ended env backend id proof identity
          >> return terminated)
      else throw (concurrent_modification id)
  clear_workload id r proof backend missing = return absent
  clear_workload id r proof backend unknown = throw (workload_unknown id)
  clear_workload id r proof backend (WorkloadState.running attached identity) =
      throw (concurrent_modification id)

  -- Metadata that never carried a proof is forgotten with no transport.
  unfoldable pub forget : ℕ → SessionRecord → M CloseResult
  forget id r = do
    save_removal r
    note env r removed_action r.status removed
    return (record { id = id; workload = absent })

  unfoldable pub remove_proven : ℕ → SessionRecord → ℕ → M CloseResult
  remove_proven id r proof = do
    require_ended id r.status
    backend ← backend_for env id r.target r.tmux_socket
    inspected ← inspect_exact env backend id proof r.tmux_pane_id
    workload ← clear_workload id r proof backend inspected
    save_removal r
    note env r removed_action r.status removed
    return (record { id = id; workload = workload })

  abbrev pub remove_with : ℕ → SessionRecord → Option ℕ → M CloseResult
  remove_with id r none = forget id r
  remove_with id r (some proof) = remove_proven id r proof

  abbrev pub remove_by_status : ℕ → SessionRecord → SessionStatus → M CloseResult
  remove_by_status id r removed = return (record { id = id; workload = absent })
  remove_by_status id r _ = remove_with id r r.ownership_proof

  unfoldable pub remove_owned : ℕ → M CloseResult
  remove_owned id = do
    found ← owned_record env id
    r ← ok_or found (unknown_session id)
    remove_by_status id r r.status
