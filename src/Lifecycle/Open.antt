-- ===== src/Lifecycle/Open.antt =====
-- src/lifecycle.rs: `open_owned`, `observe_owned` and `mark_ended`.
use herdr_tether.Prelude.{ℕ, ℤ, Bool, true, false, Option, none, some, ◌==◌, if◌then◌else◌, ◌∷◌}
use herdr_tether.Session.{SessionStatus, creating, running, ended, removed, SessionRecord}
use herdr_tether.Changes.{revise, rewrite, to_opened, to_observed, to_ended}
use herdr_tether.Store.{
  WorkloadState, missing, unknown, Backend, observed, reconciled, attaching, World, Env, fail,
}
use herdr_tether.Lifecycle.{
  M, ◌>>=◌, ◌>>◌, return, throw, ok_or, unknown_session, workload_unknown, concurrent_modification,
  inspect_failed, invalid_status, opened, other_incarnation, note, owned_record, locked,
  backend_for, inspect_exact, require_ownership_proof,
}

abbrev pub require_running : ℕ → SessionStatus → M (Unit {0})
require_running id running = return tt
require_running id status = throw (invalid_status id opened status)

abbrev pub live_identity : ℕ → WorkloadState → M ℕ
live_identity id (WorkloadState.running attached identity) = return identity
live_identity id unknown = throw (workload_unknown id)
live_identity id missing = throw (invalid_status id opened ended)
live_identity id (WorkloadState.ended identity exit_status) = throw (invalid_status id opened ended)

-- The `is_some_and(|expected| expected != identity)` guard.
abbrev pub refuse_other : SessionRecord → ℕ → M (Unit {0})
refuse_other r identity =
    if other_incarnation r.tmux_session_id identity
    then throw (concurrent_modification r.id)
    else return tt

abbrev pub unless_removed : SessionStatus → M (Unit {0}) → M Bool
unless_removed removed save = return false
unless_removed _ save = (save >> return true)

module _ (env : Env) where
  abbrev pub attached_command : ℕ → Bool → M (Unit {0})
  attached_command id true = return tt
  attached_command id false = throw (inspect_failed id)

  -- `attach_command`, whose command the caller runs.
  unfoldable pub attach_exact : Backend → ℕ → ℕ → ℕ → M (Unit {0})
  attach_exact backend id proof identity w =
      attached_command id (env.attach w.tick backend id proof identity)
        (record w { effects = attaching backend id proof identity ∷ w.effects })

  abbrev pub attach_same : Backend → ℕ → ℕ → ℕ → WorkloadState → M (Unit {0})
  attach_same backend id proof identity (WorkloadState.running attached current) =
      if current == identity
      then attach_exact backend id proof identity
      else throw (concurrent_modification id)
  attach_same backend id proof identity unknown = throw (workload_unknown id)
  attach_same backend id proof identity missing = throw (concurrent_modification id)
  attach_same backend id proof identity (WorkloadState.ended current exit_status) =
      throw (concurrent_modification id)

  -- An `update` of the snapshot whose every failure is reported as a concurrent modification.
  unfoldable pub update_unchanged :
      SessionRecord → (World → SessionRecord → SessionRecord) → M (Unit {0})
  update_unchanged snapshot change =
      locked env (concurrent_modification snapshot.id) (concurrent_modification snapshot.id)
        (λ w. revise fail snapshot (rewrite (change w)))

  unfoldable pub open_owned : ℕ → M (Unit {0})
  open_owned id = do
    found ← owned_record env id
    r ← ok_or found (unknown_session id)
    require_running id r.status
    proof ← require_ownership_proof r
    backend ← backend_for env id r.target r.tmux_socket
    inspected ← inspect_exact env backend id proof r.tmux_pane_id
    identity ← live_identity id inspected
    refuse_other r identity
    update_unchanged r (λ w. to_opened identity (env.clock w.tick 0))
    again ← inspect_exact env backend id proof r.tmux_pane_id
    attach_same backend id proof identity again

  -- Whether there was an end to record.
  unfoldable pub mark_ended : SessionRecord → Option ℕ → Option ℤ → M Bool
  mark_ended snapshot identity exit_status = unless_removed snapshot.status (
      update_unchanged snapshot
        (λ w. to_ended identity exit_status (env.clock w.tick 0) (env.clock w.tick 1)))

  abbrev pub note_if : Bool → M (Unit {0}) → M (Unit {0})
  note_if true noting = noting
  note_if false noting = return tt

  abbrev pub confirm_running : SessionStatus → SessionRecord → ℕ → M (Unit {0})
  confirm_running creating r identity = do
    update_unchanged r (λ w. to_observed identity)
    note env (record r { tmux_session_id = some identity; exit_status = none }) observed r.status
        running
  confirm_running running r identity = do
    update_unchanged r (λ w. to_observed identity)
    note env (record r { tmux_session_id = some identity; exit_status = none }) observed r.status
        running
  confirm_running _ r identity = return tt

  unfoldable pub reconcile : SessionRecord → WorkloadState → M (Unit {0})
  reconcile r unknown = throw (workload_unknown r.id)
  reconcile r (WorkloadState.running attached identity) = do
    refuse_other r identity
    confirm_running r.status r identity
  reconcile r (WorkloadState.ended identity exit_status) = do
    refuse_other r identity
    marked ← mark_ended r (some identity) exit_status
    note_if marked (
        note env (record r { tmux_session_id = some identity; exit_status = exit_status })
          reconciled r.status ended)
  reconcile r missing = do
    marked ← mark_ended r none none
    note_if marked (note env (record r { exit_status = none }) reconciled r.status ended)

  unfoldable pub observe_owned : ℕ → M WorkloadState
  observe_owned id = do
    found ← owned_record env id
    r ← ok_or found (unknown_session id)
    proof ← require_ownership_proof r
    backend ← backend_for env id r.target r.tmux_socket
    seen ← inspect_exact env backend id proof r.tmux_pane_id
    reconcile r seen
    return seen
