-- ===== src/Lifecycle/Orderly/Remove.antt =====
-- src/lifecycle.rs: `remove_owned` keeps the calls in order.
use herdr_tether.Prelude.{ℕ, not, Option, none, some, ◌≡◌, arith, inl, inr, Bool-cases}
use herdr_tether.Session.{SessionStatus, creating, running, stopping, ended, removed, SessionRecord}
use herdr_tether.Store.{
  WorkloadState, missing, unknown, Backend, World, Env, removed as removed_action,
}
use herdr_tether.Lifecycle.{
  ◌>>=◌, ◌>>◌, return, note, backend_for, inspect_exact, other_incarnation, terminated,
}
use herdr_tether.Lifecycle.Rules.{
  Holds, bind-Holds, return-Holds, locked-effects, note-effects, backend_for-effects,
}
use herdr_tether.Lifecycle.Orderly.{InOrder, Looked, inspect_exact-Looked}
use herdr_tether.Lifecycle.Orderly.Methods.{step, Fine, found_record}
use herdr_tether.Lifecycle.Restart.{clear_ended}
use herdr_tether.Lifecycle.Remove.{
  require_ended, save_removal, clear_workload, forget, remove_proven, remove_owned, remove_with,
  remove_by_status,
}
use herdr_tether.Lifecycle.Stop.{CloseResult}
use herdr_tether.Lifecycle.Orderly.Restart.{IsCleared, clear_ended-Cleared}

module _ (env : Env) where
  save_removal-effects :
      (r : SessionRecord) (w : World) → (save_removal env r w).1.effects ≡ w.effects
  unfolding save_removal
  save_removal-effects r w = locked-effects env _ _ _ w

  require_ended-effects :
      (id : ℕ) (s : SessionStatus) (w : World) → (require_ended id s w).1.effects ≡ w.effects
  require_ended-effects id s w = ground arith

  removal_saved :
      (r : SessionRecord) (result : CloseResult) (w : World)
      → InOrder w
      → Holds InOrder Fine
          ((save_removal env r >> (note env r removed_action r.status removed >> return result)) w)
  removal_saved r result w h =
      step Fine (save_removal env r) _ (save_removal-effects r) w h λ u w h.
        step Fine (note env r removed_action r.status removed) _ (note-effects env r _ _ _) w h
          λ u w h. return-Holds InOrder Fine result w h

  cleared_away :
      (id : ℕ) (r : SessionRecord) (proof : ℕ) (backend : Backend) (identity : ℕ) (w : World)
      → InOrder w
      → Holds InOrder Fine (
          (inspect_exact env backend id proof r.tmux_pane_id
              >>= (λ s. clear_ended env backend id proof identity s)
              >> return terminated)
            w)
  cleared_away id r proof backend identity w h =
      bind-Holds InOrder (λ u w'. IsCleared env id proof w'.effects) Fine _ _
        (bind-Holds InOrder (Looked env backend id proof)
          (λ u w'. IsCleared env id proof w'.effects) _ _
          (inspect_exact-Looked env backend id proof r.tmux_pane_id w h)
          λ s w looked. clear_ended-Cleared env backend id proof identity s w looked)
        λ u w c. return-Holds InOrder Fine terminated w c.1

  clear_workload-InOrder :
      (id : ℕ) (r : SessionRecord) (proof : ℕ) (backend : Backend) (s : WorkloadState) (w : World)
      → InOrder w
      → Holds InOrder Fine (clear_workload env id r proof backend s w)
  unfolding clear_workload
  clear_workload-InOrder id r proof backend (WorkloadState.ended identity x) w h =
      elim (Bool-cases (not (other_incarnation r.tmux_session_id identity))) [
        | inl same ↦ rw same (cleared_away id r proof backend identity w h)
        | inr other ↦ rw other (unfold Holds in h)
      ]
  clear_workload-InOrder id r proof backend missing w h = unfold Holds in h
  clear_workload-InOrder id r proof backend unknown w h = unfold Holds in h
  clear_workload-InOrder id r proof backend (WorkloadState.running attached identity) w h =
      unfold Holds in h

  remove_with-InOrder :
      (id : ℕ) (r : SessionRecord) (proof : Option ℕ) (w : World)
      → InOrder w
      → Holds InOrder Fine (remove_with env id r proof w)
  unfolding forget remove_proven
  remove_with-InOrder id r none w h = removal_saved r _ w h
  remove_with-InOrder id r (some proof) w h =
      step Fine (require_ended id r.status) _ (require_ended-effects id r.status) w h λ u w h.
        step Fine (backend_for env id r.target r.tmux_socket) _ (backend_for-effects env id _ _) w h
          λ backend w h.
            bind-Holds InOrder (Looked env backend id proof) Fine _ _
              (inspect_exact-Looked env backend id proof r.tmux_pane_id w h)
              λ s w looked.
                bind-Holds InOrder Fine Fine _ _
                  (clear_workload-InOrder id r proof backend s w looked.1)
                  λ workload w h. removal_saved r _ w h

  remove_by_status-InOrder :
      (id : ℕ) (r : SessionRecord) (s : SessionStatus) (w : World)
      → InOrder w
      → Holds InOrder Fine (remove_by_status env id r s w)
  remove_by_status-InOrder id r removed w h = unfold Holds in h
  remove_by_status-InOrder id r creating w h = remove_with-InOrder id r r.ownership_proof w h
  remove_by_status-InOrder id r running w h = remove_with-InOrder id r r.ownership_proof w h
  remove_by_status-InOrder id r stopping w h = remove_with-InOrder id r r.ownership_proof w h
  remove_by_status-InOrder id r ended w h = remove_with-InOrder id r r.ownership_proof w h

  pub remove_owned-InOrder :
      (id : ℕ) (w : World) → InOrder w → Holds InOrder Fine (remove_owned env id w)
  unfolding remove_owned
  remove_owned-InOrder id = found_record env Fine id _ λ r. remove_by_status-InOrder id r r.status
