-- ===== src/Lifecycle/Orderly/Restart.antt =====
-- src/lifecycle.rs: `restart_owned` keeps the calls in order.
use herdr_tether.Prelude.{ℕ, not, Option, none, some, List, ◌≡◌, arith, if◌then◌else◌, ◌&&◌}
use herdr_tether.Prelude.Text.{Text}
use herdr_tether.Session.{SessionStatus, creating, running, SessionRecord}
use herdr_tether.Store.{
  WorkloadState, missing, unknown, Backend, Effect, World, Env, observed, restart, activate,
}
use herdr_tether.Lifecycle.{
  M, bind_result, return, throw, ok_or, unknown_session, missing_command, owned_record, note,
  backend_for, concurrent_modification, require_ownership_proof,
}
use herdr_tether.Lifecycle.Rules.{
  Holds, bind-Holds, return-Holds, Quiet, owned_record-effects, note-effects, backend_for-effects,
}
use herdr_tether.Lifecycle.Orderly.{
  LastLook-Cleared, Cleared, Orderly, InOrder, Looked, inspect_exact-Looked, close_exact-InOrder,
  create_workload-InOrder, quiet_step, ok_or-effects,
}
use herdr_tether.Lifecycle.Orderly.Methods.{
  step, Fine, found_record, same_incarnation, refuse_other-effects, update_unchanged-effects,
}
use herdr_tether.Lifecycle.Open.{refuse_other, update_unchanged}
use herdr_tether.Lifecycle.Restart.{
  is_creating, is_incarnation, refuse_removed, require_restartable, launch_spec, promote_running,
  clear_ended, adopt_running, recreate, restart_from, restart_owned,
}

module _ (env : Env) where
  promote_running-effects :
      (r : SessionRecord) (session : ℕ) (pane : Option ℕ) (socket : Option Text) (w : World)
      → (promote_running env r session pane socket w).1.effects ≡ w.effects
  unfolding promote_running
  promote_running-effects r session pane socket w = update_unchanged-effects env r _ w

  adopt_running-InOrder :
      (id : ℕ) (r : SessionRecord) (identity : ℕ) (w : World)
      → InOrder w
      → Holds InOrder Fine (adopt_running env id r identity w)
  unfolding adopt_running
  adopt_running-InOrder id r identity w h =
      step Fine
        (if not (is_creating r.status) && not (is_incarnation r.tmux_session_id identity)
          then throw (concurrent_modification id)
          else return tt)
        _ (λ w. ground arith) w h
        λ u w h.
          step Fine (promote_running env r identity r.tmux_pane_id r.tmux_socket) _
            (promote_running-effects r identity r.tmux_pane_id r.tmux_socket) w h
            λ u w h.
              step Fine (note env _ observed r.status running) _ (note-effects env _ _ _ _) w h
                λ u w h. return-Holds InOrder Fine _ w h

  abbrev pub IsCleared : ℕ → ℕ → List Effect → Type 0
  IsCleared id proof es = Cleared id proof es × Orderly es

  cleared_step :
      {A B : Type 0} (id proof : ℕ) (Q : B → World → Type 0) (m : M A) (f : A → M B)
      → Quiet (λ w. w.effects) m
      → (w : World) → IsCleared id proof w.effects
      → ((a : A) (w' : World) → IsCleared id proof w'.effects → Holds InOrder Q (f a w'))
      → Holds InOrder Q (bind_result (m w) f)
  cleared_step id proof Q m f q w h k = quiet_step (IsCleared id proof) Q m f (λ es p. p.1) q w h k

  require_restartable-effects :
      (id : ℕ) (s : SessionStatus) (w : World) → (require_restartable id s w).1.effects ≡ w.effects
  require_restartable-effects id s w = ground arith

  refuse_removed-effects :
      (id : ℕ) (s : SessionStatus) (w : World) → (refuse_removed id s w).1.effects ≡ w.effects
  refuse_removed-effects id s w = ground arith

  recreate-InOrder :
      (id : ℕ) (r : SessionRecord) (proof : ℕ) (command : Text) (w : World)
      → IsCleared id proof w.effects
      → Holds InOrder Fine (recreate env id r proof command w)
  unfolding recreate
  recreate-InOrder id r proof command w h =
      cleared_step id proof Fine (require_restartable id r.status) _
        (require_restartable-effects id r.status) w h
        λ u w h.
          cleared_step id proof Fine (update_unchanged env r _) _ (update_unchanged-effects env r _)
            w h
            λ u w h.
              cleared_step id proof Fine (owned_record env id) _ (owned_record-effects env id) w h
                λ found w h.
                  cleared_step id proof Fine (ok_or found (unknown_session id)) _
                    (ok_or-effects found _) w h
                    λ reservation w h.
                      cleared_step id proof Fine (note env reservation restart r.status creating) _
                        (note-effects env reservation restart r.status creating) w h
                        λ u w h.
                          cleared_step id proof Fine (backend_for env id reservation.target none) _
                            (backend_for-effects env id reservation.target none) w h
                            λ backend w h.
                              bind-Holds InOrder Fine Fine _ _
                                (create_workload-InOrder env backend
                                  (launch_spec id proof reservation.directory command) w h.0 h.1)
                                λ made w h.
                                  step Fine
                                    (promote_running env reservation made.session (some made.pane)
                                      (some made.socket))
                                    _
                                    (promote_running-effects reservation made.session
                                      (some made.pane) (some made.socket))
                                    w h
                                    λ u w h.
                                      step Fine (note env _ activate creating running) _
                                        (note-effects env _ _ _ _) w h
                                        λ u w h. return-Holds InOrder Fine _ w h

  pub clear_ended-Cleared :
      (backend : Backend) (id proof identity : ℕ) (s : WorkloadState) (w : World)
      → Looked env backend id proof s w
      → Holds InOrder
          (λ u w'. IsCleared id proof w'.effects)
          (clear_ended env backend id proof identity s w)
  unfolding clear_ended
  clear_ended-Cleared backend id proof identity (WorkloadState.ended current x) w looked =
      same_incarnation env _ _ _ backend id proof identity current w looked.0 looked.1
        λ l. close_exact-InOrder env backend id proof identity w l looked.1
  clear_ended-Cleared backend id proof identity missing w looked =
      unfold Holds in (LastLook-Cleared backend id proof w.effects looked.0, looked.1)
  clear_ended-Cleared backend id proof identity unknown w looked = unfold Holds in looked.1
  clear_ended-Cleared backend id proof identity (WorkloadState.running attached current) w looked =
      unfold Holds in looked.1

  restart_from-InOrder :
      (id : ℕ) (r : SessionRecord) (proof : ℕ) (command : Text) (backend : Backend)
      (s : WorkloadState) (w : World)
      → Looked env backend id proof s w
      → Holds InOrder Fine (restart_from env id r proof command backend s w)
  unfolding restart_from
  restart_from-InOrder id r proof command backend (WorkloadState.running attached identity) w
        looked =
      adopt_running-InOrder id r identity w looked.1
  restart_from-InOrder id r proof command backend (WorkloadState.ended identity x) w looked =
      step Fine (refuse_other r identity) _ (refuse_other-effects env r identity) w looked.1
        λ u w h.
          bind-Holds InOrder (Looked env backend id proof) Fine _ _
            (inspect_exact-Looked env backend id proof r.tmux_pane_id w h)
            λ s w looked.
              bind-Holds InOrder (λ u w'. IsCleared id proof w'.effects) Fine _ _
                (clear_ended-Cleared backend id proof identity s w looked)
                λ u w c. recreate-InOrder id r proof command w c
  restart_from-InOrder id r proof command backend missing w looked =
      recreate-InOrder id r proof command w
        (LastLook-Cleared backend id proof w.effects looked.0, looked.1)
  restart_from-InOrder id r proof command backend unknown w looked = unfold Holds in looked.1

  pub restart_owned-InOrder :
      (id : ℕ) (w : World) → InOrder w → Holds InOrder Fine (restart_owned env id w)
  unfolding restart_owned
  restart_owned-InOrder id = found_record env Fine id _ λ r w h.
      step Fine (require_ownership_proof r) _ (ok_or-effects r.ownership_proof _) w h λ proof w h.
        step Fine (refuse_removed id r.status) _ (refuse_removed-effects id r.status) w h λ u w h.
          step Fine (ok_or r.command (missing_command id)) _ (ok_or-effects r.command _) w h
            λ command w h.
              step Fine (backend_for env id r.target r.tmux_socket) _
                (backend_for-effects env id _ _) w h
                λ backend w h.
                  bind-Holds InOrder (Looked env backend id proof) Fine _ _
                    (inspect_exact-Looked env backend id proof r.tmux_pane_id w h)
                    (restart_from-InOrder id r proof command backend)
