-- ===== src/Lifecycle/Outcome/Methods.antt =====
-- src/lifecycle.rs: the status that each method leaves when it reports success.
use herdr_tether.Prelude.{ℕ, Option, none, some, ◌≡◌, refl, subst}
use herdr_tether.Prelude.Text.{Text}
use herdr_tether.Session.{SessionStatus, creating, running, stopping, ended, SessionRecord, State}
use herdr_tether.Changes.{rewrite, to_promoted}
use herdr_tether.Store.{
  World, Env, find_session, load, WorkloadState, missing, unknown, Backend, stop, stopped, observed,
  activate, restart,
}
use herdr_tether.Lifecycle.{
  M, ◌>>=◌, bind_result, ok_or, owned_record, loaded, note, create_workload, unknown_session,
  missing_command, require_ownership_proof, backend_for, inspect_exact,
}
use herdr_tether.Lifecycle.Rules.{Holds, bind-Holds}
use herdr_tether.Lifecycle.Stop.{
  CloseResult, lookup_owned, stop_identity, ensure_stopping, terminate, finish_close, stop_owned,
}
use herdr_tether.Lifecycle.Open.{refuse_other, update_unchanged}
use herdr_tether.Lifecycle.Restart.{
  RestartResult, require_restartable, require_adoptable, refuse_removed, promote_running,
  clear_ended, adopt_running, recreate, restart_from, restart_owned,
}
use herdr_tether.Lifecycle.Outcome.{
  HasStatus, Anything, after_any, locked-Holds, noted_at_end, finish_closure-Leaves, revise-Leaves,
  rewritten-HasStatus, find_session-id,
}

module _ (env : Env) where
  -- A stop that reports success has left the session recorded as ended, whatever other processes
  -- did to the state in between.
  pub stop_owned-ended :
      (id : ℕ) (w : World)
      → Holds Anything (λ result w'. HasStatus id ended w'.store) (stop_owned env id w)
  unfolding stop_owned finish_close
  stop_owned-ended id w = after_any Q (lookup_owned env id) _ w λ r w.
      after_any Q (require_ownership_proof r) _ w λ proof w.
        after_any Q (backend_for env id r.target r.tmux_socket) _ w λ backend w.
          after_any Q (inspect_exact env backend id proof r.tmux_pane_id) _ w λ s w.
            after_any Q (stop_identity env r s) _ w λ identity w.
              after_any Q (ensure_stopping env r identity) _ w λ u w.
                after_any Q (note env _ stop r.status stopping) _ w λ u w.
                  after_any Q (terminate env backend id proof r.tmux_pane_id identity) _ w
                    λ result w.
                      bind-Holds Anything (λ u w. HasStatus id ended w.store) Q _ _
                        (locked-Holds env (HasStatus id ended) _ _ _ w
                          λ s. finish_closure-Leaves id r.target result.1 _ _ s)
                        λ u w h.
                          noted_at_end env (HasStatus id ended) _ stopped stopping ended _ w h
    where
      Q : CloseResult → World → Type 0
      Q result w = HasStatus id ended w.store

  update_unchanged-Holds :
      (status : SessionStatus) (r : SessionRecord) (change : World → SessionRecord → SessionRecord)
      (w : World)
      → ((w' : World) (x : SessionRecord)
          → ((change w' x).status ≡ status) × ((change w' x).id ≡ x.id))
      → Holds Anything (λ u w'. HasStatus r.id status w'.store) (update_unchanged env r change w)
  unfolding update_unchanged
  update_unchanged-Holds status r change w h = locked-Holds env (HasStatus r.id status) _ _ _ w λ s.
      revise-Leaves (HasStatus r.id status) r (rewrite (change w)) s λ current found.
        rewritten-HasStatus status (change w) s r.id current found (h w current).0 (h w current).1

  promote_running-Holds :
      (r : SessionRecord) (session : ℕ) (pane : Option ℕ) (socket : Option Text) (w : World)
      → Holds Anything
          (λ u w'. HasStatus r.id running w'.store)
          (promote_running env r session pane socket w)
  unfolding promote_running to_promoted
  promote_running-Holds r session pane socket w =
      update_unchanged-Holds running r _ w λ w' x. (refl, refl)

  -- What is found under an identifier has it.
  found_record-Holds :
      {B : Type 0} (Q : B → World → Type 0) (id : ℕ) (f : SessionRecord → M B) (w : World)
      → ((r : SessionRecord) (w : World) → r.id ≡ id → Holds Anything Q (f r w))
      → Holds Anything Q
          ((owned_record env id >>= λ found. (ok_or found (unknown_session id) >>= f)) w)
  unfolding owned_record bind_result
  found_record-Holds {B} Q id f w k = go (load env w)
    where
      at_hand :
          (found : Option SessionRecord) (w : World)
          → ((r : SessionRecord) → found ≡ some r → r.id ≡ id)
          → Holds {A = B} Anything Q ((ok_or found (unknown_session id) >>= f) w)
      at_hand none w h = unfold Holds in tt
      at_hand (some r) w h = k r w (h r refl)

      go :
          (x : Option State × World)
          → Holds {A = B} Anything Q
              (bind_result (loaded env id x) (λ found. (ok_or found (unknown_session id) >>= f)))
      go (none, w) = unfold Holds in tt
      go (some s, w) = at_hand (find_session id s.sessions) w (find_session-id id s.sessions)

  adopt_running-running :
      (id : ℕ) (r : SessionRecord) (identity : ℕ) (w : World)
      → r.id ≡ id
      → Holds Anything
          (λ result w'. HasStatus id running w'.store)
          (adopt_running env id r identity w)
  unfolding adopt_running
  adopt_running-running id r identity w same =
      let Q : RestartResult → World → Type 0 = λ result w. HasStatus id running w.store in
      after_any Q (require_adoptable id r identity) _ w λ u w.
        bind-Holds Anything (λ u w. HasStatus r.id running w.store) Q _ _
          (promote_running-Holds r identity _ _ w)
          λ u w h.
            noted_at_end env (HasStatus id running) _ observed r.status running _ w
              (subst (λ k. HasStatus k running w.store) same h)

  recreate-running :
      (id : ℕ) (r : SessionRecord) (proof : ℕ) (command : Text) (w : World)
      → Holds Anything
          (λ result w'. HasStatus id running w'.store)
          (recreate env id r proof command w)
  unfolding recreate
  recreate-running id r proof command w =
      let Q : RestartResult → World → Type 0 = λ result w. HasStatus id running w.store in
      after_any Q (require_restartable id r.status) _ w λ u w.
        after_any Q (update_unchanged env r _) _ w λ u w.
          found_record-Holds Q id _ w λ reservation w same.
            after_any Q (note env reservation restart r.status creating) _ w λ u w.
              after_any Q (backend_for env id reservation.target none) _ w λ backend w.
                after_any Q (create_workload env backend _) _ w λ made w.
                  bind-Holds Anything (λ u w. HasStatus reservation.id running w.store) Q _ _
                    (promote_running-Holds reservation made.session _ _ w)
                    λ u w h.
                      noted_at_end env (HasStatus id running) _ activate creating running _ w
                        (subst (λ k. HasStatus k running w.store) same h)

  restart_from-running :
      (id : ℕ) (r : SessionRecord) (proof : ℕ) (command : Text) (backend : Backend)
      (s : WorkloadState) (w : World)
      → r.id ≡ id
      → Holds Anything
          (λ result w'. HasStatus id running w'.store)
          (restart_from env id r proof command backend s w)
  unfolding restart_from
  restart_from-running id r proof command backend (WorkloadState.running attached identity) w same =
      adopt_running-running id r identity w same
  restart_from-running id r proof command backend (WorkloadState.ended identity x) w same =
      let Q : RestartResult → World → Type 0 = λ result w. HasStatus id running w.store in
      after_any Q (refuse_other r identity) _ w λ u w.
        after_any Q (inspect_exact env backend id proof r.tmux_pane_id) _ w λ s w.
          after_any Q (clear_ended env backend id proof identity s) _ w
            λ u w. recreate-running id r proof command w
  restart_from-running id r proof command backend missing w same =
      recreate-running id r proof command w
  restart_from-running id r proof command backend unknown w same = unfold Holds in tt

  -- A restart that reports success has left the session recorded as running, whether it adopted a
  -- live incarnation or created one.
  pub restart_owned-running :
      (id : ℕ) (w : World)
      → Holds Anything (λ result w'. HasStatus id running w'.store) (restart_owned env id w)
  unfolding restart_owned
  restart_owned-running id w =
      let Q : RestartResult → World → Type 0 = λ result w. HasStatus id running w.store in
      found_record-Holds Q id _ w λ r w same. after_any Q (require_ownership_proof r) _ w λ proof w.
        after_any Q (refuse_removed id r.status) _ w λ u w.
          after_any Q (ok_or r.command (missing_command id)) _ w λ command w.
            after_any Q (backend_for env id r.target r.tmux_socket) _ w λ backend w.
              after_any Q (inspect_exact env backend id proof r.tmux_pane_id) _ w
                λ s w. restart_from-running id r proof command backend s w same
