-- ===== src/Lifecycle/Orderly/Methods.antt =====
-- src/lifecycle.rs: every method keeps the calls to `tmux` in order.
use herdr_tether.Prelude.{
  ℕ, ◌==◌, ==_iff, Option, none, some, ◌≡◌, subst, arith, inl, inr, Bool-cases, if◌then◌else◌, ℤ,
}
use herdr_tether.Session.{SessionStatus, stopping, ended, SessionRecord}
use herdr_tether.Store.{WorkloadState, missing, unknown, Backend, World, Env, stop, stopped}
use herdr_tether.Lifecycle.{
  M, ◌>>=◌, ◌>>◌, bind_result, return, throw, ok_or, unknown_session, owned_record, note,
  backend_for, inspect_exact, close_exact, ClosedWorkload, LifecycleError, terminated,
  require_ownership_proof,
}
use herdr_tether.Lifecycle.Rules.{
  Holds, bind-Holds, return-Holds, Quiet, owned_record-effects, locked-effects, note-effects,
  backend_for-effects,
}
use herdr_tether.Lifecycle.Orderly.{
  present, LastLook, Cleared, Orderly, InOrder, Looked, inspect_exact-Looked, close_exact-InOrder,
  quiet_step, ok_or-effects,
}
use herdr_tether.Lifecycle.Stop.{
  refuse_closed, lookup_owned, stop_identity, ensure_stopping, finish_close, reap, terminate,
  stop_owned,
}
use herdr_tether.Lifecycle.Open.{
  require_running, live_identity, refuse_other, attach_exact, attach_same, update_unchanged,
  open_owned,
}

-- An action that makes no call, and what follows it.
pub step :
    {A B : Type 0} (Q : B → World → Type 0) (m : M A) (f : A → M B)
    → Quiet (λ w. w.effects) m
    → (w : World) → InOrder w
    → ((a : A) (w' : World) → InOrder w' → Holds InOrder Q (f a w'))
    → Holds InOrder Q (bind_result (m w) f)
step Q m f q w h k = quiet_step Orderly Q m f (λ es p. p) q w h k

abbrev pub Fine : {A : Type 0} → A → World → Type 0
Fine a w = InOrder w

module _ (env : Env) where
  -- The close stands under the test that the look has seen the very incarnation.
  pub same_incarnation :
      {B : Type 0} (Q : B → World → Type 0) (m : M B) (e : LifecycleError) (backend : Backend)
      (id proof identity current : ℕ) (w : World)
      → LastLook backend id proof (present current) w.effects
      → InOrder w
      → (LastLook backend id proof (present identity) w.effects → Holds InOrder Q (m w))
      → Holds InOrder Q ((if current == identity then m else throw e) w)
  unfolding Holds
  same_incarnation Q m e backend id proof identity current w l h k =
      elim (Bool-cases (current == identity)) [
        | inl same ↦ rw same (
            k (
              subst (λ i. LastLook backend id proof (present i) w.effects)
                ((==_iff current identity).0 same) l))
        | inr other ↦ rw other h
      ]

  reaped :
      (result : ClosedWorkload × Option ℤ) (backend : Backend) (id proof identity : ℕ) (w : World)
      → InOrder w
      → LastLook backend id proof (present identity) w.effects
      → Holds InOrder Fine ((close_exact env backend id proof identity >> return result) w)
  unfolding Holds
  reaped result backend id proof identity w h l =
      bind-Holds InOrder (λ u w'. Cleared id proof w'.effects × InOrder w') Fine _ _
        (close_exact-InOrder env backend id proof identity w l h) λ u w' c. c.1

  -- Only a look that has seen the very incarnation is followed by its close.
  reap-InOrder :
      (backend : Backend) (id proof identity : ℕ) (s : WorkloadState) (w : World)
      → Looked env backend id proof s w
      → Holds InOrder Fine (reap env backend id proof identity s w)
  unfolding reap Holds
  reap-InOrder backend id proof identity (WorkloadState.running attached current) w looked =
      same_incarnation Fine _ _ backend id proof identity current w looked.0 looked.1
        (reaped (terminated, none) backend id proof identity w looked.1)
  reap-InOrder backend id proof identity (WorkloadState.ended current exit_status) w looked =
      same_incarnation Fine _ _ backend id proof identity current w looked.0 looked.1
        (reaped (terminated, exit_status) backend id proof identity w looked.1)
  reap-InOrder backend id proof identity missing w looked = looked.1
  reap-InOrder backend id proof identity unknown w looked = looked.1

  terminate-InOrder :
      (backend : Backend) (id proof : ℕ) (pane identity : Option ℕ) (w : World)
      → InOrder w
      → Holds InOrder Fine (terminate env backend id proof pane identity w)
  unfolding terminate Holds
  terminate-InOrder backend id proof pane none w h = h
  terminate-InOrder backend id proof pane (some identity) w h =
      bind-Holds InOrder (Looked env backend id proof) Fine _ _
        (inspect_exact-Looked env backend id proof pane w h)
        (reap-InOrder backend id proof identity)

  stop_identity-effects :
      (r : SessionRecord) (s : WorkloadState) (w : World)
      → (stop_identity env r s w).1.effects ≡ w.effects
  stop_identity-effects r s w = ground arith

  -- What every method begins with.
  pub found_record :
      {B : Type 0} (Q : B → World → Type 0) (id : ℕ) (f : SessionRecord → M B)
      → ((r : SessionRecord) (w : World) → InOrder w → Holds InOrder Q (f r w))
      → (w : World) → InOrder w
      → Holds InOrder Q
          ((owned_record env id >>= λ found. (ok_or found (unknown_session id) >>= f)) w)
  found_record Q id f k w h =
      step Q (owned_record env id) _ (owned_record-effects env id) w h
        λ found w h. step Q (ok_or found (unknown_session id)) _ (ok_or-effects found _) w h k

  -- The look that follows on the proof and the backend.
  pub looked_at :
      {B : Type 0} (Q : B → World → Type 0) (r : SessionRecord) (id : ℕ)
      (f : ℕ → Backend → WorkloadState → M B)
      → ((proof : ℕ) (backend : Backend) (s : WorkloadState) (w : World)
          → Looked env backend id proof s w
          → Holds InOrder Q (f proof backend s w))
      → (w : World) → InOrder w
      → Holds InOrder Q (
          (require_ownership_proof r >>= λ proof.
          (backend_for env id r.target r.tmux_socket >>= λ backend.
          (inspect_exact env backend id proof r.tmux_pane_id >>= f proof backend)))
            w)
  looked_at Q r id f k w h =
      step Q (require_ownership_proof r) _ (ok_or-effects r.ownership_proof _) w h λ proof w h.
        step Q (backend_for env id r.target r.tmux_socket) _ (backend_for-effects env id _ _) w h
          λ backend w h.
            bind-Holds InOrder (Looked env backend id proof) Q _ _
              (inspect_exact-Looked env backend id proof r.tmux_pane_id w h) (k proof backend)

  refuse_closed-effects :
      (id : ℕ) (s : SessionStatus) (w : World) → (refuse_closed id s w).1.effects ≡ w.effects
  refuse_closed-effects id s w = ground arith

  lookup_owned-InOrder :
      (id : ℕ) (w : World) → InOrder w → Holds InOrder Fine (lookup_owned env id w)
  unfolding lookup_owned
  lookup_owned-InOrder id = found_record Fine id _ λ r w h.
      step Fine (refuse_closed id r.status) _ (refuse_closed-effects id r.status) w h
        λ u w h. return-Holds InOrder Fine r w h

  pub stop_owned-InOrder :
      (id : ℕ) (w : World) → InOrder w → Holds InOrder Fine (stop_owned env id w)
  unfolding stop_owned ensure_stopping finish_close
  stop_owned-InOrder id w h = bind-Holds InOrder Fine Fine _ _ (lookup_owned-InOrder id w h) λ r.
      looked_at Fine r id _ λ proof backend s w looked.
        step Fine (stop_identity env r s) _ (stop_identity-effects r s) w looked.1 λ identity w h.
          step Fine (ensure_stopping env r identity) _ (locked-effects env _ _ _) w h λ u w h.
            step Fine (note env _ stop r.status stopping) _ (note-effects env _ _ _ _) w h λ u w h.
              bind-Holds InOrder Fine Fine _ _
                (terminate-InOrder backend id proof r.tmux_pane_id identity w h)
                λ result w h.
                  step Fine (finish_close env id r.target result.1) _ (locked-effects env _ _ _) w h
                    λ u w h.
                      step Fine (note env _ stopped stopping ended) _ (note-effects env _ _ _ _) w h
                        λ u w h. return-Holds InOrder Fine _ w h

  live_identity-effects :
      (id : ℕ) (s : WorkloadState) (w : World) → (live_identity id s w).1.effects ≡ w.effects
  live_identity-effects id s w = ground arith

  require_running-effects :
      (id : ℕ) (s : SessionStatus) (w : World) → (require_running id s w).1.effects ≡ w.effects
  require_running-effects id s w = ground arith

  pub refuse_other-effects :
      (r : SessionRecord) (identity : ℕ) (w : World)
      → (refuse_other r identity w).1.effects ≡ w.effects
  refuse_other-effects r identity w = ground arith

  pub update_unchanged-effects :
      (r : SessionRecord) (change : World → SessionRecord → SessionRecord) (w : World)
      → (update_unchanged env r change w).1.effects ≡ w.effects
  unfolding update_unchanged
  update_unchanged-effects r change w = locked-effects env _ _ _ w

  attach_exact-InOrder :
      (backend : Backend) (id proof identity : ℕ) (w : World)
      → InOrder w
      → LastLook backend id proof (present identity) w.effects
      → Holds InOrder Fine (attach_exact env backend id proof identity w)
  unfolding attach_exact Holds
  attach_exact-InOrder backend id proof identity w h l =
      elim (Bool-cases (env.attach w.tick backend id proof identity)) [
        | inl attached ↦ rw attached (l, h)
        | inr refused ↦ rw refused (l, h)
      ]

  attach_same-InOrder :
      (backend : Backend) (id proof identity : ℕ) (s : WorkloadState) (w : World)
      → Looked env backend id proof s w
      → Holds InOrder Fine (attach_same env backend id proof identity s w)
  unfolding Holds
  attach_same-InOrder backend id proof identity (WorkloadState.running attached current) w looked =
      same_incarnation Fine _ _ backend id proof identity current w looked.0 looked.1
        (attach_exact-InOrder backend id proof identity w looked.1)
  attach_same-InOrder backend id proof identity (WorkloadState.ended current x) w looked = looked.1
  attach_same-InOrder backend id proof identity missing w looked = looked.1
  attach_same-InOrder backend id proof identity unknown w looked = looked.1

  pub open_owned-InOrder :
      (id : ℕ) (w : World) → InOrder w → Holds InOrder Fine (open_owned env id w)
  unfolding open_owned
  open_owned-InOrder id = found_record Fine id _ λ r w h.
      step Fine (require_running id r.status) _ (require_running-effects id r.status) w h λ u.
        looked_at Fine r id _ λ proof backend s w looked.
          step Fine (live_identity id s) _ (live_identity-effects id s) w looked.1 λ identity w h.
            step Fine (refuse_other r identity) _ (refuse_other-effects r identity) w h λ u w h.
              step Fine (update_unchanged env r _) _ (update_unchanged-effects r _) w h λ u w h.
                bind-Holds InOrder (Looked env backend id proof) Fine _ _
                  (inspect_exact-Looked env backend id proof r.tmux_pane_id w h)
                  (attach_same-InOrder backend id proof identity)
