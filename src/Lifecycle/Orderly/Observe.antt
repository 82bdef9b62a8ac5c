-- ===== src/Lifecycle/Orderly/Observe.antt =====
-- src/lifecycle.rs: `observe_owned` keeps the calls in order.
use herdr_tether.Prelude.{ℕ, ℤ, Bool, true, false, Option, none, some, ◌≡◌, refl}
use herdr_tether.Session.{SessionStatus, creating, running, stopping, ended, removed, SessionRecord}
use herdr_tether.Store.{WorkloadState, missing, unknown, World, Env, observed, reconciled}
use herdr_tether.Lifecycle.{M, ◌>>=◌, note}
use herdr_tether.Lifecycle.Rules.{Holds, bind-Holds, return-Holds, Quiet, quiet-Holds, note-effects}
use herdr_tether.Lifecycle.Orderly.{Orderly, InOrder}
use herdr_tether.Lifecycle.Orderly.Methods.{
  step, Fine, found_record, looked_at, refuse_other-effects, update_unchanged-effects,
}
use herdr_tether.Lifecycle.Open.{
  refuse_other, update_unchanged, mark_ended, unless_removed, note_if, confirm_running, reconcile,
  observe_owned,
}

module _ (env : Env) where
  note_if-effects :
      (b : Bool) (m : M (Unit {0}))
      → Quiet (λ w. w.effects) m
      → (w : World) → (note_if env b m w).1.effects ≡ w.effects
  note_if-effects true m q w = q w
  note_if-effects false m q w = refl

  unless_removed-effects :
      (s : SessionStatus) (m : M (Unit {0}))
      → Quiet (λ w. w.effects) m
      → (w : World) → InOrder w
      → Holds InOrder Fine (unless_removed s m w)
  unfolding Holds
  unless_removed-effects removed m q w h = h
  unless_removed-effects creating m q w h = step Fine m _ q w h λ u w h. h
  unless_removed-effects running m q w h = step Fine m _ q w h λ u w h. h
  unless_removed-effects stopping m q w h = step Fine m _ q w h λ u w h. h
  unless_removed-effects ended m q w h = step Fine m _ q w h λ u w h. h

  marked_and_noted :
      (r noted : SessionRecord) (identity : Option ℕ) (x : Option ℤ) (w : World)
      → InOrder w
      → Holds InOrder Fine (
          (mark_ended env r identity x >>= λ marked.
          note_if env marked (note env noted reconciled r.status ended))
            w)
  unfolding mark_ended
  marked_and_noted r noted identity x w h =
      bind-Holds InOrder Fine Fine _ _
        (unless_removed-effects r.status (update_unchanged env r _)
          (update_unchanged-effects env r _) w h)
        λ marked w h.
          quiet-Holds (λ w. w.effects) Orderly
            (note_if env marked (note env noted reconciled r.status ended))
            (note_if-effects marked _ (note-effects env noted reconciled r.status ended)) w h

  confirm_running-effects :
      (s : SessionStatus) (r : SessionRecord) (identity : ℕ) (w : World)
      → InOrder w
      → Holds InOrder Fine (confirm_running env s r identity w)
  unfolding Holds
  confirm_running-effects creating r identity w h =
      step Fine (update_unchanged env r _) _ (update_unchanged-effects env r _) w h λ u w h.
        quiet-Holds (λ w. w.effects) Orderly (note env _ observed r.status running)
          (note-effects env _ observed r.status running) w h
  confirm_running-effects running r identity w h =
      step Fine (update_unchanged env r _) _ (update_unchanged-effects env r _) w h λ u w h.
        quiet-Holds (λ w. w.effects) Orderly (note env _ observed r.status running)
          (note-effects env _ observed r.status running) w h
  confirm_running-effects stopping r identity w h = h
  confirm_running-effects ended r identity w h = h
  confirm_running-effects removed r identity w h = h

  reconcile-InOrder :
      (r : SessionRecord) (s : WorkloadState) (w : World)
      → InOrder w
      → Holds InOrder Fine (reconcile env r s w)
  unfolding reconcile
  reconcile-InOrder r unknown w h = unfold Holds in h
  reconcile-InOrder r (WorkloadState.running attached identity) w h =
      step Fine (refuse_other r identity) _ (refuse_other-effects env r identity) w h
        λ u. confirm_running-effects r.status r identity
  reconcile-InOrder r (WorkloadState.ended identity x) w h =
      step Fine (refuse_other r identity) _ (refuse_other-effects env r identity) w h
        λ u. marked_and_noted r _ (some identity) x
  reconcile-InOrder r missing w h = marked_and_noted r _ none none w h

  pub observe_owned-InOrder :
      (id : ℕ) (w : World) → InOrder w → Holds InOrder Fine (observe_owned env id w)
  unfolding observe_owned
  observe_owned-InOrder id = found_record env Fine id _ λ r.
      looked_at env Fine r id _ λ proof backend s w looked.
        bind-Holds InOrder Fine Fine _ _ (reconcile-InOrder r s w looked.1)
          λ u w h. return-Holds InOrder Fine s w h
