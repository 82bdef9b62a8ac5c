-- ===== src/Observer/WellFormed.antt =====
-- src/observer.rs: the bounds and the selection of an observer, which refreshes, observations and
-- captures keep.
use herdr_tether.Prelude.{
  subst, ℕ, ◌≤◌, Option, none, some, List, [], ◌∷◌, ◌≡◌, refl, sym, ap, arith, inl, inr,
  Option-cases, length, take, suc, find, unwrap_or, length-take, length-retain-le,
}
use herdr_tether.Prelude.Text.{Text}
use herdr_tether.Observer.{
  CaptureStatus, Worker, Capture, ObserverState, max_workers, max_prompt_targets, is_named,
}
use herdr_tether.Observer.Refresh.{first_of_each, project_all}
use herdr_tether.Observer.Update.{
  noted, is_promptable, change_first, selected_index, update_workers, set_connection_observation,
  merge_capture, captured_worker,
}
use herdr_tether.Observer.Selection.{
  Selection, SameNames, reselect-Selection, change_first-position, SameNames-Selection,
}

pub record WellFormed (s : ObserverState) : Type 0 where
  pub bounded : length s.workers ≤ max_workers
  pub targeted : length s.prompt_targets ≤ max_prompt_targets
  pub selects : Selection s.workers s.selected_id

SameNames-WellFormed :
    (s : ObserverState) (changed : List Worker) (statuses : List (Text × CaptureStatus))
    → SameNames s.workers changed
    → WellFormed s
    → WellFormed (record s { workers = changed; capture_statuses = statuses })
SameNames-WellFormed s changed statuses same wf = record {
  bounded = omega (arith, same.0, wf.bounded);
  targeted = wf.targeted;
  selects = SameNames-Selection s.workers changed s.selected_id same wf.selects;
}

abbrev after_change : ObserverState → Option (List Worker) → ObserverState
after_change s none = s
after_change s (some changed) = record s { workers = changed }

set_connection_observation-after :
    (name : Text) (latency : ℕ) (observed : Option Text) (s : ObserverState)
    (o : Option (List Worker))
    → change_first (noted latency observed) name s.workers ≡ o
    → (set_connection_observation name latency observed s).1 ≡ after_change s o
unfolding set_connection_observation
set_connection_observation-after name latency observed s none found =
    rw (found, set_connection_observation) refl
set_connection_observation-after name latency observed s (some changed) found =
    rw (found, set_connection_observation) refl

pub set_connection_observation-WellFormed :
    (name : Text) (latency : ℕ) (observed : Option Text) (s : ObserverState)
    → WellFormed s
    → WellFormed (set_connection_observation name latency observed s).1
set_connection_observation-WellFormed name latency observed s wf =
    elim (Option-cases (change_first (noted latency observed) name s.workers)) [
      | inl missing ↦
          subst WellFormed
            (sym (set_connection_observation-after name latency observed s none missing)) wf
      | inr (changed, found) ↦
          subst WellFormed
            (sym (set_connection_observation-after name latency observed s (some changed) found))
            (SameNames-WellFormed s changed s.capture_statuses
              (change_first-position (noted latency observed) (λ w. refl) name s.workers changed
                found)
              wf)
    ]

module _ (sanitize : Text → Text) where
  captured_worker-id :
      (capture : Capture) (w : Worker) → (captured_worker sanitize capture w).0.id ≡ w.id
  unfolding captured_worker
  captured_worker-id capture w = ground arith

  pub merge_capture-WellFormed :
      (name : Text) (capture : Capture) (s : ObserverState)
      → WellFormed s
      → WellFormed (merge_capture sanitize name capture s).1
  unfolding merge_capture
  merge_capture-WellFormed name capture s wf =
      elim (Option-cases (find (is_named name) s.workers)) [
        | inl unknown ↦ rw (unknown, merge_capture) wf
        | inr (found, known) ↦
            elim (Option-cases
              (change_first (λ w. (captured_worker sanitize capture w).0) name s.workers)) [
                | inl missing ↦ rw (known, missing, merge_capture) wf
                | inr (changed, there) ↦
                    rw (known, there, merge_capture)
                      (SameNames-WellFormed s changed
                        ((name, (captured_worker sanitize capture found).1) ∷ s.capture_statuses)
                        (change_first-position (λ w. (captured_worker sanitize capture w).0)
                          (captured_worker-id capture) name s.workers changed there)
                        wf)
              ]
      ]

  length-project_all :
      (before : List Worker) (statuses : List (Text × CaptureStatus)) (ws : List Worker)
      → length (project_all sanitize before statuses ws).0 ≡ length ws
  length-project_all before statuses [] = refl
  length-project_all before statuses (w ∷ ws) = ap suc (length-project_all before statuses ws)

  pub update_workers-WellFormed :
      (ws : List Worker) (s : ObserverState)
      → WellFormed s
      → WellFormed (update_workers sanitize ws s).1
  unfolding update_workers
  update_workers-WellFormed ws s wf =
      let kept = take max_workers (first_of_each [] ws) in
      let shown = (project_all sanitize s.workers s.capture_statuses kept).0 in
      record {
        bounded = omega (
          arith,
          length-project_all s.workers s.capture_statuses kept,
          length-take max_workers (first_of_each [] ws),
        );
        targeted =
            omega (arith, wf.targeted, length-retain-le (is_promptable shown) s.prompt_targets);
        selects = reselect-Selection (unwrap_or (selected_index s) 0) s.selected_id shown;
      }
