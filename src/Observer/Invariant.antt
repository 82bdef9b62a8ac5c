-- ===== src/Observer/Invariant.antt =====
-- src/observer.rs: what every sequence of refreshes, observations, captures and actions keeps.
use herdr_tether.Prelude.{ℕ, Option, none, List, [], ◌∷◌, refl, arith, inl}
use herdr_tether.Prelude.Text.{Text}
use herdr_tether.Observer.{Worker, Action, Capture, ObserverState}
use herdr_tether.Observer.Update.{update_workers, set_connection_observation, merge_capture}
use herdr_tether.Observer.Select.{apply}
use herdr_tether.Observer.WellFormed.{
  WellFormed, set_connection_observation-WellFormed, merge_capture-WellFormed,
  update_workers-WellFormed,
}
use herdr_tether.Observer.Actions.{apply-WellFormed}

-- What can happen to an observer.
pub data Event : Type 0 where
  update : List Worker → Event
  observe : Text → ℕ → Option Text → Event
  merge : Text → Capture → Event
  act : Action → Event

module _ (sanitize : Text → Text) where
  unfoldable pub step : Event → ObserverState → ObserverState
  step (update ws) s = (update_workers sanitize ws s).1
  step (observe name latency observed) s = (set_connection_observation name latency observed s).1
  step (merge name capture) s = (merge_capture sanitize name capture s).1
  step (act action) s = (apply action s).1

  unfoldable pub run : List Event → ObserverState → ObserverState
  unfolding step
  run [] s = s
  run (e ∷ es) s = run es (step e s)

-- The state that `ObserverState::default` begins with.
abbrev pub empty_observer : ObserverState
empty_observer = record {
  workers = [];
  capture_statuses = [];
  selected_id = none;
  prompt_targets = [];
  notice = none;
}

empty_observer-WellFormed : WellFormed empty_observer
empty_observer-WellFormed = record {
  bounded = omega arith;
  targeted = omega arith;
  selects = inl (refl, refl);
}

module _ (sanitize : Text → Text) where
  step-WellFormed : (e : Event) (s : ObserverState) → WellFormed s → WellFormed (step sanitize e s)
  unfolding step
  step-WellFormed (update ws) s wf = update_workers-WellFormed sanitize ws s wf
  step-WellFormed (observe name latency observed) s wf =
      set_connection_observation-WellFormed name latency observed s wf
  step-WellFormed (merge name capture) s wf = merge_capture-WellFormed sanitize name capture s wf
  step-WellFormed (act action) s wf = apply-WellFormed action s wf

  kept-WellFormed :
      (es : List Event) (s : ObserverState) → WellFormed s → WellFormed (run sanitize es s)
  unfolding run
  kept-WellFormed [] s wf = wf
  kept-WellFormed (e ∷ es) s wf = kept-WellFormed es (step sanitize e s) (step-WellFormed e s wf)

  -- From the default state, after any sequence of refreshes, connection observations, captures and
  -- actions, there are at most 64 workers and at most 8 prompt targets, and the selection is one of
  -- the workers, at a position in range, unless there is no worker and no selection.
  pub run-WellFormed : (es : List Event) → WellFormed (run sanitize es empty_observer)
  run-WellFormed es = kept-WellFormed es empty_observer empty_observer-WellFormed
