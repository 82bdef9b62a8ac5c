-- ===== src/Observer/Actions.antt =====
-- src/observer.rs: every action keeps the bounds and the selection.
use herdr_tether.Prelude.{
  if_both, not, ◌&&◌, ℕ, ◌*◌, ◌-◌, ◌≤◌, Bool, Option, none, some, List, [], ◌∷◌, arith, length, min,
  suc, unwrap_or, is_empty, leb, length-retain-le, if◌then◌else◌,
}
use herdr_tether.Prelude.Text.{Text, text_eq}
use herdr_tether.Observer.{
  Worker, Action, ObserverState, max_prompt_targets, workers_per_page, can_prompt, can_open,
  can_focus, can_observe_agent, holds, previous_worker, next_worker, previous_page, next_page,
  refresh, open_selected, toggle_prompt_target, compose_prompt, focus_selected, wait_selected,
  read_selected, explain_selected, quit,
}
use herdr_tether.Observer.Update.{selected_index}
use herdr_tether.Observer.Selection.{id_at-Selection, in_range}
use herdr_tether.Observer.Select.{
  apply, select_at, select_offset, select_page_offset, toggle, default_target, page, page_count,
  selected_worker, without, Outcome, open_selection, toggle_selection, with_notice, target_notice,
  full_notice, compose_notice, focus_notice, wait_notice, read_notice, explain_notice, composed,
  on_selected, open_selection, toggle_selection, prompt_target_ids,
}
use herdr_tether.Observer.WellFormed.{WellFormed}

select_at-WellFormed : (i : ℕ) (s : ObserverState) → WellFormed s → WellFormed (select_at i s)
select_at-WellFormed i s wf =
    if_both WellFormed (is_empty s.workers) (λ e. wf)
      (λ f. record {
        bounded = wf.bounded;
        targeted = wf.targeted;
        selects = id_at-Selection s.workers (min i (length s.workers - 1)) (in_range s.workers i f);
      })

-- A state with few enough targets, and with the workers and the selection of another.
retargeted :
    (s : ObserverState) (targets : List Text) (text : Option Text)
    → length targets ≤ max_prompt_targets
    → WellFormed s
    → WellFormed (record s { prompt_targets = targets; notice = text })
retargeted s targets text few wf = record {
  bounded = wf.bounded;
  targeted = few;
  selects = wf.selects;
}

renotified : (s : ObserverState) (text : Text) → WellFormed s → WellFormed (with_notice text s)
renotified s text wf = retargeted s s.prompt_targets (some text) wf.targeted wf

toggle-WellFormed : (w : Worker) (s : ObserverState) → WellFormed s → WellFormed (toggle w s)
unfolding toggle
toggle-WellFormed w s wf =
    if_both WellFormed (holds s.prompt_targets w.id)
      (λ there.
        retargeted s (without w.id s.prompt_targets) none
          (omega (
            arith,
            wf.targeted,
            length-retain-le (λ other. not (text_eq other w.id)) s.prompt_targets,
          ))
          wf)
      (λ new.
        if_both WellFormed (not (can_prompt w)) (λ lost. renotified s target_notice wf)
          (λ held.
            if_both WellFormed (leb max_prompt_targets (length s.prompt_targets))
              (λ full. renotified s full_notice wf)
              (λ room. retargeted s (w.id ∷ s.prompt_targets) none (ground (arith, room)) wf)))

default_target-WellFormed : (s : ObserverState) → WellFormed s → WellFormed (default_target s)
unfolding default_target
default_target-WellFormed s wf =
    elim (selected_worker s)
      as (λ o. WellFormed (elim o [
        | none ↦ s
        | some w ↦
            if is_empty s.prompt_targets && can_prompt w
            then record s { prompt_targets = w.id ∷ [] }
            else s
      ])) [
        | none ↦ wf
        | some w ↦
            if_both WellFormed (is_empty s.prompt_targets && can_prompt w)
              (λ held. retargeted s (w.id ∷ []) s.notice (omega arith) wf) (λ lost. wf)
      ]

composed-WellFormed :
    (names : List Text) (s : ObserverState) → WellFormed s → WellFormed (composed names s).1
composed-WellFormed [] s wf = renotified s compose_notice wf
composed-WellFormed (name ∷ names) s wf = wf

on_selected-WellFormed :
    (permitted : Worker → Bool) (outcome : Text → Outcome) (text : Text) (s : ObserverState)
    (o : Option Worker)
    → WellFormed s
    → WellFormed (on_selected permitted outcome text s o).1
on_selected-WellFormed permitted outcome text s none wf = renotified s text wf
on_selected-WellFormed permitted outcome text s (some w) wf =
    if_both (λ (r : Outcome × ObserverState). WellFormed r.1) (permitted w) (λ held. wf)
      (λ lost. renotified s text wf)

open_selection-WellFormed :
    (s : ObserverState) (o : Option Worker) → WellFormed s → WellFormed (open_selection s o).1
unfolding open_selection
open_selection-WellFormed s none wf = wf
open_selection-WellFormed s (some w) wf =
    if_both (λ (r : Outcome × ObserverState). WellFormed r.1) (can_open w) (λ held. wf) (λ lost. wf)

toggle_selection-WellFormed :
    (s : ObserverState) (o : Option Worker) → WellFormed s → WellFormed (toggle_selection s o).1
unfolding toggle_selection
toggle_selection-WellFormed s none wf = wf
toggle_selection-WellFormed s (some w) wf = toggle-WellFormed w s wf

pub apply-WellFormed :
    (action : Action) (s : ObserverState) → WellFormed s → WellFormed (apply action s).1
unfolding apply select_offset select_page_offset
apply-WellFormed previous_worker s wf =
    select_at-WellFormed (unwrap_or (selected_index s) 0 - 1) s wf
apply-WellFormed next_worker s wf = select_at-WellFormed (suc (unwrap_or (selected_index s) 0)) s wf
apply-WellFormed previous_page s wf =
    select_at-WellFormed (min (page s - 1) (page_count s - 1) * workers_per_page) s wf
apply-WellFormed next_page s wf =
    select_at-WellFormed (min (suc (page s)) (page_count s - 1) * workers_per_page) s wf
apply-WellFormed refresh s wf = wf
apply-WellFormed open_selected s wf = open_selection-WellFormed s (selected_worker s) wf
apply-WellFormed toggle_prompt_target s wf = toggle_selection-WellFormed s (selected_worker s) wf
apply-WellFormed compose_prompt s wf =
    composed-WellFormed (prompt_target_ids (default_target s)) (default_target s)
      (default_target-WellFormed s wf)
apply-WellFormed focus_selected s wf =
    on_selected-WellFormed can_focus Outcome.focus focus_notice s (selected_worker s) wf
apply-WellFormed wait_selected s wf =
    on_selected-WellFormed can_observe_agent Outcome.wait wait_notice s (selected_worker s) wf
apply-WellFormed read_selected s wf =
    on_selected-WellFormed can_observe_agent Outcome.read read_notice s (selected_worker s) wf
apply-WellFormed explain_selected s wf =
    on_selected-WellFormed can_observe_agent Outcome.explain explain_notice s (selected_worker s) wf
apply-WellFormed quit s wf = wf
