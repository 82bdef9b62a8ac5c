-- ===== src/Observer/Compose.antt =====
-- src/observer.rs: who a prompt is composed for.
use herdr_tether.Prelude.{
  true, ◌&&◌, none, some, List, [], ◌∷◌, ◌≡◌, refl, sym, subst, arith, Bool-cases, if_both,
  if◌then◌else◌, All, retain, map, is_empty, inl, inr,
}
use herdr_tether.Prelude.Text.{Text, text_eq, text_eq_sound}
use herdr_tether.Observer.{Worker, Action, ObserverState, can_prompt, holds, compose_prompt}
use herdr_tether.Observer.Update.{is_promptable, update_workers}
use herdr_tether.Observer.Select.{
  apply, compose, default_target, prompt_target_ids, composed, selected_worker,
}
use herdr_tether.Observer.Prompt.{
  Promptable, apply-Promptable, default_target-Promptable, update_workers-Promptable,
}

-- What holds of every target holds of a name that is a target.
holds-All :
    (P : Text → Type 0) (targets : List Text) (name : Text)
    → All P targets
    → holds targets name ≡ true
    → P name
holds-All P [] name h held = absurd (ground arith)
holds-All P (target ∷ targets) name (h, hs) held = elim (Bool-cases (text_eq name target)) [
  | inl same ↦ subst P (sym (text_eq_sound name target same)) h
  | inr other ↦ holds-All P targets name hs (rw other at held)
]

targeted-All :
    (P : Text → Type 0) (targets : List Text) (ws : List Worker)
    → All P targets
    → All P (map (λ (w : Worker). w.id) (retain (λ (w : Worker). holds targets w.id) ws))
targeted-All P targets [] h = tt
targeted-All P targets (w ∷ ws) h =
    if_both (λ (vs : List Worker). All P (map (λ (v : Worker). v.id) vs)) (holds targets w.id)
      (λ held. (holds-All P targets w.id h held, targeted-All P targets ws h))
      (λ lost. targeted-All P targets ws h)

composed-names :
    (ids names : List Text) (s : ObserverState) → (composed ids s).0 ≡ compose names → ids ≡ names
composed-names [] names s h = absurd (ground arith)
composed-names (name ∷ ids) names s h = cc

unfoldable pub apply_all : List Action → ObserverState → ObserverState
apply_all [] s = s
apply_all (action ∷ actions) s = apply_all actions (apply action s).1

apply_all-Promptable :
    (actions : List Action) (s : ObserverState) → Promptable s → Promptable (apply_all actions s)
unfolding apply_all
apply_all-Promptable [] s h = h
apply_all-Promptable (action ∷ actions) s h =
    apply_all-Promptable actions (apply action s).1 (apply-Promptable action s h)

default_target-workers : (s : ObserverState) → (default_target s).workers ≡ s.workers
unfolding default_target
default_target-workers s =
    elim (selected_worker s)
      as (λ o.
        (elim o as (λ x. ObserverState) [
          | none ↦ s
          | some w ↦
              if is_empty s.prompt_targets && can_prompt w
              then record s { prompt_targets = w.id ∷ [] }
              else s
        ]).workers
        ≡ s.workers) [
          | none ↦ refl
          | some w ↦
              if_both (λ (t : ObserverState). t.workers ≡ s.workers)
                (is_empty s.prompt_targets && can_prompt w) (λ held. refl) (λ lost. refl)
        ]

composes-Promptable :
    (s : ObserverState) (names : List Text)
    → Promptable s
    → (apply compose_prompt s).0 ≡ compose names
    → All (λ name. is_promptable s.workers name ≡ true) names
unfolding apply prompt_target_ids
composes-Promptable s names h outcome =
    let P : Text → Type 0 = λ name. is_promptable s.workers name ≡ true in
    subst (All P)
      (composed-names (prompt_target_ids (default_target s)) names (default_target s) outcome)
      (targeted-All P (default_target s).prompt_targets (default_target s).workers (
        subst (λ ws. All (λ name. is_promptable ws name ≡ true) (default_target s).prompt_targets)
          (default_target-workers s) (default_target-Promptable s h)))

-- A prompt that is composed after a refresh and any actions goes to workers that are there and can be
-- prompted.
pub compose_prompt-Promptable :
    (sanitize : Text → Text) (incoming : List Worker) (actions : List Action) (s : ObserverState)
    (names : List Text)
    → (apply compose_prompt (apply_all actions (update_workers sanitize incoming s).1)).0
      ≡ compose names
    → All
        (λ name.
          is_promptable (apply_all actions (update_workers sanitize incoming s).1).workers name
          ≡ true)
        names
compose_prompt-Promptable sanitize incoming actions s names =
    composes-Promptable (apply_all actions (update_workers sanitize incoming s).1) names (
      apply_all-Promptable actions (update_workers sanitize incoming s).1
        (update_workers-Promptable sanitize incoming s))
