-- ===== src/Observer/Prompt.antt =====
-- src/observer.rs: the prompt targets, which a refresh and every action leave to be workers that can be
-- prompted.
use herdr_tether.Prelude.{
  ℕ, zero, suc, Bool, true, not, ◌&&◌, Option, none, some, List, [], ◌∷◌, ◌≡◌, refl, sym, subst,
  some_eq, arith, Bool-cases, if_both, if◌then◌else◌, All, retain, is_empty, leb, length,
  &&-eq-true, inl, inr, get_elem?,
}
use herdr_tether.Prelude.Text.{Text, text_eq, text_eq_refl}
use herdr_tether.Observer.{
  Worker, Action, ObserverState, can_prompt, holds, max_prompt_targets, can_open, can_focus,
  can_observe_agent, compose_prompt, previous_worker, next_worker, previous_page, next_page,
  refresh, open_selected, toggle_prompt_target, focus_selected, wait_selected, read_selected,
  explain_selected, quit,
}
use herdr_tether.Observer.Update.{is_promptable, update_workers, selected_index}
use herdr_tether.Observer.Select.{
  apply, Outcome, toggle, default_target, prompt_target_ids, composed, selected_worker, on_selected,
  open_selection, toggle_selection, select_offset, select_page_offset, select_at,
}

-- Every target is a worker that can be prompted.
abbrev pub Promptable : ObserverState → Type 0
Promptable s = All (λ name. is_promptable s.workers name ≡ true) s.prompt_targets

-- What `retain` leaves satisfies its test, and what all elements satisfied.
retain-All : (p : Text → Bool) (names : List Text) → All (λ name. p name ≡ true) (retain p names)
retain-All p [] = tt
retain-All p (name ∷ names) = elim (Bool-cases (p name)) [
  | inl held ↦ rw held (held, retain-All p names)
  | inr lost ↦ rw lost (retain-All p names)
]

All-retain :
    (P : Text → Type 0) (p : Text → Bool) (names : List Text) → All P names → All P (retain p names)
All-retain P p [] h = h
All-retain P p (name ∷ names) (h, hs) =
    if_both (All P) (p name) (λ held. (h, All-retain P p names hs))
      (λ lost. All-retain P p names hs)

module _ (sanitize : Text → Text) where
  -- A refresh leaves only targets that can be prompted.
  pub update_workers-Promptable :
      (ws : List Worker) (s : ObserverState) → Promptable (update_workers sanitize ws s).1
  unfolding update_workers
  update_workers-Promptable ws s =
      retain-All (is_promptable (update_workers sanitize ws s).1.workers) s.prompt_targets

-- The worker at an index is promptable by its name if it can be prompted.
indexed-promptable :
    (ws : List Worker) (i : ℕ) (w : Worker)
    → get_elem? ws i ≡ some w
    → can_prompt w ≡ true
    → is_promptable ws w.id ≡ true
indexed-promptable [] i w h can = absurd (ground arith)
indexed-promptable (v ∷ ws) zero w h can =
    subst (λ u. is_promptable (u ∷ ws) w.id ≡ true) (sym (some_eq h))
      (rw (text_eq_refl w.id, can) refl)
indexed-promptable (v ∷ ws) (suc i) w h can = ground (arith, indexed-promptable ws i w h can)

-- The selection as an option of a worker that, if it can be prompted, is promptable by its name.
Standing : ObserverState → Option Worker → Type 0
Standing s none = Unit
Standing s (some w) = can_prompt w ≡ true → is_promptable s.workers w.id ≡ true

get_elem-Standing :
    (s : ObserverState) (i : ℕ) (o : Option Worker) → get_elem? s.workers i ≡ o → Standing s o
unfolding Standing
get_elem-Standing s i none h = tt
get_elem-Standing s i (some w) h = indexed-promptable s.workers i w h

selected_worker-Standing : (s : ObserverState) → Standing s (selected_worker s)
unfolding Standing selected_worker
selected_worker-Standing s =
    elim (selected_index s)
      as (λ o. Standing s (elim o [ none ↦ none | some i ↦ get_elem? s.workers i ])) [
        | none ↦ tt
        | some i ↦ get_elem-Standing s i (get_elem? s.workers i) refl
      ]

toggle-Promptable :
    (w : Worker) (s : ObserverState)
    → (can_prompt w ≡ true → is_promptable s.workers w.id ≡ true)
    → Promptable s
    → Promptable (toggle w s)
unfolding toggle
toggle-Promptable w s can h =
    if_both Promptable (holds s.prompt_targets w.id)
      (λ there.
        All-retain (λ name. is_promptable s.workers name ≡ true) (λ other. not (text_eq other w.id))
          s.prompt_targets h)
      (λ new.
        if_both Promptable (not (can_prompt w)) (λ never. h)
          (λ free.
            if_both Promptable (leb max_prompt_targets (length s.prompt_targets)) (λ full. h)
              (λ room. (can (ground arith), h))))

-- The selected worker becomes the only target of a state without one.
defaulted :
    (s : ObserverState) (o : Option Worker)
    → Standing s o
    → Promptable s
    → Promptable (elim o [
      | none ↦ s
      | some w ↦
          if is_empty s.prompt_targets && can_prompt w
          then record s { prompt_targets = w.id ∷ [] }
          else s
    ])
unfolding Standing
defaulted s none can h = h
defaulted s (some w) can h =
    if_both Promptable (is_empty s.prompt_targets && can_prompt w)
      (λ both. (can (&&-eq-true (is_empty s.prompt_targets) (can_prompt w) both).1, tt))
      (λ other. h)

pub default_target-Promptable : (s : ObserverState) → Promptable s → Promptable (default_target s)
unfolding default_target
default_target-Promptable s h = defaulted s (selected_worker s) (selected_worker-Standing s) h

toggle_selection-Promptable :
    (s : ObserverState) (o : Option Worker)
    → Standing s o
    → Promptable s
    → Promptable (toggle_selection s o).1
unfolding toggle_selection Standing
toggle_selection-Promptable s none can h = h
toggle_selection-Promptable s (some w) can h = toggle-Promptable w s can h

open_selection-Promptable :
    (s : ObserverState) (o : Option Worker) → Promptable s → Promptable (open_selection s o).1
unfolding open_selection
open_selection-Promptable s none h = h
open_selection-Promptable s (some w) h =
    if_both (λ (r : Outcome × ObserverState). Promptable r.1) (can_open w) (λ held. h) (λ lost. h)

on_selected-Promptable :
    (permitted : Worker → Bool) (outcome : Text → Outcome) (text : Text) (s : ObserverState)
    (o : Option Worker)
    → Promptable s
    → Promptable (on_selected permitted outcome text s o).1
on_selected-Promptable permitted outcome text s none h = h
on_selected-Promptable permitted outcome text s (some w) h =
    if_both (λ (r : Outcome × ObserverState). Promptable r.1) (permitted w) (λ held. h) (λ lost. h)

composed-Promptable :
    (names : List Text) (s : ObserverState) → Promptable s → Promptable (composed names s).1
composed-Promptable [] s h = h
composed-Promptable (name ∷ names) s h = h

select_at-Promptable : (i : ℕ) (s : ObserverState) → Promptable s → Promptable (select_at i s)
select_at-Promptable i s h = if_both Promptable (is_empty s.workers) (λ held. h) (λ lost. h)

pub apply-Promptable :
    (action : Action) (s : ObserverState) → Promptable s → Promptable (apply action s).1
unfolding apply select_offset select_page_offset
apply-Promptable previous_worker s h = select_at-Promptable _ s h
apply-Promptable next_worker s h = select_at-Promptable _ s h
apply-Promptable previous_page s h = select_at-Promptable _ s h
apply-Promptable next_page s h = select_at-Promptable _ s h
apply-Promptable refresh s h = h
apply-Promptable open_selected s h = open_selection-Promptable s (selected_worker s) h
apply-Promptable toggle_prompt_target s h =
    toggle_selection-Promptable s (selected_worker s) (selected_worker-Standing s) h
apply-Promptable compose_prompt s h =
    composed-Promptable (prompt_target_ids (default_target s)) (default_target s)
      (default_target-Promptable s h)
apply-Promptable focus_selected s h = on_selected-Promptable can_focus _ _ s (selected_worker s) h
apply-Promptable wait_selected s h =
    on_selected-Promptable can_observe_agent _ _ s (selected_worker s) h
apply-Promptable read_selected s h =
    on_selected-Promptable can_observe_agent _ _ s (selected_worker s) h
apply-Promptable explain_selected s h =
    on_selected-Promptable can_observe_agent _ _ s (selected_worker s) h
apply-Promptable quit s h = h
