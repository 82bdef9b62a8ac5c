-- ===== src/Observer/Select.antt =====
-- src/observer.rs: the selection, the pages, and what `ObserverState::apply` does for each action.
use herdr_tether.Prelude.{
  ℕ, ◌-◌, ◌+◌, ◌*◌, ◌/◌, Bool, not, ◌&&◌, Option, none, some, List, [], ◌∷◌, if◌then◌else◌, max,
  leb, suc, unwrap_or, is_empty, take, drop, retain, map, length, get_elem?, min,
}
use herdr_tether.Prelude.Text.{Text, text_eq, codes}
use herdr_tether.Observer.{
  workers_per_page, max_prompt_targets, Worker, can_open, can_focus, can_observe_agent, can_prompt,
  Action, previous_worker, next_worker, previous_page, next_page, refresh, open_selected,
  toggle_prompt_target, compose_prompt, focus_selected, wait_selected, read_selected,
  explain_selected, quit, holds, ObserverState,
}
use herdr_tether.Observer.Update.{selected_index, id_at}

pub data Outcome : Type 0 where
  nothing refresh_requested : Outcome
  open_worker open_unavailable : Text → Outcome
  compose : List Text → Outcome
  focus wait read explain : Text → Outcome
  leave : Outcome

unfoldable pub page : ObserverState → ℕ
unfolding selected_index
page s = unwrap_or (selected_index s) 0 / workers_per_page

-- `len().max(1).div_ceil(WORKERS_PER_PAGE)`, of a list that is not empty or of an empty one.
abbrev pub div_ceil : ℕ → ℕ → ℕ
div_ceil a b = (a + (b - 1)) / b

unfoldable pub page_count : ObserverState → ℕ
page_count s = div_ceil (max (length s.workers) 1) workers_per_page

-- `&self.workers[start..end]`, where the code computes the two ends.
abbrev pub visible_start : ObserverState → ℕ
visible_start s = page s * workers_per_page

abbrev pub visible_end : ObserverState → ℕ
visible_end s = min (visible_start s + workers_per_page) (length s.workers)

unfoldable pub visible_workers : ObserverState → List Worker
unfolding page
visible_workers s = take (visible_end s - visible_start s) (drop (visible_start s) s.workers)

unfoldable pub selected_worker : ObserverState → Option Worker
unfolding selected_index
selected_worker s = elim (selected_index s) [ none ↦ none | some i ↦ get_elem? s.workers i ]

unfoldable pub prompt_target_ids : ObserverState → List Text
prompt_target_ids s = map (λ w. w.id) (retain (λ w. holds s.prompt_targets w.id) s.workers)

-- `saturating_add_signed` of 1 or of -1.
pub data Direction : Type 0 where
  back forth : Direction

abbrev pub moved : Direction → ℕ → ℕ
moved back i = i - 1
moved forth i = suc i

-- The worker at an index is selected, when there are workers.
abbrev pub select_at : ℕ → ObserverState → ObserverState
select_at index s =
    if is_empty s.workers
    then s
    else record s { selected_id = id_at s.workers (min index (length s.workers - 1)) }

unfoldable pub select_offset : Direction → ObserverState → ObserverState
unfolding selected_index
select_offset direction s = select_at (moved direction (unwrap_or (selected_index s) 0)) s

unfoldable pub select_page_offset : Direction → ObserverState → ObserverState
unfolding page page_count
select_page_offset direction s =
    select_at (min (moved direction (page s)) (page_count s - 1) * workers_per_page) s

abbrev pub with_notice : Text → ObserverState → ObserverState
with_notice text s = record s { notice = some text }

-- `HashSet::remove`
abbrev pub without : Text → List Text → List Text
without name names = retain (λ other. not (text_eq other name)) names

abbrev pub target_notice : Text
target_notice = codes "Prompt requires exact-owned, authorized, IDLE or DONE agent"

abbrev pub full_notice : Text
full_notice = codes "At most 8 prompt destinations may be selected"

abbrev pub compose_notice : Text
compose_notice = codes "Select at least one prompt-authorized IDLE or DONE agent"

abbrev pub focus_notice : Text
focus_notice = codes "Focus requires an exact live agent with interactive-open permission"

abbrev pub wait_notice : Text
wait_notice = codes "Wait requires an exact live agent with observation permission"

abbrev pub read_notice : Text
read_notice = codes "Read requires an exact live agent with observation permission"

abbrev pub explain_notice : Text
explain_notice = codes "Explain requires an exact live agent with observation permission"

unfoldable pub toggle : Worker → ObserverState → ObserverState
unfolding can_prompt
toggle w s =
    if holds s.prompt_targets w.id
    then record s { prompt_targets = without w.id s.prompt_targets; notice = none }
    else (if not (can_prompt w)
        then with_notice target_notice s
        else (if leb max_prompt_targets (length s.prompt_targets)
            then with_notice full_notice s
            else record s { prompt_targets = w.id ∷ s.prompt_targets; notice = none }))

-- With no target yet, the selected worker becomes one if it can be prompted.
unfoldable pub default_target : ObserverState → ObserverState
unfolding selected_worker can_prompt
default_target s = elim (selected_worker s) [
  | none ↦ s
  | some w ↦
      if is_empty s.prompt_targets && can_prompt w
      then record s { prompt_targets = w.id ∷ [] }
      else s
]

abbrev pub composed : List Text → ObserverState → Outcome × ObserverState
composed [] s = (nothing, with_notice compose_notice s)
composed (name ∷ names) s = (compose (name ∷ names), s)

-- An action on the selected worker, or the notice that says what it needs.
abbrev pub on_selected :
    (Worker → Bool)
    → (Text → Outcome)
    → Text
    → ObserverState
    → Option Worker
    → Outcome × ObserverState
on_selected permitted outcome text s none = (nothing, with_notice text s)
on_selected permitted outcome text s (some w) =
    if permitted w then (outcome w.id, s) else (nothing, with_notice text s)

unfoldable pub open_selection : ObserverState → Option Worker → Outcome × ObserverState
unfolding can_open
open_selection s none = (nothing, s)
open_selection s (some w) = if can_open w then (open_worker w.id, s) else (open_unavailable w.id, s)

unfoldable pub toggle_selection : ObserverState → Option Worker → Outcome × ObserverState
unfolding toggle
toggle_selection s none = (nothing, s)
toggle_selection s (some w) = (nothing, toggle w s)

unfoldable pub apply : Action → ObserverState → Outcome × ObserverState
unfolding select_offset select_page_offset selected_worker can_open toggle default_target
    prompt_target_ids can_focus can_observe_agent open_selection toggle_selection
apply previous_worker s = (nothing, select_offset back s)
apply next_worker s = (nothing, select_offset forth s)
apply previous_page s = (nothing, select_page_offset back s)
apply next_page s = (nothing, select_page_offset forth s)
apply refresh s = (refresh_requested, s)
apply open_selected s = open_selection s (selected_worker s)
apply toggle_prompt_target s = toggle_selection s (selected_worker s)
apply compose_prompt s = composed (prompt_target_ids (default_target s)) (default_target s)
apply focus_selected s = on_selected can_focus focus focus_notice s (selected_worker s)
apply wait_selected s = on_selected can_observe_agent wait wait_notice s (selected_worker s)
apply read_selected s = on_selected can_observe_agent read read_notice s (selected_worker s)
apply explain_selected s =
    on_selected can_observe_agent explain explain_notice s (selected_worker s)
apply quit s = (leave, s)
