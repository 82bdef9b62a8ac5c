-- ===== src/Manager/Handle.antt =====
-- src/observer_manager.rs: `ObserverManagerState::handle` and the operations that it calls.
use herdr_tether.Prelude.{
  ℕ, zero, suc, ◌+◌, ◌-◌, ◌%◌, Bool, true, false, not, Option, none, some, List, [], ◌∷◌, ◌==◌,
  if◌then◌else◌, ltb, length, get_elem?, contains, is_some, retain, unwrap_or, min,
}
use herdr_tether.Manager.{
  Screen, Event, AgentFilter, Action, Outcome, continue, act, Candidate, ReviewKind, Notice,
  Manager, ◌>>=◌, current_group, item_labels,
}
use herdr_tether.Manager.Operations.{
  not_session, noted, begin_create, begin_edit, begin_reassign, begin_review, review_action,
  delete_action, chooses_workers,
}

abbrev pub Handled : Type 0
Handled = Option (Manager × Outcome)

abbrev pub goes_on : Manager → Handled
goes_on m = some (m, continue)

-- `HashSet::remove`, after which the element is gone.
abbrev pub remove_id : ℕ → List ℕ → List ℕ
remove_id a xs = retain (λ b. not (b == a)) xs

abbrev pub toggled : ℕ → Manager → Manager
toggled session m =
    if contains m.selected_workers session
    then record m {
      selected_workers = remove_id session m.selected_workers;
      prompt_workers = remove_id session m.prompt_workers;
      notice = none;
    }
    else record m { selected_workers = session ∷ m.selected_workers; notice = none }

unfoldable pub toggle_worker : Manager → Manager
toggle_worker m =
    if chooses_workers m.screen
    then (elim (get_elem? m.screen_candidates m.selected_index) [
      | none ↦ m
      | some c ↦ toggled c.session_id m
    ])
    else m

abbrev pub prompt_toggled : Candidate → Manager → Manager
prompt_toggled c m =
    if contains m.prompt_workers c.session_id
    then record m { prompt_workers = remove_id c.session_id m.prompt_workers; notice = none }
    else (if not m.herdr_connected
        then noted Notice.unreachable_herdr m
        else (if not (is_some c.agent_kind)
            then noted Notice.no_agent_kind m
            else (if not (contains m.selected_workers c.session_id)
                then noted Notice.not_selected m
                else record m { prompt_workers = c.session_id ∷ m.prompt_workers; notice = none })))

unfoldable pub toggle_prompt : Manager → Manager
toggle_prompt m =
    if chooses_workers m.screen
    then (elim (get_elem? m.screen_candidates m.selected_index) [
      | none ↦ m
      | some c ↦ prompt_toggled c m
    ])
    else m

-- `checked_sub(1).unwrap_or(length - 1)`
abbrev pub step_back : ℕ → ℕ → ℕ
step_back n zero = n - 1
step_back n (suc i) = i

unfoldable pub move_selection : Bool → Manager → Option Manager
unfolding item_labels
move_selection backwards m = do
  rows ← item_labels m
  let n = length rows
  some (record m {
    selected_index =
        if n == 0
        then 0
        else (if backwards then step_back n m.selected_index else (m.selected_index + 1) % n);
  })

abbrev pub screen_of : ReviewKind → Screen
screen_of ReviewKind.creation = Screen.create_workers
screen_of ReviewKind.replacement = Screen.edit_workers
screen_of ReviewKind.reassignment = Screen.change_orchestrator

abbrev pub to_groups : Manager → Manager
to_groups m = record m {
  screen = Screen.groups;
  selected_index = min (unwrap_or m.selected_group 0) (length m.groups);
}

abbrev pub leave_review : Option ReviewKind → Manager → Handled
leave_review none m = none
leave_review (some kind) m = goes_on (record m {
  screen = screen_of kind;
  selected_index = m.review_return_index;
  review_kind = none;
})

-- `back`, behind `self.notice = None`.
abbrev pub back_from : Screen → Manager → Handled
back_from Screen.groups m = some (m, act Action.back_to_picker)
back_from Screen.create_orchestrator m = goes_on (to_groups m)
back_from Screen.group_actions m = goes_on (to_groups m)
back_from Screen.create_workers m = goes_on (record m {
  screen = Screen.create_orchestrator;
  screen_candidates = m.eligible;
  selected_index = 0;
  selected_workers = [];
})
back_from Screen.edit_workers m =
    goes_on (record m { screen = Screen.group_actions; selected_index = 1; selected_workers = [] })
back_from Screen.change_orchestrator m =
    goes_on
      (record m { screen = Screen.group_actions; selected_index = 2; selected_orchestrator = none })
back_from Screen.review_topology m = leave_review m.review_kind m
back_from Screen.confirm_delete m = none

abbrev pub back : Manager → Handled
back m = back_from m.screen (record m { notice = none })

abbrev pub to_confirm_delete : Manager → Manager
to_confirm_delete m = record m { screen = Screen.confirm_delete; selected_index = 0 }

abbrev pub then_continue : Option Manager → Handled
then_continue none = none
then_continue (some m) = goes_on m

abbrev pub then_act : Manager → Option Action → Handled
then_act m none = none
then_act m (some a) = some (m, act a)

unfoldable pub launch_action : Manager → Option Action
unfolding current_group
launch_action m = do g ← current_group m; some (Action.launch g.id)

unfoldable pub view_action : AgentFilter → Manager → Option Action
unfolding current_group
view_action filter m = do g ← current_group m; some (Action.set_agent_view g.id filter)

-- The choice among the actions on a group.
unfoldable pub confirm_choice : ℕ → Manager → Handled
unfolding begin_edit begin_reassign launch_action view_action
confirm_choice zero m = then_act m (launch_action m)
confirm_choice (suc zero) m = then_continue (begin_edit m)
confirm_choice (suc (suc zero)) m = then_continue (begin_reassign m)
confirm_choice (suc (suc (suc zero))) m = then_act m (view_action AgentFilter.all m)
confirm_choice (suc (suc (suc (suc zero)))) m =
    then_act m (view_action AgentFilter.needs_attention m)
confirm_choice (suc (suc (suc (suc (suc zero))))) m = then_act m (view_action AgentFilter.remote m)
confirm_choice (suc (suc (suc (suc (suc (suc zero)))))) m =
    then_act m (some Action.clear_agent_view)
confirm_choice (suc (suc (suc (suc (suc (suc (suc zero))))))) m = goes_on (to_confirm_delete m)
confirm_choice (suc (suc (suc (suc (suc (suc (suc (suc n)))))))) m = goes_on m

abbrev pub open_group : Manager → Manager
open_group m = record m {
  selected_group = some m.selected_index;
  screen = Screen.group_actions;
  selected_index = 0;
}

abbrev pub choose_orchestrator : Manager → Candidate → Manager
choose_orchestrator m c = record m {
  selected_orchestrator = some c.session_id;
  screen_candidates = retain (not_session c.session_id) m.eligible;
  selected_workers = [];
  screen = Screen.create_workers;
  selected_index = 0;
  notice = none;
}

-- `confirm`
unfoldable pub confirm_on : Screen → Manager → Handled
unfolding begin_create begin_review confirm_choice review_action
confirm_on Screen.groups m =
    if ltb m.selected_index (length m.groups)
    then goes_on (open_group m)
    else goes_on (begin_create m)
confirm_on Screen.create_orchestrator m = elim (get_elem? m.screen_candidates m.selected_index) [
  | none ↦ goes_on (noted Notice.no_workload m)
  | some c ↦ goes_on (choose_orchestrator m c)
]
confirm_on Screen.create_workers m = goes_on (begin_review ReviewKind.creation m)
confirm_on Screen.group_actions m = confirm_choice m.selected_index m
confirm_on Screen.edit_workers m = goes_on (begin_review ReviewKind.replacement m)
confirm_on Screen.change_orchestrator m = elim (get_elem? m.screen_candidates m.selected_index) [
  | none ↦ goes_on m
  | some c ↦ goes_on (
      begin_review ReviewKind.reassignment (record m { selected_orchestrator = some c.session_id }))
]
confirm_on Screen.review_topology m = then_act m (review_action m)
confirm_on Screen.confirm_delete m = goes_on m

-- `handle` on the screen that confirms a deletion.
unfoldable pub handle_deletion : Event → Manager → Handled
unfolding delete_action
handle_deletion Event.confirm_deletion m = then_act m (delete_action m)
handle_deletion Event.dismiss_deletion m =
    goes_on (record m { screen = Screen.group_actions; selected_index = 5 })
handle_deletion Event.back m =
    goes_on (record m { screen = Screen.group_actions; selected_index = 5 })
handle_deletion _ m = goes_on m

unfoldable pub begin_create_on : Screen → Manager → Handled
unfolding begin_create
begin_create_on Screen.groups m = goes_on (begin_create m)
begin_create_on _ m = goes_on m

unfoldable pub begin_edit_on : Screen → Manager → Handled
unfolding begin_edit
begin_edit_on Screen.group_actions m = then_continue (begin_edit m)
begin_edit_on _ m = goes_on m

abbrev pub delete_on : Screen → Manager → Handled
delete_on Screen.group_actions m = goes_on (to_confirm_delete m)
delete_on _ m = goes_on m

unfoldable pub handle_event : Screen → Event → Manager → Handled
unfolding move_selection toggle_worker toggle_prompt begin_create_on begin_edit_on confirm_on
handle_event screen Event.previous m = then_continue (move_selection true m)
handle_event screen Event.next m = then_continue (move_selection false m)
handle_event screen Event.back m = back m
handle_event screen Event.toggle m = goes_on (toggle_worker m)
handle_event screen Event.toggle_prompt m = goes_on (toggle_prompt m)
handle_event screen Event.create m = begin_create_on screen m
handle_event screen Event.edit m = begin_edit_on screen m
handle_event screen Event.delete m = delete_on screen m
handle_event screen Event.confirm m = confirm_on screen m
handle_event screen _ m = goes_on m

abbrev pub is_confirm_delete : Screen → Bool
is_confirm_delete Screen.confirm_delete = true
is_confirm_delete _ = false

unfoldable pub handle : Event → Manager → Handled
unfolding handle_event handle_deletion
handle event m =
    if is_confirm_delete m.screen then handle_deletion event m else handle_event m.screen event m

-- The loop of `run_terminal_manager`, over the events that the keys stand for: one after the other, until one
-- asks for an action.
unfoldable pub after : (Manager → Handled) → Handled → Handled
after later none = none
after later (some (m, continue)) = later m
after later (some (m, act a)) = some (m, act a)

unfoldable pub run : List Event → Manager → Handled
unfolding handle after
run [] m = goes_on m
run (e ∷ es) m = after (run es) (handle e m)
