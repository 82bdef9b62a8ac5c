-- ===== src/Manager/Asked.antt =====
-- src/observer_manager.rs: where the actions of the manager come from.
use herdr_tether.Manager.Operations.{review_action_of, create_action, replace_action}
use herdr_tether.Manager.{is_candidate}
use herdr_tether.Manager.Names.{next_group_identity}
use herdr_tether.Prelude.{
  ℕ, zero, suc, true, false, Option, none, some, ◌≡◌, refl, subst, arith, ltb, length, get_elem?,
  find, Option-cases, if_both, inl, inr,
}
use herdr_tether.Session.{OrchestrationGroup}
use herdr_tether.Manager.{
  Screen, Event, Action, AgentFilter, continue, act, ReviewKind, Manager, current_group,
  selected_worker_specs, ◌>>=◌,
}
use herdr_tether.Manager.Operations.{begin_edit, begin_reassign, delete_action, review_action}
use herdr_tether.Manager.Handle.{
  Handled, handle, handle_event, handle_deletion, begin_create_on, begin_edit_on, delete_on,
  confirm_on, confirm_choice, back_from, leave_review, is_confirm_delete, then_continue, then_act,
  move_selection, launch_action, view_action,
}

-- The group that is open: the one in the place that was selected.
abbrev pub OpenGroup : Manager → OrchestrationGroup → Type 0
OpenGroup m g = (i : ℕ) × (m.selected_group ≡ some i) × (get_elem? m.groups i ≡ some g)

current_group-OpenGroup :
    (m : Manager) (g : OrchestrationGroup) → current_group m ≡ some g → OpenGroup m g
unfolding current_group
current_group-OpenGroup m g h = elim (Option-cases m.selected_group) [
  | inl closed ↦ absurd (ground (arith, h, closed))
  | inr (i, selected) ↦ (i, selected, rw selected at h)
]

-- What a reviewed action has of the manager: the kind of the review, the open group, the selected
-- orchestrator and the selected workers. No other action is reviewed.
abbrev pub Topology : Manager → Action → Type 0
Topology m (Action.create_group id title orchestrator workers) =
    (m.review_kind ≡ some ReviewKind.creation)
    × (m.selected_orchestrator ≡ some orchestrator)
    × (workers ≡ selected_worker_specs m)
Topology m (Action.replace_workers g workers) =
    (m.review_kind ≡ some ReviewKind.replacement)
    × OpenGroup m g
    × (workers ≡ selected_worker_specs m)
Topology m (Action.reassign_orchestrator g orchestrator) =
    (m.review_kind ≡ some ReviewKind.reassignment)
    × OpenGroup m g
    × (m.selected_orchestrator ≡ some orchestrator)
Topology m _ = ⊥

-- An action that a review asks for.
pub record Reviewed (e : Event) (m : Manager) (a : Action) : Type 0 where
  pub here : m.screen ≡ Screen.review_topology
  pub asked : e ≡ Event.confirm
  pub action : review_action m ≡ some a
  pub topology : Topology m a

-- The entry of the group menu that shows the sidebar by a filter.
abbrev pub view_entry : AgentFilter → ℕ
view_entry AgentFilter.all = 3
view_entry AgentFilter.needs_attention = 4
view_entry AgentFilter.remote = 5

-- The event, the screen, the entry and the group that an action takes.
abbrev pub Asked : Event → Manager → Action → Type 0
Asked e m (Action.create_group id title orchestrator workers) =
    Reviewed e m (Action.create_group id title orchestrator workers)
Asked e m (Action.replace_workers g workers) = Reviewed e m (Action.replace_workers g workers)
Asked e m (Action.reassign_orchestrator g orchestrator) =
    Reviewed e m (Action.reassign_orchestrator g orchestrator)
Asked e m (Action.set_agent_view id filter) =
    (m.screen ≡ Screen.group_actions)
    × (e ≡ Event.confirm)
    × (m.selected_index ≡ view_entry filter)
    × ((g : OrchestrationGroup) × OpenGroup m g × (g.id ≡ id))
Asked e m Action.clear_agent_view =
    (m.screen ≡ Screen.group_actions) × (e ≡ Event.confirm) × (m.selected_index ≡ 6)
Asked e m (Action.delete_group g) =
    (m.screen ≡ Screen.confirm_delete) × (e ≡ Event.confirm_deletion) × OpenGroup m g
Asked e m (Action.launch id) =
    (m.screen ≡ Screen.group_actions)
    × (e ≡ Event.confirm)
    × (m.selected_index ≡ 0)
    × ((g : OrchestrationGroup) × OpenGroup m g × (g.id ≡ id))
Asked e m Action.back_to_picker = (m.screen ≡ Screen.groups) × (e ≡ Event.back)

abbrev Says : (Action → Type 0) → Handled → Type 0
Says P none = Unit
Says P (some (m, continue)) = Unit
Says P (some (m, act a)) = P a

continue-Says : (P : Action → Type 0) (o : Option Manager) → Says P (then_continue o)
continue-Says P none = tt
continue-Says P (some m) = tt

act-Says :
    (P : Action → Type 0) (m : Manager) (o : Option Action)
    → ((a : Action) → o ≡ some a → P a)
    → Says P (then_act m o)
act-Says P m none h = tt
act-Says P m (some a) h = h a refl

group_act-Says :
    (P : Action → Type 0) (m : Manager) (f : OrchestrationGroup → Action)
    → ((g : OrchestrationGroup) → current_group m ≡ some g → P (f g))
    → Says P (then_act m (current_group m >>= λ g. some (f g)))
group_act-Says P m f h = go (current_group m) refl
  where
    go :
        (o : Option OrchestrationGroup)
        → current_group m ≡ o
        → Says P (then_act m (o >>= λ g. some (f g)))
    go none e = tt
    go (some g) e = h g e

confirm_choice-Says :
    (n : ℕ) (m : Manager)
    → m.screen ≡ Screen.group_actions
    → m.selected_index ≡ n
    → Says (Asked Event.confirm m) (confirm_choice n m)
unfolding confirm_choice launch_action view_action
confirm_choice-Says zero m here entry =
    group_act-Says (Asked Event.confirm m) m (λ g. Action.launch g.id)
      λ g e. (here, refl, entry, (g, current_group-OpenGroup m g e, refl))
confirm_choice-Says (suc zero) m here entry = continue-Says (Asked Event.confirm m) (begin_edit m)
confirm_choice-Says (suc (suc zero)) m here entry =
    continue-Says (Asked Event.confirm m) (begin_reassign m)
confirm_choice-Says (suc (suc (suc zero))) m here entry =
    group_act-Says (Asked Event.confirm m) m (λ g. Action.set_agent_view g.id AgentFilter.all)
      λ g e. (here, refl, entry, (g, current_group-OpenGroup m g e, refl))
confirm_choice-Says (suc (suc (suc (suc zero)))) m here entry =
    group_act-Says (Asked Event.confirm m) m
      (λ g. Action.set_agent_view g.id AgentFilter.needs_attention)
      λ g e. (here, refl, entry, (g, current_group-OpenGroup m g e, refl))
confirm_choice-Says (suc (suc (suc (suc (suc zero))))) m here entry =
    group_act-Says (Asked Event.confirm m) m (λ g. Action.set_agent_view g.id AgentFilter.remote)
      λ g e. (here, refl, entry, (g, current_group-OpenGroup m g e, refl))
confirm_choice-Says (suc (suc (suc (suc (suc (suc zero)))))) m here entry = (here, refl, entry)
confirm_choice-Says (suc (suc (suc (suc (suc (suc (suc zero))))))) m here entry = tt
confirm_choice-Says (suc (suc (suc (suc (suc (suc (suc (suc n)))))))) m here entry = tt

abbrev Gives : Manager → Option Action → Type 0
Gives m none = Unit
Gives m (some a) = Topology m a

bind-Gives {ℓ} :
    {A : Type ℓ} (m : Manager) (o : Option A) (f : A → Option Action)
    → ((x : A) → o ≡ some x → Gives m (f x))
    → Gives m (o >>= f)
bind-Gives m none f h = tt
bind-Gives m (some x) f h = h x refl

review_action-Gives :
    (kind : Option ReviewKind) (m : Manager)
    → m.review_kind ≡ kind
    → Gives m (review_action_of kind m)
unfolding review_action_of create_action replace_action
review_action-Gives none m e = tt
review_action-Gives (some ReviewKind.creation) m e =
    bind-Gives m m.selected_orchestrator _ λ o selected.
      bind-Gives m (find (is_candidate o) m.eligible) _ λ c there.
        bind-Gives m (next_group_identity m.groups c.host c.repository) _
          λ i fresh. (e, selected, refl)
review_action-Gives (some ReviewKind.replacement) m e =
    bind-Gives m (current_group m) _ λ g current. (e, current_group-OpenGroup m g current, refl)
review_action-Gives (some ReviewKind.reassignment) m e =
    bind-Gives m (current_group m) _ λ g current.
      bind-Gives m m.selected_orchestrator _
        λ o selected. (e, current_group-OpenGroup m g current, selected)

reviewed-Asked :
    (m : Manager) (a : Action)
    → m.screen ≡ Screen.review_topology
    → review_action m ≡ some a
    → Topology m a
    → Asked Event.confirm m a
reviewed-Asked m (Action.create_group id title o ws) here e of_m = record {
  here = here;
  asked = refl;
  action = e;
  topology = of_m;
}
reviewed-Asked m (Action.replace_workers g ws) here e of_m = record {
  here = here;
  asked = refl;
  action = e;
  topology = of_m;
}
reviewed-Asked m (Action.reassign_orchestrator g o) here e of_m = record {
  here = here;
  asked = refl;
  action = e;
  topology = of_m;
}
reviewed-Asked m (Action.set_agent_view id f) here e of_m = absurd of_m
reviewed-Asked m Action.clear_agent_view here e of_m = absurd of_m
reviewed-Asked m (Action.delete_group g) here e of_m = absurd of_m
reviewed-Asked m (Action.launch id) here e of_m = absurd of_m
reviewed-Asked m Action.back_to_picker here e of_m = absurd of_m

confirm_on-Says :
    (screen : Screen) (m : Manager)
    → m.screen ≡ screen
    → Says (Asked Event.confirm m) (confirm_on screen m)
unfolding confirm_on review_action
confirm_on-Says Screen.groups m here =
    if_both (Says (Asked Event.confirm m)) (ltb m.selected_index (length m.groups)) (λ open_it. tt)
      (λ new. tt)
confirm_on-Says Screen.create_orchestrator m here =
    elim (Option-cases (get_elem? m.screen_candidates m.selected_index)) [
      | inl nothing ↦ rw (nothing, Says) tt
      | inr (c, there) ↦ rw (there, Says) tt
    ]
confirm_on-Says Screen.create_workers m here = tt
confirm_on-Says Screen.group_actions m here = confirm_choice-Says m.selected_index m here refl
confirm_on-Says Screen.edit_workers m here = tt
confirm_on-Says Screen.change_orchestrator m here =
    elim (Option-cases (get_elem? m.screen_candidates m.selected_index)) [
      | inl nothing ↦ rw (nothing, Says) tt
      | inr (c, there) ↦ rw (there, Says) tt
    ]
confirm_on-Says Screen.review_topology m here =
    act-Says (Asked Event.confirm m) m (review_action m) (λ a e.
      reviewed-Asked m a here e (subst (Gives m) e (review_action-Gives m.review_kind m refl)))
confirm_on-Says Screen.confirm_delete m here = tt

leave_review-Says :
    (P : Action → Type 0) (kind : Option ReviewKind) (m : Manager) → Says P (leave_review kind m)
leave_review-Says P none m = tt
leave_review-Says P (some kind) m = tt

back_from-Says :
    (screen : Screen) (m : Manager)
    → m.screen ≡ screen
    → Says (Asked Event.back m) (back_from screen (record m { notice = none }))
back_from-Says Screen.groups m here = (here, refl)
back_from-Says Screen.create_orchestrator m here = tt
back_from-Says Screen.create_workers m here = tt
back_from-Says Screen.group_actions m here = tt
back_from-Says Screen.edit_workers m here = tt
back_from-Says Screen.change_orchestrator m here = tt
back_from-Says Screen.review_topology m here =
    leave_review-Says (Asked Event.back m) m.review_kind (record m { notice = none })
back_from-Says Screen.confirm_delete m here = tt

handle_deletion-Says :
    (event : Event) (m : Manager)
    → m.screen ≡ Screen.confirm_delete
    → Says (Asked event m) (handle_deletion event m)
unfolding handle_deletion delete_action
handle_deletion-Says Event.confirm_deletion m here =
    group_act-Says (Asked Event.confirm_deletion m) m Action.delete_group
      λ g e. (here, refl, current_group-OpenGroup m g e)
handle_deletion-Says Event.dismiss_deletion m here = tt
handle_deletion-Says Event.back m here = tt
handle_deletion-Says Event.previous m here = tt
handle_deletion-Says Event.next m here = tt
handle_deletion-Says Event.confirm m here = tt
handle_deletion-Says Event.toggle m here = tt
handle_deletion-Says Event.toggle_prompt m here = tt
handle_deletion-Says Event.create m here = tt
handle_deletion-Says Event.edit m here = tt
handle_deletion-Says Event.delete m here = tt

-- Beginning a creation, an edit or a deletion asks for nothing yet.
begun-Says :
    (P : Action → Type 0) (screen : Screen) (m : Manager)
    → Says P (begin_create_on screen m)
      × Says P (begin_edit_on screen m)
      × Says P (delete_on screen m)
unfolding begin_create_on begin_edit_on
begun-Says P Screen.groups m = (tt, tt, tt)
begun-Says P Screen.create_orchestrator m = (tt, tt, tt)
begun-Says P Screen.create_workers m = (tt, tt, tt)
begun-Says P Screen.group_actions m = (tt, continue-Says P (begin_edit m), tt)
begun-Says P Screen.edit_workers m = (tt, tt, tt)
begun-Says P Screen.change_orchestrator m = (tt, tt, tt)
begun-Says P Screen.review_topology m = (tt, tt, tt)
begun-Says P Screen.confirm_delete m = (tt, tt, tt)

handle_event-Says :
    (event : Event) (m : Manager) → Says (Asked event m) (handle_event m.screen event m)
unfolding handle_event
handle_event-Says Event.previous m = continue-Says (Asked Event.previous m) (move_selection true m)
handle_event-Says Event.next m = continue-Says (Asked Event.next m) (move_selection false m)
handle_event-Says Event.confirm m = confirm_on-Says m.screen m refl
handle_event-Says Event.back m = back_from-Says m.screen m refl
handle_event-Says Event.toggle m = tt
handle_event-Says Event.toggle_prompt m = tt
handle_event-Says Event.create m = (begun-Says (Asked Event.create m) m.screen m).0
handle_event-Says Event.edit m = (begun-Says (Asked Event.edit m) m.screen m).1
handle_event-Says Event.delete m = (begun-Says (Asked Event.delete m) m.screen m).2
handle_event-Says Event.confirm_deletion m = tt
handle_event-Says Event.dismiss_deletion m = tt

on_deletion : (screen : Screen) → is_confirm_delete screen ≡ true → screen ≡ Screen.confirm_delete
on_deletion Screen.confirm_delete h = refl
on_deletion Screen.groups h = absurd (ground (arith, h))
on_deletion Screen.create_orchestrator h = absurd (ground (arith, h))
on_deletion Screen.create_workers h = absurd (ground (arith, h))
on_deletion Screen.group_actions h = absurd (ground (arith, h))
on_deletion Screen.edit_workers h = absurd (ground (arith, h))
on_deletion Screen.change_orchestrator h = absurd (ground (arith, h))
on_deletion Screen.review_topology h = absurd (ground (arith, h))

-- An action is taken on the screen for it and at the event for it, one of the group menu from its entry,
-- and one on a group on the group that is open: a creation, a replacement or a reassignment only where a
-- review of that kind is confirmed, with the orchestrator or the workers that are selected; a deletion
-- only where it is confirmed on its own screen.
pub handle-Asked :
    (event : Event) (m m' : Manager) (a : Action)
    → handle event m ≡ some (m', act a)
    → Asked event m a
unfolding handle
handle-Asked event m m' a e = subst (Says (Asked event m)) e (
    if_both (Says (Asked event m)) (is_confirm_delete m.screen)
      (λ asks. handle_deletion-Says event m (on_deletion m.screen asks))
      (λ other. handle_event-Says event m))
