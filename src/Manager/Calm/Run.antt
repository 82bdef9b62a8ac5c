-- ===== src/Manager/Calm/Run.antt =====
-- src/observer_manager.rs: no sequence of events makes the manager panic.
use herdr_tether.Prelude.{
  ℕ, ◌≤◌, true, false, Option, none, some, List, [], ◌∷◌, ◌≡◌, refl, arith, length, if_both,
}
use herdr_tether.Session.{OrchestrationGroup}
use herdr_tether.Session.Validate.{max_orchestration_groups}
use herdr_tether.Manager.{
  Screen, Event, Outcome, continue, act, Candidate, ReviewKind, Manager, current_group, Row,
  item_labels,
}
use herdr_tether.Manager.Operations.{delete_action}
use herdr_tether.Manager.Handle.{
  Handled, handle, handle_event, handle_deletion, begin_create_on, begin_edit_on, delete_on,
  back_from, leave_review, is_confirm_delete, run, after,
}
use herdr_tether.Manager.Calm.{Grouped, OnReview, OnScreen, Calm, Goes}
use herdr_tether.Manager.Calm.Rows.{screen_rows}
use herdr_tether.Manager.Calm.Keep.{
  touched-Calm, move_selection-Goes, toggle_worker-Calm, toggle_prompt-Calm,
}
use herdr_tether.Manager.Calm.Begin.{begin_create-Calm, begin_edit-Goes}
use herdr_tether.Manager.Calm.Handle.{confirm_on-Goes, group_act-Goes}

module _ (gs : List OrchestrationGroup) (es : List Candidate)
    (few : length gs ≤ max_orchestration_groups) where
  leave_review-Goes :
      (kind : Option ReviewKind) (m : Manager)
      → Calm gs es m
      → OnReview kind m
      → Goes gs es (leave_review kind m)
  unfolding current_group
  leave_review-Goes none m calm h = h
  leave_review-Goes (some ReviewKind.creation) m calm (h, full) = record {
    groups = calm.groups;
    eligible = calm.eligible;
    place = record {
      orchestrator = h.orchestrator;
      candidate = h.candidate;
      chosen = h.chosen;
      known = h.known;
      others = h.others;
    };
  }
  leave_review-Goes (some ReviewKind.replacement) m calm (h, full) = record {
    groups = calm.groups;
    eligible = calm.eligible;
    place = record {
      group = h.group;
      stored = h.stored;
      members = h.members;
      made = h.made;
      offered = h.offered;
    };
  }
  leave_review-Goes (some ReviewKind.reassignment) m calm h = record {
    groups = calm.groups;
    eligible = calm.eligible;
    place = record { group = h.group; stored = h.stored };
  }

  back_from-Goes :
      (screen : Screen) (m : Manager)
      → is_confirm_delete screen ≡ false
      → OnScreen screen m
      → Calm gs es m
      → Goes gs es (back_from screen m)
  unfolding current_group
  back_from-Goes Screen.groups m here place calm = calm
  back_from-Goes Screen.create_orchestrator m here place calm = record {
    groups = calm.groups;
    eligible = calm.eligible;
    place = tt;
  }
  back_from-Goes Screen.group_actions m here place calm = record {
    groups = calm.groups;
    eligible = calm.eligible;
    place = tt;
  }
  back_from-Goes Screen.create_workers m here place calm = record {
    groups = calm.groups;
    eligible = calm.eligible;
    place = refl;
  }
  back_from-Goes Screen.edit_workers m here place calm = record {
    groups = calm.groups;
    eligible = calm.eligible;
    place = record { group = place.group; stored = place.stored };
  }
  back_from-Goes Screen.change_orchestrator m here place calm = record {
    groups = calm.groups;
    eligible = calm.eligible;
    place = record { group = place.group; stored = place.stored };
  }
  back_from-Goes Screen.review_topology m here place calm =
      leave_review-Goes m.review_kind m calm place
  back_from-Goes Screen.confirm_delete m here place calm = absurd (ground (arith, here))

  to_actions-Calm :
      (index : ℕ) (m : Manager)
      → Grouped m
      → Calm gs es m
      → Calm gs es (record m { screen = Screen.group_actions; selected_index = index })
  unfolding current_group
  to_actions-Calm index m grouped calm = record {
    groups = calm.groups;
    eligible = calm.eligible;
    place = record { group = grouped.group; stored = grouped.stored };
  }

  handle_deletion-Goes :
      (event : Event) (m : Manager)
      → Grouped m
      → Calm gs es m
      → Goes gs es (handle_deletion event m)
  unfolding handle_deletion delete_action current_group
  handle_deletion-Goes Event.confirm_deletion m grouped calm =
      group_act-Goes gs es few m _ (λ g. (_, refl)) grouped calm
  handle_deletion-Goes Event.dismiss_deletion m grouped calm = to_actions-Calm 5 m grouped calm
  handle_deletion-Goes Event.back m grouped calm = to_actions-Calm 5 m grouped calm
  handle_deletion-Goes Event.previous m grouped calm = calm
  handle_deletion-Goes Event.next m grouped calm = calm
  handle_deletion-Goes Event.confirm m grouped calm = calm
  handle_deletion-Goes Event.toggle m grouped calm = calm
  handle_deletion-Goes Event.toggle_prompt m grouped calm = calm
  handle_deletion-Goes Event.create m grouped calm = calm
  handle_deletion-Goes Event.edit m grouped calm = calm
  handle_deletion-Goes Event.delete m grouped calm = calm

  begin_create_on-Goes :
      (screen : Screen) (m : Manager) → Calm gs es m → Goes gs es (begin_create_on screen m)
  unfolding begin_create_on
  begin_create_on-Goes Screen.groups m calm = begin_create-Calm gs es m calm
  begin_create_on-Goes Screen.create_orchestrator m calm = calm
  begin_create_on-Goes Screen.create_workers m calm = calm
  begin_create_on-Goes Screen.group_actions m calm = calm
  begin_create_on-Goes Screen.edit_workers m calm = calm
  begin_create_on-Goes Screen.change_orchestrator m calm = calm
  begin_create_on-Goes Screen.review_topology m calm = calm
  begin_create_on-Goes Screen.confirm_delete m calm = calm

  begin_edit_on-Goes :
      (screen : Screen) (m : Manager)
      → OnScreen screen m
      → Calm gs es m
      → Goes gs es (begin_edit_on screen m)
  unfolding begin_edit_on
  begin_edit_on-Goes Screen.group_actions m place calm = begin_edit-Goes gs es m place calm
  begin_edit_on-Goes Screen.groups m place calm = calm
  begin_edit_on-Goes Screen.create_orchestrator m place calm = calm
  begin_edit_on-Goes Screen.create_workers m place calm = calm
  begin_edit_on-Goes Screen.edit_workers m place calm = calm
  begin_edit_on-Goes Screen.change_orchestrator m place calm = calm
  begin_edit_on-Goes Screen.review_topology m place calm = calm
  begin_edit_on-Goes Screen.confirm_delete m place calm = calm

  delete_on-Goes :
      (screen : Screen) (m : Manager)
      → OnScreen screen m
      → Calm gs es m
      → Goes gs es (delete_on screen m)
  unfolding current_group
  delete_on-Goes Screen.group_actions m place calm = record {
    groups = calm.groups;
    eligible = calm.eligible;
    place = record { group = place.group; stored = place.stored };
  }
  delete_on-Goes Screen.groups m place calm = calm
  delete_on-Goes Screen.create_orchestrator m place calm = calm
  delete_on-Goes Screen.create_workers m place calm = calm
  delete_on-Goes Screen.edit_workers m place calm = calm
  delete_on-Goes Screen.change_orchestrator m place calm = calm
  delete_on-Goes Screen.review_topology m place calm = calm
  delete_on-Goes Screen.confirm_delete m place calm = calm

  handle_event-Goes :
      (event : Event) (m : Manager)
      → is_confirm_delete m.screen ≡ false
      → Calm gs es m
      → Goes gs es (handle_event m.screen event m)
  unfolding handle_event
  handle_event-Goes Event.previous m here calm = move_selection-Goes gs es true m calm
  handle_event-Goes Event.next m here calm = move_selection-Goes gs es false m calm
  handle_event-Goes Event.confirm m here calm =
      confirm_on-Goes gs es few m.screen m refl calm.place calm
  handle_event-Goes Event.back m here calm =
      let quiet = touched-Calm gs es m.selected_index none m calm in
      back_from-Goes m.screen (record m { notice = none }) here quiet.place quiet
  handle_event-Goes Event.toggle m here calm = toggle_worker-Calm gs es m calm
  handle_event-Goes Event.toggle_prompt m here calm = toggle_prompt-Calm gs es m calm
  handle_event-Goes Event.create m here calm = begin_create_on-Goes m.screen m calm
  handle_event-Goes Event.edit m here calm = begin_edit_on-Goes m.screen m calm.place calm
  handle_event-Goes Event.delete m here calm = delete_on-Goes m.screen m calm.place calm
  handle_event-Goes Event.confirm_deletion m here calm = calm
  handle_event-Goes Event.dismiss_deletion m here calm = calm

  asked_group :
      (screen : Screen) (m : Manager)
      → is_confirm_delete screen ≡ true
      → OnScreen screen m
      → Grouped m
  asked_group Screen.confirm_delete m h place = place
  asked_group Screen.groups m h place = absurd (ground (arith, h))
  asked_group Screen.create_orchestrator m h place = absurd (ground (arith, h))
  asked_group Screen.create_workers m h place = absurd (ground (arith, h))
  asked_group Screen.group_actions m h place = absurd (ground (arith, h))
  asked_group Screen.edit_workers m h place = absurd (ground (arith, h))
  asked_group Screen.change_orchestrator m h place = absurd (ground (arith, h))
  asked_group Screen.review_topology m h place = absurd (ground (arith, h))

  pub handle-Goes : (event : Event) (m : Manager) → Calm gs es m → Goes gs es (handle event m)
  unfolding handle
  handle-Goes event m calm =
      if_both (Goes gs es) (is_confirm_delete m.screen)
        (λ asks. handle_deletion-Goes event m (asked_group m.screen m asks calm.place) calm)
        (λ other. handle_event-Goes event m other calm)

  gone : (h : Handled) → Goes gs es h → (r : Manager × Outcome) × (h ≡ some r) × Calm gs es r.0
  gone (some (m, o)) calm = ((m, o), refl, calm)
  gone none calm = absurd calm

  after-Goes :
      (later : Manager → Handled) (h : Handled)
      → ((m : Manager) → Calm gs es m → Goes gs es (later m))
      → Goes gs es h
      → Goes gs es (after later h)
  unfolding after
  after-Goes later none keeps calm = calm
  after-Goes later (some (m, continue)) keeps calm = keeps m calm
  after-Goes later (some (m, act a)) keeps calm = calm

  run-Goes : (events : List Event) (m : Manager) → Calm gs es m → Goes gs es (run events m)
  unfolding run
  run-Goes [] m calm = calm
  run-Goes (e ∷ rest) m calm =
      after-Goes (run rest) (handle e m) (run-Goes rest) (handle-Goes e m calm)

-- Over at most 32 groups, a manager on whose screen all is there goes through any sequence of events
-- without a panic and stays such a manager, over the same groups and the same eligible sessions, and has
-- lines to show.
pub run-calm :
    (gs : List OrchestrationGroup) (es : List Candidate) (events : List Event) (m : Manager)
    → length gs ≤ max_orchestration_groups
    → Calm gs es m
    → (r : Manager × Outcome) × (run events m ≡ some r)
      × Calm gs es r.0
      × ((rows : List Row) × (item_labels r.0 ≡ some rows))
unfolding item_labels
run-calm gs es events m few calm =
    let (r, ran, kept) = gone gs es few (run events m) (run-Goes gs es few events m calm) in
    (r, ran, kept, screen_rows r.0 r.0.screen kept.place)
