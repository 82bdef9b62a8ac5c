-- ===== src/Manager/Calm/Handle.antt =====
-- src/observer_manager.rs: `handle` never panics.
use herdr_tether.Prelude.{
  ℕ, zero, suc, ◌≤◌, true, false, Option, none, some, List, [], ◌∷◌, ◌≡◌, refl, sym, ap, subst,
  arith, ==_iff, ltb, length, get_elem?, find, Bool-cases, Option-cases, inl, inr, any, some_eq,
}
use herdr_tether.Prelude.Text.{Text}
use herdr_tether.Groups.{is_group}
use herdr_tether.Session.{OrchestrationGroup}
use herdr_tether.Session.Validate.{max_orchestration_groups}
use herdr_tether.Manager.{
  Screen, Action, Candidate, ReviewKind, Notice, Manager, current_group, is_candidate, ◌>>=◌,
  selected_worker_specs,
}
use herdr_tether.Manager.Operations.{
  begin_review, create_action, replace_action, review_action, review_action_of,
}
use herdr_tether.Manager.Names.Identity.{next_group_identity-accepted}
use herdr_tether.Manager.Handle.{
  confirm_on, confirm_choice, then_act, choose_orchestrator, launch_action, view_action,
}
use herdr_tether.Manager.Calm.{Creating, Grouped, OnReview, OnScreen, Calm, Goes}
use herdr_tether.Manager.Calm.Rows.{Some}
use herdr_tether.Manager.Calm.Keep.{bind-act-Goes, touched-Calm}
use herdr_tether.Manager.Calm.Begin.{
  begin_create-Calm, begin_edit-Goes, begin_reassign-Goes, begin_review-Calm,
}

-- A candidate that stands in the list is found by its session.
find-get :
    (cs : List Candidate) (i : ℕ) (c : Candidate)
    → get_elem? cs i ≡ some c
    → Some (find (is_candidate c.session_id) cs)
find-get [] i c h = absurd (ground (arith, h))
find-get (d ∷ ds) zero c h = (
  d,
  rw ((==_iff d.session_id c.session_id).1 (ap (λ (b : Candidate). b.session_id) (some_eq h))) refl,
)
find-get (d ∷ ds) (suc i) c h = elim (Bool-cases (is_candidate c.session_id d)) [
  | inl here ↦ (d, rw here refl)
  | inr other ↦ rw other (find-get ds i c h)
]

get-Some : {A : Type 0} (xs : List A) (i : ℕ) → ltb i (length xs) ≡ true → Some (get_elem? xs i)
get-Some [] i h = absurd (ground (arith, h))
get-Some (x ∷ xs) zero h = (x, refl)
get-Some (x ∷ xs) (suc i) h = get-Some xs i (ground (arith, h))

-- The creation that is reviewed: the orchestrator chosen, the workers selected, and a name that no group has.
pub create_action-eq :
    (m : Manager) (creating : Creating m)
    → length m.groups ≤ max_orchestration_groups
    → (id : Text) × (title : Text) × (create_action m
        ≡ some (Action.create_group id title creating.orchestrator (selected_worker_specs m)))
      × (any (is_group id) m.groups ≡ false)
unfolding create_action
create_action-eq m creating few =
    let (id, title, named, free, parsed, titled) =
      next_group_identity-accepted m.groups creating.candidate.host creating.candidate.repository
        few in
    (id, title, rw (creating.chosen, creating.known, named) refl, free)

module _ (gs : List OrchestrationGroup) (es : List Candidate)
    (few : length gs ≤ max_orchestration_groups) where
  act-Goes : (m : Manager) (o : Option Action) → Calm gs es m → Some o → Goes gs es (then_act m o)
  act-Goes m (some a) calm h = calm
  act-Goes m none calm h = absurd (ground (arith, h.1))

  -- An action on the group that is open.
  pub group_act-Goes :
      (m : Manager) (f : OrchestrationGroup → Option Action)
      → ((g : OrchestrationGroup) → Some (f g))
      → Grouped m
      → Calm gs es m
      → Goes gs es (then_act m (current_group m >>= f))
  group_act-Goes m f total grouped calm =
      bind-act-Goes gs es m (current_group m) f (grouped.group, grouped.stored)
        λ g stored. act-Goes m (f g) calm (total g)

  confirm_choice-Goes :
      (n : ℕ) (m : Manager) → Grouped m → Calm gs es m → Goes gs es (confirm_choice n m)
  unfolding confirm_choice launch_action view_action current_group
  confirm_choice-Goes zero m grouped calm = group_act-Goes m _ (λ g. (_, refl)) grouped calm
  confirm_choice-Goes (suc zero) m grouped calm = begin_edit-Goes gs es m grouped calm
  confirm_choice-Goes (suc (suc zero)) m grouped calm = begin_reassign-Goes gs es m grouped calm
  confirm_choice-Goes (suc (suc (suc zero))) m grouped calm =
      group_act-Goes m _ (λ g. (_, refl)) grouped calm
  confirm_choice-Goes (suc (suc (suc (suc zero)))) m grouped calm =
      group_act-Goes m _ (λ g. (_, refl)) grouped calm
  confirm_choice-Goes (suc (suc (suc (suc (suc zero))))) m grouped calm =
      group_act-Goes m _ (λ g. (_, refl)) grouped calm
  confirm_choice-Goes (suc (suc (suc (suc (suc (suc zero)))))) m grouped calm = calm
  confirm_choice-Goes (suc (suc (suc (suc (suc (suc (suc zero))))))) m grouped calm = record {
    groups = calm.groups;
    eligible = calm.eligible;
    place = record { group = grouped.group; stored = grouped.stored };
  }
  confirm_choice-Goes (suc (suc (suc (suc (suc (suc (suc (suc n)))))))) m grouped calm = calm

  create_action-Some : (m : Manager) → Calm gs es m → Creating m → Some (create_action m)
  create_action-Some m calm creating =
      let (id, title, made, free) =
        create_action-eq m creating
          (subst (λ (hs : List OrchestrationGroup). length hs ≤ 32) (sym calm.groups) few) in
      (Action.create_group id title creating.orchestrator (selected_worker_specs m), made)

  review_action-Some :
      (kind : Option ReviewKind) (m : Manager)
      → Calm gs es m
      → OnReview kind m
      → Some (review_action_of kind m)
  unfolding review_action_of replace_action
  review_action-Some none m calm h = absurd h
  review_action-Some (some ReviewKind.creation) m calm (h, full) = create_action-Some m calm h
  review_action-Some (some ReviewKind.replacement) m calm (h, full) =
      (Action.replace_workers h.group (selected_worker_specs m), rw h.stored refl)
  review_action-Some (some ReviewKind.reassignment) m calm h =
      (Action.reassign_orchestrator h.group h.orchestrator, rw (h.stored, h.chosen) refl)

  -- The screens on which a candidate is chosen as the orchestrator.
  choose_orchestrator-Calm :
      (m : Manager) (c : Candidate)
      → Calm gs es m
      → Some (find (is_candidate c.session_id) m.eligible)
      → Calm gs es (choose_orchestrator m c)
  choose_orchestrator-Calm m c calm (d, known) = record {
    groups = calm.groups;
    eligible = calm.eligible;
    place = record {
      orchestrator = c.session_id;
      candidate = d;
      chosen = refl;
      known = known;
      others = refl;
    };
  }

  choose_replacement-Calm :
      (m : Manager) (c : Candidate)
      → Calm gs es m
      → Grouped m
      → m.screen ≡ Screen.change_orchestrator
      → Calm gs es (
          begin_review ReviewKind.reassignment
            (record m { selected_orchestrator = some c.session_id }))
  unfolding current_group
  choose_replacement-Calm m c calm grouped here =
      begin_review-Calm gs es ReviewKind.reassignment
        (record m { selected_orchestrator = some c.session_id })
        (λ asks. absurd (ground (arith, asks)))
        (λ asks. record {
          group = grouped.group;
          stored = grouped.stored;
          orchestrator = c.session_id;
          chosen = refl;
        })
        (record {
          groups = calm.groups;
          eligible = calm.eligible;
          place =
              subst (λ s. OnScreen s (record m { selected_orchestrator = some c.session_id }))
                (sym here) (record { group = grouped.group; stored = grouped.stored });
        })

  pub confirm_on-Goes :
      (screen : Screen) (m : Manager)
      → m.screen ≡ screen
      → OnScreen screen m
      → Calm gs es m
      → Goes gs es (confirm_on screen m)
  unfolding confirm_on current_group review_action
  confirm_on-Goes Screen.groups m here place calm =
      elim (Bool-cases (ltb m.selected_index (length m.groups))) [
        | inl stands ↦ rw stands (
            let (g, stored) = get-Some m.groups m.selected_index stands in
            record {
              groups = calm.groups;
              eligible = calm.eligible;
              place = record { group = g; stored = stored };
            })
        | inr new ↦ rw new (begin_create-Calm gs es m calm)
      ]
  confirm_on-Goes Screen.create_orchestrator m here place calm =
      elim (Option-cases (get_elem? m.screen_candidates m.selected_index)) [
        | inl nothing ↦
            rw (nothing, Goes)
              (touched-Calm gs es m.selected_index (some Notice.no_workload) m calm)
        | inr (c, there) ↦
            rw (there, Goes)
              (choose_orchestrator-Calm m c calm (
                find-get m.eligible m.selected_index c
                  (subst (λ cs. get_elem? cs m.selected_index ≡ some c) place there)))
      ]
  confirm_on-Goes Screen.create_workers m here place calm =
      begin_review-Calm gs es ReviewKind.creation m (λ asks full. (place, full))
        (λ asks. absurd (ground (arith, asks))) calm
  confirm_on-Goes Screen.group_actions m here place calm =
      confirm_choice-Goes m.selected_index m place calm
  confirm_on-Goes Screen.edit_workers m here place calm =
      begin_review-Calm gs es ReviewKind.replacement m (λ asks full. (place, full))
        (λ asks. absurd (ground (arith, asks))) calm
  confirm_on-Goes Screen.change_orchestrator m here place calm =
      elim (Option-cases (get_elem? m.screen_candidates m.selected_index)) [
        | inl nothing ↦ rw (nothing, Goes) calm
        | inr (c, there) ↦ rw (there, Goes) (choose_replacement-Calm m c calm place here)
      ]
  confirm_on-Goes Screen.review_topology m here place calm =
      act-Goes m (review_action_of m.review_kind m) calm
        (review_action-Some m.review_kind m calm place)
  confirm_on-Goes Screen.confirm_delete m here place calm = calm
