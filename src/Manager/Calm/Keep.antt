-- ===== src/Manager/Calm/Keep.antt =====
-- src/observer_manager.rs: each operation of the manager ends without a panic, on a screen where all
-- that it shows is there.
use herdr_tether.Prelude.{
  ℕ, Bool, true, not, Option, none, some, List, ◌≡◌, refl, arith, get_elem?, is_some, contains,
  Option-cases, if_both, inl, inr,
}
use herdr_tether.Session.{OrchestrationGroup}
use herdr_tether.Manager.{
  Screen, Action, Candidate, ReviewKind, Notice, Manager, current_group, ◌>>=◌, item_labels,
  item_labels_on,
}
use herdr_tether.Manager.Operations.{chooses_workers}
use herdr_tether.Manager.Handle.{
  toggle_worker, toggled, toggle_prompt, prompt_toggled, move_selection,
}
use herdr_tether.Manager.Handle.{then_continue, then_act}
use herdr_tether.Manager.Calm.{OnReview, OnScreen, Calm, Goes}
use herdr_tether.Manager.Calm.Rows.{Some, screen_rows}

abbrev pub touched : ℕ → Option Notice → Manager → Manager
touched index notice m = record m { selected_index = index; notice = notice }

-- What holds on a screen is not about the line selected or the notice.
touched-OnReview :
    (index : ℕ) (notice : Option Notice) (m : Manager) (kind : Option ReviewKind)
    → OnReview kind m
    → OnReview kind (touched index notice m)
unfolding current_group
touched-OnReview index notice m none h = h
touched-OnReview index notice m (some ReviewKind.creation) (h, k) = (
  record {
    orchestrator = h.orchestrator;
    candidate = h.candidate;
    chosen = h.chosen;
    known = h.known;
    others = h.others;
  },
  k,
)
touched-OnReview index notice m (some ReviewKind.replacement) (h, k) = (
  record {
    group = h.group;
    stored = h.stored;
    members = h.members;
    made = h.made;
    offered = h.offered;
  },
  k,
)
touched-OnReview index notice m (some ReviewKind.reassignment) h = record {
  group = h.group;
  stored = h.stored;
  orchestrator = h.orchestrator;
  chosen = h.chosen;
}

touched-OnScreen :
    (index : ℕ) (notice : Option Notice) (m : Manager) (screen : Screen)
    → OnScreen screen m
    → OnScreen screen (touched index notice m)
unfolding current_group
touched-OnScreen index notice m Screen.groups h = h
touched-OnScreen index notice m Screen.create_orchestrator h = h
touched-OnScreen index notice m Screen.create_workers h = record {
  orchestrator = h.orchestrator;
  candidate = h.candidate;
  chosen = h.chosen;
  known = h.known;
  others = h.others;
}
touched-OnScreen index notice m Screen.group_actions h = record {
  group = h.group;
  stored = h.stored;
}
touched-OnScreen index notice m Screen.edit_workers h = record {
  group = h.group;
  stored = h.stored;
  members = h.members;
  made = h.made;
  offered = h.offered;
}
touched-OnScreen index notice m Screen.change_orchestrator h = record {
  group = h.group;
  stored = h.stored;
}
touched-OnScreen index notice m Screen.review_topology h =
    touched-OnReview index notice m m.review_kind h
touched-OnScreen index notice m Screen.confirm_delete h = record {
  group = h.group;
  stored = h.stored;
}

module _ (gs : List OrchestrationGroup) (es : List Candidate) where
  pub touched-Calm :
      (index : ℕ) (notice : Option Notice) (m : Manager)
      → Calm gs es m
      → Calm gs es (touched index notice m)
  touched-Calm index notice m calm = record {
    groups = calm.groups;
    eligible = calm.eligible;
    place = touched-OnScreen index notice m m.screen calm.place;
  }

  pub bind-Goes {ℓ} :
      {A : Type ℓ} (o : Option A) (f : A → Option Manager)
      → Some o
      → ((a : A) → o ≡ some a → Goes gs es (then_continue (f a)))
      → Goes gs es (then_continue (o >>= f))
  bind-Goes (some a) f h k = k a refl
  bind-Goes none f h k = absurd (ground (arith, h.1))

  pub bind-act-Goes {ℓ} :
      {A : Type ℓ} (m : Manager) (o : Option A) (f : A → Option Action)
      → Some o
      → ((a : A) → o ≡ some a → Goes gs es (then_act m (f a)))
      → Goes gs es (then_act m (o >>= f))
  bind-act-Goes m (some a) f h k = k a refl
  bind-act-Goes m none f h k = absurd (ground (arith, h.1))

  pub move_selection-Goes :
      (backwards : Bool) (m : Manager)
      → Calm gs es m
      → Goes gs es (then_continue (move_selection backwards m))
  unfolding move_selection item_labels
  move_selection-Goes backwards m calm =
      bind-Goes (item_labels_on m.screen m) _ (screen_rows m m.screen calm.place)
        λ rows shown. touched-Calm _ m.notice m calm

  -- Choosing workers happens where it may change what is chosen.
  chosen-OnScreen :
      (workers prompts : List ℕ) (notice : Option Notice) (m : Manager) (screen : Screen)
      → m.screen ≡ screen
      → chooses_workers screen ≡ true
      → OnScreen screen m
      → OnScreen screen
          (record m { selected_workers = workers; prompt_workers = prompts; notice = notice })
  unfolding current_group
  chosen-OnScreen workers prompts notice m Screen.create_workers on h place = record {
    orchestrator = place.orchestrator;
    candidate = place.candidate;
    chosen = place.chosen;
    known = place.known;
    others = place.others;
  }
  chosen-OnScreen workers prompts notice m Screen.edit_workers on h place = record {
    group = place.group;
    stored = place.stored;
    members = place.members;
    made = place.made;
    offered = place.offered;
  }
  chosen-OnScreen workers prompts notice m Screen.groups on h place = absurd (ground (arith, h))
  chosen-OnScreen workers prompts notice m Screen.create_orchestrator on h place =
      absurd (ground (arith, h))
  chosen-OnScreen workers prompts notice m Screen.group_actions on h place =
      absurd (ground (arith, h))
  chosen-OnScreen workers prompts notice m Screen.change_orchestrator on h place =
      absurd (ground (arith, h))
  chosen-OnScreen workers prompts notice m Screen.review_topology on h place =
      absurd (ground (arith, h))
  chosen-OnScreen workers prompts notice m Screen.confirm_delete on h place =
      absurd (ground (arith, h))

  toggled-Calm :
      (session : ℕ) (m : Manager)
      → Calm gs es m
      → chooses_workers m.screen ≡ true
      → Calm gs es (toggled session m)
  toggled-Calm session m calm here =
      if_both (Calm gs es) (contains m.selected_workers session)
        (λ was. record {
          groups = calm.groups;
          eligible = calm.eligible;
          place = chosen-OnScreen _ _ none m m.screen refl here calm.place;
        })
        (λ is. record {
          groups = calm.groups;
          eligible = calm.eligible;
          place = chosen-OnScreen _ m.prompt_workers none m m.screen refl here calm.place;
        })

  pub toggle_worker-Calm : (m : Manager) → Calm gs es m → Calm gs es (toggle_worker m)
  unfolding toggle_worker
  toggle_worker-Calm m calm =
      if_both (Calm gs es) (chooses_workers m.screen)
        (λ here. elim (Option-cases (get_elem? m.screen_candidates m.selected_index)) [
          | inl nothing ↦ rw nothing calm
          | inr (c, there) ↦ rw there (toggled-Calm c.session_id m calm here)
        ])
        (λ elsewhere. calm)

  prompt_toggled-Calm :
      (c : Candidate) (m : Manager)
      → Calm gs es m
      → chooses_workers m.screen ≡ true
      → Calm gs es (prompt_toggled c m)
  prompt_toggled-Calm c m calm here =
      let refused = λ (n : Notice). touched-Calm m.selected_index (some n) m calm in
      let changed = λ (prompts : List ℕ).
        chosen-OnScreen m.selected_workers prompts none m m.screen refl here calm.place in
      if_both (Calm gs es) (contains m.prompt_workers c.session_id)
        (λ was. record { groups = calm.groups; eligible = calm.eligible; place = changed _ })
        (λ is.
          if_both (Calm gs es) (not m.herdr_connected) (λ a. refused Notice.unreachable_herdr)
            (λ a.
              if_both (Calm gs es) (not (is_some c.agent_kind)) (λ b. refused Notice.no_agent_kind)
                (λ b.
                  if_both (Calm gs es) (not (contains m.selected_workers c.session_id))
                    (λ d. refused Notice.not_selected)
                    (λ d. record {
                      groups = calm.groups;
                      eligible = calm.eligible;
                      place = changed _;
                    }))))

  pub toggle_prompt-Calm : (m : Manager) → Calm gs es m → Calm gs es (toggle_prompt m)
  unfolding toggle_prompt
  toggle_prompt-Calm m calm =
      if_both (Calm gs es) (chooses_workers m.screen)
        (λ here. elim (Option-cases (get_elem? m.screen_candidates m.selected_index)) [
          | inl nothing ↦ rw nothing calm
          | inr (c, there) ↦ rw there (prompt_toggled-Calm c m calm here)
        ])
        (λ elsewhere. calm)
