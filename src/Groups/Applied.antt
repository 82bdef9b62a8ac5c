-- ===== src/Groups/Applied.antt =====
-- src/orchestration.rs: what the application of a plan to a group touches, and what it reports.
use herdr_tether.Prelude.{
  ℕ, Bool, true, All, any, find, ==_iff, ◌+◌, ◌-◌, ◌/◌, ◌*◌, ◌<◌, false, Option, none, some, List,
  [], ◌∷◌, ◌≡◌, refl, sym, ap, subst, arith, ltb, map, Bool-cases, Option-cases, if_both, inl, inr,
  some_eq,
}
use herdr_tether.Prelude.Text.{Text, text_eq_sound}
use herdr_tether.Groups.{is_group}
use herdr_tether.Session.{SessionRecord, OrchestrationGroup, OrchestrationMember, State}
use herdr_tether.Session.Pace.{paced_restart_until}
use herdr_tether.Store.{Env, World, load}
use herdr_tether.Lifecycle.{Result}
use herdr_tether.Lifecycle.Stop.{CloseResult, stop_owned}
use herdr_tether.Lifecycle.Restart.{RestartResult, restart_owned}
use herdr_tether.Lifecycle.Orderly.{InOrder, Orderly}
use herdr_tether.Lifecycle.Orderly.Methods.{stop_owned-InOrder}
use herdr_tether.Lifecycle.Orderly.Restart.{restart_owned-InOrder}
use herdr_tether.Lifecycle.Orderly.Recovery.{in_order_after}
use herdr_tether.Groups.Plan.{
  GroupAction, GroupSkip, is_same_membership, GroupDecision, GroupPlan, GroupPlanEntry,
  GroupMemberResult, GroupOutcome, paced_seconds, membership_unchanged, stop_result, restart_result,
  paced_since_plan, restart_unless_paced, restart_member, perform_member, act_if_unchanged,
  act_on_member, apply_entries, apply_group_action,
}

-- The seconds that a paced restart is said to wait reach its end up to a millisecond, and go less than a
-- second beyond it.
pub paced_seconds-near :
    (now later n : ℕ) (r : SessionRecord)
    → paced_seconds now later r ≡ some n
    → (until : ℕ) × (paced_restart_until r now ≡ some until)
      × (until < later + n * 1000000000 + 1000000)
      × (later + n * 1000000000 < until + 1000000000)
unfolding paced_seconds
paced_seconds-near now later n r h = elim (Option-cases (paced_restart_until r now)) [
  | inl free ↦ absurd (ground (arith, h, free))
  | inr (until, paced) ↦ elim (Bool-cases (ltb later until)) [
    | inl waits ↦
        let same : ((until - later) / 1000000 + 999) / 1000 ≡ n =
          some_eq (rw (paced, waits, paced_seconds) at h) in
        let ahead : later < until = ground (arith, waits) in
        (until, paced, omega (arith, same, ahead), omega (arith, same, ahead))
    | inr over ↦ absurd (ground (arith, h, paced, over))
  ]
]

-- No worker of a group of the name has both the session and the membership of the entry.
abbrev pub Departed : Text → GroupPlanEntry → List OrchestrationGroup → Type 0
Departed id e groups =
    All
      (λ (g : OrchestrationGroup).
        g.id ≡ id
        → All
            (λ (m : OrchestrationMember).
              m.session_id ≡ e.session_id → m.membership_id ≡ e.membership_id → ⊥)
            g.workers)
      groups

find-All :
    {A : Type 0} (P : A → Type 0) (p : A → Bool) (xs : List A) (x : A)
    → All P xs
    → find p xs ≡ some x
    → P x × (p x ≡ true)
find-All P p [] x hs found = absurd (ground (arith, found))
find-All P p (y ∷ ys) x (h, hs) found = elim (Bool-cases (p y)) [
  | inl here ↦ subst (λ z. P z × (p z ≡ true)) (some_eq (rw (here, find) at found)) (h, here)
  | inr other ↦ find-All P p ys x hs (rw (other, find) at found)
]

any-All :
    {A : Type 0} (p : A → Bool) (xs : List A) → All (λ x. p x ≡ true → ⊥) xs → any p xs ≡ false
any-All p [] h = refl
any-All p (x ∷ xs) (h, hs) = elim (Bool-cases (p x)) [
  | inl here ↦ absurd (h here)
  | inr other ↦ ground (arith, other, any-All p xs hs)
]

no_worker :
    (e : GroupPlanEntry) (ms : List OrchestrationMember)
    → All
        (λ (m : OrchestrationMember).
          m.session_id ≡ e.session_id → m.membership_id ≡ e.membership_id → ⊥)
        ms
    → All (λ m. is_same_membership e m ≡ true → ⊥) ms
no_worker e [] h = tt
no_worker e (m ∷ ms) (h, hs) = (
  λ same.
      h ((==_iff m.session_id e.session_id).0 (ground (arith, same)))
        ((==_iff m.membership_id e.membership_id).0 (ground (arith, same))),
  no_worker e ms hs,
)

membership_unchanged-Departed :
    (id : Text) (e : GroupPlanEntry) (s : State)
    → Departed id e s.orchestration_groups
    → membership_unchanged id e s ≡ false
unfolding membership_unchanged
membership_unchanged-Departed id e s gone =
    elim (Option-cases (find (is_group id) s.orchestration_groups)) [
      | inl nothing ↦ rw (nothing, membership_unchanged) refl
      | inr (g, there) ↦
          let (apart, named) =
            find-All
              (λ (g : OrchestrationGroup).
                g.id ≡ id
                → All
                    (λ (m : OrchestrationMember).
                      m.session_id ≡ e.session_id → m.membership_id ≡ e.membership_id → ⊥)
                    g.workers)
              (is_group id) s.orchestration_groups g gone there in
          rw (there, membership_unchanged)
            (any-All (is_same_membership e) g.workers
              (no_worker e g.workers (apart (text_eq_sound g.id id named))))
    ]

module _ (env : Env) where
  load-effects : (w : World) → (load env w).1.effects ≡ w.effects
  unfolding load
  load-effects w = ground arith

  load-InOrder : (w : World) → InOrder w → InOrder (load env w).1
  load-InOrder w h = subst Orderly (sym (load-effects w)) h

  stop_result-world : (x : Result CloseResult × World) → (stop_result x).1 ≡ x.1
  stop_result-world (Result.ok a, w) = refl
  stop_result-world (Result.err e, w) = refl

  restart_result-world : (x : Result RestartResult × World) → (restart_result x).1 ≡ x.1
  restart_result-world (Result.ok a, w) = refl
  restart_result-world (Result.err e, w) = refl

  restart_unless_paced-InOrder :
      (id : ℕ) (o : Option (ℕ × ℕ)) (w : World)
      → InOrder w
      → InOrder (restart_unless_paced env id o w).1
  restart_unless_paced-InOrder id none w h =
      subst InOrder (sym (restart_result-world (restart_owned env id w)))
        (in_order_after env _ (restart_owned-InOrder env id w h))
  restart_unless_paced-InOrder id (some (n, run)) w h = h

  restart_member-InOrder :
      (id : ℕ) (x : Option State × World) → InOrder x.1 → InOrder (restart_member env id x).1
  unfolding restart_member
  restart_member-InOrder id (none, w) h = h
  restart_member-InOrder id (some s, w) h =
      restart_unless_paced-InOrder id
        (paced_since_plan env (env.clock w.tick 0) (env.clock w.tick 1) id s) w h

  perform_member-InOrder :
      (action : GroupAction) (id : ℕ) (w : World)
      → InOrder w
      → InOrder (perform_member env action id w).1
  unfolding perform_member
  perform_member-InOrder GroupAction.stop id w h =
      subst InOrder (sym (stop_result-world (stop_owned env id w)))
        (in_order_after env _ (stop_owned-InOrder env id w h))
  perform_member-InOrder GroupAction.restart id w h =
      restart_member-InOrder id (load env w) (load-InOrder w h)

  act_if_unchanged-InOrder :
      (plan : GroupPlan) (e : GroupPlanEntry) (x : Option State × World)
      → InOrder x.1
      → InOrder (act_if_unchanged env plan e x).1
  unfolding act_if_unchanged
  act_if_unchanged-InOrder plan e (none, w) h = h
  act_if_unchanged-InOrder plan e (some s, w) h =
      if_both (λ (y : GroupMemberResult × World). InOrder y.1)
        (membership_unchanged plan.group_id e s)
        (λ member. perform_member-InOrder plan.action e.session_id w h) (λ gone. h)

  act_by_decision :
      (plan : GroupPlan) (e : GroupPlanEntry) (d : GroupDecision) (w : World)
      → e.decision ≡ d
      → InOrder w
      → InOrder (act_on_member env plan e w).1
  unfolding act_on_member
  act_by_decision plan e (GroupDecision.skip reason) w same h = rw (same, InOrder) h
  act_by_decision plan e GroupDecision.act w same h =
      rw (same, InOrder) (act_if_unchanged-InOrder plan e (load env w) (load-InOrder w h))

  apply_entries-InOrder :
      (plan : GroupPlan) (es : List GroupPlanEntry) (w : World)
      → InOrder w
      → InOrder (apply_entries env plan es w).1
  unfolding apply_entries
  apply_entries-InOrder plan [] w h = h
  apply_entries-InOrder plan (e ∷ es) w h =
      apply_entries-InOrder plan es (act_on_member env plan e w).1
        (act_by_decision plan e e.decision w refl h)

  outcome_sessions :
      (plan : GroupPlan) (es : List GroupPlanEntry) (w : World)
      → map (λ (o : GroupOutcome). o.session_id) (apply_entries env plan es w).0
        ≡ map (λ (e : GroupPlanEntry). e.session_id) es
  unfolding apply_entries
  outcome_sessions plan [] w = refl
  outcome_sessions plan (e ∷ es) w =
      ap (λ ids. e.session_id ∷ ids) (outcome_sessions plan es (act_on_member env plan e w).1)

  -- If the calls so far are in order, then so they are after the application of a plan, and it reports one
  -- outcome for each entry of the plan, in the same order.
  pub apply_group_action-InOrder :
      (plan : GroupPlan) (w : World)
      → InOrder w
      → InOrder (apply_group_action env plan w).1
        × (map (λ (o : GroupOutcome). o.session_id) (apply_group_action env plan w).0
            ≡ map (λ (e : GroupPlanEntry). e.session_id) plan.entries)
  unfolding apply_group_action
  apply_group_action-InOrder plan w h =
      (apply_entries-InOrder plan plan.entries w h, outcome_sessions plan plan.entries w)

  refused :
      (plan : GroupPlan) (e : GroupPlanEntry) (w : World) (s : State) (x : Option State × World)
      → x.0 ≡ some s
      → x.1.effects ≡ w.effects
      → membership_unchanged plan.group_id e s ≡ false
      → (act_if_unchanged env plan e x).1.effects ≡ w.effects
  unfolding act_if_unchanged
  refused plan e w s (none, w') loaded same gone = same
  refused plan e w s (some s', w') loaded same gone =
      let mine : membership_unchanged plan.group_id e s' ≡ false =
        subst (λ t. membership_unchanged plan.group_id e t ≡ false) (sym (some_eq loaded)) gone in
      rw mine same

  skipped_result :
      (plan : GroupPlan) (e : GroupPlanEntry) (s : State) (x : Option State × World)
      → x.0 ≡ some s
      → membership_unchanged plan.group_id e s ≡ false
      → (act_if_unchanged env plan e x).0 ≡ GroupMemberResult.skipped GroupSkip.membership_changed
  unfolding act_if_unchanged
  skipped_result plan e s (none, w) loaded gone = absurd (ground (arith, loaded))
  skipped_result plan e s (some s', w) loaded gone =
      let mine : membership_unchanged plan.group_id e s' ≡ false =
        subst (λ t. membership_unchanged plan.group_id e t ≡ false) (sym (some_eq loaded)) gone in
      rw mine refl

  unconfirmed_skipped :
      (plan : GroupPlan) (e : GroupPlanEntry) (w : World) (s : State)
      → e.decision ≡ GroupDecision.act
      → (load env w).0 ≡ some s
      → membership_unchanged plan.group_id e s ≡ false
      → (act_on_member env plan e w).0 ≡ GroupMemberResult.skipped GroupSkip.membership_changed
  unfolding act_on_member
  unconfirmed_skipped plan e w s acts loaded gone =
      rw acts (skipped_result plan e s (load env w) loaded gone)

  unconfirmed :
      (plan : GroupPlan) (e : GroupPlanEntry) (w : World) (s : State) (d : GroupDecision)
      → e.decision ≡ d
      → (load env w).0 ≡ some s
      → membership_unchanged plan.group_id e s ≡ false
      → (act_on_member env plan e w).1.effects ≡ w.effects
  unfolding act_on_member
  unconfirmed plan e w s (GroupDecision.skip reason) same loaded gone = rw same refl
  unconfirmed plan e w s GroupDecision.act same loaded gone =
      rw same (refused plan e w s (load env w) loaded (load-effects w) gone)

  -- Where no worker of the plan's group, in the state that is read, has both the session and the
  -- membership of an entry, no call is made for it, and an entry that was to be acted on is skipped.
  pub act_on_member-unconfirmed :
      (plan : GroupPlan) (e : GroupPlanEntry) (w : World) (s : State)
      → (load env w).0 ≡ some s
      → Departed plan.group_id e s.orchestration_groups
      → ((act_on_member env plan e w).1.effects ≡ w.effects)
        × (e.decision ≡ GroupDecision.act
            → (act_on_member env plan e w).0
              ≡ GroupMemberResult.skipped GroupSkip.membership_changed)
  act_on_member-unconfirmed plan e w s loaded gone =
      let changed = membership_unchanged-Departed plan.group_id e s gone in
      (
        unconfirmed plan e w s e.decision refl loaded changed,
        λ acts. unconfirmed_skipped plan e w s acts loaded changed,
      )
