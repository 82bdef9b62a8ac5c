-- ===== src/Groups/Remove.antt =====
-- src/orchestration.rs: removing groups and workers and promoting a session keep the groups in order.
use herdr_tether.Prelude.{
  ℕ, ◌≤◌, Bool, not, List, [], ◌∷◌, ◌≡◌, refl, arith, ◌==◌, length, count, map, All,
  length-retain-le, if_both, retain,
}
use herdr_tether.Prelude.Text.{Text}
use herdr_tether.Session.{OrchestrationMember, OrchestrationGroup, State}
use herdr_tether.Groups.{
  ok, with_groups, find_group, without_group, change_group, delete_group, delete_group_if_unchanged,
  reassign_orchestrator, remove_worker, find_member, without_member, drop_worker, promoted,
  is_member, require_unchanged, require_role_eligible_session,
}
use herdr_tether.Groups.Valid.{MemberOk, GroupOk, GroupsOk, sessions_of, memberships_of}
use herdr_tether.Groups.Lists.{find_group-All, change_group-GroupsOk, without_group-GroupsOk}
use herdr_tether.Groups.Leaves.{Leaves, bind-Leaves, stored-Leaves}

-- A group in order under a change that only leaves workers out.
thinned :
    (g h : OrchestrationGroup)
    → GroupOk g
    → length h.workers ≤ length g.workers
    → All (MemberOk h.orchestrator_session_id) h.workers
    → ((a : ℕ) → count ◌==◌ a (sessions_of h.workers) ≤ count ◌==◌ a (sessions_of g.workers))
    → GroupOk h
thinned g h okay fewer members sessions = record {
  few = omega (arith, okay.few);
  members = members;
  distinct = λ a. omega (arith, sessions a, okay.distinct a);
}

-- The first group of a name is changed into one with fewer workers.
thinned-Leaves {ℓ} :
    {A : Type ℓ} (v : A) (id : Text) (f : OrchestrationGroup → OrchestrationGroup)
    (g : OrchestrationGroup) (s : State)
    → (f g).id ≡ g.id
    → find_group id s.orchestration_groups ≡ ok g
    → GroupOk (f g)
    → ((a : ℕ)
        → count ◌==◌ a (memberships_of (f g).workers) ≤ count ◌==◌ a (memberships_of g.workers))
    → GroupsOk s.orchestration_groups
    → Leaves s (ok (v, with_groups s (change_group id f s.orchestration_groups)))
thinned-Leaves v id f g s same found okay fewer gso =
    stored-Leaves s v (change_group id f s.orchestration_groups) (
      change_group-GroupsOk id f g same (λ a. 0) s.orchestration_groups found okay
        (λ a. omega (arith, fewer a)) (λ a. omega (arith, gso.memberships a)) gso)

pub delete_group-Leaves :
    (id : Text) (s : State) → GroupsOk s.orchestration_groups → Leaves s (delete_group id s)
unfolding delete_group
delete_group-Leaves id s gso = bind-Leaves s (find_group id s.orchestration_groups) _ λ g found.
    stored-Leaves s g (without_group id s.orchestration_groups)
      (without_group-GroupsOk id s.orchestration_groups gso)

pub delete_group_if_unchanged-Leaves :
    (expected : OrchestrationGroup) (s : State)
    → GroupsOk s.orchestration_groups
    → Leaves s (delete_group_if_unchanged expected s)
unfolding delete_group_if_unchanged
delete_group_if_unchanged-Leaves expected s gso =
    bind-Leaves s (find_group expected.id s.orchestration_groups) _ λ g found.
      bind-Leaves s (require_unchanged g expected) _ λ u same.
        stored-Leaves s g (without_group expected.id s.orchestration_groups)
          (without_group-GroupsOk expected.id s.orchestration_groups gso)

-- The workers that are left have another session than the one promoted.
retained-MemberOk :
    (old session : ℕ) (ms : List OrchestrationMember)
    → All (MemberOk old) ms
    → All (MemberOk session) (retain (λ (m : OrchestrationMember). not (is_member session m)) ms)
retained-MemberOk old session [] h = tt
retained-MemberOk old session (m ∷ ms) (h, hs) =
    if_both (All (MemberOk session)) (not (is_member session m))
      (λ held. (
        record { other = ground (arith, held); capable = h.capable },
        retained-MemberOk old session ms hs,
      ))
      (λ lost. retained-MemberOk old session ms hs)

-- Leaving workers out leaves each session and each membership at most as often.
count-retain_members :
    (field : OrchestrationMember → ℕ) (p : OrchestrationMember → Bool) (a : ℕ)
    (ms : List OrchestrationMember)
    → count ◌==◌ a (map field (retain p ms)) ≤ count ◌==◌ a (map field ms)
count-retain_members field p a [] = omega arith
count-retain_members field p a (m ∷ ms) =
    if_both (λ ns. count ◌==◌ a (map field ns) ≤ count ◌==◌ a (map field (m ∷ ms))) (p m)
      (λ held. omega (arith, count-retain_members field p a ms))
      (λ lost. omega (arith, count-retain_members field p a ms))

pub reassign_orchestrator-Leaves :
    (expected : OrchestrationGroup) (session : ℕ) (s : State)
    → GroupsOk s.orchestration_groups
    → Leaves s (reassign_orchestrator expected session s)
unfolding reassign_orchestrator
reassign_orchestrator-Leaves expected session s gso =
    bind-Leaves s (find_group expected.id s.orchestration_groups) _ λ g found.
      bind-Leaves s (require_unchanged g expected) _ λ u same.
        bind-Leaves s (require_role_eligible_session s session) _ λ u e.
          let okay = find_group-All GroupOk expected.id s.orchestration_groups g found gso.each in
          let kept = λ (m : OrchestrationMember). not (is_member session m) in
          thinned-Leaves (promoted session g) expected.id (promoted session) g s refl found
            (thinned g (promoted session g) okay (length-retain-le kept g.workers)
              (retained-MemberOk g.orchestrator_session_id session g.workers okay.members)
              (λ a. count-retain_members (λ m. m.session_id) kept a g.workers))
            (λ a. count-retain_members (λ m. m.membership_id) kept a g.workers) gso

module _ (session : ℕ) where
  All-without_member :
      (P : OrchestrationMember → Type 0) (ms : List OrchestrationMember)
      → All P ms
      → All P (without_member session ms)
  unfolding without_member
  All-without_member P [] h = h
  All-without_member P (m ∷ ms) (h, hs) =
      if_both (All P) (is_member session m) (λ here. hs) (λ other. (h, All-without_member P ms hs))

  length-without_member :
      (ms : List OrchestrationMember) → length (without_member session ms) ≤ length ms
  unfolding without_member
  length-without_member [] = omega arith
  length-without_member (m ∷ ms) =
      if_both (λ (ns : List OrchestrationMember). length ns ≤ length (m ∷ ms)) (is_member session m)
        (λ here. omega arith) (λ other. omega (arith, length-without_member ms))

  count-without_member :
      (field : OrchestrationMember → ℕ) (a : ℕ) (ms : List OrchestrationMember)
      → count ◌==◌ a (map field (without_member session ms)) ≤ count ◌==◌ a (map field ms)
  unfolding without_member
  count-without_member field a [] = omega arith
  count-without_member field a (m ∷ ms) =
      if_both (λ ns. count ◌==◌ a (map field ns) ≤ count ◌==◌ a (map field (m ∷ ms)))
        (is_member session m) (λ here. omega arith)
        (λ other. omega (arith, count-without_member field a ms))

pub remove_worker-Leaves :
    (id : Text) (session : ℕ) (s : State)
    → GroupsOk s.orchestration_groups
    → Leaves s (remove_worker id session s)
unfolding remove_worker
remove_worker-Leaves id session s gso =
    bind-Leaves s (find_group id s.orchestration_groups) _ λ g found.
      bind-Leaves s (find_member session g.workers) _ λ m here.
        let okay = find_group-All GroupOk id s.orchestration_groups g found gso.each in
        thinned-Leaves m id (drop_worker session) g s refl found
          (thinned g (drop_worker session g) okay (length-without_member session g.workers)
            (All-without_member session (MemberOk g.orchestrator_session_id) g.workers okay.members)
            (λ a. count-without_member session (λ m. m.session_id) a g.workers))
          (λ a. count-without_member session (λ m. m.membership_id) a g.workers) gso
