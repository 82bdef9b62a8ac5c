-- ===== src/Groups/Replace.antt =====
-- src/orchestration.rs: replacing the workers of a group and adding one keep the groups in order.
use herdr_tether.Prelude.{
  ℕ, false, Option, List, [], ◌∷◌, ◌≡◌, refl, sym, ap, subst, arith, ◌==◌, leb, ite, length, count,
  any, All-append, length-append, Bool-cases, inl, inr, is_in, map-append_lem,
}
use herdr_tether.Prelude.Once.{count-append, count-is_in}
use herdr_tether.Prelude.Text.{Text}
use herdr_tether.Session.{
  OrchestrationMember, OrchestrationGroup, OrchestrationGroup-discrete, OrchestrationCapabilities,
  State,
}
use herdr_tether.Session.Validate.{has_no_capability, max_workers}
use herdr_tether.Groups.{
  Reply, ok, err, ◌>>◌, bail_if, WorkerSpec, with_groups, find_group, change_group, replace_workers,
  add_worker, push_worker, new_member, is_member, worker_members, require_unchanged,
  validate_worker_specs, require_role_eligible_session, require_new_eligible, stale_group,
  no_capability, orchestrator_as_worker, already_member, worker_limit,
}
use herdr_tether.Groups.Valid.{MemberOk, GroupOk, GroupsOk, sessions_of, memberships_of, eq_sound}
use herdr_tether.Groups.Members.{validate_worker_specs-SpecOk, count-worker_members, new_ids}
use herdr_tether.Groups.Lists.{find_group-All, find_group-count, change_group-GroupsOk}
use herdr_tether.Groups.Leaves.{
  Leaves, bind-Leaves, bail-Leaves, stored-Leaves, AllNew, members-GroupOk,
}

unchanged :
    (current expected : OrchestrationGroup) (d : Dec (current ≡ expected))
    → ◌≡◌ {A = Reply (Unit {0})} (ite d (ok tt) (err stale_group)) (ok tt)
    → current ≡ expected
unchanged current expected (yes e) h = e
unchanged current expected (no n) h = absurd (ground arith)

pub require_unchanged-eq :
    (current expected : OrchestrationGroup)
    → require_unchanged current expected ≡ ok tt
    → current ≡ expected
require_unchanged-eq current expected h =
    unchanged current expected (OrchestrationGroup-discrete current expected) h

unchanged_self :
    (g : OrchestrationGroup) (d : Dec (g ≡ g))
    → ◌≡◌ {A = Reply (Unit {0})} (ite d (ok tt) (err stale_group)) (ok tt)
unchanged_self g (yes e) = refl
unchanged_self g (no n) = absurd (n refl)

pub require_unchanged_self : (g : OrchestrationGroup) → require_unchanged g g ≡ ok tt
require_unchanged_self g = unchanged_self g (OrchestrationGroup-discrete g g)

any-sessions :
    (session : ℕ) (ms : List OrchestrationMember)
    → any (is_member session) ms ≡ false
    → is_in ◌==◌ (sessions_of ms) session ≡ false
any-sessions session [] h = refl
any-sessions session (m ∷ ms) h = ground (arith, any-sessions session ms)

module _ (fresh : ℕ → ℕ) where
  pub replace_workers-Leaves :
      (expected : OrchestrationGroup) (specs : List WorkerSpec) (s : State)
      → AllNew fresh s
      → GroupsOk s.orchestration_groups
      → Leaves s (replace_workers fresh expected specs s)
  unfolding replace_workers
  replace_workers-Leaves expected specs s new gso =
      bind-Leaves s (validate_worker_specs expected.orchestrator_session_id specs) _ λ u valid.
        bind-Leaves s (find_group expected.id s.orchestration_groups) _ λ g found.
          bind-Leaves s (require_unchanged g expected) _ λ u same.
            bind-Leaves s (require_new_eligible fresh s g.workers specs) _ λ u e.
              stored-Leaves s _ _ (replaced g (require_unchanged-eq g expected same) found valid)
    where
      replaced :
          (g : OrchestrationGroup)
          → g ≡ expected
          → find_group expected.id s.orchestration_groups ≡ ok g
          → validate_worker_specs expected.orchestrator_session_id specs ≡ ok tt
          → GroupsOk (
              change_group expected.id
                (λ h. record g { workers = worker_members fresh 0 g.workers specs })
                s.orchestration_groups)
      replaced g same found valid =
          let gs = s.orchestration_groups in
          change_group-GroupsOk expected.id
            (λ h. record g { workers = worker_members fresh 0 g.workers specs }) g refl
            (λ a. count ◌==◌ a (new_ids fresh 0 (length specs))) gs found
            (members-GroupOk fresh g g.workers specs (
              subst
                (λ (h : OrchestrationGroup).
                  validate_worker_specs h.orchestrator_session_id specs ≡ ok tt)
                (sym same) valid))
            (λ a.
              count-worker_members fresh g.workers specs a
                (validate_worker_specs-SpecOk expected.orchestrator_session_id specs valid).2
                (omega (arith, find_group-count expected.id gs g a found, gso.memberships a)))
            (λ a. omega (arith, new (length specs) a)) gso

  added :
      (g : OrchestrationGroup) (m : OrchestrationMember)
      → GroupOk g
      → MemberOk g.orchestrator_session_id m
      → any (is_member m.session_id) g.workers ≡ false
      → leb max_workers (length g.workers) ≡ false
      → GroupOk (push_worker m g)
  added g m okay mok absent room = record {
    few = ground (arith, length-append g.workers (m ∷ []), room);
    members =
        All-append (MemberOk g.orchestrator_session_id) g.workers (m ∷ []) okay.members (mok, tt);
    distinct = λ a.
        rw (map-append_lem (λ (n : OrchestrationMember). n.session_id) g.workers (m ∷ [])) (
          rw (count-append ◌==◌ a (sessions_of g.workers) (m.session_id ∷ []))
            (elim (Bool-cases (m.session_id == a)) [
              | inl same ↦
                  let none_yet =
                    count-is_in ◌==◌ m.session_id (sessions_of g.workers)
                      (any-sessions m.session_id g.workers absent) in
                  let moved =
                    ap (λ t. count ◌==◌ t (sessions_of g.workers)) (eq_sound m.session_id a same) in
                  rw same (omega (arith, none_yet, moved))
              | inr other ↦ rw other (omega (arith, okay.distinct a))
            ]));
  }

  -- The end of `add_worker`, once the group is found.
  place_worker-Leaves :
      (id : Text) (m : OrchestrationMember) (s : State) (g : OrchestrationGroup)
      → m.membership_id ≡ fresh 0
      → has_no_capability m.capabilities ≡ false
      → find_group id s.orchestration_groups ≡ ok g
      → AllNew fresh s
      → GroupsOk s.orchestration_groups
      → Leaves s (
          bail_if (g.orchestrator_session_id == m.session_id) orchestrator_as_worker
          >> (bail_if (any (is_member m.session_id) g.workers) already_member
              >> (bail_if (leb max_workers (length g.workers)) worker_limit
                  >> ok
                      (m, with_groups s (change_group id (push_worker m) s.orchestration_groups)))))
  place_worker-Leaves id m s g named capable found new gso =
      bail-Leaves s (g.orchestrator_session_id == m.session_id) orchestrator_as_worker _ λ other.
        bail-Leaves s (any (is_member m.session_id) g.workers) already_member _ λ absent.
          bail-Leaves s (leb max_workers (length g.workers)) worker_limit _ λ room.
            stored-Leaves s m (change_group id (push_worker m) s.orchestration_groups) (
              change_group-GroupsOk id (push_worker m) g refl
                (λ a. count ◌==◌ a (new_ids fresh 0 1)) s.orchestration_groups found
                (added g m (find_group-All GroupOk id s.orchestration_groups g found gso.each)
                  (record { other = ground (arith, other); capable = capable }) absent room)
                (λ a.
                  rw
                    (map-append_lem (λ (n : OrchestrationMember). n.membership_id) g.workers
                      (m ∷ []))
                    (rw named (
                      omega
                        (arith, count-append ◌==◌ a (memberships_of g.workers) (fresh 0 ∷ [])))))
                (λ a. omega (arith, new 1 a)) gso)

  pub add_worker-Leaves :
      (id : Text) (session : ℕ) (title : Option Text) (capabilities : OrchestrationCapabilities)
      (s : State)
      → AllNew fresh s
      → GroupsOk s.orchestration_groups
      → Leaves s (add_worker fresh id session title capabilities s)
  unfolding add_worker
  add_worker-Leaves id session title capabilities s new gso =
      bail-Leaves s (has_no_capability capabilities) no_capability _ λ capable.
        bind-Leaves s (require_role_eligible_session s session) _ λ u e.
          bind-Leaves s (find_group id s.orchestration_groups) _ λ g found.
            place_worker-Leaves id (new_member (fresh 0) session title capabilities) s g refl
              capable found new gso
