-- ===== src/Groups/Leaves.antt =====
-- src/orchestration.rs: what an operation on the groups leaves, with the two creations of a group.
use herdr_tether.Prelude.{
  ℕ, ◌≤◌, ◌+◌, Bool, true, false, List, [], ◌≡◌, refl, sym, ap, subst, arith, ◌==◌, length, count,
  length-map,
}
use herdr_tether.Prelude.Once.{Once}
use herdr_tether.Prelude.Text.{Text}
use herdr_tether.Session.{OrchestrationMember, OrchestrationGroup, State}
use herdr_tether.Groups.{
  GroupError, Reply, ok, err, ◌>>=◌, ◌>>◌, bail_if, WorkerSpec, with_groups, push_group,
  create_group, create_group_with_workers, worker_members, validate_worker_specs,
  require_role_eligible_session, require_all_eligible,
}
use herdr_tether.Groups.Valid.{GroupOk, GroupsOk, memberships_of, all_memberships}
use herdr_tether.Groups.Members.{
  validate_worker_specs-SpecOk, worker_members-sessions, worker_members-MemberOk,
  count-worker_members, new_ids,
}
use herdr_tether.Groups.Lists.{push-GroupsOk}

-- The groups of a state that an operation leaves are in order, and the rest is as it was.
unfoldable pub Leaves {ℓ} : {A : Type ℓ} → State → Reply (A × State) → Type 0
Leaves s (err e) = Unit
Leaves s (ok (a, t)) =
    (t.version ≡ s.version) × (t.sessions ≡ s.sessions) × GroupsOk t.orchestration_groups

-- After a step that succeeds, or after one that fails.
pub bind-Leaves {ℓ κ} :
    {A : Type ℓ} {B : Type κ} (s : State) (m : Reply A) (k : A → Reply (B × State))
    → ((a : A) → m ≡ ok a → Leaves s (k a))
    → Leaves s (m >>= k)
unfolding Leaves
bind-Leaves s (ok a) k h = h a refl
bind-Leaves s (err e) k h = tt

pub bail-Leaves {ℓ} :
    {B : Type ℓ} (s : State) (b : Bool) (e : GroupError) (k : Reply (B × State))
    → (b ≡ false → Leaves s k)
    → Leaves s (bail_if b e >> k)
unfolding Leaves
bail-Leaves s true e k h = tt
bail-Leaves s false e k h = h refl

pub stored-Leaves {ℓ} :
    {A : Type ℓ} (s : State) (a : A) (gs : List OrchestrationGroup)
    → GroupsOk gs
    → Leaves s (ok (a, with_groups s gs))
unfolding Leaves
stored-Leaves s a gs h = (refl, refl, h)

pub push_group-Leaves :
    (g : OrchestrationGroup) (s : State)
    → GroupsOk s.orchestration_groups
    → GroupOk g
    → ((a : ℕ)
        → count ◌==◌ a (all_memberships s.orchestration_groups)
            + count ◌==◌ a (memberships_of g.workers)
          ≤ 1)
    → Leaves s (push_group g s)
unfolding push_group
push_group-Leaves g s gso okay free = bail-Leaves s _ _ _ λ new.
    bail-Leaves s _ _ _
      λ room. stored-Leaves s g _ (push-GroupsOk g s.orchestration_groups new room okay free gso)

pub create_group-Leaves :
    (id title : Text) (orchestrator : ℕ) (s : State)
    → GroupsOk s.orchestration_groups
    → Leaves s (create_group id title orchestrator s)
unfolding create_group
create_group-Leaves id title orchestrator s gso =
    bind-Leaves s (require_role_eligible_session s orchestrator) _ λ u e.
      push_group-Leaves _ s gso
        (record { few = omega arith; members = tt; distinct = λ a. omega arith })
        (λ a. omega (arith, gso.memberships a))

-- The memberships that an operation makes are new: no group has them, and no two are the same.
abbrev pub AllNew : (ℕ → ℕ) → State → Type 0
AllNew fresh s =
    (n a : ℕ)
    → count ◌==◌ a (new_ids fresh 0 n) + count ◌==◌ a (all_memberships s.orchestration_groups) ≤ 1

-- The members that accepted specifications become are in order.
pub members-GroupOk :
    (fresh : ℕ → ℕ) (g : OrchestrationGroup) (existing : List OrchestrationMember)
    (specs : List WorkerSpec)
    → validate_worker_specs g.orchestrator_session_id specs ≡ ok tt
    → GroupOk (record g { workers = worker_members fresh 0 existing specs })
members-GroupOk fresh g existing specs valid =
    let (few, oks, distinct) = validate_worker_specs-SpecOk g.orchestrator_session_id specs valid in
    let sessions = worker_members-sessions fresh existing 0 specs in
    record {
      few = omega (
        arith,
        few,
        ap (λ (xs : List ℕ). length xs) sessions,
        length-map (λ (m : OrchestrationMember). m.session_id)
            (worker_members fresh 0 existing specs),
        length-map (λ (w : WorkerSpec). w.session_id) specs,
      );
      members = worker_members-MemberOk fresh existing g.orchestrator_session_id 0 specs oks;
      distinct = subst (Once ◌==◌) (sym sessions) distinct;
    }

module _ (fresh : ℕ → ℕ) where
  pub create_group_with_workers-Leaves :
      (id title : Text) (orchestrator : ℕ) (specs : List WorkerSpec) (s : State)
      → AllNew fresh s
      → GroupsOk s.orchestration_groups
      → Leaves s (create_group_with_workers fresh id title orchestrator specs s)
  unfolding create_group_with_workers
  create_group_with_workers-Leaves id title orchestrator specs s new gso =
      bind-Leaves s (validate_worker_specs orchestrator specs) _ λ u valid.
        bind-Leaves s (require_role_eligible_session s orchestrator) _ λ u e.
          bind-Leaves s (require_all_eligible s specs) _ λ u e.
            push_group-Leaves _ s gso
              (members-GroupOk fresh
                (record {
                  id = id;
                  title = title;
                  orchestrator_session_id = orchestrator;
                  workers = [];
                })
                [] specs valid)
              (λ a. omega (
                arith,
                new (length specs) a,
                count-worker_members fresh [] specs a
                    (validate_worker_specs-SpecOk orchestrator specs valid).2 (omega arith),
              ))
