-- ===== src/Groups.antt =====
-- src/orchestration.rs: `OrchestrationService`, the operations on observer groups. Each is the check
-- before the lock and the closure under it, on the state that the closure has loaded. The k-th new
-- `OrchestrationMembershipId` of an operation is `fresh k`.
pub mod Valid
pub mod Members
pub mod Lists
pub mod Leaves
pub mod Replace
pub mod Remove
pub mod Perform
pub mod Plan
pub mod Applied
use herdr_tether.Prelude.{
  ℕ, suc, Bool, true, false, not, ◌&&◌, Option, none, some, List, [], ◌∷◌, ◌++◌, if◌then◌else◌, ite,
  ◌==◌, ltb, leb, length, contains, any, is_some, retain, map, or_else,
}
use herdr_tether.Prelude.Text.{Text, text_eq}
use herdr_tether.Session.{
  SessionStatus, SessionRecord, OrchestrationCapabilities, OrchestrationMember, OrchestrationGroup,
  OrchestrationGroup-discrete, State,
}
use herdr_tether.Session.Validate.{has_no_capability, max_workers, max_orchestration_groups}

pub data GroupError : Type 0 where
  group_exists group_limit stale_group unknown_group ineligible orchestrator_as_worker : GroupError
  already_member worker_limit not_a_member too_many_workers duplicate_worker : GroupError
  no_capability : GroupError

pub data Reply {ℓ} (A : Type ℓ) : Type ℓ where
  ok : A → Reply A
  err : GroupError → Reply A

-- `?`
infixl 5 ◌>>=◌
abbrev pub ◌>>=◌ {ℓ κ} : {A : Type ℓ} {B : Type κ} → Reply A → (A → Reply B) → Reply B
reply >>= next = elim reply [ ok a ↦ next a | err e ↦ err e ]

infixl 5 ◌>>◌
abbrev pub ◌>>◌ {κ} : {B : Type κ} → Reply (Unit {0}) → Reply B → Reply B
test >> next = test >>= λ passed. next

-- `if test { bail!(e) }`
abbrev pub bail_if : Bool → GroupError → Reply (Unit {0})
bail_if true e = err e
bail_if false e = ok tt

pub record WorkerSpec : Type 0 where
  pub session_id : ℕ
  pub title : Option Text
  pub capabilities : OrchestrationCapabilities

abbrev pub is_running : SessionStatus → Bool
is_running SessionStatus.running = true
is_running _ = false

abbrev pub is_role_eligible : SessionRecord → Bool
is_role_eligible r = is_running r.status && is_some r.ownership_proof && is_some r.tmux_session_id

unfoldable pub require_role_eligible_session : State → ℕ → Reply (Unit {0})
require_role_eligible_session s id =
    bail_if (not (any (λ (r : SessionRecord). r.id == id && is_role_eligible r) s.sessions))
      ineligible

-- The loop over the specifications, with the identifiers met before.
unfoldable pub check_specs : ℕ → List ℕ → List WorkerSpec → Reply (Unit {0})
check_specs orchestrator seen [] = ok tt
check_specs orchestrator seen (w ∷ ws) = do
  bail_if (w.session_id == orchestrator) orchestrator_as_worker
  bail_if (contains seen w.session_id) duplicate_worker
  bail_if (has_no_capability w.capabilities) no_capability
  check_specs orchestrator (w.session_id ∷ seen) ws

unfoldable pub validate_worker_specs : ℕ → List WorkerSpec → Reply (Unit {0})
unfolding check_specs
validate_worker_specs orchestrator specs = do
  bail_if (ltb max_workers (length specs)) too_many_workers
  check_specs orchestrator [] specs

-- The membership that a session has, the last of several.
abbrev pub membership_of : List OrchestrationMember → ℕ → Option ℕ
membership_of [] id = none
membership_of (m ∷ ms) id =
    or_else (membership_of ms id) (if m.session_id == id then some m.membership_id else none)

abbrev pub member_of : ℕ → WorkerSpec → OrchestrationMember
member_of membership w = record {
  session_id = w.session_id;
  membership_id = membership;
  title = w.title;
  capabilities = w.capabilities;
}

-- `worker_members`: a session keeps its membership, and another gets the next new one.
unfoldable pub worker_members :
    (ℕ → ℕ) → ℕ → List OrchestrationMember → List WorkerSpec → List OrchestrationMember
worker_members fresh k existing [] = []
worker_members fresh k existing (w ∷ ws) = elim (membership_of existing w.session_id) [
  | none ↦ member_of (fresh k) w ∷ worker_members fresh (suc k) existing ws
  | some membership ↦ member_of membership w ∷ worker_members fresh k existing ws
]

abbrev pub with_groups : State → List OrchestrationGroup → State
with_groups s gs = record s { orchestration_groups = gs }

abbrev pub is_group : Text → OrchestrationGroup → Bool
is_group id g = text_eq g.id id

-- `position` and `groups[index]`, `remove(index)`: the first group of a name, and the others.
unfoldable pub find_group : Text → List OrchestrationGroup → Reply OrchestrationGroup
find_group id [] = err unknown_group
find_group id (g ∷ gs) = let later = find_group id gs in if is_group id g then ok g else later

unfoldable pub without_group : Text → List OrchestrationGroup → List OrchestrationGroup
without_group id [] = []
without_group id (g ∷ gs) = let rest = without_group id gs in if is_group id g then gs else g ∷ rest

unfoldable pub change_group :
    Text
    → (OrchestrationGroup → OrchestrationGroup)
    → List OrchestrationGroup
    → List OrchestrationGroup
change_group id change [] = []
change_group id change (g ∷ gs) =
    let rest = change_group id change gs in if is_group id g then change g ∷ gs else g ∷ rest

abbrev pub require_unchanged : OrchestrationGroup → OrchestrationGroup → Reply (Unit {0})
require_unchanged current expected =
    ite (OrchestrationGroup-discrete current expected) (ok tt) (err stale_group)

-- The end of both creations.
unfoldable pub push_group : OrchestrationGroup → State → Reply (OrchestrationGroup × State)
push_group g s = do
  bail_if (any (is_group g.id) s.orchestration_groups) group_exists
  bail_if (leb max_orchestration_groups (length s.orchestration_groups)) group_limit
  ok (g, with_groups s (s.orchestration_groups ++ g ∷ []))

unfoldable pub create_group : Text → Text → ℕ → State → Reply (OrchestrationGroup × State)
unfolding require_role_eligible_session push_group
create_group id title orchestrator s = do
  require_role_eligible_session s orchestrator
  push_group
      (record { id = id; title = title; orchestrator_session_id = orchestrator; workers = [] }) s

unfoldable pub require_all_eligible : State → List WorkerSpec → Reply (Unit {0})
unfolding require_role_eligible_session
require_all_eligible s [] = ok tt
require_all_eligible s (w ∷ ws) = do
  require_role_eligible_session s w.session_id
  require_all_eligible s ws

abbrev pub is_member : ℕ → OrchestrationMember → Bool
is_member session m = m.session_id == session

abbrev pub push_worker : OrchestrationMember → OrchestrationGroup → OrchestrationGroup
push_worker m g = record g { workers = g.workers ++ m ∷ [] }

abbrev pub new_member : ℕ → ℕ → Option Text → OrchestrationCapabilities → OrchestrationMember
new_member membership session title capabilities = record {
  session_id = session;
  membership_id = membership;
  title = title;
  capabilities = capabilities;
}

module _ (fresh : ℕ → ℕ) where
  unfoldable pub create_group_with_workers :
      Text → Text → ℕ → List WorkerSpec → State → Reply (OrchestrationGroup × State)
  unfolding validate_worker_specs require_role_eligible_session require_all_eligible push_group
  create_group_with_workers id title orchestrator specs s = do
    validate_worker_specs orchestrator specs
    require_role_eligible_session s orchestrator
    require_all_eligible s specs
    push_group
        (record {
          id = id;
          title = title;
          orchestrator_session_id = orchestrator;
          workers = worker_members fresh 0 [] specs;
        })
        s

  -- Only a worker that the group does not have yet must be eligible.
  unfoldable pub require_new_eligible :
      State → List OrchestrationMember → List WorkerSpec → Reply (Unit {0})
  unfolding require_role_eligible_session
  require_new_eligible s existing [] = ok tt
  require_new_eligible s existing (w ∷ ws) = do
    if any (λ (m : OrchestrationMember). m.session_id == w.session_id) existing
        then ok tt
        else require_role_eligible_session s w.session_id
    require_new_eligible s existing ws

  unfoldable pub replace_workers :
      OrchestrationGroup → List WorkerSpec → State → Reply (OrchestrationGroup × State)
  unfolding validate_worker_specs find_group require_new_eligible worker_members change_group
  replace_workers expected specs s = do
    validate_worker_specs expected.orchestrator_session_id specs
    current ← find_group expected.id s.orchestration_groups
    require_unchanged current expected
    require_new_eligible s current.workers specs
    let replaced = record current { workers = worker_members fresh 0 current.workers specs }
    ok (replaced, with_groups s (change_group expected.id (λ g. replaced) s.orchestration_groups))

  unfoldable pub add_worker :
      Text
      → ℕ
      → Option Text
      → OrchestrationCapabilities
      → State
      → Reply (OrchestrationMember × State)
  unfolding require_role_eligible_session find_group change_group
  add_worker id session title capabilities s = do
    bail_if (has_no_capability capabilities) no_capability
    require_role_eligible_session s session
    g ← find_group id s.orchestration_groups
    bail_if (g.orchestrator_session_id == session) orchestrator_as_worker
    bail_if (any (is_member session) g.workers) already_member
    bail_if (leb max_workers (length g.workers)) worker_limit
    let worker = new_member (fresh 0) session title capabilities
    ok (worker, with_groups s (change_group id (push_worker worker) s.orchestration_groups))

unfoldable pub delete_group : Text → State → Reply (OrchestrationGroup × State)
unfolding find_group without_group
delete_group id s = do
  g ← find_group id s.orchestration_groups
  ok (g, with_groups s (without_group id s.orchestration_groups))

unfoldable pub delete_group_if_unchanged :
    OrchestrationGroup → State → Reply (OrchestrationGroup × State)
unfolding find_group without_group
delete_group_if_unchanged expected s = do
  g ← find_group expected.id s.orchestration_groups
  require_unchanged g expected
  ok (g, with_groups s (without_group expected.id s.orchestration_groups))

abbrev pub promoted : ℕ → OrchestrationGroup → OrchestrationGroup
promoted session g = record g {
  orchestrator_session_id = session;
  workers = retain (λ (m : OrchestrationMember). not (is_member session m)) g.workers;
}

unfoldable pub reassign_orchestrator :
    OrchestrationGroup → ℕ → State → Reply (OrchestrationGroup × State)
unfolding require_role_eligible_session find_group change_group
reassign_orchestrator expected session s = do
  g ← find_group expected.id s.orchestration_groups
  require_unchanged g expected
  require_role_eligible_session s session
  ok (
    promoted session g,
    with_groups s (change_group expected.id (promoted session) s.orchestration_groups),
  )

-- `position` and `remove(index)` of a worker.
unfoldable pub find_member : ℕ → List OrchestrationMember → Reply OrchestrationMember
find_member session [] = err not_a_member
find_member session (m ∷ ms) =
    let later = find_member session ms in if is_member session m then ok m else later

unfoldable pub without_member : ℕ → List OrchestrationMember → List OrchestrationMember
without_member session [] = []
without_member session (m ∷ ms) =
    let rest = without_member session ms in if is_member session m then ms else m ∷ rest

abbrev pub drop_worker : ℕ → OrchestrationGroup → OrchestrationGroup
unfolding without_member
drop_worker session g = record g { workers = without_member session g.workers }

unfoldable pub remove_worker : Text → ℕ → State → Reply (OrchestrationMember × State)
unfolding find_group change_group find_member drop_worker
remove_worker id session s = do
  g ← find_group id s.orchestration_groups
  m ← find_member session g.workers
  ok (m, with_groups s (change_group id (drop_worker session) s.orchestration_groups))
