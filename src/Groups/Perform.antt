-- ===== src/Groups/Perform.antt =====
-- src/orchestration.rs: a request is one call of an operation, and every operation leaves a state
-- that the save accepts. The requests that name an expected group are refused where it has changed.
use herdr_tether.Prelude.{
  ℕ, suc, Option, none, some, List, [], ◌∷◌, ◌≡◌, refl, sym, ap, subst, ◌∙◌, arith, ◌==◌,
  if◌then◌else◌, is_in, Bool-cases, Option-cases, inl, inr,
}
use herdr_tether.Prelude.Text.{Text}
use herdr_tether.Session.{OrchestrationGroup, OrchestrationMember, OrchestrationCapabilities, State}
use herdr_tether.Session.Validate.{validate}
use herdr_tether.Groups.{
  Reply, ok, err, ◌>>=◌, ◌>>◌, WorkerSpec, find_group, create_group, create_group_with_workers,
  replace_workers, add_worker, delete_group, delete_group_if_unchanged, reassign_orchestrator,
  remove_worker, membership_of, worker_members, require_unchanged, require_new_eligible,
  validate_worker_specs,
}
use herdr_tether.Groups.Valid.{GroupsOk, RestOk, validate_iff, eq_sound}
use herdr_tether.Groups.Members.{>>=-eq-ok, spec_sessions}
use herdr_tether.Groups.Leaves.{
  Leaves, AllNew, create_group-Leaves, create_group_with_workers-Leaves,
}
use herdr_tether.Groups.Replace.{replace_workers-Leaves, add_worker-Leaves, require_unchanged-eq}
use herdr_tether.Groups.Remove.{
  delete_group-Leaves, delete_group_if_unchanged-Leaves, reassign_orchestrator-Leaves,
  remove_worker-Leaves,
}

pub data GroupRequest : Type 0 where
  create : Text → Text → ℕ → GroupRequest
  create_with : Text → Text → ℕ → List WorkerSpec → GroupRequest
  replace : OrchestrationGroup → List WorkerSpec → GroupRequest
  add : Text → ℕ → Option Text → OrchestrationCapabilities → GroupRequest
  remove : Text → ℕ → GroupRequest
  reassign : OrchestrationGroup → ℕ → GroupRequest
  delete : Text → GroupRequest
  delete_if : OrchestrationGroup → GroupRequest

-- The state that a reply leaves.
abbrev pub left_by {ℓ} : {A : Type ℓ} → Reply (A × State) → Reply State
left_by (ok (a, t)) = ok t
left_by (err e) = err e

unfoldable pub perform : (ℕ → ℕ) → GroupRequest → State → Reply State
perform fresh (create id title orchestrator) s = left_by (create_group id title orchestrator s)
perform fresh (create_with id title orchestrator specs) s =
    left_by (create_group_with_workers fresh id title orchestrator specs s)
perform fresh (replace expected specs) s = left_by (replace_workers fresh expected specs s)
perform fresh (add id session title capabilities) s =
    left_by (add_worker fresh id session title capabilities s)
perform fresh (remove id session) s = left_by (remove_worker id session s)
perform fresh (reassign expected session) s = left_by (reassign_orchestrator expected session s)
perform fresh (delete id) s = left_by (delete_group id s)
perform fresh (delete_if expected) s = left_by (delete_group_if_unchanged expected s)

-- The group that a request expects unchanged.
abbrev pub Expects : GroupRequest → OrchestrationGroup → Type 0
Expects (replace expected specs) g = expected ≡ g
Expects (reassign expected session) g = expected ≡ g
Expects (delete_if expected) g = expected ≡ g
Expects _ g = ⊥

state_eq : {s t : State} → ◌≡◌ {A = Reply State} (ok s) (ok t) → s ≡ t
state_eq h = cc

left_by-Leaves {ℓ} :
    {A : Type ℓ} (s t : State) (m : Reply (A × State))
    → Leaves s m
    → left_by m ≡ ok t
    → (t.version ≡ s.version) × (t.sessions ≡ s.sessions) × GroupsOk t.orchestration_groups
unfolding Leaves
left_by-Leaves s t (ok (a, t')) h e =
    subst
      (λ (u : State).
        (u.version ≡ s.version) × (u.sessions ≡ s.sessions) × GroupsOk u.orchestration_groups)
      (state_eq e) h
left_by-Leaves s t (err x) h e = absurd (ground arith)

perform-Leaves :
    (fresh : ℕ → ℕ) (req : GroupRequest) (s t : State)
    → AllNew fresh s
    → GroupsOk s.orchestration_groups
    → perform fresh req s ≡ ok t
    → (t.version ≡ s.version) × (t.sessions ≡ s.sessions) × GroupsOk t.orchestration_groups
unfolding perform
perform-Leaves fresh (create id title o) s t new gso e =
    left_by-Leaves s t (create_group id title o s) (create_group-Leaves id title o s gso) e
perform-Leaves fresh (create_with id title o specs) s t new gso e =
    left_by-Leaves s t (create_group_with_workers fresh id title o specs s)
      (create_group_with_workers-Leaves fresh id title o specs s new gso) e
perform-Leaves fresh (replace expected specs) s t new gso e =
    left_by-Leaves s t (replace_workers fresh expected specs s)
      (replace_workers-Leaves fresh expected specs s new gso) e
perform-Leaves fresh (add id session title c) s t new gso e =
    left_by-Leaves s t (add_worker fresh id session title c s)
      (add_worker-Leaves fresh id session title c s new gso) e
perform-Leaves fresh (remove id session) s t new gso e =
    left_by-Leaves s t (remove_worker id session s) (remove_worker-Leaves id session s gso) e
perform-Leaves fresh (reassign expected session) s t new gso e =
    left_by-Leaves s t (reassign_orchestrator expected session s)
      (reassign_orchestrator-Leaves expected session s gso) e
perform-Leaves fresh (delete id) s t new gso e =
    left_by-Leaves s t (delete_group id s) (delete_group-Leaves id s gso) e
perform-Leaves fresh (delete_if expected) s t new gso e =
    left_by-Leaves s t (delete_group_if_unchanged expected s)
      (delete_group_if_unchanged-Leaves expected s gso) e

rest_of : (s t : State) → t.version ≡ s.version → t.sessions ≡ s.sessions → RestOk s → RestOk t
rest_of s t version sessions rest = record {
  version = rw version rest.version;
  few = rw sessions rest.few;
  sessions = rw sessions rest.sessions;
}

-- A request that succeeds on a valid state, with new memberships, leaves a valid state with the same
-- sessions.
pub perform-valid :
    (fresh : ℕ → ℕ) (req : GroupRequest) (s t : State)
    → validate s ≡ none
    → AllNew fresh s
    → perform fresh req s ≡ ok t
    → (validate t ≡ none) × (t.sessions ≡ s.sessions)
perform-valid fresh req s t valid new e =
    let (rest, groups) = (validate_iff s).0 valid in
    let (version, sessions, gso) = perform-Leaves fresh req s t new groups e in
    ((validate_iff t).1 (rest_of s t version sessions rest, gso), sessions)

left_by-eq-ok {ℓ} :
    {A : Type ℓ} (m : Reply (A × State)) (t : State)
    → left_by m ≡ ok t
    → (r : A × State) × (m ≡ ok r)
left_by-eq-ok (ok r) t e = (r, refl)
left_by-eq-ok (err x) t e = absurd (ground arith)

-- The stored group is looked up and compared before anything else is done with it.
compared {ℓ} :
    {B : Type ℓ} (expected : OrchestrationGroup) (gs : List OrchestrationGroup)
    (k : OrchestrationGroup → Reply B) (b : B)
    → (find_group expected.id gs >>= λ g. require_unchanged g expected >> k g) ≡ ok b
    → find_group expected.id gs ≡ ok expected
compared expected gs k b e =
    let (g, found, rest) = >>=-eq-ok (find_group expected.id gs) _ e in
    let (u, same, last) = >>=-eq-ok (require_unchanged g expected) _ rest in
    found ∙ ap ok (require_unchanged-eq g expected same)

-- A request that expects a group succeeds only where the group stored under its name is that group.
pub perform-unchanged :
    (fresh : ℕ → ℕ) (req : GroupRequest) (expected : OrchestrationGroup) (s t : State)
    → Expects req expected
    → perform fresh req s ≡ ok t
    → find_group expected.id s.orchestration_groups ≡ ok expected
unfolding perform replace_workers reassign_orchestrator delete_group_if_unchanged
perform-unchanged fresh (create id title o) expected s t expects e = absurd expects
perform-unchanged fresh (create_with id title o specs) expected s t expects e = absurd expects
perform-unchanged fresh (add id session title c) expected s t expects e = absurd expects
perform-unchanged fresh (remove id session) expected s t expects e = absurd expects
perform-unchanged fresh (delete id) expected s t expects e = absurd expects
perform-unchanged fresh (replace g specs) expected s t expects e =
    let (r, done) = left_by-eq-ok (replace_workers fresh g specs s) t e in
    let (u, valid, rest) =
      >>=-eq-ok (validate_worker_specs g.orchestrator_session_id specs) _ done in
    subst (λ (h : OrchestrationGroup). find_group h.id s.orchestration_groups ≡ ok h) expects
      (compared g s.orchestration_groups _ r rest)
perform-unchanged fresh (reassign g session) expected s t expects e =
    let (r, done) = left_by-eq-ok (reassign_orchestrator g session s) t e in
    subst (λ (h : OrchestrationGroup). find_group h.id s.orchestration_groups ≡ ok h) expects
      (compared g s.orchestration_groups _ r done)
perform-unchanged fresh (delete_if g) expected s t expects e =
    let (r, done) = left_by-eq-ok (delete_group_if_unchanged g s) t e in
    subst (λ (h : OrchestrationGroup). find_group h.id s.orchestration_groups ≡ ok h) expects
      (compared g s.orchestration_groups _ r done)

module _ (fresh : ℕ → ℕ) (existing : List OrchestrationMember) (x m : ℕ)
    (held : membership_of existing x ≡ some m) where
  kept_membership :
      (k : ℕ) (ws : List WorkerSpec)
      → membership_of (worker_members fresh k existing ws) x
        ≡ (if is_in ◌==◌ (spec_sessions ws) x then some m else none)
  unfolding worker_members
  kept_membership k [] = refl
  kept_membership k (w ∷ ws) = elim (Bool-cases (w.session_id == x)) [
    | inl here ↦
        let mine = ap (membership_of existing) (eq_sound w.session_id x here) ∙ held in
        rw (mine, worker_members) (rw (kept_membership k ws, here) (ground arith))
    | inr other ↦ elim (Option-cases (membership_of existing w.session_id)) [
      | inl new ↦ rw (new, worker_members) (rw (kept_membership (suc k) ws, other) (ground arith))
      | inr (n, old) ↦ rw (old, worker_members) (rw (kept_membership k ws, other) (ground arith))
    ]
  ]

reply_group :
    {g h : OrchestrationGroup} {s t : State}
    → ◌≡◌ {A = Reply (OrchestrationGroup × State)} (ok (g, s)) (ok (h, t))
    → g.workers ≡ h.workers
reply_group h = cc

-- Where the workers of a group are replaced, a session that was one of them keeps its membership if
-- it is specified again, and has none if it is not.
pub replace_workers-membership :
    (fresh : ℕ → ℕ) (expected g : OrchestrationGroup) (specs : List WorkerSpec) (s t : State)
    (x m : ℕ)
    → replace_workers fresh expected specs s ≡ ok (g, t)
    → membership_of expected.workers x ≡ some m
    → membership_of g.workers x ≡ (if is_in ◌==◌ (spec_sessions specs) x then some m else none)
unfolding replace_workers
replace_workers-membership fresh expected g specs s t x m e held =
    let (u, valid, rest) =
      >>=-eq-ok (validate_worker_specs expected.orchestrator_session_id specs) _ e in
    let (h, found, more) = >>=-eq-ok (find_group expected.id s.orchestration_groups) _ rest in
    let (v, same, last) = >>=-eq-ok (require_unchanged h expected) _ more in
    let (w, eligible, done) = >>=-eq-ok (require_new_eligible fresh s h.workers specs) _ last in
    let unchanged = require_unchanged-eq h expected same in
    let workers = reply_group done in
    rw (sym workers) (kept_membership fresh h.workers x m (rw unchanged held) 0 specs)
