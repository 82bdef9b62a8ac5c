-- ===== src/Manager/Composed.antt =====
-- src/observer_manager.rs and src/orchestration.rs: a run of the manager that ends in a creation asks
-- for one that the service carries out.
use herdr_tether.Prelude.{
  ℕ, ◌≤◌, ◌<◌, false, Option, none, some, List, [], ◌∷◌, ◌++◌, ◌≡◌, refl, sym, ap, subst, ◌∙◌,
  arith, ◌==◌, leb, length, any, All, All-retain_lem, retain, map, count, some_eq,
}
use herdr_tether.Prelude.Once.{Fresh, Fresh-cons, Fresh-nil}
use herdr_tether.Prelude.Text.{Text}
use herdr_tether.Session.{SessionRecord, OrchestrationGroup, State}
use herdr_tether.Session.Validate.{
  validate, validate_sessions, max_workers, max_orchestration_groups,
}
use herdr_tether.Groups.{
  ok, WorkerSpec, validate_worker_specs, require_role_eligible_session, require_all_eligible,
  push_group, worker_members, with_groups, create_group_with_workers, is_group,
}
use herdr_tether.Groups.Valid.{validate_iff, eq_sound, eq_self}
use herdr_tether.Manager.{
  Event, Action, continue, act, Candidate, ReviewKind, Manager, is_candidate, is_selected, spec_of,
  selected_worker_specs,
}
use herdr_tether.Manager.Operations.{replace_action, review_action, review_action_of, not_session}
use herdr_tether.Manager.Handle.{Handled, handle, run, after}
use herdr_tether.Manager.Open.{from_state}
use herdr_tether.Manager.Open.Total.{IsOf, ids_of, from_state-opens}
use herdr_tether.Manager.Calm.{Creating, OnReview, OnScreen, Calm}
use herdr_tether.Manager.Calm.Run.{handle-Goes}
use herdr_tether.Manager.Asked.{Asked, handle-Asked}
use herdr_tether.Manager.Accepted.{
  validate_worker_specs-accepts, role_eligible, find-All, Offered, offered, specs-SpecOk,
  specs-eligible, specs-sessions, count-retain_ids,
}
use herdr_tether.Manager.Calm.Handle.{create_action-eq}
use herdr_tether.Manager.Calm.{Goes}
use herdr_tether.Session.Validate.WellFormed.{or_else-none}
use herdr_tether.Groups.Valid.{reject_if-none}

abbrev record_ids : List SessionRecord → List ℕ
record_ids rs = map (λ (r : SessionRecord). r.id) rs

sessions_once :
    (seen : List ℕ) (rs : List SessionRecord)
    → validate_sessions seen rs ≡ none
    → Fresh ◌==◌ seen (record_ids rs)
unfolding validate_sessions
sessions_once seen [] h = λ a. ground arith
sessions_once seen (r ∷ rs) h =
    let (new, rest) = (or_else-none _ _).0 h in
    let (fine, later) = (or_else-none _ _).0 rest in
    (Fresh-cons ◌==◌ eq_sound eq_self seen r.id (record_ids rs)).1
      ((reject_if-none _ _).0 new, sessions_once (r.id ∷ seen) rs later)

-- A creation that the manager asks for names its own orchestrator, workers and an unused identifier.
record Created (m : Manager) (id : Text) (o : ℕ) (ws : List WorkerSpec) : Type 0 where
  creating : Creating m
  named : o ≡ creating.orchestrator
  specified : ws ≡ selected_worker_specs m
  unused : any (is_group id) m.groups ≡ false

create_parts :
    {i j t u : Text} {o p : ℕ} {ws vs : List WorkerSpec}
    → ◌≡◌ {A = Option Action}
        (some (Action.create_group i t o ws))
        (some (Action.create_group j u p vs))
    → (i ≡ j) × (o ≡ p) × (ws ≡ vs)
create_parts h = (cc, cc, cc)

-- Only the review of a creation gives one.
created :
    (kind : Option ReviewKind) (m : Manager) (id title : Text) (o : ℕ) (ws : List WorkerSpec)
    → length m.groups ≤ max_orchestration_groups
    → OnReview kind m
    → review_action_of kind m ≡ some (Action.create_group id title o ws)
    → Created m id o ws
unfolding review_action_of replace_action
created none m id title o ws few h e = absurd h
created (some ReviewKind.creation) m id title o ws few (h, full) e =
    let (i, t, made, free) = create_action-eq m h few in
    let (same, orch, specs) = create_parts (sym made ∙ e) in
    record {
      creating = h;
      named = sym orch;
      specified = sym specs;
      unused = subst (λ j. any (is_group j) m.groups ≡ false) same free;
    }
created (some ReviewKind.replacement) m id title o ws few (h, full) e =
    absurd (ground (arith, rw h.stored at e))
created (some ReviewKind.reassignment) m id title o ws few h e =
    absurd (ground (arith, rw (h.stored, h.chosen) at e))

-- The last event of a run that ends in an action was handled by a manager in order.
abbrev Ended : List OrchestrationGroup → List Candidate → Action → Type 0
Ended gs es a = (e : Event) × (m : Manager) × Calm gs es m × Asked e m a

after-Ended :
    (gs : List OrchestrationGroup) (es : List Candidate) (a : Action) (m' : Manager)
    (later : Manager → Handled) (h : Handled)
    → Goes gs es h
    → ((m : Manager) → Calm gs es m → later m ≡ some (m', act a) → Ended gs es a)
    → ((k : Manager) (b : Action) → h ≡ some (k, act b) → Ended gs es b)
    → after later h ≡ some (m', act a)
    → Ended gs es a
unfolding after
after-Ended gs es a m' later none calm goes now e = absurd calm
after-Ended gs es a m' later (some (m, continue)) calm goes now e = goes m calm e
after-Ended gs es a m' later (some (m, act b)) calm goes now e =
    subst (Ended gs es) (act_eq e) (now m b refl)
  where
    act_eq : {k : Manager} → ◌≡◌ {A = Handled} (some (k, act b)) (some (m', act a)) → b ≡ a
    act_eq h = cc

run-Ended :
    (gs : List OrchestrationGroup) (es : List Candidate) (a : Action) (events : List Event)
    (m m' : Manager)
    → length gs ≤ max_orchestration_groups
    → Calm gs es m
    → run events m ≡ some (m', act a)
    → Ended gs es a
unfolding run
run-Ended gs es a [] m m' few calm e = absurd (ground (arith, e))
run-Ended gs es a (event ∷ rest) m m' few calm e =
    after-Ended gs es a m' (run rest) (handle event m) (handle-Goes gs es few event m calm)
      (λ k c r. run-Ended gs es a rest k m' few c r)
      (λ k b h. (event, m, calm, handle-Asked event m k b h)) e

-- A creation with the parts that a calm manager gives is carried out.
module _ (simple : ℕ → Text) (fresh : ℕ → ℕ) (s : State) (m : Manager)
    (are : All (IsOf simple s.sessions) m.eligible)
    (once : (a : ℕ) → count ◌==◌ a (ids_of m.eligible) ≤ 1) where
  creation_valid :
      (id : Text) (o : ℕ) (ws : List WorkerSpec)
      → length ws ≤ max_workers
      → Created m id o ws
      → (validate_worker_specs o ws ≡ ok tt)
        × (require_role_eligible_session s o ≡ ok tt)
        × (require_all_eligible s ws ≡ ok tt)
  unfolding selected_worker_specs
  creation_valid id o ws few made =
      let creating = made.creating in
      let orchestrator = creating.orchestrator in
      let others = retain (not_session orchestrator) m.eligible in
      let chosen = retain (is_selected m) others in
      let fine =
        All-retain_lem (Offered simple s.sessions orchestrator) (is_selected m) others
          (offered simple s.sessions orchestrator m.eligible are) in
      let specs : ws ≡ map (spec_of m.prompt_workers) chosen =
        made.specified
        ∙ ap (λ cs. map (spec_of m.prompt_workers) (retain (is_selected m) cs)) creating.others in
      let (is_of, same) =
        find-All (IsOf simple s.sessions) (is_candidate orchestrator) m.eligible creating.candidate
          are creating.known in
      let known = eq_sound creating.candidate.session_id orchestrator same in
      (
        rw (made.named, specs)
            (validate_worker_specs-accepts orchestrator (map (spec_of m.prompt_workers) chosen)
              (subst (λ vs. length vs ≤ max_workers) specs few)
              (specs-SpecOk simple s.sessions orchestrator m.prompt_workers chosen fine)
              (λ a. rw (specs-sessions m.prompt_workers chosen) (
                omega (
                  arith,
                  count-retain_ids a (is_selected m) others,
                  count-retain_ids a (not_session orchestrator) m.eligible,
                  once a,
                )))),
        subst (λ i. require_role_eligible_session s i ≡ ok tt) (known ∙ sym made.named)
            (role_eligible simple s creating.candidate is_of),
        subst (λ vs. require_all_eligible s vs ≡ ok tt) (sym specs)
            (specs-eligible simple s orchestrator m.prompt_workers chosen fine),
      )

  carried_out :
      (id title : Text) (o : ℕ) (ws : List WorkerSpec)
      → length ws ≤ max_workers
      → length s.orchestration_groups < max_orchestration_groups
      → m.groups ≡ s.orchestration_groups
      → Created m id o ws
      → (r : OrchestrationGroup × State) × (create_group_with_workers fresh id title o ws s ≡ ok r)
  unfolding create_group_with_workers push_group
  carried_out id title o ws few room same made =
      let (valid, role, eligible) = creation_valid id o ws few made in
      let new : any (is_group id) s.orchestration_groups ≡ false =
        subst (λ gs. any (is_group id) gs ≡ false) same made.unused in
      let open_place : leb max_orchestration_groups (length s.orchestration_groups) ≡ false =
        ground (arith, room) in
      let g : OrchestrationGroup = record {
        id = id;
        title = title;
        orchestrator_session_id = o;
        workers = worker_members fresh 0 [] ws;
      } in
      (
        (g, with_groups s (s.orchestration_groups ++ g ∷ [])),
        rw (valid, role, eligible, new, open_place) refl,
      )

creation_reviewed :
    (gs : List OrchestrationGroup) (es : List Candidate) (e : Event) (m : Manager) (id title : Text)
    (o : ℕ) (ws : List WorkerSpec)
    → length gs ≤ max_orchestration_groups
    → Calm gs es m
    → Asked e m (Action.create_group id title o ws)
    → Created m id o ws
unfolding review_action
creation_reviewed gs es e m id title o ws few calm asked =
    created m.review_kind m id title o ws
      (subst (λ (hs : List OrchestrationGroup). length hs ≤ max_orchestration_groups)
        (sym calm.groups) few)
      (subst (λ screen. OnScreen screen m) asked.here calm.place) asked.action

-- Where the manager is opened on a valid state and a run of it ends in a creation, of at most 64 workers and
-- below the limit of groups, the service carries that creation out on that state.
pub creation-carried_out :
    (simple : ℕ → Text) (fresh : ℕ → ℕ) (s : State) (notice : Option Text) (events : List Event)
    (m m' : Manager) (id title : Text) (o : ℕ) (ws : List WorkerSpec)
    → validate s ≡ none
    → from_state simple s notice ≡ some m
    → run events m ≡ some (m', act (Action.create_group id title o ws))
    → length ws ≤ max_workers
    → length s.orchestration_groups < max_orchestration_groups
    → (r : OrchestrationGroup × State) × (create_group_with_workers fresh id title o ws s ≡ ok r)
creation-carried_out simple fresh s notice events m m' id title o ws valid opens ran few room =
    let gs = s.orchestration_groups in
    let (rest, groups) = (validate_iff s).0 valid in
    let (m0, opens0, calm0, are0, ids0) = from_state-opens simple s notice in
    let same : m0 ≡ m = some_eq (sym opens0 ∙ opens) in
    let calm = subst (λ (k : Manager). Calm gs k.eligible k) same calm0 in
    let (e, k, calm_k, asked) =
      run-Ended gs m.eligible (Action.create_group id title o ws) events m m' groups.few calm ran in
    let unique =
      (Fresh-nil ◌==◌ (record_ids s.sessions)).0 (sessions_once [] s.sessions rest.sessions) in
    carried_out simple fresh s k
      (subst (All (IsOf simple s.sessions)) (sym calm_k.eligible)
        (subst (λ (j : Manager). All (IsOf simple s.sessions) j.eligible) same are0))
      (λ a.
        subst (λ cs. count ◌==◌ a (ids_of cs) ≤ 1) (sym calm_k.eligible)
          (subst (λ (j : Manager). count ◌==◌ a (ids_of j.eligible) ≤ 1) same
            (omega (arith, ids0 a, unique a))))
      id title o ws few room calm_k.groups
      (creation_reviewed gs m.eligible e k id title o ws groups.few calm_k asked)
