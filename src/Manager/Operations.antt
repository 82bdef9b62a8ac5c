-- ===== src/Manager/Operations.antt =====
-- src/observer_manager.rs: what begins a creation, an edit, a reassignment or a review, and the actions of a review.
use herdr_tether.Prelude.{
  ℕ, suc, ◌+◌, Bool, true, false, not, ◌&&◌, Option, none, some, List, [], ◌∷◌, ◌++◌, ◌==◌,
  if◌then◌else◌, length, contains, is_empty, retain, map, find,
}
use herdr_tether.Prelude.Decimal.{decimal}
use herdr_tether.Prelude.Text.{Text, codes}
use herdr_tether.Session.{OrchestrationMember, OrchestrationGroup}
use herdr_tether.Identifiers.{parse_title}
use herdr_tether.Manager.{
  Screen, Action, Candidate, ReviewKind, Notice, Manager, ◌>>=◌, current_group, is_candidate,
  selected_worker_specs,
}
use herdr_tether.Manager.Names.{safe_component, next_group_identity}

abbrev pub noted : Notice → Manager → Manager
noted n m = record m { notice = some n }

abbrev pub begin_notice : ℕ → Option Notice
begin_notice n =
    if n == 0
    then some Notice.no_workload
    else (if n == 1 then some Notice.too_few_workloads else none)

unfoldable pub begin_create : Manager → Manager
begin_create m = elim (begin_notice (length m.eligible)) [
  | some notice ↦ record m {
    notice = some notice;
    screen = Screen.groups;
    selected_index = length m.groups;
  }
  | none ↦ record m {
    notice = none;
    screen = Screen.create_orchestrator;
    screen_candidates = m.eligible;
    selected_index = 0;
    selected_group = none;
    selected_orchestrator = none;
    selected_workers = [];
    prompt_workers = [];
  }
]

abbrev pub member_text : ℕ → Option Text → Text
member_text index none = codes "Unavailable worker " ++ decimal (index + 1)
member_text index (some title) = title

-- The candidate that stands for a worker of which no eligible session is known.
unfoldable pub unavailable_candidate : ℕ → OrchestrationMember → Option Candidate
unfolding safe_component
unavailable_candidate index member =
    let label = member_text index member.title in
    parse_title (safe_component label 96) >>= λ title. some (record {
      session_id = member.session_id;
      label = safe_component label 72;
      host = codes "unavailable";
      repository = codes "worker-" ++ decimal (index + 1);
      title = title;
      agent_kind = none;
      existing = none;
    })

unfoldable pub member_candidate : List Candidate → ℕ → OrchestrationMember → Option Candidate
unfolding unavailable_candidate
member_candidate eligible index member = elim (find (is_candidate member.session_id) eligible) [
  | some c ↦ some (record c { existing = some member })
  | none ↦ do c ← unavailable_candidate index member; some (record c { existing = some member })
]

unfoldable pub member_candidates :
    List Candidate → ℕ → List OrchestrationMember → Option (List Candidate)
unfolding member_candidate
member_candidates eligible index [] = some []
member_candidates eligible index (w ∷ ws) = do
  c ← member_candidate eligible index w
  cs ← member_candidates eligible (suc index) ws
  some (c ∷ cs)

abbrev pub worker_sessions : List OrchestrationMember → List ℕ
worker_sessions ws = map (λ (w : OrchestrationMember). w.session_id) ws

abbrev pub may_prompt : OrchestrationMember → Bool
may_prompt w = w.capabilities.prompt_agent

-- An eligible session that is neither the group's orchestrator nor one of its workers.
abbrev pub is_other : OrchestrationGroup → Candidate → Bool
is_other g c =
    not (c.session_id == g.orchestrator_session_id)
    && not (contains (worker_sessions g.workers) c.session_id)

abbrev pub not_session : ℕ → Candidate → Bool
not_session session c = not (c.session_id == session)

unfoldable pub begin_edit : Manager → Option Manager
unfolding current_group member_candidates
begin_edit m = do
  g ← current_group m
  members ← member_candidates m.eligible 0 g.workers
  some (record m {
    selected_workers = worker_sessions g.workers;
    prompt_workers = worker_sessions (retain may_prompt g.workers);
    screen_candidates = members ++ retain (is_other g) m.eligible;
    screen = Screen.edit_workers;
    selected_index = 0;
    notice = none;
  })

unfoldable pub begin_reassign : Manager → Option Manager
unfolding current_group
begin_reassign m = do
  g ← current_group m
  let others = retain (not_session g.orchestrator_session_id) m.eligible
  some (record m {
    screen_candidates = others;
    selected_orchestrator = none;
    screen = Screen.change_orchestrator;
    selected_index = 0;
    notice = if is_empty others then some Notice.no_other_workload else none;
  })

abbrev pub asks_for_workers : ReviewKind → Bool
asks_for_workers ReviewKind.reassignment = false
asks_for_workers _ = true

unfoldable pub begin_review : ReviewKind → Manager → Manager
begin_review kind m =
    if asks_for_workers kind && is_empty m.selected_workers
    then noted Notice.no_worker m
    else record m {
      review_kind = some kind;
      review_return_index = m.selected_index;
      screen = Screen.review_topology;
      selected_index = 0;
      notice = none;
    }

unfoldable pub create_action : Manager → Option Action
unfolding selected_worker_specs next_group_identity
create_action m = do
  orchestrator ← m.selected_orchestrator
  candidate ← find (is_candidate orchestrator) m.eligible
  identity ← next_group_identity m.groups candidate.host candidate.repository
  some (Action.create_group identity.0 identity.1 orchestrator (selected_worker_specs m))

unfoldable pub replace_action : Manager → Option Action
unfolding current_group selected_worker_specs
replace_action m = do g ← current_group m; some (Action.replace_workers g (selected_worker_specs m))

unfoldable pub delete_action : Manager → Option Action
unfolding current_group
delete_action m = do g ← current_group m; some (Action.delete_group g)

unfoldable pub review_action_of : Option ReviewKind → Manager → Option Action
unfolding create_action replace_action current_group
review_action_of none m = none
review_action_of (some ReviewKind.creation) m = create_action m
review_action_of (some ReviewKind.replacement) m = replace_action m
review_action_of (some ReviewKind.reassignment) m = do
  g ← current_group m
  orchestrator ← m.selected_orchestrator
  some (Action.reassign_orchestrator g orchestrator)

unfoldable pub review_action : Manager → Option Action
unfolding review_action_of
review_action m = review_action_of m.review_kind m

abbrev pub chooses_workers : Screen → Bool
chooses_workers Screen.create_workers = true
chooses_workers Screen.edit_workers = true
chooses_workers _ = false
