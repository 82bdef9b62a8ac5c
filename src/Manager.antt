-- ===== src/Manager.antt =====
-- src/observer_manager.rs: the screens on which observer groups are made and changed. A `HashSet` is
-- a list of its elements, a `HashMap` a function, a line on the screen the values that it shows. `none`
-- is a panic of an `expect`, an index or `unreachable!`.
pub mod Names
pub mod Operations
pub mod Handle
pub mod Open
pub mod Calm
pub mod Keys
pub mod Asked
pub mod Accepted
pub mod Composed
use herdr_tether.Prelude.{
  ℕ, suc, ◌+◌, ◌-◌, ◌%◌, Bool, true, false, not, ◌&&◌, Option, none, some, List, [], ◌∷◌, ◌++◌,
  ◌==◌, if◌then◌else◌, length, get_elem?, contains, any, is_some, is_empty, retain, map, find,
  or_else, unwrap_or,
}
use herdr_tether.Prelude.Text.{Text, codes}
use herdr_tether.Session.{OrchestrationCapabilities, OrchestrationMember, OrchestrationGroup}
use herdr_tether.Groups.{WorkerSpec}

pub data Screen : Type 0 where
  groups create_orchestrator create_workers group_actions edit_workers : Screen
  change_orchestrator review_topology confirm_delete : Screen

pub data Event : Type 0 where
  previous next confirm back toggle toggle_prompt create edit delete : Event
  confirm_deletion dismiss_deletion : Event

pub data AgentFilter : Type 0 where
  all needs_attention remote : AgentFilter

pub data Action : Type 0 where
  create_group :
      (id title : Text) (orchestrator_session_id : ℕ) (workers : List WorkerSpec) → Action
  replace_workers : (expected_group : OrchestrationGroup) (workers : List WorkerSpec) → Action
  reassign_orchestrator :
      (expected_group : OrchestrationGroup) (orchestrator_session_id : ℕ) → Action
  set_agent_view : (group_id : Text) (filter : AgentFilter) → Action
  clear_agent_view : Action
  delete_group : (expected_group : OrchestrationGroup) → Action
  launch : (group_id : Text) → Action
  back_to_picker : Action

pub data Outcome : Type 0 where
  continue : Outcome
  act : Action → Outcome

pub record Candidate : Type 0 where
  pub session_id : ℕ
  pub label : Text
  pub host : Text
  pub repository : Text
  pub title : Text
  pub agent_kind : Option Text
  pub existing : Option OrchestrationMember

pub data ReviewKind : Type 0 where
  creation replacement reassignment : ReviewKind

pub data Notice : Type 0 where
  given : Text → Notice
  no_workload too_few_workloads no_other_workload no_worker unreachable_herdr no_agent_kind : Notice
  not_selected : Notice

pub record Manager : Type 0 where
  pub screen : Screen
  pub groups : List OrchestrationGroup
  pub eligible : List Candidate
  pub screen_candidates : List Candidate
  pub session_labels : ℕ → Option Text
  pub running_sessions : List ℕ
  pub selected_index : ℕ
  pub selected_group : Option ℕ
  pub selected_orchestrator : Option ℕ
  pub selected_workers : List ℕ
  pub prompt_workers : List ℕ
  pub herdr_connected : Bool
  pub review_kind : Option ReviewKind
  pub review_return_index : ℕ
  pub notice : Option Notice

infixl 5 ◌>>=◌
abbrev pub ◌>>=◌ {ℓ κ} : {A : Type ℓ} {B : Type κ} → Option A → (A → Option B) → Option B
none >>= f = none
some a >>= f = f a

-- `selected_group()`
unfoldable pub current_group : Manager → Option OrchestrationGroup
current_group m = do index ← m.selected_group; get_elem? m.groups index

abbrev pub default_capabilities : OrchestrationCapabilities
default_capabilities = record {
  observe_output = true;
  open_interactive = true;
  prompt_agent = false;
}

abbrev pub with_prompt : Bool → OrchestrationCapabilities → OrchestrationCapabilities
with_prompt prompt c = record c { prompt_agent = prompt }

abbrev pub is_candidate : ℕ → Candidate → Bool
is_candidate session c = c.session_id == session

abbrev pub is_selected : Manager → Candidate → Bool
is_selected m c = contains m.selected_workers c.session_id

abbrev pub capabilities_of : Option OrchestrationMember → OrchestrationCapabilities
capabilities_of none = default_capabilities
capabilities_of (some existing) = existing.capabilities

abbrev pub title_of : Text → Option OrchestrationMember → Option Text
title_of title none = some title
title_of title (some existing) = existing.title

abbrev pub spec_of : List ℕ → Candidate → WorkerSpec
spec_of prompt_workers c = record {
  session_id = c.session_id;
  title = title_of c.title c.existing;
  capabilities = with_prompt (contains prompt_workers c.session_id) (capabilities_of c.existing);
}

unfoldable pub selected_worker_specs : Manager → List WorkerSpec
selected_worker_specs m =
    map (spec_of m.prompt_workers) (retain (is_selected m) m.screen_candidates)

-- A line on the screen.
pub data Row : Type 0 where
  group_row : (title orchestrator : Text) (orchestrator_runs : Bool) (workers unavailable : ℕ) → Row
  create_row open_mission_control herdr_unreachable edit_row change_row : Row
  view_group view_attention view_remote view_default delete_row promote_row : Row
  orchestrator_row : Text → Row
  choice_row : (chosen prompt : Bool) → Text → Row
  worker_row : Text → Row
  confirm_row : (title : Text) → Row

abbrev pub unavailable_label : Text
unavailable_label = codes "unavailable"

unfoldable pub group_summary : Manager → OrchestrationGroup → Row
group_summary m g =
    group_row g.title (unwrap_or (m.session_labels g.orchestrator_session_id) unavailable_label)
      (contains m.running_sessions g.orchestrator_session_id) (length g.workers)
      (length (
        retain (λ (w : OrchestrationMember). not (contains m.running_sessions w.session_id))
          g.workers))

abbrev pub label_of : Candidate → Text
label_of c = c.label

abbrev pub map_option {ℓ κ} : {A : Type ℓ} {B : Type κ} → (A → B) → Option A → Option B
map_option f none = none
map_option f (some a) = some (f a)

-- The orchestrator that a review shows: the one chosen, or else the group's.
unfoldable pub review_orchestrator : Manager → Option ℕ
unfolding current_group
review_orchestrator m = elim m.selected_orchestrator [
  | some session ↦ some session
  | none ↦ do g ← current_group m; some g.orchestrator_session_id
]

abbrev pub session_label : Manager → ℕ → Text
session_label m session =
    unwrap_or
      (or_else (map_option label_of (find (is_candidate session) m.eligible))
        (m.session_labels session))
      unavailable_label

abbrev pub member_label : Manager → OrchestrationMember → Row
member_label m w =
    worker_row (unwrap_or (or_else w.title (m.session_labels w.session_id)) unavailable_label)

abbrev pub candidate_row : Candidate → Row
candidate_row c = worker_row c.label

abbrev pub chosen_rows : Manager → List Row
chosen_rows m = map candidate_row (retain (is_selected m) m.screen_candidates)

abbrev pub is_worker : ℕ → OrchestrationMember → Bool
is_worker session w = w.session_id == session

unfoldable pub review_worker_rows : Option ReviewKind → Manager → ℕ → Option (List Row)
unfolding current_group
review_worker_rows (some ReviewKind.reassignment) m orchestrator = do
  g ← current_group m
  let others = retain (λ (w : OrchestrationMember). not (is_worker orchestrator w)) g.workers
  some (
      (if any (is_worker orchestrator) g.workers then promote_row ∷ [] else [])
      ++ map (member_label m) others)
review_worker_rows (some ReviewKind.creation) m orchestrator = some (chosen_rows m)
review_worker_rows (some ReviewKind.replacement) m orchestrator = some (chosen_rows m)
review_worker_rows none m orchestrator = some (chosen_rows m)

unfoldable pub review_labels : Manager → Option (List Row)
unfolding review_orchestrator review_worker_rows
review_labels m = do
  orchestrator ← review_orchestrator m
  rows ← review_worker_rows m.review_kind m orchestrator
  some (orchestrator_row (session_label m orchestrator) ∷ rows)

abbrev pub choice : Manager → Candidate → Row
choice m c = choice_row (is_selected m c) (contains m.prompt_workers c.session_id) c.label

abbrev pub candidate_orchestrator : Candidate → Row
candidate_orchestrator c = orchestrator_row c.label

abbrev pub action_rows : Bool → List Row
action_rows connected =
    (if connected then open_mission_control else herdr_unreachable)
    ∷ edit_row
    ∷ change_row
    ∷ view_group
    ∷ view_attention
    ∷ view_remote
    ∷ view_default
    ∷ delete_row
    ∷ []

unfoldable pub item_labels_on : Screen → Manager → Option (List Row)
unfolding review_labels current_group group_summary
item_labels_on Screen.groups m = some (map (group_summary m) m.groups ++ create_row ∷ [])
item_labels_on Screen.create_orchestrator m = some (map candidate_orchestrator m.screen_candidates)
item_labels_on Screen.change_orchestrator m = some (map candidate_orchestrator m.screen_candidates)
item_labels_on Screen.create_workers m = some (map (choice m) m.screen_candidates)
item_labels_on Screen.edit_workers m = some (map (choice m) m.screen_candidates)
item_labels_on Screen.group_actions m = some (action_rows m.herdr_connected)
item_labels_on Screen.review_topology m = review_labels m
item_labels_on Screen.confirm_delete m = do g ← current_group m; some (confirm_row g.title ∷ [])

unfoldable pub item_labels : Manager → Option (List Row)
unfolding item_labels_on
item_labels m = item_labels_on m.screen m
