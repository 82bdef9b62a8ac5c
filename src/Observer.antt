-- ===== src/Observer.antt =====
-- src/observer.rs: the workers that Mission Control shows, what may be done with each, and the
-- actions that a key asks for. `update_workers` is in Observer/Update, what an action does in
-- Observer/Select. A `String` that names a worker is a Text, a `TmuxSessionId` its number.
pub mod Refresh
pub mod Attention
pub mod Update
pub mod Select
pub mod Selection
pub mod WellFormed
pub mod Actions
pub mod Invariant
pub mod Page
pub mod Prompt
pub mod Compose
use herdr_tether.Prelude.{
  ℕ, ℤ, Bool, true, false, not, ◌&&◌, ◌||◌, ◌==◌, Option, none, some, List, [], ◌∷◌, if◌then◌else◌,
  any, is_empty, is_some, or_else, find,
}
use herdr_tether.Prelude.Text.{Text, text_eq}

abbrev pub workers_per_page : ℕ
workers_per_page = 4

abbrev pub max_workers : ℕ
max_workers = 64

abbrev pub max_prompt_targets : ℕ
max_prompt_targets = 8

pub record Capabilities : Type 0 where
  pub observe_output : Bool
  pub open_interactive : Bool
  pub prompt_agent : Bool

pub data ObserverLifecycle : Type 0 where
  starting running stopping ended : ObserverLifecycle
  failed : (exit_status : ℤ) → ObserverLifecycle
  missing removed unknown : ObserverLifecycle

pub data AgentState : Type 0 where
  detached idle working blocked finished unsure unreachable stale : AgentState

pub data Capture : Type 0 where
  loading : Capture
  ready : Text → Capture
  truncated : Text → Capture
  preview : (text : Text) (clipped : Bool) → Capture
  unavailable : Capture

pub data CaptureStatus : Type 0 where
  is_loading is_ready is_truncated is_unavailable is_stale : CaptureStatus

pub data StaleReason : Type 0 where
  earlier_membership ambiguous_claim replaced_occupant connection retained : StaleReason

pub record Worker : Type 0 where
  pub id : Text
  pub title : Option Text
  pub capabilities : Capabilities
  pub lifecycle : ObserverLifecycle
  pub agent_state : AgentState
  pub live_agent : Bool
  pub owned : Bool
  pub last_observed : Option Text
  pub latency_ms : Option ℕ
  pub incarnation : Option ℕ
  pub capture : Option Text
  pub sampled : Bool
  pub stale_reason : Option StaleReason

-- `AgentState::permits_prompt`
unfoldable pub permits_prompt : AgentState → Bool
permits_prompt idle = true
permits_prompt finished = true
permits_prompt _ = false

abbrev pub is_running : ObserverLifecycle → Bool
is_running running = true
is_running _ = false

-- The state is neither `Unreachable` nor `Stale`.
abbrev pub is_current : AgentState → Bool
is_current unreachable = false
is_current stale = false
is_current _ = true

unfoldable pub can_open : Worker → Bool
can_open w =
    w.owned && is_running w.lifecycle && is_current w.agent_state && w.capabilities.open_interactive

unfoldable pub can_focus : Worker → Bool
can_focus w =
    w.owned
    && is_running w.lifecycle
    && w.live_agent
    && is_current w.agent_state
    && w.capabilities.open_interactive

unfoldable pub can_observe_agent : Worker → Bool
can_observe_agent w =
    w.owned
    && is_running w.lifecycle
    && w.live_agent
    && is_current w.agent_state
    && w.capabilities.observe_output

unfoldable pub can_prompt : Worker → Bool
unfolding permits_prompt
can_prompt w =
    w.owned
    && is_running w.lifecycle
    && w.live_agent
    && permits_prompt w.agent_state
    && w.capabilities.prompt_agent

pub data Action : Type 0 where
  previous_worker next_worker previous_page next_page refresh open_selected : Action
  toggle_prompt_target compose_prompt focus_selected wait_selected read_selected : Action
  explain_selected quit : Action

pub data Key : Type 0 where
  up down left right page_up page_down tab back_tab control_c enter escape : Key
  char : ℕ → Key

pub data InputKind : Type 0 where
  press repeat : InputKind

-- The key `char c` for a letter in either case.
abbrev pub letter : ℕ → ℕ → ℕ → Bool
letter small capital c = c == small || c == capital

abbrev char_action : ℕ → Option Action
char_action c =
    if c == b'k' || c == b'h'
    then some previous_worker
    else (if c == b'j' || c == b'l'
        then some next_worker
        else (if c == b'['
            then some previous_page
            else (if c == b']'
                then some next_page
                else (if c == b' '
                    then some toggle_prompt_target
                    else (if letter b'p' b'P' c
                        then some compose_prompt
                        else (if letter b'f' b'F' c
                            then some focus_selected
                            else (if letter b'w' b'W' c
                                then some wait_selected
                                else (if letter b'v' b'V' c
                                    then some read_selected
                                    else (if letter b'e' b'E' c
                                        then some explain_selected
                                        else (if letter b'r' b'R' c
                                            then some refresh
                                            else (if letter b'q' b'Q' c
                                                then some quit
                                                else none)))))))))))

unfoldable pub action_for_key : Key → Option Action
action_for_key up = some previous_worker
action_for_key left = some previous_worker
action_for_key down = some next_worker
action_for_key right = some next_worker
action_for_key page_up = some previous_page
action_for_key back_tab = some previous_page
action_for_key page_down = some next_page
action_for_key tab = some next_page
action_for_key enter = some open_selected
action_for_key escape = some quit
action_for_key control_c = some quit
action_for_key (char c) = char_action c

abbrev pub is_press : InputKind → Bool
is_press press = true
is_press repeat = false

unfoldable pub gate_action_for_input : Action → InputKind → Bool → Option Action
gate_action_for_input previous_worker kind busy = some previous_worker
gate_action_for_input next_worker kind busy = some next_worker
gate_action_for_input previous_page kind busy = some previous_page
gate_action_for_input next_page kind busy = some next_page
gate_action_for_input quit kind busy = if is_press kind then some quit else none
gate_action_for_input action kind busy = if is_press kind && not busy then some action else none

-- The `HashMap` has its newest entry first, the `HashSet` each of its elements once.
pub record ObserverState : Type 0 where
  pub workers : List Worker
  pub capture_statuses : List (Text × CaptureStatus)
  pub selected_id : Option Text
  pub prompt_targets : List Text
  pub notice : Option Text

abbrev pub is_named : Text → Worker → Bool
is_named name w = text_eq w.id name

-- `HashSet::contains`
abbrev pub holds : List Text → Text → Bool
holds names name = any (text_eq name) names

-- What the view offers for an action.
abbrev is_available : Action → List Worker → Bool
is_available toggle_prompt_target ws = any (λ w. w.capabilities.prompt_agent) ws
is_available compose_prompt ws = any (λ w. w.capabilities.prompt_agent) ws
is_available focus_selected ws = any can_focus ws
is_available wait_selected ws = any can_observe_agent ws
is_available read_selected ws = any can_observe_agent ws
is_available explain_selected ws = any can_observe_agent ws
is_available _ ws = true

abbrev needs_no_worker : Action → Bool
needs_no_worker refresh = true
needs_no_worker quit = true
needs_no_worker _ = false

abbrev offered : Action → List Worker → Option Action
offered action ws =
    if is_empty ws && not (needs_no_worker action)
    then none
    else (if is_available action ws then some action else none)

-- `ObserverState::action_for_key`
unfoldable pub available_action : ObserverState → Key → Option Action
unfolding action_for_key can_focus can_observe_agent
available_action s key = elim (action_for_key key) [
  | none ↦ none
  | some action ↦ offered action s.workers
]

-- `ObserverState::action_for_input`
unfoldable pub available_input : ObserverState → Key → InputKind → Bool → Option Action
unfolding available_action gate_action_for_input
available_input s key kind busy = elim (available_action s key) [
  | none ↦ none
  | some action ↦ gate_action_for_input action kind busy
]
