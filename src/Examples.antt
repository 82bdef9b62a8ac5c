-- ===== src/Examples.antt =====
-- Concrete runs: a session of src/lifecycle.rs with an agreeing `tmux`, its records, quoted command
-- lines, an interrupted call and an observer with two workers.
mod Groups
mod Manager
use herdr_tether.Prelude.{
  ℕ, pos, true, false, none, some, List, [], ◌∷◌, ◌≡◌, ◌≢◌, refl, length, All, ◌≤◌, ◌<◌, ◌+◌, ◌-◌,
  ◌*◌, ◌^◌, ◌++◌, min, leb, ◌↔◌, contains, arith, Option, ◌⊎◌, get_elem?,
}
use mathlib.Core.List.{Memᴰ}
use herdr_tether.Prelude.Text.{Text, codes}
use herdr_tether.Session.{State, SessionRecord, SessionStatus}
use herdr_tether.Session.Pace.{
  ended_immediately, recent_immediate_failures, seconds, failing_status, paced_restart_until,
  restart_pace, immediate_failure_run, note_immediate_failure,
}
use herdr_tether.Session.Pace.Bounds.{
  paced_restart_until_window, restart_pace_doubles, note_immediate_failure_history,
}
use herdr_tether.Session.Validate.{
  validate_session, validate_texts, validate_lifecycle, validate_command, current_version,
}
use herdr_tether.Session.Validate.WellFormed.{Consistent, validate_session_iff}
use herdr_tether.Store.{Env, World, WorkloadState, CloseReply, WriteOutcome}
use herdr_tether.Changes.Valid.{Change, apply, apply-valid}
use herdr_tether.Lifecycle.Stop.{stop_owned}
use herdr_tether.Lifecycle.Restart.{restart_owned}
use herdr_tether.Lifecycle.Service.{stops, removes, serve_all}
use herdr_tether.Lifecycle.Rules.{Holds}
use herdr_tether.Lifecycle.Orderly.{InOrder}
use herdr_tether.Lifecycle.Orderly.Recovery.{serve_all-InOrder}
use herdr_tether.Lifecycle.Outcome.{HasStatus, Anything}
use herdr_tether.Lifecycle.Outcome.Methods.{stop_owned-ended, restart_owned-running}
use herdr_tether.Store.{find_session}
use herdr_tether.Prune.{prune, cleanup, cleanup_eligibility}
use herdr_tether.Prune.Cleanup.{Forgotten, cleanup-Forgotten}
use herdr_tether.Prune.Eligible.{Expired, StoredExpired, prune-Expired, find_session-prune}
use herdr_tether.Interrupt.{Outcome, Budget, retry_interrupted}
use herdr_tether.Interrupt.Bounded.{within_bounded}
use herdr_tether.Observer.{
  Worker, Action, ObserverState, ObserverLifecycle, AgentState, Capture, workers_per_page,
}
use herdr_tether.Observer.Update.{is_promptable, update_workers, selected_index}
use herdr_tether.Observer.Select.{visible_start, visible_end, visible_workers}
use herdr_tether.Observer.WellFormed.{WellFormed}
use herdr_tether.Observer.Invariant.{Event, run, run-WellFormed, empty_observer}
use herdr_tether.Observer.Page.{visible_workers-selected}
use herdr_tether.Observer.Compose.{apply_all, compose_prompt-Promptable}
use herdr_tether.Observer.Select

abbrev pub agreeing : Env
agreeing = record {
  clock = λ t k. seconds 5000 + t;
  interfere = λ t s. s;
  lock = λ t. true;
  read = λ t. true;
  write = λ t. WriteOutcome.written;
  fits = λ s. true;
  remote = λ target. false;
  ask = λ t backend id proof pane. some (WorkloadState.ended 3 (some (pos 0)));
  close = λ t backend id proof identity. CloseReply.closed;
  launch = λ t backend spec. some (record { session = 4; pane = 9; socket = codes "tether" });
  attach = λ t backend id proof identity. true;
  audits = true;
}

abbrev pub running_session : SessionRecord
running_session = record {
  id = 7;
  host = codes "local";
  target = codes "local";
  directory = codes "/work";
  preset = none;
  herdr_agent = none;
  command = some (codes "make");
  tmux_session_id = some 3;
  tmux_pane_id = some 8;
  tmux_socket = none;
  ownership_proof = some 11;
  status = SessionStatus.running;
  created_at = seconds 4000;
  last_used_at = seconds 4000;
  closed_at = none;
  exit_status = none;
  immediate_failures = [];
}

abbrev pub failed_session : SessionRecord
failed_session = record running_session {
  status = SessionStatus.ended;
  closed_at = some (seconds 4002);
  exit_status = some (pos 1);
}

abbrev pub world_of : SessionRecord → World
world_of r = record {
  store = record { version = current_version; sessions = r ∷ []; orchestration_groups = [] };
  tick = 0;
  effects = [];
  trail = [];
}

serve_all-InOrder_example :
    InOrder (serve_all agreeing (stops 7 ∷ removes 7 ∷ []) (world_of running_session))
serve_all-InOrder_example =
    serve_all-InOrder agreeing (stops 7 ∷ removes 7 ∷ []) (world_of running_session) tt

stop_owned-ended_example :
    Holds Anything
      (λ result w'. HasStatus 7 SessionStatus.ended w'.store)
      (stop_owned agreeing 7 (world_of running_session))
stop_owned-ended_example = stop_owned-ended agreeing 7 (world_of running_session)

restart_owned-running_example :
    Holds Anything
      (λ result w'. HasStatus 7 SessionStatus.running w'.store)
      (restart_owned agreeing 7 (world_of failed_session))
restart_owned-running_example = restart_owned-running agreeing 7 (world_of failed_session)

running_session-valid : validate_session running_session ≡ none
unfolding validate_session validate_texts validate_lifecycle
running_session-valid = refl

abbrev default_socket : Option Text
default_socket = some (codes "/tmp/tmux-1000/default")

apply-valid_example :
    validate_session (
      apply
        (Change.promote 3 (some 4) default_socket)
        (seconds 4500)
        (seconds 4500)
        running_session)
    ≡ none
apply-valid_example =
    apply-valid (Change.promote 3 (some 4) default_socket) (seconds 4500) (seconds 4500)
      running_session running_session-valid (omega arith)
      (codes "tmp/tmux-1000/default", refl, omega arith)

validate_session_iff_example : (validate_session running_session ≡ none) ↔ (
    (validate_texts running_session ≡ none)
    × Consistent running_session
    × (validate_command running_session.command ≡ none))
validate_session_iff_example = validate_session_iff running_session

abbrev argument : Text
argument = codes "it's; rm -rf *"

abbrev quoted_line : Text
quoted_line = codes "'echo' 'it'\\''s; rm -rf *'"

restart_pace_doubles_example :
    restart_pace failed_session (seconds 4003)
    ≡ min
        (seconds 30 * 2 ^ min (immediate_failure_run failed_session (seconds 4003) - 1) 16)
        (seconds 300)
restart_pace_doubles_example = restart_pace_doubles failed_session (seconds 4003)

pub failed_session-paced : paced_restart_until failed_session (seconds 4003) ≡ some (seconds 4032)
unfolding paced_restart_until ended_immediately restart_pace immediate_failure_run
    recent_immediate_failures
failed_session-paced = refl

paced_restart_until_window_example :
    (closed : ℕ) × (failed_session.closed_at ≡ some closed)
    × (failed_session.status ≡ SessionStatus.ended)
    × (failing_status failed_session.exit_status ≡ true)
    × (failed_session.last_used_at < closed)
    × (closed ≤ failed_session.last_used_at + seconds 10)
    × (closed + seconds 30 ≤ seconds 4032)
    × (seconds 4032 ≤ closed + seconds 300)
paced_restart_until_window_example =
    paced_restart_until_window failed_session (seconds 4003) (seconds 4032) failed_session-paced

note_immediate_failure_history_example :
    let history = (note_immediate_failure failed_session (seconds 4003)).immediate_failures in
    (length history ≤ 16)
    × (older : List ℕ) × (history ≡ older ++ seconds 4002 ∷ [])
    × All (λ entry. leb (seconds 4003 - seconds 3600) entry ≡ true) older
note_immediate_failure_history_example =
    note_immediate_failure_history failed_session (seconds 4003) (seconds 4002) refl (omega arith)

-- Interrupted by a signal every unit of time, for ever.
abbrev signals : ℕ → Outcome ℕ
signals i = Outcome.interrupted

within_bounded_example : retry_interrupted signals (λ i. i) (λ i. i) 5 (Budget.within 3) ≢ none
within_bounded_example =
    within_bounded signals (λ i. i) (λ i. i) (λ i. omega arith) (λ i. omega arith) 3

abbrev worker : Text → Worker
worker name = record {
  id = name;
  title = none;
  capabilities = record { observe_output = true; open_interactive = true; prompt_agent = true };
  lifecycle = ObserverLifecycle.running;
  agent_state = AgentState.idle;
  live_agent = true;
  owned = true;
  last_observed = none;
  latency_ms = none;
  incarnation = some 3;
  capture = some (codes "done");
  sampled = false;
  stale_reason = none;
}

abbrev plain : Text → Text
plain text = text

abbrev workers : List Worker
workers = worker (codes "a") ∷ worker (codes "b") ∷ worker (codes "a") ∷ []

abbrev events : List Event
events =
    Event.update workers
    ∷ Event.act Action.next_worker
    ∷ Event.act Action.toggle_prompt_target
    ∷ Event.merge (codes "b") Capture.unavailable
    ∷ Event.update (worker (codes "c") ∷ [])
    ∷ []

run-WellFormed_example : WellFormed (run plain events empty_observer)
run-WellFormed_example = run-WellFormed plain events

abbrev observer : ObserverState
observer = record {
  workers = worker (codes "a") ∷ worker (codes "b") ∷ [];
  capture_statuses = [];
  selected_id = some (codes "b");
  prompt_targets = codes "a" ∷ codes "z" ∷ [];
  notice = none;
}

observer-selected : selected_index observer ≡ some 1
unfolding selected_index
observer-selected = refl

visible_workers-selected_example :
    (visible_start observer ≤ 1)
    × (1 < visible_end observer)
    × (visible_end observer ≤ length observer.workers)
    × (length (visible_workers observer) ≡ visible_end observer - visible_start observer)
    × (length (visible_workers observer) ≤ workers_per_page)
    × (get_elem? (visible_workers observer) (1 - visible_start observer)
        ≡ get_elem? observer.workers 1)
visible_workers-selected_example =
    visible_workers-selected observer 1 observer-selected (omega arith)

abbrev refreshed_observer : ObserverState
refreshed_observer =
    apply_all (Action.next_worker ∷ Action.previous_worker ∷ [])
      (update_workers plain workers observer).1

composes-a :
    (Select.apply Action.compose_prompt refreshed_observer).0 ≡ Select.compose (codes "a" ∷ [])
unfolding apply_all update_workers Select.apply
composes-a = refl

compose_prompt-Promptable_example :
    All (λ name. is_promptable refreshed_observer.workers name ≡ true) (codes "a" ∷ [])
compose_prompt-Promptable_example =
    compose_prompt-Promptable plain workers (Action.next_worker ∷ Action.previous_worker ∷ [])
      observer (codes "a" ∷ []) composes-a

-- One session ended a long time ago, the other runs.
abbrev two_sessions : State
two_sessions = record {
  version = current_version;
  sessions = failed_session ∷ record running_session { id = 8 } ∷ [];
  orchestration_groups = [];
}

prune-Expired_example :
    let (result, after) = prune (seconds 9000) (seconds 3600) (failed_session ∷ []) two_sessions in
    All (StoredExpired (seconds 9000) (seconds 3600) two_sessions) result.removed_ids
    × All (λ (r : SessionRecord). contains result.removed_ids r.id ≡ false) after.sessions
    × All
        (λ (r : SessionRecord).
          StoredExpired (seconds 9000) (seconds 3600) two_sessions r.id ⊎ Memᴰ r after.sessions)
        two_sessions.sessions
    × (length result.removed_ids + length result.skipped_ids ≡ 1)
prune-Expired_example =
    prune-Expired (seconds 9000) (seconds 3600) (failed_session ∷ []) two_sessions

-- A session that was removed long ago, and one that runs.
abbrev after_removal : State
after_removal = record two_sessions {
  sessions =
      record failed_session { status = SessionStatus.removed }
      ∷ record running_session { id = 8 }
      ∷ [];
}

cleanup-Forgotten_example :
    let (gone, after) = cleanup (seconds 9000) (seconds 3600) after_removal in
    All (Forgotten (seconds 9000) (seconds 3600) after_removal.sessions) gone
    × All
        (λ (r : SessionRecord).
          Forgotten (seconds 9000) (seconds 3600) after_removal.sessions r.id
          ⊎ Memᴰ r after.sessions)
        after_removal.sessions
    × All
        (λ (r : SessionRecord).
          r.status ≡ SessionStatus.removed → Expired (seconds 9000) (seconds 3600) r → ⊥)
        after.sessions
cleanup-Forgotten_example = cleanup-Forgotten (seconds 9000) (seconds 3600) after_removal

removal_cleaned : (cleanup (seconds 9000) (seconds 3600) after_removal).0 ≡ failed_session.id ∷ []
unfolding cleanup cleanup_eligibility
removal_cleaned = refl

find_session-prune_example :
    find_session 8
      (prune (seconds 9000) (seconds 3600) (failed_session ∷ []) two_sessions).1.sessions
    ≡ some (record running_session { id = 8 })
find_session-prune_example =
    find_session-prune (seconds 9000) (seconds 3600) (failed_session ∷ []) two_sessions 8
      (record running_session { id = 8 }) refl refl
