-- ===== src/Observer/Refresh.antt =====
-- src/observer.rs: what `update_workers` makes of each worker that a refresh brings.
-- `sanitize_capture`, which bounds a captured text by its grapheme clusters, is a parameter.
use herdr_tether.Prelude.{
  Bool, true, false, not, ◌&&◌, ◌||◌, Option, none, some, List, [], ◌∷◌, ◌++◌, if◌then◌else◌,
  is_some, or_else,
}
use herdr_tether.Prelude.Text.{Text, text_eq}
use herdr_tether.Observer.{
  AgentState, idle, working, blocked, finished, unreachable, stale, CaptureStatus, is_loading,
  is_ready, is_stale, connection, retained, Worker, is_current, is_named, holds,
}

-- `HashMap::insert` and `HashMap::get`, the newest entry first.
abbrev pub status_of : List (Text × CaptureStatus) → Text → Option CaptureStatus
status_of [] name = none
status_of ((key, status) ∷ rest) name =
    let older = status_of rest name in if text_eq key name then some status else older

-- `workers.drain(..).collect()` into a map: of two workers of one name the later one counts.
abbrev pub previous_of : List Worker → Text → Option Worker
previous_of [] name = none
previous_of (w ∷ ws) name = or_else (previous_of ws name) (if is_named name w then some w else none)

-- `filter(|worker| seen.insert(worker.id.clone()))`
abbrev pub first_of_each : List Text → List Worker → List Worker
first_of_each seen [] = []
first_of_each seen (w ∷ ws) =
    let again = first_of_each seen ws in
    let fresh = first_of_each (w.id ∷ seen) ws in if holds seen w.id then again else w ∷ fresh

abbrev pub is_kept : CaptureStatus → Bool
is_kept is_ready = true
is_kept is_stale = true
is_kept _ = false

abbrev pub is_stale_status : CaptureStatus → Bool
is_stale_status is_stale = true
is_stale_status _ = false

abbrev pub is_unreachable : AgentState → Bool
is_unreachable unreachable = true
is_unreachable _ = false

-- The states of an agent that answers.
abbrev pub is_answering : AgentState → Bool
is_answering idle = true
is_answering working = true
is_answering blocked = true
is_answering finished = true
is_answering _ = false

-- What a refresh without a capture takes over from the worker it replaces.
abbrev pub carry_over : CaptureStatus → Option Worker → Worker → Worker
carry_over status none w = w
carry_over status (some previous) w = record w {
  capture = if is_kept status then previous.capture else w.capture;
  sampled = if is_kept status then previous.sampled else w.sampled;
  last_observed = or_else w.last_observed previous.last_observed;
  latency_ms = or_else w.latency_ms previous.latency_ms;
}

abbrev pub had_live_agent : Option Worker → Bool
had_live_agent none = false
had_live_agent (some previous) = previous.live_agent

-- The worker becomes stale; only an unreachable one is given a reason here.
abbrev pub to_stale : Bool → Worker → Worker
to_stale lost w = record w {
  stale_reason =
      if is_unreachable w.agent_state
      then some (if lost then connection else retained)
      else w.stale_reason;
  agent_state = stale;
}

-- A worker and the status of its capture, from `w` with what was carried over.
abbrev pub settle_stale : Bool → CaptureStatus → Worker → Worker × CaptureStatus
settle_stale lost status w =
    let live = record w { live_agent = if lost then true else w.live_agent } in
    if lost || (is_some w.capture && not (is_current w.agent_state))
    then (to_stale lost live, is_stale)
    else (if is_answering w.agent_state && is_stale_status status
        then (live, if is_some w.capture then is_ready else is_loading)
        else (live, status))

abbrev pub refreshed : CaptureStatus → Option Worker → Worker → Worker × CaptureStatus
refreshed status previous w =
    settle_stale (had_live_agent previous && is_unreachable w.agent_state) status
      (carry_over status previous w)

abbrev pub status_or_loading : Option CaptureStatus → CaptureStatus
status_or_loading none = is_loading
status_or_loading (some status) = status

module _ (sanitize : Text → Text) where
  -- The closure that `update_workers` maps over the workers.
  unfoldable pub project_worker :
      List Worker → List (Text × CaptureStatus) → Worker → Worker × CaptureStatus
  project_worker before statuses w = elim w.capture [
    | some captured ↦ (record w { capture = some (sanitize captured) }, is_ready)
    | none ↦ refreshed (status_or_loading (status_of statuses w.id)) (previous_of before w.id) w
  ]

  -- The workers after the closure, and the statuses it has inserted.
  abbrev pub project_all :
      List Worker
      → List (Text × CaptureStatus)
      → List Worker
      → List Worker × List (Text × CaptureStatus)
  project_all before statuses [] = ([], [])
  project_all before statuses (w ∷ ws) =
      let rest = project_all before statuses ws in
      let this = project_worker before statuses w in
      (this.0 ∷ rest.0, rest.1 ++ ((this.0.id, this.1) ∷ []))
