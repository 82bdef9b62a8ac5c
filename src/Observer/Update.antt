-- ===== src/Observer/Update.antt =====
-- src/observer.rs: `update_workers`, `set_connection_observation` and `merge_capture`.
-- `sanitize_capture`, which bounds a captured text by its grapheme clusters, is a parameter.
use herdr_tether.Prelude.{
  ℕ, Bool, true, false, ◌&&◌, Option, none, some, List, [], ◌∷◌, ◌++◌, if◌then◌else◌, suc,
  unwrap_or, any, is_some, or_else, find, take, retain, length, get_elem?, min,
}
use herdr_tether.Prelude.Text.{Text}
use herdr_tether.Observer.{
  max_workers, unreachable, stale, Capture, loading, ready, truncated, preview, unavailable,
  CaptureStatus, is_loading, is_ready, is_truncated, is_unavailable, is_stale, retained, Worker,
  can_prompt, is_named, ObserverState,
}
use herdr_tether.Observer.Refresh.{first_of_each, project_worker, project_all}
use herdr_tether.Observer.Attention.{WorkerAttention, workload_reference, agents_of, failures_of}

-- `self.workers.iter().position(..)`
abbrev pub position : List Worker → Text → Option ℕ
position [] name = none
position (w ∷ ws) name =
    let later = position ws name in
    if is_named name w then some 0 else elim later [ none ↦ none | some i ↦ some (suc i) ]

unfoldable pub selected_index : ObserverState → Option ℕ
selected_index s = elim s.selected_id [ none ↦ none | some name ↦ position s.workers name ]

abbrev pub id_at : List Worker → ℕ → Option Text
id_at ws i = elim (get_elem? ws i) [ none ↦ none | some w ↦ some w.id ]

-- The selection stays on its worker, or moves to the one at its old position. No index is out of
-- range, where `id_at` would be `none` and the source would panic.
abbrev pub reselect : ℕ → Option Text → List Worker → Option Text
reselect index selected [] = none
reselect index none (w ∷ ws) = id_at (w ∷ ws) (min index (length ws))
reselect index (some name) (w ∷ ws) =
    if any (is_named name) (w ∷ ws) then some name else id_at (w ∷ ws) (min index (length ws))

-- A target stays while its worker is there and can be prompted.
abbrev pub is_promptable : List Worker → Text → Bool
is_promptable ws name = any (λ w. is_named name w && can_prompt w) ws

module _ (sanitize : Text → Text) where
  unfoldable pub update_workers : List Worker → ObserverState → List WorkerAttention × ObserverState
  unfolding project_worker selected_index can_prompt workload_reference
  update_workers incoming s =
      let projected =
        project_all sanitize s.workers s.capture_statuses
          (take max_workers (first_of_each [] incoming)) in
      (
        agents_of s.workers projected.0 ++ failures_of s.workers projected.0,
        record {
          workers = projected.0;
          capture_statuses = projected.1;
          selected_id = reselect (unwrap_or (selected_index s) 0) s.selected_id projected.0;
          prompt_targets = retain (is_promptable projected.0) s.prompt_targets;
          notice = s.notice;
        },
      )

-- The first worker of a name is changed; `none` when there is none.
abbrev pub change_first : (Worker → Worker) → Text → List Worker → Option (List Worker)
change_first change name [] = none
change_first change name (w ∷ ws) =
    let later = change_first change name ws in
    if is_named name w
    then some (change w ∷ ws)
    else elim later [ none ↦ none | some changed ↦ some (w ∷ changed) ]

abbrev pub noted : ℕ → Option Text → Worker → Worker
noted latency observed w = record w {
  latency_ms = some latency;
  last_observed = or_else observed w.last_observed;
}

unfoldable pub set_connection_observation :
    Text → ℕ → Option Text → ObserverState → Bool × ObserverState
set_connection_observation name latency observed s =
    elim (change_first (noted latency observed) name s.workers) [
      | none ↦ (false, s)
      | some changed ↦ (true, record s { workers = changed })
    ]

module _ (sanitize : Text → Text) where
  abbrev pub shown : Text → Bool → Worker → Worker
  shown text sample w = record w { capture = some (sanitize text); sampled = sample }

  -- The worker with a capture, and the status of the capture.
  unfoldable pub captured_worker : Capture → Worker → Worker × CaptureStatus
  captured_worker loading w = (record w { capture = none; sampled = false }, is_loading)
  captured_worker (ready text) w = (shown text false w, is_ready)
  captured_worker (truncated text) w = (shown text false w, is_truncated)
  captured_worker (preview text clipped) w =
      (shown text true w, if clipped then is_truncated else is_ready)
  captured_worker unavailable w =
      if is_some w.capture && is_some w.last_observed
      then (record w { agent_state = stale; stale_reason = some retained }, is_stale)
      else (
        record w {
          capture = none;
          agent_state = if w.capabilities.prompt_agent then unreachable else w.agent_state;
        },
        is_unavailable,
      )

  unfoldable pub merge_capture : Text → Capture → ObserverState → Bool × ObserverState
  unfolding captured_worker
  merge_capture name capture s = elim (find (is_named name) s.workers) [
    | none ↦ (false, s)
    | some found ↦ elim (change_first (λ w. (captured_worker capture w).0) name s.workers) [
      | none ↦ (false, s)
      | some changed ↦ (
        true,
        record s {
          workers = changed;
          capture_statuses = (name, (captured_worker capture found).1) ∷ s.capture_statuses;
        },
      )
    ]
  ]
