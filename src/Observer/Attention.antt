-- ===== src/Observer/Attention.antt =====
-- src/observer.rs: the workers that `update_workers` reports as newly worth attention.
use herdr_tether.Prelude.{
  ℕ, ◌-◌, ℤ, Bool, true, false, not, ◌&&◌, ◌||◌, Option, none, some, List, [], ◌∷◌, if◌then◌else◌,
  ltb, ◌==◌, drop, retain, map, length,
}
use herdr_tether.Prelude.Text.{Text}
use herdr_tether.Observer.{
  ObserverLifecycle, failed, AgentState, detached, idle, working, blocked, finished, unsure,
  unreachable, stale, Worker,
}
use herdr_tether.Observer.Refresh.{previous_of}

-- Why a worker wants attention.
pub data AttentionReason : Type 0 where
  agent : AgentState → AttentionReason
  failure : ℤ → AttentionReason

pub record WorkerAttention : Type 0 where
  pub worker_id : Text
  pub reference : Text
  pub reason : AttentionReason

-- The last eight characters behind an ellipsis, or the whole of a shorter name.
unfoldable pub workload_reference : Text → Text
workload_reference name = if ltb 8 (length name) then 0x2026 ∷ drop (length name - 8) name else name

abbrev pub awaits_person : AgentState → Bool
awaits_person blocked = true
awaits_person finished = true
awaits_person _ = false

abbrev pub same_agent_state : AgentState → AgentState → Bool
same_agent_state detached detached = true
same_agent_state idle idle = true
same_agent_state working working = true
same_agent_state blocked blocked = true
same_agent_state finished finished = true
same_agent_state unsure unsure = true
same_agent_state unreachable unreachable = true
same_agent_state stale stale = true
same_agent_state _ _ = false

abbrev pub is_failed : ObserverLifecycle → Bool
is_failed (failed status) = true
is_failed _ = false

abbrev pub same_incarnation : Option ℕ → Option ℕ → Bool
same_incarnation none none = true
same_incarnation (some a) (some b) = a == b
same_incarnation _ _ = false

-- `is_none_or(|previous| previous.agent_state != worker.agent_state)`
abbrev pub agent_changed : Option Worker → Worker → Bool
agent_changed none w = true
agent_changed (some previous) w = not (same_agent_state previous.agent_state w.agent_state)

-- `is_some_and(|previous| !matches!(.., Failed) || previous.incarnation != worker.incarnation)`
abbrev pub failed_anew : Option Worker → Worker → Bool
failed_anew none w = false
failed_anew (some previous) w =
    not (is_failed previous.lifecycle) || not (same_incarnation previous.incarnation w.incarnation)

abbrev pub agent_attention : List Worker → Worker → Bool
agent_attention before w =
    w.live_agent && awaits_person w.agent_state && agent_changed (previous_of before w.id) w

abbrev pub to_attention : Worker → AttentionReason → WorkerAttention
to_attention w reason = record {
  worker_id = w.id;
  reference = workload_reference w.id;
  reason = reason;
}

abbrev pub agents_of : List Worker → List Worker → List WorkerAttention
agents_of before ws =
    map (λ w. to_attention w (agent w.agent_state)) (retain (agent_attention before) ws)

abbrev pub failure_of : List Worker → Worker → List WorkerAttention → List WorkerAttention
failure_of before w rest = elim w.lifecycle [
  | failed status ↦
      if failed_anew (previous_of before w.id) w
      then to_attention w (failure status) ∷ rest
      else rest
  | _ ↦ rest
]

abbrev pub failures_of : List Worker → List Worker → List WorkerAttention
failures_of before [] = []
failures_of before (w ∷ ws) = failure_of before w (failures_of before ws)
