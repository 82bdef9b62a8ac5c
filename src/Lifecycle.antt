-- ===== src/Lifecycle.antt =====
-- src/lifecycle.rs: `LifecycleService`. A method is an action on the world that returns a value or
-- an error. This file has the actions that the methods share; the methods stand in the children.
pub mod Stop
pub mod Open
pub mod Restart
pub mod Remove
pub mod Rules
pub mod Orderly
pub mod Outcome
pub mod Service
use herdr_tether.Prelude.{
  ℕ, ℤ, suc, Bool, true, false, not, Option, none, some, List, [], ◌∷◌, ◌==◌, if◌then◌else◌, ite,
  or_else,
}
use herdr_tether.Prelude.Text.{Text, codes, text_eq}
use herdr_tether.Session.{
  SessionStatus, SessionStatus-discrete, ended, removed, SessionRecord, State,
}
use herdr_tether.Store.{
  WorkloadState, missing, unknown, LaunchSpec, CreatedWorkload, Backend, CloseReply, closed,
  guard_rejected, failed, Effect, asking, closing, launching, attaching, AuditAction, AuditEntry,
  World, Env, Decision, Commit, broken, refused, done, exclusive, load, find_session,
}

pub data ClosedWorkload : Type 0 where
  absent terminated : ClosedWorkload

pub data Operation : Type 0 where
  opened restarted cleared : Operation

pub data LifecycleError : Type 0 where
  unknown_session already_closed workload_unknown concurrent_modification : ℕ → LifecycleError
  state_access : LifecycleError
  backend_configuration inspect_failed close_failed finalize_failed : ℕ → LifecycleError
  missing_ownership_proof missing_command create_failed : ℕ → LifecycleError
  invalid_status : ℕ → Operation → SessionStatus → LifecycleError

pub data Result {ℓ} (A : Type ℓ) : Type ℓ where
  ok : A → Result A
  err : LifecycleError → Result A

abbrev pub M : Type 0 → Type 0
M A = World → Result A × World

unfoldable pub bind_result : {A B : Type 0} → Result A × World → (A → M B) → Result B × World
bind_result (ok a, w) f = f a w
bind_result (err e, w) f = (err e, w)

infixl 5 ◌>>=◌ ◌>>◌
abbrev pub ◌>>=◌ : {A B : Type 0} → M A → (A → M B) → M B
◌>>=◌ m f w = bind_result (m w) f

abbrev pub ◌>>◌ : {B : Type 0} → M (Unit {0}) → M B → M B
m >> k = m >>= λ _. k

abbrev pub return : {A : Type 0} → A → M A
return a w = (ok a, w)

abbrev pub throw : {A : Type 0} → LifecycleError → M A
throw e w = (err e, w)

abbrev pub ok_or : {A : Type 0} → Option A → LifecycleError → M A
ok_or none e = throw e
ok_or (some a) e = return a

-- `.map_err(...)?` on a save; `refusal` is what `Ok(false)` becomes.
abbrev pub commit_result :
    LifecycleError → LifecycleError → Commit × World → Result (Unit {0}) × World
commit_result failure refusal (broken, w) = (err failure, w)
commit_result failure refusal (refused, w) = (err refusal, w)
commit_result failure refusal (done, w) = (ok tt, w)

-- `record.tmux_session_id.is_some_and(|expected| expected != identity)`.
abbrev pub other_incarnation : Option ℕ → ℕ → Bool
other_incarnation none identity = false
other_incarnation (some expected) identity = not (expected == identity)

-- src/tmux.rs: `workload_without_its_pane`.
unfoldable pub workload_without_its_pane : WorkloadState → WorkloadState
workload_without_its_pane (WorkloadState.running attached identity) =
    WorkloadState.ended identity none
workload_without_its_pane (WorkloadState.ended identity exit_status) =
    WorkloadState.ended identity none
workload_without_its_pane missing = missing
workload_without_its_pane unknown = unknown

module _ (env : Env) where
  -- `with_audit` and `note`: the entry is handed to the trail if one is kept.
  unfoldable pub note : SessionRecord → AuditAction → SessionStatus → SessionStatus → M (Unit {0})
  note r action from to w =
      ite (SessionStatus-discrete from to) (ok tt, w)
        (if env.audits
          then (ok tt, record w { trail = entry ∷ w.trail; tick = suc w.tick })
          else (ok tt, w))
    where
      entry : AuditEntry
      entry = record {
        at = env.clock w.tick 0;
        session = r.id;
        action = action;
        from = some from;
        to = to;
        incarnation = r.tmux_session_id;
        exit_status = r.exit_status;
      }

  abbrev pub loaded : ℕ → Option State × World → Result (Option SessionRecord) × World
  loaded id (none, w) = (err state_access, w)
  loaded id (some s, w) = (ok (find_session id s.sessions), w)

  unfoldable pub owned_record : ℕ → M (Option SessionRecord)
  owned_record id w = loaded id (load env w)

  -- `exclusive` or `update`, with the errors that its caller gives.
  unfoldable pub locked :
      LifecycleError → LifecycleError → (World → State → Decision) → M (Unit {0})
  locked failure refusal op w = commit_result failure refusal (exclusive env (op w) w)

  unfoldable pub backend_for : ℕ → Text → Option Text → M Backend
  backend_for id target socket =
      if text_eq target (codes "local")
      then return (record { target = target; socket = socket })
      else (if env.remote target
          then return (record { target = target; socket = socket })
          else throw (backend_configuration id))

  unfoldable pub ask_exact : Backend → ℕ → ℕ → Option ℕ → M WorkloadState
  ask_exact backend id proof pane w =
      let reply = env.ask w.tick backend id proof pane in
      ok_or reply (inspect_failed id)
        (record w { effects = asking backend id proof pane reply ∷ w.effects; tick = suc w.tick })

  -- Whether the launched pane's answer stands: there was no pane, or it did not say `Missing`.
  abbrev pub pane_answer : Option ℕ → WorkloadState → Bool
  pane_answer (some pane) missing = false
  pane_answer _ _ = true

  unfoldable pub inspect_exact : Backend → ℕ → ℕ → Option ℕ → M WorkloadState
  inspect_exact backend id proof pane = do
    state ← ask_exact backend id proof pane
    if pane_answer pane state
        then return state
        else (ask_exact backend id proof none >>= λ s. return (workload_without_its_pane s))

  abbrev pub close_result : ℕ → CloseReply → M (Unit {0})
  close_result id closed = return tt
  close_result id guard_rejected = throw (concurrent_modification id)
  close_result id failed = throw (close_failed id)

  unfoldable pub close_exact : Backend → ℕ → ℕ → ℕ → M (Unit {0})
  close_exact backend id proof identity w =
      let reply = env.close w.tick backend id proof identity in
      close_result id reply (record w {
        effects = closing backend id proof identity reply ∷ w.effects;
        tick = suc w.tick;
      })

  unfoldable pub create_workload : Backend → LaunchSpec → M CreatedWorkload
  create_workload backend launch w =
      let created = env.launch w.tick backend launch in
      ok_or created (create_failed launch.id)
        (record w { effects = launching backend launch created ∷ w.effects; tick = suc w.tick })

abbrev pub require_ownership_proof : SessionRecord → M ℕ
require_ownership_proof r = ok_or r.ownership_proof (missing_ownership_proof r.id)
