-- ===== src/Store.antt =====
-- src/state.rs: `StateStore`, and what surrounds a running process: other processes that save state
-- between its critical sections, the clock, locks, reads and writes that fail, and the answers of
-- `tmux`. All of that is the parameter `Env`, indexed by the number of steps taken so far.
pub mod Laws
use herdr_tether.Prelude.{
  ℕ, suc, Bool, true, false, ◌&&◌, Option, none, some, List, [], ◌∷◌, ◌==◌, if◌then◌else◌, find,
  is_some, not, ℤ,
}
use herdr_tether.Prelude.Text.{Text}
use herdr_tether.Session.{SessionStatus, SessionRecord, State}
use herdr_tether.Session.Validate.{validate}

-- src/backend.rs: `WorkloadState`; `running attached identity` and `ended identity exit_status`.
pub data WorkloadState : Type 0 where
  missing : WorkloadState
  running : ℕ → ℕ → WorkloadState
  ended : ℕ → Option ℤ → WorkloadState
  unknown : WorkloadState

pub record LaunchSpec : Type 0 where
  pub id : ℕ
  pub ownership_proof : ℕ
  pub directory : Text
  pub command : Text

pub record CreatedWorkload : Type 0 where
  pub session : ℕ
  pub pane : ℕ
  pub socket : Text

-- A `TmuxBackend` bound to a socket.
pub record Backend : Type 0 where
  pub target : Text
  pub socket : Option Text

pub data CloseReply : Type 0 where
  closed guard_rejected failed : CloseReply

-- `atomic_write_resolved`: it may fail before its rename, or after it.
pub data WriteOutcome : Type 0 where
  written uncommitted undurable : WriteOutcome

-- The calls of `tmux` that a service makes, with their answers.
pub data Effect : Type 0 where
  asking : Backend → ℕ → ℕ → Option ℕ → Option WorkloadState → Effect
  closing : Backend → ℕ → ℕ → ℕ → CloseReply → Effect
  launching : Backend → LaunchSpec → Option CreatedWorkload → Effect
  attaching : Backend → ℕ → ℕ → ℕ → Effect

-- src/audit.rs
pub data AuditAction : Type 0 where
  create activate stop stopped restart observed reconciled removed : AuditAction

pub record AuditEntry : Type 0 where
  pub at : ℕ
  pub session : ℕ
  pub action : AuditAction
  pub from : Option SessionStatus
  pub to : SessionStatus
  pub incarnation : Option ℕ
  pub exit_status : Option ℤ

-- `effects` and `trail` have the newest first.
pub record World : Type 0 where
  pub store : State
  pub tick : ℕ
  pub effects : List Effect
  pub trail : List AuditEntry

-- `clock t k` is the k-th reading of the clock in step t. `interfere t` is what other processes have
-- made of the file by the time that step t holds the lock. `fits` is the bound on the serialized
-- size, `remote` what `TmuxBackend::remote` accepts.
pub record Env : Type 0 where
  pub clock : ℕ → ℕ → ℕ
  pub interfere : ℕ → State → State
  pub lock : ℕ → Bool
  pub read : ℕ → Bool
  pub write : ℕ → WriteOutcome
  pub fits : State → Bool
  pub remote : Text → Bool
  pub ask : ℕ → Backend → ℕ → ℕ → Option ℕ → Option WorkloadState
  pub close : ℕ → Backend → ℕ → ℕ → ℕ → CloseReply
  pub launch : ℕ → Backend → LaunchSpec → Option CreatedWorkload
  pub attach : ℕ → Backend → ℕ → ℕ → ℕ → Bool
  pub audits : Bool

abbrev pub is_valid : State → Bool
is_valid s = not (is_some (validate s))

-- What a closure run by `update` or `exclusive` decides: fail, answer `false`, answer `true` with
-- nothing to save, or save.
pub data Decision : Type 0 where
  fail refuse keep : Decision
  commit : State → Decision

pub data Commit : Type 0 where
  broken refused done : Commit

module _ (env : Env) where
  -- The lock is taken: the store is what other processes have left.
  abbrev pub acquire : World → World
  acquire w = record w { store = env.interfere w.tick w.store; tick = suc w.tick }

  -- `load_unlocked`, of a document of the current version.
  abbrev pub load_unlocked : ℕ → State → Option State
  load_unlocked t s = if env.read t && is_valid s then some s else none

  abbrev pub after_write : WriteOutcome → State → World → Commit × World
  after_write written s w = (done, record w { store = s })
  after_write uncommitted s w = (broken, w)
  after_write undurable s w = (broken, record w { store = s })

  unfoldable pub save_unlocked : ℕ → State → World → Commit × World
  save_unlocked t s w =
      if is_valid s && env.fits s then after_write (env.write t) s w else (broken, w)

  unfoldable pub decide_save : ℕ → Decision → World → Commit × World
  decide_save t fail w = (broken, w)
  decide_save t refuse w = (refused, w)
  decide_save t keep w = (done, w)
  decide_save t (commit s) w = save_unlocked t s w

  unfoldable pub run_closure : ℕ → Option State → (State → Decision) → World → Commit × World
  run_closure t none op w = (broken, w)
  run_closure t (some s) op w = decide_save t (op s) w

  -- `exclusive` with a closure that loads first, and `update`, whose closures never refuse.
  unfoldable pub exclusive : (State → Decision) → World → Commit × World
  exclusive op w =
      let w' = acquire w in
      if env.lock w.tick
      then run_closure w.tick (load_unlocked w.tick w'.store) op w'
      else (broken, record w { tick = suc w.tick })

  -- `StateStore::load`.
  unfoldable pub load : World → Option State × World
  load w =
      let w' = acquire w in
      if env.lock w.tick
      then (load_unlocked w.tick w'.store, w')
      else (none, record w { tick = suc w.tick })

-- `sessions.iter().find(|record| record.id == id)`.
abbrev pub find_session : ℕ → List SessionRecord → Option SessionRecord
find_session id = find (λ r. r.id == id)

-- The write through `iter_mut().find(...)`.
unfoldable pub replace_session : ℕ → SessionRecord → List SessionRecord → List SessionRecord
replace_session id new [] = []
replace_session id new (r ∷ rs) =
    let rest = replace_session id new rs in if r.id == id then new ∷ rs else r ∷ rest

abbrev pub put_session : State → ℕ → SessionRecord → State
put_session s id r = record s { sessions = replace_session id r s.sessions }
