-- ===== src/Session.antt =====
-- src/state.rs and src/lifecycle.rs: the records that Tether persists. Identifiers are the numbers that
-- they wrap (a UUID is a number below 2 ^ 128), a `DateTime<Utc>` is the number of nanoseconds
-- since `DateTime::<Utc>::MIN_UTC`, and a `TimeDelta` that the code adds is a number of them.
pub mod Pace
pub mod Validate
use herdr_tether.Prelude.{ℕ, ℤ, ℕ_discrete, Bool, Option, List}
use herdr_tether.Prelude.Text.{Text}

pub data SessionStatus : Type 0 where
  creating running stopping ended removed : SessionStatus

pub SessionStatus-discrete : Discrete SessionStatus
SessionStatus-discrete = hlevel

pub record SessionRecord : Type 0 where
  pub id : ℕ
  pub host : Text
  pub target : Text
  pub directory : Text
  pub preset : Option Text
  pub herdr_agent : Option Text
  pub command : Option Text
  pub tmux_session_id : Option ℕ
  pub tmux_pane_id : Option ℕ
  pub tmux_socket : Option Text
  pub ownership_proof : Option ℕ
  pub status : SessionStatus
  pub created_at : ℕ
  pub last_used_at : ℕ
  pub closed_at : Option ℕ
  pub exit_status : Option ℤ
  pub immediate_failures : List ℕ

-- The derived `PartialEq` of the record: equality field by field.
pub SessionRecord-discrete : Discrete SessionRecord
SessionRecord-discrete = hlevel ℕ_discrete

pub record OrchestrationCapabilities : Type 0 where
  pub observe_output : Bool
  pub open_interactive : Bool
  pub prompt_agent : Bool

pub record OrchestrationMember : Type 0 where
  pub session_id : ℕ
  pub membership_id : ℕ
  pub title : Option Text
  pub capabilities : OrchestrationCapabilities

pub record OrchestrationGroup : Type 0 where
  pub id : Text
  pub title : Text
  pub orchestrator_session_id : ℕ
  pub workers : List OrchestrationMember

pub OrchestrationGroup-discrete : Discrete OrchestrationGroup
OrchestrationGroup-discrete = hlevel ℕ_discrete

pub record State : Type 0 where
  pub version : ℕ
  pub sessions : List SessionRecord
  pub orchestration_groups : List OrchestrationGroup
