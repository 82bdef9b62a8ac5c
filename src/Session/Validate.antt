-- ===== src/Session/Validate.antt =====
-- src/state.rs: `State::validate`. The result names the `bail!` that is met first; `none` is `Ok(())`.
pub mod WellFormed
use herdr_tether.Prelude.{
  ℕ, ◌*◌, Bool, true, false, not, ◌&&◌, ◌||◌, Option, none, some, List, [], ◌∷◌, ltb, ◌==◌,
  if◌then◌else◌, length, contains, is_in, is_some, is_empty, or_else,
}
use herdr_tether.Prelude.Text.{Text, byte_len, is_blank, text_eq}
use herdr_tether.Session.{
  SessionStatus, creating, running, stopping, ended, removed, SessionRecord,
  OrchestrationCapabilities, OrchestrationMember, OrchestrationGroup, State,
}
use herdr_tether.Session.Pace.{max_immediate_failures}

abbrev pub current_version : ℕ
current_version = 7

abbrev pub max_orchestration_groups : ℕ
max_orchestration_groups = 32

abbrev pub max_sessions : ℕ
max_sessions = 1024

abbrev pub max_string_bytes : ℕ
max_string_bytes = 16 * 1024

abbrev pub max_command_bytes : ℕ
max_command_bytes = 256 * 1024

abbrev pub max_workers : ℕ
max_workers = 64

pub data Invalid : Type 0 where
  unsupported_version too_many_sessions too_many_groups duplicate_session empty_text : Invalid
  text_too_long used_before_created open_with_closed_at ended_without_closed_at : Invalid
  closed_before_created open_with_exit_status too_many_failures empty_command : Invalid
  duplicate_group too_many_workers orchestrator_is_worker duplicate_worker : Invalid
  duplicate_membership no_capability : Invalid

-- `if test { bail!(e) }`.
abbrev pub reject_if : Bool → Invalid → Option Invalid
reject_if test e = if test then some e else none

abbrev pub require_nonempty : Text → Option Invalid
require_nonempty value = reject_if (is_blank value) empty_text

abbrev pub require_max_bytes : Text → ℕ → Option Invalid
require_max_bytes value limit = reject_if (ltb limit (byte_len value)) text_too_long

-- The checks of an optional text, if it is there.
abbrev pub require_text : Option Text → Option Invalid
require_text none = none
require_text (some value) =
    or_else (require_nonempty value) (require_max_bytes value max_string_bytes)

abbrev pub is_closed : SessionStatus → Bool
is_closed ended = true
is_closed removed = true
is_closed _ = false

-- `match (session.status, session.closed_at)`.
abbrev pub validate_closed_at : Bool → Option ℕ → ℕ → Option Invalid
validate_closed_at false (some closed_at) created_at = some open_with_closed_at
validate_closed_at false none created_at = none
validate_closed_at true none created_at = some ended_without_closed_at
validate_closed_at true (some closed_at) created_at =
    reject_if (ltb closed_at created_at) closed_before_created

abbrev pub validate_command : Option Text → Option Invalid
validate_command none = none
validate_command (some command) =
    or_else (reject_if (is_empty command) empty_command)
      (require_max_bytes command max_command_bytes)

-- The texts of one session.
unfoldable pub validate_texts : SessionRecord → Option Invalid
validate_texts r = or_else (require_nonempty r.host) (
    or_else (require_max_bytes r.host max_string_bytes) (
      or_else (require_nonempty r.target) (
        or_else (require_nonempty r.directory) (
          or_else (require_max_bytes r.target max_string_bytes) (
            or_else (require_max_bytes r.directory max_string_bytes)
              (or_else (require_text r.preset) (require_text r.tmux_socket)))))))

-- The dates, statuses and bounds of one session.
unfoldable pub validate_lifecycle : SessionRecord → Option Invalid
validate_lifecycle r = or_else (reject_if (ltb r.last_used_at r.created_at) used_before_created) (
    or_else (validate_closed_at (is_closed r.status) r.closed_at r.created_at) (
      or_else (reject_if (is_some r.exit_status && not (is_closed r.status)) open_with_exit_status)
        (reject_if (ltb max_immediate_failures (length r.immediate_failures)) too_many_failures)))

unfoldable pub validate_session : SessionRecord → Option Invalid
validate_session r =
    or_else (validate_texts r) (or_else (validate_lifecycle r) (validate_command r.command))

-- The loop over the sessions; `seen` is the set of the identifiers met.
unfoldable pub validate_sessions : List ℕ → List SessionRecord → Option Invalid
validate_sessions seen [] = none
validate_sessions seen (r ∷ rs) =
    or_else (reject_if (contains seen r.id) duplicate_session)
      (or_else (validate_session r) (validate_sessions (r.id ∷ seen) rs))

abbrev pub has_no_capability : OrchestrationCapabilities → Bool
has_no_capability c = not c.observe_output && not c.open_interactive && not c.prompt_agent

-- The loop over one group's workers. It hands the membership identifiers met to the next group.
unfoldable pub validate_workers :
    ℕ → List ℕ → List ℕ → List OrchestrationMember → (Option Invalid) × List ℕ
validate_workers orchestrator workers memberships [] = (none, memberships)
validate_workers orchestrator workers memberships (w ∷ ws) =
    let rest =
      validate_workers orchestrator (w.session_id ∷ workers) (w.membership_id ∷ memberships) ws in
    let problem = or_else (reject_if (w.session_id == orchestrator) orchestrator_is_worker) (
      or_else (reject_if (contains workers w.session_id) duplicate_worker) (
        or_else (reject_if (contains memberships w.membership_id) duplicate_membership)
          (reject_if (has_no_capability w.capabilities) no_capability))) in
    (or_else problem rest.0, rest.1)

abbrev pub contains_text : List Text → Text → Bool
contains_text = is_in text_eq

unfoldable pub validate_groups : List Text → List ℕ → List OrchestrationGroup → Option Invalid
unfolding validate_workers
validate_groups ids memberships [] = none
validate_groups ids memberships (g ∷ gs) =
    let checked = validate_workers g.orchestrator_session_id [] memberships g.workers in
    or_else (reject_if (contains_text ids g.id) duplicate_group) (
      or_else (reject_if (ltb max_workers (length g.workers)) too_many_workers)
        (or_else checked.0 (validate_groups (g.id ∷ ids) checked.1 gs)))

unfoldable pub validate : State → Option Invalid
validate s = or_else (reject_if (not (s.version == current_version)) unsupported_version) (
    or_else (reject_if (ltb max_sessions (length s.sessions)) too_many_sessions) (
      or_else
        (reject_if (ltb max_orchestration_groups (length s.orchestration_groups)) too_many_groups)
        (or_else (validate_sessions [] s.sessions) (validate_groups [] [] s.orchestration_groups))))
