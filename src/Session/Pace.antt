-- ===== src/Session/Pace.antt =====
-- src/state.rs: how long a restart is held after a workload that failed as soon as it started.
-- `now` is what `Utc::now()` answers.
pub mod Bounds
use herdr_tether.Prelude.{
  ℕ, ℤ, suc, ◌+◌, ◌-◌, ◌*◌, ◌^◌, min, max, Bool, true, false, not, ◌&&◌, Option, none, some, List,
  [], ◌∷◌, ◌++◌, ltb, leb, ◌==◌, if◌then◌else◌, length, retain, drop, is_some, unwrap_or, pos,
  negsuc,
}
use herdr_tether.Session.{SessionStatus, creating, running, stopping, ended, removed, SessionRecord}

-- Nanoseconds.
abbrev pub seconds : ℕ → ℕ
seconds n = n * 1_000_000_000

abbrev pub fast_failure_window : ℕ
fast_failure_window = seconds 10

abbrev pub restart_pace_base : ℕ
restart_pace_base = seconds 30

abbrev pub max_restart_pace : ℕ
max_restart_pace = seconds 300

abbrev pub immediate_failure_memory : ℕ
immediate_failure_memory = seconds 3600

abbrev pub max_immediate_failures : ℕ
max_immediate_failures = 16

-- `DateTime::checked_sub_signed`: `none` before `DateTime::<Utc>::MIN_UTC`.
abbrev pub checked_sub_signed : ℕ → ℕ → Option ℕ
checked_sub_signed t d = if ltb t d then none else some (t - d)

-- `TimeDelta::checked_mul`: a `TimeDelta` holds at most `i64::MAX` milliseconds.
abbrev pub checked_mul : ℕ → ℕ → Option ℕ
checked_mul d k =
    let product = d * k in if leb product ((2 ^ 63 - 1) * 1_000_000) then some product else none

-- `2_i32.saturating_pow`.
abbrev pub saturating_pow2 : ℕ → ℕ
saturating_pow2 n = min (2 ^ n) (2 ^ 31 - 1)

-- `status.is_some_and(|status| status != 0)`.
abbrev pub failing_status : Option ℤ → Bool
failing_status none = false
failing_status (some (pos n)) = not (n == 0)
failing_status (some (negsuc n)) = true

abbrev pub is_ended : SessionStatus → Bool
is_ended ended = true
is_ended _ = false

-- `ran_for > TimeDelta::zero() && ran_for <= FAST_FAILURE_WINDOW`.
abbrev pub ran_briefly : ℕ → Option ℕ → Bool
ran_briefly started none = false
ran_briefly started (some closed_at) =
    ltb started closed_at && leb (closed_at - started) fast_failure_window

unfoldable pub ended_immediately : SessionRecord → Bool
ended_immediately r =
    is_ended r.status && failing_status r.exit_status && ran_briefly r.last_used_at r.closed_at

-- The entries of the history inside the memory window at `now`.
abbrev pub within_memory : ℕ → List ℕ → List ℕ
within_memory now entries = elim (checked_sub_signed now immediate_failure_memory) [
  | none ↦ entries
  | some cutoff ↦ retain (λ entry. leb cutoff entry) entries
]

unfoldable pub recent_immediate_failures : SessionRecord → ℕ → ℕ
recent_immediate_failures r now = length (within_memory now r.immediate_failures)

unfoldable pub immediate_failure_run : SessionRecord → ℕ → ℕ
immediate_failure_run r now =
    max (recent_immediate_failures r now) (if ended_immediately r then 1 else 0)

unfoldable pub restart_pace : SessionRecord → ℕ → ℕ
restart_pace r now =
    let repeats = min (immediate_failure_run r now - 1) 16 in
    min (unwrap_or (checked_mul restart_pace_base (saturating_pow2 repeats)) max_restart_pace)
      max_restart_pace

-- The `?` on `closed_at`, then `then`.
abbrev pub pace_from : Option ℕ → Bool → ℕ → Option ℕ
pace_from none immediate pace = none
pace_from (some closed_at) immediate pace = if immediate then some (closed_at + pace) else none

unfoldable pub paced_restart_until : SessionRecord → ℕ → Option ℕ
paced_restart_until r now = pace_from r.closed_at (ended_immediately r) (restart_pace r now)

unfoldable pub failed_immediately : SessionRecord → ℕ → Bool
unfolding paced_restart_until
failed_immediately r now = is_some (paced_restart_until r now)

-- `drain(..len.saturating_sub(MAX_IMMEDIATE_FAILURES))`.
abbrev pub keep_newest : ℕ → List ℕ → List ℕ
keep_newest limit entries = drop (length entries - limit) entries

unfoldable pub note_immediate_failure : SessionRecord → ℕ → SessionRecord
note_immediate_failure r now = record r {
  immediate_failures =
      keep_newest max_immediate_failures
        (within_memory now r.immediate_failures ++ unwrap_or r.closed_at now ∷ []);
}

unfoldable pub activity_at : SessionRecord → ℕ
activity_at r = unwrap_or r.closed_at r.last_used_at
