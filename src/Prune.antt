-- ===== src/Prune.antt =====
-- src/lifecycle.rs: `PruneService`, which removes the records of sessions that ended long ago.
pub mod Cleanup
pub mod Eligible
use herdr_tether.Prelude.{
  ℕ, ◌*◌, ◌^◌, ◌-◌, Bool, true, false, not, ◌&&◌, Option, none, some, List, [], ◌∷◌, if◌then◌else◌,
  ite, leb, ltb, ◌==◌, contains, retain, map,
}
use herdr_tether.Session.{SessionRecord, SessionRecord-discrete, SessionStatus, State}
use herdr_tether.Session.Pace.{seconds, checked_sub_signed}
use herdr_tether.Store.{
  WorkloadState, Env, World, Commit, commit, exclusive, acquire, load, find_session,
}
use herdr_tether.Changes.{reconcile_orchestration_groups}

abbrev pub default_retention_days : ℕ
default_retention_days = 30

pub data Eligibility : Type 0 where
  keep_active keep_unknown keep_recent remove_metadata : Eligibility

abbrev pub is_over : SessionStatus → Bool
is_over SessionStatus.ended = true
is_over SessionStatus.removed = true
is_over _ = false

-- The end is not after the cutoff; without an end or a cutoff the record is recent.
abbrev pub by_age : Option ℕ → Option ℕ → Eligibility
by_age none cutoff = keep_recent
by_age (some closed_at) none = keep_recent
by_age (some closed_at) (some cutoff) =
    if ltb cutoff closed_at then keep_recent else remove_metadata

abbrev pub by_status : SessionRecord → ℕ → ℕ → Eligibility
by_status r now retention =
    if is_over r.status then by_age r.closed_at (checked_sub_signed now retention) else keep_active

-- A retention is not negative here: it comes from an unsigned number of days.
unfoldable pub cleanup_eligibility : SessionRecord → WorkloadState → ℕ → ℕ → Eligibility
cleanup_eligibility r (WorkloadState.running attached identity) now retention = keep_active
cleanup_eligibility r WorkloadState.unknown now retention = keep_unknown
cleanup_eligibility r WorkloadState.missing now retention = by_status r now retention
cleanup_eligibility r (WorkloadState.ended identity x) now retention = by_status r now retention

abbrev pub is_removable : Eligibility → Bool
is_removable remove_metadata = true
is_removable _ = false

abbrev pub is_eligible : ℕ → ℕ → SessionRecord → Bool
unfolding cleanup_eligibility
is_eligible now retention r =
    is_removable (cleanup_eligibility r WorkloadState.missing now retention)

-- `i64::try_from`, then `Duration::try_days`: a duration holds at most `i64::MAX` milliseconds.
unfoldable pub retention_duration : ℕ → Option ℕ
retention_duration days =
    if leb (days * 86_400_000) (2 ^ 63 - 1) then some (seconds (days * 86_400)) else none

pub record PrunePreview : Type 0 where
  pub captured_at : ℕ
  pub retention_days : ℕ
  pub candidate_ids : List ℕ
  pub candidates : List SessionRecord

pub record PruneResult : Type 0 where
  pub removed_ids : List ℕ
  pub skipped_ids : List ℕ

pub data PruneError : Type 0 where
  retention_too_large : ℕ → PruneError
  state_access : PruneError

pub data PruneOutcome (A : Type 0) : Type 0 where
  ok : A → PruneOutcome A
  err : PruneError → PruneOutcome A

abbrev pub previewed : List SessionRecord → ℕ → ℕ → PrunePreview
previewed candidates days captured_at = record {
  captured_at = captured_at;
  retention_days = days;
  candidate_ids = map (λ (r : SessionRecord). r.id) candidates;
  candidates = candidates;
}

-- The candidate is still stored as it was previewed, and is eligible now.
abbrev pub still_prunable : ℕ → ℕ → SessionRecord → Option SessionRecord → Bool
still_prunable now retention snapshot none = false
still_prunable now retention snapshot (some r) =
    ite (SessionRecord-discrete r snapshot) (is_eligible now retention r) false

abbrev pub is_prunable : ℕ → ℕ → State → SessionRecord → Bool
is_prunable now retention s snapshot =
    still_prunable now retention snapshot (find_session snapshot.id s.sessions)

-- The loop over the candidates.
unfoldable pub sort_out : ℕ → ℕ → State → List SessionRecord → PruneResult
sort_out now retention s [] = record { removed_ids = []; skipped_ids = [] }
sort_out now retention s (r ∷ rs) =
    let rest = sort_out now retention s rs in
    if is_prunable now retention s r
    then record { removed_ids = r.id ∷ rest.removed_ids; skipped_ids = rest.skipped_ids }
    else record { removed_ids = rest.removed_ids; skipped_ids = r.id ∷ rest.skipped_ids }

-- The sessions are removed, from the groups as well.
unfoldable pub drop_sessions : List ℕ → State → State
unfolding reconcile_orchestration_groups
drop_sessions gone s =
    reconcile_orchestration_groups (contains gone)
      (record s { sessions = retain (λ (r : SessionRecord). not (contains gone r.id)) s.sessions })

-- The closure of `apply`.
unfoldable pub prune : ℕ → ℕ → List SessionRecord → State → PruneResult × State
unfolding sort_out drop_sessions
prune now retention candidates s =
    let result = sort_out now retention s candidates in (result, drop_sessions result.removed_ids s)

abbrev pub is_removed : SessionStatus → Bool
is_removed SessionStatus.removed = true
is_removed _ = false

abbrev pub forgotten : ℕ → ℕ → SessionRecord → Bool
forgotten now retention r = is_removed r.status && is_eligible now retention r

-- The closure of `automatic_cleanup_at`.
unfoldable pub cleanup : ℕ → ℕ → State → List ℕ × State
unfolding drop_sessions
cleanup now retention s =
    let gone = map (λ (r : SessionRecord). r.id) (retain (forgotten now retention) s.sessions) in
    (gone, drop_sessions gone s)

-- What `update` returns: the answer of the closure if the state was saved.
abbrev pub saved : {A : Type 0} → A → Commit × World → PruneOutcome A × World
saved a (Commit.done, w) = (ok a, w)
saved a (_, w) = (err state_access, w)

module _ (env : Env) where
  abbrev pub preview_of : ℕ → ℕ → ℕ → Option State × World → PruneOutcome PrunePreview × World
  preview_of days captured_at retention (none, w) = (err state_access, w)
  preview_of days captured_at retention (some s, w) =
      (ok (previewed (retain (is_eligible captured_at retention) s.sessions) days captured_at), w)

  unfoldable pub preview_at : ℕ → ℕ → World → PruneOutcome PrunePreview × World
  unfolding retention_duration
  preview_at days captured_at w = elim (retention_duration days) [
    | none ↦ (err (retention_too_large days), w)
    | some retention ↦ preview_of days captured_at retention (load env w)
  ]

  -- The closure sees the state as it is when the lock is held.
  unfoldable pub apply : PrunePreview → World → PruneOutcome PruneResult × World
  unfolding retention_duration prune
  apply preview w = elim (retention_duration preview.retention_days) [
    | none ↦ (err (retention_too_large preview.retention_days), w)
    | some retention ↦
        let now = env.clock w.tick 0 in
        saved (prune now retention preview.candidates (acquire env w).store).0
          (exclusive env (λ s. commit (prune now retention preview.candidates s).1) w)
  ]

  unfoldable pub automatic_cleanup_at : ℕ → World → PruneOutcome (List ℕ) × World
  unfolding retention_duration cleanup
  automatic_cleanup_at now w = elim (retention_duration default_retention_days) [
    | none ↦ (err (retention_too_large default_retention_days), w)
    | some retention ↦
        saved (cleanup now retention (acquire env w).store).0
          (exclusive env (λ s. commit (cleanup now retention s).1) w)
  ]
