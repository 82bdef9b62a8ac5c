-- ===== src/Session/Pace/Bounds.antt =====
-- src/state.rs: what the pacing of restarts guarantees.
use native.Mathlib.Nat.{pow-le-pow_right, one-le-pow}
use herdr_tether.Prelude.{
  ℕ, zero, suc, ◌+◌, ◌-◌, ◌*◌, ◌^◌, ◌≤◌, ◌<◌, min, ◌≡◌, refl, Bool, true, some, List, [], ◌∷◌, ◌++◌,
  arith, length, length-append, length-drop, drop, All, retain, leb, unwrap_or,
}
use herdr_tether.Session.{SessionRecord, ended}
use herdr_tether.Session.Pace.{
  seconds, ended_immediately, failing_status, immediate_failure_run, restart_pace,
  paced_restart_until, failed_immediately, note_immediate_failure, keep_newest, within_memory,
  checked_mul, saturating_pow2, restart_pace_base, max_restart_pace,
}

-- Below seventeen doublings neither the multiplication nor the power saturates.
pace_of_repeats :
    (k : ℕ)
    → k ≤ 16
    → min
        (unwrap_or (checked_mul restart_pace_base (saturating_pow2 k)) max_restart_pace)
        max_restart_pace
      ≡ min (seconds 30 * 2 ^ k) (seconds 300)
pace_of_repeats k h = ground (arith, pow-le-pow_right {n = 2} (omega arith) {i = k} {j = 16} h)

-- A hold doubles with each failure in a row from thirty seconds, and never passes five minutes.
pub restart_pace_doubles :
    (r : SessionRecord) (now : ℕ)
    → restart_pace r now
      ≡ min (seconds 30 * 2 ^ min (immediate_failure_run r now - 1) 16) (seconds 300)
unfolding restart_pace
restart_pace_doubles r now =
    pace_of_repeats (min (immediate_failure_run r now - 1) 16) (omega arith)

restart_pace_bounds :
    (r : SessionRecord) (now : ℕ)
    → (seconds 30 ≤ restart_pace r now) × (restart_pace r now ≤ seconds 300)
restart_pace_bounds r now = omega (
  arith,
  restart_pace_doubles r now,
  one-le-pow (min (immediate_failure_run r now - 1) 16) 2 (omega arith),
)

-- A record that is paced at all ended with a failing status after a lifetime that is positive and
-- at most ten seconds, and its hold stops between thirty seconds and five minutes after that end.
pub paced_restart_until_window :
    (r : SessionRecord) (now until : ℕ)
    → paced_restart_until r now ≡ some until
    → (closed : ℕ) × (r.closed_at ≡ some closed)
      × (r.status ≡ ended)
      × (failing_status r.exit_status ≡ true)
      × (r.last_used_at < closed)
      × (closed ≤ r.last_used_at + seconds 10)
      × (closed + seconds 30 ≤ until)
      × (until ≤ closed + seconds 300)
unfolding paced_restart_until ended_immediately
paced_restart_until_window r now until h = ground (arith, restart_pace_bounds r now)

-- The pacing is decided by the record's end alone: the time of asking lengthens the hold only.
pub failed_immediately-eq :
    (r : SessionRecord) (now : ℕ) → failed_immediately r now ≡ ended_immediately r
unfolding failed_immediately ended_immediately
failed_immediately-eq r now = ground arith

All-retain : (p : ℕ → Bool) (xs : List ℕ) → All (λ x. p x ≡ true) (retain p xs)
All-retain p [] = tt
All-retain p (x ∷ xs) = ground (arith, All-retain p xs)

All-drop : (P : ℕ → Type 0) (n : ℕ) (xs : List ℕ) → All P xs → All P (drop n xs)
All-drop P zero xs h = h
All-drop P (suc n) [] h = tt
All-drop P (suc n) (x ∷ xs) h = All-drop P n xs h.1

drop-append_one :
    (n : ℕ) (xs : List ℕ) (x : ℕ) → n ≤ length xs → drop n (xs ++ x ∷ []) ≡ drop n xs ++ x ∷ []
drop-append_one zero xs x h = refl
drop-append_one (suc n) [] x h = absurd (omega arith)
drop-append_one (suc n) (y ∷ xs) x h = drop-append_one n xs x (omega arith)

keep_newest-append_one :
    (xs : List ℕ) (x : ℕ) → keep_newest 16 (xs ++ x ∷ []) ≡ drop (length xs + 1 - 16) xs ++ x ∷ []
keep_newest-append_one xs x =
    rw (length-append xs (x ∷ [])) (drop-append_one (length xs + 1 - 16) xs x (omega arith))

pub length-keep_newest : (xs : List ℕ) → length (keep_newest 16 xs) ≤ 16
length-keep_newest xs = omega (arith, length-drop (length xs - 16) xs)

within_memory_cutoff :
    (now : ℕ) (xs : List ℕ)
    → seconds 3600 ≤ now
    → within_memory now xs ≡ retain (λ entry. leb (now - seconds 3600) entry) xs
within_memory_cutoff now xs h = ground arith

-- Noting the failure of a record with an end, at a time that has an hour before it, keeps at most
-- sixteen entries: the last is the record's end, and every earlier one is inside the memory
-- window.
pub note_immediate_failure_history :
    (r : SessionRecord) (now end : ℕ)
    → r.closed_at ≡ some end
    → seconds 3600 ≤ now
    → let history = (note_immediate_failure r now).immediate_failures in
      (length history ≤ 16)
      × (older : List ℕ) × (history ≡ older ++ end ∷ [])
      × All (λ entry. leb (now - seconds 3600) entry ≡ true) older
unfolding note_immediate_failure
note_immediate_failure_history r now end e h =
    let kept : List ℕ = retain (λ entry. leb (now - seconds 3600) entry) r.immediate_failures in
    (
      length-keep_newest (within_memory now r.immediate_failures ++ unwrap_or r.closed_at now ∷ []),
      drop (length kept + 1 - 16) kept,
      rw (within_memory_cutoff now r.immediate_failures h, e) (keep_newest-append_one kept end),
      All-drop _ (length kept + 1 - 16) kept (All-retain _ r.immediate_failures),
    )
