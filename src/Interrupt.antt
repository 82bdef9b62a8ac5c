-- ===== src/Interrupt.antt =====
-- src/interrupt.rs: `retry_interrupted`. The outcomes of `operation` and the readings of the clock
-- are given by the number of the attempt; `fuel` bounds the attempts, and `none` is a loop that is
-- still running after them.
pub mod Bounded
use herdr_tether.Prelude.{
  ℕ, zero, suc, ◌+◌, Bool, true, false, Option, none, some, leb, if◌then◌else◌,
}

-- `io::Result<T>`, with the one `ErrorKind` that the loop looks at; `timed_out` is the error that the
-- loop itself makes of the interruption.
pub data Outcome {ℓ} (A : Type ℓ) : Type ℓ where
  done : A → Outcome A
  interrupted : Outcome A
  failed : ℕ → Outcome A
  timed_out : Outcome A

pub data Budget : Type 0 where
  immediate : Budget
  within : ℕ → Budget
  until : ℕ → Budget

-- `window_deadline.get_or_insert_with(|| Instant::now() + window)`.
abbrev pub get_or_insert : Option ℕ → ℕ → ℕ
get_or_insert none fresh = fresh
get_or_insert (some deadline) fresh = deadline

module _ {ℓ} {A : Type ℓ} (operation : ℕ → Outcome A) (opened_at now : ℕ → ℕ) where
  -- After an interruption: the deadline in force, and the window that is open from here on.
  abbrev pub deadline_of : Budget → Option ℕ → ℕ → Option (ℕ × Option ℕ)
  deadline_of immediate window i = none
  deadline_of (within d) window i =
      let deadline = get_or_insert window (opened_at i + d) in some (deadline, some deadline)
  deadline_of (until deadline) window i = some (deadline, window)

  -- Attempt number `i`. `opened_at i` is the reading that opens the window, if none is open yet, and
  -- `now i` the one that is compared with the deadline.
  unfoldable pub retry : ℕ → Budget → Option ℕ → ℕ → Option (Outcome A)
  retry zero budget window i = none
  retry (suc fuel) budget window i = elim (operation i) [
    | done a ↦ some (done a)
    | failed kind ↦ some (failed kind)
    | timed_out ↦ some timed_out
    | interrupted ↦ elim (deadline_of budget window i) [
      | none ↦ retry fuel budget window (suc i)
      | some force ↦
          let again = retry fuel budget force.1 (suc i) in
          if leb force.0 (now i) then some timed_out else again
    ]
  ]

  unfoldable pub retry_interrupted : ℕ → Budget → Option (Outcome A)
  unfolding retry
  retry_interrupted fuel budget = retry fuel budget none 0
