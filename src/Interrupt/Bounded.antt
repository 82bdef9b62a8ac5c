-- ===== src/Interrupt/Bounded.antt =====
-- src/interrupt.rs: a retried wait stays bounded, and reports what the operation reported.
use herdr_tether.Prelude.{ℕ, zero, suc, ◌+◌, ◌≤◌, ◌<◌, ◌≢◌, Option, none, some, arith}
use herdr_tether.Interrupt.{Outcome, within, until, retry, retry_interrupted}

module _ {A : Type 0} (operation : ℕ → Outcome A) (opened_at now : ℕ → ℕ) where
  until_bounded :
      (advances : (i : ℕ) → now i < now (suc i)) (k deadline i : ℕ) (window : Option ℕ)
      → deadline ≤ now i + k
      → retry operation opened_at now (suc k) (until deadline) window i ≢ none
  unfolding retry
  until_bounded advances zero deadline i window h = ground arith
  until_bounded advances (suc k) deadline i window h =
      ground (arith, advances i, until_bounded advances k deadline (suc i) window)

  window_bounded :
      (advances : (i : ℕ) → now i < now (suc i)) (k d deadline i : ℕ)
      → deadline ≤ now i + k
      → retry operation opened_at now (suc k) (within d) (some deadline) i ≢ none
  unfolding retry
  window_bounded advances zero d deadline i h = ground arith
  window_bounded advances (suc k) d deadline i h =
      ground (arith, advances i, window_bounded advances k d deadline (suc i))

  -- Under a relative bound of `d`, the retries return after at most `d + 2` attempts, however many
  -- signals arrive, if each attempt lets the clock advance and the reading that opens the window
  -- is not after the one that is compared with the deadline.
  pub within_bounded :
      (advances : (i : ℕ) → now i < now (suc i)) (opens : (i : ℕ) → opened_at i ≤ now i) (d : ℕ)
      → retry_interrupted operation opened_at now (suc (suc d)) (within d) ≢ none
  unfolding retry_interrupted retry
  within_bounded advances opens d =
      ground (arith, advances 0, opens 0, window_bounded advances d d (opened_at 0 + d) 1)
