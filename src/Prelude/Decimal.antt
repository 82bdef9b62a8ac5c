-- ===== src/Prelude/Decimal.antt =====
-- Decimal digits: what `Display` of an unsigned integer writes, and what its `from_str` reads.
use Prim.Native.Nat.{ℕ, zero, suc, ◌+◌, ◌-◌, ◌*◌, ◌/◌, ◌%◌, ◌<◌, ◌≤◌}
use mathlib.Core.Path.{◌≡◌, refl}
use mathlib.Core.Bool.{true, false}
use mathlib.Core.List.{[], ◌∷◌, ◌++◌}
use mathlib.Core.Option.{Option, none, some}
use mathlib.Core.Logic.{inl, inr}
use native.Mathlib.Omega.{arith}
use herdr_tether.Prelude.Tests.{ltb, if◌then◌else◌, Bool-cases, if_both, some_eq}
use herdr_tether.Prelude.Lists.{All, All-append, length, length-append, is_empty}
use herdr_tether.Prelude.Text.{Text, is_ascii_digit}

-- The digits of a number of at most f + 1 of them.
unfoldable pub decimal_in : ℕ → ℕ → Text
decimal_in zero n = (48 + n % 10) ∷ []
decimal_in (suc f) n =
    let rest = decimal_in f (n / 10) in
    if ltb n 10 then (48 + n) ∷ [] else rest ++ (48 + n % 10) ∷ []

-- A `u64` or a `usize` has at most 20 digits.
unfoldable pub decimal : ℕ → Text
unfolding decimal_in
decimal n = decimal_in 19 n

-- The value of digits behind those read before, refused from the bound on.
unfoldable pub parse_from : ℕ → ℕ → Text → Option ℕ
parse_from bound acc [] = some acc
parse_from bound acc (c ∷ cs) =
    let next = acc * 10 + (c - 48) in
    let rest = parse_from bound next cs in if ltb next bound then rest else none

-- The first number that has more than f + 1 digits.
abbrev pub tens : ℕ → ℕ
tens zero = 10
tens (suc f) = 10 * tens f

parse_from-append :
    (bound acc v c : ℕ) (xs : Text)
    → parse_from bound acc xs ≡ some v
    → parse_from bound acc (xs ++ c ∷ []) ≡ parse_from bound v (c ∷ [])
unfolding parse_from
parse_from-append bound acc v c [] h = rw (some_eq h) refl
parse_from-append bound acc v c (x ∷ xs) h = elim (Bool-cases (ltb (acc * 10 + (x - 48)) bound)) [
  | inl low ↦ rw low (parse_from-append bound (acc * 10 + (x - 48)) v c xs (rw low at h))
  | inr high ↦ absurd (ground (arith, h, high))
]

pub parse-decimal_in :
    (bound f n : ℕ) → n < bound → n < tens f → parse_from bound 0 (decimal_in f n) ≡ some n
unfolding parse_from decimal_in
parse-decimal_in bound zero n low few = ground arith
parse-decimal_in bound (suc f) n low few = elim (Bool-cases (ltb n 10)) [
  | inl digit ↦ rw digit (ground arith)
  | inr more ↦ rw more (
      rw
        (parse_from-append bound 0 (n / 10) (48 + n % 10) (decimal_in f (n / 10))
          (parse-decimal_in bound f (n / 10) (omega arith) (omega arith)))
        (ground arith))
]

pub decimal_in-digits : (f n : ℕ) → All (λ c. is_ascii_digit c ≡ true) (decimal_in f n)
unfolding decimal_in
decimal_in-digits zero n = (ground arith, tt)
decimal_in-digits (suc f) n =
    if_both (All (λ c. is_ascii_digit c ≡ true)) (ltb n 10) (λ digit. (ground arith, tt))
      (λ more.
        All-append (λ c. is_ascii_digit c ≡ true) (decimal_in f (n / 10)) ((48 + n % 10) ∷ [])
          (decimal_in-digits f (n / 10)) (ground arith, tt))

-- A number below `tens k` has at most k + 1 digits.
pub length-decimal_in : (f k n : ℕ) → n < tens k → length (decimal_in f n) ≤ suc k
unfolding decimal_in
length-decimal_in zero k n low = omega arith
length-decimal_in (suc f) zero n low =
    if_both (λ (xs : Text). length xs ≤ 1) (ltb n 10) (λ digit. omega arith)
      (λ more. absurd (ground (arith, more)))
length-decimal_in (suc f) (suc k) n low =
    if_both (λ (xs : Text). length xs ≤ suc (suc k)) (ltb n 10) (λ digit. omega arith)
      (λ more. omega (
        arith,
        length-append (decimal_in f (n / 10)) ((48 + n % 10) ∷ []),
        length-decimal_in f k (n / 10) (omega arith),
      ))

pub decimal_in-nonempty : (f n : ℕ) → is_empty (decimal_in f n) ≡ false
unfolding decimal_in
decimal_in-nonempty zero n = refl
decimal_in-nonempty (suc f) n =
    if_both (λ (xs : Text). is_empty xs ≡ false) (ltb n 10) (λ digit. refl)
      (λ more. tail_nonempty (decimal_in f (n / 10)) (48 + n % 10))
  where
    tail_nonempty : (xs : Text) (c : ℕ) → is_empty (xs ++ c ∷ []) ≡ false
    tail_nonempty [] c = refl
    tail_nonempty (x ∷ xs) c = refl
