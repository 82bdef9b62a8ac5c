-- ===== src/Prelude/Once.antt =====
-- Lists in which nothing stands twice, by counting.
use Prim.Native.Nat.{◌+◌, ◌≤◌}
use mathlib.Core.Path.{◌≡◌, refl, sym, ap, ◌∙◌}
use mathlib.Core.Logic.{◌↔◌, inl, inr}
use mathlib.Core.Bool.{Bool, true, false}
use mathlib.Core.List.{List, [], ◌∷◌, ◌++◌}
use native.Mathlib.Omega.{arith}
use herdr_tether.Prelude.Tests.{if◌then◌else◌, Bool-cases}
use herdr_tether.Prelude.Lists.{is_in, count}

module _ {A : Type 0} (eq : A → A → Bool) where
  -- Nothing stands twice in a list, or in it and in a set of elements seen before.
  abbrev pub Fresh : List A → List A → Type 0
  Fresh seen xs = (a : A) → (if is_in eq seen a then 1 else 0) + count eq a xs ≤ 1

  abbrev pub Once : List A → Type 0
  Once xs = (a : A) → count eq a xs ≤ 1

  pub count-append :
      (a : A) (xs ys : List A) → count eq a (xs ++ ys) ≡ count eq a xs + count eq a ys
  count-append a [] ys = omega arith
  count-append a (x ∷ xs) ys = omega (arith, count-append a xs ys)

  pub count-is_in : (a : A) (xs : List A) → is_in eq xs a ≡ false → count eq a xs ≡ 0
  count-is_in a [] h = refl
  count-is_in a (x ∷ xs) h = ground (arith, count-is_in a xs)

  pub Fresh-nil : (xs : List A) → Fresh [] xs ↔ Once xs
  Fresh-nil xs = (λ h a. omega (arith, h a), λ h a. omega (arith, h a))

  pub Fresh-append_left : (seen xs ys : List A) → Fresh seen (xs ++ ys) → Fresh seen xs
  Fresh-append_left seen xs ys h a = omega (arith, h a, count-append a xs ys)

  module _ (sound : (x y : A) → eq x y ≡ true → x ≡ y) (eq_refl : (x : A) → eq x x ≡ true) where
    -- The loop that inserts each element into the set and refuses one that was there.
    pub Fresh-cons :
        (seen : List A) (x : A) (xs : List A)
        → Fresh seen (x ∷ xs) ↔ ((is_in eq seen x ≡ false) × Fresh (x ∷ seen) xs)
    Fresh-cons seen x xs = (
      λ h. (ground (arith, h x, eq_refl x), λ a. ground (arith, h a)),
      λ h a. elim (Bool-cases (eq x a)) [
        | inl same ↦ ground (arith, h.1 a, same, sym (ap (is_in eq seen) (sound x a same)) ∙ h.0)
        | inr other ↦ ground (arith, h.1 a, other)
      ],
    )
