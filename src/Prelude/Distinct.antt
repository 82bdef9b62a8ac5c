-- ===== src/Prelude/Distinct.antt =====
-- Pigeonholes: distinct texts that all stand in a list are no more than it has.
use Prim.Native.Nat.{suc, ◌≤◌}
use mathlib.Core.Path.{◌≡◌, refl, ap}
use mathlib.Core.Bool.{true, false}
use mathlib.Core.Logic.{inl, inr}
use mathlib.Core.List.{List, [], ◌∷◌}
use native.Mathlib.Omega.{arith}
use herdr_tether.Prelude.Tests.{if◌then◌else◌, Bool-cases}
use herdr_tether.Prelude.Lists.{length, All, is_in}
use herdr_tether.Prelude.Text.{Text, text_eq, text_eq_sound}

-- One text is taken out of a list, where it is in it.
abbrev without_text : Text → List Text → List Text
without_text t [] = []
without_text t (u ∷ us) = let rest = without_text t us in if text_eq u t then us else u ∷ rest

length-without_text :
    (t : Text) (us : List Text)
    → is_in text_eq us t ≡ true
    → suc (length (without_text t us)) ≡ length us
length-without_text t [] h = absurd (ground (arith, h))
length-without_text t (u ∷ us) h = elim (Bool-cases (text_eq u t)) [
  | inl here ↦ rw here refl
  | inr other ↦ rw other (ap suc (length-without_text t us (ground (arith, h, other))))
]

is_in-without_text :
    (t v : Text) (us : List Text)
    → text_eq t v ≡ false
    → is_in text_eq us v ≡ true
    → is_in text_eq (without_text t us) v ≡ true
is_in-without_text t v [] differ h = h
is_in-without_text t v (u ∷ us) differ h = elim (Bool-cases (text_eq u t)) [
  | inl here ↦
      let moved = ap (λ w. text_eq w v) (text_eq_sound u t here) in
      rw here (ground (arith, h, differ, moved))
  | inr other ↦ rw other (ground (arith, is_in-without_text t v us differ, h))
]

abbrev pub Distinct : List Text → Type 0
Distinct [] = Unit
Distinct (t ∷ ts) = All (λ u. text_eq t u ≡ false) ts × Distinct ts

abbrev pub Among : List Text → List Text → Type 0
Among us ts = All (λ t. is_in text_eq us t ≡ true) ts

Among-without_text :
    (t : Text) (us ts : List Text)
    → All (λ u. text_eq t u ≡ false) ts
    → Among us ts
    → Among (without_text t us) ts
Among-without_text t us [] h k = tt
Among-without_text t us (v ∷ ts) (h, hs) (k, ks) =
    (is_in-without_text t v us h k, Among-without_text t us ts hs ks)

-- Distinct texts of a list are no more than the list has.
pub pigeonhole : (ts us : List Text) → Distinct ts → Among us ts → length ts ≤ length us
pigeonhole [] us d h = omega arith
pigeonhole (t ∷ ts) us (new, d) (h, hs) = omega (
  arith,
  pigeonhole ts (without_text t us) d (Among-without_text t us ts new hs),
  length-without_text t us h,
)
