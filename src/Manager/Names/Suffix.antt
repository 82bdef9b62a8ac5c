-- ===== src/Manager/Names/Suffix.antt =====
-- src/observer_manager.rs: the search of `next_group_identity` for a suffix ends.
use herdr_tether.Prelude.{
  ℕ, zero, suc, ◌≤◌, ◌<◌, ◌+◌, false, ◌||◌, none, some, List, [], ◌∷◌, ◌++◌, ◌≡◌, refl, sym, ap,
  subst, ◌∙◌, arith, ◌==◌, if◌then◌else◌, length, any, All, is_in, Bool-cases, inl, inr, some_eq,
  length-map,
}
use herdr_tether.Prelude.Decimal.{decimal, tens, parse_from, parse-decimal_in}
use herdr_tether.Prelude.Text.{Text, text_eq, text_eq_sound}
use herdr_tether.Prelude.Distinct.{Distinct, Among, pigeonhole}
use herdr_tether.Session.{OrchestrationGroup}
use herdr_tether.Groups.Valid.{names_of}
use herdr_tether.Identifiers.{strip_prefix}
use herdr_tether.Manager.Names.{identity_id, free_suffix}

strip-append : (p t : Text) → strip_prefix p (p ++ t) ≡ some t
strip-append [] t = refl
strip-append (c ∷ cs) t = ground (arith, strip-append cs t)

decimal-injective : (m n : ℕ) → m < tens 19 → n < tens 19 → decimal m ≡ decimal n → m ≡ n
unfolding decimal
decimal-injective m n low few same = some_eq (
    sym (parse-decimal_in (tens 19) 19 m low low)
    ∙ ap (parse_from (tens 19) 0) same
    ∙ parse-decimal_in (tens 19) 19 n few few)

strip_self : (p : Text) → strip_prefix p p ≡ some []
strip_self [] = refl
strip_self (c ∷ cs) = ground (arith, strip_self cs)

abbrev suffix_text : ℕ → Text
unfolding decimal
suffix_text n = if n == 1 then [] else b'-' ∷ decimal n

strip-identity :
    (base : Text) (n : ℕ) → strip_prefix base (identity_id base n) ≡ some (suffix_text n)
unfolding identity_id
strip-identity base n = elim (Bool-cases (n == 1)) [
  | inl first ↦ rw first (strip_self base)
  | inr later ↦ rw later (strip-append base (b'-' ∷ decimal n))
]

tail_eq : (c : ℕ) (xs ys : Text) → ◌≡◌ {A = Text} (c ∷ xs) (c ∷ ys) → xs ≡ ys
tail_eq c xs ys h = cc

-- The second of two suffixes is not the first one, which is not written.
suffix_text-injective : (m n : ℕ) → 1 ≤ m → m < n → n < tens 19 → suffix_text m ≡ suffix_text n → ⊥
unfolding decimal
suffix_text-injective m n low less few h = elim (Bool-cases (m == 1)) [
  | inl first ↦ ground (arith, h, first, less)
  | inr later ↦
      let other : (n == 1) ≡ false = ground (arith, low, less) in
      let digits : decimal m ≡ decimal n =
        tail_eq b'-' (decimal m) (decimal n) (rw (later, other) at h) in
      ground (arith, decimal-injective m n (omega arith) few digits, less)
]

identity-injective :
    (base : Text) (m n : ℕ)
    → 1 ≤ m
    → m < n
    → n < tens 19
    → text_eq (identity_id base m) (identity_id base n) ≡ false
identity-injective base m n low less few =
    elim (Bool-cases (text_eq (identity_id base m) (identity_id base n))) [
      | inr other ↦ other
      | inl same ↦ absurd (
          suffix_text-injective m n low less few (
            some_eq (
              sym (strip-identity base m)
              ∙ ap (strip_prefix base)
                  (text_eq_sound (identity_id base m) (identity_id base n) same)
              ∙ strip-identity base n)))
    ]

abbrev identities : Text → ℕ → ℕ → List Text
identities base suffix zero = []
identities base suffix (suc n) = identity_id base suffix ∷ identities base (suc suffix) n

identities-differ :
    (base : Text) (m k n : ℕ)
    → 1 ≤ m
    → m < k
    → k + n < tens 19
    → All (λ u. text_eq (identity_id base m) u ≡ false) (identities base k n)
identities-differ base m k zero low less few = tt
identities-differ base m k (suc n) low less few = (
  identity-injective base m k low less (omega arith),
  identities-differ base m (suc k) n low (omega arith) (omega arith),
)

identities-Distinct :
    (base : Text) (k n : ℕ) → 1 ≤ k → k + n < tens 19 → Distinct (identities base k n)
identities-Distinct base k zero low few = tt
identities-Distinct base k (suc n) low few = (
  identities-differ base k (suc k) n low (omega arith) (omega arith),
  identities-Distinct base (suc k) n (omega arith) (omega arith),
)

length-identities : (base : Text) (k n : ℕ) → length (identities base k n) ≡ n
length-identities base k zero = refl
length-identities base k (suc n) = ap suc (length-identities base (suc k) n)

any-is_in :
    (t : Text) (gs : List OrchestrationGroup)
    → any (λ (g : OrchestrationGroup). text_eq g.id t) gs ≡ is_in text_eq (names_of gs) t
any-is_in t [] = refl
any-is_in t (g ∷ gs) = ap (λ b. text_eq g.id t || b) (any-is_in t gs)

-- Where the search runs out of rounds, every name that it tried is a group's.
free_suffix-taken :
    (fuel : ℕ) (gs : List OrchestrationGroup) (base : Text) (k : ℕ)
    → free_suffix fuel gs base k ≡ none
    → Among (names_of gs) (identities base k fuel)
unfolding free_suffix
free_suffix-taken zero gs base k h = tt
free_suffix-taken (suc fuel) gs base k h =
    elim (Bool-cases (any (λ (g : OrchestrationGroup). text_eq g.id (identity_id base k)) gs)) [
      | inl taken ↦ (
        sym (any-is_in (identity_id base k) gs) ∙ taken,
        free_suffix-taken fuel gs base (suc k) (ground (arith, h, taken)),
      )
      | inr free ↦ absurd (ground (arith, h, free))
    ]

pub free_suffix-found :
    (fuel : ℕ) (gs : List OrchestrationGroup) (base : Text) (k n : ℕ)
    → free_suffix fuel gs base k ≡ some n
    → (any (λ (g : OrchestrationGroup). text_eq g.id (identity_id base n)) gs ≡ false)
      × (k ≤ n)
      × (n < k + fuel)
unfolding free_suffix
free_suffix-found zero gs base k n h = absurd (ground (arith, h))
free_suffix-found (suc fuel) gs base k n h =
    elim (Bool-cases (any (λ (g : OrchestrationGroup). text_eq g.id (identity_id base k)) gs)) [
      | inl taken ↦
          let (free, low, few) =
            free_suffix-found fuel gs base (suc k) n (ground (arith, h, taken)) in
          (free, omega arith, omega arith)
      | inr free ↦
          let here : k ≡ n = some_eq (rw free at h) in
          (
            subst
                (λ j.
                  any (λ (g : OrchestrationGroup). text_eq g.id (identity_id base j)) gs ≡ false)
                here free,
            omega (arith, here),
            omega (arith, here),
          )
    ]

-- One round more than there are groups is enough.
pub free_suffix-enough :
    (gs : List OrchestrationGroup) (base : Text)
    → length gs ≤ 32
    → free_suffix (suc (length gs)) gs base 1 ≡ none
    → ⊥
free_suffix-enough gs base few h = omega (
  arith,
  pigeonhole (identities base 1 (suc (length gs))) (names_of gs)
      (identities-Distinct base 1 (suc (length gs)) (omega arith) (omega arith))
      (free_suffix-taken (suc (length gs)) gs base 1 h),
  length-identities base 1 (suc (length gs)),
  length-map (λ (g : OrchestrationGroup). g.id) gs,
)
