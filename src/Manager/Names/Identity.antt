-- ===== src/Manager/Names/Identity.antt =====
-- src/observer_manager.rs: `next_group_identity` ends with an identifier and a title that are accepted.
use herdr_tether.Prelude.{
  ℕ, suc, ◌≤◌, ◌<◌, Bool, true, false, some, List, [], ◌∷◌, ◌++◌, ◌≡◌, refl, arith, ◌==◌, length,
  length-append, any, All, is_empty, Option-cases, if_both, inl, inr,
}
use herdr_tether.Prelude.Decimal.{
  decimal, decimal_in, decimal_in-digits, decimal_in-nonempty, length-decimal_in,
}
use herdr_tether.Prelude.Text.{Text, codes, is_ascii_digit, is_ascii_lowercase}
use herdr_tether.Manager.Names.Suffix.{free_suffix-found, free_suffix-enough}
use herdr_tether.Session.{OrchestrationGroup}
use herdr_tether.Groups.{is_group}
use herdr_tether.Identifiers.{first_is, parse_group_id, parse_title}
use herdr_tether.Manager.Names.{
  slug, identity_base, identity_id, identity_title, free_suffix, next_group_identity,
  safe_component,
}
use herdr_tether.Manager.Names.Safe.{safe_component-title}
use herdr_tether.Manager.Names.Slug.{
  is_word, is_word-append, slug-is_word, is_word-kind, is_word-doubled, is_word-last,
  is_word-byte_len,
}

digits-is_word :
    (dash : Bool) (xs : Text)
    → All (λ c. is_ascii_digit c ≡ true) xs
    → is_empty xs ≡ false
    → is_word dash xs ≡ true
digits-is_word dash [] h k = absurd (ground (arith, k))
digits-is_word dash (x ∷ []) (h, hs) k = ground (arith, h)
digits-is_word dash (x ∷ y ∷ ys) (h, hs) k =
    ground (arith, h, digits-is_word false (y ∷ ys) hs refl)

decimal-is_word : (n : ℕ) → is_word true (decimal n) ≡ true
unfolding decimal
decimal-is_word n =
    digits-is_word true (decimal_in 19 n) (decimal_in-digits 19 n) (decimal_in-nonempty 19 n)

word_id :
    (id : Text)
    → is_word true id ≡ true
    → first_is is_ascii_lowercase id ≡ true
    → is_empty id ≡ false
    → length id ≤ 64
    → parse_group_id id ≡ some id
unfolding parse_group_id
word_id id word first full short =
    rw
      (
        first,
        full,
        is_word-kind true id word,
        is_word-doubled true id word,
        is_word-last true id word full,
      )
      (ground (arith, is_word-byte_len true id word, short))

identity_base-is_word :
    (host repository : Text)
    → (is_word true (identity_base host repository) ≡ true)
      × (length (identity_base host repository) ≤ 58)
unfolding identity_base
identity_base-is_word host repository =
    let (one, short) = slug-is_word host 17 in
    let (two, brief) = slug-is_word repository 17 in
    (
      is_word-append true (codes "observer") (slug host 24 ++ b'-' ∷ slug repository 24) refl
          (is_word-append true (slug host 24) (slug repository 24) one two),
      omega (arith, short, brief, length-append (slug host 24) (b'-' ∷ slug repository 24)),
    )

identity_id-is_word :
    (base : Text) (n : ℕ) → is_word true base ≡ true → is_word true (identity_id base n) ≡ true
unfolding identity_id
identity_id-is_word base n word =
    if_both (λ (t : Text). is_word true t ≡ true) (n == 1) (λ first. word)
      (λ later. is_word-append true base (decimal n) word (decimal-is_word n))

identity_id-short :
    (base : Text) (n : ℕ) → length base ≤ 58 → n < 100 → length (identity_id base n) ≤ 64
unfolding identity_id decimal
identity_id-short base n short few =
    if_both (λ (t : Text). length t ≤ 64) (n == 1) (λ first. omega arith)
      (λ later.
        omega
          (arith, length-append base (b'-' ∷ decimal n), length-decimal_in 19 1 n (omega arith)))

nonempty : (xs : Text) → first_is is_ascii_lowercase xs ≡ true → is_empty xs ≡ false
nonempty [] h = absurd (ground (arith, h))
nonempty (x ∷ xs) h = refl

identity_id-first :
    (host repository : Text) (n : ℕ)
    → first_is is_ascii_lowercase (identity_id (identity_base host repository) n) ≡ true
unfolding identity_id identity_base
identity_id-first host repository n =
    if_both (λ (t : Text). first_is is_ascii_lowercase t ≡ true) (n == 1) (λ first. refl)
      (λ later. refl)

identity_id-accepted :
    (host repository : Text) (n : ℕ)
    → n < 100
    → parse_group_id (identity_id (identity_base host repository) n)
      ≡ some (identity_id (identity_base host repository) n)
identity_id-accepted host repository n few =
    let base = identity_base host repository in
    let (word, short) = identity_base-is_word host repository in
    let first = identity_id-first host repository n in
    word_id (identity_id base n) (identity_id-is_word base n word) first
      (nonempty (identity_id base n) first) (identity_id-short base n short few)

-- For at most 32 groups, the identity that is made for the next one has an identifier that no group has,
-- an identifier and a title that the parsers accept, and is found without a panic in as many rounds as
-- there are groups, and one more.
pub next_group_identity-accepted :
    (gs : List OrchestrationGroup) (host repository : Text)
    → length gs ≤ 32
    → (id : Text) × (title : Text) × (next_group_identity gs host repository ≡ some (id, title))
      × (any (is_group id) gs ≡ false)
      × (parse_group_id id ≡ some id)
      × (parse_title title ≡ some title)
unfolding next_group_identity
next_group_identity-accepted gs host repository few =
    let base = identity_base host repository in
    elim (Option-cases (free_suffix (suc (length gs)) gs base 1)) [
      | inl out ↦ absurd (free_suffix-enough gs base few out)
      | inr (n, found) ↦
          let (free, low, less) = free_suffix-found (suc (length gs)) gs base 1 n found in
          let accepted = identity_id-accepted host repository n (omega arith) in
          let titled =
            safe_component-title (identity_title host repository n) 128 (omega arith)
              (omega arith) in
          (
            identity_id base n,
            safe_component (identity_title host repository n) 128,
            rw (found, next_group_identity) (rw (accepted, titled) refl),
            free,
            accepted,
            titled,
          )
    ]
