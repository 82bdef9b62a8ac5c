-- ===== src/Identifiers/RoundTrip.antt =====
-- src/model.rs: an identity that is written is read back, and no name of a foreign session reads as
-- one of Tether's.
use herdr_tether.Prelude.{
  ℕ, ◌<◌, ◌++◌, ap, ◌∙◌, ◌↔◌, is_in, some_eq, ==_iff, length, Bool, true, Option, none, some, [],
  ◌∷◌, ◌≡◌, refl, arith, ◌==◌, all, All, Bool-cases, Option-cases, inl, inr,
}
use herdr_tether.Prelude.Decimal.{
  decimal, decimal_in, tens, parse-decimal_in, decimal_in-digits, decimal_in-nonempty,
}
use herdr_tether.Prelude.Text.{Text, codes, byte_len, is_ascii_digit}
use herdr_tether.Identifiers.{
  u64_bound, strip_prefix, starts_with, session_prefix, is_simple, display_session_id,
  parse_session_id, parse_membership_id, display_tmux_session_id, parse_tmux_session_id,
  is_lower_hex, parse_ownership_proof, display_tmux_pane_id, parse_tmux_pane_id, parse_number,
  parse_external_session_name,
}

All-all : (p : ℕ → Bool) (xs : Text) → All (λ c. p c ≡ true) xs → all p xs ≡ true
All-all p [] h = refl
All-all p (x ∷ xs) (h, hs) = ground (arith, All-all p xs hs)

u64_digits : (n : ℕ) → n < u64_bound → n < tens 19
unfolding u64_bound
u64_digits n h = omega arith

parse_number-decimal : (n : ℕ) → n < u64_bound → parse_number (decimal n) ≡ some n
unfolding parse_number decimal
parse_number-decimal n low =
    rw (decimal_in-nonempty 19 n, All-all is_ascii_digit (decimal_in 19 n) (decimal_in-digits 19 n))
      (parse-decimal_in u64_bound 19 n low (u64_digits n low))

-- A tmux session identity and a tmux pane identity below 2 ^ 64 are read back as they were written.
pub tmux_id-round_trip :
    (n : ℕ)
    → n < u64_bound
    → (parse_tmux_session_id (display_tmux_session_id n) ≡ some n)
      × (parse_tmux_pane_id (display_tmux_pane_id n) ≡ some n)
unfolding parse_tmux_session_id display_tmux_session_id parse_tmux_pane_id display_tmux_pane_id
tmux_id-round_trip n low = (parse_number-decimal n low, parse_number-decimal n low)

strip-starts : (p t rest : Text) → strip_prefix p t ≡ some rest → starts_with p t ≡ true
strip-starts [] t rest h = refl
strip-starts (p ∷ ps) [] rest h = absurd (ground arith)
strip-starts (p ∷ ps) (c ∷ cs) rest h = elim (Bool-cases (c == p)) [
  | inl same ↦ ground (arith, strip-starts ps cs rest (rw same at h), same)
  | inr other ↦ absurd (ground (arith, h, other))
]

-- What is left behind a prefix is the rest of the text.
pub strip-rest : (p t rest : Text) → strip_prefix p t ≡ some rest → t ≡ p ++ rest
strip-rest [] t rest h = some_eq h
strip-rest (p ∷ ps) [] rest h = absurd (ground arith)
strip-rest (p ∷ ps) (c ∷ cs) rest h = elim (Bool-cases (c == p)) [
  | inl same ↦
      ap (λ d. d ∷ cs) ((==_iff c p).0 same)
      ∙ ap (λ ds. p ∷ ds) (strip-rest ps cs rest (rw same at h))
  | inr other ↦ absurd (ground (arith, h, other))
]

abbrev pub hex_digits : Text
hex_digits = codes "0123456789abcdef"

-- The simple form of a UUID: 32 lowercase hexadecimal digits.
pub record SimpleForm (t : Text) : Type 0 where
  pub long : length t ≡ 32
  pub digits : All (λ c. is_in ◌==◌ hex_digits c ≡ true) t

hex_digit-is_lower_hex : (c : ℕ) → is_in ◌==◌ hex_digits c ≡ true → is_lower_hex c ≡ true
hex_digit-is_lower_hex c h = ground (arith, h)

is_lower_hex-hex_digit : (c : ℕ) → is_lower_hex c ≡ true → is_in ◌==◌ hex_digits c ≡ true
is_lower_hex-hex_digit c h = ground (arith, h)

hex-byte_len : (t : Text) → all is_lower_hex t ≡ true → byte_len t ≡ length t
hex-byte_len [] h = refl
hex-byte_len (c ∷ cs) h = ground (arith, h, hex-byte_len cs)

hex_digits-all :
    (t : Text) → All (λ c. is_in ◌==◌ hex_digits c ≡ true) t → all is_lower_hex t ≡ true
hex_digits-all [] h = refl
hex_digits-all (c ∷ cs) (h, hs) = ground (arith, hex_digit-is_lower_hex c h, hex_digits-all cs hs)

all-hex_digits :
    (t : Text) → all is_lower_hex t ≡ true → All (λ c. is_in ◌==◌ hex_digits c ≡ true) t
all-hex_digits [] h = tt
all-hex_digits (c ∷ cs) h =
    (is_lower_hex-hex_digit c (ground (arith, h)), all-hex_digits cs (ground (arith, h)))

is_simple_iff : (t : Text) → (is_simple t ≡ true) ↔ SimpleForm t
unfolding is_simple
is_simple_iff t = (
  (λ h.
      let hex : all is_lower_hex t ≡ true = ground (arith, h) in
      record { long = ground (arith, h, hex-byte_len t hex); digits = all-hex_digits t hex }),
  (λ form.
      let hex = hex_digits-all t form.digits in ground (arith, hex, hex-byte_len t hex, form.long)),
)

module _ (simple : ℕ → Text) (parse_str : Text → Option ℕ) (version : ℕ → ℕ) where
  proof_iff :
      (uuid : ℕ) (t : Text)
      → SimpleForm (simple uuid)
      → parse_str (simple uuid) ≡ some uuid
      → ((u : Text) → SimpleForm u → parse_str u ≡ some uuid → u ≡ simple uuid)
      → (parse_ownership_proof simple parse_str version t ≡ some uuid) ↔ (t ≡ simple uuid)
  unfolding parse_ownership_proof
  proof_iff uuid t form reads only = (
    (λ h. elim (Bool-cases (is_simple t)) [
      | inl fits ↦ only t ((is_simple_iff t).0 fits) (rw fits at h)
      | inr other ↦ absurd (ground (arith, h, other))
    ]),
    (λ e. rw (e, (is_simple_iff (simple uuid)).1 form) reads),
  )

  membership_iff :
      (uuid : ℕ) (t : Text)
      → SimpleForm (simple uuid)
      → parse_str (simple uuid) ≡ some uuid
      → ((u : Text) → SimpleForm u → parse_str u ≡ some uuid → u ≡ simple uuid)
      → (parse_membership_id simple parse_str version t ≡ some uuid)
        ↔ ((t ≡ simple uuid) × (version uuid ≡ 7))
  unfolding parse_membership_id
  membership_iff uuid t form reads only = (
    (λ h. elim (Bool-cases (is_simple t)) [
      | inl fits ↦ elim (Option-cases (parse_str t)) [
        | inl unread ↦ absurd (ground (arith, h, fits, unread))
        | inr (found, read) ↦
            let same : found ≡ uuid = ground (arith, h, fits, read) in
            (
              only t ((is_simple_iff t).0 fits) (read ∙ ap some same),
              ground (arith, h, fits, read, same),
            )
      ]
      | inr other ↦ absurd (ground (arith, h, other))
    ]),
    (λ (e, seven). rw (e, (is_simple_iff (simple uuid)).1 form, reads, seven) refl),
  )

  -- A text is accepted as a session identity of a UUID exactly if it is what is written of it and the
  -- UUID has version 7, and as a membership or an ownership proof exactly if it is the UUID's simple
  -- form, and for a membership has version 7: where that form is 32 lowercase hexadecimal digits, reads
  -- as the UUID, and no other text of that form does.
  pub session_id-round_trip :
      (uuid : ℕ) (t : Text)
      → SimpleForm (simple uuid)
      → parse_str (simple uuid) ≡ some uuid
      → ((u : Text) → SimpleForm u → parse_str u ≡ some uuid → u ≡ simple uuid)
      → ((parse_session_id simple parse_str version t ≡ some uuid)
          ↔ ((t ≡ display_session_id simple parse_str version uuid) × (version uuid ≡ 7)))
        × ((parse_membership_id simple parse_str version t ≡ some uuid)
            ↔ ((t ≡ simple uuid) × (version uuid ≡ 7)))
        × ((parse_ownership_proof simple parse_str version t ≡ some uuid) ↔ (t ≡ simple uuid))
  unfolding parse_session_id display_session_id
  session_id-round_trip uuid t form reads only = (
    (
      (λ h. elim (Option-cases (strip_prefix session_prefix t)) [
        | inl foreign ↦ absurd (ground (arith, h, foreign))
        | inr (rest, ours) ↦
            let (same, seven) =
              (membership_iff uuid rest form reads only).0 (rw (ours, parse_session_id) at h) in
            (strip-rest session_prefix t rest ours ∙ ap (λ u. session_prefix ++ u) same, seven)
      ]),
      (λ (e, seven). rw e ((membership_iff uuid (simple uuid) form reads only).1 (refl, seven))),
    ),
    membership_iff uuid t form reads only,
    proof_iff uuid t form reads only,
  )

  -- No text is both a session identity of Tether and the name of a foreign session.
  pub external-not_owned :
      (t : Text) (uuid : ℕ)
      → parse_session_id simple parse_str version t ≡ some uuid
      → parse_external_session_name t ≡ none
  unfolding parse_session_id parse_external_session_name
  external-not_owned t uuid h = elim (Option-cases (strip_prefix session_prefix t)) [
    | inl foreign ↦ absurd (ground (arith, h, foreign))
    | inr (rest, ours) ↦ ground (arith, strip-starts session_prefix t rest ours)
  ]
