-- ===== src/Manager/Names/Slug.antt =====
-- src/observer_manager.rs: `slug` makes a word of lowercase letters and digits with single dashes inside.
use herdr_tether.Prelude.{
  ℕ, zero, suc, ◌≤◌, ◌+◌, ◌-◌, Bool, true, false, not, ◌&&◌, ◌||◌, [], ◌∷◌, ◌++◌, ◌≡◌, refl, sym,
  ◌∙◌, arith, ltb, leb, if◌then◌else◌, length, length-append, all, take, is_empty, Bool-cases,
  if_both, inl, inr, ◌⊎◌,
}
use herdr_tether.Prelude.Text.{
  Text, codes, byte_len, is_ascii_lowercase, is_ascii_digit, is_ascii_alphanumeric,
}
use herdr_tether.Identifiers.{first_is, last_is, is_kind_char, doubled, is_separator}
use herdr_tether.Manager.Names.{trim_end, push_char, to_ascii_lowercase, slug_loop, is_dash, slug}

abbrev pub is_word_char : ℕ → Bool
is_word_char c = is_ascii_lowercase c || is_ascii_digit c

-- A word behind a character that was a dash or not: no dash stands at its end or beside another.
abbrev pub is_word : Bool → Text → Bool
is_word dash [] = not dash
is_word dash (c ∷ cs) =
    if is_dash c then not dash && is_word true cs else is_word_char c && is_word false cs

-- The start of a word, which may end in a dash.
abbrev is_start : Bool → Text → Bool
is_start dash [] = true
is_start dash (c ∷ cs) =
    if is_dash c then not dash && is_start true cs else is_word_char c && is_start false cs

-- Whether a dash stands last.
abbrev ends : Bool → Text → Bool
ends dash [] = dash
ends dash (c ∷ cs) = ends (is_dash c) cs

is_start-snoc :
    (dash : Bool) (xs : Text) (c : ℕ)
    → is_start dash xs ≡ true
    → (if is_dash c then not (ends dash xs) else is_word_char c) ≡ true
    → is_start dash (xs ++ c ∷ []) ≡ true
is_start-snoc dash [] c h k = ground arith
is_start-snoc dash (x ∷ xs) c h k = elim (Bool-cases (is_dash x)) [
  | inl here ↦ ground (arith, is_start-snoc true xs c, here, h, k)
  | inr other ↦ ground (arith, is_start-snoc false xs c, other, h, k)
]

ends-snoc : (dash : Bool) (xs : Text) (c : ℕ) → ends dash (xs ++ c ∷ []) ≡ is_dash c
ends-snoc dash [] c = refl
ends-snoc dash (x ∷ xs) c = ends-snoc (is_dash x) xs c

word_nonempty : (xs : Text) → is_word true xs ≡ true → is_empty xs ≡ false
word_nonempty [] h = absurd (ground (arith, h))
word_nonempty (x ∷ xs) h = refl

empty_word : (xs : Text) → is_empty xs ≡ true → is_word false xs ≡ true
empty_word [] h = refl
empty_word (x ∷ xs) h = absurd (ground (arith, h))

trim_end-is_word :
    (dash : Bool) (xs : Text)
    → is_start dash xs ≡ true
    → (is_empty (trim_end is_dash xs) ≡ true) ⊎ (is_word dash (trim_end is_dash xs) ≡ true)
unfolding trim_end
trim_end-is_word dash [] h = inl refl
trim_end-is_word dash (x ∷ xs) h = elim (Bool-cases (is_dash x)) [
  | inl here ↦ elim (trim_end-is_word true xs (ground (arith, h, here))) [
    | inl none_left ↦ inl (rw (none_left, here) refl)
    | inr word ↦ inr (rw (word_nonempty (trim_end is_dash xs) word) (ground (arith, h, here, word)))
  ]
  | inr other ↦ elim (trim_end-is_word false xs (ground (arith, h, other))) [
    | inl none_left ↦
        inr (
          rw other
            (ground (arith, other, h, empty_word (trim_end is_dash xs) none_left, none_left)))
    | inr word ↦ inr (rw other (ground (arith, other, h, word)))
  ]
]

take-is_start :
    (dash : Bool) (n : ℕ) (xs : Text) → is_start dash xs ≡ true → is_start dash (take n xs) ≡ true
take-is_start dash zero xs h = refl
take-is_start dash (suc n) [] h = refl
take-is_start dash (suc n) (x ∷ xs) h = elim (Bool-cases (is_dash x)) [
  | inl here ↦ ground (arith, take-is_start true n xs, h, here)
  | inr other ↦ ground (arith, take-is_start false n xs, h, other)
]

is_word-is_start : (dash : Bool) (xs : Text) → is_word dash xs ≡ true → is_start dash xs ≡ true
is_word-is_start dash [] h = refl
is_word-is_start dash (x ∷ xs) h = elim (Bool-cases (is_dash x)) [
  | inl here ↦ ground (arith, is_word-is_start true xs, h, here)
  | inr other ↦ ground (arith, is_word-is_start false xs, h, other)
]

-- Two words with a dash between them are a word.
pub is_word-append :
    (dash : Bool) (xs ys : Text)
    → is_word dash xs ≡ true
    → is_word true ys ≡ true
    → is_word dash (xs ++ b'-' ∷ ys) ≡ true
is_word-append dash [] ys h k = ground arith
is_word-append dash (x ∷ xs) ys h k = elim (Bool-cases (is_dash x)) [
  | inl here ↦ ground (arith, is_word-append true xs ys, h, here, k)
  | inr other ↦ ground (arith, is_word-append false xs ys, h, other, k)
]

record Held (max_bytes : ℕ) (output : Text) : Type 0 where
  start : is_start true output ≡ true
  short : length output ≤ max_bytes
  open_end : ltb (length output) max_bytes ≡ true → ends true output ≡ is_empty output

snoc_nonempty : (xs : Text) (c : ℕ) → is_empty (xs ++ c ∷ []) ≡ false
snoc_nonempty [] c = refl
snoc_nonempty (x ∷ xs) c = refl

-- A character of a word is pushed.
push_last-Held :
    (max_bytes : ℕ) (out : Text) (c : ℕ)
    → is_start true out ≡ true
    → length out ≤ max_bytes
    → is_dash c ≡ false
    → is_word_char c ≡ true
    → Held max_bytes (if ltb (length out) max_bytes then out ++ c ∷ [] else out)
push_last-Held max_bytes out c start short other char =
    if_both (Held max_bytes) (ltb (length out) max_bytes)
      (λ room. record {
        start = is_start-snoc true out c start (rw other char);
        short = ground (arith, room, length-append out (c ∷ []));
        open_end = λ h. ends-snoc true out c ∙ other ∙ sym (snoc_nonempty out c);
      })
      (λ full. record {
        start = start;
        short = short;
        open_end = λ h. absurd (ground (arith, h, full));
      })

push_char-Held :
    (max_bytes : ℕ) (due : Bool) (out : Text) (c : ℕ)
    → Held max_bytes out
    → is_dash c ≡ false
    → is_word_char c ≡ true
    → Held max_bytes (push_char max_bytes b'-' due out c)
push_char-Held max_bytes due out c held other char =
    elim (Bool-cases (due && not (is_empty out) && ltb (length out) max_bytes)) [
      | inl dashed ↦ rw dashed (
          push_last-Held max_bytes (out ++ b'-' ∷ []) c
            (is_start-snoc true out b'-' held.start
              (ground (arith, dashed, held.open_end (ground (arith, dashed)))))
            (ground (arith, dashed, length-append out (b'-' ∷ []))) other char)
      | inr plain ↦ rw plain (push_last-Held max_bytes out c held.start held.short other char)
    ]

lowered :
    (c : ℕ)
    → is_ascii_alphanumeric c ≡ true
    → (is_dash (to_ascii_lowercase c) ≡ false) × (is_word_char (to_ascii_lowercase c) ≡ true)
lowered c h = (ground (arith, h), ground (arith, h))

slug_loop-Held :
    (max_bytes : ℕ) (out : Text) (due : Bool) (input : Text)
    → Held max_bytes out
    → Held max_bytes (slug_loop max_bytes out due input)
unfolding slug_loop
slug_loop-Held max_bytes out due [] held = held
slug_loop-Held max_bytes out due (c ∷ cs) held = elim (Bool-cases (is_ascii_alphanumeric c)) [
  | inl admitted ↦
      let (other, char) = lowered c admitted in
      let pushed = push_char-Held max_bytes due out (to_ascii_lowercase c) held other char in
      rw admitted (
        if_both (Held max_bytes)
          (leb max_bytes (length (push_char max_bytes b'-' due out (to_ascii_lowercase c))))
          (λ full. pushed)
          (λ room.
            slug_loop-Held max_bytes (push_char max_bytes b'-' due out (to_ascii_lowercase c)) false
              cs pushed))
  | inr left_out ↦ rw left_out (
      if_both (Held max_bytes) (leb max_bytes (length out)) (λ full. held)
        (λ room. slug_loop-Held max_bytes out true cs held))
]

trim_end-le : (p : ℕ → Bool) (xs : Text) → length (trim_end p xs) ≤ length xs
unfolding trim_end
trim_end-le p [] = omega arith
trim_end-le p (x ∷ xs) =
    if_both (λ (ys : Text). length ys ≤ length (x ∷ xs)) (is_empty (trim_end p xs) && p x)
      (λ gone. omega arith) (λ kept. omega (arith, trim_end-le p xs))

-- A text that begins with a digit, cut and trimmed, is a word and not empty.
cut_word :
    (n : ℕ) (c : ℕ) (xs : Text)
    → is_dash c ≡ false
    → is_start true (c ∷ xs) ≡ true
    → is_word true (trim_end is_dash (take (suc n) (c ∷ xs))) ≡ true
unfolding trim_end
cut_word n c xs other h =
    elim (trim_end-is_word true (take (suc n) (c ∷ xs)) (take-is_start true (suc n) (c ∷ xs) h)) [
      | inl gone ↦ absurd (ground (arith, gone, other))
      | inr word ↦ word
    ]

take-le : (n : ℕ) (xs : Text) → length (take n xs) ≤ n
take-le zero xs = omega arith
take-le (suc n) [] = omega arith
take-le (suc n) (x ∷ xs) = omega (arith, take-le n xs)

prefixed :
    (n : ℕ) (out : Text)
    → is_word true out ≡ true
    → first_is is_ascii_lowercase out ≡ false
    → (is_word true (codes "group-" ++ trim_end is_dash (take (suc n) out)) ≡ true)
      × (length (codes "group-" ++ trim_end is_dash (take (suc n) out)) ≤ 7 + n)
prefixed n [] word first = absurd (ground (arith, word))
prefixed n (c ∷ cs) word first =
    let cut = trim_end is_dash (take (suc n) (c ∷ cs)) in
    (
      is_word-append true (codes "group") cut refl
          (cut_word n c cs (ground (arith, word)) (is_word-is_start true (c ∷ cs) word)),
      omega (arith, trim_end-le is_dash (take (suc n) (c ∷ cs)), take-le (suc n) (c ∷ cs)),
    )

-- A slug of at most n + 7 bytes is a word of at most so many.
pub slug-is_word :
    (input : Text) (n : ℕ)
    → (is_word true (slug input (7 + n)) ≡ true) × (length (slug input (7 + n)) ≤ 7 + n)
unfolding slug
slug-is_word input n =
    let room : 7 + n - 6 ≡ suc n = omega arith in
    let looped = slug_loop (7 + n) [] false input in
    let held =
      slug_loop-Held (7 + n) [] false input
        (record { start = refl; short = omega arith; open_end = λ h. refl }) in
    elim (trim_end-is_word true looped held.start) [
      | inl gone ↦ rw gone (refl, omega arith)
      | inr word ↦ rw (word_nonempty (trim_end is_dash looped) word) (
          if_both (λ (ys : Text). (is_word true ys ≡ true) × (length ys ≤ 7 + n))
            (first_is is_ascii_lowercase (trim_end is_dash looped))
            (λ letter. (word, omega (arith, held.short, trim_end-le is_dash looped)))
            (λ digit. rw room (prefixed n (trim_end is_dash looped) word digit)))
    ]

-- What a word has of a group's identifier.
pub is_word-kind : (dash : Bool) (xs : Text) → is_word dash xs ≡ true → all is_kind_char xs ≡ true
is_word-kind dash [] h = refl
is_word-kind dash (x ∷ xs) h = elim (Bool-cases (is_dash x)) [
  | inl here ↦ ground (arith, is_word-kind true xs, h, here)
  | inr other ↦ ground (arith, is_word-kind false xs, h, other)
]

first_not_dash : (xs : Text) → is_word true xs ≡ true → first_is is_separator xs ≡ false
first_not_dash [] h = refl
first_not_dash (x ∷ xs) h = ground (arith, h)

pub is_word-doubled : (dash : Bool) (xs : Text) → is_word dash xs ≡ true → doubled xs ≡ false
is_word-doubled dash [] h = refl
is_word-doubled dash (x ∷ xs) h = elim (Bool-cases (is_dash x)) [
  | inl here ↦ ground (arith, is_word-doubled true xs, first_not_dash xs, h, here)
  | inr other ↦ ground (arith, is_word-doubled false xs, h, other)
]

pub is_word-last :
    (dash : Bool) (xs : Text)
    → is_word dash xs ≡ true
    → is_empty xs ≡ false
    → last_is is_ascii_alphanumeric xs ≡ true
is_word-last dash [] h k = absurd (ground (arith, k))
is_word-last dash (x ∷ []) h k = ground (arith, h)
is_word-last dash (x ∷ y ∷ ys) h k = elim (Bool-cases (is_dash x)) [
  | inl here ↦ is_word-last true (y ∷ ys) (ground (arith, h, here)) refl
  | inr other ↦ is_word-last false (y ∷ ys) (ground (arith, h, other)) refl
]

pub is_word-byte_len : (dash : Bool) (xs : Text) → is_word dash xs ≡ true → byte_len xs ≡ length xs
is_word-byte_len dash [] h = refl
is_word-byte_len dash (x ∷ xs) h = elim (Bool-cases (is_dash x)) [
  | inl here ↦ ground (arith, is_word-byte_len true xs, h, here)
  | inr other ↦ ground (arith, is_word-byte_len false xs, h, other)
]
