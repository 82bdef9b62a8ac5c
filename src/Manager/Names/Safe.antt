-- ===== src/Manager/Names/Safe.antt =====
-- src/observer_manager.rs: `safe_component` makes a title.
use herdr_tether.Prelude.{
  ℕ, ◌≤◌, Bool, true, false, not, ◌&&◌, some, [], ◌∷◌, ◌++◌, ◌≡◌, refl, arith, ltb, leb, length,
  length-append, all, is_empty, Bool-cases, if_both, inl, inr, ◌⊎◌,
}
use herdr_tether.Prelude.Text.{Text, byte_len, is_whitespace}
use herdr_tether.Identifiers.{first_is, last_is, is_printable, parse_title}
use herdr_tether.Manager.Names.{
  trim_end, push_char, component_loop, is_component_char, is_component_end, safe_component,
}

-- Printable characters, of which the first is no space.
record Safe (max_bytes : ℕ) (output : Text) : Type 0 where
  printable : all is_printable output ≡ true
  first : first_is is_whitespace output ≡ false
  short : length output ≤ max_bytes

all-snoc :
    (xs : Text) (c : ℕ)
    → all is_printable xs ≡ true
    → is_printable c ≡ true
    → all is_printable (xs ++ c ∷ []) ≡ true
all-snoc [] c h k = ground (arith, k)
all-snoc (x ∷ xs) c h k = ground (arith, all-snoc xs c, h, k)

first-snoc :
    (xs : Text) (c : ℕ)
    → first_is is_whitespace xs ≡ false
    → (is_empty xs ≡ false) ⊎ (is_whitespace c ≡ false)
    → first_is is_whitespace (xs ++ c ∷ []) ≡ false
first-snoc [] c h (inl k) = absurd (ground (arith, k))
first-snoc [] c h (inr k) = k
first-snoc (x ∷ xs) c h k = h

push-Safe :
    (max_bytes : ℕ) (out : Text) (c : ℕ)
    → Safe max_bytes out
    → is_printable c ≡ true
    → (is_empty out ≡ false) ⊎ (is_whitespace c ≡ false)
    → ltb (length out) max_bytes ≡ true
    → Safe max_bytes (out ++ c ∷ [])
push-Safe max_bytes out c safe char place room = record {
  printable = all-snoc out c safe.printable char;
  first = first-snoc out c safe.first place;
  short = ground (arith, room, length-append out (c ∷ []));
}

component_char-printable :
    (c : ℕ) → is_component_char c ≡ true → (is_printable c ≡ true) × (is_whitespace c ≡ false)
component_char-printable c h = (ground (arith, h), ground (arith, h))

push_char-Safe :
    (max_bytes : ℕ) (due : Bool) (out : Text) (c : ℕ)
    → Safe max_bytes out
    → is_component_char c ≡ true
    → Safe max_bytes (push_char max_bytes 32 due out c)
push_char-Safe max_bytes due out c safe char =
    let (printable, solid) = component_char-printable c char in
    elim (Bool-cases (due && not (is_empty out) && ltb (length out) max_bytes)) [
      | inl spaced ↦
          let wide =
            push-Safe max_bytes out 32 safe refl (inl (ground (arith, spaced)))
              (ground (arith, spaced)) in
          rw spaced (
            if_both (Safe max_bytes) (ltb (length (out ++ 32 ∷ [])) max_bytes)
              (push-Safe max_bytes (out ++ 32 ∷ []) c wide printable (inr solid)) (λ full. wide))
      | inr plain ↦ rw plain (
          if_both (Safe max_bytes) (ltb (length out) max_bytes)
            (push-Safe max_bytes out c safe printable (inr solid)) (λ full. safe))
    ]

component_loop-Safe :
    (max_bytes : ℕ) (out : Text) (due : Bool) (input : Text)
    → Safe max_bytes out
    → Safe max_bytes (component_loop max_bytes out due input)
unfolding component_loop
component_loop-Safe max_bytes out due [] safe = safe
component_loop-Safe max_bytes out due (c ∷ cs) safe = elim (Bool-cases (is_component_char c)) [
  | inl admitted ↦
      let pushed = push_char-Safe max_bytes due out c safe admitted in
      rw admitted (
        if_both (Safe max_bytes) (leb max_bytes (length (push_char max_bytes 32 due out c)))
          (λ full. pushed)
          (λ room.
            component_loop-Safe max_bytes (push_char max_bytes 32 due out c) false cs pushed))
  | inr left_out ↦ rw left_out (
      if_both (Safe max_bytes) (leb max_bytes (length out)) (λ full. safe)
        (λ room. component_loop-Safe max_bytes out true cs safe))
]

-- What is trimmed keeps what it is made of, and its end is no space.
trim_end-all :
    (p : ℕ → Bool) (xs : Text)
    → all is_printable xs ≡ true
    → all is_printable (trim_end p xs) ≡ true
unfolding trim_end
trim_end-all p [] h = h
trim_end-all p (x ∷ xs) h =
    if_both (λ (ys : Text). all is_printable ys ≡ true) (is_empty (trim_end p xs) && p x)
      (λ gone. refl) (λ kept. ground (arith, trim_end-all p xs, h))

trim_end-first :
    (p : ℕ → Bool) (xs : Text)
    → first_is is_whitespace xs ≡ false
    → first_is is_whitespace (trim_end p xs) ≡ false
unfolding trim_end
trim_end-first p [] h = h
trim_end-first p (x ∷ xs) h =
    if_both (λ (ys : Text). first_is is_whitespace ys ≡ false) (is_empty (trim_end p xs) && p x)
      (λ gone. refl) (λ kept. h)

trim_end-short : (p : ℕ → Bool) (xs : Text) → length (trim_end p xs) ≤ length xs
unfolding trim_end
trim_end-short p [] = omega arith
trim_end-short p (x ∷ xs) =
    if_both (λ (ys : Text). length ys ≤ length (x ∷ xs)) (is_empty (trim_end p xs) && p x)
      (λ gone. omega arith) (λ kept. omega (arith, trim_end-short p xs))

printable-solid :
    (c : ℕ) → is_printable c ≡ true → is_component_end c ≡ false → is_whitespace c ≡ false
printable-solid c h k = ground (arith, h, k)

last-cons :
    (x : ℕ) (ys : Text)
    → last_is is_whitespace ys ≡ false
    → (is_empty ys ≡ false) ⊎ (is_whitespace x ≡ false)
    → last_is is_whitespace (x ∷ ys) ≡ false
last-cons x [] h (inl k) = absurd (ground (arith, k))
last-cons x [] h (inr k) = k
last-cons x (y ∷ ys) h k = h

trim_end-last :
    (xs : Text)
    → all is_printable xs ≡ true
    → last_is is_whitespace (trim_end is_component_end xs) ≡ false
unfolding trim_end
trim_end-last [] h = refl
trim_end-last (x ∷ xs) h = elim (Bool-cases (is_empty (trim_end is_component_end xs))) [
  | inl bare ↦ rw bare (
      if_both (λ (ys : Text). last_is is_whitespace ys ≡ false) (is_component_end x) (λ gone. refl)
        (λ solid.
          last-cons x (trim_end is_component_end xs) (trim_end-last xs (ground (arith, h)))
            (inr (printable-solid x (ground (arith, h)) solid))))
  | inr more ↦
      rw more (
        last-cons x (trim_end is_component_end xs) (trim_end-last xs (ground (arith, h)))
          (inl more))
]

printable-byte_len : (xs : Text) → all is_printable xs ≡ true → byte_len xs ≡ length xs
printable-byte_len [] h = refl
printable-byte_len (x ∷ xs) h = ground (arith, printable-byte_len xs, h)

-- A safe component of a limit from 9 to 128 bytes is accepted as a title.
pub safe_component-title :
    (input : Text) (max_bytes : ℕ)
    → 9 ≤ max_bytes
    → max_bytes ≤ 128
    → parse_title (safe_component input max_bytes) ≡ some (safe_component input max_bytes)
unfolding parse_title safe_component
safe_component-title input max_bytes low high =
    let looped = component_loop max_bytes [] false input in
    let safe =
      component_loop-Safe max_bytes [] false input
        (record { printable = refl; first = refl; short = omega arith }) in
    let out = trim_end is_component_end looped in
    let short = trim_end-short is_component_end looped in
    let printable = trim_end-all is_component_end looped safe.printable in
    elim (Bool-cases (is_empty out)) [
      | inl bare ↦ rw bare refl
      | inr full ↦ rw full (
          rw
            (
              full,
              printable,
              trim_end-first is_component_end looped safe.first,
              trim_end-last looped safe.printable,
            )
            (ground (arith, printable-byte_len out printable, short, safe.short)))
    ]
