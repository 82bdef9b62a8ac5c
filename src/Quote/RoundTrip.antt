-- ===== src/Quote/RoundTrip.antt =====
-- src/quote.rs and src/backend.rs: a POSIX shell reads a quoted value, and a command line of
-- quoted words, back as they were.
use herdr_tether.Prelude.{
  ℕ, Bool, ltb, ◌||◌, is_in, false, Option, none, some, List, [], ◌∷◌, ◌++◌, ◌≡◌, refl, sym, ap,
  ◌∙◌, arith, inl, inr, Bool-cases, ◌==◌, if◌then◌else◌, contains, some_eq, ==_iff,
}
use herdr_tether.Prelude.Text.{codes}
use mathlib.Core.List.{append_assoc, append-nil}
use herdr_tether.Quote.{apostrophe, backslash, split_apostrophes, push_parts, posix_quote}

-- How a POSIX shell splits a line of words: inside apostrophes every byte but a NUL stands for itself,
-- outside a backslash makes the next byte literal, but for a line break, and a space ends the word. A
-- byte outside quotes that has, or may have, another meaning there gives `none`, as a NUL and an
-- unfinished line do: what the shell would make of such a line is not followed.
pub data Mode : Type 0 where
  bare escaping quoted : Mode

-- The bytes that POSIX wants quoted, those of brace and history expansion, and control characters.
abbrev pub is_special : ℕ → Bool
is_special c = ltb c 32 || c == 127 || is_in ◌==◌ (codes "|&;<>()$`\"*?[]#~=%!{}^") c

-- A byte in front of the first word of a split line.
abbrev pub cons_first : ℕ → Option (List ℕ × List (List ℕ)) → Option (List ℕ × List (List ℕ))
cons_first c none = none
cons_first c (some (word, words)) = some (c ∷ word, words)

abbrev pub end_word : Option (List ℕ × List (List ℕ)) → Option (List ℕ × List (List ℕ))
end_word none = none
end_word (some (word, words)) = some ([], word ∷ words)

unfoldable pub shell_words : Mode → List ℕ → Option (List ℕ × List (List ℕ))
shell_words bare [] = some ([], [])
shell_words escaping [] = none
shell_words quoted [] = none
shell_words bare (c ∷ cs) =
    let in_quotes = shell_words quoted cs in
    let escaped = shell_words escaping cs in
    let next_word = shell_words bare cs in
    if c == apostrophe
    then in_quotes
    else (if c == backslash
        then escaped
        else (if c == 32
            then end_word next_word
            else (if is_special c then none else cons_first c next_word)))
shell_words escaping (c ∷ cs) =
    let next = shell_words bare cs in if c == 10 || c == 0 then none else cons_first c next
shell_words quoted (c ∷ cs) =
    let outside = shell_words bare cs in
    let inside = shell_words quoted cs in
    if c == apostrophe then outside else (if c == 0 then none else cons_first c inside)

-- A word and the rest of the line behind it.
abbrev pub behind : List ℕ → Option (List ℕ × List (List ℕ)) → Option (List ℕ × List (List ℕ))
behind word none = none
behind word (some (rest, words)) = some (word ++ rest, words)

cons_first-behind :
    (c : ℕ) (word : List ℕ) (x : Option (List ℕ × List (List ℕ)))
    → cons_first c (behind word x) ≡ behind (c ∷ word) x
cons_first-behind c word none = refl
cons_first-behind c word (some (rest, words)) = refl

behind-nil : (x : Option (List ℕ × List (List ℕ))) → behind [] x ≡ x
behind-nil none = refl
behind-nil (some (rest, words)) = refl

-- What stands inside the outer apostrophes.
abbrev body : List ℕ → List ℕ
body value = (split_apostrophes value).0 ++ push_parts (split_apostrophes value).1

body-step :
    (value rest : List ℕ)
    → contains value 0 ≡ false
    → shell_words quoted (body value ++ (apostrophe ∷ rest)) ≡ behind value (shell_words bare rest)
unfolding split_apostrophes push_parts shell_words
body-step [] rest no_nul = sym (behind-nil (shell_words bare rest))
body-step (c ∷ cs) rest no_nul =
    let later : contains cs 0 ≡ false = ground (arith, no_nul) in
    let first : (c == 0) ≡ false = ground (arith, no_nul) in
    elim (Bool-cases (c == apostrophe)) [
      | inl quote ↦ rw ((==_iff c apostrophe).0 quote) (
          ap (cons_first apostrophe) (body-step cs rest later)
          ∙ cons_first-behind apostrophe cs (shell_words bare rest))
      | inr plain ↦ rw plain (
          rw (plain, first)
            (ap (cons_first c) (body-step cs rest later)
              ∙ cons_first-behind c cs (shell_words bare rest)))
    ]

quoted_body :
    (value : List ℕ)
    → contains value 0 ≡ false
    → posix_quote value ≡ some (apostrophe ∷ (body value ++ (apostrophe ∷ [])))
unfolding posix_quote
quoted_body value plain = rw plain (
    ap (λ text. some (apostrophe ∷ text))
      (sym (
        append_assoc (split_apostrophes value).0 (push_parts (split_apostrophes value).1)
          (apostrophe ∷ []))))

posix_quote-plain : (value word : List ℕ) → posix_quote value ≡ some word → contains value 0 ≡ false
unfolding posix_quote
posix_quote-plain value word h = ground (arith, h)

-- A quoted value is the body between two apostrophes.
posix_quote-body :
    (value line : List ℕ)
    → posix_quote value ≡ some line
    → line ≡ apostrophe ∷ (body value ++ (apostrophe ∷ []))
unfolding posix_quote
posix_quote-body value line h = elim (Bool-cases (contains value 0)) [
  | inl nul ↦ absurd (ground arith)
  | inr plain ↦ sym (some_eq (sym (quoted_body value plain) ∙ h))
]

-- A value that can be quoted is read back as a word, with the rest of the line behind it.
quoted_word :
    (value line rest : List ℕ)
    → posix_quote value ≡ some line
    → shell_words bare (line ++ rest) ≡ behind value (shell_words bare rest)
unfolding shell_words
quoted_word value line rest h = rw (posix_quote-body value line h) (
    ap (shell_words quoted) (append_assoc (body value) (apostrophe ∷ []) rest)
    ∙ body-step value rest (posix_quote-plain value line h))

-- A quoted value is one word to a POSIX shell, which reads it as exactly the value.
pub posix_quote-shell_words :
    (value line : List ℕ) → posix_quote value ≡ some line → shell_words bare line ≡ some (value, [])
unfolding shell_words
posix_quote-shell_words value line h =
    ap (shell_words bare) (sym (append-nil line))
    ∙ quoted_word value line [] h
    ∙ ap (λ word. some (word, [])) (append-nil value)

abbrev pub holds_nul : List ℕ → Bool
holds_nul value = contains value 0
