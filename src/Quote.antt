-- ===== src/Quote.antt =====
-- src/quote.rs: `posix_quote`, over the bytes of a text, and what a POSIX shell reads back.
pub mod RoundTrip
use herdr_tether.Prelude.{
  ℕ, Bool, true, false, Option, none, some, List, [], ◌∷◌, ◌++◌, ◌==◌, if◌then◌else◌, contains,
}

abbrev pub apostrophe : ℕ
apostrophe = 39

abbrev pub backslash : ℕ
backslash = 92

-- `'\''`: the end of the quoted region, the escaped apostrophe, and a new region.
abbrev pub escaped_apostrophe : List ℕ
escaped_apostrophe = apostrophe ∷ backslash ∷ apostrophe ∷ apostrophe ∷ []

-- `value.split('\'')`: the part before the first apostrophe, and the parts after it.
unfoldable pub split_apostrophes : List ℕ → List ℕ × List (List ℕ)
split_apostrophes [] = ([], [])
split_apostrophes (c ∷ cs) =
    let rest = split_apostrophes cs in
    if c == apostrophe then ([], rest.0 ∷ rest.1) else (c ∷ rest.0, rest.1)

-- The rounds of the loop after the first: each part is pushed behind an escaped apostrophe.
unfoldable pub push_parts : List (List ℕ) → List ℕ
push_parts [] = []
push_parts (part ∷ parts) = escaped_apostrophe ++ (part ++ push_parts parts)

-- `none` is the error of a value that holds a NUL.
unfoldable pub posix_quote : List ℕ → Option (List ℕ)
unfolding split_apostrophes push_parts
posix_quote value =
    let parts = split_apostrophes value in
    if contains value 0
    then none
    else some (apostrophe ∷ (parts.0 ++ (push_parts parts.1 ++ apostrophe ∷ [])))

-- `CommandSpec::posix_command_line` (src/backend.rs): the quoted arguments behind the program.
unfoldable pub push_arguments : List (List ℕ) → Option (List ℕ)
push_arguments [] = some []
push_arguments (argument ∷ rest) =
    let later = push_arguments rest in
    elim (posix_quote argument) [
      | none ↦ none
      | some quoted ↦ elim later [ none ↦ none | some line ↦ some (32 ∷ (quoted ++ line)) ]
    ]

unfoldable pub posix_command_line : List ℕ → List (List ℕ) → Option (List ℕ)
unfolding push_arguments
posix_command_line program args = elim (posix_quote program) [
  | none ↦ none
  | some quoted ↦ elim (push_arguments args) [ none ↦ none | some line ↦ some (quoted ++ line) ]
]
