-- ===== src/Identifiers.antt =====
-- src/model.rs: the identifiers, what `Display` writes of them and what `from_str` accepts. A
-- `Uuid` is the number that it stands for; what the uuid crate writes and reads of it are arguments.
pub mod RoundTrip
use herdr_tether.Prelude.{
  ℕ, Bool, true, false, not, ◌&&◌, ◌||◌, Option, none, some, List, [], ◌∷◌, ◌++◌, ◌==◌, ltb, leb,
  if◌then◌else◌, length, any, all, is_empty,
}
use herdr_tether.Prelude.Decimal.{decimal, parse_from}
use herdr_tether.Prelude.Text.{
  Text, codes, byte_len, is_whitespace, is_ascii_digit, is_ascii_lowercase, is_ascii_alphanumeric,
  is_ascii_graphic,
}

-- The bound of a `u64`.
unfoldable pub u64_bound : ℕ
u64_bound = 18446744073709551616

-- `str::strip_prefix`.
abbrev pub strip_prefix : Text → Text → Option Text
strip_prefix [] t = some t
strip_prefix (p ∷ ps) [] = none
strip_prefix (p ∷ ps) (c ∷ cs) = let rest = strip_prefix ps cs in if c == p then rest else none

-- `str::starts_with`.
abbrev pub starts_with : Text → Text → Bool
starts_with [] t = true
starts_with (p ∷ ps) [] = false
starts_with (p ∷ ps) (c ∷ cs) = c == p && starts_with ps cs

abbrev pub keep_if : Bool → Text → Option Text
keep_if test t = if test then some t else none

abbrev pub is_kind_char : ℕ → Bool
is_kind_char c = is_ascii_lowercase c || is_ascii_digit c || c == b'_' || c == b'-'

unfoldable pub parse_agent_kind : Text → Option Text
parse_agent_kind [] = none
parse_agent_kind (first ∷ rest) =
    keep_if
      (not (
        not (is_ascii_lowercase first)
        || ltb 32 (byte_len (first ∷ rest))
        || not (all is_kind_char rest)))
      (first ∷ rest)

abbrev pub is_lower_hex : ℕ → Bool
is_lower_hex c = is_ascii_digit c || (leb b'a' c && leb c b'f')

-- 32 lowercase hexadecimal digits.
unfoldable pub is_simple : Text → Bool
is_simple t = not (not (byte_len t == 32) || not (all is_lower_hex t))

abbrev pub session_prefix : Text
session_prefix = codes "tether-"

module _ (simple : ℕ → Text) (parse_str : Text → Option ℕ) (version : ℕ → ℕ) where
  unfoldable pub display_session_id : ℕ → Text
  display_session_id uuid = session_prefix ++ simple uuid

  -- `OwnershipProof`, whose version is not looked at.
  unfoldable pub parse_ownership_proof : Text → Option ℕ
  unfolding is_simple
  parse_ownership_proof value = if is_simple value then parse_str value else none

  -- `OrchestrationMembershipId`.
  unfoldable pub parse_membership_id : Text → Option ℕ
  unfolding is_simple
  parse_membership_id value =
      if is_simple value
      then (elim (parse_str value) [
        | none ↦ none
        | some uuid ↦ if version uuid == 7 then some uuid else none
      ])
      else none

  unfoldable pub parse_session_id : Text → Option ℕ
  unfolding parse_membership_id
  parse_session_id value = elim (strip_prefix session_prefix value) [
    | none ↦ none
    | some encoded ↦ parse_membership_id encoded
  ]

unfoldable pub display_tmux_session_id : ℕ → Text
display_tmux_session_id n = b'$' ∷ decimal n

unfoldable pub display_tmux_pane_id : ℕ → Text
display_tmux_pane_id n = b'%' ∷ decimal n

-- Both identities behind their first character.
unfoldable pub parse_number : Text → Option ℕ
unfolding u64_bound parse_from
parse_number encoded =
    if is_empty encoded || not (all is_ascii_digit encoded)
    then none
    else parse_from u64_bound 0 encoded

unfoldable pub parse_tmux_session_id : Text → Option ℕ
unfolding parse_number
parse_tmux_session_id value = elim (strip_prefix (b'$' ∷ []) value) [
  | none ↦ none
  | some encoded ↦ parse_number encoded
]

unfoldable pub parse_tmux_pane_id : Text → Option ℕ
unfolding parse_number
parse_tmux_pane_id value = elim (strip_prefix (b'%' ∷ []) value) [
  | none ↦ none
  | some encoded ↦ parse_number encoded
]

abbrev pub is_printable : ℕ → Bool
is_printable c = c == 32 || is_ascii_graphic c

unfoldable pub parse_external_session_name : Text → Option Text
parse_external_session_name value =
    keep_if
      (not (
        is_empty value
        || ltb 256 (byte_len value)
        || starts_with session_prefix value
        || starts_with (b'$' ∷ []) value
        || not (all is_printable value)
        || any (λ c. c == b':' || c == b'.') value))
      value

abbrev pub is_separator : ℕ → Bool
is_separator c = c == b'-' || c == b'_'

-- A text's last character, which of `bytes[bytes.len() - 1]` and `trim` is asked.
abbrev pub last_is : (ℕ → Bool) → Text → Bool
last_is p [] = false
last_is p (c ∷ []) = p c
last_is p (c ∷ d ∷ cs) = last_is p (d ∷ cs)

abbrev pub first_is : (ℕ → Bool) → Text → Bool
first_is p [] = false
first_is p (c ∷ cs) = p c

-- `bytes.windows(2).any(…)` on two separators.
abbrev pub doubled : Text → Bool
doubled [] = false
doubled (c ∷ cs) = (is_separator c && first_is is_separator cs) || doubled cs

unfoldable pub parse_group_id : Text → Option Text
parse_group_id value =
    keep_if
      (not (
        is_empty value
        || ltb 64 (byte_len value)
        || not (first_is is_ascii_lowercase value)
        || not (last_is is_ascii_alphanumeric value)
        || not (all is_kind_char value)
        || doubled value))
      value

-- `value.trim() != value` asks for the white space at either end.
unfoldable pub parse_title : Text → Option Text
parse_title value =
    keep_if
      (not (
        is_empty value
        || ltb 128 (byte_len value)
        || first_is is_whitespace value
        || last_is is_whitespace value
        || not (all is_printable value)))
      value
