-- ===== src/Manager/Names.antt =====
-- src/observer_manager.rs: the names that the manager makes of hosts, directories and presets. A
-- character beyond ASCII is bytes that no test admits, for which one round of a loop stands.
pub mod Safe
pub mod Slug
pub mod Suffix
pub mod Identity
use herdr_tether.Prelude.{
  ℕ, zero, suc, ◌+◌, ◌-◌, Bool, true, false, not, ◌&&◌, ◌||◌, Option, none, some, List, [], ◌∷◌,
  ◌++◌, ◌==◌, ltb, leb, if◌then◌else◌, length, any, take, is_empty, unwrap_or, find,
}
use herdr_tether.Prelude.Decimal.{decimal}
use herdr_tether.Prelude.Text.{
  Text, codes, text_eq, is_ascii_lowercase, is_ascii_uppercase, is_ascii_alphanumeric,
}
use herdr_tether.Session.{OrchestrationGroup}
use herdr_tether.Identifiers.{parse_group_id, parse_title, first_is}

-- `while output.ends_with(…) { output.pop(); }`
unfoldable pub trim_end : (ℕ → Bool) → Text → Text
trim_end p [] = []
trim_end p (c ∷ cs) = let rest = trim_end p cs in if is_empty rest && p c then [] else c ∷ rest

-- One character pushed behind a separator that is due, while there is room for each.
abbrev pub push_char : ℕ → ℕ → Bool → Text → ℕ → Text
push_char max_bytes separator due output c =
    let out =
      if due && not (is_empty output) && ltb (length output) max_bytes
      then output ++ separator ∷ []
      else output in
    if ltb (length out) max_bytes then out ++ c ∷ [] else out

abbrev pub is_component_char : ℕ → Bool
is_component_char c = is_ascii_alphanumeric c || c == b'-' || c == b'_' || c == b'.'

-- The loop over the bytes, left once the output is full.
unfoldable pub component_loop : ℕ → Text → Bool → Text → Text
component_loop max_bytes output pending [] = output
component_loop max_bytes output pending (c ∷ cs) =
    let pushed = if is_component_char c then push_char max_bytes 32 pending output c else output in
    let rest = component_loop max_bytes pushed (not (is_component_char c)) cs in
    if leb max_bytes (length pushed) then pushed else rest

abbrev pub is_component_end : ℕ → Bool
is_component_end c = c == 32 || c == b'-' || c == b'_' || c == b'.'

unfoldable pub safe_component : Text → ℕ → Text
unfolding component_loop trim_end
safe_component input max_bytes =
    let output = trim_end is_component_end (component_loop max_bytes [] false input) in
    if is_empty output then codes "workspace" else output

abbrev pub to_ascii_lowercase : ℕ → ℕ
to_ascii_lowercase c = if is_ascii_uppercase c then c + 32 else c

unfoldable pub slug_loop : ℕ → Text → Bool → Text → Text
slug_loop max_bytes output separator [] = output
slug_loop max_bytes output separator (c ∷ cs) =
    let pushed =
      if is_ascii_alphanumeric c
      then push_char max_bytes b'-' separator output (to_ascii_lowercase c)
      else output in
    let rest = slug_loop max_bytes pushed (not (is_ascii_alphanumeric c)) cs in
    if leb max_bytes (length pushed) then pushed else rest

abbrev pub is_dash : ℕ → Bool
is_dash c = c == b'-'

unfoldable pub slug : Text → ℕ → Text
unfolding slug_loop trim_end
slug input max_bytes =
    let output = trim_end is_dash (slug_loop max_bytes [] false input) in
    if is_empty output
    then codes "group"
    else (if first_is is_ascii_lowercase output
        then output
        else codes "group-" ++ trim_end is_dash (take (max_bytes - 6) output))

-- `format!("observer-{}-{}", …)`
unfoldable pub identity_base : Text → Text → Text
unfolding slug
identity_base host repository = codes "observer-" ++ (slug host 24 ++ b'-' ∷ slug repository 24)

unfoldable pub identity_id : Text → ℕ → Text
unfolding decimal
identity_id base suffix = if suffix == 1 then base else base ++ b'-' ∷ decimal suffix

unfoldable pub identity_title : Text → Text → ℕ → Text
unfolding decimal
identity_title host repository suffix =
    if suffix == 1
    then codes "Observer " ++ (host ++ 32 ∷ repository)
    else codes "Observer " ++ (host ++ 32 ∷ (repository ++ 32 ∷ decimal suffix))

-- The loop of `next_group_identity` over the suffixes: the first whose id no group has.
unfoldable pub free_suffix : ℕ → List OrchestrationGroup → Text → ℕ → Option ℕ
unfolding identity_id
free_suffix zero groups base suffix = none
free_suffix (suc fuel) groups base suffix =
    let later = free_suffix fuel groups base (suc suffix) in
    if not (any (λ (g : OrchestrationGroup). text_eq g.id (identity_id base suffix)) groups)
    then some suffix
    else later

-- `none` is a panic of one of the two `expect`s, or a loop that has not ended in as many rounds as there
-- are groups, and one more.
unfoldable pub next_group_identity : List OrchestrationGroup → Text → Text → Option (Text × Text)
unfolding free_suffix identity_base identity_id identity_title safe_component
next_group_identity groups host repository =
    let base = identity_base host repository in
    elim (free_suffix (suc (length groups)) groups base 1) [
      | none ↦ none
      | some suffix ↦ elim (parse_group_id (identity_id base suffix)) [
        | none ↦ none
        | some id ↦
            elim (parse_title (safe_component (identity_title host repository suffix) 128)) [
              | none ↦ none
              | some title ↦ some (id, title)
            ]
      ]
    ]

abbrev pub is_slash : ℕ → Bool
is_slash c = c == b'/'

-- `rsplit('/').find(|component| !component.is_empty())` of a text without a slash at its end: what
-- stands behind its last slash.
unfoldable pub after_last_slash : Text → Text → Text
after_last_slash current [] = current
after_last_slash current (c ∷ cs) =
    after_last_slash (if is_slash c then [] else current ++ c ∷ []) cs

unfoldable pub repository_name : Text → Text
unfolding after_last_slash trim_end
repository_name directory =
    let name = after_last_slash [] (trim_end is_slash directory) in
    if is_empty name then codes "workspace" else name
