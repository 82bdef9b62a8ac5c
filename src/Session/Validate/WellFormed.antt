-- ===== src/Session/Validate/WellFormed.antt =====
-- src/state.rs: what the checks of `State::validate` accept, said without them.
use herdr_tether.Prelude.{
  ℕ, true, false, Option, none, some, ◌≡◌, ◌≤◌, ◌↔◌, refl, arith, length, or_else, Bool-cases, inl,
  inr,
}
use herdr_tether.Session.{SessionRecord}
use herdr_tether.Session.Validate.{
  is_closed, validate_session, validate_texts, validate_lifecycle, validate_command,
}

-- The dates, the status and the history of a session agree.
pub record Consistent (r : SessionRecord) : Type 0 where
  pub used_after_created : r.created_at ≤ r.last_used_at
  pub open_has_no_end : is_closed r.status ≡ false → (r.closed_at ≡ none) × (r.exit_status ≡ none)
  pub closed_has_end :
      is_closed r.status ≡ true → (end : ℕ) × (r.closed_at ≡ some end) × (r.created_at ≤ end)
  pub short_history : length r.immediate_failures ≤ 16

pub or_else-none : {A : Type 0} (a b : Option A) → (or_else a b ≡ none) ↔ ((a ≡ none) × (b ≡ none))
or_else-none none b = (λ h. (refl, h), λ h. h.1)
or_else-none (some a) b = (λ h. cc, λ h. h.0)

validate_lifecycle-Consistent : (r : SessionRecord) → validate_lifecycle r ≡ none → Consistent r
unfolding validate_lifecycle
validate_lifecycle-Consistent r h = ground arith

Consistent-validate_lifecycle : (r : SessionRecord) → Consistent r → validate_lifecycle r ≡ none
unfolding validate_lifecycle
Consistent-validate_lifecycle r c = elim (Bool-cases (is_closed r.status)) [
  | inl closed ↦ let (end, e, after) = c.closed_has_end closed in ground arith
  | inr open_ ↦ let (no_end, no_status) = c.open_has_no_end open_ in ground arith
]

-- The lifecycle checks accept exactly the records whose dates, status and history agree.
pub validate_lifecycle_iff : (r : SessionRecord) → (validate_lifecycle r ≡ none) ↔ Consistent r
validate_lifecycle_iff r = (validate_lifecycle-Consistent r, Consistent-validate_lifecycle r)

-- A session is valid if its texts, its lifecycle and its command are.
pub validate_session_iff :
    (r : SessionRecord)
    → (validate_session r ≡ none)
      ↔ ((validate_texts r ≡ none) × Consistent r × (validate_command r.command ≡ none))
unfolding validate_session
validate_session_iff r = (
  λ h.
      let (texts, rest) = (or_else-none (validate_texts r) _).0 h in
      let (lifecycle, command) = (or_else-none (validate_lifecycle r) _).0 rest in
      (texts, validate_lifecycle-Consistent r lifecycle, command),
  λ h.
      (or_else-none (validate_texts r) _).1
        (h.0, (or_else-none (validate_lifecycle r) _).1 (Consistent-validate_lifecycle r h.1, h.2)),
)
