-- ===== src/Changes/Valid.antt =====
-- src/lifecycle.rs and src/state.rs: what a critical section writes passes the validation that
-- every save makes, so no transition is lost to it.
use herdr_tether.Prelude.{
  ℕ, ℤ, true, false, Option, none, some, List, [], ◌∷◌, ◌++◌, ◌≡◌, ◌≤◌, refl, ap, ◌∙◌, arith,
  length, inl, inr, Bool-cases, unwrap_or, or_else,
}
use herdr_tether.Prelude.Text.{Text, byte_len}
use herdr_tether.Session.{SessionStatus, running, ended, SessionRecord}
use herdr_tether.Session.Pace.{failed_immediately, note_immediate_failure, within_memory}
use herdr_tether.Session.Pace.Bounds.{length-keep_newest}
use herdr_tether.Session.Validate.{
  validate_session, validate_texts, validate_command, is_closed, require_text,
}
use herdr_tether.Session.Validate.WellFormed.{Consistent, validate_session_iff}
use herdr_tether.Changes.{
  to_stopping, settle_failures, to_finished, to_ended, to_opened, to_observed, to_promoted,
  to_reserved, to_removed, may_stop,
}

-- What a critical section does to the record that it has found.
pub data Change : Type 0 where
  stop : Option ℕ → Change
  finish : Option ℤ → Change
  end : Option ℕ → Option ℤ → Change
  attach observe : ℕ → Change
  promote : ℕ → Option ℕ → Option Text → Change
  reserve remove : Change

abbrev pub apply : Change → ℕ → ℕ → SessionRecord → SessionRecord
apply (stop identity) now later r = to_stopping identity r
apply (finish x) now later r = to_finished x now later r
apply (end identity x) now later r = to_ended identity x now later r
apply (attach identity) now later r = to_opened identity now r
apply (observe identity) now later r = to_observed identity r
apply (promote session pane socket) now later r = to_promoted session pane socket now r
apply reserve now later r = to_reserved r
apply remove now later r = to_removed now r

-- What tmux says of the socket of a server: an absolute path that fits the address of a Unix domain
-- socket, which has at most 107 bytes before its NUL. The code itself refuses only an empty one.
abbrev pub IsSocketPath : Option Text → Type 0
IsSocketPath none = Unit
IsSocketPath (some path) = (rest : Text) × (path ≡ b'/' ∷ rest) × (byte_len path ≤ 107)

-- The guard under which the code makes the change, and for a promotion what tmux says of its socket.
abbrev pub Guarded : Change → SessionRecord → Type 0
Guarded (stop identity) r = may_stop r.status ≡ true
Guarded (attach identity) r = r.status ≡ running
Guarded (promote session pane socket) r = IsSocketPath socket
Guarded _ r = Unit

-- The history is all that the judgement of an end changes, and it stays within its bound.
settled :
    (now : ℕ) (r : SessionRecord)
    → (history : List ℕ) × (settle_failures now r ≡ record r { immediate_failures = history })
      × (length history ≤ 16)
unfolding settle_failures note_immediate_failure
settled now r = elim (Bool-cases (failed_immediately r now)) [
  | inl failed ↦ (
    (note_immediate_failure r now).immediate_failures,
    rw failed refl,
    length-keep_newest (within_memory now r.immediate_failures ++ unwrap_or r.closed_at now ∷ []),
  )
  | inr other ↦ ([], rw other refl, omega arith)
]

-- The path of a socket is neither blank nor long.
require_text-IsSocketPath :
    (socket : Option Text) → IsSocketPath socket → require_text socket ≡ none
require_text-IsSocketPath none h = refl
require_text-IsSocketPath (some path) (rest, absolute, short) =
    rw absolute (ground (arith, rw absolute at short))

-- The texts that the checks read are those that were there, but for the socket of a promotion.
apply-texts :
    (c : Change) (now later : ℕ) (r : SessionRecord)
    → validate_texts r ≡ none
    → Guarded c r
    → validate_texts (apply c now later r) ≡ none
unfolding validate_texts to_stopping to_finished to_ended to_opened to_observed to_promoted
    to_reserved to_removed note_immediate_failure
apply-texts (stop identity) now later r h g = h
apply-texts (finish x) now later r h g = ground arith
apply-texts (end identity x) now later r h g = ground arith
apply-texts (attach identity) now later r h g = h
apply-texts (observe identity) now later r h g = h
apply-texts (promote session pane socket) now later r h g =
    let accepted = require_text-IsSocketPath socket g in ground (arith, h, accepted)
apply-texts reserve now later r h g = ground arith
apply-texts remove now later r h g = h

apply-command :
    (c : Change) (now later : ℕ) (r : SessionRecord) → (apply c now later r).command ≡ r.command
unfolding to_stopping to_finished to_ended to_opened to_observed to_promoted to_reserved to_removed
    note_immediate_failure
apply-command (stop identity) now later r = refl
apply-command (finish x) now later r = ground arith
apply-command (end identity x) now later r = ground arith
apply-command (attach identity) now later r = refl
apply-command (observe identity) now later r = refl
apply-command (promote session pane socket) now later r = refl
apply-command reserve now later r = refl
apply-command remove now later r = refl

settled-Consistent :
    (later : ℕ) (r : SessionRecord)
    → ((history : List ℕ)
        → length history ≤ 16
        → Consistent (record r { immediate_failures = history }))
    → Consistent (settle_failures later r)
settled-Consistent later r h = let (history, e, short) = settled later r in rw e (h history short)

ended-Consistent :
    (r : SessionRecord) (identity : Option ℕ) (x : Option ℤ) (closed : ℕ) (history : List ℕ)
    → r.created_at ≤ r.last_used_at
    → r.created_at ≤ closed
    → length history ≤ 16
    → Consistent (record r {
      status = ended;
      tmux_session_id = identity;
      closed_at = some closed;
      exit_status = x;
      immediate_failures = history;
    })
ended-Consistent r identity x closed history used after short = record {
  used_after_created = used;
  open_has_no_end = λ h. cc;
  closed_has_end = λ h. (closed, refl, after);
  short_history = short;
}

-- A record that has no end and no exit status needs its dates only.
open-Consistent :
    (r : SessionRecord)
    → r.closed_at ≡ none
    → r.exit_status ≡ none
    → is_closed r.status ≡ false
    → r.created_at ≤ r.last_used_at
    → length r.immediate_failures ≤ 16
    → Consistent r
open-Consistent r no_end no_status open_ used short = record {
  used_after_created = used;
  open_has_no_end = λ h. (no_end, no_status);
  closed_has_end = λ h. cc;
  short_history = short;
}

end-after_created :
    (r : SessionRecord) (now : ℕ)
    → Consistent r
    → r.created_at ≤ now
    → r.created_at ≤ unwrap_or r.closed_at now
end-after_created r now c t = elim (Bool-cases (is_closed r.status)) [
  | inl closed ↦ let (at_end, e, after) = c.closed_has_end closed in rw e after
  | inr open_ ↦ rw ((c.open_has_no_end open_).0) t
]

may_stop-open : (s : SessionStatus) → may_stop s ≡ true → is_closed s ≡ false
may_stop-open s h = ground arith

apply-Consistent :
    (c : Change) (now later : ℕ) (r : SessionRecord)
    → Consistent r
    → r.created_at ≤ now
    → Guarded c r
    → Consistent (apply c now later r)
unfolding to_stopping to_finished to_ended to_opened to_observed to_promoted to_reserved to_removed
apply-Consistent (stop identity) now later r c t g =
    let (no_end, no_status) = c.open_has_no_end (may_stop-open r.status g) in
    open-Consistent (to_stopping identity r) no_end no_status refl c.used_after_created
      c.short_history
apply-Consistent (finish x) now later r c t g =
    settled-Consistent later _ λ history short.
      ended-Consistent r r.tmux_session_id x now history c.used_after_created t short
apply-Consistent (end identity x) now later r c t g = settled-Consistent later _ λ history short.
    ended-Consistent r (or_else identity r.tmux_session_id) x (unwrap_or r.closed_at now) history
      c.used_after_created (end-after_created r now c t) short
apply-Consistent (attach identity) now later r c t g =
    let (no_end, no_status) = c.open_has_no_end (rw g refl) in
    open-Consistent (to_opened identity now r) no_end no_status (rw g refl) t c.short_history
apply-Consistent (observe identity) now later r c t g =
    open-Consistent (to_observed identity r) refl refl refl c.used_after_created c.short_history
apply-Consistent (promote session pane socket) now later r c t g =
    open-Consistent (to_promoted session pane socket now r) refl refl refl t c.short_history
apply-Consistent reserve now later r c t g =
    open-Consistent (to_reserved r) refl refl refl c.used_after_created c.short_history
apply-Consistent remove now later r c t g = record {
  used_after_created = t;
  open_has_no_end = λ h. cc;
  closed_has_end = λ h. (unwrap_or r.closed_at now, refl, end-after_created r now c t);
  short_history = c.short_history;
}

-- Under the guard of the code, for a promotion with a socket that is an absolute path of at most 107
-- bytes or is not there, and with a clock that has not gone back behind the creation of the session,
-- each change of a valid record gives a valid record: the validation of the save does not refuse it.
pub apply-valid :
    (c : Change) (now later : ℕ) (r : SessionRecord)
    → validate_session r ≡ none
    → r.created_at ≤ now
    → Guarded c r
    → validate_session (apply c now later r) ≡ none
apply-valid c now later r v t g =
    let (texts, consistent, command) = (validate_session_iff r).0 v in
    (validate_session_iff (apply c now later r)).1 (
      apply-texts c now later r texts g,
      apply-Consistent c now later r consistent t g,
      ap validate_command (apply-command c now later r) ∙ command,
    )
