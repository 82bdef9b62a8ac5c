-- ===== src/Manager/Keys.antt =====
-- src/observer_manager.rs: `event_for_key`. Of a key, its code, its kind and the modifiers that matter.
use herdr_tether.Prelude.{
  ℕ, Bool, true, false, ◌&&◌, ◌||◌, Option, none, some, ◌==◌, ◌≡◌, refl, subst, arith, if_both,
  if◌then◌else◌,
}
use herdr_tether.Manager.{Screen, Event}
use herdr_tether.Manager.Handle.{is_confirm_delete}

pub data KeyCode : Type 0 where
  up down tab back_tab enter esc backspace other : KeyCode
  char : ℕ → KeyCode

pub data KeyEventKind : Type 0 where
  press repeat release : KeyEventKind

pub record KeyEvent : Type 0 where
  pub code : KeyCode
  pub kind : KeyEventKind
  pub control : Bool
  pub alt : Bool

abbrev pub is_press : KeyEventKind → Bool
is_press KeyEventKind.press = true
is_press _ = false

abbrev pub is_release : KeyEventKind → Bool
is_release KeyEventKind.release = true
is_release _ = false

abbrev pub is_letter : ℕ → ℕ → ℕ → Bool
is_letter lower upper c = c == lower || c == upper

abbrev pub is_interrupt : KeyCode → Bool
is_interrupt (KeyCode.char c) = is_letter b'c' b'C' c
is_interrupt _ = false

unfoldable pub event_for_deletion : KeyCode → Option Event
event_for_deletion (KeyCode.char c) =
    if is_letter b'y' b'Y' c
    then some Event.confirm_deletion
    else (if is_letter b'n' b'N' c then some Event.dismiss_deletion else none)
event_for_deletion KeyCode.esc = some Event.dismiss_deletion
event_for_deletion KeyCode.backspace = some Event.dismiss_deletion
event_for_deletion _ = none

-- The keys that ask only when they are pressed, not when they repeat.
unfoldable pub event_for_char : Bool → ℕ → Option Event
event_for_char pressed c =
    if c == b'k'
    then some Event.previous
    else (if c == b'j'
        then some Event.next
        else (if c == 32 && pressed
            then some Event.toggle
            else (if is_letter b'n' b'N' c && pressed
                then some Event.create
                else (if is_letter b'p' b'P' c && pressed
                    then some Event.toggle_prompt
                    else (if is_letter b'e' b'E' c && pressed
                        then some Event.edit
                        else (if is_letter b'd' b'D' c && pressed
                            then some Event.delete
                            else none))))))

unfoldable pub event_for_code : Bool → KeyCode → Option Event
unfolding event_for_char
event_for_code pressed KeyCode.up = some Event.previous
event_for_code pressed KeyCode.back_tab = some Event.previous
event_for_code pressed KeyCode.down = some Event.next
event_for_code pressed KeyCode.tab = some Event.next
event_for_code pressed KeyCode.esc = some Event.back
event_for_code pressed KeyCode.backspace = some Event.back
event_for_code pressed KeyCode.enter = if pressed then some Event.confirm else none
event_for_code pressed (KeyCode.char c) = event_for_char pressed c
event_for_code pressed KeyCode.other = none

unfoldable pub event_for_key : KeyEvent → Screen → Option Event
unfolding event_for_deletion event_for_code
event_for_key key screen =
    if is_release key.kind
    then none
    else (if key.control && is_interrupt key.code
        then some Event.back
        else (if key.control || key.alt
            then none
            else (if is_confirm_delete screen
                then (if is_press key.kind then event_for_deletion key.code else none)
                else event_for_code (is_press key.kind) key.code)))

-- Whether an event only moves the selection or goes back.
abbrev pub is_harmless : Event → Bool
is_harmless Event.previous = true
is_harmless Event.next = true
is_harmless Event.back = true
is_harmless _ = false

abbrev Harmless : Option Event → Type 0
Harmless none = Unit
Harmless (some e) = is_harmless e ≡ true

char-Harmless : (c : ℕ) → Harmless (event_for_char false c)
unfolding event_for_char
char-Harmless c =
    if_both Harmless (c == b'k') (λ a. refl)
      (λ a. if_both Harmless (c == b'j') (λ b. refl) (λ b. none_of c))
  where
    none_of :
        (c : ℕ)
        → Harmless (
            if c == 32 && false
            then some Event.toggle
            else (if is_letter b'n' b'N' c && false
                then some Event.create
                else (if is_letter b'p' b'P' c && false
                    then some Event.toggle_prompt
                    else (if is_letter b'e' b'E' c && false
                        then some Event.edit
                        else (if is_letter b'd' b'D' c && false
                            then some Event.delete
                            else none)))))
    none_of c =
        if_both Harmless (c == 32 && false) (λ h. absurd (ground (arith, h)))
          (λ h.
            if_both Harmless (is_letter b'n' b'N' c && false) (λ h. absurd (ground (arith, h)))
              (λ h.
                if_both Harmless (is_letter b'p' b'P' c && false) (λ h. absurd (ground (arith, h)))
                  (λ h.
                    if_both Harmless (is_letter b'e' b'E' c && false)
                      (λ h. absurd (ground (arith, h)))
                      (λ h.
                        if_both Harmless (is_letter b'd' b'D' c && false)
                          (λ h. absurd (ground (arith, h))) (λ h. tt)))))

code-Harmless : (code : KeyCode) → Harmless (event_for_code false code)
unfolding event_for_code
code-Harmless KeyCode.up = refl
code-Harmless KeyCode.back_tab = refl
code-Harmless KeyCode.down = refl
code-Harmless KeyCode.tab = refl
code-Harmless KeyCode.esc = refl
code-Harmless KeyCode.backspace = refl
code-Harmless KeyCode.enter = tt
code-Harmless (KeyCode.char c) = char-Harmless c
code-Harmless KeyCode.other = tt

held-Harmless :
    (key : KeyEvent) (screen : Screen)
    → key.kind ≡ KeyEventKind.repeat
    → Harmless (event_for_key key screen)
unfolding event_for_key
held-Harmless key screen held = rw held (
    if_both Harmless (key.control && is_interrupt key.code) (λ a. refl)
      (λ a.
        if_both Harmless (key.control || key.alt) (λ b. tt)
          (λ b.
            if_both Harmless (is_confirm_delete screen) (λ d. tt) (λ d. code-Harmless key.code))))

-- A key that is held and repeats asks for nothing, or only moves the selection or goes back.
pub repeated_key-is_harmless :
    (key : KeyEvent) (screen : Screen) (e : Event)
    → key.kind ≡ KeyEventKind.repeat
    → event_for_key key screen ≡ some e
    → is_harmless e ≡ true
repeated_key-is_harmless key screen e held asked =
    subst Harmless asked (held-Harmless key screen held)
