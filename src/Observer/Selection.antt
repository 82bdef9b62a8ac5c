-- ===== src/Observer/Selection.antt =====
-- src/observer.rs: a worker's name, its position, and the selection.
use herdr_tether.Prelude.{
  subst, some_eq, ℕ, ◌-◌, ◌<◌, true, false, Option, none, some, List, [], ◌∷◌, ◌≡◌, refl, sym, ap,
  ◌∙◌, arith, ◌⊎◌, inl, inr, Bool-cases, Option-cases, length, any, min, suc, zero, is_empty,
}
use herdr_tether.Prelude.Text.{Text, text_eq_refl}
use herdr_tether.Observer.{Worker, is_named}
use herdr_tether.Observer.Update.{position, id_at, reselect, change_first}

-- A worker is selected whenever there is one, and it is one of them.
abbrev pub Selection : List Worker → Option Text → Type 0
Selection ws selected =
    ((ws ≡ []) × (selected ≡ none))
    ⊎ ((name : Text) × (i : ℕ) × (selected ≡ some name)
        × (position ws name ≡ some i)
        × (i < length ws))

-- A worker of the name stands at its position, which is in range.
pub position-named :
    (ws : List Worker) (name : Text)
    → any (is_named name) ws ≡ true
    → (i : ℕ) × (position ws name ≡ some i) × (i < length ws)
position-named [] name h = absurd (ground arith)
position-named (w ∷ ws) name h = elim (Bool-cases (is_named name w)) [
  | inl here ↦ (0, rw here refl, omega arith)
  | inr other ↦
      let (i, found, bound) = position-named ws name (ground arith) in
      (suc i, rw (other, found) refl, omega (arith, bound))
]

-- The worker at an index in range names a position.
id_at-position :
    (ws : List Worker) (i : ℕ)
    → i < length ws
    → (name : Text) × (id_at ws i ≡ some name) × (any (is_named name) ws ≡ true)
id_at-position [] i h = absurd (omega arith)
id_at-position (w ∷ ws) zero h = (w.id, refl, rw (text_eq_refl w.id) refl)
id_at-position (w ∷ ws) (suc i) h =
    let (name, found, named) = id_at-position ws i (omega arith) in
    (name, found, ground (arith, named))

pub id_at-Selection : (ws : List Worker) (i : ℕ) → i < length ws → Selection ws (id_at ws i)
id_at-Selection ws i h =
    let (name, found, named) = id_at-position ws i h in
    let (j, stands, bound) = position-named ws name named in inr (name, j, found, stands, bound)

pub reselect-Selection :
    (index : ℕ) (selected : Option Text) (ws : List Worker)
    → Selection ws (reselect index selected ws)
reselect-Selection index selected [] = inl (refl, refl)
reselect-Selection index none (w ∷ ws) =
    id_at-Selection (w ∷ ws) (min index (length ws)) (omega arith)
reselect-Selection index (some name) (w ∷ ws) = elim (Bool-cases (any (is_named name) (w ∷ ws))) [
  | inl there ↦
      let (i, stands, bound) = position-named (w ∷ ws) name there in
      rw there (inr (name, i, refl, stands, bound))
  | inr gone ↦ rw gone (id_at-Selection (w ∷ ws) (min index (length ws)) (omega arith))
]

abbrev pub SameNames : List Worker → List Worker → Type 0
SameNames ws changed =
    (length changed ≡ length ws) × ((other : Text) → position changed other ≡ position ws other)

-- A change of one worker that keeps its name keeps every position and the number of workers.
change_first-here :
    (change : Worker → Worker) (name : Text) (w : Worker) (ws : List Worker)
    → is_named name w ≡ true
    → change_first change name (w ∷ ws) ≡ some (change w ∷ ws)
change_first-here change name w ws here = rw here refl

change_first-later :
    (change : Worker → Worker) (name : Text) (w : Worker) (ws later : List Worker)
    → is_named name w ≡ false
    → change_first change name ws ≡ some later
    → change_first change name (w ∷ ws) ≡ some (w ∷ later)
change_first-later change name w ws later elsewhere found = rw (elsewhere, found) refl

-- A change of one worker that keeps its name keeps every position and the number of workers.
pub change_first-position :
    (change : Worker → Worker)
    → ((w : Worker) → (change w).id ≡ w.id)
    → (name : Text) → (ws changed : List Worker) → change_first change name ws ≡ some changed
    → SameNames ws changed
change_first-position change same name [] changed h = absurd (ground arith)
change_first-position change same name (w ∷ ws) changed h = elim (Bool-cases (is_named name w)) [
  | inl here ↦
      subst (SameNames (w ∷ ws)) (some_eq (sym (change_first-here change name w ws here) ∙ h))
        (refl, λ other. rw (same w) refl)
  | inr elsewhere ↦ elim (Option-cases (change_first change name ws)) [
    | inl missing ↦ absurd (ground arith)
    | inr (later, found) ↦
        let (long, stands) = change_first-position change same name ws later found in
        subst (SameNames (w ∷ ws))
          (some_eq (sym (change_first-later change name w ws later elsewhere found) ∙ h))
          (ap suc long, λ other. rw (stands other) refl)
  ]
]

-- A state whose workers keep their names, in the same places, keeps its selection.
pub SameNames-Selection :
    (ws changed : List Worker) (selected : Option Text)
    → SameNames ws changed
    → Selection ws selected
    → Selection changed selected
SameNames-Selection ws [] selected (long, stands) (inl (e, none_selected)) =
    inl (refl, none_selected)
SameNames-Selection ws (w ∷ changed) selected (long, stands) (inl (e, none_selected)) =
    absurd (ground (arith, long, ap length e))
SameNames-Selection ws changed selected (long, stands) (inr (name, i, e, found, bound)) =
    inr (name, i, e, stands name ∙ found, omega (arith, long, bound))

pub in_range : (ws : List Worker) (i : ℕ) → is_empty ws ≡ false → min i (length ws - 1) < length ws
in_range [] i h = absurd (ground arith)
in_range (w ∷ ws) i h = omega arith
