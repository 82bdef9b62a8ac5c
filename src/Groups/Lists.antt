-- ===== src/Groups/Lists.antt =====
-- src/orchestration.rs: finding, changing, removing and adding a group keeps the groups in order.
use herdr_tether.Prelude.{
  ℕ, suc, ◌≤◌, ◌+◌, false, List, [], ◌∷◌, ◌++◌, ◌≡◌, refl, sym, ap, ◌∙◌, subst, arith, ◌==◌, leb,
  length, count, any, All, All-append, Bool-cases, if_both, inl, inr, is_in, map-append_lem,
  length-append,
}
use mathlib.Core.List.{append_assoc}
use herdr_tether.Prelude.Once.{Once, count-append, count-is_in}
use herdr_tether.Prelude.Text.{Text, text_eq, text_eq_sound}
use herdr_tether.Session.{OrchestrationGroup}
use herdr_tether.Session.Validate.{max_orchestration_groups}
use herdr_tether.Groups.{ok, is_group, find_group, without_group, change_group}
use herdr_tether.Groups.Valid.{GroupOk, GroupsOk, names_of, memberships_of, all_memberships}

ok_eq : {a b : OrchestrationGroup} → ok a ≡ ok b → a ≡ b
ok_eq h = cc

pub find_group-All :
    (P : OrchestrationGroup → Type 0) (id : Text) (gs : List OrchestrationGroup)
    (g : OrchestrationGroup)
    → find_group id gs ≡ ok g
    → All P gs
    → P g
unfolding find_group
find_group-All P id [] g h all = absurd (ground arith)
find_group-All P id (g' ∷ gs) g h (p, ps) = elim (Bool-cases (is_group id g')) [
  | inl here ↦ subst P (ok_eq (rw here at h)) p
  | inr other ↦ find_group-All P id gs g (rw other at h) ps
]

pub find_group-count :
    (id : Text) (gs : List OrchestrationGroup) (g : OrchestrationGroup) (a : ℕ)
    → find_group id gs ≡ ok g
    → count ◌==◌ a (memberships_of g.workers) ≤ count ◌==◌ a (all_memberships gs)
unfolding find_group
find_group-count id [] g a h = absurd (ground arith)
find_group-count id (k ∷ gs) g a h = elim (Bool-cases (is_group id k)) [
  | inl here ↦
      subst (λ j. count ◌==◌ a (memberships_of j.workers) ≤ count ◌==◌ a (all_memberships (k ∷ gs)))
        (ok_eq (rw here at h))
        (omega (arith, count-append ◌==◌ a (memberships_of k.workers) (all_memberships gs)))
  | inr other ↦ omega (
    arith,
    find_group-count id gs g a (rw other at h),
    count-append ◌==◌ a (memberships_of k.workers) (all_memberships gs),
  )
]

module _ (id : Text) (f : OrchestrationGroup → OrchestrationGroup) (g : OrchestrationGroup)
    (same : (f g).id ≡ g.id) where
  length-change_group : (gs : List OrchestrationGroup) → length (change_group id f gs) ≡ length gs
  unfolding change_group
  length-change_group [] = refl
  length-change_group (h ∷ gs) =
      if_both (λ (hs : List OrchestrationGroup). length hs ≡ length (h ∷ gs)) (is_group id h)
        (λ here. refl) (λ other. ap suc (length-change_group gs))

  names-change_group :
      (gs : List OrchestrationGroup)
      → find_group id gs ≡ ok g
      → names_of (change_group id f gs) ≡ names_of gs
  unfolding change_group find_group
  names-change_group [] found = absurd (ground arith)
  names-change_group (h ∷ gs) found =
      if_both (λ hs. names_of hs ≡ names_of (h ∷ gs)) (is_group id h)
        (λ here.
          ap (λ x. x ∷ names_of gs)
            (subst (λ k. (f k).id ≡ k.id) (sym (ok_eq (rw here at found))) same))
        (λ other. ap (λ xs. h.id ∷ xs) (names-change_group gs (rw other at found)))

  All-change_group :
      (P : OrchestrationGroup → Type 0) (gs : List OrchestrationGroup)
      → find_group id gs ≡ ok g
      → P (f g)
      → All P gs
      → All P (change_group id f gs)
  unfolding change_group find_group
  All-change_group P [] found p all = absurd (ground arith)
  All-change_group P (h ∷ gs) found p (q, qs) =
      if_both (All P) (is_group id h)
        (λ here. (subst (λ k. P (f k)) (sym (ok_eq (rw here at found))) p, qs))
        (λ other. (q, All-change_group P gs (rw other at found) p qs))

  count-change_group :
      (a extra : ℕ) (gs : List OrchestrationGroup)
      → find_group id gs ≡ ok g
      → count ◌==◌ a (memberships_of (f g).workers)
        ≤ count ◌==◌ a (memberships_of g.workers) + extra
      → count ◌==◌ a (all_memberships (change_group id f gs))
        ≤ count ◌==◌ a (all_memberships gs) + extra
  unfolding change_group find_group
  count-change_group a extra [] found h = absurd (ground arith)
  count-change_group a extra (k ∷ gs) found h =
      if_both
        (λ hs. count ◌==◌ a (all_memberships hs) ≤ count ◌==◌ a (all_memberships (k ∷ gs)) + extra)
        (is_group id k)
        (λ here.
          let le : count ◌==◌ a (memberships_of (f k).workers)
              ≤ count ◌==◌ a (memberships_of k.workers) + extra =
            subst
              (λ j.
                count ◌==◌ a (memberships_of (f j).workers)
                ≤ count ◌==◌ a (memberships_of j.workers) + extra)
              (sym (ok_eq (rw here at found))) h in
          omega (
            arith,
            le,
            count-append ◌==◌ a (memberships_of (f k).workers) (all_memberships gs),
            count-append ◌==◌ a (memberships_of k.workers) (all_memberships gs),
          ))
        (λ other. omega (
          arith,
          count-change_group a extra gs (rw other at found) h,
          count-append ◌==◌ a (memberships_of k.workers) (all_memberships gs),
          count-append ◌==◌ a (memberships_of k.workers) (all_memberships (change_group id f gs)),
        ))

  -- A change of one group keeps the groups in order if the group stays so under its name, and gets only
  -- memberships that it had or that no group has.
  pub change_group-GroupsOk :
      (extra : ℕ → ℕ) (gs : List OrchestrationGroup)
      → find_group id gs ≡ ok g
      → GroupOk (f g)
      → ((a : ℕ)
          → count ◌==◌ a (memberships_of (f g).workers)
            ≤ count ◌==◌ a (memberships_of g.workers) + extra a)
      → ((a : ℕ) → count ◌==◌ a (all_memberships gs) + extra a ≤ 1)
      → GroupsOk gs
      → GroupsOk (change_group id f gs)
  change_group-GroupsOk extra gs found okay more free gso = record {
    few = omega (arith, length-change_group gs, gso.few);
    each = All-change_group GroupOk gs found okay gso.each;
    names = subst (Once text_eq) (sym (names-change_group gs found)) gso.names;
    memberships = λ a. omega (arith, count-change_group a (extra a) gs found (more a), free a);
  }

module _ (id : Text) where
  length-without_group : (gs : List OrchestrationGroup) → length (without_group id gs) ≤ length gs
  unfolding without_group
  length-without_group [] = omega arith
  length-without_group (h ∷ gs) =
      if_both (λ (hs : List OrchestrationGroup). length hs ≤ length (h ∷ gs)) (is_group id h)
        (λ here. omega arith) (λ other. omega (arith, length-without_group gs))

  All-without_group :
      (P : OrchestrationGroup → Type 0) (gs : List OrchestrationGroup)
      → All P gs
      → All P (without_group id gs)
  unfolding without_group
  All-without_group P [] h = tt
  All-without_group P (k ∷ gs) (h, hs) =
      if_both (All P) (is_group id k) (λ here. hs) (λ other. (h, All-without_group P gs hs))

  names-without_group :
      (a : Text) (gs : List OrchestrationGroup)
      → count text_eq a (names_of (without_group id gs)) ≤ count text_eq a (names_of gs)
  unfolding without_group
  names-without_group a [] = omega arith
  names-without_group a (k ∷ gs) =
      if_both (λ hs. count text_eq a (names_of hs) ≤ count text_eq a (names_of (k ∷ gs)))
        (is_group id k) (λ here. omega arith) (λ other. omega (arith, names-without_group a gs))

  memberships-without_group :
      (a : ℕ) (gs : List OrchestrationGroup)
      → count ◌==◌ a (all_memberships (without_group id gs)) ≤ count ◌==◌ a (all_memberships gs)
  unfolding without_group
  memberships-without_group a [] = omega arith
  memberships-without_group a (k ∷ gs) =
      if_both (λ hs. count ◌==◌ a (all_memberships hs) ≤ count ◌==◌ a (all_memberships (k ∷ gs)))
        (is_group id k)
        (λ here. omega (arith, count-append ◌==◌ a (memberships_of k.workers) (all_memberships gs)))
        (λ other. omega (
          arith,
          memberships-without_group a gs,
          count-append ◌==◌ a (memberships_of k.workers) (all_memberships gs),
          count-append ◌==◌ a (memberships_of k.workers) (all_memberships (without_group id gs)),
        ))

  pub without_group-GroupsOk :
      (gs : List OrchestrationGroup) → GroupsOk gs → GroupsOk (without_group id gs)
  without_group-GroupsOk gs gso = record {
    few = omega (arith, length-without_group gs, gso.few);
    each = All-without_group GroupOk gs gso.each;
    names = λ a. omega (arith, names-without_group a gs, gso.names a);
    memberships = λ a. omega (arith, memberships-without_group a gs, gso.memberships a);
  }

-- A name that no group has.
any-names :
    (id : Text) (gs : List OrchestrationGroup)
    → any (is_group id) gs ≡ false
    → is_in text_eq (names_of gs) id ≡ false
any-names id [] h = refl
any-names id (g ∷ gs) h = ground (arith, any-names id gs)

all_memberships-append :
    (gs hs : List OrchestrationGroup)
    → all_memberships (gs ++ hs) ≡ all_memberships gs ++ all_memberships hs
all_memberships-append [] hs = refl
all_memberships-append (g ∷ gs) hs =
    ap (λ xs. memberships_of g.workers ++ xs) (all_memberships-append gs hs)
    ∙ sym (append_assoc (memberships_of g.workers) (all_memberships gs) (all_memberships hs))

names_once :
    (g : OrchestrationGroup) (gs : List OrchestrationGroup)
    → any (is_group g.id) gs ≡ false
    → (a : Text) → count text_eq a (names_of gs) ≤ 1
    → count text_eq a (names_of (gs ++ g ∷ [])) ≤ 1
names_once g gs new a few =
    rw (map-append_lem (λ (h : OrchestrationGroup). h.id) gs (g ∷ []))
      (elim (Bool-cases (text_eq g.id a)) [
        | inl same ↦
            let absent = count-is_in text_eq g.id (names_of gs) (any-names g.id gs new) in
            let moved = ap (λ t. count text_eq t (names_of gs)) (text_eq_sound g.id a same) in
            rw (count-append text_eq a (names_of gs) (g.id ∷ []))
              (rw same (omega (arith, absent, moved)))
        | inr other ↦ rw (count-append text_eq a (names_of gs) (g.id ∷ [])) (rw other (omega arith))
      ])

-- A group of a new name, with memberships that no group has, can be added while there is room.
pub push-GroupsOk :
    (g : OrchestrationGroup) (gs : List OrchestrationGroup)
    → any (is_group g.id) gs ≡ false
    → leb max_orchestration_groups (length gs) ≡ false
    → GroupOk g
    → ((a : ℕ) → count ◌==◌ a (all_memberships gs) + count ◌==◌ a (memberships_of g.workers) ≤ 1)
    → GroupsOk gs
    → GroupsOk (gs ++ g ∷ [])
push-GroupsOk g gs new room okay free gso = record {
  few = ground (arith, length-append gs (g ∷ []), room);
  each = All-append GroupOk gs (g ∷ []) gso.each (okay, tt);
  names = λ a. names_once g gs new a (gso.names a);
  memberships = λ a. rw (all_memberships-append gs (g ∷ [])) (
      omega (
        arith,
        free a,
        count-append ◌==◌ a (all_memberships gs) (memberships_of g.workers ++ []),
        count-append ◌==◌ a (memberships_of g.workers) [],
      ));
}
