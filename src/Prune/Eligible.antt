-- ===== src/Prune/Eligible.antt =====
-- src/lifecycle.rs: which records `PruneService` removes, and what it leaves.
use herdr_tether.Prelude.{
  ℕ, ◌⊎◌, suc, ◌+◌, ◌≤◌, Bool, true, false, not, Option, none, some, List, [], ◌∷◌, ◌≡◌, refl, sym,
  ap, ◌∙◌, subst, arith, inl, inr, Bool-cases, if_both, if◌then◌else◌, ite, contains, retain,
  length, All, some_eq, ◌==◌, ==_iff,
}
use mathlib.Core.List.{Memᴰ}
use herdr_tether.Session.{SessionRecord, SessionRecord-discrete, State}
use herdr_tether.Store.{find_session}
use herdr_tether.Changes.{reconcile_orchestration_groups}
use herdr_tether.Prune.{
  is_over, is_eligible, cleanup_eligibility, is_prunable, still_prunable, sort_out, drop_sessions,
  prune, PruneResult,
}

-- The record of a session ended, or was removed, at least the retention before `now`.
pub record Expired (now retention : ℕ) (r : SessionRecord) : Type 0 where
  pub over : is_over r.status ≡ true
  pub expiry : (closed : ℕ) × (r.closed_at ≡ some closed) × (closed + retention ≤ now)

pub eligible-Expired :
    (now retention : ℕ) (r : SessionRecord)
    → is_eligible now retention r ≡ true
    → Expired now retention r
unfolding cleanup_eligibility
eligible-Expired now retention r h = ground arith

-- The stored record of a session is expired.
abbrev pub StoredExpired : ℕ → ℕ → State → ℕ → Type 0
StoredExpired now retention s id =
    (r : SessionRecord) × (find_session id s.sessions ≡ some r) × Expired now retention r

ite-true : {P : Type 0} (d : Dec P) (b : Bool) → ite d b false ≡ true → b ≡ true
ite-true (yes p) b h = h
ite-true (no q) b h = absurd (ground arith)

still_prunable-StoredExpired :
    (now retention : ℕ) (s : State) (snapshot : SessionRecord) (o : Option SessionRecord)
    → find_session snapshot.id s.sessions ≡ o
    → still_prunable now retention snapshot o ≡ true
    → StoredExpired now retention s snapshot.id
still_prunable-StoredExpired now retention s snapshot none found h = absurd (ground arith)
still_prunable-StoredExpired now retention s snapshot (some r) found h = (
  r,
  found,
  eligible-Expired now retention r
      (ite-true (SessionRecord-discrete r snapshot) (is_eligible now retention r) h),
)

prunable-StoredExpired :
    (now retention : ℕ) (s : State) (snapshot : SessionRecord)
    → is_prunable now retention s snapshot ≡ true
    → StoredExpired now retention s snapshot.id
prunable-StoredExpired now retention s snapshot h =
    still_prunable-StoredExpired now retention s snapshot (find_session snapshot.id s.sessions) refl
      h

sort_out-Expired :
    (now retention : ℕ) (s : State) (candidates : List SessionRecord)
    → All (StoredExpired now retention s) (sort_out now retention s candidates).removed_ids
unfolding sort_out
sort_out-Expired now retention s [] = tt
sort_out-Expired now retention s (r ∷ rs) =
    if_both (λ (result : PruneResult). All (StoredExpired now retention s) result.removed_ids)
      (is_prunable now retention s r)
      (λ held. (prunable-StoredExpired now retention s r held, sort_out-Expired now retention s rs))
      (λ lost. sort_out-Expired now retention s rs)

length-sort_out :
    (now retention : ℕ) (s : State) (candidates : List SessionRecord)
    → length (sort_out now retention s candidates).removed_ids
        + length (sort_out now retention s candidates).skipped_ids
      ≡ length candidates
unfolding sort_out
length-sort_out now retention s [] = refl
length-sort_out now retention s (r ∷ rs) =
    if_both
      (λ (result : PruneResult).
        length result.removed_ids + length result.skipped_ids ≡ suc (length rs))
      (is_prunable now retention s r) (λ held. omega (arith, length-sort_out now retention s rs))
      (λ lost. omega (arith, length-sort_out now retention s rs))

-- A number that a list holds has what all its elements have.
contains-All : (P : ℕ → Type 0) (ids : List ℕ) (id : ℕ) → All P ids → contains ids id ≡ true → P id
contains-All P [] id h held = absurd (ground arith)
contains-All P (x ∷ xs) id (h, hs) held = elim (Bool-cases (x == id)) [
  | inl same ↦ subst P ((==_iff x id).0 same) h
  | inr other ↦ contains-All P xs id hs (rw other at held)
]

-- A number that a list holds is not one that it does not hold.
differs :
    (gone : List ℕ) (a b : ℕ) → contains gone a ≡ true → contains gone b ≡ false → (a == b) ≡ false
differs gone a b out kept = elim (Bool-cases (a == b)) [
  | inl same ↦ absurd (ground (arith, sym out ∙ ap (contains gone) ((==_iff a b).0 same) ∙ kept))
  | inr other ↦ other
]

-- The first session of a number stays the first if the number is kept.
find_session-retain :
    (gone : List ℕ) (id : ℕ) (rs : List SessionRecord)
    → contains gone id ≡ false
    → find_session id (retain (λ (r : SessionRecord). not (contains gone r.id)) rs)
      ≡ find_session id rs
find_session-retain gone id [] kept = refl
find_session-retain gone id (r ∷ rs) kept = elim (Bool-cases (contains gone r.id)) [
  | inl out ↦ rw (out, differs gone r.id id out kept) (find_session-retain gone id rs kept)
  | inr stays ↦
      rw stays (ap (λ o. if r.id == id then some r else o) (find_session-retain gone id rs kept))
]

-- A session that is not over is not removed.
kept :
    (now retention : ℕ) (candidates : List SessionRecord) (s : State) (id : ℕ) (r : SessionRecord)
    → find_session id s.sessions ≡ some r
    → is_over r.status ≡ false
    → contains (sort_out now retention s candidates).removed_ids id ≡ false
kept now retention candidates s id r found active =
    elim (Bool-cases (contains (sort_out now retention s candidates).removed_ids id)) [
      | inl out ↦
          let (r', found', expired) =
            contains-All (StoredExpired now retention s)
              (sort_out now retention s candidates).removed_ids id
              (sort_out-Expired now retention s candidates) out in
          absurd (
            ground (
              arith,
              sym active
                  ∙ ap (λ (x : SessionRecord). is_over x.status) (some_eq (sym found ∙ found'))
                  ∙ expired.over,
            ))
      | inr stays ↦ stays
    ]

-- The stored record of a session that is not ended or removed is found unchanged after pruning.
pub find_session-prune :
    (now retention : ℕ) (candidates : List SessionRecord) (s : State) (id : ℕ) (r : SessionRecord)
    → find_session id s.sessions ≡ some r
    → is_over r.status ≡ false
    → find_session id (prune now retention candidates s).1.sessions ≡ some r
unfolding prune drop_sessions reconcile_orchestration_groups
find_session-prune now retention candidates s id r found active =
    find_session-retain (sort_out now retention s candidates).removed_ids id s.sessions
      (kept now retention candidates s id r found active)
    ∙ found

pub retain-dropped :
    (gone : List ℕ) (rs : List SessionRecord)
    → All
        (λ (r : SessionRecord). contains gone r.id ≡ false)
        (retain (λ (r : SessionRecord). not (contains gone r.id)) rs)
retain-dropped gone [] = tt
retain-dropped gone (r ∷ rs) =
    if_both (All (λ (r : SessionRecord). contains gone r.id ≡ false)) (not (contains gone r.id))
      (λ held. (ground arith, retain-dropped gone rs)) (λ lost. retain-dropped gone rs)

module _ (P : ℕ → Type 0) (gone : List ℕ) (dropped : All P gone) where
  weaken_kept :
      (q : SessionRecord) (qs rs : List SessionRecord)
      → All (λ (r : SessionRecord). P r.id ⊎ Memᴰ r qs) rs
      → All (λ (r : SessionRecord). P r.id ⊎ Memᴰ r (q ∷ qs)) rs
  weaken_kept q qs [] h = tt
  weaken_kept q qs (r ∷ rs) (inl out, hs) = (inl out, weaken_kept q qs rs hs)
  weaken_kept q qs (r ∷ rs) (inr there, hs) = (inr (Memᴰ.tail there), weaken_kept q qs rs hs)

  -- A session that is not kept has a number with what the removed numbers have.
  pub retain-kept :
      (rs : List SessionRecord)
      → All
          (λ (r : SessionRecord).
            P r.id ⊎ Memᴰ r (retain (λ (r : SessionRecord). not (contains gone r.id)) rs))
          rs
  retain-kept [] = tt
  retain-kept (r ∷ rs) =
      let later = retain-kept rs in
      if_both (λ qs. (P r.id ⊎ Memᴰ r qs) × All (λ (q : SessionRecord). P q.id ⊎ Memᴰ q qs) rs)
        (not (contains gone r.id)) (λ stays. (inr (Memᴰ.head refl), weaken_kept r _ rs later))
        (λ out. (inl (contains-All P gone r.id dropped (ground (arith, out))), later))

-- What is removed has a stored record of a session that ended, or was removed, at least the retention
-- before `now`; no session with a removed number is left in the state; every stored session is left in
-- the state as it was, or has the number of such a record; and the removed and the skipped are together
-- as many as the candidates.
pub prune-Expired :
    (now retention : ℕ) (candidates : List SessionRecord) (s : State)
    → let (result, after) = prune now retention candidates s in
      All (StoredExpired now retention s) result.removed_ids
      × All (λ (r : SessionRecord). contains result.removed_ids r.id ≡ false) after.sessions
      × All
          (λ (r : SessionRecord). StoredExpired now retention s r.id ⊎ Memᴰ r after.sessions)
          s.sessions
      × (length result.removed_ids + length result.skipped_ids ≡ length candidates)
unfolding prune drop_sessions reconcile_orchestration_groups
prune-Expired now retention candidates s = (
  sort_out-Expired now retention s candidates,
  retain-dropped (sort_out now retention s candidates).removed_ids s.sessions,
  retain-kept (StoredExpired now retention s) (sort_out now retention s candidates).removed_ids
      (sort_out-Expired now retention s candidates) s.sessions,
  length-sort_out now retention s candidates,
)
