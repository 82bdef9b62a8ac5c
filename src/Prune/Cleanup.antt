-- ===== src/Prune/Cleanup.antt =====
-- src/lifecycle.rs: which records the automatic cleanup removes, and what it leaves.
use herdr_tether.Prelude.{
  ℕ, ◌⊎◌, true, not, List, [], ◌∷◌, ◌≡◌, refl, arith, inl, inr, Bool-cases, if_both, contains,
  retain, map, All,
}
use mathlib.Core.List.{Memᴰ}
use herdr_tether.Session.{SessionRecord, SessionStatus, State}
use herdr_tether.Changes.{reconcile_orchestration_groups}
use herdr_tether.Prune.{is_eligible, cleanup_eligibility, forgotten, drop_sessions, cleanup}
use herdr_tether.Groups.Valid.{eq_self}
use herdr_tether.Prune.Eligible.{Expired, eligible-Expired, retain-kept}

Expired-eligible :
    (now retention : ℕ) (r : SessionRecord)
    → r.status ≡ SessionStatus.removed
    → Expired now retention r
    → is_eligible now retention r ≡ true
unfolding cleanup_eligibility
Expired-eligible now retention r removed expired =
    let (closed, at_end, early) = expired.expiry in rw (removed, at_end) (ground (arith, early))

-- A session of the list has the number, is removed, and was so at least the retention before `now`.
abbrev pub Forgotten : ℕ → ℕ → List SessionRecord → ℕ → Type 0
Forgotten now retention rs id =
    (r : SessionRecord) × Memᴰ r rs
    × (r.id ≡ id)
    × (r.status ≡ SessionStatus.removed)
    × Expired now retention r

removed_status :
    (now retention : ℕ) (r : SessionRecord)
    → forgotten now retention r ≡ true
    → r.status ≡ SessionStatus.removed
removed_status now retention r h = ground (arith, h)

forgotten-Forgotten :
    (now retention : ℕ) (rs : List SessionRecord) (r : SessionRecord)
    → Memᴰ r rs
    → forgotten now retention r ≡ true
    → Forgotten now retention rs r.id
forgotten-Forgotten now retention rs r there h = (
  r,
  there,
  refl,
  removed_status now retention r h,
  eligible-Expired now retention r (ground (arith, h)),
)

module _ (now retention : ℕ) where
  abbrev ids_gone : List SessionRecord → List ℕ
  ids_gone rs = map (λ (r : SessionRecord). r.id) (retain (forgotten now retention) rs)

  widen :
      (r : SessionRecord) (rs : List SessionRecord) (ids : List ℕ)
      → All (Forgotten now retention rs) ids
      → All (Forgotten now retention (r ∷ rs)) ids
  widen r rs [] h = tt
  widen r rs (id ∷ ids) ((q, there, named, over, expired), hs) =
      ((q, Memᴰ.tail there, named, over, expired), widen r rs ids hs)

  ids_gone-Forgotten : (rs : List SessionRecord) → All (Forgotten now retention rs) (ids_gone rs)
  ids_gone-Forgotten [] = tt
  ids_gone-Forgotten (r ∷ rs) =
      let later = widen r rs (ids_gone rs) (ids_gone-Forgotten rs) in
      elim (Bool-cases (forgotten now retention r)) [
        | inl held ↦
            rw held (forgotten-Forgotten now retention (r ∷ rs) r (Memᴰ.head refl) held, later)
        | inr lost ↦ rw lost later
      ]

  -- What is forgotten is of a number that is taken away.
  unfoldable Taken : List ℕ → List SessionRecord → Type 0
  Taken gone =
      All (λ (r : SessionRecord). forgotten now retention r ≡ true → contains gone r.id ≡ true)

  contains_more :
      (id : ℕ) (gone : List ℕ) (rs : List SessionRecord) → Taken gone rs → Taken (id ∷ gone) rs
  unfolding Taken
  contains_more id gone [] h = tt
  contains_more id gone (r ∷ rs) (h, hs) =
      ((λ held. ground (arith, h held)), contains_more id gone rs hs)

  ids_gone-Taken : (rs : List SessionRecord) → Taken (ids_gone rs) rs
  unfolding Taken
  ids_gone-Taken [] = tt
  ids_gone-Taken (r ∷ rs) =
      let later = ids_gone-Taken rs in
      if_both (λ qs. Taken (map (λ (q : SessionRecord). q.id) qs) (r ∷ rs))
        (forgotten now retention r)
        (λ held.
          ((λ same. ground (arith, eq_self r.id)), contains_more r.id (ids_gone rs) rs later))
        (λ lost. ((λ held. absurd (ground (arith, held, lost))), later))

  removed-forgotten :
      (r : SessionRecord)
      → r.status ≡ SessionStatus.removed
      → Expired now retention r
      → forgotten now retention r ≡ true
  removed-forgotten r removed expired =
      ground (arith, removed, Expired-eligible now retention r removed expired)

  -- Of the sessions that are kept none is removed and expired.
  kept-not_forgotten :
      (gone : List ℕ) (rs : List SessionRecord)
      → Taken gone rs
      → All
          (λ (r : SessionRecord). r.status ≡ SessionStatus.removed → Expired now retention r → ⊥)
          (retain (λ (r : SessionRecord). not (contains gone r.id)) rs)
  unfolding Taken
  kept-not_forgotten gone [] h = tt
  kept-not_forgotten gone (r ∷ rs) (h, hs) =
      let later = kept-not_forgotten gone rs hs in
      if_both
        (All
          (λ (q : SessionRecord). q.status ≡ SessionStatus.removed → Expired now retention q → ⊥))
        (not (contains gone r.id))
        (λ stays. (
          (λ removed expired.
              absurd (ground (arith, stays, h (removed-forgotten r removed expired)))),
          later,
        ))
        (λ out. later)

-- The automatic cleanup removes the numbers of stored sessions that were removed at least the retention
-- before `now`; every stored session is left in the state as it was, or has such a number; and no session
-- that was removed so long ago is left.
pub cleanup-Forgotten :
    (now retention : ℕ) (s : State)
    → let (gone, after) = cleanup now retention s in
      All (Forgotten now retention s.sessions) gone
      × All
          (λ (r : SessionRecord). Forgotten now retention s.sessions r.id ⊎ Memᴰ r after.sessions)
          s.sessions
      × All
          (λ (r : SessionRecord). r.status ≡ SessionStatus.removed → Expired now retention r → ⊥)
          after.sessions
unfolding cleanup drop_sessions reconcile_orchestration_groups
cleanup-Forgotten now retention s =
    let gone = ids_gone now retention s.sessions in
    let forgot = ids_gone-Forgotten now retention s.sessions in
    (
      forgot,
      retain-kept (Forgotten now retention s.sessions) gone forgot s.sessions,
      kept-not_forgotten now retention gone s.sessions (ids_gone-Taken now retention s.sessions),
    )
