-- ===== src/Manager/Open/Total.antt =====
-- src/observer_manager.rs: `from_state` opens the manager on every state.
use herdr_tether.Prelude.{
  ℕ, ◌≤◌, Bool, true, Option, none, some, List, [], ◌∷◌, ◌≡◌, refl, ap, ◌∙◌, arith, ◌==◌,
  if◌then◌else◌, All, find, retain, any, count, map, Bool-cases, if_both, inl, inr, ◌+◌,
}
use herdr_tether.Prelude.Text.{Text}
use herdr_tether.Session.{SessionRecord, State}
use herdr_tether.Manager.{Candidate, Manager}
use herdr_tether.Manager.Names.{safe_component, repository_name}
use herdr_tether.Groups.Valid.{eq_self}
use herdr_tether.Manager.Names.Safe.{safe_component-title}
use herdr_tether.Manager.Open.{
  is_eligible, is_eligible_id, candidate_labels, candidate, candidates, opened, from_state, sort_by,
  insert_by, candidate_before, has_id, stands_before, disambiguated,
}
use herdr_tether.Manager.Calm.{Calm}
use herdr_tether.Manager.Calm.Rows.{Some}

module _ (simple : ℕ → Text) where
  -- An eligible session of the list is found, and so has a label.
  find-any :
      (p : SessionRecord → Bool) (rs : List SessionRecord) → any p rs ≡ true → Some (find p rs)
  find-any p [] h = absurd (ground (arith, h))
  find-any p (r ∷ rs) h = elim (Bool-cases (p r)) [
    | inl here ↦ (r, rw here refl)
    | inr other ↦ rw other (find-any p rs (ground (arith, h, other)))
  ]

  label-Some :
      (sessions : List SessionRecord) (id : ℕ)
      → any (is_eligible_id simple id) sessions ≡ true
      → Some (candidate_labels simple sessions id)
  unfolding candidate_labels
  label-Some sessions id h =
      let (r, known) = find-any (is_eligible_id simple id) sessions h in
      (disambiguated simple sessions r, rw (known, candidate_labels) refl)

  -- The candidate that is made of an eligible session.
  pub record IsOf (sessions : List SessionRecord) (c : Candidate) : Type 0 where
    pub new : c.existing ≡ none
    pub eligible : any (is_eligible_id simple c.session_id) sessions ≡ true

  candidate-lem :
      (sessions : List SessionRecord) (r : SessionRecord) (label : Text)
      → any (is_eligible_id simple r.id) sessions ≡ true
      → (c : Candidate) × (candidate r label ≡ some c) × IsOf sessions c × (c.session_id ≡ r.id)
  unfolding candidate
  candidate-lem sessions r label h = (
    record {
      session_id = r.id;
      label = label;
      host = safe_component r.host 24;
      repository = safe_component (repository_name r.directory) 32;
      title = safe_component label 96;
      agent_kind = r.herdr_agent;
      existing = none;
    },
    rw (safe_component-title label 96 (omega arith) (omega arith)) refl,
    record { new = refl; eligible = h },
    refl,
  )

  abbrev pub Made : List SessionRecord → List SessionRecord → Type 0
  Made sessions rs =
      (cs : List Candidate) × (candidates simple sessions rs ≡ some cs)
      × All (IsOf sessions) cs
      × (map (λ (c : Candidate). c.session_id) cs ≡ map (λ (r : SessionRecord). r.id) rs)

  candidates-Made :
      (sessions rs : List SessionRecord)
      → All (λ r. any (is_eligible_id simple r.id) sessions ≡ true) rs
      → Made sessions rs
  unfolding candidates
  candidates-Made sessions [] h = ([], refl, tt, refl)
  candidates-Made sessions (r ∷ rs) (h, hs) =
      let (label, labelled) = label-Some sessions r.id h in
      let (c, made, is_of, same) = candidate-lem sessions r label h in
      let (cs, rest, are, ids) = candidates-Made sessions rs hs in
      (
        c ∷ cs,
        rw (labelled, made, rest) refl,
        (is_of, are),
        ap (λ (i : ℕ). i ∷ map (λ (c : Candidate). c.session_id) cs) same
            ∙ ap (λ is. r.id ∷ is) ids,
      )

  weaken :
      (q : SessionRecord) (sessions rs : List SessionRecord)
      → All (λ r. any (is_eligible_id simple r.id) sessions ≡ true) rs
      → All (λ r. any (is_eligible_id simple r.id) (q ∷ sessions) ≡ true) rs
  weaken q sessions [] h = h
  weaken q sessions (r ∷ rs) (h, hs) = (ground (arith, h), weaken q sessions rs hs)

  eligible_found :
      (sessions : List SessionRecord)
      → All (λ r. any (is_eligible_id simple r.id) sessions ≡ true) (retain is_eligible sessions)
  eligible_found [] = tt
  eligible_found (r ∷ rs) =
      if_both (All (λ q. any (is_eligible_id simple q.id) (r ∷ rs) ≡ true)) (is_eligible r)
        (λ held. (
          ground (arith, held, eq_self r.id),
          weaken r rs (retain is_eligible rs) (eligible_found rs),
        ))
        (λ lost. weaken r rs (retain is_eligible rs) (eligible_found rs))

abbrev pub ids_of : List Candidate → List ℕ
ids_of cs = map (λ (c : Candidate). c.session_id) cs

-- What a sort gives: the same candidates, each as often.
abbrev Sorted : (Candidate → Type 0) → List Candidate → Option (List Candidate) → Type 0
Sorted P cs o =
    (ds : List Candidate) × (o ≡ some ds)
    × All P ds
    × ((a : ℕ) → count ◌==◌ a (ids_of ds) ≡ count ◌==◌ a (ids_of cs))

-- Where no comparison panics, the sort does not, and it keeps what is sorted.
module _ (P : Candidate → Type 0) (before : Candidate → Candidate → Option Bool)
    (compared : (c d : Candidate) → P c → P d → Some (before c d)) where
  insert_by-Sorted :
      (c : Candidate) (cs : List Candidate)
      → P c
      → All P cs
      → Sorted P (c ∷ cs) (insert_by before c cs)
  unfolding insert_by
  insert_by-Sorted c [] h hs = (c ∷ [], refl, (h, hs), λ a. refl)
  insert_by-Sorted c (d ∷ ds) h (k, ks) =
      let (first, asked) = compared c d h k in
      let (es, rest, are, same) = insert_by-Sorted c ds h ks in
      rw (asked, rest)
        (if_both (λ o. Sorted P (c ∷ d ∷ ds) o) first
          (λ f. (c ∷ d ∷ ds, refl, (h, (k, ks)), λ a. refl))
          (λ later. (d ∷ es, refl, (k, are), λ a. omega (arith, same a))))

  sort_by-Sorted : (cs : List Candidate) → All P cs → Sorted P cs (sort_by before cs)
  unfolding sort_by
  sort_by-Sorted [] h = ([], refl, h, λ a. refl)
  sort_by-Sorted (c ∷ cs) (h, hs) =
      let (ds, rest, are, same) = sort_by-Sorted cs hs in
      let (es, inserted, all_are, counts) = insert_by-Sorted c ds h are in
      (
        es,
        rw rest inserted,
        all_are,
        λ a. counts a ∙ ap (λ n. (if c.session_id == a then 1 else 0) + n) (same a),
      )

-- The record of a candidate is there.
record-Some :
    (simple : ℕ → Text) (id : ℕ) (rs : List SessionRecord)
    → any (is_eligible_id simple id) rs ≡ true
    → Some (find (has_id id) rs)
record-Some simple id [] h = absurd (ground (arith, h))
record-Some simple id (r ∷ rs) h = elim (Bool-cases (r.id == id)) [
  | inl here ↦ (r, rw here refl)
  | inr other ↦ rw other (record-Some simple id rs (ground (arith, h, other)))
]

-- Two candidates of the sessions are compared without a panic.
candidate_before-Some :
    (simple : ℕ → Text) (sessions : List SessionRecord) (c d : Candidate)
    → IsOf simple sessions c
    → IsOf simple sessions d
    → Some (candidate_before sessions c d)
unfolding candidate_before
candidate_before-Some simple sessions c d h k =
    let (a, found) = record-Some simple c.session_id sessions h.eligible in
    let (b, found') = record-Some simple d.session_id sessions k.eligible in
    (stands_before a b, rw (found, found', candidate_before) refl)

count-eligible :
    (a : ℕ) (rs : List SessionRecord)
    → count ◌==◌ a (map (λ (r : SessionRecord). r.id) (retain is_eligible rs))
      ≤ count ◌==◌ a (map (λ (r : SessionRecord). r.id) rs)
count-eligible a [] = omega arith
count-eligible a (r ∷ rs) =
    if_both
      (λ qs.
        count ◌==◌ a (map (λ (q : SessionRecord). q.id) qs)
        ≤ count ◌==◌ a (map (λ (q : SessionRecord). q.id) (r ∷ rs)))
      (is_eligible r) (λ held. omega (arith, count-eligible a rs))
      (λ lost. omega (arith, count-eligible a rs))

-- On every state the manager opens, without an error or a panic, calmly over the groups of the state and over
-- candidates of its eligible sessions, no session more often than it is recorded.
pub from_state-opens :
    (simple : ℕ → Text) (s : State) (notice : Option Text)
    → (m : Manager) × (from_state simple s notice ≡ some m)
      × Calm s.orchestration_groups m.eligible m
      × All (IsOf simple s.sessions) m.eligible
      × ((a : ℕ)
          → count ◌==◌ a (ids_of m.eligible)
            ≤ count ◌==◌ a (map (λ (r : SessionRecord). r.id) s.sessions))
unfolding from_state opened
from_state-opens simple s notice =
    let (cs, made, are, ids) =
      candidates-Made simple s.sessions (retain is_eligible s.sessions)
        (eligible_found simple s.sessions) in
    let (ds, sorted, all_are, counts) =
      sort_by-Sorted (IsOf simple s.sessions) (candidate_before s.sessions)
        (candidate_before-Some simple s.sessions) cs are in
    (
      opened simple s notice ds,
      rw (made, sorted) refl,
      record { groups = refl; eligible = refl; place = tt },
      all_are,
      λ a. omega (arith, counts a, ap (count ◌==◌ a) ids, count-eligible a s.sessions),
    )
