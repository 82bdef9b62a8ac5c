-- ===== src/Groups/Members.antt =====
-- src/orchestration.rs: what `validate_worker_specs` ensures, and the memberships that
-- `worker_members` gives: those that the sessions had, and new ones.
use herdr_tether.Prelude.{
  ℕ, zero, suc, ◌≤◌, ◌+◌, false, Option, none, some, List, [], ◌∷◌, ◌≡◌, refl, sym, ap, ◌∙◌, arith,
  ◌==◌, ltb, if◌then◌else◌, length, contains, count, map, All, Bool-cases, Option-cases, inl, inr,
  some_eq, none≢some, ◌⊎◌,
}
use herdr_tether.Prelude.Once.{Fresh, Once, Fresh-cons, Fresh-nil}
use herdr_tether.Session.{OrchestrationMember}
use herdr_tether.Session.Validate.{has_no_capability, max_workers}
use herdr_tether.Groups.{
  WorkerSpec, Reply, ok, err, ◌>>=◌, check_specs, validate_worker_specs, worker_members,
  membership_of,
}
use herdr_tether.Groups.Valid.{MemberOk, sessions_of, memberships_of, eq_sound, eq_self}

abbrev pub spec_sessions : List WorkerSpec → List ℕ
spec_sessions ws = map (λ (w : WorkerSpec). w.session_id) ws

pub >>=-eq-ok {ℓ κ} :
    {A : Type ℓ} {B : Type κ} (reply : Reply A) (next : A → Reply B) {b : B}
    → (reply >>= next) ≡ ok b
    → (a : A) × (reply ≡ ok a) × (next a ≡ ok b)
>>=-eq-ok (err e) next h = cc
>>=-eq-ok (ok a) next h = (a, refl, h)

pub record SpecOk (orchestrator : ℕ) (w : WorkerSpec) : Type 0 where
  pub other : (w.session_id == orchestrator) ≡ false
  pub capable : has_no_capability w.capabilities ≡ false

check_specs-SpecOk :
    (orchestrator : ℕ) (seen : List ℕ) (ws : List WorkerSpec)
    → check_specs orchestrator seen ws ≡ ok tt
    → All (SpecOk orchestrator) ws × Fresh ◌==◌ seen (spec_sessions ws)
unfolding check_specs
check_specs-SpecOk orchestrator seen [] h = (tt, λ a. ground arith)
check_specs-SpecOk orchestrator seen (w ∷ ws) h = elim (Bool-cases (w.session_id == orchestrator)) [
  | inl role ↦ absurd (ground arith)
  | inr role ↦ elim (Bool-cases (contains seen w.session_id)) [
    | inl again ↦ absurd (ground arith)
    | inr new ↦ elim (Bool-cases (has_no_capability w.capabilities)) [
      | inl incapable ↦ absurd (ground arith)
      | inr capable ↦
          let (specs, distinct) =
            check_specs-SpecOk orchestrator (w.session_id ∷ seen) ws (ground arith) in
          (
            (record { other = role; capable = capable }, specs),
            (Fresh-cons ◌==◌ eq_sound eq_self seen w.session_id (spec_sessions ws)).1
                (new, distinct),
          )
    ]
  ]
]

-- Specifications that are accepted are few, distinct and capable, and none is the orchestrator's.
pub validate_worker_specs-SpecOk :
    (orchestrator : ℕ) (ws : List WorkerSpec)
    → validate_worker_specs orchestrator ws ≡ ok tt
    → (length ws ≤ max_workers) × All (SpecOk orchestrator) ws × Once ◌==◌ (spec_sessions ws)
unfolding validate_worker_specs
validate_worker_specs-SpecOk orchestrator ws h = elim (Bool-cases (ltb max_workers (length ws))) [
  | inl many ↦ absurd (ground arith)
  | inr few ↦
      let (specs, distinct) = check_specs-SpecOk orchestrator [] ws (ground arith) in
      (ground arith, specs, (Fresh-nil ◌==◌ (spec_sessions ws)).0 distinct)
]

-- The new memberships of an operation.
abbrev pub new_ids : (ℕ → ℕ) → ℕ → ℕ → List ℕ
new_ids fresh k zero = []
new_ids fresh k (suc n) = fresh k ∷ new_ids fresh (suc k) n

-- One more new membership only adds to the count.
new_ids-le :
    (fresh : ℕ → ℕ) (k a n : ℕ)
    → count ◌==◌ a (new_ids fresh k n) ≤ count ◌==◌ a (new_ids fresh k (suc n))
new_ids-le fresh k a zero = omega arith
new_ids-le fresh k a (suc n) = omega (arith, new_ids-le fresh (suc k) a n)

abbrev takes : Option ℕ → ℕ → ℕ
takes none a = 0
takes (some m) a = if m == a then 1 else 0

-- How often a membership is taken over by the specifications.
abbrev taken_over : List OrchestrationMember → ℕ → List WorkerSpec → ℕ
taken_over existing a [] = 0
taken_over existing a (w ∷ ws) =
    takes (membership_of existing w.session_id) a + taken_over existing a ws

module _ (fresh : ℕ → ℕ) (existing : List OrchestrationMember) where
  pub worker_members-sessions :
      (k : ℕ) (ws : List WorkerSpec)
      → sessions_of (worker_members fresh k existing ws) ≡ spec_sessions ws
  unfolding worker_members
  worker_members-sessions k [] = refl
  worker_members-sessions k (w ∷ ws) = elim (Option-cases (membership_of existing w.session_id)) [
    | inl new ↦
        rw (new, worker_members) (ap (λ xs. w.session_id ∷ xs) (worker_members-sessions (suc k) ws))
    | inr (m, old) ↦
        rw (old, worker_members) (ap (λ xs. w.session_id ∷ xs) (worker_members-sessions k ws))
  ]

  pub worker_members-MemberOk :
      (orchestrator k : ℕ) (ws : List WorkerSpec)
      → All (SpecOk orchestrator) ws
      → All (MemberOk orchestrator) (worker_members fresh k existing ws)
  unfolding worker_members
  worker_members-MemberOk orchestrator k [] h = tt
  worker_members-MemberOk orchestrator k (w ∷ ws) (h, hs) =
      elim (Option-cases (membership_of existing w.session_id)) [
        | inl new ↦
            rw (new, worker_members)
              (
                record { other = h.other; capable = h.capable },
                worker_members-MemberOk orchestrator (suc k) ws hs,
              )
        | inr (m, old) ↦
            rw (old, worker_members)
              (
                record { other = h.other; capable = h.capable },
                worker_members-MemberOk orchestrator k ws hs,
              )
      ]

  worker_members-taken :
      (k a : ℕ) (ws : List WorkerSpec)
      → count ◌==◌ a (memberships_of (worker_members fresh k existing ws))
        ≤ taken_over existing a ws + count ◌==◌ a (new_ids fresh k (length ws))
  unfolding worker_members
  worker_members-taken k a [] = omega arith
  worker_members-taken k a (w ∷ ws) = elim (Option-cases (membership_of existing w.session_id)) [
    | inl new ↦ rw (new, worker_members) (omega (arith, worker_members-taken (suc k) a ws))
    | inr (m, old) ↦
        rw (old, worker_members)
          (ground (arith, worker_members-taken k a ws, new_ids-le fresh k a (length ws)))
  ]

membership_of-cases :
    (m : OrchestrationMember) (ms : List OrchestrationMember) (x a : ℕ)
    → membership_of (m ∷ ms) x ≡ some a
    → (membership_of ms x ≡ some a) ⊎ ((m.session_id ≡ x) × (m.membership_id ≡ a))
membership_of-cases m ms x a h = elim (Option-cases (membership_of ms x)) [
  | inl absent ↦ elim (Bool-cases (m.session_id == x)) [
    | inl here ↦ inr (eq_sound m.session_id x here, some_eq (rw (absent, here) at h))
    | inr other ↦ absurd (none≢some (rw (absent, other) at h))
  ]
  | inr (b, later) ↦ inl (later ∙ rw later at h)
]

-- A membership that a session has is one of the memberships.
membership_of-count :
    (ms : List OrchestrationMember) (x a : ℕ)
    → membership_of ms x ≡ some a
    → 1 ≤ count ◌==◌ a (memberships_of ms)
membership_of-count [] x a h = absurd (ground arith)
membership_of-count (m ∷ ms) x a h = elim (membership_of-cases m ms x a h) [
  | inl later ↦ omega (arith, membership_of-count ms x a later)
  | inr (same, here) ↦ ground (arith, here)
]

-- Where no membership stands twice, it belongs to one session.
membership_of-injective :
    (ms : List OrchestrationMember) (x y a : ℕ)
    → count ◌==◌ a (memberships_of ms) ≤ 1
    → membership_of ms x ≡ some a
    → membership_of ms y ≡ some a
    → x ≡ y
membership_of-injective [] x y a c h k = absurd (ground arith)
membership_of-injective (m ∷ ms) x y a c h k = elim (membership_of-cases m ms x a h) [
  | inl hl ↦ elim (membership_of-cases m ms y a k) [
    | inl kl ↦ membership_of-injective ms x y a (omega arith) hl kl
    | inr (same, here) ↦ absurd (ground (arith, membership_of-count ms x a hl))
  ]
  | inr (same, here) ↦ elim (membership_of-cases m ms y a k) [
    | inl kl ↦ absurd (ground (arith, membership_of-count ms y a kl))
    | inr (same', here') ↦ sym same ∙ same'
  ]
]

module _ (existing : List OrchestrationMember) (a : ℕ) where
  -- Only the session of a membership takes it over.
  taken_over-le :
      (x : ℕ)
      → membership_of existing x ≡ some a
      → count ◌==◌ a (memberships_of existing) ≤ 1
      → (ws : List WorkerSpec) → taken_over existing a ws ≤ count ◌==◌ x (spec_sessions ws)
  taken_over-le x h c [] = omega arith
  taken_over-le x h c (w ∷ ws) = elim (Option-cases (membership_of existing w.session_id)) [
    | inl new ↦ rw new (omega (arith, taken_over-le x h c ws))
    | inr (m, old) ↦ rw old (elim (Bool-cases (m == a)) [
      | inl same ↦
          let mine =
            membership_of-injective existing w.session_id x a c (old ∙ ap some (eq_sound m a same))
              h in
          ground (arith, taken_over-le x h c ws, same, mine)
      | inr other ↦ ground (arith, taken_over-le x h c ws, other)
    ])
  ]

  -- A membership is taken over by no specification, or by that of the session which has it.
  taken_over-cases :
      (ws : List WorkerSpec)
      → (taken_over existing a ws ≡ 0) ⊎ ((x : ℕ) × (membership_of existing x ≡ some a))
  taken_over-cases [] = inl refl
  taken_over-cases (w ∷ ws) = elim (Option-cases (membership_of existing w.session_id)) [
    | inl new ↦ elim (taken_over-cases ws) [
      | inl z ↦ inl (rw new (omega (arith, z)))
      | inr e ↦ inr e
    ]
    | inr (m, old) ↦ elim (Bool-cases (m == a)) [
      | inl same ↦ inr (w.session_id, old ∙ ap some (eq_sound m a same))
      | inr other ↦ elim (taken_over-cases ws) [
        | inl z ↦ inl (rw (old, other) (omega (arith, z)))
        | inr e ↦ inr e
      ]
    ]
  ]

-- The memberships of the new workers are those of the old ones and new ones, none more than once.
pub count-worker_members :
    (fresh : ℕ → ℕ) (existing : List OrchestrationMember) (ws : List WorkerSpec) (a : ℕ)
    → Once ◌==◌ (spec_sessions ws)
    → count ◌==◌ a (memberships_of existing) ≤ 1
    → count ◌==◌ a (memberships_of (worker_members fresh 0 existing ws))
      ≤ count ◌==◌ a (memberships_of existing) + count ◌==◌ a (new_ids fresh 0 (length ws))
count-worker_members fresh existing ws a distinct few = elim (taken_over-cases existing a ws) [
  | inl free ↦ omega (arith, free, worker_members-taken fresh existing 0 a ws)
  | inr (x, held) ↦ omega (
    arith,
    taken_over-le existing a x held few ws,
    distinct x,
    membership_of-count existing x a held,
    worker_members-taken fresh existing 0 a ws,
  )
]
