-- ===== src/Manager/Accepted.antt =====
-- src/observer_manager.rs and src/orchestration.rs: the creation that the manager asks for is one that
-- the service carries out.
use herdr_tether.Prelude.{
  ℕ, ◌≤◌, Bool, true, false, ◌&&◌, some, List, [], ◌∷◌, ◌≡◌, refl, ap, subst, arith, ◌==◌, ltb,
  length, any, All, find, retain, map, count, Bool-cases, if_both, inl, inr, some_eq,
}
use herdr_tether.Prelude.Once.{Fresh, Once, Fresh-cons, Fresh-nil}
use herdr_tether.Prelude.Text.{Text}
use herdr_tether.Session.{SessionRecord, State}
use herdr_tether.Session.Validate.{max_workers}
use herdr_tether.Groups.{
  ok, WorkerSpec, check_specs, validate_worker_specs, require_role_eligible_session,
  require_all_eligible, is_role_eligible,
}
use herdr_tether.Groups.Valid.{eq_sound, eq_self}
use herdr_tether.Groups.Members.{SpecOk, spec_sessions}
use herdr_tether.Manager.{Candidate, spec_of}
use herdr_tether.Manager.Operations.{not_session}
use herdr_tether.Manager.Open.{is_eligible_id}
use herdr_tether.Manager.Open.Total.{IsOf, ids_of}

-- Specifications in order are accepted.
check_specs-accepts :
    (orchestrator : ℕ) (seen : List ℕ) (ws : List WorkerSpec)
    → All (SpecOk orchestrator) ws
    → Fresh ◌==◌ seen (spec_sessions ws)
    → check_specs orchestrator seen ws ≡ ok tt
unfolding check_specs
check_specs-accepts orchestrator seen [] h fresh = refl
check_specs-accepts orchestrator seen (w ∷ ws) (h, hs) fresh =
    let (new, rest) =
      (Fresh-cons ◌==◌ eq_sound eq_self seen w.session_id (spec_sessions ws)).0 fresh in
    rw (h.other, new, h.capable) (check_specs-accepts orchestrator (w.session_id ∷ seen) ws hs rest)

pub validate_worker_specs-accepts :
    (orchestrator : ℕ) (ws : List WorkerSpec)
    → length ws ≤ max_workers
    → All (SpecOk orchestrator) ws
    → Once ◌==◌ (spec_sessions ws)
    → validate_worker_specs orchestrator ws ≡ ok tt
unfolding validate_worker_specs
validate_worker_specs-accepts orchestrator ws few h once =
    let room : ltb max_workers (length ws) ≡ false = ground (arith, few) in
    rw room (check_specs-accepts orchestrator [] ws h ((Fresh-nil ◌==◌ (spec_sessions ws)).1 once))

any_role :
    (simple : ℕ → Text) (id : ℕ) (rs : List SessionRecord)
    → any (is_eligible_id simple id) rs ≡ true
    → any (λ (r : SessionRecord). r.id == id && is_role_eligible r) rs ≡ true
any_role simple id [] h = h
any_role simple id (r ∷ rs) h = elim (Bool-cases (is_eligible_id simple id r)) [
  | inl here ↦ ground (arith, here)
  | inr other ↦ ground (arith, any_role simple id rs, h, other)
]

pub role_eligible :
    (simple : ℕ → Text) (s : State) (c : Candidate)
    → IsOf simple s.sessions c
    → require_role_eligible_session s c.session_id ≡ ok tt
unfolding require_role_eligible_session
role_eligible simple s c h = rw (any_role simple c.session_id s.sessions h.eligible) refl

pub find-All :
    (P : Candidate → Type 0) (p : Candidate → Bool) (cs : List Candidate) (c : Candidate)
    → All P cs
    → find p cs ≡ some c
    → P c × (p c ≡ true)
find-All P p [] c hs e = absurd (ground (arith, e))
find-All P p (d ∷ ds) c (h, hs) e = elim (Bool-cases (p d)) [
  | inl here ↦
      let same : d ≡ c = some_eq (rw here at e) in
      (subst P same h, subst (λ b. p b ≡ true) same here)
  | inr other ↦ find-All P p ds c hs (rw other at e)
]

-- What holds of a candidate that may be a worker of a creation.
pub record Offered (simple : ℕ → Text) (sessions : List SessionRecord) (orchestrator : ℕ)
    (c : Candidate) : Type 0 where
  pub is_of : IsOf simple sessions c
  pub other : (c.session_id == orchestrator) ≡ false

pub offered :
    (simple : ℕ → Text) (sessions : List SessionRecord) (o : ℕ) (cs : List Candidate)
    → All (IsOf simple sessions) cs
    → All (Offered simple sessions o) (retain (not_session o) cs)
offered simple sessions o [] h = tt
offered simple sessions o (c ∷ cs) (h, hs) =
    if_both (All (Offered simple sessions o)) (not_session o c)
      (λ held.
        (record { is_of = h; other = ground (arith, held) }, offered simple sessions o cs hs))
      (λ lost. offered simple sessions o cs hs)

pub specs-SpecOk :
    (simple : ℕ → Text) (sessions : List SessionRecord) (o : ℕ) (prompts : List ℕ)
    (cs : List Candidate)
    → All (Offered simple sessions o) cs
    → All (SpecOk o) (map (spec_of prompts) cs)
specs-SpecOk simple sessions o prompts [] h = tt
specs-SpecOk simple sessions o prompts (c ∷ cs) (h, hs) = (
  record { other = h.other; capable = rw h.is_of.new refl },
  specs-SpecOk simple sessions o prompts cs hs,
)

pub specs-eligible :
    (simple : ℕ → Text) (s : State) (o : ℕ) (prompts : List ℕ) (cs : List Candidate)
    → All (Offered simple s.sessions o) cs
    → require_all_eligible s (map (spec_of prompts) cs) ≡ ok tt
unfolding require_all_eligible
specs-eligible simple s o prompts [] h = refl
specs-eligible simple s o prompts (c ∷ cs) (h, hs) =
    rw (role_eligible simple s c h.is_of) (specs-eligible simple s o prompts cs hs)

pub specs-sessions :
    (prompts : List ℕ) (cs : List Candidate) → spec_sessions (map (spec_of prompts) cs) ≡ ids_of cs
specs-sessions prompts [] = refl
specs-sessions prompts (c ∷ cs) = ap (λ is. c.session_id ∷ is) (specs-sessions prompts cs)

pub count-retain_ids :
    (a : ℕ) (p : Candidate → Bool) (cs : List Candidate)
    → count ◌==◌ a (ids_of (retain p cs)) ≤ count ◌==◌ a (ids_of cs)
count-retain_ids a p [] = omega arith
count-retain_ids a p (c ∷ cs) =
    if_both (λ ds. count ◌==◌ a (ids_of ds) ≤ count ◌==◌ a (ids_of (c ∷ cs))) (p c)
      (λ held. omega (arith, count-retain_ids a p cs))
      (λ lost. omega (arith, count-retain_ids a p cs))
