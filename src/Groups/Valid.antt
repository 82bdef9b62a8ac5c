-- ===== src/Groups/Valid.antt =====
-- src/state.rs: what `State::validate` asks of the observer groups, without the loops: bounds, roles,
-- capabilities, and that nothing stands twice.
use herdr_tether.Prelude.{
  ℕ, ◌≤◌, Bool, true, false, not, none, List, [], ◌∷◌, ◌++◌, ◌≡◌, refl, ◌↔◌, arith, ◌==◌, ==_iff,
  ltb, length, map, All,
}
use herdr_tether.Prelude.Once.{Fresh, Once, Fresh-cons, Fresh-nil, Fresh-append_left}
use herdr_tether.Prelude.Text.{Text, text_eq, text_eq_refl, text_eq_sound}
use herdr_tether.Session.{OrchestrationMember, OrchestrationGroup, State}
use herdr_tether.Session.Validate.{
  Invalid, reject_if, validate, validate_sessions, validate_workers, validate_groups,
  has_no_capability, max_workers, max_orchestration_groups, max_sessions, current_version,
}
use herdr_tether.Session.Validate.WellFormed.{or_else-none}

abbrev pub sessions_of : List OrchestrationMember → List ℕ
sessions_of ms = map (λ (m : OrchestrationMember). m.session_id) ms

abbrev pub memberships_of : List OrchestrationMember → List ℕ
memberships_of ms = map (λ (m : OrchestrationMember). m.membership_id) ms

abbrev pub names_of : List OrchestrationGroup → List Text
names_of gs = map (λ (g : OrchestrationGroup). g.id) gs

-- The memberships of all groups.
abbrev pub all_memberships : List OrchestrationGroup → List ℕ
all_memberships [] = []
all_memberships (g ∷ gs) = memberships_of g.workers ++ all_memberships gs

pub record MemberOk (orchestrator : ℕ) (m : OrchestrationMember) : Type 0 where
  pub other : (m.session_id == orchestrator) ≡ false
  pub capable : has_no_capability m.capabilities ≡ false

pub record GroupOk (g : OrchestrationGroup) : Type 0 where
  pub few : length g.workers ≤ max_workers
  pub members : All (MemberOk g.orchestrator_session_id) g.workers
  pub distinct : Once ◌==◌ (sessions_of g.workers)

pub record GroupsOk (gs : List OrchestrationGroup) : Type 0 where
  pub few : length gs ≤ max_orchestration_groups
  pub each : All GroupOk gs
  pub names : Once text_eq (names_of gs)
  pub memberships : Once ◌==◌ (all_memberships gs)

pub reject_if-none : (b : Bool) (e : Invalid) → (reject_if b e ≡ none) ↔ (b ≡ false)
reject_if-none true e = (λ h. absurd (ground arith), λ h. absurd (ground arith))
reject_if-none false e = (λ h. refl, λ h. refl)

pub eq_sound : (a b : ℕ) → (a == b) ≡ true → a ≡ b
eq_sound a b = (==_iff a b).0

pub eq_self : (a : ℕ) → (a == a) ≡ true
eq_self a = (==_iff a a).1 refl

-- What the loop over the workers asks, and the set that it hands on.
WorkersOk : ℕ → List ℕ → List ℕ → List OrchestrationMember → Type 0
WorkersOk orchestrator seen ms ws =
    All (MemberOk orchestrator) ws
    × Fresh ◌==◌ seen (sessions_of ws)
    × Fresh ◌==◌ ms (memberships_of ws)

validate_workers-memberships :
    (orchestrator : ℕ) (seen ms : List ℕ) (ws : List OrchestrationMember) (xs : List ℕ)
    → Fresh ◌==◌ ms (memberships_of ws ++ xs)
    → Fresh ◌==◌ (validate_workers orchestrator seen ms ws).1 xs
unfolding validate_workers
validate_workers-memberships orchestrator seen ms [] xs h = h
validate_workers-memberships orchestrator seen ms (w ∷ ws) xs h =
    validate_workers-memberships orchestrator (w.session_id ∷ seen) (w.membership_id ∷ ms) ws xs
      ((Fresh-cons ◌==◌ eq_sound eq_self ms w.membership_id (memberships_of ws ++ xs)).0 h).1

memberships-validate_workers :
    (orchestrator : ℕ) (seen ms : List ℕ) (ws : List OrchestrationMember) (xs : List ℕ)
    → Fresh ◌==◌ ms (memberships_of ws)
    → Fresh ◌==◌ (validate_workers orchestrator seen ms ws).1 xs
    → Fresh ◌==◌ ms (memberships_of ws ++ xs)
unfolding validate_workers
memberships-validate_workers orchestrator seen ms [] xs h k = k
memberships-validate_workers orchestrator seen ms (w ∷ ws) xs h k =
    let (new, rest) =
      (Fresh-cons ◌==◌ eq_sound eq_self ms w.membership_id (memberships_of ws)).0 h in
    (Fresh-cons ◌==◌ eq_sound eq_self ms w.membership_id (memberships_of ws ++ xs)).1 (
      new,
      memberships-validate_workers orchestrator (w.session_id ∷ seen) (w.membership_id ∷ ms) ws xs
          rest k,
    )

validate_workers_iff :
    (orchestrator : ℕ) (seen ms : List ℕ) (ws : List OrchestrationMember)
    → ((validate_workers orchestrator seen ms ws).0 ≡ none) ↔ WorkersOk orchestrator seen ms ws
unfolding validate_workers WorkersOk
validate_workers_iff orchestrator seen ms [] =
    (λ h. (tt, λ a. ground arith, λ a. ground arith), λ h. refl)
validate_workers_iff orchestrator seen ms (w ∷ ws) =
    let ih = validate_workers_iff orchestrator (w.session_id ∷ seen) (w.membership_id ∷ ms) ws in
    let sessions = Fresh-cons ◌==◌ eq_sound eq_self seen w.session_id (sessions_of ws) in
    let members = Fresh-cons ◌==◌ eq_sound eq_self ms w.membership_id (memberships_of ws) in
    (
      λ h.
          let (problem, rest) = (or_else-none _ _).0 h in
          let (role, more) = (or_else-none _ _).0 problem in
          let (new, last) = (or_else-none _ _).0 more in
          let (member, capable) = (or_else-none _ _).0 last in
          let (oks, ss, mss) = ih.0 rest in
          (
            (
              record {
                other = (reject_if-none _ _).0 role;
                capable = (reject_if-none _ _).0 capable;
              },
              oks,
            ),
            sessions.1 ((reject_if-none _ _).0 new, ss),
            members.1 ((reject_if-none _ _).0 member, mss),
          ),
      λ h.
          let (new, ss) = sessions.0 h.1 in
          let (member, mss) = members.0 h.2 in
          (or_else-none _ _).1 (
            (or_else-none _ _).1 (
              (reject_if-none _ _).1 h.0.0.other,
              (or_else-none _ _).1 (
                (reject_if-none _ _).1 new,
                (or_else-none _ _).1
                    ((reject_if-none _ _).1 member, (reject_if-none _ _).1 h.0.0.capable),
              ),
            ),
            ih.1 (h.0.1, ss, mss),
          ),
    )

checked_workers :
    (g : OrchestrationGroup) (ms : List ℕ)
    → (validate_workers g.orchestrator_session_id [] ms g.workers).0 ≡ none
    → All (MemberOk g.orchestrator_session_id) g.workers
      × Fresh ◌==◌ [] (sessions_of g.workers)
      × Fresh ◌==◌ ms (memberships_of g.workers)
unfolding WorkersOk
checked_workers g ms = (validate_workers_iff g.orchestrator_session_id [] ms g.workers).0

workers_checked :
    (g : OrchestrationGroup) (ms : List ℕ)
    → All (MemberOk g.orchestrator_session_id) g.workers
      × Fresh ◌==◌ [] (sessions_of g.workers)
      × Fresh ◌==◌ ms (memberships_of g.workers)
    → (validate_workers g.orchestrator_session_id [] ms g.workers).0 ≡ none
unfolding WorkersOk
workers_checked g ms = (validate_workers_iff g.orchestrator_session_id [] ms g.workers).1

limit_iff : (limit n : ℕ) → (ltb limit n ≡ false) ↔ (n ≤ limit)
limit_iff limit n = (λ h. ground arith, λ h. ground arith)

-- The loop over the groups, with the names and the memberships met before.
validate_groups_iff :
    (ids : List Text) (ms : List ℕ) (gs : List OrchestrationGroup)
    → (validate_groups ids ms gs ≡ none)
      ↔ (All GroupOk gs × Fresh text_eq ids (names_of gs) × Fresh ◌==◌ ms (all_memberships gs))
unfolding validate_groups
validate_groups_iff ids ms [] = (λ h. (tt, λ a. ground arith, λ a. ground arith), λ h. refl)
validate_groups_iff ids ms (g ∷ gs) =
    let checked = validate_workers g.orchestrator_session_id [] ms g.workers in
    let ih = validate_groups_iff (g.id ∷ ids) checked.1 gs in
    let workers = validate_workers_iff g.orchestrator_session_id [] ms g.workers in
    let named = Fresh-cons text_eq text_eq_sound text_eq_refl ids g.id (names_of gs) in
    (
      λ h.
          let (new, rest) = (or_else-none _ _).0 h in
          let (few, more) = (or_else-none _ _).0 rest in
          let (members, later) = (or_else-none _ _).0 more in
          let (oks, ss, mss) = checked_workers g ms members in
          let (each, names, others) = ih.0 later in
          (
            (
              record {
                few = (limit_iff _ _).0 ((reject_if-none _ _).0 few);
                members = oks;
                distinct = (Fresh-nil ◌==◌ (sessions_of g.workers)).0 ss;
              },
              each,
            ),
            named.1 ((reject_if-none _ _).0 new, names),
            memberships-validate_workers g.orchestrator_session_id [] ms g.workers
                (all_memberships gs) mss others,
          ),
      λ h.
          let (new, names) = named.0 h.1 in
          let mss = Fresh-append_left ◌==◌ ms (memberships_of g.workers) (all_memberships gs) h.2 in
          (or_else-none _ _).1 (
            (reject_if-none _ _).1 new,
            (or_else-none _ _).1 (
              (reject_if-none _ _).1 ((limit_iff _ _).1 h.0.0.few),
              (or_else-none _ _).1 (
                workers_checked g ms
                    (h.0.0.members, (Fresh-nil ◌==◌ (sessions_of g.workers)).1 h.0.0.distinct, mss),
                ih.1 (
                  h.0.1,
                  names,
                  validate_workers-memberships g.orchestrator_session_id [] ms g.workers
                      (all_memberships gs) h.2,
                ),
              ),
            ),
          ),
    )

-- All that the validation of a state asks besides its groups.
pub record RestOk (s : State) : Type 0 where
  pub version : (s.version == current_version) ≡ true
  pub few : length s.sessions ≤ max_sessions
  pub sessions : validate_sessions [] s.sessions ≡ none

not-false :
    (s : State)
    → (not (s.version == current_version) ≡ false) ↔ ((s.version == current_version) ≡ true)
not-false s = (λ h. ground arith, λ h. ground arith)

-- A state is valid exactly if its version and its sessions are, and its groups are few, have distinct
-- names and memberships, and each has few, distinct and capable workers, none of them its orchestrator.
pub validate_iff : (s : State) → (validate s ≡ none) ↔ (RestOk s × GroupsOk s.orchestration_groups)
unfolding validate
validate_iff s = (
  λ h.
      let (version, a) = (or_else-none _ _).0 h in
      let (sessions, b) = (or_else-none _ _).0 a in
      let (few, c) = (or_else-none _ _).0 b in
      let (each, last) = (or_else-none _ _).0 c in
      let (oks, names, members) = (validate_groups_iff [] [] s.orchestration_groups).0 last in
      (
        record {
          version = (not-false s).0 ((reject_if-none _ _).0 version);
          few = (limit_iff _ _).0 ((reject_if-none _ _).0 sessions);
          sessions = each;
        },
        record {
          few = (limit_iff _ _).0 ((reject_if-none _ _).0 few);
          each = oks;
          names = (Fresh-nil text_eq (names_of s.orchestration_groups)).0 names;
          memberships = (Fresh-nil ◌==◌ (all_memberships s.orchestration_groups)).0 members;
        },
      ),
  λ h.
      let (rest, groups) = h in
      (or_else-none _ _).1 (
        (reject_if-none _ _).1 ((not-false s).1 rest.version),
        (or_else-none _ _).1 (
          (reject_if-none _ _).1 ((limit_iff _ _).1 rest.few),
          (or_else-none _ _).1 (
            (reject_if-none _ _).1 ((limit_iff _ _).1 groups.few),
            (or_else-none _ _).1 (
              rest.sessions,
              (validate_groups_iff [] [] s.orchestration_groups).1 (
                groups.each,
                (Fresh-nil text_eq (names_of s.orchestration_groups)).1 groups.names,
                (Fresh-nil ◌==◌ (all_memberships s.orchestration_groups)).1 groups.memberships,
              ),
            ),
          ),
        ),
      ),
)
