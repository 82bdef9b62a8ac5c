-- ===== src/Manager/Open.antt =====
-- src/observer_manager.rs: `from_state`, which opens the manager on a state. What the uuid crate writes
-- of an identifier is an argument. An error of `from_state` and a panic are both `none`.
pub mod Total
use herdr_tether.Prelude.{
  ℕ, zero, suc, ◌+◌, Bool, true, false, not, ◌&&◌, ◌||◌, Option, none, some, List, [], ◌∷◌, ◌++◌,
  ◌==◌, ltb, leb, if◌then◌else◌, length, is_some, is_in, retain, map, find, take, unwrap_or, min,
  max,
}
use herdr_tether.Prelude.Text.{Text, codes, text_eq}
use herdr_tether.Session.{SessionStatus, SessionRecord, State}
use herdr_tether.Session.Pace.{activity_at}
use herdr_tether.Identifiers.{parse_title}
use herdr_tether.Groups.{is_running}
use herdr_tether.Manager.{Screen, Candidate, Notice, Manager, ◌>>=◌}
use herdr_tether.Manager.Names.{safe_component, repository_name}

abbrev pub is_eligible : SessionRecord → Bool
is_eligible r = is_running r.status && is_some r.ownership_proof && is_some r.tmux_session_id

-- src/state.rs: `normal_status_group`
abbrev pub normal_status_group : SessionStatus → ℕ
normal_status_group SessionStatus.ended = 1
normal_status_group SessionStatus.removed = 2
normal_status_group _ = 0

-- `compare_normal_sessions`, as whether the first may stand before the second: by status, the later
-- activity first, then by identifier.
unfoldable pub stands_before : SessionRecord → SessionRecord → Bool
stands_before l r =
    ltb (normal_status_group l.status) (normal_status_group r.status)
    || (normal_status_group l.status == normal_status_group r.status
        && (ltb (activity_at r) (activity_at l)
            || (activity_at r == activity_at l && leb l.id r.id)))

abbrev pub has_id : ℕ → SessionRecord → Bool
has_id id r = r.id == id

-- The comparison of two candidates by their records; `none` is the panic of an `expect` on a candidate
-- whose record is not there.
unfoldable pub candidate_before : List SessionRecord → Candidate → Candidate → Option Bool
unfolding stands_before
candidate_before sessions l r = do
  a ← find (has_id l.session_id) sessions
  b ← find (has_id r.session_id) sessions
  some (stands_before a b)

-- `sort_by`, which keeps equal elements in their order, and goes on only while no comparison panics. As
-- in any sort, each of two or more elements is compared.
unfoldable pub insert_by :
    (Candidate → Candidate → Option Bool) → Candidate → List Candidate → Option (List Candidate)
insert_by before c [] = some (c ∷ [])
insert_by before c (d ∷ ds) =
    let rest = insert_by before c ds in
    do first ← before c d; if first then some (c ∷ d ∷ ds) else (rest >>= λ es. some (d ∷ es))

unfoldable pub sort_by :
    (Candidate → Candidate → Option Bool) → List Candidate → Option (List Candidate)
unfolding insert_by
sort_by before [] = some []
sort_by before (c ∷ cs) = do rest ← sort_by before cs; insert_by before c rest

unfoldable pub candidate_label : SessionRecord → Text
unfolding safe_component repository_name
candidate_label r =
    safe_component r.host 24
    ++ (codes " / "
        ++ (safe_component (repository_name r.directory) 32
            ++ (codes " / " ++ safe_component (unwrap_or r.preset (codes "shell")) 24)))

unfoldable pub candidate : SessionRecord → Text → Option Candidate
unfolding safe_component repository_name
candidate r label = do
  title ← parse_title (safe_component label 96)
  some (record {
    session_id = r.id;
    label = label;
    host = safe_component r.host 24;
    repository = safe_component (repository_name r.directory) 32;
    title = title;
    agent_kind = r.herdr_agent;
    existing = none;
  })

-- `collect::<HashSet<_>>().len()`
unfoldable pub count_distinct : List Text → ℕ
count_distinct [] = 0
count_distinct (t ∷ ts) = (if is_in text_eq ts t then 0 else 1) + count_distinct ts

module _ (simple : ℕ → Text) where
  unfoldable pub reference_token : ℕ → ℕ → Text
  reference_token width id = take (min (max width 8) 32) (simple id)

  -- The loop over the width from 8 on, for at most so many rounds as lead to 32.
  unfoldable pub label_width : ℕ → List ℕ → ℕ → ℕ
  unfolding reference_token count_distinct
  label_width zero ids width = width
  label_width (suc fuel) ids width =
      let wider = label_width fuel ids (suc width) in
      if count_distinct (map (reference_token width) ids) == length ids || width == 32
      then width
      else wider

  abbrev pub record_id : SessionRecord → ℕ
  record_id r = r.id

  unfoldable pub shares_label : SessionRecord → SessionRecord → Bool
  unfolding candidate_label
  shares_label r q = is_eligible q && text_eq (candidate_label q) (candidate_label r)

  -- The label of an eligible session: with a part of its identifier where others have the same.
  unfoldable pub disambiguated : List SessionRecord → SessionRecord → Text
  unfolding shares_label candidate_label label_width reference_token
  disambiguated sessions r =
      let ids = map record_id (retain (shares_label r) sessions) in
      if length ids == 1
      then candidate_label r
      else candidate_label r
        ++ (codes " [" ++ (reference_token (label_width 24 ids 8) r.id ++ codes "]"))

  abbrev pub is_eligible_id : ℕ → SessionRecord → Bool
  is_eligible_id id r = is_eligible r && r.id == id

  -- `candidate_labels`, over sessions with distinct identifiers.
  unfoldable pub candidate_labels : List SessionRecord → ℕ → Option Text
  unfolding disambiguated
  candidate_labels sessions id = elim (find (is_eligible_id id) sessions) [
    | none ↦ none
    | some r ↦ some (disambiguated sessions r)
  ]

  unfoldable pub candidates : List SessionRecord → List SessionRecord → Option (List Candidate)
  unfolding candidate_labels candidate
  candidates sessions [] = some []
  candidates sessions (r ∷ rs) = do
    label ← candidate_labels sessions r.id
    c ← candidate r label
    cs ← candidates sessions rs
    some (c ∷ cs)

  unfoldable pub opened : State → Option Text → List Candidate → Manager
  unfolding candidate_labels
  opened s notice eligible = record {
    screen = Screen.groups;
    groups = s.orchestration_groups;
    eligible = eligible;
    screen_candidates = [];
    session_labels = candidate_labels s.sessions;
    running_sessions =
        map record_id (retain (λ (r : SessionRecord). is_running r.status) s.sessions);
    selected_index = 0;
    selected_group = none;
    selected_orchestrator = none;
    selected_workers = [];
    prompt_workers = [];
    herdr_connected = true;
    review_kind = none;
    review_return_index = 0;
    notice = elim notice [ none ↦ none | some text ↦ some (Notice.given text) ];
  }

  unfoldable pub from_state : State → Option Text → Option Manager
  unfolding candidates candidate_before sort_by opened
  from_state s notice = do
    cs ← candidates s.sessions (retain is_eligible s.sessions)
    sorted ← sort_by (candidate_before s.sessions) cs
    some (opened s notice sorted)
