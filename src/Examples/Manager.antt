-- ===== src/Examples/Manager.antt =====
-- Concrete runs of the Observer manager over three sessions and one group.
use herdr_tether.Prelude.{
  ℕ, ◌≤◌, ◌+◌, true, false, none, some, List, [], ◌∷◌, ◌≡◌, refl, arith, length, any, All, count,
  map, ◌==◌, unwrap_or,
}
use herdr_tether.Prelude.Text.{Text, codes}
use herdr_tether.Session.{SessionRecord, OrchestrationGroup, State}
use herdr_tether.Session.Pace.{activity_at}
use herdr_tether.Session.Validate.{
  validate, current_version, validate_sessions, validate_session, validate_texts,
  validate_lifecycle, validate_groups,
}
use herdr_tether.Examples.{running_session}
use herdr_tether.Groups.{WorkerSpec, ok, create_group_with_workers, is_group}
use herdr_tether.Identifiers.{parse_group_id, parse_title}
use herdr_tether.Manager.{Manager, Event, Outcome, act, Action, Candidate, Row, Screen, item_labels}
use herdr_tether.Manager.Handle.{handle, run}
use herdr_tether.Manager.Open.{from_state}
use herdr_tether.Manager.Open.Total.{IsOf, ids_of, from_state-opens}
use herdr_tether.Manager.Names.{next_group_identity, safe_component, slug}
use herdr_tether.Manager.Names.Identity.{next_group_identity-accepted}
use herdr_tether.Manager.Names.Safe.{safe_component-title}
use herdr_tether.Manager.Names.Slug.{is_word, slug-is_word}
use herdr_tether.Manager.Calm.{Calm}
use herdr_tether.Manager.Calm.Run.{run-calm}
use herdr_tether.Manager.Asked.{OpenGroup, handle-Asked}
use herdr_tether.Manager.Composed.{creation-carried_out}
use herdr_tether.Manager.Keys.{
  KeyEvent, KeyCode, KeyEventKind, is_harmless, event_for_key, repeated_key-is_harmless,
}
use herdr_tether.Examples.Groups.{group, grouped, watching, next_id, written}

safe_component-title_example :
    parse_title (safe_component (codes "my host!") 24) ≡ some (safe_component (codes "my host!") 24)
safe_component-title_example =
    safe_component-title (codes "my host!") 24 (omega arith) (omega arith)

slug-is_word_example :
    (is_word true (slug (codes "My Host") (7 + 17)) ≡ true)
    × (length (slug (codes "My Host") (7 + 17)) ≤ 7 + 17)
slug-is_word_example = slug-is_word (codes "My Host") 17

next_group_identity-accepted_example :
    (id : Text) × (title : Text) × (next_group_identity (group ∷ []) (codes "local") (codes "work")
      ≡ some (id, title))
    × (any (is_group id) (group ∷ []) ≡ false)
    × (parse_group_id id ≡ some id)
    × (parse_title title ≡ some title)
next_group_identity-accepted_example =
    next_group_identity-accepted (group ∷ []) (codes "local") (codes "work") (omega arith)

abbrev candidate_of : ℕ → Candidate
candidate_of id = record {
  session_id = id;
  label = codes "local / work / shell";
  host = codes "local";
  repository = codes "work";
  title = codes "local work shell";
  agent_kind = none;
  existing = none;
}

abbrev offered : List Candidate
offered = candidate_of 7 ∷ candidate_of 8 ∷ candidate_of 9 ∷ []

abbrev manager : Manager
manager = record {
  screen = Screen.groups;
  groups = group ∷ [];
  eligible = offered;
  screen_candidates = [];
  session_labels = λ id. none;
  running_sessions = 7 ∷ 8 ∷ 9 ∷ [];
  selected_index = 0;
  selected_group = none;
  selected_orchestrator = none;
  selected_workers = [];
  prompt_workers = [];
  herdr_connected = true;
  review_kind = none;
  review_return_index = 0;
  notice = none;
}

-- The second session is made the orchestrator, and the first one its worker.
abbrev keys : List Event
keys = Event.create ∷ Event.next ∷ Event.confirm ∷ Event.toggle ∷ Event.confirm ∷ Event.confirm ∷ []

run-calm_example :
    (r : Manager × Outcome) × (run keys manager ≡ some r)
    × Calm (group ∷ []) offered r.0
    × ((rows : List Row) × (item_labels r.0 ≡ some rows))
run-calm_example =
    run-calm (group ∷ []) offered keys manager (omega arith)
      (record { groups = refl; eligible = refl; place = tt })

from_state-opens_example :
    (m : Manager) × (from_state written grouped none ≡ some m)
    × Calm grouped.orchestration_groups m.eligible m
    × All (IsOf written grouped.sessions) m.eligible
    × ((a : ℕ)
        → count ◌==◌ a (ids_of m.eligible)
          ≤ count ◌==◌ a (map (λ (r : SessionRecord). r.id) grouped.sessions))
from_state-opens_example = from_state-opens written grouped none

abbrev confirming : Manager
confirming = record manager { screen = Screen.confirm_delete; selected_group = some 0 }

deletes :
    handle Event.confirm_deletion confirming ≡ some (confirming, act (Action.delete_group group))
unfolding handle
deletes = refl

handle-Asked_example :
    (confirming.screen ≡ Screen.confirm_delete)
    × (◌≡◌ {A = Event} Event.confirm_deletion Event.confirm_deletion)
    × OpenGroup confirming group
handle-Asked_example =
    handle-Asked Event.confirm_deletion confirming confirming (Action.delete_group group) deletes

-- Two sessions on a host, in directories of their own.
abbrev pair : State
pair = record {
  version = current_version;
  sessions =
      record running_session { host = codes "h"; directory = codes "a" }
      ∷ record running_session { id = 8; host = codes "h"; directory = codes "b" }
      ∷ [];
  orchestration_groups = [];
}

pair-valid : validate pair ≡ none
unfolding validate validate_sessions validate_session validate_texts validate_lifecycle
    validate_groups
pair-valid = refl

abbrev opened_manager : Manager
unfolding from_state
opened_manager = unwrap_or (from_state written pair none) manager

opens : from_state written pair none ≡ some opened_manager
unfolding opened_manager from_state parse_title activity_at
opens = refl

abbrev ended : Manager
unfolding run opened_manager
ended = elim (run keys opened_manager) [ none ↦ manager | some (m, o) ↦ m ]

abbrev new_workers : List WorkerSpec
new_workers =
    record { session_id = 7; title = some (codes "h a shell"); capabilities = watching } ∷ []

created :
    run keys opened_manager
    ≡ some (
      ended,
      act (Action.create_group (codes "observer-h-b") (codes "Observer h b") 8 new_workers),
    )
unfolding run opened_manager ended handle parse_title activity_at parse_group_id
created = refl

creation-carried_out_example :
    (r : OrchestrationGroup × State) × (create_group_with_workers next_id
        (codes "observer-h-b")
        (codes "Observer h b")
        8
        new_workers
        pair
      ≡ ok r)
creation-carried_out_example =
    creation-carried_out written next_id pair none keys opened_manager ended (codes "observer-h-b")
      (codes "Observer h b") 8 new_workers pair-valid opens created (omega arith) (omega arith)

abbrev held_key : KeyEvent
held_key = record {
  code = KeyCode.char b'j';
  kind = KeyEventKind.repeat;
  control = false;
  alt = false;
}

held_key-next : event_for_key held_key Screen.edit_workers ≡ some Event.next
unfolding event_for_key
held_key-next = refl

repeated_key-is_harmless_example : is_harmless Event.next ≡ true
repeated_key-is_harmless_example =
    repeated_key-is_harmless held_key Screen.edit_workers Event.next refl held_key-next
