-- ===== src/Examples/Groups.antt =====
-- Concrete runs of the operations on observer groups and of the identifiers.
use herdr_tether.Prelude.{
  false, map, ◌*◌, ℕ, zero, suc, Option, ◌++◌, ◌%◌, ◌-◌, ap, ◌≤◌, ◌<◌, ◌+◌, true, false, none, some,
  [], ◌∷◌, ◌≡◌, ◌↔◌, refl, arith, ◌==◌, if◌then◌else◌, count, leb, is_in, inl, inr, ltb, ◌∙◌,
  Option-cases, All,
}
use herdr_tether.Prelude.Text.{Text, codes}
use herdr_tether.Session.{OrchestrationCapabilities, OrchestrationGroup, State}
use herdr_tether.Session.Validate.{
  validate, current_version, validate_groups, validate_sessions, validate_session, validate_texts,
  validate_lifecycle, validate_workers,
}
use herdr_tether.Groups.{
  ok, WorkerSpec, find_group, membership_of, replace_workers, worker_members, change_group,
  require_new_eligible, require_role_eligible_session, validate_worker_specs, check_specs,
}
use herdr_tether.Groups.Valid.{validate_iff, RestOk, GroupsOk}
use herdr_tether.Groups.Members.{new_ids, spec_sessions}
use herdr_tether.Groups.Leaves.{AllNew}
use herdr_tether.Identifiers.{strip_prefix}
use herdr_tether.Groups.Replace.{require_unchanged_self}
use herdr_tether.Groups.Perform.{
  GroupRequest, left_by, perform, perform-valid, perform-unchanged, replace_workers-membership,
}
use herdr_tether.Identifiers.{
  parse_tmux_session_id, display_tmux_session_id, parse_tmux_pane_id, display_tmux_pane_id,
  u64_bound, parse_session_id, display_session_id, parse_external_session_name, parse_membership_id,
  parse_ownership_proof,
}
use herdr_tether.Identifiers.RoundTrip.{
  tmux_id-round_trip, session_id-round_trip, external-not_owned, SimpleForm, hex_digits, strip-rest,
}
use herdr_tether.Session.Pace.{seconds, paced_restart_until}
use herdr_tether.Store.{World, load}
use herdr_tether.Lifecycle.Orderly.{InOrder}
use herdr_tether.Groups.Plan.{
  GroupAction, GroupDecision, GroupPlan, GroupPlanEntry, GroupOutcome, apply_group_action,
  act_on_member, GroupMemberResult, GroupSkip, paced_seconds,
}
use herdr_tether.Groups.Applied.{
  Departed, apply_group_action-InOrder, act_on_member-unconfirmed, paced_seconds-near,
}
use herdr_tether.Examples.{
  running_session, failed_session, failed_session-paced, world_of, agreeing,
}

abbrev pub watching : OrchestrationCapabilities
watching = record { observe_output = true; open_interactive = true; prompt_agent = false }

abbrev pub spec : ℕ → WorkerSpec
spec id = record { session_id = id; title = none; capabilities = watching }

abbrev pub group : OrchestrationGroup
group = record {
  id = codes "observer-a";
  title = codes "A";
  orchestrator_session_id = 7;
  workers =
      record { session_id = 8; membership_id = 1; title = none; capabilities = watching } ∷ [];
}

abbrev pub grouped : State
grouped = record {
  version = current_version;
  sessions =
      running_session ∷ record running_session { id = 8 } ∷ record running_session { id = 9 } ∷ [];
  orchestration_groups = group ∷ [];
}

pub grouped-valid : validate grouped ≡ none
unfolding validate validate_sessions validate_session validate_texts validate_lifecycle
    validate_groups validate_workers
grouped-valid = refl

abbrev pub next_id : ℕ → ℕ
next_id k = 100 + k

new_ids-above :
    (k a n : ℕ) → count ◌==◌ a (new_ids next_id k n) ≤ (if leb (100 + k) a then 1 else 0)
new_ids-above k a zero = omega arith
new_ids-above k a (suc n) = ground (arith, new_ids-above (suc k) a n)

next_id-AllNew : AllNew next_id grouped
next_id-AllNew n a = ground (arith, new_ids-above 0 a n)

abbrev replaced : GroupRequest
replaced = GroupRequest.replace group (spec 9 ∷ spec 8 ∷ [])

abbrev changed_group : OrchestrationGroup
changed_group = record group {
  workers =
      record { session_id = 9; membership_id = 100; title = none; capabilities = watching }
      ∷ record { session_id = 8; membership_id = 1; title = none; capabilities = watching }
      ∷ [];
}

abbrev changed : State
changed = record grouped { orchestration_groups = changed_group ∷ [] }

replaced-eq :
    replace_workers next_id group (spec 9 ∷ spec 8 ∷ []) grouped ≡ ok (changed_group, changed)
unfolding replace_workers find_group require_new_eligible require_role_eligible_session
    validate_worker_specs check_specs worker_members change_group
replaced-eq = rw (require_unchanged_self group) refl

performed : perform next_id replaced grouped ≡ ok changed
unfolding perform
performed = ap left_by replaced-eq

perform-valid_example : (validate changed ≡ none) × (changed.sessions ≡ grouped.sessions)
perform-valid_example =
    perform-valid next_id replaced grouped changed grouped-valid next_id-AllNew performed

perform-unchanged_example : find_group group.id grouped.orchestration_groups ≡ ok group
perform-unchanged_example = perform-unchanged next_id replaced group grouped changed refl performed

replace_workers-membership_example :
    membership_of changed_group.workers 8
    ≡ (if is_in ◌==◌ (spec_sessions (spec 9 ∷ spec 8 ∷ [])) 8 then some 1 else none)
replace_workers-membership_example =
    replace_workers-membership next_id group changed_group (spec 9 ∷ spec 8 ∷ []) grouped changed 8
      1 replaced-eq refl

validate_iff_example :
    (validate grouped ≡ none) ↔ (RestOk grouped × GroupsOk grouped.orchestration_groups)
validate_iff_example = validate_iff grouped

tmux_id-round_trip_example :
    (parse_tmux_session_id (display_tmux_session_id 4096) ≡ some 4096)
    × (parse_tmux_pane_id (display_tmux_pane_id 4096) ≡ some 4096)
unfolding u64_bound
tmux_id-round_trip_example = tmux_id-round_trip 4096 small
  where
    small : 4096 < u64_bound
    small = omega arith

-- An identifier of 32 hexadecimal digits, which ends in its number.
abbrev pub zeros : ℕ → Text
zeros zero = []
zeros (suc n) = 48 ∷ zeros n

abbrev pub written : ℕ → Text
written n = zeros 31 ++ (48 + n % 10) ∷ []

abbrev last_digit : Option Text → Option ℕ
last_digit (some (c ∷ [])) = if ltb c 48 then none else some (c - 48)
last_digit _ = none

abbrev read_back : Text → Option ℕ
read_back t = last_digit (strip_prefix (zeros 31) t)

abbrev seven : ℕ → ℕ
seven n = 7

zeros-digits :
    (n : ℕ) (t : Text)
    → All (λ c. is_in ◌==◌ hex_digits c ≡ true) t
    → All (λ c. is_in ◌==◌ hex_digits c ≡ true) (zeros n ++ t)
zeros-digits zero t h = h
zeros-digits (suc n) t h = (refl, zeros-digits n t h)

written-SimpleForm : SimpleForm (written 5)
written-SimpleForm = record { long = refl; digits = zeros-digits 31 (53 ∷ []) (refl, tt) }

-- Only what is written of 5 is read as 5.
read_back-written : (t : Text) → read_back t ≡ some 5 → t ≡ written 5
read_back-written t h = elim (Option-cases (strip_prefix (zeros 31) t)) [
  | inl other ↦ absurd (ground (arith, h, other))
  | inr (rest, ours) ↦
      strip-rest (zeros 31) t rest ours
      ∙ ap (λ u. zeros 31 ++ u) (last rest (rw (ours, read_back) at h))
]
  where
    last : (rest : Text) → last_digit (some rest) ≡ some 5 → rest ≡ 53 ∷ []
    last [] k = absurd (ground (arith, k))
    last (c ∷ []) k = ap (λ d. d ∷ []) (ground (arith, k))
    last (c ∷ d ∷ cs) k = absurd (ground (arith, k))

session_id-round_trip_example :
    ((parse_session_id written read_back seven (codes "tether-" ++ written 5) ≡ some 5) ↔ (
      (codes "tether-" ++ written 5 ≡ display_session_id written read_back seven 5)
      × (◌≡◌ {A = ℕ} 7 7)))
    × ((parse_membership_id written read_back seven (codes "tether-" ++ written 5) ≡ some 5)
        ↔ ((codes "tether-" ++ written 5 ≡ written 5) × (◌≡◌ {A = ℕ} 7 7)))
    × ((parse_ownership_proof written read_back seven (codes "tether-" ++ written 5) ≡ some 5)
        ↔ (codes "tether-" ++ written 5 ≡ written 5))
session_id-round_trip_example =
    session_id-round_trip written read_back seven 5 (codes "tether-" ++ written 5)
      written-SimpleForm refl (λ u form h. read_back-written u h)

external-not_owned_example : parse_external_session_name (codes "tether-" ++ written 5) ≡ none
unfolding parse_session_id
external-not_owned_example =
    external-not_owned written read_back seven (codes "tether-" ++ written 5) 5 parsed
  where
    parsed : parse_session_id written read_back seven (codes "tether-" ++ written 5) ≡ some 5
    parsed = refl

abbrev entry : GroupPlanEntry
entry = record { session_id = 8; membership_id = 5; decision = GroupDecision.act }

abbrev plan : GroupPlan
plan = record { group_id = codes "observer-a"; action = GroupAction.stop; entries = entry ∷ [] }

abbrev grouped_world : World
grouped_world = record (world_of running_session) { store = grouped }

apply_group_action-InOrder_example :
    InOrder (apply_group_action agreeing plan grouped_world).1
    × (map (λ (o : GroupOutcome). o.session_id) (apply_group_action agreeing plan grouped_world).0
        ≡ map (λ (e : GroupPlanEntry). e.session_id) plan.entries)
apply_group_action-InOrder_example = apply_group_action-InOrder agreeing plan grouped_world tt

-- The stored membership of the session is another one.
grouped_world-loaded : (load agreeing grouped_world).0 ≡ some grouped
unfolding load validate validate_sessions validate_session validate_texts validate_lifecycle
    validate_groups validate_workers
grouped_world-loaded = refl

another_membership : Departed plan.group_id entry grouped.orchestration_groups
another_membership =
    ((λ named. ((λ session membership. absurd (omega (arith, membership))), tt)), tt)

act_on_member-unconfirmed_example :
    ((act_on_member agreeing plan entry grouped_world).1.effects ≡ grouped_world.effects)
    × (entry.decision ≡ GroupDecision.act
        → (act_on_member agreeing plan entry grouped_world).0
          ≡ GroupMemberResult.skipped GroupSkip.membership_changed)
act_on_member-unconfirmed_example =
    act_on_member-unconfirmed agreeing plan entry grouped_world grouped grouped_world-loaded
      another_membership

failed_session-waits : paced_seconds (seconds 4003) (seconds 4003) failed_session ≡ some 29
unfolding paced_seconds
failed_session-waits = rw (failed_session-paced, paced_seconds) refl

paced_seconds-near_example :
    (until : ℕ) × (paced_restart_until failed_session (seconds 4003) ≡ some until)
    × (until < seconds 4003 + 29 * 1000000000 + 1000000)
    × (seconds 4003 + 29 * 1000000000 < until + 1000000000)
paced_seconds-near_example =
    paced_seconds-near (seconds 4003) (seconds 4003) 29 failed_session failed_session-waits
