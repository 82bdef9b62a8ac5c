-- ===== src/Manager/Calm.antt =====
-- src/observer_manager.rs: what holds on each screen, which no event loses.
pub mod Rows
pub mod Keep
pub mod Begin
pub mod Handle
pub mod Run
use herdr_tether.Prelude.{
  ℕ, zero, suc, ◌≤◌, ◌+◌, Bool, true, false, not, ◌&&◌, Option, none, some, List, [], ◌∷◌, ◌++◌,
  ◌≡◌, refl, sym, ap, subst, ◌∙◌, arith, ◌==◌, ltb, if◌then◌else◌, length, get_elem?, is_empty,
  retain, find, Bool-cases, Option-cases, if_both, inl, inr,
}
use herdr_tether.Session.{OrchestrationMember, OrchestrationGroup}
use herdr_tether.Manager.{
  Screen, Event, Outcome, continue, act, Candidate, ReviewKind, Notice, Manager, current_group,
  is_candidate,
}
use herdr_tether.Manager.Operations.{
  begin_create, begin_edit, begin_reassign, begin_review, member_candidates, is_other, not_session,
}
use herdr_tether.Manager.Handle.{Handled, handle}

-- The orchestrator of a creation is an eligible session, and every other one may be a worker.
pub record Creating (m : Manager) : Type 0 where
  pub orchestrator : ℕ
  pub candidate : Candidate
  pub chosen : m.selected_orchestrator ≡ some orchestrator
  pub known : find (is_candidate orchestrator) m.eligible ≡ some candidate
  pub others : m.screen_candidates ≡ retain (not_session orchestrator) m.eligible

pub record Grouped (m : Manager) : Type 0 where
  pub group : OrchestrationGroup
  pub stored : current_group m ≡ some group

-- The candidates of an edit are the group's workers and the other eligible sessions.
pub record Editing (m : Manager) : Type 0 where
  pub group : OrchestrationGroup
  pub stored : current_group m ≡ some group
  pub members : List Candidate
  pub made : member_candidates m.eligible 0 group.workers ≡ some members
  pub offered : m.screen_candidates ≡ members ++ retain (is_other group) m.eligible

pub record Reassigning (m : Manager) : Type 0 where
  pub group : OrchestrationGroup
  pub stored : current_group m ≡ some group
  pub orchestrator : ℕ
  pub chosen : m.selected_orchestrator ≡ some orchestrator

abbrev pub OnReview : Option ReviewKind → Manager → Type 0
OnReview none m = ⊥
OnReview (some ReviewKind.creation) m = Creating m × (is_empty m.selected_workers ≡ false)
OnReview (some ReviewKind.replacement) m = Editing m × (is_empty m.selected_workers ≡ false)
OnReview (some ReviewKind.reassignment) m = Reassigning m

abbrev pub OnScreen : Screen → Manager → Type 0
OnScreen Screen.groups m = Unit
OnScreen Screen.create_orchestrator m = m.screen_candidates ≡ m.eligible
OnScreen Screen.create_workers m = Creating m
OnScreen Screen.group_actions m = Grouped m
OnScreen Screen.edit_workers m = Editing m
OnScreen Screen.change_orchestrator m = Grouped m
OnScreen Screen.review_topology m = OnReview m.review_kind m
OnScreen Screen.confirm_delete m = Grouped m

-- The manager over the groups and the eligible sessions that it was opened on.
pub record Calm (gs : List OrchestrationGroup) (es : List Candidate) (m : Manager) : Type 0 where
  pub groups : m.groups ≡ gs
  pub eligible : m.eligible ≡ es
  pub place : OnScreen m.screen m

abbrev pub Goes : List OrchestrationGroup → List Candidate → Handled → Type 0
Goes gs es none = ⊥
Goes gs es (some (m, o)) = Calm gs es m
