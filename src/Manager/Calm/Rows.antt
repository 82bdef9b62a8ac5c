-- ===== src/Manager/Calm/Rows.antt =====
-- src/observer_manager.rs: on each screen there are lines to show.
use herdr_tether.Prelude.{ℕ, Option, none, some, ◌≡◌, refl, arith, Option-cases, inl, inr}
use herdr_tether.Session.{OrchestrationGroup}
use herdr_tether.Manager.{
  Screen, ReviewKind, Manager, current_group, review_orchestrator, review_worker_rows,
  review_labels, item_labels_on, ◌>>=◌,
}
use herdr_tether.Manager.Calm.{OnReview, OnScreen}

abbrev pub Some {ℓ} : {A : Type ℓ} → Option A → Type ℓ
Some {A = A} o = (a : A) × (o ≡ some a)

pub >>=-Some {ℓ κ} :
    {A : Type ℓ} {B : Type κ} (o : Option A) (f : A → Option B)
    → Some o
    → ((a : A) → o ≡ some a → Some (f a))
    → Some (o >>= f)
>>=-Some (some a) f h k = k a refl
>>=-Some none f h k = absurd (ground (arith, h.1))

-- A review has an orchestrator to show where one is chosen, or a group.
chosen_orchestrator :
    (m : Manager) (session : ℕ)
    → m.selected_orchestrator ≡ some session
    → Some (review_orchestrator m)
unfolding review_orchestrator
chosen_orchestrator m session h = (session, rw h refl)

group_orchestrator :
    (m : Manager) (g : OrchestrationGroup) → current_group m ≡ some g → Some (review_orchestrator m)
unfolding review_orchestrator
group_orchestrator m g h = elim (Option-cases m.selected_orchestrator) [
  | inl unset ↦ (g.orchestrator_session_id, rw (unset, h) refl)
  | inr (session, chosen) ↦ chosen_orchestrator m session chosen
]

worker_rows :
    (m : Manager) (kind : Option ReviewKind) (o : ℕ)
    → OnReview kind m
    → Some (review_worker_rows kind m o)
unfolding review_worker_rows
worker_rows m none o h = absurd h
worker_rows m (some ReviewKind.creation) o h = (_, refl)
worker_rows m (some ReviewKind.replacement) o h = (_, refl)
worker_rows m (some ReviewKind.reassignment) o h =
    >>=-Some (current_group m) _ (h.group, h.stored) λ g e. (_, refl)

orchestrator_shown :
    (m : Manager) (kind : Option ReviewKind) → OnReview kind m → Some (review_orchestrator m)
orchestrator_shown m none h = absurd h
orchestrator_shown m (some ReviewKind.creation) h =
    chosen_orchestrator m h.0.orchestrator h.0.chosen
orchestrator_shown m (some ReviewKind.replacement) h = group_orchestrator m h.0.group h.0.stored
orchestrator_shown m (some ReviewKind.reassignment) h =
    chosen_orchestrator m h.orchestrator h.chosen

review_rows : (m : Manager) → OnReview m.review_kind m → Some (review_labels m)
unfolding review_labels
review_rows m h = >>=-Some (review_orchestrator m) _ (orchestrator_shown m m.review_kind h) λ o e.
    >>=-Some (review_worker_rows m.review_kind m o) _ (worker_rows m m.review_kind o h)
      λ rows e'. (_, refl)

pub screen_rows :
    (m : Manager) (screen : Screen) → OnScreen screen m → Some (item_labels_on screen m)
unfolding item_labels_on
screen_rows m Screen.groups h = (_, refl)
screen_rows m Screen.create_orchestrator h = (_, refl)
screen_rows m Screen.create_workers h = (_, refl)
screen_rows m Screen.group_actions h = (_, refl)
screen_rows m Screen.edit_workers h = (_, refl)
screen_rows m Screen.change_orchestrator h = (_, refl)
screen_rows m Screen.review_topology h = review_rows m h
screen_rows m Screen.confirm_delete h =
    >>=-Some (current_group m) _ (h.group, h.stored) λ g e. (_, refl)
