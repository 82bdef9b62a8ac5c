-- ===== src/Manager/Calm/Begin.antt =====
-- src/observer_manager.rs: a creation, an edit, a reassignment and a review begin without a panic.
use herdr_tether.Prelude.{
  ℕ, suc, true, false, ◌&&◌, none, some, List, [], ◌∷◌, ◌≡◌, refl, arith, length, is_empty, find,
  Bool-cases, Option-cases, if_both, inl, inr,
}
use herdr_tether.Session.{OrchestrationMember, OrchestrationGroup}
use herdr_tether.Manager.{
  Screen, Candidate, ReviewKind, Notice, Manager, current_group, is_candidate,
}
use herdr_tether.Manager.Operations.{
  begin_create, begin_notice, begin_edit, begin_reassign, begin_review, member_candidates,
  member_candidate, unavailable_candidate, member_text, asks_for_workers,
}
use herdr_tether.Manager.Names.Safe.{safe_component-title}
use herdr_tether.Manager.Handle.{then_continue}
use herdr_tether.Manager.Calm.{Grouped, OnReview, Calm, Goes}
use herdr_tether.Manager.Calm.Rows.{Some, >>=-Some}
use herdr_tether.Manager.Calm.Keep.{bind-Goes, touched-Calm}

unavailable_candidate-Some : (i : ℕ) (w : OrchestrationMember) → Some (unavailable_candidate i w)
unfolding unavailable_candidate
unavailable_candidate-Some i w =
    >>=-Some _ _ (_, safe_component-title (member_text i w.title) 96 (omega arith) (omega arith))
      λ t e. (_, refl)

member_candidate-Some :
    (es : List Candidate) (i : ℕ) (w : OrchestrationMember) → Some (member_candidate es i w)
unfolding member_candidate
member_candidate-Some es i w = elim (Option-cases (find (is_candidate w.session_id) es)) [
  | inl unknown ↦
      rw (unknown, member_candidate)
        (>>=-Some (unavailable_candidate i w) (λ c. some (record c { existing = some w }))
          (unavailable_candidate-Some i w) λ c e. (_, refl))
  | inr (c, known) ↦ (record c { existing = some w }, rw (known, member_candidate) refl)
]

pub member_candidates-Some :
    (es : List Candidate) (i : ℕ) (ws : List OrchestrationMember) → Some (member_candidates es i ws)
unfolding member_candidates
member_candidates-Some es i [] = ([], refl)
member_candidates-Some es i (w ∷ ws) =
    >>=-Some (member_candidate es i w) _ (member_candidate-Some es i w) λ c e.
      >>=-Some (member_candidates es (suc i) ws) _ (member_candidates-Some es (suc i) ws)
        λ cs e'. (_, refl)

module _ (gs : List OrchestrationGroup) (es : List Candidate) where
  pub begin_create-Calm : (m : Manager) → Calm gs es m → Calm gs es (begin_create m)
  unfolding begin_create
  begin_create-Calm m calm = elim (Option-cases (begin_notice (length m.eligible))) [
    | inl enough ↦
        rw (enough, begin_create)
          (record { groups = calm.groups; eligible = calm.eligible; place = refl })
    | inr (n, few) ↦
        rw (few, begin_create)
          (record { groups = calm.groups; eligible = calm.eligible; place = tt })
  ]

  pub begin_edit-Goes :
      (m : Manager) → Grouped m → Calm gs es m → Goes gs es (then_continue (begin_edit m))
  unfolding begin_edit current_group
  begin_edit-Goes m grouped calm =
      bind-Goes gs es (current_group m) _ (grouped.group, grouped.stored)
        λ g stored.
          bind-Goes gs es (member_candidates m.eligible 0 g.workers) _
            (member_candidates-Some m.eligible 0 g.workers)
            λ cs made. record {
              groups = calm.groups;
              eligible = calm.eligible;
              place = record {
                group = g;
                stored = stored;
                members = cs;
                made = made;
                offered = refl;
              };
            }

  pub begin_reassign-Goes :
      (m : Manager) → Grouped m → Calm gs es m → Goes gs es (then_continue (begin_reassign m))
  unfolding begin_reassign current_group
  begin_reassign-Goes m grouped calm =
      bind-Goes gs es (current_group m) _ (grouped.group, grouped.stored)
        λ g stored. record {
          groups = calm.groups;
          eligible = calm.eligible;
          place = record { group = g; stored = stored };
        }

  -- A review of a creation or a replacement begins where a worker is selected.
  pub begin_review-Calm :
      (kind : ReviewKind) (m : Manager)
      → (asks_for_workers kind ≡ true
          → is_empty m.selected_workers ≡ false
          → OnReview (some kind) m)
      → (asks_for_workers kind ≡ false → OnReview (some kind) m)
      → Calm gs es m
      → Calm gs es (begin_review kind m)
  unfolding begin_review current_group
  begin_review-Calm kind m asked unasked calm =
      if_both (Calm gs es) (asks_for_workers kind && is_empty m.selected_workers)
        (λ bare. touched-Calm gs es m.selected_index (some Notice.no_worker) m calm)
        (λ full. record {
          groups = calm.groups;
          eligible = calm.eligible;
          place = reviewed kind (elim (Bool-cases (asks_for_workers kind)) [
            | inl asks ↦ asked asks (ground (arith, full, asks))
            | inr asks ↦ unasked asks
          ]);
        })
    where
      reviewed :
          (k : ReviewKind)
          → OnReview (some k) m
          → OnReview (some k) (record m {
            review_kind = some kind;
            review_return_index = m.selected_index;
            screen = Screen.review_topology;
            selected_index = 0;
            notice = none;
          })
      reviewed ReviewKind.creation (h, full) = (
        record {
          orchestrator = h.orchestrator;
          candidate = h.candidate;
          chosen = h.chosen;
          known = h.known;
          others = h.others;
        },
        full,
      )
      reviewed ReviewKind.replacement (h, full) = (
        record {
          group = h.group;
          stored = h.stored;
          members = h.members;
          made = h.made;
          offered = h.offered;
        },
        full,
      )
      reviewed ReviewKind.reassignment h = record {
        group = h.group;
        stored = h.stored;
        orchestrator = h.orchestrator;
        chosen = h.chosen;
      }
