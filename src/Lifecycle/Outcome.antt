-- ===== src/Lifecycle/Outcome.antt =====
-- src/lifecycle.rs: what the store says of a session when a method reports success.
pub mod Methods
use herdr_tether.Prelude.{
  ℕ, ℤ, Bool, true, false, Option, none, some, List, [], ◌∷◌, ◌≡◌, refl, sym, ap, subst, arith, inl,
  inr, Bool-cases, Option-cases, if◌then◌else◌, ◌==◌, ==_iff, ite, if_pos, if_neg, ◌∙◌,
}
use herdr_tether.Prelude.Text.{Text, text_eq}
use herdr_tether.Session.{
  SessionStatus, creating, running, stopping, ended, removed, SessionRecord, SessionRecord-discrete,
  State,
}
use herdr_tether.Session.Pace.{failed_immediately, note_immediate_failure}
use herdr_tether.Changes.{
  revise, rewrite, to_finished, to_promoted, to_removed, finish_closure, removal_closure,
  finish_record, reconcile_orchestration_groups,
}
use herdr_tether.Store.{
  World, Env, Decision, fail, refuse, keep, commit, Commit, broken, refused, done, exclusive,
  find_session, replace_session, put_session, load, WorkloadState, missing, unknown, Backend,
  AuditAction, stop, stopped, observed, activate, restart,
}
use herdr_tether.Store.Laws.{find_session-replace_session, OnDone, Leaves, exclusive-OnDone}
use herdr_tether.Lifecycle.{
  Result, ok, err, M, ◌>>=◌, ◌>>◌, bind_result, return, throw, ok_or, commit_result, owned_record,
  locked, loaded, note, LifecycleError, create_workload, unknown_session, missing_command,
  require_ownership_proof, backend_for, inspect_exact,
}
use herdr_tether.Lifecycle.Rules.{Holds, bind-Holds, return-Holds, Quiet, quiet-Holds}
use herdr_tether.Lifecycle.Stop.{
  CloseResult, lookup_owned, stop_identity, ensure_stopping, terminate, finish_close, stop_owned,
}
use herdr_tether.Lifecycle.Open.{refuse_other, update_unchanged}
use herdr_tether.Lifecycle.Restart.{
  RestartResult, require_restartable, refuse_removed, promote_running, clear_ended, adopt_running,
  recreate, restart_from, restart_owned,
}

-- The first record of that identifier has that status.
abbrev pub HasStatus : ℕ → SessionStatus → State → Type 0
HasStatus id status s =
    (r : SessionRecord) × (find_session id s.sessions ≡ some r) × (r.status ≡ status)

abbrev pub Anything : World → Type 0
Anything w = Unit

abbrev pub Whatever : {A : Type 0} → A → World → Type 0
Whatever a w = Unit

pub holds-Anything : {A : Type 0} (x : Result A × World) → Holds Anything (Whatever {A = A}) x
unfolding Holds
holds-Anything (ok a, w) = tt
holds-Anything (err e, w) = tt

-- The actions before the one that matters.
pub after_any :
    {A B : Type 0} (Q : B → World → Type 0) (m : M A) (f : A → M B) (w : World)
    → ((a : A) (w' : World) → Holds Anything Q (f a w'))
    → Holds Anything Q (bind_result (m w) f)
after_any Q m f w k = bind-Holds Anything Whatever Q (m w) f (holds-Anything (m w)) λ a w' u. k a w'

committed :
    (Post : State → Type 0) (e r : LifecycleError) (x : Commit × World)
    → OnDone Post x
    → Holds Anything (λ u w. Post w.store) (commit_result e r x)
unfolding Holds
committed Post e r (done, w) h = h
committed Post e r (refused, w) h = tt
committed Post e r (broken, w) h = tt

module _ (env : Env) where
  pub locked-Holds :
      (Post : State → Type 0) (e r : LifecycleError) (op : World → State → Decision) (w : World)
      → ((s : State) → Leaves Post s (op w s))
      → Holds Anything (λ u w'. Post w'.store) (locked env e r op w)
  unfolding locked
  locked-Holds Post e r op w h =
      committed Post e r (exclusive env (op w) w) (exclusive-OnDone env Post (op w) w h)

  pub note-store :
      (r : SessionRecord) (a : AuditAction) (from to : SessionStatus) (w : World)
      → (note env r a from to w).1.store ≡ w.store
  unfolding note
  note-store r a from to w = ground arith

  -- A note at the end changes nothing of the store.
  pub noted_at_end :
      {A : Type 0} (Post : State → Type 0) (r : SessionRecord) (a : AuditAction)
      (from to : SessionStatus) (result : A) (w : World)
      → Post w.store
      → Holds Anything (λ x w'. Post w'.store) ((note env r a from to >> return result) w)
  unfolding note Holds bind_result
  noted_at_end Post r a from to result w h = ground arith

finished-status :
    (x : Option ℤ) (now later : ℕ) (r : SessionRecord)
    → ((to_finished x now later r).status ≡ ended) × ((to_finished x now later r).id ≡ r.id)
unfolding to_finished note_immediate_failure
finished-status x now later r = ground arith

pub find_session-id :
    (id : ℕ) (rs : List SessionRecord) (r : SessionRecord) → find_session id rs ≡ some r → r.id ≡ id
find_session-id id [] r h = absurd (ground arith)
find_session-id id (x ∷ rs) r h = ground (arith, find_session-id id rs r)

-- A record that is written over by one of the same identifier.
pub rewritten-HasStatus :
    (status : SessionStatus) (change : SessionRecord → SessionRecord) (s : State) (id : ℕ)
    (r : SessionRecord)
    → find_session id s.sessions ≡ some r
    → (change r).status ≡ status
    → (change r).id ≡ r.id
    → Leaves (HasStatus id status) s (rewrite change s r)
rewritten-HasStatus status change s id r h e i =
    let same : r.id ≡ id = find_session-id id s.sessions r h in
    (
      change r,
      subst (λ k. find_session id (replace_session k (change r) s.sessions) ≡ some (change r))
          (sym same) (find_session-replace_session id r (change r) s.sessions h (i ∙ same)),
      e,
    )

finish_record-Leaves :
    (id : ℕ) (x : Option ℤ) (now later : ℕ) (s : State) (r : SessionRecord) (status : SessionStatus)
    → find_session id s.sessions ≡ some r
    → r.status ≡ status
    → Leaves (HasStatus id ended) s (finish_record status (to_finished x now later) s r)
finish_record-Leaves id x now later s r ended found e = (r, found, e)
finish_record-Leaves id x now later s r stopping found e =
    rewritten-HasStatus ended (to_finished x now later) s id r found
      (finished-status x now later r).0 (finished-status x now later r).1
finish_record-Leaves id x now later s r creating found e = tt
finish_record-Leaves id x now later s r running found e = tt
finish_record-Leaves id x now later s r removed found e = tt

pub finish_closure-Leaves :
    (id : ℕ) (target : Text) (x : Option ℤ) (now later : ℕ) (s : State)
    → Leaves (HasStatus id ended) s (finish_closure id target x now later s)
unfolding finish_closure
finish_closure-Leaves id target x now later s = elim (Option-cases (find_session id s.sessions)) [
  | inl absent ↦ rw (absent, finish_closure) tt
  | inr (r, found) ↦
      rw (found, finish_closure)
        (elim (Bool-cases (text_eq r.target target)) [
          | inl same ↦ rw same (finish_record-Leaves id x now later s r r.status found refl)
          | inr other ↦ rw other tt
        ])
]

pub revise-Leaves :
    (Post : State → Type 0) (snapshot : SessionRecord) (change : State → SessionRecord → Decision)
    (s : State)
    → ((current : SessionRecord)
        → find_session snapshot.id s.sessions ≡ some current
        → Leaves Post s (change s current))
    → Leaves Post s (revise fail snapshot change s)
revise-Leaves Post snapshot change s h = elim (Option-cases (find_session snapshot.id s.sessions)) [
  | inl absent ↦ rw (absent, revise) tt
  | inr (r, found) ↦
      rw (found, revise)
        (elim (SessionRecord-discrete r snapshot) [
          | yes same ↦ rw (if_pos _ same) (h r found)
          | no changed ↦ rw (if_neg _ changed) tt
        ])
]
