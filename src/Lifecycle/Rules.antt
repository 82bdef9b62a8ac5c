-- ===== src/Lifecycle/Rules.antt =====
-- How a property of the world is carried through the actions of src/lifecycle.rs.
use herdr_tether.Prelude.{ℕ, Option, ◌≡◌, sym, subst, arith}
use herdr_tether.Prelude.Text.{Text}
use herdr_tether.Session.{SessionStatus, SessionRecord, State}
use herdr_tether.Store.{
  AuditAction, World, Env, Decision, exclusive, run_closure, decide_save, save_unlocked, load,
}
use herdr_tether.Lifecycle.{
  Result, ok, err, M, bind_result, LifecycleError, owned_record, locked, note, backend_for, return,
}

-- `I` after an error, `Q` of the value and the world after a success.
unfoldable pub Holds :
    {A : Type 0} → (World → Type 0) → (A → World → Type 0) → Result A × World → Type 0
Holds I Q (ok a, w) = Q a w
Holds I Q (err e, w) = I w

pub bind-Holds :
    {A B : Type 0} (I : World → Type 0) (R : A → World → Type 0) (Q : B → World → Type 0)
    (x : Result A × World) (f : A → M B)
    → Holds I R x
    → ((a : A) (w : World) → R a w → Holds I Q (f a w))
    → Holds I Q (bind_result x f)
unfolding Holds bind_result
bind-Holds I R Q (ok a, w) f h k = k a w h
bind-Holds I R Q (err e, w) f h k = h

pub return-Holds :
    {A : Type 0} (I : World → Type 0) (Q : A → World → Type 0) (a : A) (w : World)
    → Q a w
    → Holds I Q (return a w)
unfolding Holds
return-Holds I Q a w h = h

-- An action that leaves a view of the world as it was.
abbrev pub Quiet : {X A : Type 0} → (World → X) → M A → Type 0
Quiet view m = (w : World) → view (m w).1 ≡ view w

pub quiet-Holds :
    {X A : Type 0} (view : World → X) (I : X → Type 0) (m : M A)
    → Quiet view m
    → (w : World) → I (view w)
    → Holds (λ w'. I (view w')) (λ a w'. I (view w')) (m w)
unfolding Holds
quiet-Holds {A} view I m q w h = go (m w) (q w)
  where
    go :
        (x : Result A × World)
        → view x.1 ≡ view w
        → Holds {A = A} (λ w'. I (view w')) (λ a w'. I (view w')) x
    go (ok a, w') e = subst I (sym e) h
    go (err x, w') e = subst I (sym e) h

module _ (env : Env) where
  pub owned_record-effects : (id : ℕ) (w : World) → (owned_record env id w).1.effects ≡ w.effects
  unfolding owned_record load
  owned_record-effects id w = ground arith

  pub locked-effects :
      (e r : LifecycleError) (op : World → State → Decision) (w : World)
      → (locked env e r op w).1.effects ≡ w.effects
  unfolding locked exclusive run_closure decide_save save_unlocked
  locked-effects e r op w = ground arith

  pub note-effects :
      (r : SessionRecord) (a : AuditAction) (from to : SessionStatus) (w : World)
      → (note env r a from to w).1.effects ≡ w.effects
  unfolding note
  note-effects r a from to w = ground arith

  pub backend_for-effects :
      (id : ℕ) (target : Text) (socket : Option Text) (w : World)
      → (backend_for env id target socket w).1.effects ≡ w.effects
  unfolding backend_for
  backend_for-effects id target socket w = ground arith
