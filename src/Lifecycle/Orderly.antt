-- ===== src/Lifecycle/Orderly.antt =====
-- src/lifecycle.rs: the order of the calls to `tmux`. A call that destroys, attaches or creates
-- follows directly on the look that justifies it, with the same backend, session and proof.
pub mod Methods
pub mod Observe
pub mod Restart
pub mod Remove
pub mod Recovery
use herdr_tether.Prelude.{
  ℕ, suc, ◌==◌, ==_iff, Bool, true, false, Option, none, some, List, [], ◌∷◌, ◌≡◌, refl, sym, ap,
  subst, ◌∙◌, arith, ◌⊎◌, inl, inr, Bool-cases, if◌then◌else◌,
}
use herdr_tether.Prelude.Text.{Text}
use herdr_tether.Session.{SessionStatus, SessionRecord, State}
use herdr_tether.Store.{
  WorkloadState, missing, unknown, Backend, Effect, asking, closing, launching, attaching,
  CloseReply, closed, guard_rejected, failed, LaunchSpec, CreatedWorkload, World, Env,
}
use herdr_tether.Lifecycle.{
  Result, ok, err, M, ◌>>=◌, bind_result, owned_record, locked, note, backend_for, ask_exact, ok_or,
  inspect_failed, create_failed, return, close_result, LifecycleError, inspect_exact, close_exact,
  create_workload, pane_answer, workload_without_its_pane,
}
use herdr_tether.Lifecycle.Rules.{Holds, bind-Holds, Quiet, quiet-Holds}

-- What an answer says of the session: it is gone, it is there as one incarnation, or no word.
pub data Presence : Type 0 where
  gone : Presence
  present : ℕ → Presence
  unsure : Presence

abbrev pub presence : WorkloadState → Presence
presence missing = gone
presence (WorkloadState.running attached identity) = present identity
presence (WorkloadState.ended identity exit_status) = present identity
presence unknown = unsure

-- The latest call asked about this session with this proof, and was answered so.
abbrev pub LastLook : Backend → ℕ → ℕ → Presence → List Effect → Type 0
LastLook backend id proof p (asking b i q pane (some reply) ∷ es) =
    (b ≡ backend) × (i ≡ id) × (q ≡ proof) × (presence reply ≡ p)
LastLook backend id proof p _ = ⊥

-- Nothing is there to be duplicated: the latest call found nothing, or closed what it had found.
abbrev pub Cleared : ℕ → ℕ → List Effect → Type 0
Cleared id proof (asking b i q pane (some reply) ∷ es) =
    (i ≡ id) × (q ≡ proof) × (presence reply ≡ gone)
Cleared id proof (closing b i q identity closed ∷ es) = (i ≡ id) × (q ≡ proof)
Cleared id proof _ = ⊥

abbrev pub Orderly : List Effect → Type 0
Orderly [] = Unit
Orderly (asking b i q pane reply ∷ es) = Orderly es
Orderly (closing b i q identity reply ∷ es) = LastLook b i q (present identity) es × Orderly es
Orderly (launching b spec made ∷ es) = Cleared spec.id spec.ownership_proof es × Orderly es
Orderly (attaching b i q identity ∷ es) = LastLook b i q (present identity) es × Orderly es

abbrev pub InOrder : World → Type 0
InOrder w = Orderly w.effects

-- A look that found nothing clears the way.
pub LastLook-Cleared :
    (backend : Backend) (id proof : ℕ) (es : List Effect)
    → LastLook backend id proof gone es
    → Cleared id proof es
LastLook-Cleared backend id proof (asking b i q pane (some reply) ∷ es) l = (l.1, l.2, l.3)
LastLook-Cleared backend id proof (asking b i q pane none ∷ es) l = elim l [ ]
LastLook-Cleared backend id proof (closing b i q identity reply ∷ es) l = elim l [ ]
LastLook-Cleared backend id proof (launching b launch made ∷ es) l = elim l [ ]
LastLook-Cleared backend id proof (attaching b i q identity ∷ es) l = elim l [ ]
LastLook-Cleared backend id proof [] l = elim l [ ]

without_pane-presence : (s : WorkloadState) → presence (workload_without_its_pane s) ≡ presence s
unfolding workload_without_its_pane
without_pane-presence missing = refl
without_pane-presence (WorkloadState.running attached identity) = refl
without_pane-presence (WorkloadState.ended identity exit_status) = refl
without_pane-presence unknown = refl

module _ (env : Env) where
  -- An answer, and the look that gave it.
  abbrev pub Looked : Backend → ℕ → ℕ → WorkloadState → World → Type 0
  Looked backend id proof s w = LastLook backend id proof (presence s) w.effects × InOrder w

  answered :
      (backend : Backend) (id proof : ℕ) (pane : Option ℕ) (w : World)
      (reply : Option WorkloadState)
      → InOrder w
      → Holds InOrder (Looked backend id proof) (
          ok_or reply (inspect_failed id) (record w {
            effects = asking backend id proof pane reply ∷ w.effects;
            tick = suc w.tick;
          }))
  unfolding Holds
  answered backend id proof pane w none h = h
  answered backend id proof pane w (some s) h = ((refl, refl, refl, refl), h)

  ask_exact-Looked :
      (backend : Backend) (id proof : ℕ) (pane : Option ℕ) (w : World)
      → InOrder w
      → Holds InOrder (Looked backend id proof) (ask_exact env backend id proof pane w)
  unfolding ask_exact
  ask_exact-Looked backend id proof pane w h =
      answered backend id proof pane w (env.ask w.tick backend id proof pane) h

  -- The answer of `inspect_exact` is that of the latest call, also where the launched pane is gone.
  pub inspect_exact-Looked :
      (backend : Backend) (id proof : ℕ) (pane : Option ℕ) (w : World)
      → InOrder w
      → Holds InOrder (Looked backend id proof) (inspect_exact env backend id proof pane w)
  unfolding inspect_exact Holds
  inspect_exact-Looked backend id proof pane w h =
      bind-Holds InOrder (Looked backend id proof) (Looked backend id proof)
        (ask_exact env backend id proof pane w) _ (ask_exact-Looked backend id proof pane w h)
        λ s w' looked. second s w' looked (pane_answer env pane s)
    where
      second :
          (s : WorkloadState) (w' : World)
          → Looked backend id proof s w'
          → (stands : Bool)
          → Holds InOrder (Looked backend id proof) (
              (if stands
                  then return s
                  else (ask_exact env backend id proof none >>= λ t.
                      return (workload_without_its_pane t)))
                w')
      second s w' looked true = looked
      second s w' looked false =
          bind-Holds InOrder (Looked backend id proof) (Looked backend id proof)
            (ask_exact env backend id proof none w') _
            (ask_exact-Looked backend id proof none w' looked.1)
            λ t w'' seen. (
              subst (λ p. LastLook backend id proof p w''.effects) (sym (without_pane-presence t))
                  seen.0,
              seen.1,
            )

  close_replied :
      (id : ℕ) (backend : Backend) (proof identity : ℕ) (w : World) (reply : CloseReply)
      → LastLook backend id proof (present identity) w.effects
      → InOrder w
      → Holds InOrder
          (λ u w'. Cleared id proof w'.effects × InOrder w')
          (close_result env id reply (record w {
            effects = closing backend id proof identity reply ∷ w.effects;
            tick = suc w.tick;
          }))
  unfolding Holds
  close_replied id backend proof identity w closed l h = ((refl, refl), (l, h))
  close_replied id backend proof identity w guard_rejected l h = (l, h)
  close_replied id backend proof identity w failed l h = (l, h)

  pub close_exact-InOrder :
      (backend : Backend) (id proof identity : ℕ) (w : World)
      → LastLook backend id proof (present identity) w.effects
      → InOrder w
      → Holds InOrder
          (λ u w'. Cleared id proof w'.effects × InOrder w')
          (close_exact env backend id proof identity w)
  unfolding close_exact
  close_exact-InOrder backend id proof identity w l h =
      close_replied id backend proof identity w (env.close w.tick backend id proof identity) l h

  created :
      (backend : Backend) (launch : LaunchSpec) (w : World) (made : Option CreatedWorkload)
      → Cleared launch.id launch.ownership_proof w.effects
      → InOrder w
      → Holds InOrder
          (λ c. InOrder)
          (ok_or made
            (create_failed launch.id)
            (record w { effects = launching backend launch made ∷ w.effects; tick = suc w.tick }))
  unfolding Holds
  created backend launch w none c h = (c, h)
  created backend launch w (some made) c h = (c, h)

  pub create_workload-InOrder :
      (backend : Backend) (launch : LaunchSpec) (w : World)
      → Cleared launch.id launch.ownership_proof w.effects
      → InOrder w
      → Holds InOrder (λ c. InOrder) (create_workload env backend launch w)
  unfolding create_workload
  create_workload-InOrder backend launch w c h =
      created backend launch w (env.launch w.tick backend launch) c h

-- An action that makes no call, and what follows it: `P` is what the calls so far are known to be.
pub quiet_step :
    {A B : Type 0} (P : List Effect → Type 0) (Q : B → World → Type 0) (m : M A) (f : A → M B)
    → ((es : List Effect) → P es → Orderly es)
    → Quiet (λ w. w.effects) m
    → (w : World) → P w.effects
    → ((a : A) (w' : World) → P w'.effects → Holds InOrder Q (f a w'))
    → Holds InOrder Q (bind_result (m w) f)
unfolding Holds bind_result
quiet_step {A} {B} P Q m f weaken q w h k = go (m w) (q w)
  where
    go :
        (x : Result A × World) → x.1.effects ≡ w.effects → Holds {A = B} InOrder Q (bind_result x f)
    go (ok a, w') e = k a w' (subst P (sym e) h)
    go (err x, w') e = weaken w'.effects (subst P (sym e) h)

pub ok_or-effects :
    {A : Type 0} (o : Option A) (e : LifecycleError) (w : World)
    → (ok_or o e w).1.effects ≡ w.effects
ok_or-effects none e w = refl
ok_or-effects (some a) e w = refl
