-- ===== src/Store/Laws.antt =====
-- src/state.rs: what a critical section of `StateStore` leaves behind.
use herdr_tether.Prelude.{
  ℕ, Bool, true, false, none, some, List, [], ◌∷◌, ◌≡◌, arith, inl, inr, Bool-cases, if◌then◌else◌,
  ◌==◌, ==_iff, ◌&&◌,
}
use herdr_tether.Session.{SessionRecord, State}
use herdr_tether.Store.{
  World, Env, Decision, fail, refuse, keep, commit, Commit, broken, refused, done, exclusive,
  run_closure, decide_save, save_unlocked, find_session, replace_session, acquire, is_valid,
  after_write, WriteOutcome, written, uncommitted, undurable,
}

-- The record that is written is the one that is found.
pub find_session-replace_session :
    (id : ℕ) (old new : SessionRecord) (rs : List SessionRecord)
    → find_session id rs ≡ some old
    → new.id ≡ id
    → find_session id (replace_session id new rs) ≡ some new
unfolding replace_session
find_session-replace_session id old new [] h e = absurd (ground arith)
find_session-replace_session id old new (r ∷ rs) h e = elim (Bool-cases (r.id == id)) [
  | inl hit ↦ rw hit (rw ((==_iff new.id id).1 e))
  | inr miss ↦ rw (miss, miss) (find_session-replace_session id old new rs (rw miss at h) e)
]

-- What holds of the store when a critical section reports success.
abbrev pub OnDone : (State → Type 0) → Commit × World → Type 0
OnDone Post (done, w) = Post w.store
OnDone Post (broken, w) = Unit
OnDone Post (refused, w) = Unit

-- What a decision would leave behind in the state that it was made on.
abbrev pub Leaves : (State → Type 0) → State → Decision → Type 0
Leaves Post s fail = Unit
Leaves Post s refuse = Unit
Leaves Post s keep = Post s
Leaves Post s (commit new) = Post new

module _ (env : Env) (Post : State → Type 0) where
  wrote-OnDone :
      (o : WriteOutcome) (new : State) (w : World)
      → Post new
      → OnDone Post (after_write env o new w)
  wrote-OnDone written new w h = h
  wrote-OnDone uncommitted new w h = tt
  wrote-OnDone undurable new w h = tt

  saved-OnDone :
      (t : ℕ) (new : State) (w : World) → Post new → OnDone Post (save_unlocked env t new w)
  unfolding save_unlocked
  saved-OnDone t new w h = elim (Bool-cases (is_valid new && env.fits new)) [
    | inl good ↦ rw good (wrote-OnDone (env.write t) new w h)
    | inr bad ↦ rw bad tt
  ]

  decided-OnDone :
      (t : ℕ) (d : Decision) (w : World)
      → Leaves Post w.store d
      → OnDone Post (decide_save env t d w)
  unfolding decide_save
  decided-OnDone t fail w h = tt
  decided-OnDone t refuse w h = tt
  decided-OnDone t keep w h = h
  decided-OnDone t (commit new) w h = saved-OnDone t new w h

  ran-OnDone :
      (t : ℕ) (loaded : Bool) (op : State → Decision) (w : World)
      → Leaves Post w.store (op w.store)
      → OnDone Post (run_closure env t (if loaded then some w.store else none) op w)
  unfolding run_closure
  ran-OnDone t true op w h = decided-OnDone t (op w.store) w h
  ran-OnDone t false op w h = tt

  -- A critical section that reports success has loaded what other processes had left, and has left
  -- what its closure decided.
  pub exclusive-OnDone :
      (op : State → Decision) (w : World)
      → ((s : State) → Leaves Post s (op s))
      → OnDone Post (exclusive env op w)
  unfolding exclusive
  exclusive-OnDone op w h = elim (Bool-cases (env.lock w.tick)) [
    | inl locked ↦ rw locked (ran-OnDone w.tick _ op (acquire env w) (h (acquire env w).store))
    | inr busy ↦ rw busy tt
  ]
