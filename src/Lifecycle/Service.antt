-- ===== src/Lifecycle/Service.antt =====
-- src/lifecycle.rs: the service as its callers drive it, one request after another.
use herdr_tether.Prelude.{ℕ, List, [], ◌∷◌}
use herdr_tether.Store.{World, Env}
use herdr_tether.Lifecycle.Stop.{stop_owned}
use herdr_tether.Lifecycle.Open.{open_owned, observe_owned}
use herdr_tether.Lifecycle.Restart.{restart_owned}
use herdr_tether.Lifecycle.Remove.{remove_owned}

pub data Request : Type 0 where
  stops opens observes restarts removes : ℕ → Request

module _ (env : Env) where
  unfoldable pub serve : Request → World → World
  serve (stops id) w = (stop_owned env id w).1
  serve (opens id) w = (open_owned env id w).1
  serve (observes id) w = (observe_owned env id w).1
  serve (restarts id) w = (restart_owned env id w).1
  serve (removes id) w = (remove_owned env id w).1

  unfoldable pub serve_all : List Request → World → World
  unfolding serve
  serve_all [] w = w
  serve_all (r ∷ rs) w = serve_all rs (serve r w)
