-- ===== src/Lifecycle/Orderly/Recovery.antt =====
-- src/lifecycle.rs: any sequence of requests keeps the calls in order.
use herdr_tether.Prelude.{List, [], ◌∷◌}
use herdr_tether.Store.{World, Env}
use herdr_tether.Lifecycle.{Result, ok, err}
use herdr_tether.Lifecycle.Rules.{Holds}
use herdr_tether.Lifecycle.Orderly.{InOrder}
use herdr_tether.Lifecycle.Orderly.Methods.{Fine, stop_owned-InOrder, open_owned-InOrder}
use herdr_tether.Lifecycle.Service.{
  Request, stops, opens, observes, restarts, removes, serve, serve_all,
}
use herdr_tether.Lifecycle.Orderly.Observe.{observe_owned-InOrder}
use herdr_tether.Lifecycle.Orderly.Restart.{restart_owned-InOrder}
use herdr_tether.Lifecycle.Orderly.Remove.{remove_owned-InOrder}

module _ (env : Env) where
  pub in_order_after :
      {A : Type 0} (x : Result A × World) → Holds {A = A} InOrder Fine x → InOrder x.1
  unfolding Holds
  in_order_after (ok a, w) h = h
  in_order_after (err e, w) h = h

  serve-InOrder : (r : Request) (w : World) → InOrder w → InOrder (serve env r w)
  unfolding serve
  serve-InOrder (stops id) w h = in_order_after _ (stop_owned-InOrder env id w h)
  serve-InOrder (opens id) w h = in_order_after _ (open_owned-InOrder env id w h)
  serve-InOrder (observes id) w h = in_order_after _ (observe_owned-InOrder env id w h)
  serve-InOrder (restarts id) w h = in_order_after _ (restart_owned-InOrder env id w h)
  serve-InOrder (removes id) w h = in_order_after _ (remove_owned-InOrder env id w h)

  -- If the calls so far are in order, then so they are after any requests, whatever `tmux`
  -- answers, the store fails at and other processes save:
  -- each close and each attach directly follows a look, with the same backend, session and proof,
  -- that saw the very incarnation that it names, and each creation directly follows a look that
  -- found nothing or a close of the same session under the same proof that succeeded.
  pub serve_all-InOrder : (rs : List Request) (w : World) → InOrder w → InOrder (serve_all env rs w)
  unfolding serve_all
  serve_all-InOrder [] w h = h
  serve_all-InOrder (r ∷ rs) w h = serve_all-InOrder rs (serve env r w) (serve-InOrder r w h)
