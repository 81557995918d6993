-- ===== src/Lifecycle.antt =====
-- internal/pkg/lifecycle/lifecycle.go: the order in which the parts start and stop.
pub mod Order
mod Tests
use tunnel_manager.Prelude.{List, [], ◌∷◌, ◌++◌, Result, ok, err, Error, wrap, both, external}
use tunnel_manager.Prelude.Text.{codes}

-- What the hooks did, in order; an action that fails is not among them.
pub data Action : Type 0 where
  bootstrapped made_log_dir changed_mode : Action
  proxy_started reconciled routes_set_up server_started : Action
  server_shut_down proxy_shut_down : Action

-- The results of the calls.
pub record Startup : Type 0 where
  pub bootstrappers : List (Result (Unit {0}))
  pub mkdir_all : Result (Unit {0})
  pub chmod : Result (Unit {0})
  pub start_proxy : Result (Unit {0})
  pub reconcile : Result (Unit {0})
  pub start_server : Result (Unit {0})
  pub shut_down_proxy : Result (Unit {0})

abbrev pub Hooked : Type 0
Hooked = List Action × Result (Unit {0})

abbrev pub act : Action → Result (Unit {0}) → Hooked
act a (ok _) = (a ∷ [], ok tt)
act a (err e) = ([], err e)

infixr 5 ◌then_do◌
abbrev pub ◌then_do◌ : Hooked → Hooked → Hooked
(t, ok _) then_do (u, r) = (t ++ u, r)
(t, err e) then_do h = (t, err e)

-- `_ = r.proxy.Shutdown(ctx)`, with this result, before the error is returned.
abbrev pub or_shut_down : Result (Unit {0}) → Hooked → Hooked
or_shut_down shut_down (t, ok _) = (t, ok tt)
or_shut_down shut_down (t, err e) = (t ++ (act proxy_shut_down shut_down).0, err e)

unfoldable pub bootstrap_all : List (Result (Unit {0})) → Hooked
bootstrap_all [] = ([], ok tt)
bootstrap_all (r ∷ rs) = act bootstrapped r then_do bootstrap_all rs

unfoldable pub on_start : Startup → Hooked
unfolding bootstrap_all
on_start s =
    bootstrap_all s.bootstrappers
    then_do act made_log_dir s.mkdir_all
    then_do act changed_mode s.chmod
    then_do act proxy_started s.start_proxy
    then_do or_shut_down s.shut_down_proxy (act reconciled s.reconcile)
    then_do act routes_set_up (ok tt)
    then_do or_shut_down s.shut_down_proxy (act server_started s.start_server)

abbrev pub joined : Result (Unit {0}) → Result (Unit {0}) → Result (Unit {0})
joined (ok _) r = r
joined (err e) (ok _) = err e
joined (err e) (err f) = err (both e (codes "") f)

-- Both are called, whatever the first gives.
unfoldable pub on_stop : Result (Unit {0}) → Result (Unit {0}) → Hooked
on_stop server proxy =
    ((act server_shut_down server).0 ++ (act proxy_shut_down proxy).0, joined server proxy)
