-- ===== src/Lifecycle/Tests.antt =====
-- A start whose reconciliation fails.
use tunnel_manager.Prelude.{◌≡◌, true, false, [], ◌∷◌, ok, err, external}
use tunnel_manager.Prelude.Text.{codes}
use tunnel_manager.Lifecycle.{Startup, on_start, on_stop}
use tunnel_manager.Lifecycle.Order.{after, Decides, on_start-Decides}

abbrev unreconciled : Startup
unreconciled = record {
  bootstrappers = ok tt ∷ [];
  mkdir_all = ok tt;
  chmod = ok tt;
  start_proxy = ok tt;
  reconcile = err (external (codes "no such table"));
  start_server = ok tt;
  shut_down_proxy = ok tt;
}

on_start-Decides_example :
    Decides (ok tt) (on_start unreconciled)
    × ((on_stop (ok tt) (ok tt)).1 ≡ ok tt
        → after (on_stop (ok tt) (ok tt)).0 (true, true) ≡ (false, false))
on_start-Decides_example = on_start-Decides unreconciled (ok tt) (ok tt) (true, true)
