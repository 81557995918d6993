-- ===== src/Lifecycle/Order.antt =====
-- What runs after the hooks.
use tunnel_manager.Prelude.{
  ◌≡◌, refl, ap, ◌∙◌, Bool, true, false, List, [], ◌∷◌, ◌++◌, Result, ok, err,
}
use tunnel_manager.Lifecycle.{
  Action, made_log_dir, changed_mode, proxy_started, reconciled, routes_set_up, server_started,
  server_shut_down, proxy_shut_down, Startup, Hooked, act, ◌then_do◌, or_shut_down, bootstrap_all,
  on_start, on_stop,
}

-- Whether the proxy and the server are running.
abbrev pub Running : Type 0
Running = Bool × Bool

abbrev pub effect : Action → Running → Running
effect proxy_started (p, s) = (true, s)
effect proxy_shut_down (p, s) = (false, s)
effect server_started (p, s) = (p, true)
effect server_shut_down (p, s) = (p, false)
effect _ r = r

abbrev pub after : List Action → Running → Running
after [] r = r
after (a ∷ t) r = after t (effect a r)

-- Both run after a success. After a failure the server does not, and the proxy only if it was running
-- and could not be shut down.
abbrev pub Decides : Result (Unit {0}) → Hooked → Type 0
Decides shut_down (t, ok _) = after t (false, false) ≡ (true, true)
Decides shut_down (t, err e) =
    ((after t (false, false)).1 ≡ false)
    × (shut_down ≡ ok tt → after t (false, false) ≡ (false, false))

bootstrap_all-after :
    (rs : List (Result (Unit {0}))) (r : Running) → after (bootstrap_all rs).0 r ≡ r
unfolding bootstrap_all
bootstrap_all-after [] r = refl
bootstrap_all-after (ok _ ∷ rs) r = bootstrap_all-after rs r
bootstrap_all-after (err e ∷ rs) r = refl

after-append : (t u : List Action) (r : Running) → after (t ++ u) r ≡ after u (after t r)
after-append [] u r = refl
after-append (a ∷ t) u r = after-append t u (effect a r)

Decides-prefix :
    (shut_down : Result (Unit {0})) (h k : Hooked)
    → after h.0 (false, false) ≡ (false, false)
    → Decides shut_down k
    → Decides shut_down (h then_do k)
Decides-prefix shut_down (t, err e) k idle d = (ap (λ (r : Running). r.1) idle, λ _. idle)
Decides-prefix shut_down (t, ok _) (u, ok _) idle d =
    after-append t u (false, false) ∙ ap (λ r. after u r) idle ∙ d
Decides-prefix shut_down (t, ok _) (u, err e) idle d =
    let same = after-append t u (false, false) ∙ ap (λ r. after u r) idle in
    (ap (λ (r : Running). r.1) same ∙ d.0, λ h. same ∙ d.1 h)

rest :
    (mkdir_all chmod start_proxy reconcile start_server shut_down : Result (Unit {0}))
    → Decides shut_down (
        act made_log_dir mkdir_all
        then_do act changed_mode chmod
        then_do act proxy_started start_proxy
        then_do or_shut_down shut_down (act reconciled reconcile)
        then_do act routes_set_up (ok tt)
        then_do or_shut_down shut_down (act server_started start_server))
rest (err e) c p r s d = (refl, λ _. refl)
rest (ok _) (err e) p r s d = (refl, λ _. refl)
rest (ok _) (ok _) (err e) r s d = (refl, λ _. refl)
rest (ok _) (ok _) (ok _) (err e) s (ok _) = (refl, λ _. refl)
rest (ok _) (ok _) (ok _) (err e) s (err f) = (refl, λ h. cc)
rest (ok _) (ok _) (ok _) (ok _) (err e) (ok _) = (refl, λ _. refl)
rest (ok _) (ok _) (ok _) (ok _) (err e) (err f) = (refl, λ h. cc)
rest (ok _) (ok _) (ok _) (ok _) (ok _) d = refl

stopped :
    (server proxy : Result (Unit {0})) (r : Running)
    → (on_stop server proxy).1 ≡ ok tt
    → after (on_stop server proxy).0 r ≡ (false, false)
unfolding on_stop
stopped (ok _) (ok _) r e = refl
stopped (ok _) (err f) r e = cc
stopped (err e) (ok _) r h = cc
stopped (err e) (err f) r h = cc

-- If the start succeeds, then the ingress proxy and the server are running. If any of its calls
-- fails, then the server is not, and neither is the proxy, unless its shutdown fails too. After a stop
-- that returns no error neither is running, whichever were before.
pub on_start-Decides :
    (s : Startup) (server proxy : Result (Unit {0})) (r : Running)
    → Decides s.shut_down_proxy (on_start s)
      × ((on_stop server proxy).1 ≡ ok tt → after (on_stop server proxy).0 r ≡ (false, false))
unfolding on_start
on_start-Decides s server proxy r = (
  Decides-prefix s.shut_down_proxy (bootstrap_all s.bootstrappers) _
      (bootstrap_all-after s.bootstrappers (false, false))
      (rest s.mkdir_all s.chmod s.start_proxy s.reconcile s.start_server s.shut_down_proxy),
  stopped server proxy r,
)
