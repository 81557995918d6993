-- ===== src/Hub/Tests.antt =====
-- Runs of the fan-out, and its theorems at concrete inputs.
use tunnel_manager.Prelude.{ℕ, ◌≡◌, ◌≢◌, refl, true, false, List, [], ◌∷◌, some, arith}
use tunnel_manager.Hub.{Hub, empty, pending}
use tunnel_manager.Hub.Wakeups.{
  Action, subscribed, published, cancelled, received, run, act, history, pending-run,
  pending-published,
}

abbrev clients : List Action
clients = subscribed ∷ (subscribed ∷ (published ∷ (received 0 ∷ (cancelled 1 ∷ (published ∷ [])))))

abbrev one_client : Hub
one_client = record { next = 1; subscribers = (0, false) ∷ [] }

pending-run_example : pending (run empty clients) 0 ≡ history 0 0 (pending empty 0) clients
pending-run_example = pending-run empty 0 clients

others_receive : ◌≢◌ {A = ℕ} 1 0
others_receive e = cc

pending-published_example :
    pending (run (act one_client published) (received 1 ∷ (subscribed ∷ []))) 0 ≡ some true
pending-published_example =
    pending-published one_client 0 false (received 1 ∷ (subscribed ∷ [])) (omega arith)
      (unfold pending in refl) (others_receive, (tt, tt))
