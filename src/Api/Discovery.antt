-- ===== src/Api/Discovery.antt =====
-- internal/services/prometheus/discovery.go and its handler: where Prometheus finds the metrics of the
-- active domains.
use tunnel_manager.Prelude.{List, [], ◌∷◌, ◌++◌, map, error_text}
use tunnel_manager.Prelude.Text.{Bytes, codes}
use tunnel_manager.Model.{Domain, active}
use tunnel_manager.Pagination.{list_all}
use tunnel_manager.Service.World.{queried, Outside, World, Run, ◌>>◌, read, perform}
use tunnel_manager.Api.{TargetsMetrics, Reply, reply, failure, some_targets, answer}

abbrev base_url : Bytes
base_url = codes "host.docker.internal:8180"

pub target_of : Domain → TargetsMetrics
target_of d = record {
  targets = base_url ∷ [];
  env = codes "pro";
  domain = d.hostname;
  metrics_path = codes "/api/domains/" ++ (d.id ++ codes "/metrics");
}

unfoldable pub discovery : Outside → Run (List TargetsMetrics)
unfolding target_of
discovery o = perform o queried >> read (λ w. map target_of (list_all w.db (active ∷ [])))

unfoldable pub serve_discovery : Outside → World → World × Reply
unfolding discovery
serve_discovery o w =
    answer (λ t. reply 200 (some_targets t)) (λ e. reply 500 (failure (error_text e)))
      (discovery o w)
