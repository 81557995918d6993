-- ===== src/Proxy/Tests.antt =====
-- The theorems of the proxy at concrete inputs. The libraries here know no address but names, and
-- take every text for the host of an HTTP URL.
use tunnel_manager.Prelude.{
  ◌≡◌, refl, ◌⊎◌, ◌↔◌, Bool, true, false, List, [], ◌∷◌, ◌++◌, none, ok, err, Error, external, All,
  Some,
}
use tunnel_manager.Prelude.Text.{Bytes, codes, slash, text_eq, has_prefix, cut_prefix}
use tunnel_manager.Model.{DomainRoute}
use tunnel_manager.Proxy.{
  NetLibrary, ProxyRoute, DomainSnapshot, ProxyServer, new, rebuild, normalize_hostname, strips,
  merged, commit_domain, matches_prefix, Request, proxied, not_found, forward, serve_http,
}
use tunnel_manager.Proxy.Table.{IsBuilt, Installs, commit_domain-Installs}
use tunnel_manager.Proxy.Owned.{IsOwned}
use tunnel_manager.Proxy.Serving.{Matches, IsServedBy, serve_http-Serves, forward_path}
use tunnel_manager.Proxy.Merge.{IsKept, merged_covers}

abbrev names : NetLibrary
names = record {
  urls = record {
    parse = λ s. ok (record {
      scheme = codes "http";
      host = s;
      has_user = false;
      path = [];
      raw_path = [];
      raw_query = [];
      fragment = [];
      rest = [];
    });
    string = λ u. u.host;
  };
  split_host_port = λ s. err (external s);
  parse_ip = λ s. none;
  is_loopback = λ s. false;
  equal_fold = text_eq;
  unicode = λ s. s;
}

abbrev route : Bytes → Bool → DomainRoute
route p s = record {
  id = p;
  domain_id = codes "d";
  path = p;
  origin_url = codes "o";
  strip_prefix = s;
  created_at = 7;
  updated_at = 7;
}

abbrev two_routes : List DomainRoute
two_routes = route (codes "/a") true ∷ (route (codes "/a/b") true ∷ [])

abbrev table : List (Bytes × DomainSnapshot)
table = (codes "d", record { hostname = codes "h"; routes = two_routes }) ∷ []

abbrev server : ProxyServer
server = record { addr = codes "l"; by_domain = table; routes = rebuild table }

abbrev request : Request
request = record {
  host = codes "H";
  path = codes "/a/b/c";
  raw_path = [];
  forwarded_host = [];
  forwarded_proto = [];
  forwarded_prefix = [];
  is_tls = true;
}

abbrev served : ProxyRoute
served = record { domain_id = codes "d"; path = codes "/a/b"; target = codes "o" }

server-IsBuilt : IsBuilt server
server-IsBuilt host = refl

commit_domain-Installs_example :
    ((commit_domain names (new (codes "l")) (codes "d") (codes "H.") two_routes).1 ≡ ok tt
      × Installs
          (new (codes "l"))
          (commit_domain names (new (codes "l")) (codes "d") (codes "H.") two_routes).0
          (codes "d")
          (normalize_hostname names (codes "H."))
          two_routes)
    ⊎ ((e : Error) × (commit_domain names (new (codes "l")) (codes "d") (codes "H.") two_routes
          ≡ (new (codes "l"), err e)))
commit_domain-Installs_example =
    commit_domain-Installs names (new (codes "l")) (codes "d") (codes "H.") two_routes

serve_http-Serves_example :
    ((x : ProxyRoute) (r' : Request)
      → serve_http names server request ≡ proxied x r'
      → IsServedBy table (normalize_hostname names (codes "H")) request x r')
    × ((serve_http names server request ≡ not_found) ↔ (
        (x : ProxyRoute)
        → IsOwned table (normalize_hostname names (codes "H")) x
        → matches_prefix (codes "/a/b/c") x.path ≡ false))
serve_http-Serves_example = serve_http-Serves names server request server-IsBuilt

served-Matches : Matches request served
unfolding matches_prefix text_eq has_prefix cut_prefix
served-Matches = refl

forward_path_example :
    (((codes "/a/b/c" ≡ codes "/a/b") × ((forward served request).path ≡ slash ∷ []))
      ⊎ ((t : Bytes) × (codes "/a/b/c" ≡ codes "/a/b" ++ slash ∷ t)
          × ((forward served request).path ≡ slash ∷ t)))
    × ((forward served request).forwarded_prefix ≡ codes "/a/b")
    × ((forward served request).forwarded_host ≡ codes "H")
forward_path_example = forward_path served request served-Matches

merged_covers_example :
    ((P : DomainRoute → Type 0)
      → Some (λ r. P r × (r.strip_prefix ≡ true)) (route (codes "/a") true ∷ [])
      → Some P (merged two_routes (route (codes "/a") true ∷ [])))
    × ((p : Bytes)
        → Some (λ (r : DomainRoute). (r.path ≡ p) × (r.strip_prefix ≡ true)) two_routes
        → Some (λ (r : DomainRoute). r.path ≡ p) (merged two_routes (route (codes "/a") true ∷ [])))
    × ((rest : List DomainRoute) × (merged two_routes (route (codes "/a") true ∷ [])
          ≡ strips (route (codes "/a") true ∷ []) ++ rest)
        × All (IsKept (strips (route (codes "/a") true ∷ []))) rest)
    × All (λ (r : DomainRoute). r.strip_prefix ≡ true) (strips (route (codes "/a") true ∷ []))
merged_covers_example = merged_covers two_routes (route (codes "/a") true ∷ [])
