-- ===== src/Proxy/Tests.antt =====
-- A configuration built from routes, and the theorem on it.
use panely.Kit.{if◌then◌else◌, ◌≡◌, ◌≢◌, ◌↔◌, refl, String, none, some, [], ◌∷◌, ◌=ₛ◌, map, ok, err}
use panely.Kit.Maps.{lookup}
use panely.Proxy.Config.{
  Netip, Upstream, AppRoute, BuildOptions, Config, build_config, build_routes, new_upstream,
  unspecified_ip, bad_port, not_an_ip, no_upstream, domain_twice, route_of,
}
use panely.Proxy.Live.{
  AdminSocket, routes_by_host, add_servers, add_routes, add_matches, add_hosts, route_dials,
  missing_hosts, hosts_beyond, same_strings, count_up, count_down, compare_hosts, verify_applied,
  load_config,
}
use panely.Kit.Maps.{insert}
use panely.Kit.Sort.{sort_by, place}
use panely.Kit.{false}
use panely.Proxy.Same.{Agree, load_config-Agree}
use panely.Proxy.Routes.{IsRoutable, in_order, routes_of, build_config-IsRoutable}

-- Addresses that are their own texts.
abbrev pub plain : Netip String
plain = record {
  parse_addr = λ s. if s =ₛ "" then none else some s;
  is_unspecified = λ a. a =ₛ "0.0.0.0";
  addr_port = λ a p. a;
  parse_addr_port = λ s. some (s, 80);
  addr_text = λ a. a;
  decimal = λ n. "443";
}

abbrev backend : Upstream
backend = record { dial = "10.0.0.2:8080" }

abbrev blog : AppRoute
blog = record { app_id = "blog"; domain = "site.example.com"; upstreams = backend ∷ [] }

abbrev worker : AppRoute
worker = record { app_id = "a_worker"; domain = ""; upstreams = [] }

abbrev two_apps : BuildOptions
two_apps = record {
  admin = record { listen = "unix//run/caddy.sock"; origins = [] };
  routes = blog ∷ worker ∷ [];
  http_port = 0;
  https_port = 0;
}

refuses_any_address : new_upstream plain "0.0.0.0" 8080 ≡ err (unspecified_ip "0.0.0.0")
unfolding new_upstream
refuses_any_address = refl

refuses_no_address : new_upstream plain "" 8080 ≡ err (not_an_ip "")
unfolding new_upstream
refuses_no_address = refl

refuses_high_port : new_upstream plain "10.0.0.2" 65536 ≡ err (bad_port 65536)
unfolding new_upstream
refuses_high_port = refl

refuses_second_app :
    build_routes [] (blog ∷ record blog { app_id = "shop" } ∷ [])
    ≡ err (domain_twice "site.example.com" "blog" "shop")
unfolding build_routes lookup
refuses_second_app = refl

refuses_bare_route :
    build_routes [] (record blog { upstreams = [] } ∷ []) ≡ err (no_upstream "blog")
unfolding build_routes lookup
refuses_bare_route = refl

build_config-IsRoutable_example :
    ((two_apps.admin.listen ≢ "") × IsRoutable (in_order plain two_apps)) ↔ (
      (cfg : Config) × (build_config plain two_apps ≡ ok cfg)
      × (cfg.admin ≡ two_apps.admin)
      × (routes_of cfg ≡ map route_of (in_order plain two_apps)))
build_config-IsRoutable_example = build_config-IsRoutable plain two_apps

abbrev site : Config
site = record {
  admin = two_apps.admin;
  logs = [];
  http = some (record {
    servers = ("kadran", record { listen = ":443" ∷ []; routes = route_of blog ∷ [] }) ∷ [];
    http_port = 0;
    https_port = 0;
  });
}

abbrev bare : Config
bare = record site { http = none }

lost_site : missing_hosts (some site) (some bare) ≡ "site.example.com" ∷ []
unfolding missing_hosts hosts_beyond routes_by_host add_servers add_routes add_matches add_hosts
    route_dials lookup insert sort_by place
lost_site = refl

counts_twice : same_strings ("a" ∷ "b" ∷ "a" ∷ []) ("a" ∷ "b" ∷ "b" ∷ []) ≡ false
unfolding same_strings count_up count_down lookup insert
counts_twice = refl

-- The world is the configuration that Caddy runs.
abbrev caddy : AdminSocket Config
caddy = record { post = λ cfg w. (none, cfg); current = λ w. (ok w, w) }

loads : (load_config caddy site bare).0 ≡ none
unfolding load_config verify_applied compare_hosts same_strings count_up count_down hosts_beyond
    routes_by_host add_servers add_routes add_matches add_hosts route_dials lookup insert
loads = refl

load_config-Agree_example :
    ((caddy.post site bare).0 ≡ none)
    × ((found : Config) × ((caddy.current (caddy.post site bare).1).0 ≡ ok found)
        × Agree (routes_by_host (some site)) (routes_by_host (some found)))
load_config-Agree_example = load_config-Agree caddy site bare loads
