-- ===== src/Proxy/Config.antt =====
-- internal/proxydrv/config.go: the configuration that Caddy gets, from the routes of the apps.
use panely.Kit.{
  ℕ, String, Bool, true, false, Option, none, some, List, [], ◌∷◌, ltb, ◌==◌, ◌=ₛ◌, ◌||◌,
  if◌then◌else◌, Result, ok, err,
}
use panely.Kit.Maps.{lookup}
use panely.Kit.Sort.{sort_by}

pub record Upstream : Type 0 where
  pub dial : String

pub record Handler : Type 0 where
  pub handler : String
  pub upstreams : List Upstream
  pub status_code : ℕ
  pub body : String
  pub encodings : List String
  pub prefer : List String

pub record Match : Type 0 where
  pub host : List String

pub record Route : Type 0 where
  pub matches : List Match
  pub handle : List Handler
  pub terminal : Bool

pub record HttpServer : Type 0 where
  pub listen : List String
  pub routes : List Route

pub record HttpApp : Type 0 where
  pub servers : List (String × HttpServer)
  pub http_port : ℕ
  pub https_port : ℕ

pub record Admin : Type 0 where
  pub listen : String
  pub origins : List String

-- `Logging` holds the level of each log, `Apps` only the HTTP app.
pub record Config : Type 0 where
  pub admin : Admin
  pub logs : List (String × String)
  pub http : Option HttpApp

pub record AppRoute : Type 0 where
  pub app_id : String
  pub domain : String
  pub upstreams : List Upstream

pub record BuildOptions : Type 0 where
  pub admin : Admin
  pub routes : List AppRoute
  pub http_port : ℕ
  pub https_port : ℕ

pub data ConfigError : Type 0 where
  not_an_ip : String → ConfigError
  unspecified_ip : String → ConfigError
  bad_port : ℕ → ConfigError
  no_admin : ConfigError
  domain_twice : String → String → String → ConfigError
  no_upstream : String → ConfigError

-- net/netip over addresses `Addr`, and `strconv.FormatUint` to base 10.
pub record Netip (Addr : Type 0) : Type 0 where
  pub parse_addr : String → Option Addr
  pub is_unspecified : Addr → Bool
  pub addr_port : Addr → ℕ → String
  pub parse_addr_port : String → Option (Addr × ℕ)
  pub addr_text : Addr → String
  pub decimal : ℕ → String

module _ {Addr : Type 0} (netip : Netip Addr) where
  unfoldable pub new_upstream : String → ℕ → Result ConfigError Upstream
  new_upstream ip port = elim (netip.parse_addr ip) [
    | none ↦ err (not_an_ip ip)
    | some addr ↦
        if netip.is_unspecified addr
        then err (unspecified_ip ip)
        else if port == 0 || ltb 65535 port
        then err (bad_port port)
        else ok (record { dial = netip.addr_port addr port })
  ]

abbrev pub encode_handler : Handler
encode_handler = record {
  handler = "encode";
  upstreams = [];
  status_code = 0;
  body = "";
  encodings = "zstd" ∷ "gzip" ∷ [];
  prefer = "zstd" ∷ "gzip" ∷ [];
}

abbrev pub reverse_proxy : List Upstream → Handler
reverse_proxy upstreams = record {
  handler = "reverse_proxy";
  upstreams = upstreams;
  status_code = 0;
  body = "";
  encodings = [];
  prefer = [];
}

-- The route of one app.
abbrev pub route_of : AppRoute → Route
route_of r = record {
  matches = record { host = r.domain ∷ [] } ∷ [];
  handle = encode_handler ∷ reverse_proxy r.upstreams ∷ [];
  terminal = true;
}

abbrev pub has_upstreams : AppRoute → Bool
has_upstreams r = elim r.upstreams [ [] ↦ false | _ ↦ true ]

abbrev pub cons_ok : Route → Result ConfigError (List Route) → Result ConfigError (List Route)
cons_ok r (ok rs) = ok (r ∷ rs)
cons_ok r (err e) = err e

-- The loop of `BuildConfig`, with the map `seen` from domains to apps.
unfoldable pub build_routes :
    List (String × String) → List AppRoute → Result ConfigError (List Route)
build_routes seen [] = ok []
build_routes seen (r ∷ rs) =
    let skip = build_routes seen rs in
    let more = build_routes ((r.domain, r.app_id) ∷ seen) rs in
    if r.domain =ₛ "" then skip else elim (lookup r.domain seen) [
      | some prev ↦ err (domain_twice r.domain prev r.app_id)
      | none ↦ if has_upstreams r then cons_ok (route_of r) more else err (no_upstream r.app_id)
    ]

abbrev pub port_or : ℕ → ℕ → ℕ
port_or v fallback = if v == 0 then fallback else v

abbrev pub server_name : String
server_name = "kadran"

module _ {Addr : Type 0} (netip : Netip Addr) where
  -- The configuration once the routes are built.
  abbrev pub finish : BuildOptions → List Route → Config
  finish opts [] = record { admin = opts.admin; logs = ("default", "INFO") ∷ []; http = none }
  finish opts (r ∷ rs) = record {
    admin = opts.admin;
    logs = ("default", "INFO") ∷ [];
    http = some (record {
      servers =
          (
            server_name,
            record {
              listen = String.◌∷◌ ":" (netip.decimal (port_or opts.https_port 443)) ∷ [];
              routes = r ∷ rs;
            },
          )
          ∷ [];
      http_port = opts.http_port;
      https_port = opts.https_port;
    });
  }

  unfoldable pub build_config : BuildOptions → Result ConfigError Config
  unfolding build_routes
  build_config opts =
      if opts.admin.listen =ₛ ""
      then err no_admin
      else elim (build_routes [] (sort_by (λ (r : AppRoute). r.app_id) opts.routes)) [
        | err e ↦ err e
        | ok rs ↦ ok (finish opts rs)
      ]
