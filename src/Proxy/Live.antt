-- ===== src/Proxy/Live.antt =====
-- internal/proxydrv/client.go: the live configuration of Caddy against the one wanted. A Go map is walked in
-- an order of its own; here its entries are walked as they were added.
use panely.Kit.{
  ℕ, ◌+◌, ◌-◌, String, Bool, true, false, not, Option, none, some, List, [], ◌∷◌, ◌++◌, map, ◌==◌,
  if◌then◌else◌, length, Result, ok, err,
}
use panely.Kit.Maps.{lookup, insert}
use panely.Kit.Sort.{sort_by}
use panely.Proxy.Config.{Netip, Config, HttpServer, Route, Match, Handler, Upstream, new_upstream}

-- A map from domains to the addresses that their routes dial.
abbrev pub HostMap : Type 0
HostMap = List (String × List String)

-- `out[host]`, empty where nothing is.
abbrev pub dials_of : Option (List String) → List String
dials_of none = []
dials_of (some ds) = ds

-- `out[host] = append(out[host], dials...)` for each host.
unfoldable pub add_hosts : List String → List String → HostMap → HostMap
add_hosts dials [] out = out
add_hosts dials (host ∷ hosts) out =
    add_hosts dials hosts (insert host (dials_of (lookup host out) ++ dials) out)

unfoldable pub add_matches : List String → List Match → HostMap → HostMap
add_matches dials [] out = out
add_matches dials (m ∷ ms) out = add_matches dials ms (add_hosts dials m.host out)

-- The addresses of all the handlers of a route.
unfoldable pub route_dials : List Handler → List String
route_dials [] = []
route_dials (h ∷ hs) = map (λ (u : Upstream). u.dial) h.upstreams ++ route_dials hs

unfoldable pub add_routes : List Route → HostMap → HostMap
unfolding add_matches route_dials
add_routes [] out = out
add_routes (r ∷ rs) out = add_routes rs (add_matches (route_dials r.handle) r.matches out)

unfoldable pub add_servers : List (String × HttpServer) → HostMap → HostMap
unfolding add_routes
add_servers [] out = out
add_servers ((name, server) ∷ servers) out = add_servers servers (add_routes server.routes out)

-- `routesByHost`; `none` is a nil configuration.
unfoldable pub routes_by_host : Option Config → HostMap
unfolding add_servers
routes_by_host none = []
routes_by_host (some cfg) = elim cfg.http [ none ↦ [] | some app ↦ add_servers app.servers [] ]

abbrev pub is_known_host : HostMap → String → Bool
is_known_host m host = elim (lookup host m) [ none ↦ false | some _ ↦ true ]

-- The entries whose host another map does not know.
unfoldable pub hosts_beyond : HostMap → HostMap → List String
hosts_beyond other [] = []
hosts_beyond other ((host, ds) ∷ m) =
    let rest = hosts_beyond other m in if is_known_host other host then rest else host ∷ rest

-- `MissingHosts`.
unfoldable pub missing_hosts : Option Config → Option Config → List String
missing_hosts want live =
    sort_by (λ s. s) (hosts_beyond (routes_by_host live) (routes_by_host want))

-- `count[s]`, zero where nothing is.
abbrev pub count_of : String → List (String × ℕ) → ℕ
count_of s count = elim (lookup s count) [ none ↦ 0 | some n ↦ n ]

-- The first loop of `sameStrings`.
unfoldable pub count_up : List String → List (String × ℕ) → List (String × ℕ)
count_up [] count = count
count_up (s ∷ ss) count = count_up ss (insert s (count_of s count + 1) count)

-- The second loop: it ends when a count falls below zero.
unfoldable pub count_down : List String → List (String × ℕ) → Bool
count_down [] count = true
count_down (s ∷ ss) count =
    let n = count_of s count in
    let rest = count_down ss (insert s (n - 1) count) in if n == 0 then false else rest

-- `sameStrings`.
unfoldable pub same_strings : List String → List String → Bool
same_strings a b = if not (length a == length b) then false else count_down b (count_up a [])

-- What `verifyApplied` returns in place of nil.
pub data Difference : Type 0 where
  no_route : String → Difference
  other_upstreams : String → List String → List String → Difference
  extra_routes : List String → Difference

-- The first loop of `verifyApplied`.
unfoldable pub compare_hosts : HostMap → HostMap → Option Difference
unfolding same_strings
compare_hosts live [] = none
compare_hosts live ((host, ds) ∷ m) = elim (lookup host live) [
  | none ↦ some (no_route host)
  | some found ↦
      let rest = compare_hosts live m in
      if same_strings ds found then rest else some (other_upstreams host ds found)
]

abbrev pub extra_found : List String → Option Difference
extra_found [] = none
extra_found (h ∷ hs) = some (extra_routes (sort_by (λ s. s) (h ∷ hs)))

-- `verifyApplied`, which is also `Matches`.
unfoldable pub verify_applied : Option Config → Option Config → Option Difference
unfolding compare_hosts
verify_applied want live = elim (compare_hosts (routes_by_host live) (routes_by_host want)) [
  | some d ↦ some d
  | none ↦ extra_found (hosts_beyond (routes_by_host want) (routes_by_host live))
]

module _ {Addr : Type 0} (netip : Netip Addr) where
  abbrev pub prepend : Option Upstream → List Upstream → List Upstream
  prepend none us = us
  prepend (some u) us = u ∷ us

  -- One address of the live configuration, if it may be carried over.
  abbrev pub valid_dial : String → Option Upstream
  valid_dial dial = elim (netip.parse_addr_port dial) [
    | none ↦ none
    | some (addr, port) ↦ elim (new_upstream netip (netip.addr_text addr) port) [
      | err _ ↦ none
      | ok u ↦ some u
    ]
  ]

  unfoldable pub valid_dials : List String → List Upstream
  valid_dials [] = []
  valid_dials (dial ∷ ds) = prepend (valid_dial dial) (valid_dials ds)

  -- `LiveUpstreams`.
  unfoldable pub live_upstreams : Option Config → String → List Upstream
  unfolding valid_dials
  live_upstreams live host = valid_dials (dials_of (lookup host (routes_by_host live)))

-- What `Load` returns in place of nil.
pub data LoadError : Type 0 where
  not_posted : String → LoadError
  not_read_back : String → LoadError
  not_applied : Difference → LoadError

-- The admin socket of Caddy: `POST /load` and `Current`, over a state of the world.
pub record AdminSocket (W : Type 0) : Type 0 where
  pub post : Config → W → Option String × W
  pub current : W → Result String Config × W

module _ {W : Type 0} (socket : AdminSocket W) where
  -- `Load`.
  unfoldable pub load_config : Config → W → Option LoadError × W
  load_config cfg w =
      let (p, w1) = socket.post cfg w in
      elim p [
        | some e ↦ (some (not_posted e), w1)
        | none ↦
            let (live, w2) = socket.current w1 in
            elim live [
              | err e ↦ (some (not_read_back e), w2)
              | ok found ↦ elim (verify_applied (some cfg) (some found)) [
                | some d ↦ (some (not_applied d), w2)
                | none ↦ (none, w2)
              ]
            ]
      ]
