-- ===== src/Peercred.antt =====
-- internal/peercred/peercred.go: who may connect to a socket, by the kernel's credentials.
use panely.Kit.{
  ℕ, Bool, false, Option, none, some, List, [], ◌∷◌, ◌==◌, ◌||◌, ◌&&◌, if◌then◌else◌, length,
  Result, ok, err,
}

pub record Cred : Type 0 where
  pub pid : ℕ
  pub uid : ℕ
  pub gid : ℕ

pub record Policy : Type 0 where
  pub allow_uids : List ℕ
  pub allow_gids : List ℕ

pub data PeerError : Type 0 where
  no_cred : PeerError
  denied : Cred → PeerError
  empty_policy : PeerError

abbrev pub lists : List ℕ → ℕ → Bool
lists [] n = false
lists (x ∷ xs) n = n == x || lists xs n

-- The two loops of `Allows`.
unfoldable pub allows : Policy → Cred → Bool
allows p c = lists p.allow_uids c.uid || lists p.allow_gids c.gid

unfoldable pub is_empty : Policy → Bool
is_empty p = length p.allow_uids == 0 && length p.allow_gids == 0

-- `TransportCredentials`: the policy that the handshake applies.
unfoldable pub transport_credentials : Policy → Result PeerError Policy
unfolding is_empty
transport_credentials p = if is_empty p then err empty_policy else ok p

-- `ServerHandshake`, on what `FromConn` reports of the connection.
unfoldable pub server_handshake : Policy → Option Cred → Result PeerError Cred
server_handshake p none = err no_cred
server_handshake p (some cred) = if allows p cred then ok cred else err (denied cred)
