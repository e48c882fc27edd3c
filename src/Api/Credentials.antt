-- ===== src/Api/Credentials.antt =====
-- internal/api/credentials.go: the handshake on api.sock, the kernel's check before the preamble.
use panely.Kit.{ℕ, Bool, true, false, Option, none, some, List, [], ◌∷◌, Result, ok, err, ◌>>=◌}
use panely.Connproto.Role.{Identity, RoleError, check_role}
use panely.Connproto.Preamble.{Codec, WireError, read}
use panely.Peercred.{Cred, Policy, PeerError, server_handshake}

pub record CallerInfo : Type 0 where
  pub unix : Cred
  pub identity : Identity

pub data HandshakeError : Type 0 where
  peer : PeerError → HandshakeError
  deadline : HandshakeError
  preamble : WireError → HandshakeError
  role : RoleError → HandshakeError

-- The policy of `TransportCredentials`: the group of the clients alone.
abbrev pub client_policy : ℕ → Policy
client_policy gid = record { allow_uids = []; allow_gids = gid ∷ [] }

abbrev pub require : Bool → HandshakeError → Result HandshakeError (Unit {0})
require true e = ok tt
require false e = err e

abbrev pub lift_peer : Result PeerError Cred → Result HandshakeError Cred
lift_peer (ok c) = ok c
lift_peer (err e) = err (peer e)

abbrev pub lift_read :
    Result WireError (Identity × List ℕ) → Result HandshakeError (Identity × List ℕ)
lift_read (ok r) = ok r
lift_read (err e) = err (preamble e)

abbrev pub lift_role : Option RoleError → Result HandshakeError (Unit {0})
lift_role none = ok tt
lift_role (some e) = err (role e)

-- `handshake` of a connection: `cred` is the kernel's report, `set` and `reset` whether the two
-- calls of `SetReadDeadline` succeed, `s` the bytes that the peer sends. The result is the caller
-- and what is left for gRPC.
unfoldable pub handshake :
    Codec
    → Policy
    → Option Cred
    → Bool
    → Bool
    → List ℕ
    → Result HandshakeError (CallerInfo × List ℕ)
handshake codec policy cred set reset s = do
  unix_cred ← lift_peer (server_handshake policy cred)
  _ ← require set deadline
  (identity, rest) ← lift_read (read codec s)
  _ ← lift_role (check_role identity)
  _ ← require reset deadline
  ok (record { unix = unix_cred; identity = identity }, rest)
