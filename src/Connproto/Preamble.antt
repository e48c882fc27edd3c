-- ===== src/Connproto/Preamble.antt =====
-- internal/connproto/identity.go: the preamble, a 4-byte big-endian length and a JSON body.
use panely.Kit.{
  ℕ, zero, suc, ◌+◌, ◌*◌, ◌/◌, ◌%◌, ◌^◌, ◌≡◌, ◌<◌, Option, none, some, List, [], ◌∷◌, ◌++◌, ltb,
  ◌==◌, ◌=ₛ◌, if◌then◌else◌, length, Result, ok, err, ◌>>=◌,
}
use panely.Connproto.Role.{Identity}

abbrev pub max_preamble_size : ℕ
max_preamble_size = 4096

pub data WireError : Type 0 where
  cannot_encode : WireError
  too_large : ℕ → WireError
  cannot_write : WireError
  short_header : WireError
  empty_body : WireError
  short_body : WireError
  bad_json : WireError

-- encoding/json at `Identity`, with what the code relies on: an object has a body, and decoding
-- gives back what was encoded.
pub record Codec : Type 0 where
  pub marshal : Identity → Option (List ℕ)
  pub unmarshal : List ℕ → Option Identity
  pub marshal_nonempty : (id : Identity) (body : List ℕ) → marshal id ≡ some body → 0 < length body
  pub unmarshal-marshal :
      (id : Identity) (body : List ℕ) → marshal id ≡ some body → unmarshal body ≡ some id

-- `binary.BigEndian.PutUint32`.
abbrev pub put_uint32 : ℕ → List ℕ
put_uint32 n = n / 2 ^ 24 % 256 ∷ n / 2 ^ 16 % 256 ∷ n / 2 ^ 8 % 256 ∷ n % 256 ∷ []

-- `binary.BigEndian.Uint32`.
abbrev pub uint32 : ℕ → ℕ → ℕ → ℕ → ℕ
uint32 a b c d = a * 2 ^ 24 + b * 2 ^ 16 + c * 2 ^ 8 + d

-- `io.ReadFull` into `n` bytes of a stream: the bytes and what is left, or too short a stream.
abbrev pub cons_read : ℕ → Option (List ℕ × List ℕ) → Option (List ℕ × List ℕ)
cons_read x none = none
cons_read x (some (xs, rest)) = some (x ∷ xs, rest)

unfoldable pub read_full : ℕ → List ℕ → Option (List ℕ × List ℕ)
read_full zero s = some ([], s)
read_full (suc n) [] = none
read_full (suc n) (x ∷ s) = cons_read x (read_full n s)

-- The `Origin` that a reader fills in.
abbrev pub with_origin : Identity → Identity
with_origin id = record id { origin = if id.origin =ₛ "" then "unknown" else id.origin }

module _ (codec : Codec) where
  -- `Write` up to its call of the writer: one packet, header and body.
  unfoldable pub packet : Identity → Result WireError (List ℕ)
  packet id = elim (codec.marshal id) [
    | none ↦ err cannot_encode
    | some body ↦
        if ltb max_preamble_size (length body)
        then err (too_large (length body))
        else ok (put_uint32 (length body % 2 ^ 32) ++ body)
  ]

  -- `Write` on a writer over the states `W`.
  unfoldable pub write : {W : Type 0} → (List ℕ → W → Option W) → Identity → W → Result WireError W
  unfolding packet
  write put id w = packet id >>= λ p. elim (put p w) [ none ↦ err cannot_write | some w' ↦ ok w' ]

  -- The body of `Read` once the size is known.
  unfoldable pub read_body : ℕ → List ℕ → Result WireError (Identity × List ℕ)
  read_body size s =
      if ltb max_preamble_size size
      then err (too_large size)
      else if size == 0
      then err empty_body
      else elim (read_full size s) [
        | none ↦ err short_body
        | some (body, rest) ↦ elim (codec.unmarshal body) [
          | none ↦ err bad_json
          | some id ↦ ok (with_origin id, rest)
        ]
      ]

  -- `Read` on the bytes of the connection; what is left is the HTTP/2 stream.
  unfoldable pub read : List ℕ → Result WireError (Identity × List ℕ)
  unfolding read_body
  read (a ∷ b ∷ c ∷ d ∷ s) = read_body (uint32 a b c d) s
  read _ = err short_header
