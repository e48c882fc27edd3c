-- ===== src/Audit/Record.antt =====
-- internal/audit/audit.go: records, their canonical encoding, sealing and verification. A Go string is
-- the list of its bytes; SHA-256 is a function on bytes. Numbers of 64 bits wrap.
use panely.Kit.{
  ℕ, ◌+◌, ◌/◌, ◌%◌, ◌^◌, Bool, true, false, not, ◌&&◌, List, [], ◌∷◌, ◌++◌, leb, ◌==◌,
  if◌then◌else◌, length, Result, ok, err,
}

abbrev pub Bytes : Type 0
Bytes = List ℕ

abbrev pub bytes_eq : Bytes → Bytes → Bool
bytes_eq [] [] = true
bytes_eq (a ∷ xs) (b ∷ ys) = a == b && bytes_eq xs ys
bytes_eq _ _ = false

pub record Actor : Type 0 where
  pub key_fingerprint : Bytes
  pub source_ip : Bytes
  pub label : Bytes
  pub origin : Bytes

-- The time is its `UnixNano`, as 64 bits; outcome and source are the bytes that they are in Go.
pub record Record : Type 0 where
  pub seq : ℕ
  pub ts : ℕ
  pub actor : Actor
  pub action : Bytes
  pub target : Bytes
  pub params_json : Bytes
  pub outcome : ℕ
  pub detail : Bytes
  pub source : ℕ
  pub prev_hash : Bytes
  pub hash : Bytes

abbrev pub hash_size : ℕ
hash_size = 32

abbrev pub zeros : List ℕ
zeros = 0 ∷ 0 ∷ 0 ∷ 0 ∷ 0 ∷ 0 ∷ 0 ∷ 0 ∷ []

abbrev pub genesis_hash : Bytes
genesis_hash = zeros ++ (zeros ++ (zeros ++ zeros))

abbrev pub source_daemon : ℕ
source_daemon = 1

abbrev pub source_executor : ℕ
source_executor = 2

-- `Source.Valid` and `Outcome.Valid`.
abbrev pub is_source : ℕ → Bool
is_source s = leb source_daemon s && leb s source_executor

abbrev pub is_outcome : ℕ → Bool
is_outcome o = leb 1 o && leb o 3

-- `binary.BigEndian.PutUint64`.
abbrev pub put_uint64 : ℕ → Bytes
put_uint64 v =
    v / 2 ^ 56 % 256
    ∷ v / 2 ^ 48 % 256
    ∷ v / 2 ^ 40 % 256
    ∷ v / 2 ^ 32 % 256
    ∷ v / 2 ^ 24 % 256
    ∷ v / 2 ^ 16 % 256
    ∷ v / 2 ^ 8 % 256
    ∷ v % 256
    ∷ []

-- What is written before the bytes that follow: `writeUint` and `writeStr`.
unfoldable pub write_uint : ℕ → Bytes → Bytes
write_uint v rest = put_uint64 v ++ rest

unfoldable pub write_str : Bytes → Bytes → Bytes
write_str s rest = write_uint (length s) (s ++ rest)

-- The bytes that `ComputeHash` gives to SHA-256.
unfoldable pub preimage : Record → Bytes
preimage r = write_uint r.seq (
    write_uint r.ts (
      write_str r.actor.key_fingerprint (
        write_str r.actor.source_ip (
          write_str r.actor.label (
            write_str r.actor.origin (
              write_str r.action (
                write_str r.target (
                  write_str r.params_json (
                    write_uint r.outcome
                      (write_str r.detail (write_uint r.source r.prev_hash)))))))))))

-- `Verifier`.
pub record Verifier : Type 0 where
  pub prev : Bytes
  pub next_seq : ℕ
  pub count : ℕ

abbrev pub new_verifier : Verifier
new_verifier = record { prev = genesis_hash; next_seq = 1; count = 0 }

-- Why a chain is refused, `ErrChainBroken` with its detail.
pub data ChainError : Type 0 where
  sequence_gap : ℕ → ℕ → ChainError
  wrong_prev : ℕ → ChainError
  bad_outcome : ℕ → ChainError
  bad_source : ℕ → ChainError
  tampered : ℕ → ChainError

module _ (sha256 : Bytes → Bytes) where
  abbrev pub compute_hash : Record → Bytes
  compute_hash r = sha256 (preimage r)

  -- `Seal`.
  unfoldable pub seal : Record → ℕ → Bytes → Record
  seal r seq prev =
      let r' : Record = record r { seq = seq; prev_hash = prev } in
      record r' { hash = compute_hash r' }

  -- `Verifier.Next`.
  unfoldable pub next : Verifier → Record → Result ChainError Verifier
  next v r =
      if not (r.seq == v.next_seq)
      then err (sequence_gap v.next_seq r.seq)
      else if not (bytes_eq r.prev_hash v.prev)
      then err (wrong_prev r.seq)
      else if not (is_outcome r.outcome)
      then err (bad_outcome r.seq)
      else if not (is_source r.source)
      then err (bad_source r.seq)
      else if not (bytes_eq (compute_hash r) r.hash)
      then err (tampered r.seq)
      else ok (record {
        prev = r.hash;
        next_seq = (r.seq + 1) % 2 ^ 64;
        count = (v.count + 1) % 2 ^ 64;
      })

  -- The loop of `VerifyAll`: the verifier where it stopped, and why it stopped there.
  unfoldable pub verify_from : Verifier → List Record → Result (Verifier × ChainError) Verifier
  verify_from v [] = ok v
  verify_from v (r ∷ rs) = elim (next v r) [ err e ↦ err (v, e) | ok v' ↦ verify_from v' rs ]

  -- `VerifyAll`.
  unfoldable pub verify_all : List Record → Result (Verifier × ChainError) Verifier
  unfolding verify_from
  verify_all rs = verify_from new_verifier rs
