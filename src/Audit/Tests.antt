-- ===== src/Audit/Tests.antt =====
-- Two chains of one record each, and the theorem on them.
use panely.Kit.{ℕ, ◌≡◌, ◌⊎◌, refl, List, [], ◌∷◌, ◌++◌, arith, length, ok, err}
use panely.Audit.Record.{
  Bytes, Actor, Record, Verifier, bad_outcome, new_verifier, zeros, genesis_hash, source_daemon,
  seal, preimage, write_uint, write_str, next, verify_from, verify_all,
}
use panely.Audit.Encoding.{IsEncodable}
use panely.Audit.Tamper.{Collision, verify_all-agree}

-- A digest of 32 bytes that knows a text's length only.
abbrev digest_of : Bytes → Bytes
digest_of b = length b ∷ 0 ∷ 0 ∷ 0 ∷ 0 ∷ 0 ∷ 0 ∷ 0 ∷ (zeros ++ (zeros ++ zeros))

abbrev owner : Actor
owner = record { key_fingerprint = 1 ∷ []; source_ip = 2 ∷ []; label = 3 ∷ []; origin = [] }

abbrev deploy : ℕ → ℕ → Record
deploy target outcome = record {
  seq = 0;
  ts = 5;
  actor = owner;
  action = 6 ∷ 7 ∷ [];
  target = target ∷ [];
  params_json = [];
  outcome = outcome;
  detail = [];
  source = source_daemon;
  prev_hash = [];
  hash = [];
}

-- The first record of a chain.
abbrev first : ℕ → ℕ → Record
first target outcome = seal digest_of (deploy target outcome) 1 genesis_hash

abbrev chain : ℕ → List Record
chain target = first target 1 ∷ []

abbrev end : Verifier
end = record { prev = (first 8 1).hash; next_seq = 2; count = 1 }

chain_verified : verify_all digest_of (chain 8) ≡ ok end
unfolding verify_all verify_from next seal preimage write_uint write_str
chain_verified = refl

other_verified : verify_all digest_of (chain 9) ≡ ok end
unfolding verify_all verify_from next seal preimage write_uint write_str
other_verified = refl

-- An outcome that is none of the three.
outcome_refused : verify_all digest_of (first 8 4 ∷ []) ≡ err (new_verifier, bad_outcome 1)
unfolding verify_all verify_from next seal preimage write_uint write_str
outcome_refused = refl

first-IsEncodable : (target : ℕ) → IsEncodable (first target 1)
unfolding seal
first-IsEncodable target = record {
  seq = omega arith;
  ts = omega arith;
  fingerprint = omega arith;
  ip = omega arith;
  label = omega arith;
  origin = omega arith;
  action = omega arith;
  target = omega arith;
  params = omega arith;
  outcome = omega arith;
  detail = omega arith;
  source = omega arith;
}

verify_all-agree_example : (chain 8 ≡ chain 9) ⊎ Collision digest_of
verify_all-agree_example =
    verify_all-agree digest_of (chain 8) (chain 9) (omega arith) (first-IsEncodable 8, tt)
      (first-IsEncodable 9, tt) chain_verified other_verified refl refl
