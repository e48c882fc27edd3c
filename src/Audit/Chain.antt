-- ===== src/Audit/Chain.antt =====
-- What `VerifyAll` of internal/audit/audit.go accepts: records that are linked, from the first on.
use panely.Kit.{
  ap, ◌∙◌, sym, ◌+◌, ◌%◌, ◌^◌, ◌≡◌, ◌<◌, refl, true, List, [], ◌∷◌, arith, ◌==◌, length, inl, inr,
  guard-ok, Result, Result-cases, ok,
}
use panely.Audit.Record.{
  Bytes, bytes_eq, Record, Verifier, genesis_hash, ChainError, sequence_gap, wrong_prev,
  bad_outcome, bad_source, tampered, preimage, compute_hash, seal, next, verify_from, is_outcome,
  is_source,
}
use panely.Audit.Encoding.{bytes_eq-path, bytes_eq_refl}

-- The hash that the next record must name, the newest record first.
abbrev pub head_hash : List Record → Bytes
head_hash [] = genesis_hash
head_hash (r ∷ rs) = r.hash

-- The records seen, the newest first.
abbrev pub onto : List Record → List Record → List Record
onto [] seen = seen
onto (r ∷ rs) seen = onto rs (r ∷ seen)

ok-inj : {v w : Verifier} → ◌≡◌ {A = Result ChainError Verifier} (ok v) (ok w) → v ≡ w
ok-inj e = cc

module _ (sha256 : Bytes → Bytes) where
  -- Each record carries its number, the hash of the one before it and its own hash, and known codes.
  abbrev pub IsLinked : List Record → Type 0
  IsLinked [] = Unit
  IsLinked (r ∷ rs) =
      (r.seq ≡ length rs + 1)
      × (r.prev_hash ≡ head_hash rs)
      × (r.hash ≡ compute_hash sha256 r)
      × (is_outcome r.outcome ≡ true)
      × (is_source r.source ≡ true)
      × IsLinked rs

  -- The verifier that has seen these records.
  abbrev pub verifier_at : List Record → Verifier
  verifier_at rs = record { prev = head_hash rs; next_seq = length rs + 1; count = length rs }

  after :
      (r : Record) (seen : List Record)
      → r.seq ≡ length seen + 1
      → length seen + 2 < 2 ^ 64
      → record {
        prev = r.hash;
        next_seq = (r.seq + 1) % 2 ^ 64;
        count = (length seen + 1) % 2 ^ 64;
      }
        ≡ verifier_at (r ∷ seen)
  after r seen e small = ground arith

  pub next-IsLinked :
      (seen : List Record) (r : Record) {v : Verifier}
      → length seen + 2 < 2 ^ 64
      → IsLinked seen
      → next sha256 (verifier_at seen) r ≡ ok v
      → IsLinked (r ∷ seen) × (v ≡ verifier_at (r ∷ seen))
  unfolding next
  next-IsLinked seen r {v = v} small h e =
      let (a, e) = guard-ok (r.seq == length seen + 1) (sequence_gap (length seen + 1) r.seq) _ e in
      let (b, e) = guard-ok (bytes_eq r.prev_hash (head_hash seen)) (wrong_prev r.seq) _ e in
      let (c, e) = guard-ok (is_outcome r.outcome) (bad_outcome r.seq) _ e in
      let (d, e) = guard-ok (is_source r.source) (bad_source r.seq) _ e in
      let (f, e) = guard-ok (bytes_eq (compute_hash sha256 r) r.hash) (tampered r.seq) _ e in
      let number : r.seq ≡ length seen + 1 = ground arith in
      (
        (
          number,
          bytes_eq-path r.prev_hash (head_hash seen) b,
          sym (bytes_eq-path (compute_hash sha256 r) r.hash f),
          c,
          d,
          h,
        ),
        ok-inj (sym e) ∙ after r seen number small,
      )

  pub next-verifier_at :
      (seen : List Record) (r : Record)
      → length seen + 2 < 2 ^ 64
      → IsLinked (r ∷ seen)
      → next sha256 (verifier_at seen) r ≡ ok (verifier_at (r ∷ seen))
  unfolding next
  next-verifier_at seen r small h =
      let number : (r.seq == length seen + 1) ≡ true = ground (arith, h.0) in
      let prev : bytes_eq r.prev_hash (head_hash seen) ≡ true =
        rw h.1 (bytes_eq_refl (head_hash seen)) in
      let own : bytes_eq (compute_hash sha256 r) r.hash ≡ true =
        rw (← h.2) (bytes_eq_refl r.hash) in
      rw (number, prev, h.3, h.4, own) (ap ok (after r seen h.0 small))

  onto-IsLinked : (rs seen : List Record) → IsLinked (onto rs seen) → IsLinked seen
  onto-IsLinked [] seen h = h
  onto-IsLinked (r ∷ rs) seen h = (onto-IsLinked rs (r ∷ seen) h).5

  pub verify_from-IsLinked :
      (seen rs : List Record) {v : Verifier}
      → length seen + length rs + 1 < 2 ^ 64
      → IsLinked seen
      → verify_from sha256 (verifier_at seen) rs ≡ ok v
      → IsLinked (onto rs seen) × (v ≡ verifier_at (onto rs seen))
  unfolding verify_from
  verify_from-IsLinked seen [] small h e = (h, ground arith)
  verify_from-IsLinked seen (r ∷ rs) small h e =
      elim (Result-cases (next sha256 (verifier_at seen) r)) [
        | inr (x, q) ↦ absurd (ground arith)
        | inl (v', q) ↦
            let (linked, at) = next-IsLinked seen r (omega arith) h q in
            verify_from-IsLinked (r ∷ seen) rs (omega arith) linked (ground arith)
      ]

  pub verify_from-verifier_at :
      (seen rs : List Record)
      → length seen + length rs + 1 < 2 ^ 64
      → IsLinked (onto rs seen)
      → verify_from sha256 (verifier_at seen) rs ≡ ok (verifier_at (onto rs seen))
  unfolding verify_from
  verify_from-verifier_at seen [] small h = refl
  verify_from-verifier_at seen (r ∷ rs) small h =
      rw (next-verifier_at seen r (omega arith) (onto-IsLinked rs (r ∷ seen) h), verify_from)
        (verify_from-verifier_at (r ∷ seen) rs (omega arith) h)

  -- What is sealed at the head of a chain prolongs it.
  pub seal-IsLinked :
      (seen : List Record) (r : Record)
      → IsLinked seen
      → is_outcome r.outcome ≡ true
      → is_source r.source ≡ true
      → IsLinked (seal sha256 r (length seen + 1) (head_hash seen) ∷ seen)
  unfolding seal preimage
  seal-IsLinked seen r h o s = (refl, refl, refl, o, s, h)
