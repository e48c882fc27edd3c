-- ===== src/Audit/Tamper.antt =====
-- Tampering with a chain of internal/audit/audit.go shows at its head.
use panely.Kit.{
  ap, ◌∙◌, sym, ◌+◌, ◌^◌, ◌≡◌, ◌<◌, ◌⊎◌, refl, false, List, [], ◌∷◌, arith, length, All, Bool-cases,
  inl, inr, ok,
}
use panely.Audit.Record.{Bytes, bytes_eq, Record, Verifier, preimage, verify_all}
use panely.Audit.Encoding.{bytes_eq-path, IsEncodable, preimage-inj}
use panely.Audit.Chain.{head_hash, onto, IsLinked, verify_from-IsLinked}

length-onto : (rs seen : List Record) → length (onto rs seen) ≡ length rs + length seen
length-onto [] seen = omega arith
length-onto (r ∷ rs) seen = omega (arith, length-onto rs (r ∷ seen))

onto-All :
    (rs seen : List Record)
    → All IsEncodable rs
    → All IsEncodable seen
    → All IsEncodable (onto rs seen)
onto-All [] seen h k = k
onto-All (r ∷ rs) seen h k = onto-All rs (r ∷ seen) h.1 (h.0, k)

onto-inj :
    (rs ss seen seen' : List Record)
    → length rs ≡ length ss
    → onto rs seen ≡ onto ss seen'
    → (rs ≡ ss) × (seen ≡ seen')
onto-inj [] [] seen seen' l e = (refl, e)
onto-inj [] (s ∷ ss) seen seen' l e = absurd (omega arith)
onto-inj (r ∷ rs) [] seen seen' l e = absurd (omega arith)
onto-inj (r ∷ rs) (s ∷ ss) seen seen' l e =
    let (p, q) = onto-inj rs ss (r ∷ seen) (s ∷ seen') (omega arith) e in (cc (p, q), cc (q))

module _ (sha256 : Bytes → Bytes) where
  -- Two different texts with one hash.
  pub record Collision : Type 0 where
    pub first : Bytes
    pub second : Bytes
    pub differ : bytes_eq first second ≡ false
    pub meet : sha256 first ≡ sha256 second

  IsLinked-agree :
      (rs ss : List Record)
      → length rs ≡ length ss
      → All IsEncodable rs
      → All IsEncodable ss
      → IsLinked sha256 rs
      → IsLinked sha256 ss
      → head_hash rs ≡ head_hash ss
      → (rs ≡ ss) ⊎ Collision
  IsLinked-agree [] [] l h k p q e = inl refl
  IsLinked-agree [] (s ∷ ss) l h k p q e = absurd (omega arith)
  IsLinked-agree (r ∷ rs) [] l h k p q e = absurd (omega arith)
  IsLinked-agree (r ∷ rs) (s ∷ ss) l h k p q e =
      elim (Bool-cases (bytes_eq (preimage r) (preimage s))) [
        | inr d ↦ inr (record {
          first = preimage r;
          second = preimage s;
          differ = d;
          meet = sym p.2 ∙ e ∙ q.2;
        })
        | inl d ↦
            let same : r ≡ s =
              preimage-inj r s h.0 k.0 (bytes_eq-path (preimage r) (preimage s) d) e in
            let before : head_hash rs ≡ head_hash ss =
              sym p.1 ∙ ap (λ (t : Record). t.prev_hash) same ∙ q.1 in
            elim (IsLinked-agree rs ss (omega arith) h.1 k.1 p.5 q.5 before) [
              | inl more ↦ inl (cc (same, more))
              | inr c ↦ inr c
            ]
      ]

  -- Two chains that `VerifyAll` accepts, of one length and with one head hash, are the same, record by record; or else they
  -- exhibit a collision of SHA-256.
  pub verify_all-agree :
      (rs ss : List Record) {v w : Verifier}
      → length rs + 1 < 2 ^ 64
      → All IsEncodable rs
      → All IsEncodable ss
      → verify_all sha256 rs ≡ ok v
      → verify_all sha256 ss ≡ ok w
      → length rs ≡ length ss
      → v.prev ≡ w.prev
      → (rs ≡ ss) ⊎ Collision
  unfolding verify_all
  verify_all-agree rs ss {v = v} {w = w} small h k p q l e =
      let (linked, at) = verify_from-IsLinked sha256 [] rs (omega arith) tt p in
      let (linked', at') = verify_from-IsLinked sha256 [] ss (omega arith) tt q in
      let heads : head_hash (onto rs []) ≡ head_hash (onto ss []) =
        sym (ap (λ (t : Verifier). t.prev) at) ∙ e ∙ ap (λ (t : Verifier). t.prev) at' in
      elim (IsLinked-agree (onto rs []) (onto ss [])
        (omega (arith, length-onto rs [], length-onto ss [])) (onto-All rs [] h tt)
        (onto-All ss [] k tt) linked linked' heads) [
          | inl same ↦ inl (onto-inj rs ss [] [] l same).0
          | inr c ↦ inr c
        ]
