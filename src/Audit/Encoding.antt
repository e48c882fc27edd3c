-- ===== src/Audit/Encoding.antt =====
-- The encoding of internal/audit/audit.go keeps apart what differs: two records with the same bytes are the same record.
use panely.Kit.{
  ◌∙◌, sym, ℕ, ◌+◌, ◌*◌, ◌/◌, ◌%◌, ◌^◌, ◌≡◌, ◌<◌, refl, true, [], ◌∷◌, ◌++◌, arith, length,
}
use panely.Audit.Record.{Bytes, bytes_eq, Record, put_uint64, write_uint, write_str, preimage}

pub bytes_eq-path : (a b : Bytes) → bytes_eq a b ≡ true → a ≡ b
bytes_eq-path [] [] h = refl
bytes_eq-path [] (b ∷ bs) h = absurd cc
bytes_eq-path (a ∷ s) [] h = absurd cc
bytes_eq-path (a ∷ s) (b ∷ t) h = ground (arith, bytes_eq-path s t)

pub bytes_eq_refl : (a : Bytes) → bytes_eq a a ≡ true
bytes_eq_refl [] = refl
bytes_eq_refl (a ∷ s) = ground (arith, bytes_eq_refl s)

append-inj : (a b x y : Bytes) → length a ≡ length b → a ++ x ≡ b ++ y → (a ≡ b) × (x ≡ y)
append-inj [] [] x y l e = (refl, e)
append-inj [] (b ∷ bs) x y l e = absurd (omega arith)
append-inj (a ∷ s) [] x y l e = absurd (omega arith)
append-inj (a ∷ s) (b ∷ t) x y l e = let (p, q) = append-inj s t x y (omega arith) cc in (cc (p), q)

-- The number that eight bytes stand for.
abbrev value : ℕ → ℕ → ℕ → ℕ → ℕ → ℕ → ℕ → ℕ → ℕ
value a b c d e f g h =
    a * 2 ^ 56 + b * 2 ^ 48 + c * 2 ^ 40 + d * 2 ^ 32 + e * 2 ^ 24 + f * 2 ^ 16 + g * 2 ^ 8 + h

value-put_uint64 :
    (v : ℕ)
    → v < 2 ^ 64
    → value
        (v / 2 ^ 56 % 256)
        (v / 2 ^ 48 % 256)
        (v / 2 ^ 40 % 256)
        (v / 2 ^ 32 % 256)
        (v / 2 ^ 24 % 256)
        (v / 2 ^ 16 % 256)
        (v / 2 ^ 8 % 256)
        (v % 256)
      ≡ v
value-put_uint64 v h = omega arith

-- What stands for a 64-bit number, and a text whose length is one.
abbrev pub IsWord : ℕ → Type 0
IsWord v = v < 2 ^ 64

abbrev pub IsText : Bytes → Type 0
IsText s = IsWord (length s)

write_uint-inj :
    (v w : ℕ) (x y : Bytes)
    → IsWord v
    → IsWord w
    → write_uint v x ≡ write_uint w y
    → (v ≡ w) × (x ≡ y)
unfolding write_uint
write_uint-inj v w x y hv hw e =
    let (p, q) = append-inj (put_uint64 v) (put_uint64 w) x y refl e in
    (sym (value-put_uint64 v hv) ∙ (cc (p)) ∙ value-put_uint64 w hw, q)

write_str-inj :
    (s t x y : Bytes) → IsText s → IsText t → write_str s x ≡ write_str t y → (s ≡ t) × (x ≡ y)
unfolding write_str
write_str-inj s t x y hs ht e =
    let (l, rest) = write_uint-inj (length s) (length t) (s ++ x) (t ++ y) hs ht e in
    append-inj s t x y l rest

-- A record as Go can hold it: its numbers fit 64 bits, and so do the lengths of its texts.
pub record IsEncodable (r : Record) : Type 0 where
  pub seq : IsWord r.seq
  pub ts : IsWord r.ts
  pub fingerprint : IsText r.actor.key_fingerprint
  pub ip : IsText r.actor.source_ip
  pub label : IsText r.actor.label
  pub origin : IsText r.actor.origin
  pub action : IsText r.action
  pub target : IsText r.target
  pub params : IsText r.params_json
  pub outcome : IsWord r.outcome
  pub detail : IsText r.detail
  pub source : IsWord r.source

pub preimage-inj :
    (r s : Record)
    → IsEncodable r
    → IsEncodable s
    → preimage r ≡ preimage s
    → r.hash ≡ s.hash
    → r ≡ s
unfolding preimage
preimage-inj r s h k e same =
    let (a, e) = write_uint-inj r.seq s.seq _ _ h.seq k.seq e in
    let (b, e) = write_uint-inj r.ts s.ts _ _ h.ts k.ts e in
    let (c, e) =
      write_str-inj r.actor.key_fingerprint s.actor.key_fingerprint _ _ h.fingerprint k.fingerprint
        e in
    let (d, e) = write_str-inj r.actor.source_ip s.actor.source_ip _ _ h.ip k.ip e in
    let (f, e) = write_str-inj r.actor.label s.actor.label _ _ h.label k.label e in
    let (g, e) = write_str-inj r.actor.origin s.actor.origin _ _ h.origin k.origin e in
    let (i, e) = write_str-inj r.action s.action _ _ h.action k.action e in
    let (j, e) = write_str-inj r.target s.target _ _ h.target k.target e in
    let (l, e) = write_str-inj r.params_json s.params_json _ _ h.params k.params e in
    let (m, e) = write_uint-inj r.outcome s.outcome _ _ h.outcome k.outcome e in
    let (n, e) = write_str-inj r.detail s.detail _ _ h.detail k.detail e in
    let (o, p) = write_uint-inj r.source s.source r.prev_hash s.prev_hash h.source k.source e in
    ground arith
