-- ===== src/Connproto/Wire.antt =====
-- The preamble of internal/connproto/identity.go across a connection.
use panely.Kit.{
  inl, inr, Option-cases, ℕ, zero, suc, ◌≡◌, ◌≤◌, ◌<◌, ap, ◌/◌, ◌%◌, ◌^◌, refl, Option, some, List,
  [], ◌∷◌, ◌++◌, arith, length, Result, ok, err,
}
use panely.Connproto.Role.{Identity}
use panely.Connproto.Preamble.{
  Codec, WireError, max_preamble_size, packet, write, read, read_body, read_full, with_origin,
  uint32,
}

read_full-append : (xs rest : List ℕ) → read_full (length xs) (xs ++ rest) ≡ some (xs, rest)
unfolding read_full
read_full-append [] rest = refl
read_full-append (x ∷ xs) rest = ground (arith, read_full-append xs rest)

length-read_full :
    (n : ℕ) (s : List ℕ) {xs rest : List ℕ}
    → read_full n s ≡ some (xs, rest)
    → (length xs ≡ n) × (s ≡ xs ++ rest)
unfolding read_full
length-read_full zero s h = ground arith
length-read_full (suc n) [] h = cc
length-read_full (suc n) (x ∷ s) h = elim (Option-cases (read_full n s)) [
  | inl e ↦ ground arith
  | inr (r, e) ↦ ground (arith, length-read_full n s {xs = r.0} {rest = r.1} e)
]

uint32-put :
    (n : ℕ)
    → n ≤ max_preamble_size
    → uint32 (n / 2 ^ 24 % 256) (n / 2 ^ 16 % 256) (n / 2 ^ 8 % 256) (n % 256) ≡ n
uint32-put n h = omega arith

module _ (codec : Codec) where
  read_body-append :
      (id : Identity) (body rest : List ℕ)
      → codec.marshal id ≡ some body
      → length body ≤ max_preamble_size
      → read_body codec (length body) (body ++ rest) ≡ ok (with_origin id, rest)
  unfolding read_body
  read_body-append id body rest e h = ground (
    arith,
    read_full-append body rest,
    codec.unmarshal-marshal id body e,
    codec.marshal_nonempty id body e,
  )

  packet-read :
      (id : Identity) (rest : List ℕ) {p : List ℕ}
      → packet codec id ≡ ok p
      → read codec (p ++ rest) ≡ ok (with_origin id, rest)
  unfolding packet read
  packet-read id rest h = elim (Option-cases (codec.marshal id)) [
    | inl e ↦ ground arith
    | inr (body, e) ↦ ground (arith, uint32-put (length body), read_body-append id body rest e)
  ]

  -- A body of the length announced, which is neither empty nor too long, and which stands for this identity.
  abbrev pub IsBody : ℕ → List ℕ → Identity → Type 0
  IsBody n body id =
      (length body ≡ n)
      × (0 < n)
      × (n ≤ max_preamble_size)
      × ((found : Identity) × (codec.unmarshal body ≡ some found) × (id ≡ with_origin found))

  read_body-consumes :
      (n : ℕ) (s : List ℕ) {id : Identity} {rest : List ℕ}
      → read_body codec n s ≡ ok (id, rest)
      → (body : List ℕ) × (s ≡ body ++ rest) × IsBody n body id
  unfolding read_body
  read_body-consumes n s {id = id} {rest = rest} h = elim (Option-cases (read_full n s)) [
    | inl e ↦ absurd (ground arith)
    | inr ((body, left), e) ↦ elim (Option-cases (codec.unmarshal body)) [
      | inl u ↦ absurd (ground arith)
      | inr (found, u) ↦
          let (len, whole) = length-read_full n s e in
          let size : length body ≡ n = ground (arith, len) in
          (
            body,
            ground (arith, whole),
            (size, ground arith, ground arith, (found, u, ground arith)),
          )
    ]
  ]

  -- A successful `Read` takes from the connection the four bytes of the header and the body, which has the length
  -- that the header announces, at least 1 and at most 4096 bytes; it returns the identity that
  -- the body stands for, an empty origin as "unknown", and exactly the bytes that follow.
  pub read-consumes :
      (s : List ℕ) {id : Identity} {rest : List ℕ}
      → read codec s ≡ ok (id, rest)
      → (a : ℕ) × (b : ℕ) × (c : ℕ) × (d : ℕ) × (body : List ℕ) × (s ≡ a ∷ b ∷ c ∷ d ∷ body ++ rest)
        × IsBody (uint32 a b c d) body id
  unfolding read
  read-consumes [] h = cc
  read-consumes (a ∷ []) h = cc
  read-consumes (a ∷ b ∷ []) h = cc
  read-consumes (a ∷ b ∷ c ∷ []) h = cc
  read-consumes (a ∷ b ∷ c ∷ d ∷ s) h =
      let (body, split, is_body) = read_body-consumes (uint32 a b c d) s h in
      (a, b, c, d, body, ap (λ (l : List ℕ). a ∷ b ∷ c ∷ d ∷ l) split, is_body)

  -- If `Write` succeeds, it has handed its writer one packet, and `Read` on a connection that begins with
  -- that packet returns the identity, its empty origin read as "unknown", and exactly the
  -- bytes that follow.
  pub write-read :
      {W : Type 0} (put : List ℕ → W → Option W) (id : Identity) (w w' : W)
      → write codec put id w ≡ ok w'
      → (p : List ℕ) × (put p w ≡ some w')
        × ((rest : List ℕ) → read codec (p ++ rest) ≡ ok (with_origin id, rest))
  unfolding write
  write-read put id w w' h = go (packet codec id) refl
    where
      go :
          (r : Result WireError (List ℕ))
          → packet codec id ≡ r
          → (p : List ℕ) × (put p w ≡ some w')
            × ((rest : List ℕ) → read codec (p ++ rest) ≡ ok (with_origin id, rest))
      go (err x) e = absurd (ground arith)
      go (ok p) e = (p, ground arith, λ rest. packet-read id rest e)
