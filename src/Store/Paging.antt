-- ===== src/Store/Paging.antt =====
-- The pages of `VerifyAuditChain` of internal/store/store.go, and `VerifyAll` on all rows at once.
use panely.Kit.{
  ℕ, zero, suc, ◌<◌, ◌≤◌, List, [], ◌∷◌, ◌++◌, ◌≡◌, refl, sym, ap, ◌∙◌, arith, length, Result,
  Result-cases, ok, err, inl, inr,
}
use panely.Audit.Record.{
  Bytes, Record, Verifier, ChainError, new_verifier, next, verify_from, verify_all,
}
use panely.Store.AuditLog.{
  beyond, first_rows, list_audit, Verdict, sound, broken, last_seq, verify_pages,
  verify_audit_chain, page_size,
}

-- The numbers of the rows rise, from beyond `after` on: `seq` is the key of the table, and the query sorts by it.
abbrev pub IsRising : ℕ → List Record → Type 0
IsRising after [] = Unit
IsRising after (r ∷ rs) = (after < r.seq) × IsRising r.seq rs

abbrev pub rest_rows : ℕ → List Record → List Record
rest_rows zero rs = rs
rest_rows (suc n) [] = []
rest_rows (suc n) (r ∷ rs) = rest_rows n rs

first-rest : (n : ℕ) (rs : List Record) → first_rows n rs ++ rest_rows n rs ≡ rs
first-rest zero rs = refl
first-rest (suc n) [] = refl
first-rest (suc n) (r ∷ rs) = ap (λ t. r ∷ t) (first-rest n rs)

IsRising-weaken : (a b : ℕ) (rs : List Record) → a ≤ b → IsRising b rs → IsRising a rs
IsRising-weaken a b [] le h = tt
IsRising-weaken a b (r ∷ rs) le h = let lt = h.0 in (omega arith, h.1)

beyond-IsRising : (a : ℕ) (rs : List Record) → IsRising a rs → beyond a rs ≡ rs
unfolding beyond
beyond-IsRising a [] h = refl
beyond-IsRising a (r ∷ rs) h =
    let lt = h.0 in
    ground (arith, beyond-IsRising a rs (IsRising-weaken a r.seq rs (omega arith) h.1))

-- Looking beyond a later number in what is beyond an earlier one.
beyond-beyond : (a b : ℕ) (rs : List Record) → a ≤ b → beyond b (beyond a rs) ≡ beyond b rs
unfolding beyond
beyond-beyond a b [] le = refl
beyond-beyond a b (r ∷ rs) le = ground (arith, beyond-beyond a b rs le)

last_seq-rises :
    (a n : ℕ) (p : Record) (rs : List Record)
    → IsRising a (p ∷ rs)
    → a < last_seq p (first_rows n rs)
last_seq-rises a zero p rs h = h.0
last_seq-rises a (suc n) p [] h = h.0
last_seq-rises a (suc n) p (r ∷ rs) h =
    let lt = h.0 in let more = last_seq-rises p.seq n r rs h.1 in omega arith

-- What is beyond a page is what follows it.
beyond-page :
    (a n : ℕ) (p : Record) (rs : List Record)
    → IsRising a (p ∷ rs)
    → beyond (last_seq p (first_rows n rs)) (p ∷ rs) ≡ rest_rows n rs
unfolding beyond
beyond-page a zero p rs h = ground (arith, beyond-IsRising p.seq rs h.1)
beyond-page a (suc n) p [] h = ground arith
beyond-page a (suc n) p (r ∷ rs) h =
    let more = last_seq-rises p.seq n r rs h.1 in ground (arith, beyond-page p.seq n r rs h.1)

IsRising-rest :
    (a n : ℕ) (p : Record) (rs : List Record)
    → IsRising a (p ∷ rs)
    → IsRising (last_seq p (first_rows n rs)) (rest_rows n rs)
IsRising-rest a zero p rs h = h.1
IsRising-rest a (suc n) p [] h = tt
IsRising-rest a (suc n) p (r ∷ rs) h = IsRising-rest p.seq n r rs h.1

length-rest : (n : ℕ) (rs : List Record) → length (rest_rows n rs) ≤ length rs
length-rest zero rs = omega arith
length-rest (suc n) [] = omega arith
length-rest (suc n) (r ∷ rs) = let h = length-rest n rs in omega arith

abbrev pub verdict_of : Result (Verifier × ChainError) Verifier → Verdict
verdict_of (ok v) = sound v.count
verdict_of (err e) = broken e.0.count e.1

abbrev pub then_on {ℓ κ μ} :
    {E : Type ℓ} {A : Type κ} {B : Type μ} → Result E A → (A → Result E B) → Result E B
then_on (ok a) f = f a
then_on (err e) f = err e

module _ (sha256 : Bytes → Bytes) where
  verify_from-append :
      (v : Verifier) (rs ss : List Record)
      → verify_from sha256 v (rs ++ ss)
        ≡ then_on (verify_from sha256 v rs) (λ v'. verify_from sha256 v' ss)
  unfolding verify_from
  verify_from-append v [] ss = refl
  verify_from-append v (r ∷ rs) ss = elim (Result-cases (next sha256 v r)) [
    | inl (v', e) ↦ rw (e, verify_from) (verify_from-append v' rs ss)
    | inr (x, e) ↦ rw (e, verify_from) refl
  ]

  list_audit-page :
      (a : ℕ) (p : Record) (t rows : List Record)
      → beyond a rows ≡ p ∷ t
      → list_audit a page_size rows ≡ p ∷ first_rows 499 t
  unfolding list_audit
  list_audit-page a p t rows e = rw e refl

  list_audit-end :
      (a : ℕ) (rows : List Record) → beyond a rows ≡ [] → list_audit a page_size rows ≡ []
  unfolding list_audit
  list_audit-end a rows e = rw e refl

  verify_from-page :
      (v : Verifier) (n : ℕ) (p : Record) (t : List Record)
      → verify_from sha256 v (p ∷ t)
        ≡ then_on
            (verify_from sha256 v (p ∷ first_rows n t))
            (λ v'. verify_from sha256 v' (rest_rows n t))
  verify_from-page v n p t =
      ap (λ rs. verify_from sha256 v (p ∷ rs)) (sym (first-rest n t))
      ∙ verify_from-append v (p ∷ first_rows n t) (rest_rows n t)

  verify_pages-verify_from :
      (fuel : ℕ) (v : Verifier) (a : ℕ) (rows todo : List Record)
      → beyond a rows ≡ todo
      → IsRising a todo
      → length todo < fuel
      → verify_pages sha256 fuel v a rows ≡ verdict_of (verify_from sha256 v todo)
  unfolding verify_pages
  verify_pages-verify_from zero v a rows todo e h less = absurd (omega arith)
  verify_pages-verify_from (suc fuel) v a rows [] e h less =
      unfold verify_from in rw (list_audit-end a rows e, verify_pages) refl
  verify_pages-verify_from (suc fuel) v a rows (p ∷ t) e h less =
      let page = first_rows 499 t in
      let rest = rest_rows 499 t in
      let last = last_seq p page in
      let above : a ≤ last = (let lt = last_seq-rises a 499 p t h in omega arith) in
      let next_page : beyond last rows ≡ rest =
        sym (beyond-beyond a last rows above) ∙ ap (beyond last) e ∙ beyond-page a 499 p t h in
      let fewer : length rest < fuel = (let le = length-rest 499 t in omega arith) in
      elim (Result-cases (verify_from sha256 v (p ∷ page))) [
        | inl (v', f) ↦
            rw (list_audit-page a p t rows e, verify_pages, f)
              (verify_pages-verify_from fuel v' last rows rest next_page (IsRising-rest a 499 p t h)
                  fewer
                ∙ ap verdict_of (
                    sym (
                      verify_from-page v 499 p t
                      ∙ ap (λ r. then_on r (λ w. verify_from sha256 w rest)) f)))
        | inr (x, f) ↦
            rw (list_audit-page a p t rows e, verify_pages, f)
              (ap verdict_of (
                sym (
                  verify_from-page v 499 p t
                  ∙ ap (λ r. then_on r (λ w. verify_from sha256 w rest)) f)))
      ]

  pub verify_audit_chain-verify_all :
      (rows : List Record)
      → IsRising 0 rows
      → verify_audit_chain sha256 rows ≡ verdict_of (verify_all sha256 rows)
  unfolding verify_audit_chain verify_all
  verify_audit_chain-verify_all rows h =
      verify_pages-verify_from (suc (length rows)) new_verifier 0 rows rows
        (beyond-IsRising 0 rows h) h (omega arith)
