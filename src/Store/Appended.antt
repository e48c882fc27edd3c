-- ===== src/Store/Appended.antt =====
-- The audit log that calls of `AppendAudit` of internal/store/store.go leave, under `VerifyAuditChain`.
use panely.Kit.{
  ℕ, suc, ◌+◌, ◌<◌, ◌^◌, Bool, true, false, not, List, [], ◌∷◌, ◌++◌, ◌≡◌, refl, ap, ◌∙◌, arith,
  ltb, length, append-nil, Result, Result-cases, ok, err, inl, inr, if◌then◌else◌, Bool-cases,
}
use panely.Audit.Record.{Bytes, Record, verify_all, is_outcome, is_source}
use panely.Audit.Chain.{
  IsLinked, onto, head_hash, verifier_at, seal-IsLinked, verify_from-verifier_at,
}
use panely.Store.AuditLog.{
  AuditError, AppendRuns, audit_head, insert_sealed, append_audit, is_blank, not_inserted,
  not_committed, no_action, bad_outcome, bad_source, not_begun, sound, verify_audit_chain,
}
use panely.Store.Paging.{IsRising, verdict_of, verify_audit_chain-verify_all}

-- A call of `AppendAudit`: what of it runs, whether the record has a time, the clock, and the record.
pub record Call : Type 0 where
  pub runs : AppendRuns
  pub no_time : Bool
  pub now : ℕ
  pub rec : Record

-- The rows by rising numbers, `ORDER BY seq ASC`.
abbrev pub oldest_first : List Record → List Record
oldest_first rows = onto rows []

abbrev pub is_sealed : Result AuditError Record → ℕ
is_sealed (ok r) = 1
is_sealed (err e) = 0

onto-onto : (xs ys zs : List Record) → onto (onto xs ys) zs ≡ onto ys (xs ++ zs)
onto-onto [] ys zs = refl
onto-onto (x ∷ xs) ys zs = onto-onto xs (x ∷ ys) zs

length-onto : (xs ys : List Record) → length (onto xs ys) ≡ length xs + length ys
length-onto [] ys = omega arith
length-onto (x ∷ xs) ys = let e = length-onto xs (x ∷ ys) in omega arith

add_one : (n : ℕ) → n + 1 ≡ suc n
add_one n = omega arith

module _ (sha256 : Bytes → Bytes) where
  abbrev pub append_one : Call → List Record → Result AuditError Record × List Record
  append_one c rows = append_audit sha256 c.runs c.no_time c.now c.rec rows

  -- The rows after some calls, and how many of them were answered by a sealed record.
  abbrev pub append_all : List Call → List Record → ℕ × List Record
  append_all [] rows = (0, rows)
  append_all (c ∷ cs) rows =
      let (r, more) = append_one c rows in
      let (n, after) = append_all cs more in (is_sealed r + n, after)

  audit_head-IsLinked :
      (rows : List Record) (head : ℕ × Bytes)
      → IsLinked sha256 rows
      → audit_head rows ≡ ok head
      → head ≡ (length rows, head_hash rows)
  unfolding audit_head
  audit_head-IsLinked [] head h e = cc
  audit_head-IsLinked (r ∷ rows) head h e = let seq = h.0 in ground arith

  abbrev Grows : List Record → Result AuditError Record × List Record → Type 0
  Grows rows p = IsLinked sha256 p.1 × (length p.1 ≡ is_sealed p.0 + length rows)

  if-Grows :
      (rows : List Record) (b : Bool) (x y : Result AuditError Record × List Record)
      → Grows rows x
      → Grows rows y
      → Grows rows (if b then x else y)
  if-Grows rows true x y p q = p
  if-Grows rows false x y p q = q

  refused : (x : AuditError) (rows : List Record) → IsLinked sha256 rows → Grows rows (err x, rows)
  refused x rows h = (h, omega arith)

  insert_sealed-Grows :
      (runs : AppendRuns) (rec : Record) (rows : List Record)
      → IsLinked sha256 rows
      → is_outcome rec.outcome ≡ true
      → is_source rec.source ≡ true
      → Grows rows (insert_sealed sha256 runs rec (length rows, head_hash rows) rows)
  unfolding insert_sealed
  insert_sealed-Grows runs rec rows h o s =
      if-Grows rows (not runs.inserts) _ _ (refused not_inserted rows h) (
        if-Grows rows (not (ltb (length rows + 1) (2 ^ 63))) _ _ (refused not_inserted rows h) (
          if-Grows rows runs.commits _ _ (seal-IsLinked sha256 rows rec h o s, omega arith)
            (refused not_committed rows h)))

  append_one-Grows :
      (c : Call) (rows : List Record) → IsLinked sha256 rows → Grows rows (append_one c rows)
  unfolding append_audit
  append_one-Grows c rows h =
      let rec = c.rec in
      if-Grows rows (is_blank rec.action) _ _ (refused no_action rows h)
        (elim (Bool-cases (is_outcome rec.outcome)) [
          | inr o ↦ rw o (refused (bad_outcome rec.outcome) rows h)
          | inl o ↦ rw o (elim (Bool-cases (is_source rec.source)) [
            | inr s ↦ rw s (refused (bad_source rec.source) rows h)
            | inl s ↦ rw s (
                if-Grows rows (not c.runs.begins) _ _ (refused not_begun rows h)
                  (elim (Result-cases (audit_head rows)) [
                    | inr (x, e) ↦ rw (e, append_audit) (refused x rows h)
                    | inl (head, e) ↦
                        rw (e, append_audit, audit_head-IsLinked rows head h e)
                          (insert_sealed-Grows c.runs
                            (record rec { ts = if c.no_time then c.now else rec.ts }) rows h o s)
                  ]))
          ])
        ])

  append_all-Grows :
      (cs : List Call) (rows : List Record)
      → IsLinked sha256 rows
      → IsLinked sha256 (append_all cs rows).1
        × (length (append_all cs rows).1 ≡ (append_all cs rows).0 + length rows)
  append_all-Grows [] rows h = (h, omega arith)
  append_all-Grows (c ∷ cs) rows h =
      let (linked, more) = append_one-Grows c rows h in
      let (still, total) = append_all-Grows cs (append_one c rows).1 linked in (still, omega arith)

  onto-IsRising :
      (rows later : List Record)
      → IsLinked sha256 rows
      → IsRising (length rows) later
      → IsRising 0 (onto rows later)
  onto-IsRising [] later h up = up
  onto-IsRising (r ∷ rows) later h up =
      let number = h.0 in
      onto-IsRising rows (r ∷ later) h.5 (omega arith, rw (number ∙ add_one (length rows)) up)

  verify_all-IsLinked :
      (rows : List Record)
      → length rows + 1 < 2 ^ 64
      → IsLinked sha256 rows
      → verify_all sha256 (oldest_first rows) ≡ ok (verifier_at sha256 rows)
  unfolding verify_all
  verify_all-IsLinked rows small h =
      let back : onto (oldest_first rows) [] ≡ rows = onto-onto rows [] [] ∙ append-nil rows in
      let size : length (oldest_first rows) ≡ length rows =
        (let e = length-onto rows [] in omega arith) in
      verify_from-verifier_at sha256 [] (oldest_first rows) (omega arith) (rw back h)
      ∙ ap (λ rs. ok (verifier_at sha256 rs)) back

  -- Whatever is appended to the empty log, and whatever fails, `VerifyAuditChain` accepts the log, and counts as many
  -- records as there were calls of `AppendAudit` that answered with a sealed one, if these are fewer than 2^64 - 1.
  pub append_all-sound :
      (cs : List Call)
      → (append_all cs []).0 + 1 < 2 ^ 64
      → verify_audit_chain sha256 (oldest_first (append_all cs []).1) ≡ sound (append_all cs []).0
  append_all-sound cs small =
      let rows = (append_all cs []).1 in
      let (linked, size) = append_all-Grows cs [] tt in
      let all : length rows ≡ (append_all cs []).0 = omega arith in
      verify_audit_chain-verify_all sha256 (oldest_first rows) (onto-IsRising rows [] linked tt)
      ∙ ap verdict_of (verify_all-IsLinked rows (omega arith) linked)
      ∙ ap sound all
