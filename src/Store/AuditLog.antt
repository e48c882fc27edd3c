-- ===== src/Store/AuditLog.antt =====
-- The table `audit_log` of internal/store/store.go: `AppendAudit`, `AuditHead`, `ListAudit` and `VerifyAuditChain`.
-- The rows stand newest first, in the order of falling numbers that `ORDER BY seq DESC` gives.
use panely.Kit.{
  ℕ, zero, suc, ◌+◌, ◌^◌, Bool, true, false, not, List, [], ◌∷◌, ltb, ◌==◌, if◌then◌else◌, length,
  Result, ok, err,
}
use panely.Audit.Record.{
  Bytes, Record, Verifier, ChainError, genesis_hash, hash_size, is_outcome, is_source, new_verifier,
  seal, verify_from,
}

pub data AuditError : Type 0 where
  no_action : AuditError
  bad_outcome : ℕ → AuditError
  bad_source : ℕ → AuditError
  not_begun : AuditError
  bad_head : ℕ → AuditError
  not_inserted : AuditError
  not_committed : AuditError

-- Whether the transaction of `AppendAudit` begins, its statements run, and it commits.
pub record AppendRuns : Type 0 where
  pub begins : Bool
  pub inserts : Bool
  pub commits : Bool

-- `auditHeadTx`.
unfoldable pub audit_head : List Record → Result AuditError (ℕ × Bytes)
audit_head [] = ok (0, genesis_hash)
audit_head (r ∷ rows) =
    if length r.hash == hash_size then ok (r.seq, r.hash) else err (bad_head (length r.hash))

abbrev pub is_blank : Bytes → Bool
is_blank [] = true
is_blank (x ∷ b) = false

module _ (sha256 : Bytes → Bytes) where
  -- From the head of the chain on. The driver takes no number of 2^63 or more.
  unfoldable pub insert_sealed :
      AppendRuns → Record → ℕ × Bytes → List Record → Result AuditError Record × List Record
  insert_sealed runs rec head rows =
      let sealed = seal sha256 rec (head.0 + 1) head.1 in
      if not runs.inserts
      then (err not_inserted, rows)
      else if not (ltb (head.0 + 1) (2 ^ 63))
      then (err not_inserted, rows)
      else if runs.commits
      then (ok sealed, sealed ∷ rows)
      else (err not_committed, rows)

  -- `AppendAudit`; `no_time` says that the time of the record is Go's zero time, and `now` is the clock.
  unfoldable pub append_audit :
      AppendRuns → Bool → ℕ → Record → List Record → Result AuditError Record × List Record
  unfolding insert_sealed audit_head
  append_audit runs no_time now rec rows =
      let stamped : Record = record rec { ts = if no_time then now else rec.ts } in
      if is_blank rec.action
      then (err no_action, rows)
      else if not (is_outcome rec.outcome)
      then (err (bad_outcome rec.outcome), rows)
      else if not (is_source rec.source)
      then (err (bad_source rec.source), rows)
      else if not runs.begins
      then (err not_begun, rows)
      else elim (audit_head rows) [
        | err e ↦ (err e, rows)
        | ok head ↦ insert_sealed runs stamped head rows
      ]

-- `WHERE seq > ?`, on rows of rising numbers.
unfoldable pub beyond : ℕ → List Record → List Record
beyond after [] = []
beyond after (r ∷ rs) = let rest = beyond after rs in if ltb after r.seq then r ∷ rest else rest

abbrev pub first_rows : ℕ → List Record → List Record
first_rows zero rs = []
first_rows (suc n) [] = []
first_rows (suc n) (r ∷ rs) = r ∷ first_rows n rs

-- The limit that `ListAudit` takes; one that is not positive stands as 0.
abbrev pub audit_limit : ℕ → ℕ
audit_limit limit = if limit == 0 then 100 else if ltb 1000 limit then 1000 else limit

-- `ListAudit`, on rows of rising numbers.
unfoldable pub list_audit : ℕ → ℕ → List Record → List Record
unfolding beyond
list_audit after limit rows = first_rows (audit_limit limit) (beyond after rows)

-- What `VerifyAuditChain` returns: how many records it checked, and why it stopped.
pub data Verdict : Type 0 where
  sound : ℕ → Verdict
  broken : ℕ → ChainError → Verdict
  out_of_fuel : Verdict

abbrev pub last_seq : Record → List Record → ℕ
last_seq r [] = r.seq
last_seq r (s ∷ rs) = last_seq s rs

abbrev pub page_size : ℕ
page_size = 500

module _ (sha256 : Bytes → Bytes) where
  -- The loop of `VerifyAuditChain`, with fuel for the pages.
  unfoldable pub verify_pages : ℕ → Verifier → ℕ → List Record → Verdict
  unfolding list_audit
  verify_pages zero v after rows = out_of_fuel
  verify_pages (suc fuel) v after rows = elim (list_audit after page_size rows) [
    | [] ↦ sound v.count
    | p ∷ page ↦ elim (verify_from sha256 v (p ∷ page)) [
      | err e ↦ broken e.0.count e.1
      | ok v' ↦ verify_pages fuel v' (last_seq p page) rows
    ]
  ]

  -- `VerifyAuditChain`: each page holds a row at least, so there are no more pages than rows.
  unfoldable pub verify_audit_chain : List Record → Verdict
  unfolding verify_pages
  verify_audit_chain rows = verify_pages (suc (length rows)) new_verifier 0 rows
