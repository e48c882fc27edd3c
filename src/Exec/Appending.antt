-- ===== src/Exec/Appending.antt =====
-- `Append` of internal/exec/journal.go, followed by a restart.
use panely.Kit.{
  ap, ◌∙◌, ℕ, suc, ◌+◌, ◌^◌, ◌≡◌, ◌≢◌, ◌<◌, ◌≤◌, refl, true, Option, some, List, [], ◌∷◌, ◌++◌,
  arith, length, Bool-cases, Option-cases, inl, inr, Result, ok,
}
use panely.Audit.Record.{Bytes, Record, new_verifier, hash_size, source_executor, is_outcome, seal}
use panely.Audit.Chain.{head_hash, IsLinked, verifier_at, seal-IsLinked}
use panely.Exec.Journal.{
  LineCodec, JournalError, Writing, refused, unsynced, written, Journal, encode_line, is_empty,
  load_lines, open_journal, stamp, sealed_record, store_line, append,
}
use panely.Exec.Reopening.{
  IsFit, at_seen, Stands, open_journal-Stands, Stands-open_journal, load_lines-append,
  load_line-seal,
}

-- A call of `Append`, with what becomes of its write and with the clock.
pub record Op : Type 0 where
  pub writing : Writing
  pub now : ℕ
  pub at : Option ℕ
  pub rec : Record

plus_zero : (n : ℕ) → n + 0 ≡ n
plus_zero n = omega arith

plus_suc : (n m : ℕ) → n + suc m ≡ n + 1 + m
plus_suc n m = omega arith

module _ (codec : LineCodec) (sha256 : Bytes → Bytes) where
  abbrev pub apply : Op → Journal → List Bytes → Result JournalError Record × Journal × List Bytes
  apply op j lines = append codec sha256 op.writing op.now op.at op.rec j lines

  -- The journal and the file after some calls.
  abbrev pub run : List Op → Journal → List Bytes → Journal × List Bytes
  run [] j lines = (j, lines)
  run (op ∷ ops) j lines = run ops (apply op j lines).1 (apply op j lines).2

  -- What a call writes is fit to be read, and no write is left half way.
  abbrev pub IsClean : Op → Journal → Type 0
  IsClean op j =
      (op.writing ≢ unsynced) × IsFit codec (sealed_record codec sha256 op.now op.at op.rec j)

  abbrev pub AllClean : List Op → Journal → List Bytes → Type 0
  AllClean [] j lines = Unit
  AllClean (op ∷ ops) j lines =
      IsClean op j × AllClean ops (apply op j lines).1 (apply op j lines).2

  module _ (digest : (b : Bytes) → length (sha256 b) ≡ hash_size) where
    -- The record that a call seals on these records.
    abbrev pub sealed_on : Op → List Record → Record
    sealed_on op seen = sealed_record codec sha256 op.now op.at op.rec (at_seen codec sha256 seen)

    -- The same, where the number does not wrap.
    abbrev pub plain_on : Op → List Record → Record
    plain_on op seen =
        seal sha256
          (record op.rec { source = source_executor; ts = stamp codec sha256 op.now op.at })
          (length seen + 1) (head_hash seen)

    pub sealed_on-plain_on :
        (op : Op) (seen : List Record)
        → length seen + 1 < 2 ^ 64
        → sealed_on op seen ≡ plain_on op seen
    sealed_on-plain_on op seen small =
        ap
          (λ (n : ℕ).
            seal sha256
              (record op.rec { source = source_executor; ts = stamp codec sha256 op.now op.at }) n
              (head_hash seen))
          (omega arith)

    -- A line that a call has written is the next of the chain.
    pub written-loaded :
        (op : Op) (seen : List Record) (lines : List Bytes) (b : Bytes)
        → length seen + 2 < 2 ^ 64
        → IsLinked sha256 seen
        → load_lines codec sha256 new_verifier lines ≡ ok (verifier_at sha256 seen)
        → is_outcome op.rec.outcome ≡ true
        → IsFit codec (sealed_on op seen)
        → encode_line codec (sealed_on op seen) ≡ some b
        → IsLinked sha256 (sealed_on op seen ∷ seen)
          × (load_lines codec sha256 new_verifier (lines ++ b ∷ [])
              ≡ ok (verifier_at sha256 (sealed_on op seen ∷ seen)))
    written-loaded op seen lines b small h loaded o fit e =
        let same = sealed_on-plain_on op seen (omega arith) in
        rw same (
          seal-IsLinked sha256 seen
              (record op.rec { source = source_executor; ts = stamp codec sha256 op.now op.at }) h o
              refl,
          load_lines-append codec sha256 new_verifier lines (b ∷ []) loaded
              ∙ load_line-seal codec sha256 digest seen
                  (record op.rec { source = source_executor; ts = stamp codec sha256 op.now op.at })
                  b small h o refl (rw same at fit) (rw same at e),
        )

    module _ (op : Op) (seen : List Record) (lines : List Bytes) (n : ℕ) (few : length seen ≤ n)
        (small : n + 2 < 2 ^ 64) (h : IsLinked sha256 seen)
        (loaded : load_lines codec sha256 new_verifier lines ≡ ok (verifier_at sha256 seen)) where
      -- The journal before the call.
      abbrev before : Journal
      before = at_seen codec sha256 seen

      stays : Stands codec sha256 before lines (n + 1)
      stays = record { seen = seen; linked = h; few = omega arith; loaded = loaded; same = refl }

      number :
          (sealed_on op seen).seq ≡ length seen + 1
          → ◌≡◌ {A = Journal}
              (record { head = (sealed_on op seen).hash; seq = (sealed_on op seen).seq })
              (at_seen codec sha256 (sealed_on op seen ∷ seen))
      number e =
          ap (λ (k : ℕ). record { head = (sealed_on op seen).hash; seq = k }) (omega (arith, e))

      store_line-Stands :
          (w : Writing) (b : Bytes)
          → w ≢ unsynced
          → is_outcome op.rec.outcome ≡ true
          → IsFit codec (sealed_on op seen)
          → encode_line codec (sealed_on op seen) ≡ some b
          → let (r, j', lines') = store_line codec sha256 w (sealed_on op seen) b before lines in
            Stands codec sha256 j' lines' (n + 1)
      store_line-Stands refused b ne o fit e = stays
      store_line-Stands unsynced b ne o fit e = absurd (ne refl)
      store_line-Stands written b ne o fit e =
          let (linked, next_loaded) =
            written-loaded op seen lines b (omega arith) h loaded o fit e in
          record {
            seen = sealed_on op seen ∷ seen;
            linked = linked;
            few = omega arith;
            loaded = next_loaded;
            same = number linked.0;
          }

      apply_at-Stands :
          IsClean op before
          → let (r, j', lines') = apply op before lines in Stands codec sha256 j' lines' (n + 1)
      unfolding append
      apply_at-Stands clean = elim (Bool-cases (is_empty op.rec.action)) [
        | inl a ↦ rw a stays
        | inr a ↦ elim (Bool-cases (is_outcome op.rec.outcome)) [
          | inr o ↦ rw (a, o) stays
          | inl o ↦ elim (Option-cases (encode_line codec (sealed_on op seen))) [
            | inl e ↦ rw (a, o) (rw (e, append) stays)
            | inr (b, e) ↦
                rw (a, o) (rw (e, append) (store_line-Stands op.writing b clean.0 o clean.1 e))
          ]
        ]
      ]

    apply-Stands :
        (op : Op) (j : Journal) (lines : List Bytes) (n : ℕ)
        → n + 2 < 2 ^ 64
        → Stands codec sha256 j lines n
        → IsClean op j
        → let (r, j', lines') = apply op j lines in Stands codec sha256 j' lines' (n + 1)
    apply-Stands op j lines n small s clean =
        rw s.same
          (apply_at-Stands op s.seen lines n s.few small s.linked s.loaded (rw s.same at clean))

    run-Stands :
        (ops : List Op) (j : Journal) (lines : List Bytes) (n : ℕ)
        → n + length ops + 2 < 2 ^ 64
        → Stands codec sha256 j lines n
        → AllClean ops j lines
        → let (j', lines') = run ops j lines in Stands codec sha256 j' lines' (n + length ops)
    run-Stands [] j lines n small s clean = rw (plus_zero n) s
    run-Stands (op ∷ ops) j lines n small s clean =
        let (r, j', lines') = apply op j lines in
        rw (plus_suc n (length ops)) (
          run-Stands ops j' lines' (n + 1) (omega arith)
            (apply-Stands op j lines n (omega arith) s clean.0) clean.1)

    -- Opened on a file, after any calls of `Append` each of which seals a record of valid UTF-8 texts, whose line, where it
    -- has one, is below 4 MiB, and each of which is written and synced, or leaves nothing in the file: opening the
    -- file again succeeds, and finds the journal at the very head and number it had. The file and the calls
    -- together are fewer than 2^64 - 2.
    pub run-open_journal :
        (ops : List Op) (j : Journal) (lines : List Bytes)
        → length lines + length ops + 2 < 2 ^ 64
        → open_journal codec sha256 lines ≡ ok j
        → AllClean ops j lines
        → let (j', lines') = run ops j lines in open_journal codec sha256 lines' ≡ ok j'
    run-open_journal ops j lines small e clean =
        let s = open_journal-Stands codec sha256 lines (omega arith) e in
        let (j', lines') = run ops j lines in
        Stands-open_journal codec sha256 j' lines' (length lines + length ops) (omega arith)
          (run-Stands ops j lines (length lines) small s clean)
