-- ===== src/Exec/Unsynced.antt =====
-- `Append` of internal/exec/journal.go after a line was written and `Sync` failed: the line stays in the file, and the
-- journal in memory does not know of it.
use panely.Kit.{
  ap, ◌∙◌, sym, ℕ, ◌+◌, ◌^◌, ◌≡◌, ◌≢◌, ◌<◌, refl, true, false, some, List, [], ◌∷◌, ◌++◌, arith,
  leb, ◌==◌, length, Bool-cases, Option-cases, inl, inr, Result, Result-cases, ok, err,
}
use panely.Audit.Record.{
  Bytes, Record, Verifier, new_verifier, sequence_gap, hash_size, is_outcome, preimage, seal, next,
}
use panely.Audit.Chain.{IsLinked, verifier_at}
use panely.Exec.Journal.{
  LineCodec, JournalError, no_action, invalid_outcome, not_encoded, not_synced, Writing, refused,
  unsynced, written, not_verified, Journal, encode_line, decode_line, is_empty, max_line,
  verify_next, load_line, load_lines, open_journal, sealed_record, store_line, append,
}
use panely.Exec.Reopening.{
  IsFit, open_journal-Stands, load_lines-append, decode_line-encode_line, encode_line-is_empty,
  length-head_hash,
}
use panely.Exec.Appending.{Op, apply, sealed_on, written-loaded}

err-inj : {x y : JournalError} → ◌≡◌ {A = Result JournalError Record} (err x) (err y) → x ≡ y
err-inj e = cc

sequence_gap_ap :
    {n n' m m' : ℕ}
    → n ≡ n'
    → m ≡ m'
    → ◌≡◌ {A = Result JournalError Verifier}
        (err (not_verified (sequence_gap n m)))
        (err (not_verified (sequence_gap n' m')))
sequence_gap_ap p q = cc (p, q)

module _ (codec : LineCodec) (sha256 : Bytes → Bytes) where
  -- A call that left its line in the file.
  record Left (op : Op) (j : Journal) (lines lines' : List Bytes) : Type 0 where
    line : Bytes
    outcome : is_outcome op.rec.outcome ≡ true
    encoded : encode_line codec (sealed_record codec sha256 op.now op.at op.rec j) ≡ some line
    added : lines' ≡ lines ++ line ∷ []

  store_line-not_synced :
      (w : Writing) (r : Record) (b : Bytes) (j : Journal) (lines : List Bytes)
      → (store_line codec sha256 w r b j lines).0 ≡ err not_synced
      → ((store_line codec sha256 w r b j lines).1 ≡ j)
        × ((store_line codec sha256 w r b j lines).2 ≡ lines ++ b ∷ [])
  store_line-not_synced refused r b j lines e = absurd (ground arith)
  store_line-not_synced unsynced r b j lines e = (refl, refl)
  store_line-not_synced written r b j lines e = absurd (ground arith)

  store_line-ok :
      (w : Writing) (r s : Record) (b : Bytes) (j : Journal) (lines : List Bytes)
      → (store_line codec sha256 w r b j lines).0 ≡ ok s
      → (store_line codec sha256 w r b j lines).2 ≡ lines ++ b ∷ []
  store_line-ok refused r s b j lines e = absurd (ground arith)
  store_line-ok unsynced r s b j lines e = absurd (ground arith)
  store_line-ok written r s b j lines e = refl

  append-store_line :
      (op : Op) (j : Journal) (lines : List Bytes) (b : Bytes)
      → is_empty op.rec.action ≡ false
      → is_outcome op.rec.outcome ≡ true
      → encode_line codec (sealed_record codec sha256 op.now op.at op.rec j) ≡ some b
      → apply codec sha256 op j lines
        ≡ store_line codec sha256 op.writing
            (sealed_record codec sha256 op.now op.at op.rec j)
            b
            j
            lines
  unfolding append
  append-store_line op j lines b a o e = rw (a, o) (rw (e, append) refl)

  -- Either a call stops before its write, with an error of its own, or it writes a line.
  data Course (op : Op) (j : Journal) (lines : List Bytes) : Type 0 where
    stopped :
        (x : JournalError)
        → (apply codec sha256 op j lines).0 ≡ err x
        → x ≢ not_synced
        → Course op j lines
    tried :
        (b : Bytes)
        → is_outcome op.rec.outcome ≡ true
        → encode_line codec (sealed_record codec sha256 op.now op.at op.rec j) ≡ some b
        → apply codec sha256 op j lines
          ≡ store_line codec sha256 op.writing
              (sealed_record codec sha256 op.now op.at op.rec j)
              b
              j
              lines
        → Course op j lines

  append-Course : (op : Op) (j : Journal) (lines : List Bytes) → Course op j lines
  unfolding append
  append-Course op j lines = elim (Bool-cases (is_empty op.rec.action)) [
    | inl a ↦ stopped no_action (rw a refl) (λ e. cc (e))
    | inr a ↦ elim (Bool-cases (is_outcome op.rec.outcome)) [
      | inr o ↦ stopped (invalid_outcome op.rec.outcome) (rw (a, o) refl) (λ e. cc (e))
      | inl o ↦
          elim (Option-cases
            (encode_line codec (sealed_record codec sha256 op.now op.at op.rec j))) [
              | inl q ↦ stopped not_encoded (rw (a, o) (rw (q, append) refl)) (λ e. cc (e))
              | inr (b, q) ↦ tried b o q (append-store_line op j lines b a o q)
            ]
    ]
  ]

  append-not_synced :
      (op : Op) (j : Journal) (lines : List Bytes)
      → (apply codec sha256 op j lines).0 ≡ err not_synced
      → Left op j lines (apply codec sha256 op j lines).2 × ((apply codec sha256 op j lines).1 ≡ j)
  append-not_synced op j lines e = elim (append-Course op j lines) [
    | stopped x q ne ↦ absurd (ne (err-inj (sym q ∙ e)))
    | tried b o q at ↦
        let (same, added) =
          store_line-not_synced op.writing (sealed_record codec sha256 op.now op.at op.rec j) b j
            lines (rw at at e) in
        (
          record {
            line = b;
            outcome = o;
            encoded = q;
            added = ap (λ (t : Result JournalError Record × Journal × List Bytes). t.2) at ∙ added;
          },
          ap (λ (t : Result JournalError Record × Journal × List Bytes). t.1) at ∙ same,
        )
  ]

  append-ok :
      (op : Op) (j : Journal) (lines : List Bytes) {s : Record}
      → (apply codec sha256 op j lines).0 ≡ ok s
      → Left op j lines (apply codec sha256 op j lines).2
  append-ok op j lines {s = s} e = elim (append-Course op j lines) [
    | stopped x q ne ↦ absurd (ground (arith, e, q))
    | tried b o q at ↦ record {
      line = b;
      outcome = o;
      encoded = q;
      added =
          ap (λ (t : Result JournalError Record × Journal × List Bytes). t.2) at
          ∙ store_line-ok op.writing (sealed_record codec sha256 op.now op.at op.rec j) s b j lines
              (rw at at e);
    }
  ]

  module _ (digest : (b : Bytes) → length (sha256 b) ≡ hash_size) where
    next-sequence_gap :
        (v : Verifier) (r : Record)
        → (r.seq == v.next_seq) ≡ false
        → next sha256 v r ≡ err (sequence_gap v.next_seq r.seq)
    unfolding next
    next-sequence_gap v r e = rw e refl

    load_line-sequence_gap :
        (v : Verifier) (r : Record) (b : Bytes)
        → decode_line codec b ≡ some r
        → (r.seq == v.next_seq) ≡ false
        → load_line codec sha256 v b ≡ err (not_verified (sequence_gap v.next_seq r.seq))
    unfolding load_line
    load_line-sequence_gap v r b e gap =
        rw (e, load_line) (rw (next-sequence_gap v r gap, verify_next) refl)

    decode_line-sealed_on :
        (op : Op) (seen : List Record) (b : Bytes)
        → IsLinked sha256 seen
        → IsFit codec (sealed_on codec sha256 digest op seen)
        → encode_line codec (sealed_on codec sha256 digest op seen) ≡ some b
        → decode_line codec b ≡ some (sealed_on codec sha256 digest op seen)
    unfolding seal
    decode_line-sealed_on op seen b h fit e =
        decode_line-encode_line codec (sealed_on codec sha256 digest op seen) b fit.utf8
          (length-head_hash codec sha256 digest seen h) (digest (preimage _)) e

    seq-sealed_on :
        (op : Op) (seen : List Record)
        → length seen + 1 < 2 ^ 64
        → (sealed_on codec sha256 digest op seen).seq ≡ length seen + 1
    unfolding seal
    seq-sealed_on op seen small = omega arith

    -- A line that the scanner takes and that the chain refuses.
    load_lines-refused :
        (v : Verifier) (b : Bytes) (x : JournalError)
        → length b < max_line
        → is_empty b ≡ false
        → load_line codec sha256 v b ≡ err x
        → load_lines codec sha256 v (b ∷ []) ≡ err x
    unfolding load_lines
    load_lines-refused v b x short some_text e =
        let fits : leb max_line (length b) ≡ false = ground (arith, short) in
        rw (fits, some_text) (rw (e, load_lines) refl)

    -- Lines that are refused stay so whatever follows them.
    load_lines-stays :
        (v : Verifier) (lines more : List Bytes) (x : JournalError)
        → load_lines codec sha256 v lines ≡ err x
        → load_lines codec sha256 v (lines ++ more) ≡ err x
    unfolding load_lines
    load_lines-stays v [] more x e = absurd (ground arith)
    load_lines-stays v (line ∷ lines) more x e = elim (Bool-cases (leb max_line (length line))) [
      | inl a ↦ ground arith
      | inr a ↦ elim (Bool-cases (is_empty line)) [
        | inl b ↦ rw (a, b) (load_lines-stays v lines more x (ground arith))
        | inr b ↦ elim (Result-cases (load_line codec sha256 v line)) [
          | inr (y, c) ↦ ground arith
          | inl (v', c) ↦ rw (a, b, c) (load_lines-stays v' lines more x (ground arith))
        ]
      ]
    ]

    open_journal-refused :
        (lines : List Bytes) (x : JournalError)
        → load_lines codec sha256 new_verifier lines ≡ err x
        → open_journal codec sha256 lines ≡ err x
    unfolding open_journal
    open_journal-refused lines x e = rw (e, open_journal) refl

    -- Opened on a file of fewer than 2^64 - 3 lines, a call of `Append` fails at `Sync` and the very next one succeeds, both
    -- sealing records of valid UTF-8 texts whose lines are below 4 MiB: opening the file as the second call leaves
    -- it, whatever lines follow, fails with a gap in the sequence, since the two lines carry one number.
    pub append-sequence_gap :
        (first second : Op) (j : Journal) (lines more : List Bytes) {s : Record}
        → length lines + 3 < 2 ^ 64
        → open_journal codec sha256 lines ≡ ok j
        → IsFit codec (sealed_record codec sha256 first.now first.at first.rec j)
        → IsFit codec (sealed_record codec sha256 second.now second.at second.rec j)
        → let (failed, j1, lines1) = apply codec sha256 first j lines in
          let (done, j2, lines2) = apply codec sha256 second j1 lines1 in
          failed ≡ err not_synced
          → done ≡ ok s
          → open_journal codec sha256 (lines2 ++ more)
            ≡ err (not_verified (sequence_gap (j.seq + 2) (j.seq + 1)))
    append-sequence_gap first second j lines more {s = s} small e fit fit' failed done =
        let st = open_journal-Stands codec sha256 lines (omega arith) e in
        let (one, same) = append-not_synced first j lines failed in
        let two = append-ok second _ _ done in
        let twice : encode_line codec (sealed_on codec sha256 digest second st.seen)
            ≡ some two.line =
          rw (same, st.same) at two.encoded in
        let fit2 = rw st.same at fit' in
        let (linked, loaded) =
          written-loaded codec sha256 digest first st.seen lines one.line (omega (arith, st.few))
            st.linked st.loaded one.outcome (rw st.same at fit) (rw st.same at one.encoded) in
        let v = verifier_at sha256 (sealed_on codec sha256 digest first st.seen ∷ st.seen) in
        let number = seq-sealed_on second st.seen (omega (arith, st.few)) in
        let gap : ((sealed_on codec sha256 digest second st.seen).seq == v.next_seq) ≡ false =
          ground (arith, number) in
        let refused =
          load_line-sequence_gap v (sealed_on codec sha256 digest second st.seen) two.line
            (decode_line-sealed_on second st.seen two.line st.linked fit2 twice) gap in
        let file = two.added ∙ ap (λ (l : List Bytes). l ++ two.line ∷ []) one.added in
        let seq : j.seq ≡ length st.seen = ap (λ (k : Journal). k.seq) st.same in
        let last : v.next_seq ≡ j.seq + 2 = omega (arith, seq) in
        let own : (sealed_on codec sha256 digest second st.seen).seq ≡ j.seq + 1 =
          number ∙ omega (arith, seq) in
        rw file (
          open_journal-refused _ _ (
            load_lines-stays new_verifier _ more _ (
              load_lines-append codec sha256 new_verifier (lines ++ one.line ∷ []) (two.line ∷ [])
                loaded
              ∙ load_lines-refused v two.line _ (fit2.short two.line twice)
                  (encode_line-is_empty codec _ two.line twice)
                  (refused ∙ sequence_gap_ap last own))))
