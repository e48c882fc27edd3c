-- ===== src/Exec/Reopening.antt =====
-- The journal of internal/exec/journal.go across restarts of the executor.
use panely.Kit.{
  ap, ◌∙◌, sym, ℕ, ◌+◌, ◌^◌, ◌≡◌, ◌<◌, ◌≤◌, refl, true, false, some, List, [], ◌∷◌, ◌++◌, arith,
  leb, length, Bool-cases, Option-cases, inl, inr, Result-cases, ok,
}
use panely.Audit.Record.{
  Bytes, Record, Verifier, new_verifier, hash_size, is_outcome, is_source, seal, preimage, next,
}
use panely.Audit.Chain.{
  head_hash, IsLinked, verifier_at, next-IsLinked, next-verifier_at, seal-IsLinked,
}
use panely.Exec.Journal.{
  LineCodec, Journal, max_line, to_line, encode_line, decode_hash, decode_line, load_line, is_empty,
  load_lines, journal_at, open_journal,
}

module _ (codec : LineCodec) where
  decode_hash-to_hex :
      (b : Bytes) → length b ≡ hash_size → decode_hash codec (codec.to_hex b) ≡ some b
  unfolding decode_hash
  decode_hash-to_hex b h = rw (codec.from_hex-to_hex b, decode_hash) (ground arith)

  -- A record that the codec takes: its texts are UTF-8, and its line is one that a scanner reads.
  pub record IsFit (r : Record) : Type 0 where
    pub utf8 : codec.is_utf8 (to_line codec r) ≡ true
    pub short : (b : Bytes) → encode_line codec r ≡ some b → length b < max_line

  pub decode_line-encode_line :
      (r : Record) (b : Bytes)
      → codec.is_utf8 (to_line codec r) ≡ true
      → length r.prev_hash ≡ hash_size
      → length r.hash ≡ hash_size
      → encode_line codec r ≡ some b
      → decode_line codec b ≡ some r
  unfolding decode_line encode_line
  decode_line-encode_line r b u p h e =
      rw (codec.unmarshal-marshal (to_line codec r) b u e, decode_line)
        (rw (decode_hash-to_hex r.prev_hash p, decode_line)
          (rw (decode_hash-to_hex r.hash h, decode_line) refl))

  pub encode_line-is_empty :
      (r : Record) (b : Bytes) → encode_line codec r ≡ some b → is_empty b ≡ false
  unfolding encode_line
  encode_line-is_empty r [] e = absurd (codec.marshal-ne-nil (to_line codec r) e)
  encode_line-is_empty r (x ∷ b) e = refl

  module _ (sha256 : Bytes → Bytes) where
    pub load_lines-append :
        (v : Verifier) (lines more : List Bytes) {w : Verifier}
        → load_lines codec sha256 v lines ≡ ok w
        → load_lines codec sha256 v (lines ++ more) ≡ load_lines codec sha256 w more
    unfolding load_lines
    load_lines-append v [] more e = ground arith
    load_lines-append v (line ∷ lines) more e = elim (Bool-cases (leb max_line (length line))) [
      | inl a ↦ absurd (ground arith)
      | inr a ↦ elim (Bool-cases (is_empty line)) [
        | inl b ↦ rw (a, b) (load_lines-append v lines more (ground arith))
        | inr b ↦ elim (Result-cases (load_line codec sha256 v line)) [
          | inr (x, c) ↦ absurd (ground arith)
          | inl (v', c) ↦ rw (a, b, c) (load_lines-append v' lines more (ground arith))
        ]
      ]
    ]

    load_line-IsLinked :
        (seen : List Record) (line : Bytes) {v : Verifier}
        → length seen + 2 < 2 ^ 64
        → IsLinked sha256 seen
        → load_line codec sha256 (verifier_at sha256 seen) line ≡ ok v
        → (r : Record) × IsLinked sha256 (r ∷ seen) × (v ≡ verifier_at sha256 (r ∷ seen))
    unfolding load_line
    load_line-IsLinked seen line small h e = elim (Option-cases (decode_line codec line)) [
      | inl a ↦ absurd (ground arith)
      | inr (r, a) ↦ elim (Result-cases (next sha256 (verifier_at sha256 seen) r)) [
        | inr (x, b) ↦ absurd (ground arith)
        | inl (v', b) ↦ let (k, at) = next-IsLinked sha256 seen r small h b in (r, k, ground arith)
      ]
    ]

    -- What an opened file holds: linked records, no more than it has lines.
    record Holds (seen : List Record) (n : ℕ) (v : Verifier) : Type 0 where
      all : List Record
      pub linked : IsLinked sha256 all
      few : length all ≤ length seen + n
      at : v ≡ verifier_at sha256 all

    load_lines-Holds :
        (seen : List Record) (lines : List Bytes) {v : Verifier}
        → length seen + length lines + 1 < 2 ^ 64
        → IsLinked sha256 seen
        → load_lines codec sha256 (verifier_at sha256 seen) lines ≡ ok v
        → Holds seen (length lines) v
    unfolding load_lines
    load_lines-Holds seen [] small h e = record {
      all = seen;
      linked = h;
      few = omega arith;
      at = ground arith;
    }
    load_lines-Holds seen (line ∷ lines) {v = v} small h e =
        elim (Bool-cases (leb max_line (length line))) [
          | inl a ↦ absurd (ground arith)
          | inr a ↦ elim (Bool-cases (is_empty line)) [
            | inl b ↦
                let held = load_lines-Holds seen lines (omega arith) h (ground arith) in
                record {
                  all = held.all;
                  linked = held.linked;
                  few = omega (arith, held.few);
                  at = held.at;
                }
            | inr b ↦ elim (Result-cases (load_line codec sha256 (verifier_at sha256 seen) line)) [
              | inr (x, c) ↦ absurd (ground arith)
              | inl (v', c) ↦
                  let (r, k, q) = load_line-IsLinked seen line (omega arith) h c in
                  let held : Holds (r ∷ seen) (length lines) v =
                    load_lines-Holds (r ∷ seen) lines (omega arith) k (ground arith) in
                  record {
                    all = held.all;
                    linked = held.linked;
                    few = omega (arith, held.few);
                    at = held.at;
                  }
            ]
          ]
        ]

    -- The journal, and the file behind it, that hold these records.
    abbrev pub at_seen : List Record → Journal
    at_seen seen = record { head = head_hash seen; seq = length seen }

    pub record Stands (j : Journal) (lines : List Bytes) (n : ℕ) : Type 0 where
      pub seen : List Record
      pub linked : IsLinked sha256 seen
      pub few : length seen ≤ n
      pub loaded : load_lines codec sha256 new_verifier lines ≡ ok (verifier_at sha256 seen)
      pub same : j ≡ at_seen seen

    at_seen-journal_at :
        (seen : List Record)
        → length seen + 1 < 2 ^ 64
        → journal_at codec sha256 (verifier_at sha256 seen) ≡ at_seen seen
    at_seen-journal_at seen small = ground arith

    pub open_journal-Stands :
        (lines : List Bytes) {j : Journal}
        → length lines + 1 < 2 ^ 64
        → open_journal codec sha256 lines ≡ ok j
        → Stands j lines (length lines)
    unfolding open_journal
    open_journal-Stands lines {j = j} small e =
        elim (Result-cases (load_lines codec sha256 new_verifier lines)) [
          | inr (x, a) ↦ absurd (ground arith)
          | inl (v, a) ↦
              let held = load_lines-Holds [] lines (omega arith) tt a in
              let opened : j ≡ journal_at codec sha256 v = ground arith in
              record {
                seen = held.all;
                linked = held.linked;
                few = omega (arith, held.few);
                loaded = a ∙ ap ok held.at;
                same =
                    opened
                    ∙ ap (journal_at codec sha256) held.at
                    ∙ at_seen-journal_at held.all (omega (arith, held.few));
              }
        ]

    pub Stands-open_journal :
        (j : Journal) (lines : List Bytes) (n : ℕ)
        → n + 1 < 2 ^ 64
        → Stands j lines n
        → open_journal codec sha256 lines ≡ ok j
    unfolding open_journal
    Stands-open_journal j lines n small s =
        rw (s.loaded, open_journal)
          (ap ok (at_seen-journal_at s.seen (omega (arith, s.few)) ∙ sym s.same))

    module _ (digest : (b : Bytes) → length (sha256 b) ≡ hash_size) where
      pub length-head_hash :
          (seen : List Record) → IsLinked sha256 seen → length (head_hash seen) ≡ hash_size
      length-head_hash [] h = refl
      length-head_hash (r ∷ seen) h = rw h.2 (digest (preimage r))

      pub load_line-seal :
          (seen : List Record) (r : Record) (b : Bytes)
          → length seen + 2 < 2 ^ 64
          → IsLinked sha256 seen
          → is_outcome r.outcome ≡ true
          → is_source r.source ≡ true
          → IsFit (seal sha256 r (length seen + 1) (head_hash seen))
          → encode_line codec (seal sha256 r (length seen + 1) (head_hash seen)) ≡ some b
          → load_lines codec sha256 (verifier_at sha256 seen) (b ∷ [])
            ≡ ok (verifier_at sha256 (seal sha256 r (length seen + 1) (head_hash seen) ∷ seen))
      unfolding load_lines load_line
      load_line-seal seen r b small h o s fit e =
          let s' : Record = seal sha256 r (length seen + 1) (head_hash seen) in
          let linked : IsLinked sha256 (s' ∷ seen) = seal-IsLinked sha256 seen r h o s in
          let prev : length s'.prev_hash ≡ hash_size = rw linked.1 (length-head_hash seen h) in
          let own : length s'.hash ≡ hash_size = length-head_hash (s' ∷ seen) linked in
          let decoded : decode_line codec b ≡ some s' =
            decode_line-encode_line s' b fit.utf8 prev own e in
          let some_text : is_empty b ≡ false = encode_line-is_empty s' b e in
          let short : leb max_line (length b) ≡ false = ground (arith, fit.short b e) in
          rw (short, some_text)
            (rw (decoded, load_line)
              (rw (next-verifier_at sha256 seen s' small linked, load_line) refl))
