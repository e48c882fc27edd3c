-- ===== src/Exec/Tests.antt =====
-- Runs of the journal, and the theorems on them.
use panely.Kit.{
  ℕ, zero, suc, sym, ◌∙◌, ◌≡◌, ◌≢◌, ◌<◌, refl, ap, true, Option, none, some, List, [], ◌∷◌, ◌++◌,
  arith, length, ok, err,
}
use panely.Audit.Record.{
  Bytes, Record, zeros, sequence_gap, seal, preimage, write_uint, write_str, next,
}
use panely.Exec.Journal.{
  JournalLine, LineCodec, not_synced, not_verified, Writing, unsynced, written, Journal, max_line,
  to_line, encode_line, decode_hash, decode_line, load_lines, open_journal, sealed_record, append,
  read_lines, read,
}
use panely.Exec.Reopening.{IsFit}
use panely.Exec.Appending.{Op, apply, run, run-open_journal}
use panely.Exec.Unsynced.{append-sequence_gap}

-- A text with its length before it, in front of what follows.
abbrev put : Bytes → Bytes → Bytes
put s rest = length s ∷ (s ++ rest)

abbrev split : ℕ → Bytes → Bytes × Bytes
split zero b = ([], b)
split (suc n) [] = ([], [])
split (suc n) (x ∷ b) = let (s, rest) = split n b in (x ∷ s, rest)

unfoldable text : Bytes → Bytes × Bytes
text [] = ([], [])
text (n ∷ b) = split n b

split-length : (s rest : Bytes) → split (length s) (s ++ rest) ≡ (s, rest)
split-length [] rest = refl
split-length (x ∷ s) rest = ap (λ (p : Bytes × Bytes). (x ∷ p.0, p.1)) (split-length s rest)

text-put : (s rest : Bytes) → text (put s rest) ≡ (s, rest)
unfolding text
text-put s rest = split-length s rest

some_inj : {a b : Bytes} → some a ≡ some b → a ≡ b
some_inj e = cc

abbrev bytes_of : JournalLine → Bytes
bytes_of l =
    l.seq
    ∷ l.ts_unix_nano
    ∷ l.outcome
    ∷ l.source
    ∷ put l.actor_fp (
        put l.actor_ip (
          put l.actor_label (
            put l.actor_origin (
              put l.action (
                put l.target
                  (put l.params_json (put l.detail (put l.prev_hash (put l.hash [])))))))))

abbrev texts : ℕ → ℕ → ℕ → ℕ → Bytes → JournalLine
texts seq ts outcome source b0 =
    let (fp, b1) = text b0 in
    let (ip, b2) = text b1 in
    let (label, b3) = text b2 in
    let (origin, b4) = text b3 in
    let (action, b5) = text b4 in
    let (target, b6) = text b5 in
    let (params, b7) = text b6 in
    let (detail, b8) = text b7 in
    let (prev, b9) = text b8 in
    record {
      seq = seq;
      ts_unix_nano = ts;
      actor_fp = fp;
      actor_ip = ip;
      actor_label = label;
      actor_origin = origin;
      action = action;
      target = target;
      params_json = params;
      outcome = outcome;
      detail = detail;
      source = source;
      prev_hash = prev;
      hash = (text b9).0;
    }

abbrev line_of : Bytes → Option JournalLine
line_of (seq ∷ ts ∷ outcome ∷ source ∷ b) = some (texts seq ts outcome source b)
line_of _ = none

texts-bytes_of : (l : JournalLine) → line_of (bytes_of l) ≡ some l
texts-bytes_of l = simp (text-put) refl

unmarshal_of : (l : JournalLine) (b : Bytes) → some (bytes_of l) ≡ some b → line_of b ≡ some l
unmarshal_of l b e = ap line_of (sym (some_inj e)) ∙ texts-bytes_of l

some-ne-nil : (l : JournalLine) → some (bytes_of l) ≢ some []
some-ne-nil l e = cc (e)

some_short : (a b : Bytes) → some a ≡ some b → length a < max_line → length b < max_line
some_short a b e h = rw (← some_inj e) h

written-ne : written ≢ unsynced
written-ne e = cc (e)

abbrev codec : LineCodec
codec = record {
  marshal = λ l. some (bytes_of l);
  unmarshal = line_of;
  is_utf8 = λ l. true;
  to_hex = λ b. b;
  from_hex = λ b. some b;
  from_hex-to_hex = λ b. refl;
  marshal-ne-nil = λ l e. some-ne-nil l e;
  unmarshal-marshal = λ l b u e. unmarshal_of l b e;
}

-- A digest of 32 bytes that knows a text's length only.
abbrev digest_of : Bytes → Bytes
digest_of b = length b ∷ 0 ∷ 0 ∷ 0 ∷ 0 ∷ 0 ∷ 0 ∷ 0 ∷ (zeros ++ (zeros ++ zeros))

abbrev call : Writing → ℕ → Op
call w target = record {
  writing = w;
  now = 5;
  at = none;
  rec = record {
    seq = 0;
    ts = 0;
    actor = record { key_fingerprint = []; source_ip = []; label = 3 ∷ []; origin = [] };
    action = 6 ∷ 7 ∷ [];
    target = target ∷ [];
    params_json = [];
    outcome = 1;
    detail = [];
    source = 0;
    prev_hash = [];
    hash = [];
  };
}

abbrev empty : Journal
empty = record { head = zeros ++ (zeros ++ (zeros ++ zeros)); seq = 0 }

opened : open_journal codec digest_of [] ≡ ok empty
unfolding open_journal load_lines
opened = refl

bytes_of-IsFit : (r : Record) → length (bytes_of (to_line codec r)) < max_line → IsFit codec r
unfolding encode_line
bytes_of-IsFit r h = record {
  utf8 = refl;
  short = λ b e. some_short (bytes_of (to_line codec r)) b e h;
}

abbrev after_one : Journal
after_one = (apply codec digest_of (call written 8) empty []).1

first-IsFit :
    (w : Writing) (target : ℕ)
    → IsFit codec (sealed_record codec digest_of 5 none (call w target).rec empty)
unfolding seal
first-IsFit w target = bytes_of-IsFit _ (omega arith)

second-IsFit : IsFit codec (sealed_record codec digest_of 5 none (call written 9).rec after_one)
unfolding seal append encode_line
second-IsFit = bytes_of-IsFit _ (omega arith)

-- Two calls, and a restart after them.
run-open_journal_example :
    let (j, lines) = run codec digest_of (call written 8 ∷ call written 9 ∷ []) empty [] in
    open_journal codec digest_of lines ≡ ok j
run-open_journal_example =
    run-open_journal codec digest_of (λ b. refl) (call written 8 ∷ call written 9 ∷ []) empty []
      (omega arith) opened ((written-ne, first-IsFit written 8), ((written-ne, second-IsFit), tt))

sync_failed : (apply codec digest_of (call unsynced 8) empty []).0 ≡ err not_synced
unfolding append encode_line
sync_failed = refl

abbrev left_over : List Bytes
left_over = (apply codec digest_of (call unsynced 8) empty []).2

abbrev second_record : Record
second_record = sealed_record codec digest_of 5 none (call written 9).rec empty

then_written :
    (apply codec digest_of
      (call written 9)
      (apply codec digest_of (call unsynced 8) empty []).1
      left_over).0
    ≡ ok second_record
unfolding append encode_line
then_written = refl

append-sequence_gap_example :
    open_journal codec digest_of (
      (apply codec digest_of
        (call written 9)
        (apply codec digest_of (call unsynced 8) empty []).1
        left_over).2
      ++ left_over)
    ≡ err (not_verified (sequence_gap 2 1))
append-sequence_gap_example =
    append-sequence_gap codec digest_of (λ b. refl) (call unsynced 8) (call written 9) empty []
      left_over (omega arith) opened (first-IsFit unsynced 8) (first-IsFit written 9) sync_failed
      then_written

-- `Read` of a file of two records, after the first.
abbrev two_lines : List Bytes
two_lines = (run codec digest_of (call written 8 ∷ call written 9 ∷ []) empty []).1

read_found :
    read codec digest_of 1 0 two_lines
    ≡ ok (sealed_record codec digest_of 5 none (call written 9).rec after_one ∷ [])
unfolding read read_lines append encode_line decode_line decode_hash next seal preimage write_uint
    write_str text
read_found = refl
