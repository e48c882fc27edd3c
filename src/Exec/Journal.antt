-- ===== src/Exec/Journal.antt =====
-- internal/exec/journal.go: the executor's own chained journal, a file with one JSON object to a line. The file is
-- the list of its lines without their line ends. A write is done, is refused and leaves nothing, or is
-- done and then fails to reach the disk (`Sync`); a line that is torn in two is left out.
use panely.Kit.{
  ℕ, ◌+◌, ◌-◌, ◌*◌, ◌%◌, ◌^◌, ◌≡◌, ◌≢◌, Bool, true, false, not, Option, none, some, List, [], ◌∷◌,
  ◌++◌, ltb, leb, ◌==◌, if◌then◌else◌, length, Result, ok, err,
}
use panely.Audit.Record.{
  Bytes, Record, Verifier, new_verifier, ChainError, hash_size, source_executor, is_outcome, seal,
  next,
}

-- `journalLine`.
pub record JournalLine : Type 0 where
  pub seq : ℕ
  pub ts_unix_nano : ℕ
  pub actor_fp : Bytes
  pub actor_ip : Bytes
  pub actor_label : Bytes
  pub actor_origin : Bytes
  pub action : Bytes
  pub target : Bytes
  pub params_json : Bytes
  pub outcome : ℕ
  pub detail : Bytes
  pub source : ℕ
  pub prev_hash : Bytes
  pub hash : Bytes

-- encoding/json at `journalLine` and encoding/hex, with what the code relies on: an object is not an empty line,
-- decoding gives back what was encoded, for JSON where the texts are UTF-8.
pub record LineCodec : Type 0 where
  pub marshal : JournalLine → Option Bytes
  pub unmarshal : Bytes → Option JournalLine
  pub is_utf8 : JournalLine → Bool
  pub to_hex : Bytes → Bytes
  pub from_hex : Bytes → Option Bytes
  pub from_hex-to_hex : (b : Bytes) → from_hex (to_hex b) ≡ some b
  pub marshal-ne-nil : (l : JournalLine) → marshal l ≢ some []
  pub unmarshal-marshal :
      (l : JournalLine) (b : Bytes) → is_utf8 l ≡ true → marshal l ≡ some b → unmarshal b ≡ some l

pub data JournalError : Type 0 where
  no_action : JournalError
  invalid_outcome : ℕ → JournalError
  not_encoded : JournalError
  not_written : JournalError
  not_synced : JournalError
  line_too_long : JournalError
  not_decoded : ℕ → JournalError
  not_verified : ChainError → JournalError

-- What becomes of a write.
pub data Writing : Type 0 where
  refused unsynced written : Writing

pub record Journal : Type 0 where
  pub head : Bytes
  pub seq : ℕ

-- The longest line that the scanner takes.
abbrev pub max_line : ℕ
max_line = 4 * 1024 * 1024

abbrev pub is_empty : Bytes → Bool
is_empty [] = true
is_empty (b ∷ bs) = false

module _ (codec : LineCodec) where
  abbrev pub to_line : Record → JournalLine
  to_line r = record {
    seq = r.seq;
    ts_unix_nano = r.ts;
    actor_fp = r.actor.key_fingerprint;
    actor_ip = r.actor.source_ip;
    actor_label = r.actor.label;
    actor_origin = r.actor.origin;
    action = r.action;
    target = r.target;
    params_json = r.params_json;
    outcome = r.outcome;
    detail = r.detail;
    source = r.source;
    prev_hash = codec.to_hex r.prev_hash;
    hash = codec.to_hex r.hash;
  }

  -- `encodeLine`.
  unfoldable pub encode_line : Record → Option Bytes
  encode_line r = codec.marshal (to_line r)

  -- `decodeHash`.
  unfoldable pub decode_hash : Bytes → Option Bytes
  decode_hash s = elim (codec.from_hex s) [
    | none ↦ none
    | some b ↦ if length b == hash_size then some b else none
  ]

  abbrev pub from_line : JournalLine → Bytes → Bytes → Record
  from_line l prev hash = record {
    seq = l.seq;
    ts = l.ts_unix_nano;
    actor = record {
      key_fingerprint = l.actor_fp;
      source_ip = l.actor_ip;
      label = l.actor_label;
      origin = l.actor_origin;
    };
    action = l.action;
    target = l.target;
    params_json = l.params_json;
    outcome = l.outcome;
    detail = l.detail;
    source = l.source;
    prev_hash = prev;
    hash = hash;
  }

  -- `decodeLine`.
  unfoldable pub decode_line : Bytes → Option Record
  unfolding decode_hash
  decode_line b = elim (codec.unmarshal b) [
    | none ↦ none
    | some l ↦ elim (decode_hash l.prev_hash) [
      | none ↦ none
      | some prev ↦ elim (decode_hash l.hash) [
        | none ↦ none
        | some hash ↦ some (from_line l prev hash)
      ]
    ]
  ]

  module _ (sha256 : Bytes → Bytes) where
    abbrev pub verify_next : Verifier → Record → Result JournalError Verifier
    verify_next v r = elim (next sha256 v r) [ err e ↦ err (not_verified e) | ok v' ↦ ok v' ]

    -- One line that is not empty, as `loadAndVerify` takes it.
    unfoldable pub load_line : Verifier → Bytes → Result JournalError Verifier
    load_line v line = elim (decode_line line) [
      | none ↦ err (not_decoded v.next_seq)
      | some r ↦ verify_next v r
    ]

    -- The loop of `loadAndVerify`.
    unfoldable pub load_lines : Verifier → List Bytes → Result JournalError Verifier
    load_lines v [] = ok v
    load_lines v (line ∷ lines) =
        let skip = load_lines v lines in
        if leb max_line (length line)
        then err line_too_long
        else if is_empty line
        then skip
        else elim (load_line v line) [ err e ↦ err e | ok v' ↦ load_lines v' lines ]

    -- `j.head = v.Head()` and `j.seq = v.NextSeq() - 1`.
    abbrev pub journal_at : Verifier → Journal
    journal_at v = record { head = v.prev; seq = (v.next_seq + (2 ^ 64 - 1)) % 2 ^ 64 }

    -- `loadAndVerify`, by which `OpenJournal` ends.
    unfoldable pub open_journal : List Bytes → Result JournalError Journal
    open_journal lines = elim (load_lines new_verifier lines) [
      | err e ↦ err e
      | ok v ↦ ok (journal_at v)
    ]

    abbrev pub stamp : ℕ → Option ℕ → ℕ
    stamp now none = now
    stamp now (some t) = t

    -- The record as `Append` seals it; `at` is its time, `none` for Go's zero time.
    abbrev pub sealed_record : ℕ → Option ℕ → Record → Journal → Record
    sealed_record now at r j =
        seal sha256 (record r { source = source_executor; ts = stamp now at })
          ((j.seq + 1) % 2 ^ 64) j.head

    abbrev pub store_line :
        Writing
        → Record
        → Bytes
        → Journal
        → List Bytes
        → Result JournalError Record × Journal × List Bytes
    store_line refused r line j lines = (err not_written, j, lines)
    store_line unsynced r line j lines = (err not_synced, j, lines ++ line ∷ [])
    store_line written r line j lines =
        (ok r, record { head = r.hash; seq = r.seq }, lines ++ line ∷ [])

    -- `Append`.
    unfoldable pub append :
        Writing
        → ℕ
        → Option ℕ
        → Record
        → Journal
        → List Bytes
        → Result JournalError Record × Journal × List Bytes
    append w now at r j lines =
        if is_empty r.action
        then (err no_action, j, lines)
        else if not (is_outcome r.outcome)
        then (err (invalid_outcome r.outcome), j, lines)
        else elim (encode_line (sealed_record now at r j)) [
          | none ↦ (err not_encoded, j, lines)
          | some line ↦ store_line w (sealed_record now at r j) line j lines
        ]

    -- The loop of `Read`, with the records found so far and how many may still be found.
    unfoldable pub read_lines : Verifier → ℕ → ℕ → List Bytes → Result JournalError (List Record)
    read_lines v after room [] = ok []
    read_lines v after room (line ∷ lines) =
        let skip = read_lines v after room lines in
        if leb max_line (length line)
        then err line_too_long
        else if is_empty line
        then skip
        else elim (decode_line line) [
          | none ↦ err (not_decoded v.next_seq)
          | some r ↦ elim (next sha256 v r) [
            | err e ↦ err (not_verified e)
            | ok v' ↦
                let more = read_lines v' after (room - 1) lines in
                let pass = read_lines v' after room lines in
                let found : Result JournalError (List Record) = elim more [
                  | err e ↦ err e
                  | ok rs ↦ ok (r ∷ rs)
                ] in
                if ltb after r.seq then (if leb room 1 then ok (r ∷ []) else found) else pass
          ]
        ]

    -- `Read`; a limit that is not positive is 100.
    unfoldable pub read : ℕ → ℕ → List Bytes → Result JournalError (List Record)
    unfolding read_lines
    read after limit lines = read_lines new_verifier after (if limit == 0 then 100 else limit) lines
