-- ===== src/Store/AuditTests.antt =====
-- An audit log with two records, one call of `AppendAudit` refused between them.
use panely.Kit.{true, List, [], ◌∷◌, ◌≡◌, refl, arith, length, ◌%◌}
use panely.Audit.Record.{Bytes, Record, seal, preimage, write_uint, write_str}
use panely.Store.AuditLog.{append_audit, audit_head, insert_sealed, sound, verify_audit_chain}
use panely.Store.Appended.{Call, append_all, oldest_first, append_all-sound}

-- A stand-in for SHA-256: the length of the text, as 32 bytes.
abbrev digest : Bytes → Bytes
digest b =
    length b % 256
    ∷ 0
    ∷ 0
    ∷ 0
    ∷ 0
    ∷ 0
    ∷ 0
    ∷ 0
    ∷ 0
    ∷ 0
    ∷ 0
    ∷ 0
    ∷ 0
    ∷ 0
    ∷ 0
    ∷ 0
    ∷ 0
    ∷ 0
    ∷ 0
    ∷ 0
    ∷ 0
    ∷ 0
    ∷ 0
    ∷ 0
    ∷ 0
    ∷ 0
    ∷ 0
    ∷ 0
    ∷ 0
    ∷ 0
    ∷ 0
    ∷ 0
    ∷ []

abbrev deploy : Record
deploy = record {
  seq = 0;
  ts = 0;
  actor = record { key_fingerprint = 1 ∷ []; source_ip = []; label = []; origin = [] };
  action = 100 ∷ [];
  target = 97 ∷ [];
  params_json = 123 ∷ 125 ∷ [];
  outcome = 1;
  detail = [];
  source = 1;
  prev_hash = [];
  hash = [];
}

abbrev call : Call
call = record {
  runs = record { begins = true; inserts = true; commits = true };
  no_time = true;
  now = 17;
  rec = deploy;
}

abbrev refused_call : Call
refused_call = record call { rec = record deploy { outcome = 9 } }

abbrev calls : List Call
calls = call ∷ refused_call ∷ call ∷ []

two_sealed : (append_all digest calls []).0 ≡ 2
unfolding append_audit audit_head insert_sealed seal preimage write_uint write_str
two_sealed = refl

append_all-sound_example :
    verify_audit_chain digest (oldest_first (append_all digest calls []).1)
    ≡ sound (append_all digest calls []).0
append_all-sound_example = append_all-sound digest calls (rw two_sealed (omega arith))

-- Rows that are in no chain.
abbrev forged : List Record
forged = record deploy { seq = 4 } ∷ record deploy { seq = 9 } ∷ []
