-- ===== src/Api/Recorded.antt =====
-- The audit record that ends a handler of internal/api: `recordAction` and `completed` of record.go.
use panely.Kit.{
  ◌≡◌, ap, refl, String, Bool, true, false, ◌&&◌, Option, none, some, ◌∷◌, Option-cases, inl, inr,
  ok,
}
use panely.Api.Credentials.{CallerInfo}
use panely.Api.Redaction.{redact_sensitive}
use panely.Api.Handling.{
  ApiError, Params, Outcome, success, audited, Services, World, Entry, actor_from_context,
  record_action, completed, outcome_of, detail_of,
}

abbrev pub is_none {ℓ} : {A : Type ℓ} → Option A → Bool
is_none none = true
is_none (some a) = false

abbrev pub is_success : Outcome → Bool
is_success success = true
is_success _ = false

-- The audit event that a handler has added, and its answer, which is `nil` if the operation went well, as
-- the first argument says, and the record was written.
pub record Recorded {W : Type 0} (well : Bool) (outcome : Outcome) (w : World W)
    (p : Option ApiError × World W) : Type 0 where
  pub answer : Option String
  pub entry : Entry
  pub kind : entry.outcome ≡ outcome
  pub trace : p.1.trace ≡ audited entry answer ∷ w.trace
  pub same : is_none p.0 ≡ (well && is_none answer)

module _ {W : Type 0} (svc : Services W) (caller : Option CallerInfo)
    (total : (m : Params) → (s : String) × (svc.marshal m ≡ ok s)) where
  entry_at : String → String → Params → Outcome → String → Entry
  entry_at action target params outcome detail = record {
    actor = actor_from_context caller;
    action = action;
    target = target;
    params_json = (total (redact_sensitive params)).0;
    outcome = outcome;
    detail = detail;
  }

  pub record_action-Recorded :
      (action target : String) (params : Params) (outcome : Outcome) (detail : String) (w : World W)
      → Recorded true outcome w (record_action svc caller action target params outcome detail w)
  unfolding record_action entry_at
  record_action-Recorded action target params outcome detail w =
      let entry = entry_at action target params outcome detail in
      rw ((total (redact_sensitive params)).1, record_action)
        (elim (Option-cases (svc.append_audit entry w.outside).0) [
          | inl q ↦
              rw (q, record_action)
                (record {
                  answer = none;
                  entry = entry;
                  kind = refl;
                  trace = ap (λ (a : Option String). audited entry a ∷ w.trace) q;
                  same = refl;
                })
          | inr (x, q) ↦
              rw (q, record_action)
                (record {
                  answer = some x;
                  entry = entry;
                  kind = refl;
                  trace = ap (λ (a : Option String). audited entry a ∷ w.trace) q;
                  same = refl;
                })
        ])

  answered :
      (op : Option ApiError) (w : World W) (p : Option ApiError × World W)
      → Recorded true (outcome_of svc caller op) w p
      → Recorded
          (is_none op)
          (outcome_of svc caller op)
          w
          (elim p.0 [ some x ↦ (some x, p.1) | none ↦ (op, p.1) ])
  answered none w (none, w1) r = record {
    answer = r.answer;
    entry = r.entry;
    kind = r.kind;
    trace = r.trace;
    same = r.same;
  }
  answered none w (some x, w1) r = record {
    answer = r.answer;
    entry = r.entry;
    kind = r.kind;
    trace = r.trace;
    same = r.same;
  }
  answered (some e) w (none, w1) r = record {
    answer = r.answer;
    entry = r.entry;
    kind = r.kind;
    trace = r.trace;
    same = refl;
  }
  answered (some e) w (some x, w1) r = record {
    answer = r.answer;
    entry = r.entry;
    kind = r.kind;
    trace = r.trace;
    same = refl;
  }

  pub completed-Recorded :
      (action target : String) (params : Params) (op : Option ApiError) (w : World W)
      → Recorded
          (is_none op)
          (outcome_of svc caller op)
          w
          (completed svc caller action target params op w)
  unfolding completed
  completed-Recorded action target params op w = answered op w _ (
      record_action-Recorded action target params (outcome_of svc caller op)
        (detail_of svc caller op) w)
