-- ===== src/Audit/Order.antt =====
-- audit.py: an append adds one event at the end, numbered by its place.
use ops_guard.Prelude.{
  ℕ, suc, ◌+◌, max, String, List, [], ◌∷◌, ◌++◌, ◌≡◌, sym, ◌∙◌, ap, subst, arith, length, inl, inr,
}
use ops_guard.Json.{obj}
use ops_guard.Errors.{ok, Result-cases}
use ops_guard.Store.{AuditEvent, Db, last_sequence, next_sequence_on}
use ops_guard.Env.{Env}
use ops_guard.World.{World, Exec, lift, gets, ◌>>=◌, now, new_uuid, sqlite}
use ops_guard.World.Steps.{bind-ok, lift-ok, after-ok, ok-injective, SameDb, now-SameDb}
use ops_guard.World.Atomic.{begun, transaction-done}
use package.ops_guard.Audit.{
  Entry, build, redact_payload, redact_snapshot, insert_event, guarded, append_on, append,
}

-- The events are numbered in order, from `n`.
abbrev pub IsNumbered : ℕ → List AuditEvent → Type 0
IsNumbered n [] = Unit
IsNumbered n (e ∷ es) = (e.sequence ≡ n) × IsNumbered (suc n) es

last_sequence-IsNumbered :
    (n : ℕ) (es : List AuditEvent)
    → IsNumbered (suc n) es
    → max n (last_sequence es) ≡ n + length es
unfolding last_sequence
last_sequence-IsNumbered n [] h = omega arith
last_sequence-IsNumbered n (e ∷ es) h = omega (arith, last_sequence-IsNumbered (suc n) es h.1, h.0)

IsNumbered-append :
    (n : ℕ) (es : List AuditEvent) (e : AuditEvent)
    → IsNumbered n es
    → e.sequence ≡ n + length es
    → IsNumbered n (es ++ e ∷ [])
IsNumbered-append n [] e h s = (omega (arith, s), tt)
IsNumbered-append n (d ∷ es) e h s = (h.0, IsNumbered-append (suc n) es e h.1 (omega (arith, s)))

guarded-ok :
    {A : Type 0} (m : Exec A) (w : World) {a : A} {w' : World}
    → guarded m w ≡ (ok a, w')
    → m w ≡ (ok a, w')
unfolding guarded
guarded-ok m w h = ground arith

-- The event is the one that was asked for, but for what redaction replaced.
pub record IsEvent (env : Env) (a : Entry) (before : Db) (e : AuditEvent) : Type 0 where
  pub sequence : e.sequence ≡ next_sequence_on before
  pub event_type : e.event_type ≡ a.event_type
  pub correlation_id : e.correlation_id ≡ a.correlation_id
  pub proposal_ref : e.proposal_ref ≡ a.proposal_ref
  pub invocation_digest : e.invocation_digest ≡ a.invocation_digest
  pub evidence_refs : e.evidence_refs ≡ a.evidence_refs
  pub authorization_path : e.authorization_path ≡ a.authorization_path
  pub judge_snapshot : redact_snapshot env a.judge_snapshot ≡ ok e.judge_snapshot
  pub outcome : e.outcome ≡ a.outcome
  pub failure_code : e.failure_code ≡ a.failure_code
  pub payload : redact_payload env (obj a.payload) ≡ ok e.payload

module _ (env : Env) where
  build-ok :
      (a : Entry) (n t : ℕ) (id : String) {e : AuditEvent} (before : Db)
      → n ≡ next_sequence_on before
      → build env a n t id ≡ ok e
      → IsEvent env a before e
  unfolding build
  build-ok a n t id {e} before s h = elim (Result-cases (redact_snapshot env a.judge_snapshot)) [
    | inr (x, p) ↦ absurd (ground arith)
    | inl (snapshot, p) ↦ elim (Result-cases (redact_payload env (obj a.payload))) [
      | inr (x, q) ↦ absurd (ground arith)
      | inl (clean, q) ↦ record {
        sequence = ground arith;
        event_type = ground arith;
        correlation_id = ground arith;
        proposal_ref = ground arith;
        invocation_digest = ground arith;
        evidence_refs = ground arith;
        authorization_path = ground arith;
        judge_snapshot = ground arith;
        outcome = ground arith;
        failure_code = ground arith;
        payload = ground arith;
      }
    ]
  ]

  insert_event-ok :
      (e : AuditEvent) (w : World) {e' : AuditEvent} {w' : World}
      → insert_event env e w ≡ (ok e', w')
      → (e' ≡ e) × (w'.db ≡ record w.db { events = w.db.events ++ e ∷ [] })
  unfolding insert_event sqlite ◌>>=◌
  insert_event-ok e w h = ground arith

  -- An append that returns has added one event at the end: the one that it was asked for, numbered
  -- next, its payload redacted.
  pub append_on-IsEvent :
      (a : Entry) (w : World) {e : AuditEvent} {w' : World}
      → append_on env a w ≡ (ok e, w')
      → (w'.db ≡ record w.db { events = w.db.events ++ e ∷ [] }) × IsEvent env a w.db e
  unfolding append_on new_uuid
  append_on-IsEvent a w {e} {w'} h = bind-ok (now env) _ w h λ moment w1 p h1.
      bind-ok (new_uuid env) _ w1 h1 λ id w2 q h2.
        bind-ok (gets next_sequence_on) _ w2 (guarded-ok _ w2 h2) λ n w3 r h3.
          bind-ok (lift (build env a n moment id)) _ w3 h3 λ event w4 s h4.
            let (built, same4) = lift-ok (build env a n moment id) w3 s in
            let (is, stored) = insert_event-ok event w4 h4 in
            let db2 : w2.db ≡ w.db =
              sym (ap (λ x. x.1.db) q) ∙ after-ok SameDb (now env) w (now-SameDb env) p in
            let db4 : w4.db ≡ w.db = ap (λ v. v.db) same4 ∙ sym (ap (λ x. x.1.db) r) ∙ db2 in
            let next : n ≡ next_sequence_on w.db =
              sym (ok-injective (ap (λ x. x.0) r)) ∙ ap next_sequence_on db2 in
            subst
              (λ d. (w'.db ≡ record w.db { events = w.db.events ++ d ∷ [] }) × IsEvent env a w.db d)
              (sym is)
              (
                stored
                    ∙ ap {A = Db} {B = Db} (λ db. record db { events = db.events ++ event ∷ [] })
                        db4,
                build-ok a n moment id w.db next built,
              )

  -- An append that returns keeps a log that is numbered 1, 2, 3, … numbered so, without a gap.
  pub append_on-IsNumbered :
      (a : Entry) (w : World) {e : AuditEvent} {w' : World}
      → IsNumbered 1 w.db.events
      → append_on env a w ≡ (ok e, w')
      → IsNumbered 1 w'.db.events
  unfolding next_sequence_on
  append_on-IsNumbered a w {e} h go =
      let (stored, is) = append_on-IsEvent a w go in
      subst (λ db. IsNumbered 1 db.events) (sym stored)
        (IsNumbered-append 1 w.db.events e h
          (omega (arith, is.sequence, last_sequence-IsNumbered 0 w.db.events h)))

-- Of the database, an event depends on the log alone.
pub IsEvent-events :
    (env : Env) (a : Entry) (before other : Db) (e : AuditEvent)
    → before.events ≡ other.events
    → IsEvent env a before e
    → IsEvent env a other e
unfolding next_sequence_on
IsEvent-events env a before other e same is = record {
  sequence = is.sequence ∙ ap (λ es. last_sequence es + 1) same;
  event_type = is.event_type;
  correlation_id = is.correlation_id;
  proposal_ref = is.proposal_ref;
  invocation_digest = is.invocation_digest;
  evidence_refs = is.evidence_refs;
  authorization_path = is.authorization_path;
  judge_snapshot = is.judge_snapshot;
  outcome = is.outcome;
  failure_code = is.failure_code;
  payload = is.payload;
}

-- The log ends with the event that was asked for.
pub record EndsWith (env : Env) (a : Entry) (after : Db) : Type 0 where
  pub before : Db
  pub event : AuditEvent
  pub stored : after ≡ record before { events = before.events ++ event ∷ [] }
  pub is_event : IsEvent env a before event

pub append-EndsWith :
    (env : Env) (a : Entry) (w : World) {e : AuditEvent} {w' : World}
    → append env a w ≡ (ok e, w')
    → EndsWith env a w'.db
unfolding append
append-EndsWith env a w h =
    let (w1, go, committed) = transaction-done env (append_on env a) w h in
    let (stored, is) = append_on-IsEvent env a (begun env w) go in
    record { before = (begun env w).db; event = _; stored = committed ∙ stored; is_event = is }
