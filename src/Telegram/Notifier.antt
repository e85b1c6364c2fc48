-- ===== src/Telegram/Notifier.antt =====
-- telegram_approval.py: `ApprovalNotifier`, which sends the previews with the approval button.
pub mod Complete
use ops_guard.Prelude.{
  ℕ, suc, String, Bool, true, false, not, ◌&&◌, ◌||◌, Option, none, some, List, [], ◌∷◌, ◌++◌, ◌==◌,
  ltb, if◌then◌else◌,
}
use ops_guard.Json.{is_one_of}
use ops_guard.Errors.{
  Error, Result, ok, err, sqlite_error, integrity_error, value_error, configuration_error,
}
use ops_guard.Errors as R
use ops_guard.Store.{
  Db, ProposalRow, ApprovalRow, AuditEvent, BindingRow, ExecutionBinding, EventType, is_active,
}
use ops_guard.Env.{Env, naive, aware}
use ops_guard.World.{World, Exec, pure, lift, ◌>>=◌, gets, tick, read}
use ops_guard.Proposals.{FrozenProposal, row_to_proposal, fetch_binding_on}
use ops_guard.Telegram.Payload.{callback_data_for}
use ops_guard.Telegram.Preview.{Code, Dumps, build_preview_parts}

-- A message that Telegram took, with the payload of its button
pub record Message : Type 0 where
  pub text : Code
  pub button : Option String

-- The operator's chat: the calls of `send_message` so far, and the messages of those that succeeded
pub record Chat : Type 0 where
  pub calls : ℕ
  pub messages : List Message

abbrev pub post : Code → Option String → Chat → Chat
post part button c = record {
  calls = suc c.calls;
  messages = c.messages ++ record { text = part; button = button } ∷ [];
}

abbrev pub failed_call : Chat → Chat
failed_call c = record c { calls = suc c.calls }

-- The keyboard, where this is the final part
abbrev pub button_of : String → List Code → Option String
button_of payload [] = some payload
button_of payload (part ∷ rest) = none

-- `event.event_type == "proposal" and event.proposal_ref == proposal_id`
abbrev is_proposal_of : String → AuditEvent → Bool
is_proposal_of id e = elim e.event_type [
  | EventType.proposal ↦ elim e.proposal_ref [ none ↦ false | some ref ↦ ref == id ]
  | _ ↦ false
]

-- `evidence_refs_for`, of the events that were read
unfoldable pub refs_in : String → List AuditEvent → List String
refs_in id [] = []
refs_in id (e ∷ es) = if is_proposal_of id e then e.evidence_refs else refs_in id es

abbrev pub document_of : Option BindingRow → Option ExecutionBinding
document_of none = none
document_of (some row) = some row.document

abbrev has_approval : String → List ApprovalRow → Bool
has_approval digest [] = false
has_approval digest (a ∷ rest) = a.token_digest == digest || has_approval digest rest

-- The rows of the query of `active_unapproved`
unfoldable pub unapproved : ℕ → Db → List ProposalRow → List ProposalRow
unapproved now db [] = []
unapproved now db (row ∷ rows) =
    let rest = unapproved now db rows in
    if is_active row.state
      && (ltb now row.expires_at && not (has_approval row.token_digest db.approvals))
    then row ∷ rest
    else rest

-- What `deliver` has before it sends: the parts and the button's payload
pub record Preview : Type 0 where
  pub parts : List Code
  pub payload : String

-- The parameter tells which calls of `send_message` succeed; the others raise a transport error.
module _ (succeeds : ℕ → Bool) where
  -- The loop over the parts, and whether each of them was sent
  unfoldable pub send_parts : String → List Code → Chat → Bool × Chat
  send_parts payload [] c = (true, c)
  send_parts payload (part ∷ rest) c = elim (succeeds c.calls) [
    | true ↦ send_parts payload rest (post part (button_of payload rest) c)
    | false ↦ (false, failed_call c)
  ]

  unfoldable pub send_preview : Result Preview → Chat → Result Bool × Chat
  unfolding send_parts
  send_preview (err e) c = (err e, c)
  send_preview (ok p) c = let (sent, c1) = send_parts p.payload p.parts c in (ok sent, c1)

-- `except sqlite3.Error`
abbrev is_storage_error : Error → Bool
is_storage_error (sqlite_error s) = true
is_storage_error (integrity_error s) = true
is_storage_error _ = false

-- The exceptions of a delivery that the loop of `scan_once` catches
abbrev is_survived : Error → Bool
is_survived (value_error s) = true
is_survived (configuration_error s) = true
is_survived error = is_storage_error error

-- The ids that the process has delivered, and the chat
pub record Notice : Type 0 where
  pub sent : List String
  pub chat : Chat

-- After a delivery: whether it was complete, and the state; other exceptions escape.
unfoldable pub settle_delivery : String → Result Bool → Notice → Result (Bool × Notice)
settle_delivery id (ok true) s = ok (true, record s { sent = id ∷ s.sent })
settle_delivery id (ok false) s = ok (false, s)
settle_delivery id (err e) s = if is_survived e then ok (false, s) else err e

abbrev pub Scan : Type 0
Scan = Result (List String) × (Notice × World)

abbrev listed : Bool → String → List String → List String
listed complete id delivered = if complete then delivered ++ id ∷ [] else delivered

module _ (env : Env) (dumps : Dumps) where
  unfoldable pub thaw_all : List ProposalRow → Result (List FrozenProposal)
  thaw_all [] = ok []
  thaw_all (row ∷ rows) =
      R.◌>>=◌ (row_to_proposal env row) λ frozen. R.◌>>=◌ (thaw_all rows) λ rest. ok (frozen ∷ rest)

  -- `active_unapproved`; the clock's reading is only compared.
  unfoldable pub active_unapproved : Exec (List FrozenProposal)
  unfolding unapproved thaw_all
  active_unapproved = do
    n ← tick
    let now : ℕ = elim (env.moment n) [ naive t ↦ t | aware t ↦ t ]
    rows ← read env (gets (λ db. unapproved now db db.proposals))
    lift (thaw_all rows)

  unfoldable pub prepare_preview : FrozenProposal → Exec Preview
  unfolding refs_in
  prepare_preview frozen = do
    events ← read env (gets (λ db. db.events))
    row ← read env (fetch_binding_on env frozen.proposal_id)
    parts ←
        lift (
          build_preview_parts env dumps frozen (refs_in frozen.proposal_id events)
            (document_of row))
    payload ← lift (callback_data_for frozen.proposal_id)
    pure (record { parts = parts; payload = payload })

  module _ (succeeds : ℕ → Bool) where
    -- `deliver`, where false stands for a transport error
    unfoldable pub deliver : FrozenProposal → Chat → World → Result Bool × (Chat × World)
    unfolding prepare_preview send_preview
    deliver frozen c w =
        let (r, w1) = prepare_preview frozen w in
        let (sent, c1) = send_preview succeeds r c in (sent, (c1, w1))

  module _ (succeeds : ℕ → Bool) where
    -- The loop over the candidates, with the ids delivered so far
    unfoldable pub scan : List FrozenProposal → List String → Notice → World → Scan
    unfolding deliver settle_delivery
    scan [] delivered s w = (ok delivered, (s, w))
    scan (frozen ∷ rest) delivered s w = elim (is_one_of s.sent frozen.proposal_id) [
      | true ↦ scan rest delivered s w
      | false ↦
          let (r, (chat, w1)) = deliver succeeds frozen s.chat w in
          let id = frozen.proposal_id in
          let s1 = record s { chat = chat } in
          elim (settle_delivery id r s1) [
            | err e ↦ (err e, (s1, w1))
            | ok (complete, s2) ↦ scan rest (listed complete id delivered) s2 w1
          ]
    ]

    -- `scan_once`
    unfoldable pub scan_once : Notice → World → Scan
    unfolding active_unapproved scan
    scan_once s w =
        let (r, w1) = active_unapproved w in
        elim r [
          | err e ↦ if is_storage_error e then (ok [], (s, w1)) else (err e, (s, w1))
          | ok candidates ↦ scan candidates [] s w1
        ]
