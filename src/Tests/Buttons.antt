-- ===== src/Tests/Buttons.antt =====
-- The approval button at the deployment of Tests/Fixture.
use ops_guard.Prelude.{ℕ, ℤ, pos, String, Bool, true, false, some, none, [], ◌∷◌, ◌≡◌, refl, arith}
use ops_guard.Json.{Json, Fields, obj, str, field, end, nat, lookup}
use ops_guard.Errors.{ok}
use ops_guard.Store.{ApprovalRow, ProposalRow, BindingRow}
use ops_guard.World.{World}
use ops_guard.World.Atomic.{begun}
use ops_guard.Approvals.Recorded.{IsRecording}
use ops_guard.Telegram.Payload.{is_hex_text, callback_data_for, parse_callback_data}
use ops_guard.Telegram.Payload.RoundTrip.{parse_callback_data-callback_data_for}
use ops_guard.Telegram.Poller.{Poller, approved, bind_bot_identity, process_update}
use ops_guard.Telegram.Poller.Genuine.{IsGenuine, process_update-IsGenuine}
use ops_guard.Telegram.Poller.Loop.{run_once, updates}
use ops_guard.Telegram.Poller.Loop.Conservative.{Numbered, IsConservative, run_once-IsConservative}
use ops_guard.Proposals.{FrozenProposal}
use ops_guard.Telegram.Preview.{Dumps}
use ops_guard.Telegram.Notifier.{Chat, deliver}
use ops_guard.Telegram.Notifier.Complete.{IsDelivery, deliver-IsDelivery}
use ops_guard.Tests.Fixture.{env, proposal, binding, print, frozen}

abbrev hex_id : String
hex_id = "0123456789abcdef0123456789abcdef"

is_hex : is_hex_text 32 hex_id ≡ true
unfolding is_hex_text
is_hex = refl

parse_callback_data-callback_data_for_example :
    (payload : String) × (callback_data_for hex_id ≡ ok payload)
    × (parse_callback_data payload ≡ some hex_id)
parse_callback_data-callback_data_for_example = parse_callback_data-callback_data_for hex_id is_hex

abbrev poller : Poller
poller = record {
  bot_id = none;
  user_id = pos 8;
  chat_id = pos 9;
  operator_identity = "op";
  configured_operator = "op";
}

abbrev id_object : ℕ → Json
id_object n = obj (field "id" (nat n) end)

abbrev press : Fields
press = field "update_id" (nat 1) (
    field "callback_query"
      (obj (
        field "message" (obj (field "from" (id_object 7) (field "chat" (id_object 9) end))) (
          field "from" (id_object 8)
            (field "data" (str "approve:0123456789abcdef0123456789abcdef") end))))
      end)

-- The deployment with a hexadecimal proposal id, before its approval
abbrev waiting : World
waiting = record {
  db = record {
    proposals = record proposal { proposal_id = hex_id } ∷ [];
    bindings = record binding { proposal_id = hex_id } ∷ [];
    approvals = [];
    events = [];
  };
  ticks = 0;
  began = none;
  ran = [];
}

abbrev recorded_world : World
recorded_world = (process_update env (bind_bot_identity (pos 7) poller) press waiting).1

run_press :
    process_update env (bind_bot_identity (pos 7) poller) press waiting
    ≡ (ok approved, recorded_world)
unfolding ops_guard.Approvals.record_approval_by_proposal_id ops_guard.Env.canonicalize_json
    ops_guard.Env.loads_json ops_guard.Invocation.canonical_bytes
    ops_guard.Invocation.from_frozen_json ops_guard.Invocation.parse_frozen_invocation
    ops_guard.Invocation.to_json ops_guard.Prelude.find ops_guard.Proposals.eligible
    ops_guard.Proposals.fetch_binding_on ops_guard.Proposals.fetch_by_id_on
    ops_guard.Proposals.row_to_proposal ops_guard.Store.binding_by_id ops_guard.Store.proposal_by_id
    ops_guard.Telegram.Payload.is_hex_text ops_guard.Telegram.Payload.parse_callback_data
    ops_guard.Telegram.Payload.strip_prefix ops_guard.Telegram.Poller.answer
    ops_guard.Telegram.Poller.approve_proposal ops_guard.Telegram.Poller.bind_bot_identity
    ops_guard.Telegram.Poller.classify_update ops_guard.Telegram.Poller.process_update
    ops_guard.World.new_uuid ops_guard.World.now ops_guard.World.transaction ops_guard.World.◌>>=◌
    ops_guard.Invocation.reject_unrepresentable_numbers
run_press = refl

process_update-IsGenuine_example :
    (id : String) × IsGenuine (pos 7) (pos 8) (pos 9) press id
    × (◌≡◌ {A = String} "op" "op")
    × (row : ApprovalRow) × IsRecording env "op" id (begun env waiting) recorded_world row
process_update-IsGenuine_example =
    process_update-IsGenuine env poller (pos 7) press waiting run_press

press-Numbered : Numbered 1 (press ∷ [])
unfolding lookup
press-Numbered = Numbered.more 1 refl (omega arith) Numbered.done

run_once-IsConservative_example : IsConservative env poller none 1 (press ∷ []) waiting (
    run_once env poller
      (λ offset. updates (press ∷ []))
      (record { offset = none; answers = [] })
      waiting)
run_once-IsConservative_example =
    run_once-IsConservative env poller (λ offset. updates (press ∷ []))
      (record { offset = none; answers = [] }) waiting 1 press-Numbered

abbrev dumps : Dumps
dumps = record { sorted = print; plain = print }

abbrev pending : FrozenProposal
pending = record (frozen none) { proposal_id = hex_id }

abbrev chat : Chat
chat = record { calls = 0; messages = [] }

deliver-IsDelivery_example :
    IsDelivery env dumps pending chat waiting
      (deliver env dumps (λ n. true) pending chat waiting).0
      (deliver env dumps (λ n. true) pending chat waiting).1.0
deliver-IsDelivery_example = deliver-IsDelivery env dumps (λ n. true) pending chat waiting
