-- ===== src/Telegram/Poller.antt =====
-- telegram_approval.py: `ApprovalPoller`.
pub mod Genuine
pub mod Loop
use ops_guard.Prelude.{
  ℕ, zero, suc, ◌+◌, ℤ, pos, negsuc, String, Bool, true, false, not, ◌&&◌, Option, none, some, List,
  [], ◌∷◌, ◌==◌, eqb, if◌then◌else◌,
}
use ops_guard.Json.{
  Json, Items, Fields, null, bool, int, float, str, arr, obj, nil, cons, end, field, lookup,
}
use ops_guard.Errors.{
  Error, Result, ok, err, is_proposal_error, other_error, already_recorded, token_expired,
  sqlite_error, integrity_error,
}
use ops_guard.Store.{ApprovalRow}
use ops_guard.Env.{Env}
use ops_guard.World.{World, Exec, pure, raise, lift, ◌>>=◌}
use ops_guard.Approvals.{record_approval_by_proposal_id}
use ops_guard.Telegram.Payload.{parse_callback_data}

-- The poller: its bot, once that is bound, the operator's user and chat, and the identities that it
-- presents and that its verifier has.
pub record Poller : Type 0 where
  pub bot_id : Option ℤ
  pub user_id : ℤ
  pub chat_id : ℤ
  pub operator_identity : String
  pub configured_operator : String

pub data Disposition : Type 0 where
  discard : Disposition
  approve : String → Disposition

abbrev same_int : ℤ → ℤ → Bool
same_int (pos m) (pos n) = eqb m n
same_int (negsuc m) (negsuc n) = eqb m n
same_int _ _ = false

-- `value == id`, for an integer id. Telegram's identifiers are integers.
abbrev pub is_id : ℤ → Option Json → Bool
is_id id (some (int n)) = same_int n id
is_id id _ = false

-- `bind_bot_identity`, with the id that `get_me` returns
unfoldable pub bind_bot_identity : ℤ → Poller → Poller
bind_bot_identity me p = record p { bot_id = some me }

-- `value == self._bot_id`: an unbound bot is None, as are an absent key and a null.
abbrev is_bot : Option ℤ → Option Json → Bool
is_bot (some id) value = is_id id value
is_bot none none = true
is_bot none (some null) = true
is_bot none (some _) = false

-- `message.get(key, {}).get("id")`
abbrev id_of : Option Json → Result (Option Json)
id_of none = ok none
id_of (some (obj fs)) = ok (lookup "id" fs)
id_of (some _) = err (other_error "object has no attribute 'get'")

-- `parse_callback_data(callback.get("data", ""))`
abbrev pressed : Option Json → Disposition
pressed (some (str payload)) = elim (parse_callback_data payload) [
  | none ↦ discard
  | some id ↦ approve id
]
pressed _ = discard

-- The checks of the bot, the user and the chat, in order
judge_press : Poller → Fields → Option Json → Option Json → Result Disposition
unfolding lookup
judge_press p callback (some (obj message)) (some (obj sender)) =
    elim (id_of (lookup "from" message)) [
      | err e ↦ err e
      | ok bot ↦
          if not (is_bot p.bot_id bot)
          then ok discard
          else if not (is_id p.user_id (lookup "id" sender))
          then ok discard
          else elim (id_of (lookup "chat" message)) [
            | err e ↦ err e
            | ok chat ↦
                if not (is_id p.chat_id chat)
                then ok discard
                else ok (pressed (lookup "data" callback))
          ]
    ]
judge_press p callback _ _ = ok discard

-- `callback_query` of an update
judge_callback : Poller → Option Json → Result Disposition
unfolding judge_press
judge_callback p (some (obj callback)) =
    judge_press p callback (lookup "message" callback) (lookup "from" callback)
judge_callback p _ = ok discard

-- `classify_update`
unfoldable pub classify_update : Poller → Fields → Result Disposition
unfolding judge_callback
classify_update p update = judge_callback p (lookup "callback_query" update)

-- What became of an update
pub data Handled : Type 0 where
  discarded approved already_approved expired rejected hold : Handled

-- `except` of `approve`, in order
unfoldable pub answer : Result ApprovalRow → Result Handled
answer (ok row) = ok approved
answer (err (already_recorded s)) = ok already_approved
answer (err (token_expired s)) = ok expired
answer (err (sqlite_error s)) = ok hold
answer (err (integrity_error s)) = ok hold
answer (err e) = if is_proposal_error e then ok rejected else err e

module _ (env : Env) (p : Poller) where
  -- `approve`
  unfoldable pub approve_proposal : String → Exec Handled
  approve_proposal id w =
      let (r, w') =
        record_approval_by_proposal_id env p.configured_operator id p.operator_identity w in
      (answer r, w')

  process : Disposition → Exec Handled
  process discard = pure discarded
  process (approve id) = approve_proposal id

  -- `process_update`
  unfoldable pub process_update : Fields → Exec Handled
  unfolding process
  process_update update = do what ← lift (classify_update p update); process what
