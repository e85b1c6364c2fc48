-- ===== src/Telegram/Poller/Loop.antt =====
-- telegram_approval.py: `ApprovalPoller.run_once`, one round of the loop over the bot's updates.
pub mod Conservative
use ops_guard.Prelude.{
  ℕ, zero, suc, ◌+◌, ℤ, pos, negsuc, String, Bool, true, false, not, ◌||◌, Option, none, some, List,
  [], ◌∷◌, ◌++◌, ◌==◌, eqb, if◌then◌else◌,
}
use ops_guard.Json.{
  Json, Items, Fields, null, bool, int, float, str, arr, obj, nil, cons, end, field, lookup,
}
use ops_guard.Errors.{Error, Result, ok, err, other_error}
use ops_guard.Env.{Env}
use ops_guard.World.{World}
use package.ops_guard.Telegram.Poller.{
  Poller, Handled, discarded, approved, already_approved, expired, rejected, hold, process_update,
}

-- What `get_updates` does: it raises one of the two transport errors, or returns the updates.
pub data Batch : Type 0 where
  retry_after transport_failure : Batch
  updates : List Fields → Batch

-- A call of `answer_callback_query`; whether it succeeds changes nothing.
pub record Answer : Type 0 where
  pub callback_id : Json
  pub text : Option String

-- The poller's offset, and the callbacks that it has answered
pub record Poll : Type 0 where
  pub offset : Option ℤ
  pub answers : List Answer

abbrev plus_one : ℤ → ℤ
plus_one (pos n) = pos (suc n)
plus_one (negsuc zero) = pos 0
plus_one (negsuc (suc n)) = negsuc n

-- `update_id + 1`, where `isinstance(update_id, int)`; Python's booleans are integers.
unfoldable pub advance : Option Json → Option ℤ → Option ℤ
advance (some (int n)) offset = some (plus_one n)
advance (some (bool true)) offset = some (pos 2)
advance (some (bool false)) offset = some (pos 1)
advance _ offset = offset

-- The truth of a value; the doubles 0.0 and -0.0 are false.
abbrev truthy : Json → Bool
truthy null = false
truthy (bool b) = b
truthy (int (pos n)) = not (eqb n 0)
truthy (int (negsuc n)) = true
truthy (float x) = not (eqb x 0 || eqb x 9_223_372_036_854_775_808)
truthy (str s) = not (s == "")
truthy (arr nil) = false
truthy (arr (cons x xs)) = true
truthy (obj end) = false
truthy (obj (field k v fs)) = true

-- `(update.get("callback_query") or {}).get("id")`
unfoldable pub callback_id : Option Json → Result (Option Json)
callback_id none = ok none
callback_id (some (obj fs)) = ok (lookup "id" fs)
callback_id (some value) =
    if truthy value then err (other_error "object has no attribute 'get'") else ok none

-- The text of the answer
abbrev text_of : Handled → Option String
text_of discarded = none
text_of approved = some "approved"
text_of already_approved = some "already-approved"
text_of expired = some "expired"
text_of rejected = some "rejected"
text_of hold = some "hold"

unfoldable pub answer_callback : Option Json → Handled → Poll → Poll
answer_callback none outcome s = s
answer_callback (some id) outcome s =
    if truthy id
    then record s {
      answers = s.answers ++ record { callback_id = id; text = text_of outcome } ∷ [];
    }
    else s

abbrev pub is_hold : Handled → Bool
is_hold hold = true
is_hold _ = false

-- The end of the round, and the poller and the world that it leaves
abbrev pub Outcome : Type 0
Outcome = Result (Unit {0}) × (Poll × World)

-- After the offset has advanced: the answer, and then the next updates
unfoldable pub go_on : Fields → Handled → (Poll → Outcome) → Poll → World → Outcome
go_on update outcome next s w = elim (callback_id (lookup "callback_query" update)) [
  | err e ↦ (err e, (s, w))
  | ok id ↦ next (answer_callback id outcome s)
]

abbrev pub confirmed : Fields → Poll → Poll
confirmed update s = record s { offset = advance (lookup "update_id" update) s.offset }

-- What follows the processing of an update
unfoldable pub settle_update : Fields → Result Handled → (Poll → Outcome) → Poll → World → Outcome
unfolding go_on
settle_update update (err e) next s w = (err e, (s, w))
settle_update update (ok outcome) next s w =
    if is_hold outcome then (ok tt, (s, w)) else go_on update outcome next (confirmed update s) w

module _ (env : Env) (p : Poller) where
  -- The loop over the updates
  unfoldable pub run_updates : List Fields → Poll → World → Outcome
  unfolding settle_update
  run_updates [] s w = (ok tt, (s, w))
  run_updates (update ∷ rest) s w =
      let (r, w1) = process_update env p update w in
      settle_update update r (λ s1. run_updates rest s1 w1) s w1

  -- `run_once`
  unfoldable pub run_once : (Option ℤ → Batch) → Poll → World → Outcome
  unfolding run_updates
  run_once get_updates s w = elim (get_updates s.offset) [
    | retry_after ↦ (ok tt, (s, w))
    | transport_failure ↦ (ok tt, (s, w))
    | updates list ↦ run_updates list s w
  ]
