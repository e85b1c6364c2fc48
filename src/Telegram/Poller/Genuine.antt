-- ===== src/Telegram/Poller/Genuine.antt =====
-- telegram_approval.py: which updates record an approval.
use ops_guard.Prelude.{
  ℤ, pos, negsuc, String, true, Option, none, some, ◌≡◌, refl, sym, ◌∙◌, ap, subst, arith,
  Option-cases, inl, inr,
}
use ops_guard.Json.{Json, Fields, int, obj, str, lookup}
use ops_guard.Errors.{Result, ok, err, Result-cases}
use ops_guard.Store.{ApprovalRow}
use ops_guard.Env.{Env}
use ops_guard.World.{World, lift}
use ops_guard.World.Steps.{bind-ok, lift-ok}
use ops_guard.World.Atomic.{begun}
use ops_guard.Approvals.Recorded.{IsRecording, record_approval_by_proposal_id-IsRecording}
use ops_guard.Telegram.Payload.{parse_callback_data}
use package.ops_guard.Telegram.Poller.{
  Poller, Disposition, discard, approve, same_int, is_id, is_bot, id_of, bind_bot_identity, pressed,
  judge_press, judge_callback, classify_update, approved, answer, approve_proposal, process,
  process_update,
}

-- The user pressed, in the chat, the button of a message that the bot sent, with the payload of this
-- proposal.
pub record IsGenuine (bot user chat : ℤ) (update : Fields) (id : String) : Type 0 where
  pub callback : Fields
  pub is_callback : lookup "callback_query" update ≡ some (obj callback)
  pub message : Fields
  pub is_message : lookup "message" callback ≡ some (obj message)
  pub presser : Fields
  pub is_presser : lookup "from" callback ≡ some (obj presser)
  pub by_operator : lookup "id" presser ≡ some (int user)
  pub author : Fields
  pub is_author : lookup "from" message ≡ some (obj author)
  pub by_bot : lookup "id" author ≡ some (int bot)
  pub room : Fields
  pub is_room : lookup "chat" message ≡ some (obj room)
  pub in_chat : lookup "id" room ≡ some (int chat)
  pub payload : String
  pub is_payload : lookup "data" callback ≡ some (str payload)
  pub names : parse_callback_data payload ≡ some id

same_int_sound : (m n : ℤ) → same_int m n ≡ true → m ≡ n
same_int_sound (pos m) (pos n) h = ground arith
same_int_sound (negsuc m) (negsuc n) h = ground arith
same_int_sound (pos m) (negsuc n) h = absurd (ground arith)
same_int_sound (negsuc m) (pos n) h = absurd (ground arith)

is_id_sound : (id : ℤ) (v : Option Json) → is_id id v ≡ true → v ≡ some (int id)
is_id_sound id (some (int n)) h = ap (λ k. some (int k)) (same_int_sound n id h)
is_id_sound id _ h = absurd (ground arith)

id_of_sound :
    (found : Option Json) {v : Option Json} {n : ℤ}
    → id_of found ≡ ok v
    → v ≡ some (int n)
    → (fs : Fields) × (found ≡ some (obj fs)) × (lookup "id" fs ≡ some (int n))
id_of_sound none h is = absurd (ground arith)
id_of_sound (some (obj fs)) h is = (fs, refl, ground arith)
id_of_sound (some _) h is = absurd (ground arith)

module _ (p : Poller) (me : ℤ) (is_bound : p.bot_id ≡ some me) where
  pressed-ok :
      (found : Option Json) (id : String)
      → pressed found ≡ approve id
      → (payload : String) × (found ≡ some (str payload)) × (parse_callback_data payload ≡ some id)
  pressed-ok (some (str payload)) id h = elim (Option-cases (parse_callback_data payload)) [
    | inl e ↦ absurd (ground arith)
    | inr (x, e) ↦ (payload, refl, ground arith)
  ]
  pressed-ok _ id h = absurd (ground arith)

  judge_press-ok :
      (update callback : Fields) (m s : Option Json) (id : String)
      → lookup "callback_query" update ≡ some (obj callback)
      → lookup "message" callback ≡ m
      → lookup "from" callback ≡ s
      → judge_press p callback m s ≡ ok (approve id)
      → IsGenuine me p.user_id p.chat_id update id
  unfolding judge_press
  judge_press-ok update callback (some (obj message)) (some (obj sender)) id c m s h =
      elim (Result-cases (id_of (lookup "from" message))) [
        | inr (e, x) ↦ absurd (ground arith)
        | inl (bot, x) ↦ elim (Result-cases (id_of (lookup "chat" message))) [
          | inr (e, y) ↦ absurd (ground arith)
          | inl (chat, y) ↦
              let (a, b, d, go) : (is_bot p.bot_id bot ≡ true)
                  × (is_id p.user_id (lookup "id" sender) ≡ true)
                  × (is_id p.chat_id chat ≡ true)
                  × (pressed (lookup "data" callback) ≡ approve id) =
                ground arith in
              let mine : is_id me bot ≡ true = ap (λ b. is_bot b bot) (sym is_bound) ∙ a in
              let (payload, f, g) = pressed-ok (lookup "data" callback) id go in
              let (author, is_author, by_bot) =
                id_of_sound (lookup "from" message) x (is_id_sound me bot mine) in
              let (room, is_room, in_chat) =
                id_of_sound (lookup "chat" message) y (is_id_sound p.chat_id chat d) in
              record {
                callback = callback;
                is_callback = c;
                message = message;
                is_message = m;
                presser = sender;
                is_presser = s;
                by_operator = is_id_sound p.user_id (lookup "id" sender) b;
                author = author;
                is_author = is_author;
                by_bot = by_bot;
                room = room;
                is_room = is_room;
                in_chat = in_chat;
                payload = payload;
                is_payload = f;
                names = g;
              }
        ]
      ]
  judge_press-ok update callback _ _ id c m s h = absurd (ground arith)

  judge_callback-ok :
      (update : Fields) (found : Option Json) (id : String)
      → lookup "callback_query" update ≡ found
      → judge_callback p found ≡ ok (approve id)
      → IsGenuine me p.user_id p.chat_id update id
  unfolding judge_callback
  judge_callback-ok update (some (obj callback)) id c h =
      judge_press-ok update callback _ _ id c refl refl h
  judge_callback-ok update _ id c h = absurd (ground arith)

  classify_update-IsGenuine :
      (update : Fields) (id : String)
      → classify_update p update ≡ ok (approve id)
      → IsGenuine me p.user_id p.chat_id update id
  unfolding classify_update
  classify_update-IsGenuine update id h = judge_callback-ok update _ id refl h

answer-approved :
    (r : Result ApprovalRow) → answer r ≡ ok approved → (row : ApprovalRow) × (r ≡ ok row)
unfolding answer
answer-approved (ok row) h = (row, refl)
answer-approved (err e) h = absurd (ground arith)

module _ (env : Env) (p : Poller) where
  process-approved :
      (what : Disposition) (w : World) {w' : World}
      → process env p what w ≡ (ok approved, w')
      → (id : String) × (what ≡ approve id)
        × (p.operator_identity ≡ p.configured_operator)
        × (row : ApprovalRow) × IsRecording env p.configured_operator id (begun env w) w' row
  unfolding process approve_proposal
  process-approved discard w h = absurd (ground arith)
  process-approved (approve id) w h =
      let (row, recorded) = answer-approved _ (ap (λ x. x.0) h) in
      let (same, is) =
        record_approval_by_proposal_id-IsRecording env p.configured_operator id p.operator_identity
          w (λ i. (recorded i, (h i).1)) in
      (id, refl, same, row, is)

-- An update that is answered as approved, once the bot's identity is bound, is genuine: the configured
-- operator pressed, in the configured chat, a button of this bot with the proposal's id. And its
-- approval was recorded for the verifier's operator: the stored proposal was active, unexpired by the
-- clock as it was read, and bound, and had no approval before.
pub process_update-IsGenuine :
    (env : Env) (p : Poller) (me : ℤ) (update : Fields) (w : World) {w' : World}
    → process_update env (bind_bot_identity me p) update w ≡ (ok approved, w')
    → (id : String) × IsGenuine me p.user_id p.chat_id update id
      × (p.operator_identity ≡ p.configured_operator)
      × (row : ApprovalRow) × IsRecording env p.configured_operator id (begun env w) w' row
unfolding process_update bind_bot_identity
process_update-IsGenuine env p me update w {w'} h =
    let q = record p { bot_id = some me } in
    bind-ok (lift (classify_update q update)) _ w h λ what w1 c go.
      let (classified, same) = lift-ok (classify_update q update) w c in
      let (id, is, identity, row, recording) = process-approved env q what w1 go in
      (
        id,
        classify_update-IsGenuine q me refl update id (classified ∙ ap ok is),
        identity,
        row,
        subst (λ v. IsRecording env p.configured_operator id (begun env v) w' row) same recording,
      )
