-- ===== src/Telegram/Notifier/Complete.antt =====
-- telegram_approval.py: the button stands on the final part, after every part was sent.
use ops_guard.Prelude.{
  ℕ, String, Bool, true, false, none, some, List, [], ◌∷◌, ◌++◌, ◌≡◌, ◌≢◌, refl, sym, ◌∙◌, ap,
  subst, arith, inl, inr, Bool-cases,
}
use mathlib.Core.List.{append-nil, append_assoc}
use ops_guard.Errors.{Error, Result, ok, err, ok-injective}
use ops_guard.Telegram.Preview.Start.{preview_start}
use ops_guard.Env.{Env}
use ops_guard.World.{World, lift, gets, read}
use ops_guard.World.Steps.{bind-ok, lift-ok}
use ops_guard.Proposals.{FrozenProposal, fetch_binding_on}
use ops_guard.Telegram.Payload.{callback_data_for}
use ops_guard.Telegram.Preview.{Code, Dumps, build_preview_parts}
use package.ops_guard.Telegram.Notifier.{
  Message, Chat, post, failed_call, Preview, prepare_preview, send_parts, send_preview, deliver,
  refs_in, document_of,
}

-- Messages without a button
abbrev pub plain : List Code → List Message
plain [] = []
plain (text ∷ texts) = record { text = text; button = none } ∷ plain texts

-- Some of the parts were sent, from the first on, and no button.
pub record IsCut (parts : List Code) (c c' : Chat) : Type 0 where
  pub shown : List Code
  pub left : List Code
  pub split : parts ≡ shown ++ left
  pub cut : left ≢ []
  pub messages : c'.messages ≡ c.messages ++ plain shown

-- All parts were sent, and the button on the final one.
pub record IsWhole (payload : String) (parts : List Code) (c c' : Chat) : Type 0 where
  pub shown : List Code
  pub final : Code
  pub split : parts ≡ shown ++ final ∷ []
  pub messages :
      c'.messages
      ≡ c.messages ++ (plain shown ++ record { text = final; button = some payload } ∷ [])

pub data IsSent (payload : String) (parts : List Code) (c : Chat) : Bool → Chat → Type 0 where
  cut : {c' : Chat} → IsCut parts c c' → IsSent payload parts c false c'
  whole : {c' : Chat} → IsWhole payload parts c c' → IsSent payload parts c true c'

extend :
    {payload : String} (part : Code) {parts : List Code} {c c' : Chat} {sent : Bool}
    → IsSent payload parts (post part none c) sent c'
    → IsSent payload (part ∷ parts) c sent c'
extend part {c = c} (cut k) = cut (record {
  shown = part ∷ k.shown;
  left = k.left;
  split = ap (λ l. part ∷ l) k.split;
  cut = k.cut;
  messages =
      k.messages
      ∙ append_assoc c.messages (record { text = part; button = none } ∷ []) (plain k.shown);
})
extend part {c = c} (whole k) = whole (record {
  shown = part ∷ k.shown;
  final = k.final;
  split = ap (λ l. part ∷ l) k.split;
  messages = k.messages ∙ append_assoc c.messages (record { text = part; button = none } ∷ []) _;
})

-- The first call failed.
unsent : (part : Code) (rest : List Code) (c : Chat) → IsCut (part ∷ rest) c (failed_call c)
unsent part rest c = record {
  shown = [];
  left = part ∷ rest;
  split = refl;
  cut = λ h. absurd (ground arith);
  messages = sym (append-nil c.messages);
}

module _ (succeeds : ℕ → Bool) where
  send_parts-IsSent :
      (payload : String) (part : Code) (rest : List Code) (c : Chat)
      → IsSent payload
          (part ∷ rest)
          c
          (send_parts succeeds payload (part ∷ rest) c).0
          (send_parts succeeds payload (part ∷ rest) c).1
  unfolding send_parts
  send_parts-IsSent payload part [] c = elim (Bool-cases (succeeds c.calls)) [
    | inr a ↦ rw (a, send_parts) (cut (unsent part [] c))
    | inl a ↦
        rw (a, send_parts)
          (whole (record { shown = []; final = part; split = refl; messages = refl }))
  ]
  send_parts-IsSent payload part (next ∷ rest) c = elim (Bool-cases (succeeds c.calls)) [
    | inr a ↦ rw (a, send_parts) (cut (unsent part (next ∷ rest) c))
    | inl a ↦
        rw (a, send_parts) (extend part (send_parts-IsSent payload next rest (post part none c)))
  ]

module _ (env : Env) (dumps : Dumps) where
  -- How a delivery ends: an exception came before the first message; or a call of Telegram failed,
  -- with some of the parts sent and no button; or the whole preview was sent, the button on its final
  -- part, with the payload that names the proposal.
  pub data IsDelivery (f : FrozenProposal) (c : Chat) (w : World)
      : Result Bool → Chat → Type 0 where
    failed : {e : Error} → IsDelivery f c w (err e) c
    sent :
        (p : Preview) (w1 : World) {all : Bool} {c' : Chat}
        → prepare_preview env dumps f w ≡ (ok p, w1)
        → callback_data_for f.proposal_id ≡ ok p.payload
        → IsSent p.payload p.parts c all c'
        → IsDelivery f c w (ok all) c'

  prepared :
      (f : FrozenProposal) (w : World) (p : Preview) (w1 : World)
      → prepare_preview env dumps f w ≡ (ok p, w1)
      → (callback_data_for f.proposal_id ≡ ok p.payload)
        × (part : Code) × (rest : List Code) × (p.parts ≡ part ∷ rest)
  unfolding prepare_preview
  prepared f w p w1 h = bind-ok (read env (gets (λ db. db.events))) _ w h λ events w2 a h1.
      bind-ok (read env (fetch_binding_on env f.proposal_id)) _ w2 h1 λ row w3 b h2.
        bind-ok
          (lift (build_preview_parts env dumps f (refs_in f.proposal_id events) (document_of row)))
          _ w3 h2
          λ parts w4 d h3.
            bind-ok (lift (callback_data_for f.proposal_id)) _ w4 h3 λ payload w5 g h4.
              let is = lift-ok (callback_data_for f.proposal_id) w4 g in
              let built =
                lift-ok
                  (build_preview_parts env dumps f (refs_in f.proposal_id events) (document_of row))
                  w3 d in
              let (part, rest, e) =
                preview_start env dumps f (refs_in f.proposal_id events) (document_of row) parts
                  built.0 in
              let same = ok-injective (ap (λ x. x.0) h4) in
              (is.0 ∙ ap (λ q. ok q.payload) same, part, rest, sym (ap (λ q. q.parts) same) ∙ e)

  module _ (succeeds : ℕ → Bool) where
    send_preview-IsDelivery :
        (f : FrozenProposal) (c : Chat) (w w1 : World) (r : Result Preview)
        → prepare_preview env dumps f w ≡ (r, w1)
        → IsDelivery f c w (send_preview succeeds r c).0 (send_preview succeeds r c).1
    unfolding send_preview
    send_preview-IsDelivery f c w w1 (err e) h = failed
    send_preview-IsDelivery f c w w1 (ok p) h =
        let (payload, part, rest, e) = prepared f w p w1 h in
        sent p w1 h payload (
          subst
            (λ l.
              IsSent p.payload l c (send_parts succeeds p.payload l c).0
                (send_parts succeeds p.payload l c).1)
            (sym e) (send_parts-IsSent succeeds p.payload part rest c))

    -- A delivery ends in one of three ways: it raises before the first message; or a call of Telegram
    -- fails, with some of the parts sent, from the first on, but not all, and no button; or all parts
    -- are sent, in order, with one button, on the final part, whose payload names the proposal.
    pub deliver-IsDelivery :
        (f : FrozenProposal) (c : Chat) (w : World)
        → IsDelivery f c w
            (deliver env dumps succeeds f c w).0
            (deliver env dumps succeeds f c w).1.0
    unfolding deliver
    deliver-IsDelivery f c w =
        send_preview-IsDelivery f c w (prepare_preview env dumps f w).1
          (prepare_preview env dumps f w).0 refl
