-- ===== src/Telegram/Poller/Loop/Conservative.antt =====
-- telegram_approval.py: a round confirms what it has settled, and nothing else.
use ops_guard.Prelude.{
  ℕ, suc, ◌≤◌, ◌<◌, ℤ, pos, true, false, Option, some, List, [], ◌∷◌, ◌++◌, ◌≡◌, refl, sym, ap, ◌∙◌,
  subst, arith, inl, inr, Bool-cases,
}
use ops_guard.Json.{Json, Fields, int, lookup}
use ops_guard.Errors.{Error, Result, ok, err, Result-cases}
use ops_guard.Env.{Env}
use ops_guard.World.{World}
use package.ops_guard.Telegram.Poller.{
  Poller, Handled, discarded, approved, already_approved, expired, rejected, hold, process_update,
}
use package.ops_guard.Telegram.Poller.Loop.{
  Batch, retry_after, transport_failure, updates, Poll, Outcome, callback_id, answer_callback,
  is_hold, confirmed, advance, go_on, settle_update, run_updates, run_once,
}

-- The updates have ids that rise from a number on.
pub data Numbered : ℕ → List Fields → Type 0 where
  done : {low : ℕ} → Numbered low []
  more :
      {low : ℕ} (n : ℕ) {update : Fields} {rest : List Fields}
      → lookup "update_id" update ≡ some (int (pos n))
      → low ≤ n
      → Numbered (suc n) rest
      → Numbered low (update ∷ rest)

-- The updates have ids below a number: an offset of that number confirms them.
pub data Below (high : ℕ) : List Fields → Type 0 where
  done : Below high []
  more :
      (n : ℕ) {update : Fields} {rest : List Fields}
      → lookup "update_id" update ≡ some (int (pos n))
      → n < high
      → Below high rest
      → Below high (update ∷ rest)

-- The offset after some updates were settled: as it was where there are none, with a mark that has
-- not moved, and otherwise the mark
abbrev pub IsAfter : Option ℤ → ℕ → List Fields → ℕ → Option ℤ → Type 0
IsAfter start low [] high offset = (offset ≡ start) × (high ≡ low)
IsAfter start low (update ∷ settled) high offset = offset ≡ some (pos high)

after_first :
    (low : ℕ) (settled : List Fields) (high : ℕ) (offset : Option ℤ)
    → IsAfter (some (pos low)) low settled high offset
    → offset ≡ some (pos high)
after_first low [] high offset (same, still) = same ∙ ap (λ n. some (pos n)) (sym still)
after_first low (update ∷ settled) high offset h = h

abbrev pub updates_of : Batch → List Fields
updates_of retry_after = []
updates_of transport_failure = []
updates_of (updates list) = list

module _ (env : Env) (p : Poller) where
  -- Each update was processed, in order, and did not end on hold.
  pub data AreSettled : World → List Fields → World → Type 0 where
    done : {w : World} → AreSettled w [] w
    more :
        {w w1 w2 : World} {update : Fields} {rest : List Fields} (outcome : Handled)
        → process_update env p update w ≡ (ok outcome, w1)
        → is_hold outcome ≡ false
        → AreSettled w1 rest w2
        → AreSettled w (update ∷ rest) w2

  -- Why a round ends with some updates left: there are none, the next is on hold, its processing
  -- raises, or the callback of the last cannot be read.
  pub data Stops (w : World) : List Fields → Result (Unit {0}) → World → Type 0 where
    finished : Stops w [] (ok tt) w
    held :
        {w' : World} {update : Fields} {rest : List Fields}
        → process_update env p update w ≡ (ok hold, w')
        → Stops w (update ∷ rest) (ok tt) w'
    raised :
        {w' : World} {update : Fields} {rest : List Fields} {e : Error}
        → process_update env p update w ≡ (err e, w')
        → Stops w (update ∷ rest) (err e) w'
    unreadable :
        {rest : List Fields} {e : Error} (update : Fields)
        → callback_id (lookup "callback_query" update) ≡ err e
        → Stops w rest (err e) w

  -- The round settles some of the updates, from the first on. The offset confirms these and none of
  -- the others.
  pub record IsConservative (start : Option ℤ) (low : ℕ) (list : List Fields) (w : World)
      (out : Outcome) : Type 0 where
    pub settled : List Fields
    pub left : List Fields
    pub split : list ≡ settled ++ left
    pub middle : World
    pub are_settled : AreSettled w settled middle
    pub high : ℕ
    pub rises : low ≤ high
    pub offset : IsAfter start low settled high out.1.0.offset
    pub confirmed : Below high settled
    pub redelivered : Numbered high left
    pub stops : Stops middle left out.0 out.1.1

  -- Nothing was settled.
  idle :
      {low : ℕ} {list : List Fields} (s : Poll) {w w' : World} {r : Result (Unit {0})}
      → Numbered low list
      → Stops w list r w'
      → IsConservative s.offset low list w (r, (s, w'))
  idle {low} {list} s {w} n st = record {
    settled = [];
    left = list;
    split = refl;
    middle = w;
    are_settled = AreSettled.done;
    high = low;
    rises = omega arith;
    offset = (refl, refl);
    confirmed = Below.done;
    redelivered = n;
    stops = st;
  }

  -- One more update was settled, before the others.
  settle_first :
      {start : Option ℤ} {low n : ℕ} {update : Fields} {rest : List Fields} {w w1 : World}
      {outcome : Handled} {out : Outcome}
      → process_update env p update w ≡ (ok outcome, w1)
      → is_hold outcome ≡ false
      → lookup "update_id" update ≡ some (int (pos n))
      → low ≤ n
      → IsConservative (some (pos (suc n))) (suc n) rest w1 out
      → IsConservative start low (update ∷ rest) w out
  settle_first {n = n} {update} {outcome = outcome} {out} a b i l c = record {
    settled = update ∷ c.settled;
    left = c.left;
    split = ap (λ list. update ∷ list) c.split;
    middle = c.middle;
    are_settled = AreSettled.more outcome a b c.are_settled;
    high = c.high;
    rises = omega (arith, c.rises);
    offset = after_first (suc n) c.settled c.high out.1.0.offset c.offset;
    confirmed = Below.more n i (omega (arith, c.rises)) c.confirmed;
    redelivered = c.redelivered;
    stops = c.stops;
  }

  confirmed_offset :
      (update : Fields) (s : Poll) (n : ℕ)
      → lookup "update_id" update ≡ some (int (pos n))
      → (confirmed update s).offset ≡ some (pos (suc n))
  unfolding advance
  confirmed_offset update s n h = rw (h, advance) refl

  answer_offset :
      (id : Option Json) (o : Handled) (s : Poll) → (answer_callback id o s).offset ≡ s.offset
  unfolding answer_callback
  answer_offset id o s = ground arith

  is_hold-hold : (outcome : Handled) → is_hold outcome ≡ true → outcome ≡ hold
  is_hold-hold hold h = refl
  is_hold-hold discarded h = absurd (ground arith)
  is_hold-hold approved h = absurd (ground arith)
  is_hold-hold already_approved h = absurd (ground arith)
  is_hold-hold expired h = absurd (ground arith)
  is_hold-hold rejected h = absurd (ground arith)

  go_on-IsConservative :
      (update : Fields) (rest : List Fields) (outcome : Handled) (next : Poll → Outcome) (s : Poll)
      (w : World) (n : ℕ)
      → Numbered n rest
      → ((s1 : Poll) → IsConservative s1.offset n rest w (next s1))
      → IsConservative s.offset n rest w (go_on update outcome next s w)
  unfolding go_on
  go_on-IsConservative update rest outcome next s w n l k =
      elim (Result-cases (callback_id (lookup "callback_query" update))) [
        | inl (id, a) ↦
            rw (a, go_on)
              (subst (λ o. IsConservative o n rest w (next (answer_callback id outcome s)))
                (answer_offset id outcome s) (k (answer_callback id outcome s)))
        | inr (e, a) ↦ rw (a, go_on) (idle s l (Stops.unreadable update a))
      ]

  run_updates-IsConservative :
      (list : List Fields) (s : Poll) (w : World) (low : ℕ)
      → Numbered low list
      → IsConservative s.offset low list w (run_updates env p list s w)
  unfolding run_updates
  run_updates-IsConservative [] s w low n = idle s n Stops.finished
  run_updates-IsConservative (update ∷ rest) s w low (Numbered.more n i l ns) =
      let out = process_update env p update w in
      let next : Poll → Outcome = λ s1. run_updates env p rest s1 out.1 in
      elim (Result-cases out.0) [
        | inr (e, a) ↦
            rw (a, settle_update)
              (idle s (Numbered.more n i l ns) (Stops.raised (λ j. (a j, out.1))))
        | inl (outcome, a) ↦ elim (Bool-cases (is_hold outcome)) [
          | inl b ↦
              rw (a, settle_update, b)
                (idle s (Numbered.more n i l ns) (
                  Stops.held
                    (λ j. (subst (λ x. out.0 ≡ ok x) (is_hold-hold outcome b) a j, out.1))))
          | inr b ↦
              rw (a, settle_update, b)
                (settle_first (λ j. (a j, out.1)) b i l
                  (subst
                    (λ o.
                      IsConservative o (suc n) rest out.1
                        (go_on update outcome next (confirmed update s) out.1))
                    (confirmed_offset update s n i)
                    (go_on-IsConservative update rest outcome next (confirmed update s) out.1
                      (suc n) ns (λ s1. run_updates-IsConservative rest s1 out.1 (suc n) ns))))
        ]
      ]

  -- A round over updates whose ids rise from a number on settles them in order, either all or those
  -- before one that is on hold or whose processing raises, or up to one whose callback cannot be
  -- read. Where none was settled, the offset stays as it was; otherwise it is above the id of each
  -- settled one and not above the id of any other.
  pub run_once-IsConservative :
      (get_updates : Option ℤ → Batch) (s : Poll) (w : World) (low : ℕ)
      → Numbered low (updates_of (get_updates s.offset))
      → IsConservative s.offset low
          (updates_of (get_updates s.offset))
          w
          (run_once env p get_updates s w)
  unfolding run_once
  run_once-IsConservative get_updates s w low n = received (get_updates s.offset) n
    where
      received :
          (batch : Batch)
          → Numbered low (updates_of batch)
          → IsConservative s.offset low (updates_of batch) w (elim batch [
            | retry_after ↦ (ok tt, (s, w))
            | transport_failure ↦ (ok tt, (s, w))
            | updates list ↦ run_updates env p list s w
          ])
      received retry_after m = idle s m Stops.finished
      received transport_failure m = idle s m Stops.finished
      received (updates list) m = run_updates-IsConservative list s w low m
