-- ===== src/Recovery/Interrupted.antt =====
-- recovery.py and owner.py: what a recovery may follow, and what the log is after some.
use ops_guard.Prelude.{
  ℕ, String, true, false, ◌==◌, Option, some, List, [], ◌∷◌, ◌++◌, ◌≡◌, ◌⊎◌, refl, sym, ◌∙◌, ap,
  arith, Bool-cases, inl, inr,
}
use ops_guard.Json.{Json, Fields, obj, str, lookup, as_text}
use ops_guard.Store.{AuditEvent, EventType, unknown}
use ops_guard.Env.{Env, Lock, absent, unopenable, held, free}
use package.ops_guard.Recovery.{
  dead, starts, has_terminal, is_start, owner_of, text_or_empty, probe,
}

-- The event that a sweep writes for the execution that `start` began
pub record IsRecovery (start e : AuditEvent) : Type 0 where
  pub event_type : e.event_type ≡ EventType.execution_outcome
  pub correlation_id : e.correlation_id ≡ start.correlation_id
  pub proposal_ref : e.proposal_ref ≡ start.proposal_ref
  pub outcome : e.outcome ≡ some unknown
  pub failure_code : e.failure_code ≡ some "owner-dead"

abbrev pub Among : AuditEvent → List AuditEvent → Type 0
Among e [] = ⊥
Among e (d ∷ ds) = (d ≡ e) ⊎ Among e ds

-- The event is an execution start of the log.
pub record IsStart (log : List AuditEvent) (e : AuditEvent) : Type 0 where
  pub logged : Among e log
  pub event_type : e.event_type ≡ EventType.execution_start

abbrev pub AllStarts : List AuditEvent → List AuditEvent → Type 0
AllStarts log [] = Unit
AllStarts log (e ∷ es) = IsStart log e × AllStarts log es

is_start_sound : (t : EventType) → is_start t ≡ true → t ≡ EventType.execution_start
is_start_sound EventType.execution_start h = refl
is_start_sound _ h = absurd (ground arith)

pub starts-AllStarts :
    (log es : List AuditEvent)
    → ((e : AuditEvent) → Among e es → Among e log)
    → AllStarts log (starts es)
unfolding starts
starts-AllStarts log [] within = tt
starts-AllStarts log (e ∷ es) within =
    let rest = starts-AllStarts log es (λ d m. within d (inr m)) in
    elim (Bool-cases (is_start e.event_type)) [
      | inr h ↦ rw h rest
      | inl h ↦ rw h (
        record { logged = within e (inl refl); event_type = is_start_sound e.event_type h },
        rest,
      )
    ]

module _ (env : Env) where
  -- The start names its owner, and the lock of this owner was free when the sweep looked.
  pub record IsOwnerDead (start : AuditEvent) : Type 0 where
    pub payload : Fields
    pub is_payload : start.payload ≡ obj payload
    pub owner : String
    pub named : lookup "owner_id" payload ≡ some (str owner)
    pub known : owner == "" ≡ false
    pub looked : ℕ
    pub unlocked : env.lock looked owner ≡ free

  -- The events `before`, then some recoveries: each of an execution that an event of the log began,
  -- that had no terminal outcome yet, and whose owner is dead.
  pub data Recovers (log before : List AuditEvent) : List AuditEvent → Type 0 where
    same : Recovers log before before
    recover :
        (after : List AuditEvent) (start e : AuditEvent)
        → Recovers log before after
        → IsStart log start
        → has_terminal start.proposal_ref after ≡ false
        → IsOwnerDead start
        → IsRecovery start e
        → Recovers log before (after ++ e ∷ [])

  text_owner :
      (found : Option Json)
      → text_or_empty (as_text found) == "" ≡ false
      → (owner : String) × (found ≡ some (str owner)) × (text_or_empty (as_text found) ≡ owner)
  text_owner (some (str s)) h = (s, refl, refl)
  text_owner _ h = absurd (ground arith)

  owner_of-named :
      (payload : Json)
      → owner_of payload == "" ≡ false
      → (fs : Fields) × (payload ≡ obj fs) × (lookup "owner_id" fs ≡ some (str (owner_of payload)))
  unfolding owner_of
  owner_of-named (obj fs) h =
      let (owner, found, is) = text_owner (lookup "owner_id" fs) h in
      (fs, refl, found ∙ ap (λ s. some (str s)) (sym is))
  owner_of-named _ h = absurd (ground arith)

  probe-dead :
      (owner : String) (state : Lock)
      → probe owner state ≡ dead
      → (owner == "" ≡ false) × (state ≡ free)
  unfolding probe
  probe-dead owner absent h = absurd (ground arith)
  probe-dead owner unopenable h = absurd (ground arith)
  probe-dead owner held h = absurd (ground arith)
  probe-dead owner free h = ground arith

  pub probe-IsOwnerDead :
      (start : AuditEvent) (at : ℕ)
      → probe (owner_of start.payload) (env.lock at (owner_of start.payload)) ≡ dead
      → IsOwnerDead start
  probe-IsOwnerDead start at h =
      let (known, unlocked) = probe-dead (owner_of start.payload) _ h in
      let (fs, is, named) = owner_of-named start.payload known in
      record {
        payload = fs;
        is_payload = is;
        owner = owner_of start.payload;
        named = named;
        known = known;
        looked = at;
        unlocked = unlocked;
      }
