-- ===== src/Authorization/Exact.antt =====
-- authorization.py: `match` is all-or-nothing equality with the permitted invocation.
use ops_guard.Prelude.{
  String, Bool, true, false, Option, none, some, List, [], ◌∷◌, ◌≡◌, ◌↔◌, ap, refl, arith, eq_iff,
  eq_refl, Option-cases, inl, inr,
}
use ops_guard.Json.{Json, obj, arr}
use ops_guard.Env.{Env}
use ops_guard.Invocation.{Invocation}
use ops_guard.Authorization.{
  StandingAuthorization, ScriptIdentity, verdict, checks, optional_eq, canonical_eq, settle, match,
  precondition_items,
}

-- Both values have a canonical form, and it is the same.
pub record SameCanonical (env : Env) (a b : Json) : Type 0 where
  pub form : String
  pub left : env.canonicalize a ≡ some form
  pub right : env.canonicalize b ≡ some form

abbrev pub SameProfile : Option String → String → Type 0
SameProfile none right = Unit
SameProfile (some left) right = left ≡ right

-- Every bound field is the permitted one.
pub record IsExact (env : Env) (a : StandingAuthorization) (i : Invocation)
    (script : ScriptIdentity) (profile : Option String) : Type 0 where
  pub path : script.path ≡ a.script_path
  pub sha256 : script.sha256 ≡ a.script_sha256
  pub action : i.action ≡ a.action
  pub target : i.target ≡ a.target
  pub arguments : SameCanonical env (obj i.arguments) (obj a.arguments)
  pub preconditions :
      SameCanonical env (arr i.preconditions) (arr (precondition_items a.preconditions))
  pub revision : i.runbook_revision_hash ≡ a.runbook_revision_hash
  pub runner : SameProfile profile a.runner_profile_digest

-- The loop passes exactly when each of its checks holds.
abbrev AllHold : List (String × Bool) → Type 0
AllHold [] = Unit
AllHold ((_, b) ∷ rest) = (b ≡ true) × AllHold rest

verdict-AllHold :
    (id : String) (cs : List (String × Bool)) → (verdict id cs).matched ≡ true → AllHold cs
unfolding verdict
verdict-AllHold id [] h = tt
verdict-AllHold id ((f, true) ∷ cs) h = (refl, verdict-AllHold id cs h)
verdict-AllHold id ((f, false) ∷ cs) h = absurd (ground arith)

AllHold-verdict :
    (id : String) (cs : List (String × Bool)) → AllHold cs → (verdict id cs).matched ≡ true
unfolding verdict
AllHold-verdict id [] h = refl
AllHold-verdict id ((f, b) ∷ cs) h = rw (h.0) (AllHold-verdict id cs h.1)

module _ (env : Env) where
  canonical_eq_sound : (a b : Json) → canonical_eq env a b ≡ some true → SameCanonical env a b
  unfolding canonical_eq
  canonical_eq_sound a b h = elim (Option-cases (env.canonicalize a)) [
    | inl p ↦ absurd (ground arith)
    | inr (x, p) ↦ elim (Option-cases (env.canonicalize b)) [
      | inl q ↦ absurd (ground arith)
      | inr (y, q) ↦ record { form = x; left = p; right = ground (arith, eq_iff x y) }
    ]
  ]

  canonical_eq_complete : (a b : Json) → SameCanonical env a b → canonical_eq env a b ≡ some true
  unfolding canonical_eq
  canonical_eq_complete a b s = ground (arith, s.left, s.right, eq_refl s.form)

  optional_eq_sound : (p : Option String) (q : String) → optional_eq p q ≡ true → SameProfile p q
  optional_eq_sound none q h = tt
  optional_eq_sound (some p) q h = (eq_iff p q).0 h

  optional_eq_complete : (p : Option String) (q : String) → SameProfile p q → optional_eq p q ≡ true
  optional_eq_complete none q h = refl
  optional_eq_complete (some p) q h = (eq_iff p q).1 h

  module _ (a : StandingAuthorization) (i : Invocation) (script : ScriptIdentity)
      (profile : Option String) where
    AllHold-IsExact :
        (b c : Bool)
        → canonical_eq env (obj i.arguments) (obj a.arguments) ≡ some b
        → canonical_eq env (arr i.preconditions) (arr (precondition_items a.preconditions)) ≡ some c
        → AllHold (checks a i script profile b c)
        → IsExact env a i script profile
    AllHold-IsExact b c p q h = record {
      path = (eq_iff _ _).0 h.0;
      sha256 = (eq_iff _ _).0 h.1.0;
      action = (eq_iff _ _).0 h.1.1.0;
      target = (eq_iff _ _).0 h.1.1.1.0;
      arguments = canonical_eq_sound _ _ (rw p (ap some h.1.1.1.1.0));
      preconditions = canonical_eq_sound _ _ (rw q (ap some h.1.1.1.1.1.0));
      revision = (eq_iff _ _).0 h.1.1.1.1.1.1.0;
      runner = optional_eq_sound _ _ h.1.1.1.1.1.1.1.0;
    }

    settle-IsExact :
        (p q : Option Bool)
        → canonical_eq env (obj i.arguments) (obj a.arguments) ≡ p
        → canonical_eq env (arr i.preconditions) (arr (precondition_items a.preconditions)) ≡ q
        → (settle a i script profile p q).matched ≡ true
        → IsExact env a i script profile
    unfolding settle
    settle-IsExact (some b) (some c) p q h =
        AllHold-IsExact b c p q
          (verdict-AllHold a.authorization_id (checks a i script profile b c) h)
    settle-IsExact _ _ p q h = absurd (ground arith)

    IsExact-match : IsExact env a i script profile → (match env a i script profile).matched ≡ true
    unfolding match
    IsExact-match e =
        rw (canonical_eq_complete _ _ e.arguments, canonical_eq_complete _ _ e.preconditions)
          (AllHold-verdict a.authorization_id (checks a i script profile true true) (
            (eq_iff _ _).1 e.path,
            (
              (eq_iff _ _).1 e.sha256,
              (
                (eq_iff _ _).1 e.action,
                (
                  (eq_iff _ _).1 e.target,
                  (
                    refl,
                    (refl, ((eq_iff _ _).1 e.revision, (optional_eq_complete _ _ e.runner, tt))),
                  ),
                ),
              ),
            ),
          ))

    -- A standing authorization matches exactly when every bound field of the invocation, the
    -- script's path and digest and the runner profile equal the permitted ones, arguments and
    -- preconditions by their canonical form.
    pub match-IsExact :
        ((match env a i script profile).matched ≡ true) ↔ IsExact env a i script profile
    unfolding match
    match-IsExact = (settle-IsExact _ _ refl refl, IsExact-match)
