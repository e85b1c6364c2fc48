-- ===== src/Gate/Binding/Facts.antt =====
-- What each check of Gate/Binding has established when it passes.
use ops_guard.Prelude.{
  String, true, Option, none, some, ◌==◌, ◌≡◌, refl, sym, ◌∙◌, arith, ap, subst, eq_iff,
  Option-cases, inl, inr,
}
use ops_guard.Json.{arr}
use ops_guard.Errors.{Result, ok}
use ops_guard.Env.{Env, canonicalize_json}
use ops_guard.Store.{BindingRow, ExecutionBinding, binding_by_id}
use ops_guard.World.{World, lift, read}
use ops_guard.World.Steps.{lift-ok}
use ops_guard.World.Atomic.{looked}
use ops_guard.Proposals.Eligible.{read_binding-stored}
use ops_guard.Runbooks.{CitedPassage, resolve_citation}
use ops_guard.Authorization.{precondition_items}
use ops_guard.ExecutionBinding.{
  Catalog, CatalogEntry, RunnerProfile, binding_digest, entry_digest, profile_digest,
}
use ops_guard.Proposals.{FrozenProposal, resolve, fetch_binding_on}
use ops_guard.Gate.Stage.{ExecutionRequest, Gate, passed, ◌>>=◌, call}
use ops_guard.Gate.Stage.Passed.{bind-passed, attempt-passed}
use ops_guard.Gate.Binding.{
  evidence_handler, token_handler, resolve_evidence, resolve_token, resolve_binding_row,
  check_binding, resolve_script, check_entry, check_profile, check_catalog, match_evidence,
  find_entry, find_profile, bound_key,
}

-- The row is intact and belongs to the frozen invocation.
pub record IsIntact (env : Env) (frozen : FrozenProposal) (row : BindingRow) : Type 0 where
  pub digest : binding_digest env row.document ≡ ok row.binding_digest
  pub operation : row.document.invocation_digest ≡ frozen.invocation_digest

-- The catalog, if there is one, maps the bound key to the bound script and names the bound runner.
pub record IsMapped (env : Env) (catalog : Catalog) (frozen : FrozenProposal) (b : ExecutionBinding)
    : Type 0 where
  pub entry : CatalogEntry
  pub found : find_entry (bound_key frozen b) catalog.entries ≡ some entry
  pub entry_is : entry_digest env entry ≡ ok b.catalog_entry_digest
  pub script_sha256 : entry.script_sha256 ≡ b.script_sha256
  pub script_path : entry.script_path ≡ b.script_path
  pub profile : RunnerProfile
  pub named : find_profile b.runner_profile_id catalog.profiles ≡ some profile
  pub profile_is : profile_digest env profile ≡ ok b.runner_profile_digest

abbrev pub Maps : Env → Option Catalog → FrozenProposal → ExecutionBinding → Type 0
Maps env none frozen b = Unit
Maps env (some catalog) frozen b = IsMapped env catalog frozen b

-- The evidence describes the frozen invocation.
pub record Describes (env : Env) (request : ExecutionRequest) (frozen : FrozenProposal)
    (e : CitedPassage) : Type 0 where
  pub action : frozen.invocation.action ≡ e.operation_action
  pub target : frozen.invocation.target ≡ e.operation_target
  pub revision : frozen.invocation.runbook_revision_hash ≡ request.citation.content_hash
  pub form : String
  pub mine : env.canonicalize (arr frozen.invocation.preconditions) ≡ some form
  pub theirs : env.canonicalize (arr (precondition_items e.preconditions)) ≡ some form

module _ (env : Env) where
  pub resolve_evidence-passed :
      (gate : Gate) (request : ExecutionRequest) (w : World) {e : CitedPassage} {w' : World}
      → resolve_evidence gate request w ≡ (passed e, w')
      → (resolve_citation gate.runbooks request.citation ≡ ok e) × (w' ≡ w)
  unfolding resolve_evidence
  resolve_evidence-passed gate request w h =
      lift-ok (resolve_citation gate.runbooks request.citation) w (
        attempt-passed (lift (resolve_citation gate.runbooks request.citation)) evidence_handler w
          h)

  pub resolve_token-passed :
      (request : ExecutionRequest) (w : World) {f : FrozenProposal} {w' : World}
      → resolve_token env request w ≡ (passed f, w')
      → resolve env request.token request.expected_digest w ≡ (ok f, w')
  unfolding resolve_token
  resolve_token-passed request w h =
      attempt-passed (resolve env request.token request.expected_digest) token_handler w h

  digest-passed :
      {A : Type 0} (r : Result A) (w : World) {a : A} {w' : World}
      → call (lift r) w ≡ (passed a, w')
      → r ≡ ok a
  digest-passed r w h = ap (λ x. x.0) (attempt-passed (lift r) (λ _. none) w h)

  check_binding-passed :
      (frozen : FrozenProposal) (found : Option BindingRow) (w : World) {row : BindingRow}
      {w' : World}
      → check_binding env frozen found w ≡ (passed row, w')
      → (found ≡ some row) × IsIntact env frozen row
  unfolding check_binding ◌>>=◌
  check_binding-passed frozen none w h = absurd (ground arith)
  check_binding-passed frozen (some found) w {row} h =
      let (derived, p, h1) = bind-passed (call (lift (binding_digest env found.document))) _ w h in
      let (d, o, same) : (found.binding_digest == derived ≡ true)
          × (found.document.invocation_digest == frozen.invocation_digest ≡ true)
          × (found ≡ row) =
        ground arith in
      subst (λ r. (some found ≡ some r) × IsIntact env frozen r) same
        (
          refl,
          record {
            digest = rw ((eq_iff _ _).0 d) (digest-passed _ w p);
            operation = (eq_iff _ _).0 o;
          },
        )

  pub resolve_script-passed :
      (frozen : FrozenProposal) (b : ExecutionBinding) (w : World) {bytes : String} {w' : World}
      → resolve_script env frozen b w ≡ (passed bytes, w')
      → env.sha256 bytes ≡ b.script_sha256
  unfolding resolve_script ◌>>=◌
  resolve_script-passed frozen b w {bytes} h =
      let same : env.sha256 bytes == b.script_sha256 ≡ true = ground arith in (eq_iff _ _).0 same

  pub match_evidence-passed :
      (request : ExecutionRequest) (frozen : FrozenProposal) (e : CitedPassage) (w : World)
      {u : Unit {0}} {w' : World}
      → match_evidence env request frozen e w ≡ (passed u, w')
      → Describes env request frozen e
  unfolding match_evidence ◌>>=◌ canonicalize_json
  match_evidence-passed request frozen e w h =
      let mine = env.canonicalize (arr frozen.invocation.preconditions) in
      elim (Option-cases (env.canonicalize (arr frozen.invocation.preconditions))) [
        | inl p ↦ absurd (ground arith)
        | inr (x, p) ↦
            elim (Option-cases (env.canonicalize (arr (precondition_items e.preconditions)))) [
              | inl q ↦ absurd (ground arith)
              | inr (y, q) ↦
                  let (a, t, r, same) : (frozen.invocation.action == e.operation_action ≡ true)
                      × (frozen.invocation.target == e.operation_target ≡ true)
                      × (frozen.invocation.runbook_revision_hash == request.citation.content_hash
                          ≡ true)
                      × (x == y ≡ true) =
                    ground arith in
                  record {
                    action = (eq_iff _ _).0 a;
                    target = (eq_iff _ _).0 t;
                    revision = (eq_iff _ _).0 r;
                    form = x;
                    mine = p;
                    theirs = rw ((eq_iff x y).0 same) q;
                  }
            ]
      ]

  pub resolve_binding_row-passed :
      (frozen : FrozenProposal) (w : World) {row : BindingRow} {w' : World}
      → resolve_binding_row env frozen w ≡ (passed row, w')
      → (binding_by_id (looked env w).db frozen.proposal_id ≡ some row) × IsIntact env frozen row
  unfolding resolve_binding_row
  resolve_binding_row-passed frozen w h =
      let look = read env (fetch_binding_on env frozen.proposal_id) in
      let (found, p, h1) = bind-passed (call look) _ w h in
      let (is, intact) = check_binding-passed frozen found _ h1 in
      let (stored, _) =
        read_binding-stored env frozen.proposal_id w (attempt-passed look (λ _. none) w p) in
      (stored ∙ is, intact)

  -- What the catalog's entry must be
  record IsEntry (b : ExecutionBinding) (e : CatalogEntry) : Type 0 where
    is : entry_digest env e ≡ ok b.catalog_entry_digest
    sha256 : e.script_sha256 ≡ b.script_sha256
    path : e.script_path ≡ b.script_path

  check_entry-passed :
      (frozen : FrozenProposal) (b : ExecutionBinding) (found : Option CatalogEntry) (w : World)
      {u : Unit {0}} {w' : World}
      → check_entry env frozen b found w ≡ (passed u, w')
      → (e : CatalogEntry) × (found ≡ some e) × IsEntry b e
  unfolding check_entry
  check_entry-passed frozen b none w h = absurd (ground arith)
  check_entry-passed frozen b (some e) w h =
      let (derived, p, h1) = bind-passed (call (lift (entry_digest env e))) _ w h in
      let (d, s, t) : (derived == b.catalog_entry_digest ≡ true)
          × (e.script_sha256 == b.script_sha256 ≡ true)
          × (e.script_path == b.script_path ≡ true) =
        ground arith in
      (
        e,
        refl,
        record {
          is = rw (sym ((eq_iff _ _).0 d)) (digest-passed _ w p);
          sha256 = (eq_iff _ _).0 s;
          path = (eq_iff _ _).0 t;
        },
      )

  check_profile-passed :
      (frozen : FrozenProposal) (b : ExecutionBinding) (found : Option RunnerProfile) (w : World)
      {u : Unit {0}} {w' : World}
      → check_profile env frozen b found w ≡ (passed u, w')
      → (p : RunnerProfile) × (found ≡ some p) × (profile_digest env p ≡ ok b.runner_profile_digest)
  unfolding check_profile
  check_profile-passed frozen b none w h = absurd (ground arith)
  check_profile-passed frozen b (some e) w h =
      let (derived, p, h1) = bind-passed (call (lift (profile_digest env e))) _ w h in
      let d : derived == b.runner_profile_digest ≡ true = ground arith in
      (e, refl, rw (sym ((eq_iff _ _).0 d)) (digest-passed _ w p))

  pub check_catalog-passed :
      (catalog : Option Catalog) (frozen : FrozenProposal) (b : ExecutionBinding) (w : World)
      {u : Unit {0}} {w' : World}
      → check_catalog env catalog frozen b w ≡ (passed u, w')
      → Maps env catalog frozen b
  unfolding check_catalog
  check_catalog-passed none frozen b w h = tt
  check_catalog-passed (some c) frozen b w h =
      let (_, p, h1) =
        bind-passed (check_entry env frozen b (find_entry (bound_key frozen b) c.entries)) _ w h in
      let (e, found, is) = check_entry-passed frozen b _ w p in
      let (q, named, profile) = check_profile-passed frozen b _ _ h1 in
      record {
        entry = e;
        found = found;
        entry_is = is.is;
        script_sha256 = is.sha256;
        script_path = is.path;
        profile = q;
        named = named;
        profile_is = profile;
      }
