-- ===== src/Gate/Checks/Facts.antt =====
-- gate.py: what holds of an execution that every check of the gate passed.
use ops_guard.Prelude.{String, some, ◌≡◌, sym, ◌∙◌, subst, ap}
use ops_guard.Errors.{ok}
use ops_guard.Env.{Env}
use ops_guard.World.{World}
use ops_guard.Runbooks.{CitedPassage, resolve_citation}
use ops_guard.Proposals.{FrozenProposal, resolve, token_digest}
use ops_guard.Proposals.Eligible.{IsEligible, ticked, resolve-IsEligible}
use ops_guard.Store.{BindingRow, proposal_by_token, binding_by_id}
use ops_guard.World.Within.{Idle, Idle-preorder}
use ops_guard.World.Atomic.{looked}
use ops_guard.Gate.Stage.{ExecutionRequest, Gate, passed}
use ops_guard.Gate.Stage.Passed.{bind-then, pass-passed, after-passed}
use ops_guard.Gate.Binding.{
  resolve_evidence, resolve_token, resolve_binding_row, resolve_script, check_catalog,
  match_evidence,
}
use ops_guard.Gate.Binding.Facts.{
  IsIntact, Maps, Describes, resolve_evidence-passed, resolve_token-passed,
  resolve_binding_row-passed, resolve_script-passed, check_catalog-passed, match_evidence-passed,
}
use ops_guard.Gate.Binding.Idle.{
  resolve_binding_row-Idle, resolve_script-Idle, check_catalog-Idle, match_evidence-Idle,
}
use ops_guard.Gate.Observe.Idle.{observe_all-Idle}
use ops_guard.Gate.Observe.{observe_all}
use ops_guard.Gate.Observe.Facts.{AllObserved, observe_all-passed}
use ops_guard.Gate.Authorize.{authorize}
use ops_guard.Gate.Authorize.Facts.{PathOf, authorize-passed}
use ops_guard.Gate.Dispatch.{Cleared}
use package.ops_guard.Gate.Checks.{checks}

-- All that the gate requires before it dispatches, of checks that start in `w`. The token is looked up
-- in what its read caught up with, the execution binding in what the next read did; the observations
-- and the authorization start later, in that order.
pub record IsSound (env : Env) (gate : Gate) (request : ExecutionRequest) (w : World) (c : Cleared)
    : Type 0 where
  pub evidence : CitedPassage
  pub cited : resolve_citation gate.runbooks request.citation ≡ ok evidence
  pub resolved : (resolve env request.token request.expected_digest w).0 ≡ ok c.frozen
  pub live :
      IsEligible env
        (proposal_by_token (looked env w).db (token_digest env request.token))
        request.expected_digest
        (looked env w).ticks
        c.frozen
  pub stored :
      binding_by_id (looked env (ticked (looked env w))).db c.frozen.proposal_id ≡ some c.binding
  pub intact : IsIntact env c.frozen c.binding
  pub script : env.sha256 c.script_bytes ≡ c.binding.document.script_sha256
  pub mapped : Maps env gate.catalog c.frozen c.binding.document
  pub described : Describes env request c.frozen evidence
  pub observing : World
  pub before_observing : Idle env (ticked (looked env w)) observing
  pub observed : AllObserved env gate request c.frozen observing 0 c.frozen.invocation.preconditions
  pub authorizing : World
  pub before_authorizing : Idle env observing authorizing
  pub authorized :
      PathOf env gate request c.frozen authorizing
        (record { path = c.binding.document.script_path; sha256 = env.sha256 c.script_bytes })
        c.binding.document.runner_profile_digest
        c.path

-- The token's proposal, when the world in which it is resolved is the one that the checks start in
resolved-live :
    (env : Env) (request : ExecutionRequest) (w w1 : World) {f : FrozenProposal} {w2 : World}
    → w1 ≡ w
    → resolve env request.token request.expected_digest w1 ≡ (ok f, w2)
    → ((resolve env request.token request.expected_digest w).0 ≡ ok f)
      × IsEligible env
          (proposal_by_token (looked env w).db (token_digest env request.token))
          request.expected_digest
          (looked env w).ticks
          f
      × (w2 ≡ ticked (looked env w))
resolved-live env request w w1 {f} {w2} same asked =
    let here : resolve env request.token request.expected_digest w ≡ (ok f, w2) =
      subst (λ v. resolve env request.token request.expected_digest v ≡ (ok f, w2)) same asked in
    let (live, next) = resolve-IsEligible env request.token request.expected_digest w here in
    (ap (λ r. r.0) here, live, next)

-- The checks between the token and the observations write nothing.
bound-Idle :
    (env : Env) (gate : Gate) (request : ExecutionRequest) (frozen : FrozenProposal)
    (row : BindingRow) (evidence : CitedPassage) {w2 w3 w4 w5 w6 : World} {bytes : String}
    {u v : Unit {0}}
    → resolve_binding_row env frozen w2 ≡ (passed row, w3)
    → resolve_script env frozen row.document w3 ≡ (passed bytes, w4)
    → check_catalog env gate.catalog frozen row.document w4 ≡ (passed u, w5)
    → match_evidence env request frozen evidence w5 ≡ (passed v, w6)
    → Idle env w2 w6
bound-Idle env gate request frozen row evidence {w2} {w3} {w4} {w5} {w6} p3 p4 p5 p6 =
    let chain = (Idle-preorder env).chain in
    let I = Idle env in
    chain w2 w3 w6 (after-passed I _ w2 (resolve_binding_row-Idle env frozen) p3) (
      chain w3 w4 w6 (after-passed I _ w3 (resolve_script-Idle env frozen row.document) p4) (
        chain w4 w5 w6
          (after-passed I _ w4 (check_catalog-Idle env gate.catalog frozen row.document) p5)
          (after-passed I _ w5 (match_evidence-Idle env request frozen evidence) p6)))

-- When every check passes: the citation resolves in the verified library; the token's stored proposal
-- is active, not expired by the clock as the check read it, has the expected digest, and is the
-- frozen one, whose bytes have their digest; the execution binding that is stored for this proposal
-- has its own digest and is of its invocation; the script's bytes have the bound digest; the catalog,
-- where there is one, maps the proposal to the bound script and runner; the evidence describes the
-- invocation; every precondition was observed afterwards with its required value; and the recorded
-- path is an exact standing authorization or, after the observations, a verified approval.
pub checks-IsSound :
    (env : Env) (gate : Gate) (request : ExecutionRequest) (w : World) {c : Cleared} {w' : World}
    → checks env gate request w ≡ (passed c, w')
    → IsSound env gate request w c
unfolding checks
checks-IsSound env gate request w {c} h =
    bind-then (resolve_evidence gate request) _ w h λ evidence w1 p1 h1.
      bind-then (resolve_token env request) _ w1 h1 λ frozen w2 p2 h2.
        bind-then (resolve_binding_row env frozen) _ w2 h2 λ row w3 p3 h3.
          bind-then (resolve_script env frozen row.document) _ w3 h3 λ bytes w4 p4 h4.
            bind-then (check_catalog env gate.catalog frozen row.document) _ w4 h4 λ _ w5 p5 h5.
              bind-then (match_evidence env request frozen evidence) _ w5 h5 λ _ w6 p6 h6.
                bind-then (observe_all env gate request frozen) _ w6 h6 λ seen w7 p7 h7.
                  bind-then
                    (authorize env gate request frozen
                      (record { path = row.document.script_path; sha256 = env.sha256 bytes })
                      row.document.runner_profile_digest)
                    _ w7 h7
                    λ path w8 p8 h8.
                      let (cited, same) = resolve_evidence-passed env gate request w p1 in
                      let asked = resolve_token-passed env request w1 p2 in
                      let (resolved, live, at2) = resolved-live env request w w1 same asked in
                      let (stored, intact) = resolve_binding_row-passed env frozen w2 p3 in
                      subst (IsSound env gate request w) (pass-passed _ c w8 _ h8) (record {
                        evidence = evidence;
                        cited = cited;
                        resolved = resolved;
                        live = live;
                        stored =
                            ap (λ v. binding_by_id (looked env v).db frozen.proposal_id) (sym at2)
                            ∙ stored;
                        intact = intact;
                        script = resolve_script-passed env frozen row.document w3 p4;
                        mapped = check_catalog-passed env gate.catalog frozen row.document w4 p5;
                        described = match_evidence-passed env request frozen evidence w5 p6;
                        observing = w6;
                        before_observing =
                            subst (λ v. Idle env v w6) at2
                              (bound-Idle env gate request frozen row evidence p3 p4 p5 p6);
                        observed = observe_all-passed env gate request frozen w6 p7;
                        authorizing = w7;
                        before_authorizing =
                            after-passed (Idle env) _ w6 (observe_all-Idle env gate request frozen)
                              p7;
                        authorized = authorize-passed env gate request frozen _ _ w7 p8;
                      })
