-- ===== src/Tools/Search/Audited.antt =====
-- retrieval.py: a search that returns is recorded, and one that is not recorded does not return.
use ops_guard.Prelude.{ℕ, String, List, [], ◌∷◌, ◌++◌, ◌≡◌, sym, ◌∙◌, ap, subst, arith}
use mathlib.Core.List.{append_assoc}
use ops_guard.Json.{str}
use ops_guard.Errors.{Error, ok, err}
use ops_guard.Store.{Db, AuditEvent}
use ops_guard.Env.{Env}
use ops_guard.World.{World, lift, new_uuid, transaction}
use ops_guard.World.Within.{Drifts, here}
use ops_guard.World.Steps.{bind-ok, bind-err, ok-ne-err, lift-ok, ok-injective}
use ops_guard.World.Unended.{IsUnended, unended_rules}
use ops_guard.Audit.Unended.{append_on-Unended}
use ops_guard.World.Atomic.{begun, begun-Drifts, transaction-done, transaction-undo}
use ops_guard.Audit.{append_on}
use ops_guard.Audit.Redact.{fingerprint}
use ops_guard.Audit.Order.{IsEvent, append_on-IsEvent}
use ops_guard.Runbooks.{Library}
use ops_guard.Runbooks.Search.{SearchResult, search_library}
use package.ops_guard.Tools.{converted}
use package.ops_guard.Tools.Convert.{converted-ok, converted-err}
use package.ops_guard.Tools.Search.{
  request_entry, guidance_entry, search_failure, record_search, search_runbook,
}

module _ (env : Env) where
  -- The two events of a search, and nothing else, were added.
  pub record IsRecorded (question : String) (limit : ℕ) (results : List SearchResult)
      (before after : Db) : Type 0 where
    pub print : String
    pub printed : fingerprint env env.fingerprint_key (str question) ≡ ok print
    pub correlation : String
    pub request : AuditEvent
    pub guidance : AuditEvent
    pub added : after ≡ record before { events = before.events ++ request ∷ guidance ∷ [] }
    pub is_request : IsEvent env (request_entry print limit correlation) before request
    pub is_guidance :
        IsEvent env
          (guidance_entry results correlation)
          (record before { events = before.events ++ request ∷ [] })
          guidance

  record_search-IsRecorded :
      (question : String) (limit : ℕ) (results : List SearchResult) (correlation : String)
      (w : World) {u : Unit {0}} {w' : World}
      → record_search env question limit results correlation w ≡ (ok u, w')
      → IsRecorded question limit results w.db w'.db
  unfolding record_search
  record_search-IsRecorded question limit results correlation w {u} {w'} h =
      bind-ok (lift (fingerprint env env.fingerprint_key (str question))) _ w h λ print w1 p h1.
        bind-ok (append_on env (request_entry print limit correlation)) _ w1 h1 λ r w2 q h2.
          bind-ok (append_on env (guidance_entry results correlation)) _ w2 h2 λ g w3 s h3.
            let (printed, same) =
              lift-ok (fingerprint env env.fingerprint_key (str question)) w p in
            let (first, is_request) = append_on-IsEvent env _ w1 q in
            let (second, is_guidance) = append_on-IsEvent env _ w2 s in
            let end : w'.db ≡ w3.db = sym (ap (λ x. x.1.db) h3) in
            let start : w1.db ≡ w.db = ap (λ v. v.db) same in
            let middle : w2.db ≡ record w.db { events = w.db.events ++ r ∷ [] } =
              ground (arith, first, start) in
            record {
              print = print;
              printed = printed;
              correlation = correlation;
              request = r;
              guidance = g;
              added =
                  ground (arith, end, second, middle, append_assoc w.db.events (r ∷ []) (g ∷ []));
              is_request =
                  subst (λ db. IsEvent env (request_entry print limit correlation) db r) start
                    is_request;
              is_guidance =
                  subst (λ db. IsEvent env (guidance_entry results correlation) db g) middle
                    is_guidance;
            }

  -- `search_runbook` returns only the results of the search, and then one transaction has added its
  -- two events, the request with a fingerprint of the question and the guidance with references to
  -- these results, under one correlation id, and nothing else.
  pub search_runbook-IsRecorded :
      (library : Library) (question : String) (limit : ℕ) (w : World) {results : List SearchResult}
      {w' : World}
      → search_runbook env library question limit w ≡ (ok results, w')
      → (search_library library question limit ≡ ok results)
        × (before : Db) × Drifts env w.db before
        × IsRecorded question limit results before w'.db
  unfolding search_runbook new_uuid
  search_runbook-IsRecorded library question limit w {results} {w'} h =
      bind-ok (lift (search_library library question limit)) _ w h λ found w1 p h1.
        bind-ok (new_uuid env) _ w1 h1 λ correlation w2 q h2.
          bind-ok
            (converted search_failure
              (transaction env (record_search env question limit found correlation)))
            _ w2 h2
            λ _ w3 r h3.
              let (v, body, committed) =
                transaction-done env _ w2 (converted-ok search_failure _ w2 r) in
              let (is, same) = lift-ok (search_library library question limit) w p in
              let hits = ok-injective (ap (λ x. x.0) h3) in
              let start : w2.db ≡ w.db = sym (ap (λ x. x.1.db) q) ∙ ap (λ v. v.db) same in
              let end : w'.db ≡ v.db = sym (ap (λ x. x.1.db) h3) ∙ committed in
              (
                is ∙ ap ok hits,
                (begun env w2).db,
                subst (λ db. Drifts env db (begun env w2).db) start (begun-Drifts env w2),
                subst (λ db. IsRecorded question limit results (begun env w2).db db) (sym end)
                    (subst (λ x. IsRecorded question limit x (begun env w2).db v.db) hits
                      (record_search-IsRecorded question limit found correlation (begun env w2)
                        body)),
              )

  record_search-Unended :
      (question : String) (limit : ℕ) (results : List SearchResult) (correlation : String)
      → IsUnended (record_search env question limit results correlation)
  unfolding record_search
  record_search-Unended question limit results correlation =
      search (unended_rules, append_on-Unended) depth 12

  -- A `search_runbook` that raises has written nothing.
  pub search_runbook-undo :
      (library : Library) (question : String) (limit : ℕ) (w : World) {e : Error} {w' : World}
      → search_runbook env library question limit w ≡ (err e, w')
      → Drifts env w.db w'.db
  unfolding search_runbook new_uuid
  search_runbook-undo library question limit w {e} {w'} h =
      bind-err (lift (search_library library question limit)) _ w h
        (λ p. subst (λ v. Drifts env w.db v.db) (ap (λ x. x.1) p) here)
        λ found w1 p h1.
          bind-err (new_uuid env) _ w1 h1 (λ q. absurd (ok-ne-err q))
            λ correlation w2 q h2.
              let (_, same) = lift-ok (search_library library question limit) w p in
              let start : w2.db ≡ w.db = sym (ap (λ x. x.1.db) q) ∙ ap (λ v. v.db) same in
              let store = transaction env (record_search env question limit found correlation) in
              bind-err (converted search_failure store) _ w2 h2
                (λ r.
                  let (x, raised) = converted-err search_failure store w2 r in
                  subst (λ db. Drifts env db w'.db) start
                    (transaction-undo env (record_search env question limit found correlation) w2
                      ((record_search-Unended question limit found correlation).at (begun env w2))
                      raised))
                (λ _ w3 r h3. absurd (ok-ne-err h3))
