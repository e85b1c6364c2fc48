-- ===== src/Runbooks/Search/Evidence.antt =====
-- retrieval.py: what `search` returns from a loaded library can be cited.
use mathlib.Core.List.{Memᴰ}
use ops_guard.Prelude.{
  ℕ, String, false, List, [], ◌∷◌, ◌==◌, ◌≡◌, refl, sym, ap, subst, ◌∙◌, eq_iff, eq_refl, some,
}
use ops_guard.Prelude.Members.{find-mem}
use ops_guard.Json.{Json, Items}
use ops_guard.Errors.{ok}
use ops_guard.Text.{blank-ne-empty, hex-ne-empty}
use ops_guard.Env.{Env}
use package.ops_guard.Runbooks.{
  RunbookRevision, Library, CitedPassage, Passage, find_revision, resolve_citation,
}
use package.ops_guard.Runbooks.Resolve.{resolve_citation-exact}
use package.ops_guard.Runbooks.Parse.Passages.{IsFresh-find_passage, Spells, more}
use package.ops_guard.Runbooks.Parse.Verified.{IsVerified}
use package.ops_guard.Runbooks.Load.{load, Loaded}
use package.ops_guard.Runbooks.Load.Served.{load-IsVerified}
use package.ops_guard.Runbooks.Search.{SearchResult, citation, search_library}
use package.ops_guard.Runbooks.Search.Best.{search_library-IsBest}

-- A content hash names one revision of the library.
abbrev pub IsSeparate : Library → Type 0
IsSeparate library =
    (r q : RunbookRevision)
    → Memᴰ r library
    → Memᴰ q library
    → r.content_hash ≡ q.content_hash
    → r ≡ q

spelled-ne-empty :
    {its : Items} (ps : List Passage) (p : Passage)
    → Spells its ps
    → Memᴰ p ps
    → (p.locator == "") ≡ false
spelled-ne-empty [] p s m = elim m [ ]
spelled-ne-empty (q ∷ ps) p (more l t s) (Memᴰ.head e) =
    subst (λ x. (x.locator == "") ≡ false) (sym e) (blank-ne-empty q.locator l.1)
spelled-ne-empty (q ∷ ps) p (more l t s) (Memᴰ.tail m) = spelled-ne-empty ps p s m

-- The passage that the result shows, with the operation that it shows
pub record Shows (x : SearchResult) (p : CitedPassage) : Type 0 where
  pub citation : p.citation ≡ citation x
  pub text : p.passage.text ≡ x.passage_text
  pub action : p.operation_action ≡ x.operation_action
  pub target : p.operation_target ≡ x.operation_target
  pub preconditions : p.preconditions ≡ x.preconditions
  pub verifier : p.verifier ≡ x.verifier

abbrev cited : RunbookRevision → Passage → CitedPassage
cited r p = record {
  citation = record {
    runbook_id = r.runbook_id;
    revision = r.revision;
    content_hash = r.content_hash;
    locator = p.locator;
  };
  passage = p;
  operation_action = r.operation_action;
  operation_target = r.operation_target;
  preconditions = r.preconditions;
  verifier = r.verification.verifier;
}

module _ (env : Env) (library : Library) (separate : IsSeparate library) where
  found : (r : RunbookRevision) → Memᴰ r library → find_revision r.content_hash library ≡ some r
  unfolding find_revision
  found r m =
      let (q, f, n, e) =
        find-mem (λ (q : RunbookRevision). q.content_hash == r.content_hash) library r m
          (eq_refl r.content_hash) in
      f ∙ ap some (separate q r n m ((eq_iff _ _).0 e))

  cited_resolves :
      (document : Json) (r : RunbookRevision) (p : Passage)
      → IsVerified env document r
      → Memᴰ r library
      → Memᴰ p r.passages
      → resolve_citation library (cited r p).citation ≡ ok (cited r p)
  cited_resolves document r p v m n =
      let id = blank-ne-empty r.runbook_id v.read.runbook_id.1 in
      let name = blank-ne-empty r.revision v.read.revision.1 in
      let hash = hex-ne-empty r.content_hash v.hexadecimal in
      let place = spelled-ne-empty r.passages p v.read.passages.spells n in
      (resolve_citation-exact library (cited r p).citation (cited r p)).1 (record {
        complete = rw (id, name, hash, place) refl;
        revision = r;
        found = found r m;
        runbook_id = refl;
        revision_name = refl;
        passage = IsFresh-find_passage [] r.passages p v.read.passages.fresh n;
        citation = refl;
        action = refl;
        target = refl;
        preconditions = refl;
        verifier = refl;
      })

-- Whatever a search in a loaded library returns can be cited: in a library whose content hashes
-- name one revision each, the citation of a result resolves, to the passage, the operation and the
-- preconditions that the result shows.
pub search-IsCitable :
    (env : Env) (documents : List Json) (loaded : Loaded) (question : String) (limit : ℕ)
    (hits : List SearchResult) (x : SearchResult)
    → load env documents ≡ ok loaded
    → IsSeparate loaded.library
    → search_library loaded.library question limit ≡ ok hits
    → Memᴰ x hits
    → (p : CitedPassage) × (resolve_citation loaded.library (citation x) ≡ ok p) × Shows x p
unfolding citation
search-IsCitable env documents loaded question limit hits x l separate s m =
    let (a, b, best) = search_library-IsBest loaded.library question limit hits s in
    let h = best.hit x m in
    let (d, n, v) = load-IsVerified env documents loaded l h.revision h.of_library in
    let shown =
      cited_resolves env loaded.library separate d h.revision h.passage v h.of_library
        h.of_revision in
    subst
      (λ y. (p : CitedPassage) × (resolve_citation loaded.library (citation y) ≡ ok p) × Shows y p)
      (sym h.is)
      (
        cited h.revision h.passage,
        shown,
        record {
          citation = refl;
          text = refl;
          action = refl;
          target = refl;
          preconditions = refl;
          verifier = refl;
        },
      )
