-- ===== src/Runbooks/Load/Served.antt =====
-- retrieval.py: what a loaded library serves and reports.
use mathlib.Core.List.{Memᴰ}
use ops_guard.Prelude.{ℕ, ◌+◌, true, List, [], ◌∷◌, ◌≡◌, refl, sym, subst, ◌∙◌, inl, inr}
use ops_guard.Json.{Json}
use ops_guard.Errors.{Error, ok, err, ok-injective, Result-cases}
use ops_guard.Env.{Env}
use package.ops_guard.Runbooks.{RunbookRevision, Library}
use package.ops_guard.Runbooks.Parse.{parse_revision}
use package.ops_guard.Runbooks.Parse.Verified.{IsVerified, parse_revision-IsVerified}
use package.ops_guard.Runbooks.Load.{Rejection, Loaded, serve, reject, load_from, load, is_excluded}
use package.ops_guard.Runbooks.Load.Raises.{Excludes, parse_revision-Excludes}

-- The documents from an index on, split in order: what parses is served, the rest is reported
-- under its index, with its exception.
pub data Splits (env : Env) : ℕ → List Json → Library → List Rejection → Type 0 where
  done : {index : ℕ} → Splits env index [] [] []
  served :
      {index : ℕ} {document : Json} {documents : List Json} {r : RunbookRevision} {rs : Library}
      {rejections : List Rejection}
      → parse_revision env document ≡ ok r
      → Splits env (index + 1) documents rs rejections
      → Splits env index (document ∷ documents) (r ∷ rs) rejections
  reported :
      {index : ℕ} {document : Json} {documents : List Json} {error : Error} {rs : Library}
      {rejections : List Rejection}
      → parse_revision env document ≡ err error
      → Splits env (index + 1) documents rs rejections
      → Splits env index
          (document ∷ documents)
          rs
          (record { document_index = index; error = error } ∷ rejections)

-- The loop returned, with such a split.
pub record IsLoaded (env : Env) (index : ℕ) (documents : List Json) : Type 0 where
  pub loaded : Loaded
  pub returned : load_from env index documents ≡ ok loaded
  pub splits : Splits env index documents loaded.library loaded.rejections

load_from-IsLoaded : (env : Env) (index : ℕ) (documents : List Json) → IsLoaded env index documents
unfolding load_from
load_from-IsLoaded env index [] = record {
  loaded = record { library = []; rejections = [] };
  returned = refl;
  splits = done;
}
load_from-IsLoaded env index (document ∷ documents) =
    let rest = load_from-IsLoaded env (index + 1) documents in
    elim (Result-cases (parse_revision env document)) [
      | inl (r, a) ↦ record {
        loaded = serve r rest.loaded;
        returned = rw (a, rest.returned) refl;
        splits = served a rest.splits;
      }
      | inr (error, a) ↦
          let b : is_excluded error ≡ true =
            subst Excludes a (parse_revision-Excludes env document) in
          record {
            loaded = reject index error rest.loaded;
            returned = rw (a, rest.returned, b) refl;
            splits = reported a rest.splits;
          }
    ]

-- Loading always returns, whatever the documents are: in order, each that parses is served and each
-- other is reported, under its index and with its exception.
pub load_splits :
    (env : Env) (documents : List Json)
    → (loaded : Loaded) × (load env documents ≡ ok loaded)
      × Splits env 0 documents loaded.library loaded.rejections
unfolding load
load_splits env documents =
    let l = load_from-IsLoaded env 0 documents in (l.loaded, l.returned, l.splits)

Splits-IsVerified :
    {env : Env} {index : ℕ} {documents : List Json} {library : Library}
    {rejections : List Rejection}
    → Splits env index documents library rejections
    → (r : RunbookRevision) → Memᴰ r library
    → (document : Json) × Memᴰ document documents × IsVerified env document r
Splits-IsVerified done r m = elim m [ ]
Splits-IsVerified {env} (served {document = d} {r = q} p s) r (Memᴰ.head e) =
    (d, Memᴰ.head refl, subst (IsVerified env d) (sym e) (parse_revision-IsVerified env d q p))
Splits-IsVerified (served p s) r (Memᴰ.tail m) =
    let (d, n, v) = Splits-IsVerified s r m in (d, Memᴰ.tail n, v)
Splits-IsVerified (reported p s) r m =
    let (d, n, v) = Splits-IsVerified s r m in (d, Memᴰ.tail n, v)

-- Every revision of a loaded library is verified by one of the documents.
pub load-IsVerified :
    (env : Env) (documents : List Json) (loaded : Loaded)
    → load env documents ≡ ok loaded
    → (r : RunbookRevision) → Memᴰ r loaded.library
    → (document : Json) × Memᴰ document documents × IsVerified env document r
load-IsVerified env documents loaded h r m =
    let (l, a, s) = load_splits env documents in
    let e : l ≡ loaded = ok-injective (sym a ∙ h) in
    Splits-IsVerified s r (subst (λ x. Memᴰ r x.library) (sym e) m)
