-- ===== src/Telegram/Preview/Start.antt =====
-- telegram_approval.py: a preview has at least one part.
use Prim.Native.Char.{code}
use Prim.Native.String.{String}
use text.Mathlib.TextLemmas.{nil-append, cons-append}
use ops_guard.Prelude.{
  ℕ, zero, suc, ◌-◌, length, take, drop, ◌⊕◌, ◌++◌, Option, List, ◌∷◌, ◌≡◌, sym, ◌∙◌, ap, subst,
  arith,
}
use ops_guard.Json.{obj, arr}
use ops_guard.Errors.{ok, chain-ok, ok-injective}
use ops_guard.Env.{Env}
use ops_guard.Store.{ExecutionBinding}
use ops_guard.Text.{codes}
use ops_guard.Proposals.{FrozenProposal}
use package.ops_guard.Telegram.Preview.{
  Code, Dumps, chunks, number_parts, preview_part_limit, max_preview_parts, split_body,
  preview_body, redacted, build_preview_parts,
}

-- A text that starts with a character is cut into at least one chunk.
chunks_start :
    (limit budget c : ℕ) (text : Code) (pieces : List Code)
    → chunks limit budget (c ∷ text) ≡ ok pieces
    → (chunk : Code) × (rest : List Code) × (pieces ≡ chunk ∷ rest)
unfolding chunks
chunks_start limit zero c text pieces h = absurd (ground arith)
chunks_start limit (suc budget) c text pieces h =
    chain-ok (chunks limit budget (drop limit (c ∷ text))) _ h
      λ rest a h1. (take limit (c ∷ text), rest, sym (ok-injective h1))

split_start :
    (body : String) (c : ℕ) (text : Code) (parts : List Code)
    → codes body ≡ c ∷ text
    → split_body body ≡ ok parts
    → (part : Code) × (rest : List Code) × (parts ≡ part ∷ rest)
unfolding split_body number_parts
split_start body c text parts e h =
    chain-ok (chunks (preview_part_limit - 64) max_preview_parts (codes body)) _ h λ pieces a h1.
      let (chunk, rest, is) =
        chunks_start (preview_part_limit - 64) max_preview_parts c text pieces
          (subst (λ t. chunks (preview_part_limit - 64) max_preview_parts t ≡ ok pieces) e a) in
      (_, _, sym (ok-injective h1) ∙ ap (λ l. number_parts 1 (length l) l) is)

codes-append : (p s : String) → codes (p ⊕ s) ≡ codes p ++ codes s
codes-append String.[] s = ap codes (nil-append s)
codes-append (String.◌∷◌ c p) s =
    ap codes (cons-append c p s) ∙ ap (λ l. code c ∷ l) (codes-append p s)

module _ (env : Env) (dumps : Dumps) where
  body_start :
      (f : FrozenProposal) (refs : List String) (binding : Option ExecutionBinding) (body : String)
      → preview_body env dumps f refs binding ≡ ok body
      → (c : ℕ) × (text : Code) × (codes body ≡ c ∷ text)
  unfolding preview_body
  body_start f refs binding body h =
      chain-ok (redacted env (obj f.invocation.arguments)) _ h λ arguments a h1.
        chain-ok (redacted env (arr f.invocation.preconditions)) _ h1 λ preconditions b h2.
          (_, _, ap codes (sym (ok-injective h2)) ∙ codes-append "Proposal: " _)

  -- A preview has a part.
  pub preview_start :
      (f : FrozenProposal) (refs : List String) (binding : Option ExecutionBinding)
      (parts : List Code)
      → build_preview_parts env dumps f refs binding ≡ ok parts
      → (part : Code) × (rest : List Code) × (parts ≡ part ∷ rest)
  unfolding build_preview_parts
  preview_start f refs binding parts h =
      chain-ok (preview_body env dumps f refs binding) _ h λ body a h1.
        let (c, text, e) = body_start f refs binding body a in split_start body c text parts e h1
