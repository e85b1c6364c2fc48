-- ===== src/Telegram/Preview/Bounds.antt =====
-- telegram_approval.py: the parts of a preview hold all of it, and each fits in a message.
use ops_guard.Prelude.{
  ℕ, zero, suc, ◌+◌, ◌-◌, ◌*◌, ◌≤◌, ◌<◌, String, List, [], ◌∷◌, ◌++◌, ◌≡◌, ◌↔◌, refl, ◌∙◌, ap,
  subst, arith, length, take, drop, length-append, lt→ltb,
}
use ops_guard.Prelude.Members.{length-take}
use ops_guard.Text.{codes}
use ops_guard.Errors.{ok, chain-ok, ok-injective}
use package.ops_guard.Telegram.Preview.{
  Code, chunks, decimal, header, number_parts, preview_part_limit, max_preview_parts, split_body,
}

abbrev pub flatten : List Code → Code
flatten [] = []
flatten (c ∷ cs) = c ++ flatten cs

take-drop : (n : ℕ) (xs : Code) → take n xs ++ drop n xs ≡ xs
unfolding take drop
take-drop zero xs = refl
take-drop (suc n) [] = refl
take-drop (suc n) (x ∷ xs) = ap (λ l. x ∷ l) (take-drop n xs)

length-drop : (n : ℕ) (xs : Code) → length (drop n xs) ≡ length xs - n
unfolding drop
length-drop zero xs = omega arith
length-drop (suc n) [] = omega arith
length-drop (suc n) (x ∷ xs) = omega (arith, length-drop n xs)

-- Each chunk is within the limit.
abbrev pub AreWithin : ℕ → List Code → Type 0
AreWithin limit [] = Unit {0}
AreWithin limit (c ∷ cs) = (length c ≤ limit) × AreWithin limit cs

pub chunks-AreWithin :
    (limit budget : ℕ) (text : Code) {cs : List Code}
    → chunks limit budget text ≡ ok cs
    → (flatten cs ≡ text) × (length cs ≤ budget) × AreWithin limit cs
unfolding chunks
chunks-AreWithin limit budget [] h =
    subst (λ cs. (flatten cs ≡ []) × (length cs ≤ budget) × AreWithin limit cs) (ok-injective h)
      (refl, omega arith, tt)
chunks-AreWithin limit zero (c ∷ text) h = absurd (ground arith)
chunks-AreWithin limit (suc budget) (c ∷ text) h =
    chain-ok (chunks limit budget (drop limit (c ∷ text))) _ h λ rest a h1.
      let (whole, few, within) = chunks-AreWithin limit budget (drop limit (c ∷ text)) a in
      subst (λ cs. (flatten cs ≡ c ∷ text) × (length cs ≤ suc budget) × AreWithin limit cs)
        (ok-injective h1)
        (
          ap (λ l. take limit (c ∷ text) ++ l) whole ∙ take-drop limit (c ∷ text),
          omega (arith, few),
          (length-take limit (c ∷ text), within),
        )

suc_mul : (b l : ℕ) → suc b * l ≡ b * l + l
suc_mul b l = grind arith

-- A text that is cut fits.
chunks_short :
    (limit budget : ℕ) (text : Code) {cs : List Code}
    → chunks limit budget text ≡ ok cs
    → length text ≤ budget * limit
unfolding chunks
chunks_short limit budget [] h = omega arith
chunks_short limit zero (c ∷ text) h = absurd (ground arith)
chunks_short limit (suc budget) (c ∷ text) h =
    chain-ok (chunks limit budget (drop limit (c ∷ text))) _ h λ rest a h1. omega (
      arith,
      chunks_short limit budget (drop limit (c ∷ text)) a,
      length-drop limit (c ∷ text),
      suc_mul budget limit,
    )

-- A text that fits is cut.
pub chunks_total :
    (limit budget : ℕ) (text : Code)
    → length text ≤ budget * limit
    → (cs : List Code) × (chunks limit budget text ≡ ok cs)
unfolding chunks
chunks_total limit budget [] h = ([], refl)
chunks_total limit zero (c ∷ text) h = absurd (omega arith)
chunks_total limit (suc budget) (c ∷ text) h =
    let (cs, a) =
      chunks_total limit budget (drop limit (c ∷ text))
        (omega (arith, length-drop limit (c ∷ text), suc_mul budget limit)) in
    (take limit (c ∷ text) ∷ cs, rw a refl)

digit : (rounds n : ℕ) → n < 10 → length (decimal rounds n) ≤ 1
unfolding decimal
digit zero n h = omega arith
digit (suc rounds) n h = rw (lt→ltb n 10 h) (omega arith)

length-header : (index total : ℕ) → index < 10 → total < 10 → length (header index total) ≤ 64
unfolding header
length-header index total h k = omega (
  arith,
  length-append (decimal index index) (b'/' ∷ (decimal total total ++ b']' ∷ b'\n' ∷ [])),
  length-append (decimal total total) (b']' ∷ b'\n' ∷ []),
  digit index index h,
  digit total total k,
)

number_parts-AreWithin :
    (index total limit : ℕ) (cs : List Code)
    → index + length cs ≤ suc total
    → total < 10
    → AreWithin limit cs
    → AreWithin (64 + limit) (number_parts index total cs)
unfolding number_parts
number_parts-AreWithin index total limit [] h k w = tt
number_parts-AreWithin index total limit (c ∷ cs) h k (w, ws) = (
  omega (arith, length-append (header index total) c, length-header index total (omega arith) k),
  number_parts-AreWithin (index + 1) total limit cs (omega arith) k ws,
)

length-number_parts :
    (index total : ℕ) (cs : List Code) → length (number_parts index total cs) ≡ length cs
unfolding number_parts
length-number_parts index total [] = refl
length-number_parts index total (c ∷ cs) = omega (arith, length-number_parts (index + 1) total cs)

-- The parts of a preview: numbered chunks of the whole body
pub record AreParts (body : String) (parts : List Code) : Type 0 where
  pub cut : List Code
  pub numbered : parts ≡ number_parts 1 (length cut) cut
  pub complete : flatten cut ≡ codes body
  pub few : length parts ≤ max_preview_parts
  pub within : AreWithin preview_part_limit parts

split_body-AreParts :
    (body : String) (parts : List Code) → split_body body ≡ ok parts → AreParts body parts
unfolding split_body
split_body-AreParts body parts h =
    chain-ok (chunks (preview_part_limit - 64) max_preview_parts (codes body)) _ h λ cut a h1.
      let (whole, few, within) =
        chunks-AreWithin (preview_part_limit - 64) max_preview_parts (codes body) a in
      subst (AreParts body) (ok-injective h1) (record {
        cut = cut;
        numbered = refl;
        complete = whole;
        few = omega (arith, few, length-number_parts 1 (length cut) cut);
        within =
            number_parts-AreWithin 1 (length cut) (preview_part_limit - 64) cut (omega arith)
              (omega (arith, few)) within;
      })

-- A preview is cut exactly when its body has at most 5 · 4032 characters. Its parts are then at most
-- five, numbered, and without their headers the whole body, nothing dropped; and each part, with its
-- header, has at most the 4096 characters of a Telegram message.
pub split_body-exact :
    (body : String)
    → ((parts : List Code) → split_body body ≡ ok parts → AreParts body parts)
      × ((length (codes body) ≤ max_preview_parts * (preview_part_limit - 64))
          ↔ (parts : List Code) × (split_body body ≡ ok parts))
unfolding split_body
split_body-exact body = (
  split_body-AreParts body,
  (
    λ h.
        let (cut, a) = chunks_total (preview_part_limit - 64) max_preview_parts (codes body) h in
        (number_parts 1 (length cut) cut, rw a refl),
    λ (parts, h).
        chain-ok (chunks (preview_part_limit - 64) max_preview_parts (codes body)) _ h
          λ cut a h1. chunks_short (preview_part_limit - 64) max_preview_parts (codes body) a,
  ),
)
