-- ===== src/Tests/Texts.antt =====
-- The guard of SQL statements and the parts of a preview.
use ops_guard.Prelude.{◌≤◌, ◌*◌, ◌-◌, String, true, List, [], ◌≡◌, ◌≢◌, ◌↔◌, refl, arith, length}
use ops_guard.Errors.{Error, ok, err}
use ops_guard.Text.{codes, lowered}
use ops_guard.Store.Guard.{
  Code, skip, spent, reject_transaction_control, is_control, transaction_control,
}
use ops_guard.Store.Guard.Fuel.{skip-ne-spent}
use ops_guard.Store.Guard.Prefix.{Skips, here, filler, block}
use ops_guard.Store.Guard.Obscured.{reject_obscured}
use ops_guard.Telegram.Preview.{Code as Part, split_body, max_preview_parts, preview_part_limit}
use ops_guard.Telegram.Preview.Bounds.{AreParts, split_body-exact}

abbrev hidden : String
hidden = " /* a */;CoMMit;"

skip-ne-spent_example : skip 17 (codes hidden) ≢ spent
skip-ne-spent_example = skip-ne-spent 17 (codes hidden) (omega arith)

is_commit : is_control transaction_control (lowered (codes "CoMMit")) ≡ true
unfolding ops_guard.Store.Guard.reject_transaction_control
is_commit = refl

skips : Skips (codes hidden) (codes "CoMMit;")
unfolding ops_guard.Text.is_space
skips = filler refl (block (codes " a ") (refl, (refl, (refl, tt))) refl (filler refl here))

reject_obscured_example : (error : Error) × (reject_transaction_control hidden ≡ err error)
unfolding ops_guard.Text.lower
reject_obscured_example =
    reject_obscured hidden b'C' (codes "oMMit") (codes ";") skips
      (refl, (refl, (refl, (refl, (refl, (refl, tt)))))) is_commit (b';', [], refl, refl)

split_body-exact_example :
    ((parts : List Part) → split_body "Proposal: p-1" ≡ ok parts → AreParts "Proposal: p-1" parts)
    × ((length (codes "Proposal: p-1") ≤ max_preview_parts * (preview_part_limit - 64))
        ↔ (parts : List Part) × (split_body "Proposal: p-1" ≡ ok parts))
split_body-exact_example = split_body-exact "Proposal: p-1"
