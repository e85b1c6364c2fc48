-- ===== src/Telegram/Payload/RoundTrip.antt =====
-- The button's payload names its proposal, and nothing else does.
use Prim.Native.String.{String}
use text.Mathlib.TextLemmas.{nil-append, cons-append}
use ops_guard.Prelude.{ℕ, zero, suc, ◌+◌, true, false, some, ◌⊕◌, ◌≡◌, refl, ap, arith, ltb}
use ops_guard.Errors.{ok}
use package.ops_guard.Telegram.Payload.{
  approve_prefix, callback_data_limit, text_length, is_hex_text, strip_prefix, callback_data_for,
  parse_callback_data,
}

strip_prefix-append : (p s : String) → strip_prefix p (p ⊕ s) ≡ some s
unfolding strip_prefix
strip_prefix-append String.[] s = ap some (nil-append s)
strip_prefix-append (String.◌∷◌ c p) s =
    rw (cons-append c p s) (ground (arith, strip_prefix-append p s))

is_hex_text-length : (n : ℕ) (s : String) → is_hex_text n s ≡ true → text_length s ≡ n
unfolding is_hex_text text_length
is_hex_text-length zero String.[] h = refl
is_hex_text-length zero (String.◌∷◌ c s) h = absurd (ground arith)
is_hex_text-length (suc n) String.[] h = absurd (ground arith)
is_hex_text-length (suc n) (String.◌∷◌ c s) h = ground (arith, is_hex_text-length n s)

text_length-append : (p s : String) → text_length (p ⊕ s) ≡ text_length p + text_length s
unfolding text_length
text_length-append String.[] s = rw (nil-append s) (omega arith)
text_length-append (String.◌∷◌ c p) s =
    rw (cons-append c p s) (omega (arith, text_length-append p s))

prefix_length : text_length approve_prefix ≡ 8
unfolding text_length
prefix_length = refl

-- For a proposal id of 32 hexadecimal characters the button's payload exists, within Telegram's
-- limit, and is read back as this id.
pub parse_callback_data-callback_data_for :
    (id : String)
    → is_hex_text 32 id ≡ true
    → (payload : String) × (callback_data_for id ≡ ok payload)
      × (parse_callback_data payload ≡ some id)
unfolding callback_data_for parse_callback_data
parse_callback_data-callback_data_for id h =
    let short : ltb callback_data_limit (text_length (approve_prefix ⊕ id)) ≡ false =
      ground
        (arith, text_length-append approve_prefix id, is_hex_text-length 32 id h, prefix_length) in
    (approve_prefix ⊕ id, rw (h, short) refl, rw (strip_prefix-append approve_prefix id, h) refl)
