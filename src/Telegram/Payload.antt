-- ===== src/Telegram/Payload.antt =====
-- telegram_approval.py: `callback_data_for` and `parse_callback_data`.
pub mod RoundTrip
use Prim.Native.Char.{code}
use Prim.Native.String.{String}
use ops_guard.Prelude.{
  ℕ, zero, suc, Bool, true, false, ◌&&◌, ◌||◌, Option, none, some, ◌⊕◌, ltb, leb, eqb,
  if◌then◌else◌,
}
use ops_guard.Errors.{Result, ok, err, value_error}

-- `APPROVE_PREFIX`
abbrev pub approve_prefix : String
approve_prefix = "approve:"

-- `CALLBACK_DATA_LIMIT`
abbrev pub callback_data_limit : ℕ
callback_data_limit = 64

-- `len(text)`
unfoldable pub text_length : String → ℕ
text_length String.[] = zero
text_length (String.◌∷◌ c s) = suc (text_length s)

abbrev is_hex : ℕ → Bool
is_hex c = leb b'0' c && leb c b'9' || leb b'a' c && leb c b'f'

-- `PROPOSAL_ID_PATTERN.fullmatch`, for the number of characters that are still to come
unfoldable pub is_hex_text : ℕ → String → Bool
is_hex_text zero String.[] = true
is_hex_text zero (String.◌∷◌ c s) = false
is_hex_text (suc n) String.[] = false
is_hex_text (suc n) (String.◌∷◌ c s) = is_hex (code c) && is_hex_text n s

-- `data[len(prefix):]` where `data.startswith(prefix)`
unfoldable pub strip_prefix : String → String → Option String
strip_prefix String.[] s = some s
strip_prefix (String.◌∷◌ c p) String.[] = none
strip_prefix (String.◌∷◌ c p) (String.◌∷◌ d s) =
    let rest = strip_prefix p s in if eqb (code c) (code d) then rest else none

-- `callback_data_for`
unfoldable pub callback_data_for : String → Result String
callback_data_for id =
    if is_hex_text 32 id
    then (if ltb callback_data_limit (text_length (approve_prefix ⊕ id))
        then err (value_error "callback data exceeds the Telegram limit")
        else ok (approve_prefix ⊕ id))
    else err (value_error "proposal id must be 32 hexadecimal characters")

well_formed : Option String → Option String
well_formed none = none
well_formed (some id) = if is_hex_text 32 id then some id else none

-- `parse_callback_data`
unfoldable pub parse_callback_data : String → Option String
unfolding well_formed
parse_callback_data payload = well_formed (strip_prefix approve_prefix payload)
