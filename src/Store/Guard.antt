-- ===== src/Store/Guard.antt =====
-- store.py: the guard of the connection that an audit callback gets. A statement is its code points.
pub mod Fuel
pub mod Prefix
pub mod Stem
pub mod Obscured
use ops_guard.Prelude.{
  ℕ, zero, suc, ◌+◌, String, Bool, true, false, not, ◌&&◌, ◌||◌, Option, none, some, List, [], ◌∷◌,
  ◌++◌, leb, eqb, if◌then◌else◌, length,
}
use ops_guard.Text.{codes, is_space, all_of, lowered, starts_with, same}
use ops_guard.Errors.{Error, Result, ok, err, ◌>>=◌, ◌>>◌, check, value_error}

abbrev pub Code : Type 0
Code = List ℕ

abbrev pub line_marker : Code
line_marker = b'-' ∷ b'-' ∷ []

abbrev pub block_marker : Code
block_marker = b'/' ∷ b'*' ∷ []

-- What follows the first newline
unfoldable pub after_newline : Code → Code
after_newline [] = []
after_newline (c ∷ cs) = if eqb c b'\n' then cs else after_newline cs

-- What follows the first `*/`; the flag says that the character before is a star.
unfoldable pub after_block : Bool → Code → Option Code
after_block star [] = none
after_block star (c ∷ cs) =
    let rest = after_block (eqb c b'*') cs in if star && eqb c b'/' then some cs else rest

-- How the loop of `_lead_keyword` ends: at the head of the statement, or in a comment that has no
-- end. The model's own end is that its fuel is spent.
pub data Head : Type 0 where
  at : Code → Head
  unterminated spent : Head

abbrev pub is_filler : ℕ → Bool
is_filler c = is_space c || eqb c b'(' || eqb c b';'

abbrev pub drop2 : Code → Code
drop2 [] = []
drop2 (c ∷ []) = []
drop2 (c ∷ d ∷ cs) = cs

-- What a round does: it goes on with the rest, or ends the loop.
pub data Round : Type 0 where
  go : Code → Round
  stop : Head → Round

abbrev pub after_comment : Option Code → Round
after_comment none = stop unterminated
after_comment (some rest) = go rest

-- One round takes one character or one comment.
unfoldable pub round : Code → Round
unfolding is_space starts_with after_newline after_block
round [] = stop (at [])
round (c ∷ cs) =
    if is_filler c
    then go cs
    else if starts_with line_marker (c ∷ cs)
    then go (after_newline (c ∷ cs))
    else if starts_with block_marker (c ∷ cs)
    then after_comment (after_block false (drop2 (c ∷ cs)))
    else stop (at (c ∷ cs))

-- The loop
unfoldable pub skip : ℕ → Code → Head
unfolding round
skip zero cs = spent
skip (suc fuel) cs = elim (round cs) [ go rest ↦ skip fuel rest | stop head ↦ head ]

-- `text.split(None, 1)[0]`, of a text that does not start with whitespace
unfoldable pub first_word : Code → Code
unfolding is_space
first_word [] = []
first_word (c ∷ cs) = if is_space c then [] else c ∷ first_word cs

-- `word.split(marker, 1)[0]`
unfoldable pub before : Code → Code → Code
unfolding starts_with
before marker [] = []
before marker (c ∷ cs) = if starts_with marker (c ∷ cs) then [] else c ∷ before marker cs

-- `word.rstrip(";")`
unfoldable pub rstrip : Code → Code
rstrip [] = []
rstrip (c ∷ cs) = elim (rstrip cs) [ [] ↦ if eqb c b';' then [] else c ∷ [] | d ∷ ds ↦ c ∷ d ∷ ds ]

-- `word.isascii() and word.isalpha()`, of a text in lower case
abbrev pub is_letter : ℕ → Bool
is_letter c = leb b'a' c && leb c b'z'

abbrev is_word : Code → Bool
is_word [] = false
is_word (c ∷ cs) = all_of is_letter (c ∷ cs)

-- The keyword at the head of a statement
unfoldable pub keyword : Code → Code
unfolding first_word lowered before rstrip
keyword cs = rstrip (before block_marker (before line_marker (lowered (first_word cs))))

abbrev settle : Code → Result Code
settle [] = ok []
settle (c ∷ cs) =
    if is_word (keyword (c ∷ cs))
    then ok (keyword (c ∷ cs))
    else err (value_error "statement does not start with a plain SQL keyword")

abbrev pub lead_of : Head → Result Code
lead_of (at cs) = settle cs
lead_of _ = ok []

-- `_lead_keyword`
unfoldable pub lead_keyword : String → Result Code
unfolding skip keyword all_of
lead_keyword sql = lead_of (skip (length (codes sql) + 1) (codes sql))

-- `_TRANSACTION_CONTROL`
abbrev pub transaction_control : List Code
transaction_control =
    codes "begin"
    ∷ codes "commit"
    ∷ codes "end"
    ∷ codes "rollback"
    ∷ codes "abort"
    ∷ codes "savepoint"
    ∷ codes "release"
    ∷ codes "vacuum"
    ∷ codes "attach"
    ∷ codes "detach"
    ∷ codes "delete"
    ∷ codes "drop"
    ∷ codes "alter"
    ∷ codes "truncate"
    ∷ codes "replace"
    ∷ []

unfoldable pub is_control : List Code → Code → Bool
unfolding same
is_control [] word = false
is_control (k ∷ ks) word = same k word || is_control ks word

abbrev is_allowed : Code → Bool
is_allowed [] = false
is_allowed (c ∷ cs) = not (is_control transaction_control (c ∷ cs))

abbrev not_allowed : Error
not_allowed = value_error "statement is not allowed inside an audit transaction callback"

abbrev judge_lead : Code → Result (Unit {0})
judge_lead lead = check (is_allowed lead) not_allowed

-- `_reject_transaction_control`, which `GuardedConnection.execute` and `executemany` call first
unfoldable pub reject_transaction_control : String → Result (Unit {0})
unfolding lead_keyword is_control
reject_transaction_control sql = do lead ← lead_keyword sql; judge_lead lead
