-- ===== src/Invocation/Numbers.antt =====
-- Which integers a double represents: Python's `float(int)` and the guard of invocation.py.
use ops_guard.Prelude.{
  ℕ, zero, suc, ◌+◌, ◌*◌, ◌/◌, ◌%◌, ◌^◌, ◌&&◌, Option, none, some, ltb, eqb, if◌then◌else◌,
}
use ops_guard.Errors.{Result, ok, err, value_error, overflow_error}

-- The unit in the last place of a double near `n`: the least `2 ^ k` times `u` with
-- `n < 2 ^ 53 * u`. The fuel bounds the number of doublings.
unfoldable pub ulp_from : ℕ → ℕ → ℕ → ℕ
ulp_from zero n u = u
ulp_from (suc fuel) n u =
    let more = ulp_from fuel n (2 * u) in if ltb n (2 ^ 53 * u) then u else more

-- The multiple of `u` nearest to `n`, ties to the even one, as a count of `u`.
unfoldable pub round_half_even : ℕ → ℕ → ℕ
round_half_even n u =
    let q = n / u in
    let twice = 2 * (n % u) in
    if ltb twice u then q else if ltb u twice then q + 1 else if eqb (q % 2) 0 then q else q + 1

-- The bound of the doubles.
abbrev pub max_double : ℕ
max_double = 2 ^ 1024

-- `float(n)`, `none` for OverflowError. A number below `2 ^ 1024` needs at most 971 doublings.
unfoldable pub float_of_int : ℕ → Option ℕ
float_of_int n =
    let u = ulp_from 972 n 1 in
    let rounded = round_half_even n u * u in
    if ltb n max_double && ltb rounded max_double then some rounded else none

-- The test `abs(value) > 2**53 and float(value) != value` on a magnitude.
unfoldable pub check_int : ℕ → Result (Unit {0})
check_int n =
    if ltb (2 ^ 53) n
    then elim (float_of_int n) [
      | none ↦ err (overflow_error "int too large to convert to float")
      | some x ↦ if eqb x n then ok tt else err (value_error "integer is not exactly representable")
    ]
    else ok tt
