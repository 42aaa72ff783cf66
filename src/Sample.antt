-- ===== src/Sample.antt =====
-- The test programs netx_server/examples/test_server and netx_client/examples/test_client: their two
-- controllers, which call one another.
pub mod ServerSide
pub mod ClientSide
pub mod Recursion
mod Tests
use rust_netx.Prelude.{ℕ, ◌+◌, ◌-◌, ◌%◌, ◌^◌, Bool, ◌&&◌, not, leb, ltb, ◌==◌, if◌then◌else◌}
use rust_netx.Wire.{Result, ok, panic}

-- An i32 is its bit pattern. An overflow panics in a build with overflow checks and wraps in another.
abbrev pub is_negative : ℕ → Bool
is_negative a = leb (2 ^ 31) a

abbrev pub is_positive : ℕ → Bool
is_positive a = ltb 0 a && ltb a (2 ^ 31)

unfoldable pub add_i32 : Bool → ℕ → ℕ → Result ℕ
add_i32 checks a b =
    let sum = (a + b) % 2 ^ 32 in
    let over =
      if is_negative a
      then is_negative b && not (is_negative sum)
      else not (is_negative b) && is_negative sum in
    if checks && over then panic else ok sum

-- `a -= 1`
unfoldable pub sub_one : Bool → ℕ → Result ℕ
sub_one checks a = if checks && (a == 2 ^ 31) then panic else ok ((a + (2 ^ 32 - 1)) % 2 ^ 32)
