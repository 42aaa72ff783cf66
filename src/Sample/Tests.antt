-- ===== src/Sample/Tests.antt =====
-- The controllers of the test programs at concrete numbers.
use rust_netx.Prelude.{Bool, ℕ, List, [], ◌-◌, ◌^◌, ◌≡◌, refl, true, false, codes}
use rust_netx.Wire.{call_error, Error, ok, err, panic}
use rust_netx.Sample.{add_i32, sub_one}
use rust_netx.Sample.ServerSide
use rust_netx.Sample.Recursion.{called}

abbrev no_text : Error → List ℕ
no_text e = []

abbrev one : ℕ → ℕ
one n = 1

abbrev in_time : ℕ → Bool
in_time n = true

-- The number 2 with one call that gets through from the client, and none from the server.
a_call_is_lost : called no_text 7 one in_time true 1 true 2 ≡ err (call_error (2 ^ 32 - 1) [])
unfolding called ServerSide.recursive_test sub_one
a_call_is_lost = refl

-- The least i32 has no number below it.
below_least : (sub_one true (2 ^ 31) ≡ panic) × (sub_one false (2 ^ 31) ≡ ok (2 ^ 31 - 1))
unfolding sub_one
below_least = (refl, refl)

-- -1 + 1 is 0, and the greatest i32 and 1 wrap or panic.
sums :
    (add_i32 true (2 ^ 32 - 1) 1 ≡ ok 0)
    × (add_i32 true (2 ^ 31 - 1) 1 ≡ panic)
    × (add_i32 false (2 ^ 31 - 1) 1 ≡ ok (2 ^ 31))
unfolding add_i32
sums = (refl, refl, refl)

counted : ServerSide.add_one true (record { count = 4 }) 1 ≡ (record { count = 5 }, ok 2)
unfolding ServerSide.add_one add_i32
counted = refl

logged_on : ServerSide.logon (codes "username") (codes "password") ≡ ok (true, codes "1 Ok")
unfolding ServerSide.logon
logged_on = refl
