-- ===== src/Sample/ServerSide.antt =====
-- netx_server/examples/test_server/test_controller.rs. A method of the client that is called is an
-- argument, and a text is its bytes.
use rust_netx.Prelude.{
  ℕ, ◌+◌, ◌-◌, ◌%◌, ◌^◌, Bool, true, List, ◌&&◌, ◌==◌, if◌then◌else◌, codes, bytes_eq,
}
use rust_netx.Wire.{Result, ok, panic, ◌>>=◌}
use rust_netx.Sample.{add_i32, sub_one, is_positive}

pub record TestController : Type 0 where
  pub count : ℕ

abbrev pub create_controller : Result TestController
create_controller = ok (record { count = 0 })

unfoldable pub add : Bool → ℕ → ℕ → Result ℕ
unfolding add_i32
add checks a b = add_i32 checks a b

unfoldable pub to_client_add_one : (ℕ → Result ℕ) → ℕ → Result ℕ
to_client_add_one client_add_one a = client_add_one a

unfoldable pub recursive_test : Bool → (ℕ → Result ℕ) → ℕ → Result ℕ
unfolding sub_one
recursive_test checks client_recursive_test a =
    sub_one checks a >>= λ b. if is_positive b then client_recursive_test b else ok b

-- The `assert_eq!` of a wrong name or password panics.
unfoldable pub logon : List ℕ → List ℕ → Result (Bool × List ℕ)
logon username password =
    if bytes_eq username (codes "username") && bytes_eq password (codes "password")
    then ok (true, codes "1 Ok")
    else panic

pub record LogOnResult : Type 0 where
  pub success : Bool
  pub msg : List ℕ

unfoldable pub logon2 : List ℕ × List ℕ → Result LogOnResult
logon2 (username, password) =
    if bytes_eq username (codes "username") && bytes_eq password (codes "password")
    then ok (record { success = true; msg = codes "2 Ok" })
    else panic

-- The count, an i64, is set before the sum is made.
unfoldable pub add_one : Bool → TestController → ℕ → TestController × Result ℕ
unfolding add_i32
add_one checks c a =
    if checks && (c.count == 2 ^ 63 - 1)
    then (c, panic)
    else (record c { count = (c.count + 1) % 2 ^ 64 }, add_i32 checks a 1)

unfoldable pub get_all_count : TestController → Result ℕ
get_all_count c = ok c.count

unfoldable pub test_cow : Bool → Result (List ℕ)
test_cow is_str = ok (if is_str then codes "is static str" else codes "is string owned")
