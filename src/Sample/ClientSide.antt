-- ===== src/Sample/ClientSide.antt =====
-- netx_client/examples/test_client/test_controller.rs. A method of the server that is called is an
-- argument, and a text is its bytes.
use rust_netx.Prelude.{ℕ, Bool, Option, none, some, List, [], if◌then◌else◌}
use rust_netx.Wire.{Result, ok, ◌>>=◌}
use rust_netx.Sample.{add_i32, sub_one, is_positive}

pub record TestController : Type 0 where
  pub name : List ℕ

abbrev pub new : TestController
new = record { name = [] }

unfoldable pub add_one : Bool → ℕ → Result ℕ
unfolding add_i32
add_one checks i = add_i32 checks i 1

unfoldable pub run : TestController → Option (List ℕ) → TestController × Result (Option (List ℕ))
run c (some name) = (record c { name = name }, ok none)
run c none = (c, ok none)

unfoldable pub recursive_test : Bool → (ℕ → Result ℕ) → ℕ → Result ℕ
unfolding sub_one
recursive_test checks server_recursive_test a =
    sub_one checks a >>= λ b. if is_positive b then server_recursive_test b else ok b
