-- ===== src/Manager/Tests.antt =====
-- The sessions of a server at concrete times.
use rust_netx.Prelude.{mem_key, ℕ, ◌≡◌, Bool, false, none, [], ◌∷◌, arith, if◌then◌else◌, ◌&&◌}
use rust_netx.Prelude.Dict.{lookup}
use rust_netx.Prelude.Deadlines.{due, waiting}
use rust_netx.Wire.{Result, ok}
use rust_netx.Token.{call_special_function}
use rust_netx.Manager.{World, start, check_tokens_disconnect_timeout}
use rust_netx.Manager.Expiry.{IsCalm, is_down, check_tokens_disconnect_timeout_exact}

abbrev all_up : ℕ → Result Bool
all_up p = ok false

-- Two sessions whose connections are over.
abbrev two_sessions : World
two_sessions = record (start 5000 9000) {
  dict = (9, 0) ∷ (11, 1) ∷ [];
  clear_queue = (9, 1000) ∷ (11, 8000) ∷ [];
}

two_sessions-IsCalm : IsCalm two_sessions
unfolding call_special_function
two_sessions-IsCalm k a h e = absurd cc

check_tokens_disconnect_timeout_exact_example :
    let r = check_tokens_disconnect_timeout all_up 12000 two_sessions in
    let over = due 12000 9000 two_sessions.clear_queue in
    ((r.0).clear_queue ≡ waiting 12000 9000 two_sessions.clear_queue)
    × ((k : ℕ)
        → lookup k (r.0).dict ≡ (
            if mem_key k over && is_down all_up two_sessions k
            then none
            else lookup k two_sessions.dict))
    × (r.2 ≡ ok tt)
check_tokens_disconnect_timeout_exact_example =
    check_tokens_disconnect_timeout_exact all_up 1000 12000 two_sessions (omega arith)
      (omega arith, (omega arith, omega arith)) two_sessions-IsCalm
