-- ===== src/Token/Tests.antt =====
-- A token's calls in a concrete history.
use rust_netx.Prelude.{
  mem_key, ℕ, ◌+◌, ◌≡◌, Bool, true, none, some, List, [], ◌∷◌, arith, if◌then◌else◌,
}
use rust_netx.Prelude.Dict.{lookup}
use rust_netx.Prelude.Deadlines.{due, waiting}
use rust_netx.Wire.{reader, err, io_error, serial_time_out}
use rust_netx.Wire.LittleEndian.{plain}
use rust_netx.Answers.{deliver, Event, Sent, IsTimeout}
use rust_netx.Answers.Once.{channels, Distinct}
use rust_netx.Token.{Token, new, check_request_timeout}
use rust_netx.Token.Timeout.{check_request_timeout_exact}
use rust_netx.Token.Pending.{Session, Op, calls, answered, fails, checks, peers, waits, run, start}
use rust_netx.Token.Pending.History.{run_answers_once, Served}
use rust_netx.Token.Pending.Liveness.{pending_calls_end}

abbrev all_wait : ℕ → Bool
all_wait tx = true

-- A connection, two calls, the answer to the first of them twice, and a check that ends the second.
abbrev history : List ((ℕ → Bool) × Op)
history =
    (all_wait, peers (some 3))
    ∷ (all_wait, calls 7)
    ∷ (all_wait, calls 8)
    ∷ (all_wait, answered 7 (reader []))
    ∷ (all_wait, answered 7 (reader []))
    ∷ (all_wait, waits 5000)
    ∷ (all_wait, checks 5000)
    ∷ (all_wait, fails 8 io_error)
    ∷ []

run_answers_once_example : Distinct (channels (run plain (start 5 1000) history).1)
run_answers_once_example = run_answers_once plain 5 1000 history

-- A token that waits for the serials 7 and 8.
abbrev waiting_token : Token
waiting_token = record (new 5) {
  peer = some 3;
  result_dict = (8, 1) ∷ (7, 0) ∷ [];
  request_queue = (7, 1000) ∷ (8, 4000) ∷ [];
}

check_request_timeout_exact_example :
    let r = check_request_timeout all_wait 6500 5000 waiting_token in
    let over = due 6500 5000 waiting_token.request_queue in
    ((r.0).request_queue ≡ waiting 6500 5000 waiting_token.request_queue)
    × ((k : ℕ)
        → lookup k (r.0).result_dict
          ≡ (if mem_key k over then none else lookup k waiting_token.result_dict))
    × ((k c : ℕ)
        → mem_key k over ≡ true
        → lookup k waiting_token.result_dict ≡ some c
        → all_wait c ≡ true
        → Sent (deliver c (err (serial_time_out k))) r.1)
    × ((e : Event) → Sent e r.1 → IsTimeout all_wait over waiting_token.result_dict e)
check_request_timeout_exact_example =
    check_request_timeout_exact all_wait 6500 5000 1000 waiting_token (omega arith)
      (omega arith, (omega arith, omega arith))

abbrev waiting_session : Session
waiting_session = record { token = waiting_token; next_tx = 2; clock = 4000 }

waiting_session-Served : Served waiting_session
waiting_session-Served = record {
  ordered = (omega arith, (omega arith, omega arith));
  covered = λ k c e. unfold lookup in ground arith;
}

pending_calls_end_example :
    let r = check_request_timeout all_wait (4000 + 5000) 5000 waiting_token in
    ((k : ℕ) → lookup k (r.0).result_dict ≡ none)
    × ((k c : ℕ)
        → lookup k waiting_token.result_dict ≡ some c
        → all_wait c ≡ true
        → Sent (deliver c (err (serial_time_out k))) r.1)
pending_calls_end_example =
    pending_calls_end all_wait waiting_session 1000 5000 5000 waiting_session-Served
      (omega arith, (omega arith, omega arith)) (omega arith) (omega arith)
