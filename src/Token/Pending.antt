-- ===== src/Token/Pending.antt =====
-- The calls that wait at a token, over any history of its operations.
pub mod Loop
pub mod History
pub mod Liveness
use rust_netx.Prelude.{
  ℕ, suc, ◌+◌, ◌<◌, ◌≡◌, refl, Bool, true, false, Option, none, some, List, [], ◌∷◌, ◌++◌, map,
  arith,
}
use rust_netx.Prelude.Dict.{Dict, lookup}
use rust_netx.Prelude.Deadlines.{InOrder, queued}
use rust_netx.Wire.{Wire, Reader, Result, Error, ok, err, panic}
use rust_netx.Answers.{Event}
use rust_netx.Token.{Token, new, register, set_result, set_error, set_peer, check_request_timeout}

-- A token with the number of channels made, and the clock.
pub record Session : Type 0 where
  pub token : Token
  pub next_tx : ℕ
  pub clock : ℕ

-- `call` up to its wait, an answer from the peer, an error, the periodic check, a new connection or
-- its end, and the passing of time.
pub data Op : Type 0 where
  calls : ℕ → Op
  answered : ℕ → Reader → Op
  fails : ℕ → Error → Op
  checks : ℕ → Op
  peers : Option ℕ → Op
  waits : ℕ → Op

abbrev after_register : Session → Result (Token × ℕ) → Session
after_register s (ok (t, p)) = record s { token = t; next_tx = suc s.next_tx }
after_register s _ = s

-- One operation, with the receivers that wait at that time.
pub step : Wire → Session → (ℕ → Bool) × Op → Session × List Event
step w s (rx, calls serial) = (after_register s (register s.token serial s.next_tx s.clock), [])
step w s (rx, answered serial dr) =
    let r = set_result rx w s.token serial dr in (record s { token = r.0 }, r.1)
step w s (rx, fails serial e) =
    let r = set_error rx s.token serial e in (record s { token = r.0 }, r.1)
step w s (rx, checks out) =
    let r = check_request_timeout rx s.clock out s.token in (record s { token = r.0 }, r.1)
step w s (rx, peers p) = (record s { token = set_peer s.token p }, [])
step w s (rx, waits d) = (record s { clock = s.clock + d }, [])

pub run : Wire → Session → List ((ℕ → Bool) × Op) → Session × List Event
run w s [] = (s, [])
run w s (op ∷ ops) = let r = step w s op in let rest = run w r.0 ops in (rest.0, r.1 ++ rest.1)

pub start : ℕ → ℕ → Session
start session_id now = record { token = new session_id; next_tx = 0; clock = now }

-- Every pending call has a deadline in the queue, and the queue is in order.
pub record IsServed (now : ℕ) (t : Token) : Type 0 where
  pub ordered : InOrder 0 now t.request_queue
  pub covered : (k c : ℕ) → lookup k t.result_dict ≡ some c → queued k t.request_queue ≡ true
