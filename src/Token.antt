-- ===== src/Token.antt =====
-- The server's side of a session, netx_server/src/server/async_token.rs. An operation takes the
-- token's state and returns the new state with what it sends. A oneshot channel is a number, and
-- `rx_open` says whether its receiver still waits; time is an argument, in milliseconds.
pub mod Timeout
pub mod Pending
pub mod Calls
pub mod Macros
mod Tests
use rust_netx.Prelude.{
  ℕ, ◌+◌, ◌-◌, ◌%◌, ◌^◌, Bool, true, false, Option, none, some, List, [], ◌∷◌, ◌++◌, if◌then◌else◌,
}
use rust_netx.Prelude.Dict.{Dict, lookup, insert, remove, contains_key}
use rust_netx.Prelude.Deadlines.{Deadlines, is_due, push_front}
use rust_netx.Wire.{
  Wire, Reader, reader, Error, Result, ok, err, panic, anyhow, controller_none, serial_close,
  serial_time_out, serial_have, token_disconnect, ◌>>=◌, ◌>>◌,
}
use rust_netx.Answers.{Event, sent}
use rust_netx.RetResult.{RetResult, error, from}

-- `IController::call`: the type tag, the command and its data.
abbrev pub Controller : Type 0
Controller = ℕ → ℕ → Reader → Result RetResult

pub record Token : Type 0 where
  pub session_id : ℕ
  pub controller : Option Controller
  pub peer : Option ℕ
  pub result_dict : Dict ℕ
  pub serial_atomic : ℕ
  pub request_queue : Deadlines

abbrev pub new : ℕ → Token
new session_id = record {
  session_id = session_id;
  controller = none;
  peer = none;
  result_dict = [];
  serial_atomic = 1;
  request_queue = [];
}

unfoldable pub call_special_function : Token → ℕ → Result (Unit {0})
call_special_function t cmd_tag = elim t.controller [
  | some c ↦ c 1 cmd_tag (reader (0 ∷ 0 ∷ 0 ∷ 0 ∷ [])) >> ok tt
  | none ↦ ok tt
]

-- `AsyncToken::execute_controller`
unfoldable pub run_controller : Token → ℕ → ℕ → Reader → Result RetResult
run_controller t type_tag cmd dr = elim t.controller [
  | some c ↦ c type_tag cmd dr
  | none ↦ err (anyhow controller_none)
]

-- The actor's `execute_controller` turns an error into a result with the id -1 and the text that
-- `format!` makes of the session, the command and the error.
abbrev pub error_result : (Error → List ℕ) → Result RetResult → Result RetResult
error_result text (ok res) = ok res
error_result text (err e) = ok (error (2 ^ 32 - 1) (text e))
error_result text panic = panic

unfoldable pub execute_controller :
    (ℕ → ℕ → Error → List ℕ) → Token → ℕ → ℕ → Reader → Result RetResult
unfolding run_controller
execute_controller text t type_tag cmd dr =
    error_result (text t.session_id cmd) (run_controller t type_tag cmd dr)

-- `fetch_add(1)` on an i64: the serial and the token with the next one.
unfoldable pub new_serial : Token → ℕ × Token
new_serial t = (t.serial_atomic, record t { serial_atomic = (t.serial_atomic + 1) % 2 ^ 64 })

unfoldable pub set_controller : Token → Controller → Token
set_controller t c = record t { controller = some c }

unfoldable pub clear_controller_fun_maps : Token → Token
clear_controller_fun_maps t = record t { controller = none }

unfoldable pub set_peer : Token → Option ℕ → Token
set_peer t peer = record t { peer = peer }

-- `send`: the connection that the bytes go to.
unfoldable pub send : Token → Result ℕ
send t = elim t.peer [ some p ↦ ok p | none ↦ err (token_disconnect t.session_id) ]

-- `is_disconnect`: `peer_down` is the answer of the peer.
unfoldable pub is_disconnect : (ℕ → Result Bool) → Token → Bool
is_disconnect peer_down t = elim t.peer [
  | some p ↦ elim (peer_down p) [ ok r ↦ r | _ ↦ true ]
  | none ↦ true
]

-- `match RetResult::from(dr)`: each result and error is logged.
abbrev pub log_unclaimed : Result RetResult → Result (Unit {0})
log_unclaimed panic = panic
log_unclaimed _ = ok tt

module _ (rx_open : ℕ → Bool) where
  abbrev pub send_result : ℕ → ℕ → Result (Unit {0})
  send_result serial tx = if rx_open tx then ok tt else err (serial_close serial)

  -- Take the channel `tx` of the serial out and send `v`; without one, return `missing`.
  abbrev pub answer :
      Token
      → ℕ
      → Result Reader
      → Result (Unit {0})
      → Option ℕ
      → Token × List Event × Result (Unit {0})
  answer t serial v missing (some tx) = (
    record t { result_dict = remove serial t.result_dict },
    sent rx_open tx v,
    send_result serial tx,
  )
  answer t serial v missing none = (t, [], missing)

  unfoldable pub set_error : Token → ℕ → Error → Token × List Event × Result (Unit {0})
  set_error t serial e = answer t serial (err e) (ok tt) (lookup serial t.result_dict)

  -- A result that nobody waits for is parsed for the log.
  unfoldable pub set_result : Wire → Token → ℕ → Reader → Token × List Event × Result (Unit {0})
  set_result w t serial dr =
      answer t serial (ok dr) (log_unclaimed (from w dr)) (lookup serial t.result_dict)

  -- `while let Some(item) = self.request_queue.pop_back()`
  unfoldable pub check_loop : ℕ → ℕ → Deadlines → Token → Token × List Event
  unfolding set_error
  check_loop now out [] t = (record t { request_queue = [] }, [])
  check_loop now out ((serial, at) ∷ q) t =
      let failed = set_error t serial (serial_time_out serial) in
      let rest = check_loop now out q failed.0 in
      if is_due now out at
      then (rest.0, failed.1 ++ rest.1)
      else (record t { request_queue = (serial, at) ∷ q }, [])

  unfoldable pub check_request_timeout : ℕ → ℕ → Token → Token × List Event
  unfolding check_loop
  check_request_timeout now out t = check_loop now out t.request_queue t

-- The part of `call` inside the actor: the new state, the peer to send to and the channel `tx`
-- that `oneshot()` made.
abbrev enqueue : Option ℕ → Deadlines → ℕ → ℕ → Deadlines
enqueue none q serial now = push_front serial now q
enqueue (some _) q serial now = q

unfoldable pub register : Token → ℕ → ℕ → ℕ → Result (Token × ℕ)
unfolding contains_key insert
register t serial tx now = elim t.peer [
  | some p ↦
      if contains_key serial t.result_dict
      then err serial_have
      else ok (
        record t {
          result_dict = insert serial tx t.result_dict;
          request_queue = enqueue (lookup serial t.result_dict) t.request_queue serial now;
        },
        p,
      )
  | none ↦ err (token_disconnect t.session_id)
]

-- `rx.await`: `none` is a channel whose sender was dropped.
unfoldable pub await_result : Wire → ℕ → Option (Result Reader) → Result RetResult
await_result w serial none = err (serial_close serial)
await_result w serial (some v) = v >>= from w

-- The whole `call`, with the outcome of `peer.send_all` and what the channel gives.
unfoldable pub call :
    Wire → Token → ℕ → ℕ → ℕ → Result (Unit {0}) → Option (Result Reader) → Token × Result RetResult
unfolding register await_result
call w t serial tx now sent_all given = elim (register t serial tx now) [
  | ok (t', p) ↦ (t', sent_all >> await_result w serial given)
  | err e ↦ (t, err e)
  | panic ↦ (t, panic)
]

-- `run`: the peer to send to, and the outcome of the send.
unfoldable pub run : Token → Result (Unit {0}) → Result (Unit {0})
unfolding send
run t sent_all = send t >> sent_all
