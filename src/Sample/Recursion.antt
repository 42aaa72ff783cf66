-- ===== src/Sample/Recursion.antt =====
-- The two methods `recursive_test` of netx_server/examples/test_server/test_controller.rs and
-- netx_client/examples/test_client/test_controller.rs, each of which calls the other.
use rust_netx.Prelude.{◌&&◌, ℕ, zero, suc, ◌-◌, ◌^◌, Bool, true, false, if◌then◌else◌, not, List}
use rust_netx.Wire.{
  Error, Result, ok, err, panic, anyhow, not_connect, token_disconnect, call_error, serial_time_out,
}
use rust_netx.Sample.ServerSide
use rust_netx.Sample.ClientSide

-- The id in the answer of a method that fails at the server, or at the client.
abbrev error_id : Bool → ℕ
error_id true = 2 ^ 32 - 1
error_id false = 1

-- A call that does not get through: the client has no connection to the server, or the token of the
-- session no peer.
abbrev lost_call : ℕ → Bool → Error
lost_call session_id true = anyhow not_connect
lost_call session_id false = token_disconnect session_id

module _ (text : Error → List ℕ) (session_id : ℕ) (serial : ℕ → ℕ) (back : ℕ → Bool)
    (checks : Bool) where
  -- The answer to a method at the server, if `at_server`, or at the client. A panic sends none.
  abbrev pub answer : ℕ → Bool → Result ℕ → Result ℕ
  answer n at_server (ok v) = ok v
  answer n at_server (err e) = err (call_error (error_id at_server) (text e))
  answer n at_server panic = err (serial_time_out (serial n))

  -- What the caller gets: the answer, if it comes back before the time for the call is over.
  abbrev pub remote : ℕ → Bool → Result ℕ → Result ℕ
  remote n at_server x = if back n then answer n at_server x else err (serial_time_out (serial n))

  -- What the caller of the method at one end gets, where `n` calls get through and the next one does
  -- not.
  unfoldable pub called : ℕ → Bool → ℕ → Result ℕ
  unfolding ServerSide.recursive_test ClientSide.recursive_test
  called zero at_server a = err (lost_call session_id at_server)
  called (suc n) true a = remote n true (ServerSide.recursive_test checks (called n false) a)
  called (suc n) false a = remote n false (ClientSide.recursive_test checks (called n true) a)

  -- The next `a` calls get through and are answered in time.
  unfoldable pub arrive : ℕ → ℕ → Bool
  arrive zero n = true
  arrive (suc a) zero = false
  arrive (suc a) (suc n) = back n && arrive a n

  -- The error of a call that fails, with `n` more that get through: its own time-out, or the text of
  -- the error of the call inside it.
  unfoldable pub failure : ℕ → Bool → Error
  failure zero at_server = lost_call session_id at_server
  failure (suc n) at_server =
      if back n
      then call_error (error_id at_server) (text (failure n (not at_server)))
      else serial_time_out (serial n)

module _ (text : Error → List ℕ) (session_id : ℕ) (serial : ℕ → ℕ) (back : ℕ → Bool)
    (checks : Bool) where
  abbrev call_at : ℕ → Bool → ℕ → Result ℕ
  call_at = called text session_id serial back checks

  abbrev error_at : ℕ → Bool → Error
  error_at = failure text session_id serial back checks

  abbrev all_arrive : ℕ → ℕ → Bool
  all_arrive = arrive text session_id serial back checks
