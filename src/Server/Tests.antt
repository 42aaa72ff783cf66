-- ===== src/Server/Tests.antt =====
-- Connections of the server at concrete bytes and times.
use rust_netx.Prelude.{
  Option, ◌==◌, ◌≢◌, ◌↔◌, if◌then◌else◌, ℕ, ◌+◌, ◌≡◌, refl, Bool, true, false, none, some, List, [],
  ◌∷◌, ◌++◌, arith,
}
use rust_netx.Prelude.Dict.{lookup, insert}
use rust_netx.Wire.{Result, ok, err, panic, io_error, serial_close, token_disconnect}
use rust_netx.Wire.Frame.{frame, frames}
use rust_netx.Wire.LittleEndian.{plain, length-le}
use rust_netx.Token.{
  Controller, set_peer, set_controller, new, send, is_disconnect, call_special_function,
}
use rust_netx.Manager.{
  get_token, create_token, peer_disconnect, update, World, start, check_tokens_disconnect_timeout,
}
use rust_netx.RetResult.{success}
use rust_netx.Server.Sessions.{IsTable}
use rust_netx.Server.Sessions.History.{
  Act, opens, attaches, ends, act, acts, sessions_never_mix, create_token_replaces,
}
use rust_netx.Server.{open_session, Reading, reading, data_reading, teardown, attach}
use rust_netx.Server.Commands.{data_reading_returns, data_reading-frames, serve_all}
use rust_netx.Server.Failures.{short_frame, cancelled_call_ends_connection, result_msg}
use rust_netx.Server.Teardown.{stale_teardown, session_after_teardown}
use rust_netx.Server.Leaks.{checks_at, failed_disconnect_leaks}
use rust_netx.Manager.Expiry.{IsCalm}

abbrev all_wait : ℕ → Bool
all_wait tx = true

abbrev nobody_waits : ℕ → Bool
nobody_waits tx = false

abbrev accepting : Controller
accepting type_tag cmd dr = ok success

abbrev fresh : Reading
fresh = reading (record (new 9) { peer = some 3; result_dict = (7, 0) ∷ [] })

data_reading_returns_example :
    (o : Reading × Result (Unit {0})) × (data_reading plain all_wait (ok tt) true (1 ∷ 2 ∷ []) fresh
      ≡ some o)
data_reading_returns_example = data_reading_returns plain all_wait (ok tt) true (1 ∷ 2 ∷ []) fresh

-- A request for the session's id, and a command that does not exist.
abbrev two_bodies : List (List ℕ)
two_bodies = plain.int 4 2000 ∷ plain.int 4 3 ∷ []

data_reading-frames_example :
    data_reading plain all_wait (ok tt) true (frames plain two_bodies) fresh
    ≡ some (serve_all plain all_wait (ok tt) true two_bodies fresh)
data_reading-frames_example =
    data_reading-frames plain all_wait (ok tt) true two_bodies fresh
      (omega (arith, length-le 4 2000), (omega (arith, length-le 4 3), tt))

short_frame_example :
    (data_reading plain all_wait (ok tt) true (plain.int 4 3 ++ (1 ∷ [])) fresh
      ≡ some (fresh, panic))
    × (data_reading plain all_wait (ok tt) false (plain.int 4 3 ++ (1 ∷ [])) fresh
        ≡ some (fresh, ok tt))
short_frame_example =
    short_frame plain all_wait (ok tt) 3 (1 ∷ []) fresh (omega arith) (omega arith)

fresh_waits : lookup 7 fresh.token.result_dict ≡ some 0
unfolding lookup
fresh_waits = refl

cancelled_call_ends_connection_example :
    (r' : Reading) × (data_reading plain nobody_waits
        (ok tt)
        true
        (frame plain (result_msg plain all_wait (ok tt) 7 (1 ∷ [])) ++ (5 ∷ []))
        fresh
      ≡ some (r', err (serial_close 7)))
cancelled_call_ends_connection_example =
    cancelled_call_ends_connection plain nobody_waits (ok tt) true 7 0 (1 ∷ []) (5 ∷ []) fresh
      (omega arith) (omega arith) fresh_waits refl

-- A server with the session 9, at the address 0.
abbrev one_session : World
one_session = record (start 5000 9000) { dict = (9, 0) ∷ []; tokens = λ a. new 9; next_addr = 1 }

stale_teardown_example :
    let t = (teardown (attach (attach one_session 0 3) 0 4) 0 1000).0.tokens 0 in
    (send ((attach (attach one_session 0 3) 0 4).tokens 0) ≡ ok 4)
    × (send t ≡ err (token_disconnect 9))
    × (is_disconnect (λ p. ok false) t ≡ true)
stale_teardown_example = stale_teardown one_session 0 3 4 1000 (λ p. ok false)

-- The same server, where the controller fails at every call.
abbrev failing : World
failing = record one_session {
  tokens = λ a. record (new 9) { controller = some (λ type_tag cmd dr. err io_error) };
}

failing_there : lookup 9 failing.dict ≡ some 0
unfolding lookup
failing_there = refl

failing_fails : call_special_function (failing.tokens 0) 2147483646 ≡ err io_error
unfolding call_special_function
failing_fails = refl

failed_disconnect_leaks_example :
    ((teardown failing 0 1000).1 ≡ err io_error)
    × (lookup 9 (checks_at (λ p. ok false) (20000 ∷ 40000 ∷ []) (teardown failing 0 1000).0).dict
        ≡ some 0)
failed_disconnect_leaks_example =
    failed_disconnect_leaks (λ p. ok false) failing 0 9 1000 io_error (20000 ∷ 40000 ∷ [])
      failing_there refl failing_fails

one_session_there : lookup 9 one_session.dict ≡ some 0
unfolding lookup
one_session_there = refl

one_session_closes : call_special_function (one_session.tokens 0) 2147483646 ≡ ok tt
unfolding call_special_function
one_session_closes = refl

one_session-IsCalm : IsCalm one_session
unfolding call_special_function
one_session-IsCalm k a h e = absurd cc

session_after_teardown_example :
    let s' = (teardown one_session 0 1000).0 in
    let check =
      λ (x : World). (check_tokens_disconnect_timeout (λ p. ok false) (1000 + 9500) x).0 in
    (lookup 9 (check s').dict ≡ none) × (lookup 9 (check (attach s' 0 4)).dict ≡ some 0)
session_after_teardown_example =
    session_after_teardown (λ p. ok false) one_session 0 9 500 9500 4 1000 one_session_there refl
      one_session_closes (omega arith) (omega arith) (omega arith) refl one_session-IsCalm

-- A session is made, taken by a connection and given up; a second one is made.
abbrev two_clients : List Act
two_clients =
    opens (some 70) (ok accepting) 0
    ∷ attaches 0 3
    ∷ ends 0 1000
    ∷ opens (some 80) (ok accepting) 70
    ∷ opens (some 90) (ok accepting) 0
    ∷ []

first_there : get_token (acts (start 5000 9000) two_clients) 70 ≡ some 0
unfolding get_token acts act open_session create_token lookup insert attach teardown peer_disconnect
    call_special_function set_peer set_controller update
first_there = refl

second_there : get_token (acts (start 5000 9000) two_clients) 90 ≡ some 1
unfolding get_token acts act open_session create_token lookup insert attach teardown peer_disconnect
    call_special_function set_peer set_controller update
second_there = refl

sessions_never_mix_example :
    (((acts (start 5000 9000) two_clients).tokens 0).session_id ≡ 70)
    × (◌≡◌ {A = ℕ} 0 1 ↔ ◌≡◌ {A = ℕ} 70 90)
sessions_never_mix_example =
    sessions_never_mix 5000 9000 70 90 0 1 two_clients first_there second_there

one_session-IsTable : IsTable one_session
one_session-IsTable = record { entry = λ k a e. unfold lookup in ground arith }

-- The same number from the clock again.
abbrev replaced : World
replaced = record one_session {
  dict = insert 9 1 one_session.dict;
  tokens = update one_session.tokens 1 (set_controller (new 9) accepting);
  next_addr = 2;
}

made_again : create_token one_session (some 9) (ok accepting) ≡ ok (replaced, 1)
unfolding create_token
made_again = refl

create_token_replaces_example :
    (id : ℕ) × (◌≡◌ {A = Option ℕ} (some 9) (some id))
    × ((j : ℕ) → lookup j replaced.dict ≡ (if id == j then some 1 else lookup j one_session.dict))
    × ((j b : ℕ) → lookup j one_session.dict ≡ some b → b ≢ 1)
    × IsTable replaced
create_token_replaces_example =
    create_token_replaces one_session replaced (some 9) (ok accepting) 1 one_session-IsTable
      made_again
