-- ===== src/Link/Remote/Tests.antt =====
-- A remote call of one byte arguments between a concrete client and a concrete server.
use rust_netx.Prelude.{
  zero, suc, ℕ, ◌^◌, ◌-◌, ◌≡◌, refl, arith, Bool, true, none, some, List, [], ◌∷◌, codes, map,
}
use rust_netx.Prelude.Dict.{lookup}
use rust_netx.Wire.{Result, ok, err, anyhow, Error, controller_none, call_error}
use rust_netx.Wire.LittleEndian.{plain}
use rust_netx.Token.{Token}
use rust_netx.Token
use rust_netx.Server
use rust_netx.Client.{Client, new}
use rust_netx.Client.Calls.{await_result}
use rust_netx.RetResult.{success}
use rust_netx.Client.Request.{checked, value_of, pack_all}
use rust_netx.Client.Stream
use rust_netx.Builder.{FuncInfo, receiver, default_return}
use rust_netx.Builder.Generated.{find_func, call_generated}
use rust_netx.Builder.Generated.OneByte.{one_byte}
use rust_netx.Link.Call.{Fits}
use rust_netx.Link.Call.ToServer.{answered}
use rust_netx.Link.Remote.{Serves, unpacked, returned, failed}
use rust_netx.Link.Remote.Calls.{
  Ready, Travels, remote_call_returns, remote_call_fails, remote_call_completes,
}

-- A function of two arguments, which fails where the first is 0.
abbrev pick : FuncInfo
pick = record {
  tag = 5;
  tt = 2;
  func_name = codes "pick";
  args_type = codes "u8" ∷ codes "u8" ∷ [];
  inputs = receiver ∷ [];
  input_names = [];
  output = default_return;
}

abbrev run : FuncInfo → List ℕ → Result ℕ
run f [] = ok 0
run f (zero ∷ vs) = err (anyhow controller_none)
run f (suc v ∷ vs) = ok (suc v)

abbrev text : ℕ → ℕ → Error → List ℕ
text session_id cmd e = codes "no"

abbrev all_wait : ℕ → Bool
all_wait tx = true

abbrev token : Token
token = record (Token.new 77) {
  peer = some 3;
  controller = some (call_generated plain one_byte run (pick ∷ []));
}

abbrev client : Client
client =
    record (new (record { service_name = []; verify_key = []; request_out_time_ms = 5000 }) 0) {
      net = some 2;
      mode = 1;
    }

at_client : Stream.Reading
at_client = Stream.reading plain all_wait (ok tt) client

two-Fits : (a b : ℕ) → Fits 2 5 1 (a ∷ b ∷ [])
two-Fits a b = record {
  type_known = omega arith;
  cmd_fits = omega arith;
  serial_fits = omega arith;
  packed_fits = omega arith;
}

pick_found : find_func plain one_byte 5 (pick ∷ []) ≡ some pick
unfolding find_func
pick_found = refl

two_packed : (a b : ℕ) → pack_all (map one_byte.pack (a ∷ b ∷ [])) ≡ ok (a ∷ b ∷ [])
unfolding pack_all
two_packed a b = refl

serves :
    (a b : ℕ) → Serves plain one_byte text run (pick ∷ []) pick (a ∷ b ∷ []) (a ∷ b ∷ []) token 1 3
serves a b = record {
  controller = refl;
  connected = refl;
  found = pick_found;
  answers = omega arith;
  typed = (tt, (tt, tt));
  is_packed = two_packed a b;
  few = omega arith;
  fits = two-Fits a b;
}

one_free : lookup 1 client.result_dict ≡ none
unfolding lookup
one_free = refl

ready :
    (a b : ℕ)
    → Ready plain one_byte text run
        (pick ∷ [])
        pick
        (a ∷ b ∷ [])
        (a ∷ b ∷ [])
        token
        1
        3
        all_wait
        all_wait
        (ok tt)
        true
        2
        6
        2000
        3
        []
        client
        (Server.reading token)
        at_client
ready a b = record { has_net = refl; free = one_free; framing = refl; waits = refl }

remote_call_returns_example :
    Travels plain one_byte text run
      (pick ∷ [])
      pick
      (7 ∷ 8 ∷ [])
      (7 ∷ 8 ∷ [])
      token
      1
      3
      all_wait
      all_wait
      (ok tt)
      true
      2
      6
      2000
      3
      []
      client
      (Server.reading token)
      at_client
      (returned plain (7 ∷ []))
    × (value_of
          (unpacked one_byte (codes "u8"))
          (await_result plain 1 (some (ok (answered plain 1 (returned plain (7 ∷ []))))))
        ≡ ok 7)
remote_call_returns_example =
    remote_call_returns plain one_byte text run (pick ∷ []) pick (7 ∷ 8 ∷ []) (7 ∷ 8 ∷ []) token 1 3
      all_wait all_wait (ok tt) true 2 6 2000 3 [] client (Server.reading token) at_client 7
      (codes "u8") (7 ∷ []) (serves 7 8) (ready 7 8) refl refl tt refl (omega arith)

remote_call_fails_example :
    let res = failed plain (codes "no") in
    let got = await_result plain 1 (some (ok (answered plain 1 res))) in
    let failure = call_error (2 ^ 32 - 1) (codes "no") in
    Travels plain one_byte text run
      (pick ∷ [])
      pick
      (0 ∷ 8 ∷ [])
      (0 ∷ 8 ∷ [])
      token
      1
      3
      all_wait
      all_wait
      (ok tt)
      true
      2
      6
      2000
      3
      []
      client
      (Server.reading token)
      at_client
      res
    × (value_of (unpacked one_byte (codes "u8")) got ≡ err failure)
    × (checked got ≡ err failure)
remote_call_fails_example =
    remote_call_fails plain one_byte text run (pick ∷ []) pick (0 ∷ 8 ∷ []) (0 ∷ 8 ∷ []) token 1 3
      all_wait all_wait (ok tt) true 2 6 2000 3 [] client (Server.reading token) at_client
      (anyhow controller_none) (unpacked one_byte (codes "u8")) (serves 0 8) (ready 0 8) refl refl
      (omega arith)

-- A function that gives no value.
abbrev set_up : FuncInfo
set_up = record pick { tt = 1; func_name = codes "set_up" }

abbrev set_up_token : Token
set_up_token = record token { controller = some (call_generated plain one_byte run (set_up ∷ [])) }

set_up_found : find_func plain one_byte 5 (set_up ∷ []) ≡ some set_up
unfolding find_func
set_up_found = refl

set_up-Fits : Fits 1 5 1 (7 ∷ 8 ∷ [])
set_up-Fits = record {
  type_known = omega arith;
  cmd_fits = omega arith;
  serial_fits = omega arith;
  packed_fits = omega arith;
}

set_up_serves :
    Serves plain one_byte text run (set_up ∷ []) set_up (7 ∷ 8 ∷ []) (7 ∷ 8 ∷ []) set_up_token 1 3
set_up_serves = record {
  controller = refl;
  connected = refl;
  found = set_up_found;
  answers = omega arith;
  typed = (tt, (tt, tt));
  is_packed = two_packed 7 8;
  few = omega arith;
  fits = set_up-Fits;
}

set_up_ready :
    Ready plain one_byte text run
      (set_up ∷ [])
      set_up
      (7 ∷ 8 ∷ [])
      (7 ∷ 8 ∷ [])
      set_up_token
      1
      3
      all_wait
      all_wait
      (ok tt)
      true
      2
      6
      2000
      3
      []
      client
      (Server.reading set_up_token)
      at_client
set_up_ready = record { has_net = refl; free = one_free; framing = refl; waits = refl }

remote_call_completes_example :
    Travels plain one_byte text run
      (set_up ∷ [])
      set_up
      (7 ∷ 8 ∷ [])
      (7 ∷ 8 ∷ [])
      set_up_token
      1
      3
      all_wait
      all_wait
      (ok tt)
      true
      2
      6
      2000
      3
      []
      client
      (Server.reading set_up_token)
      at_client
      success
    × (checked (await_result plain 1 (some (ok (answered plain 1 success)))) ≡ ok tt)
remote_call_completes_example =
    remote_call_completes plain one_byte text run (set_up ∷ []) set_up (7 ∷ 8 ∷ []) (7 ∷ 8 ∷ [])
      set_up_token 1 3 all_wait all_wait (ok tt) true 2 6 2000 3 [] client
      (Server.reading set_up_token) at_client 7 set_up_serves set_up_ready refl refl
