-- ===== src/Link/Remote/PeerTests.antt =====
-- A remote call of a concrete server to a concrete client.
use rust_netx.Prelude.{
  zero, suc, ℕ, ◌≡◌, refl, arith, Bool, true, none, some, List, [], ◌∷◌, codes, map,
}
use rust_netx.Prelude.Dict.{lookup}
use rust_netx.Wire.{Result, ok, err, anyhow, Error, controller_none, call_error}
use rust_netx.Wire.LittleEndian.{plain}
use rust_netx.RetResult.{error}
use rust_netx.Token
use rust_netx.Token.{Token}
use rust_netx.Token.Macros.{peer_value}
use rust_netx.Server
use rust_netx.Client.{Client, new}
use rust_netx.Client.Request.{pack_all}
use rust_netx.Client.Stream
use rust_netx.Builder.{FuncInfo, receiver, default_return}
use rust_netx.Builder.Generated.{find_func, call_generated}
use rust_netx.Builder.Generated.OneByte.{one_byte}
use rust_netx.Link.Remote.{unpacked, returned}
use rust_netx.Link.Remote.PeerCalls.{
  PeerServes, PeerTravels, given, waiting, peer_call_returns, peer_call_fails,
}

-- A function of one argument, which fails at 0.
abbrev before : FuncInfo
before = record {
  tag = 2000;
  tt = 2;
  func_name = codes "before";
  args_type = codes "u8" ∷ [];
  inputs = receiver ∷ [];
  input_names = [];
  output = default_return;
}

abbrev run : FuncInfo → List ℕ → Result ℕ
run f [] = ok 0
run f (zero ∷ vs) = err (anyhow controller_none)
run f (suc v ∷ vs) = ok v

abbrev text : Error → List ℕ
text e = codes "no"

abbrev all_wait : ℕ → Bool
all_wait tx = true

abbrev token : Token
token = record (Token.new 77) { peer = some 3 }

abbrev client : Client
client =
    record (new (record { service_name = []; verify_key = []; request_out_time_ms = 5000 }) 0) {
      net = some 2;
      mode = 1;
      controller = some (call_generated plain one_byte run (before ∷ []));
    }

at_client : Stream.Reading
at_client = Stream.reading plain all_wait (ok tt) client

before_found : find_func plain one_byte 2000 (before ∷ []) ≡ some before
unfolding find_func
before_found = refl

one_packed : (a : ℕ) → pack_all (map one_byte.pack (a ∷ [])) ≡ ok (a ∷ [])
unfolding pack_all
one_packed a = refl

one_free : lookup 1 token.result_dict ≡ none
unfolding lookup
one_free = refl

serves :
    (a : ℕ)
    → PeerServes plain one_byte text run
        (before ∷ [])
        before
        (a ∷ [])
        (a ∷ [])
        token
        client
        3
        6
        2000
serves a = record {
  connected = refl;
  free = one_free;
  controller = refl;
  framing = refl;
  found = before_found;
  asks_value = refl;
  typed = (tt, tt);
  is_packed = one_packed a;
  few = omega arith;
  fits = record {
    type_known = omega arith;
    cmd_fits = omega arith;
    serial_fits = omega arith;
    packed_fits = omega arith;
  };
}

peer_call_returns_example :
    PeerTravels plain one_byte text run
      (before ∷ [])
      before
      (8 ∷ [])
      (8 ∷ [])
      token
      client
      3
      6
      2000
      all_wait
      all_wait
      (ok tt)
      true
      4
      []
      (Server.reading token)
      at_client
      (returned plain (7 ∷ []))
    × (peer_value plain
          (given plain one_byte text run
            (before ∷ [])
            before
            (8 ∷ [])
            (8 ∷ [])
            token
            client
            3
            6
            2000
            (returned plain (7 ∷ [])))
          (unpacked one_byte (codes "u8"))
          token
          2000
          (map one_byte.pack (8 ∷ []))
        ≡ (
          waiting plain one_byte text run
              (before ∷ [])
              before
              (8 ∷ [])
              (8 ∷ [])
              token
              client
              3
              6
              2000,
          ok 7,
        ))
peer_call_returns_example =
    peer_call_returns plain one_byte text run (before ∷ []) before (8 ∷ []) (8 ∷ []) token client 3
      6 2000 all_wait all_wait (ok tt) true 4 [] (Server.reading token) at_client 7 (codes "u8")
      (7 ∷ []) (serves 8) refl refl tt refl (omega arith)

peer_call_fails_example :
    PeerTravels plain one_byte text run
      (before ∷ [])
      before
      (0 ∷ [])
      (0 ∷ [])
      token
      client
      3
      6
      2000
      all_wait
      all_wait
      (ok tt)
      true
      4
      []
      (Server.reading token)
      at_client
      (error 1 (codes "no"))
    × (peer_value plain
          (given plain one_byte text run
            (before ∷ [])
            before
            (0 ∷ [])
            (0 ∷ [])
            token
            client
            3
            6
            2000
            (error 1 (codes "no")))
          (unpacked one_byte (codes "u8"))
          token
          2000
          (map one_byte.pack (0 ∷ []))
        ≡ (
          waiting plain one_byte text run
              (before ∷ [])
              before
              (0 ∷ [])
              (0 ∷ [])
              token
              client
              3
              6
              2000,
          err (call_error 1 (codes "no")),
        ))
peer_call_fails_example =
    peer_call_fails plain one_byte text run (before ∷ []) before (0 ∷ []) (0 ∷ []) token client 3 6
      2000 all_wait all_wait (ok tt) true 4 [] (Server.reading token) at_client
      (anyhow controller_none) (unpacked one_byte (codes "u8")) (serves 0) refl refl refl
      (omega arith)
