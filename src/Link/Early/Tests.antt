-- ===== src/Link/Early/Tests.antt =====
-- An early call of a concrete client.
use rust_netx.Prelude.{
  ℕ, ◌<◌, ◌≡◌, refl, Bool, true, none, some, List, [], ◌∷◌, ◌++◌, arith, codes, length,
}
use rust_netx.Prelude.Dict.{lookup}
use rust_netx.Wire.{ok}
use rust_netx.Wire.LittleEndian.{plain, le}
use rust_netx.Token
use rust_netx.Server
use rust_netx.Server.{data_reading}
use rust_netx.Client.{Client, new, new_serial}
use rust_netx.Client.Calls.{start_call}
use rust_netx.Client.Connect.{open_network}
use rust_netx.Client.Request.{request}
use rust_netx.Client.Macros.{Given, connect_first}
use rust_netx.Client.Calls.Starts.{waiting_for}
use rust_netx.Link.Early.{half_connected, early_call_lost}

abbrev all_wait : ℕ → Bool
all_wait tx = true

abbrev client : Client
client = new (record { service_name = codes "svc"; verify_key = []; request_out_time_ms = 5000 }) 0

abbrev half : Client
half = half_connected client 4 2

abbrev at_server : Server.Reading
at_server = Server.reading (record (Token.new 77) { peer = some 3 })

abbrev given : Given
given = record {
  watch = 5;
  tx = 6;
  connected = none;
  changed = none;
  now = 2000;
  send_all = ok tt;
  answer = none;
}

abbrev more : List ℕ
more = 1 ∷ 2 ∷ 3 ∷ []

few_bytes : length (request plain 2 100 (new_serial half).0 0 [] ++ more) < 2400
unfolding request le new_serial
few_bytes = omega arith

one_free : lookup 1 client.result_dict ≡ none
unfolding lookup
one_free = refl

early_call_lost_example :
    let (serial, c') = new_serial half in
    let req = request plain 2 100 serial 0 [] in
    (open_network client 4 (some (ok 2)) ≡ (half, ok (some 4)))
    × (connect_first plain given half ≡ (half, ok tt))
    × (start_call plain c' serial 6 2000 req ≡ ok (waiting_for c' serial 6 2000, 2, req))
    × (data_reading plain all_wait (ok tt) true (req ++ more) at_server ≡ some (at_server, ok tt))
early_call_lost_example =
    early_call_lost plain all_wait (ok tt) true client 4 2 100 0 [] more given at_server refl refl
      one_free few_bytes
