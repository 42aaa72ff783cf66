-- ===== src/Link/Early.antt =====
-- A call between the two halves of `connect_network` of netx_client/src/client/impl_client.rs: the
-- peer is set, and the server has not yet answered to the credentials.
mod Tests
use rust_netx.Prelude.{
  ℕ, ◌+◌, ◌-◌, ◌%◌, ◌^◌, ◌<◌, ◌≡◌, refl, ap, Bool, true, false, Option, none, some, List, [], ◌∷◌,
  ◌++◌, arith, length, append_assoc, length-append, lt→leb, ◌==◌, if◌then◌else◌,
}
use rust_netx.Prelude.Dict.{lookup}
use rust_netx.Wire.{Wire, Result, ok, err}
use rust_netx.Wire.Frame.{read_buff, read_exact}
use rust_netx.Wire.Frame.Laws.{sub_u32_four}
use rust_netx.Server
use rust_netx.Server.{data_reading, read_loop}
use rust_netx.Client.{Client, is_connect, new_serial, framed, set_network_client, set_connect_stats}
use rust_netx.Client.Calls.{start_call, register, set_request}
use rust_netx.Client.Connect.{open_network}
use rust_netx.Client.Request.{request}
use rust_netx.Client.Macros.{Given, connect_first}
use rust_netx.Client.Calls.Starts.{
  waiting_for, register-free, register-eq-ok, start_call-eq-ok, start_call-cases,
}

-- What is read as a frame of 2400 bytes, and is not all there, ends the connection.
unframed_request :
    (w : Wire) (rx : ℕ → Bool) (send_all : Result (Unit {0})) (checks : Bool)
    (type_tag cmd serial args_count : ℕ) (packed more : List ℕ) (r : Server.Reading)
    → length (request w type_tag cmd serial args_count packed ++ more) < 2400
    → data_reading w rx send_all checks (request w type_tag cmd serial args_count packed ++ more) r
      ≡ some (r, ok tt)
unfolding data_reading read_loop read_buff read_exact request
unframed_request w rx send_all checks type_tag cmd serial args_count packed more r few =
    let body =
      w.int 1 type_tag
      ++ (w.int 4 cmd ++ (w.int 8 serial ++ (w.int 4 (args_count % 2 ^ 32) ++ packed))) in
    let rest = body ++ more in
    let short : length rest < 2396 = omega (
      arith,
      w.length-int 4 2400,
      length-append (w.int 4 2400) rest,
      ap length (append_assoc (w.int 4 2400) body more),
    ) in
    rw
      (
        append_assoc (w.int 4 2400) body more,
        w.read_int-int 4 2400 rest (omega arith),
        sub_u32_four checks 2396,
        lt→leb 2396 (length rest) short,
      )
      refl

bare : (w : Wire) (mode : ℕ) (req : List ℕ) → mode ≡ 0 → framed w mode req ≡ req
unfolding framed
bare w mode req e = rw e refl

starts_bare :
    (w : Wire) (c : Client) (net serial tx now : ℕ) (req : List ℕ)
    → c.net ≡ some net
    → c.mode ≡ 0
    → lookup serial c.result_dict ≡ none
    → start_call w c serial tx now req ≡ ok (waiting_for c serial tx now, net, req)
unfolding start_call set_request
starts_bare w c net serial tx now req up mode free =
    rw (register-free c net serial tx up free)
      (ap (λ bytes. ok (waiting_for c serial tx now, net, bytes)) (bare w c.mode req mode))

-- The client as the first half of `connect_network` leaves it.
abbrev pub half_connected : Client → ℕ → ℕ → Client
half_connected c watch net = record c { net = some net; connect_stats = some watch }

opens_half :
    (c : Client) (watch net : ℕ)
    → c.net ≡ none
    → open_network c watch (some (ok net)) ≡ (half_connected c watch net, ok (some watch))
unfolding open_network is_connect set_network_client set_connect_stats
opens_half c watch net down = rw down refl

-- A first connection, whose peer is set while the server has not yet answered: another `call!` of
-- the client counts as connected and does not wait. Its serial is free, and it sends its request
-- without the length in front, since the mode is still 0. The server takes the command 2400 for the
-- length of a frame: when fewer than 2400 bytes arrive from there on, it starts no task for the
-- request or for anything behind it.
pub early_call_lost :
    (w : Wire) (rx : ℕ → Bool) (send_all : Result (Unit {0})) (checks : Bool) (c : Client)
    (watch net cmd args_count : ℕ) (packed more : List ℕ) (g : Given) (r : Server.Reading)
    → c.net ≡ none
    → c.mode ≡ 0
    → lookup c.serial_atomic c.result_dict ≡ none
    → let half = half_connected c watch net in
      let (serial, c') = new_serial half in
      let req = request w 2 cmd serial args_count packed in
      length (req ++ more) < 2400
      → (open_network c watch (some (ok net)) ≡ (half, ok (some watch)))
        × (connect_first w g half ≡ (half, ok tt))
        × (start_call w c' serial g.tx g.now req ≡ ok (waiting_for c' serial g.tx g.now, net, req))
        × (data_reading w rx send_all checks (req ++ more) r ≡ some (r, ok tt))
unfolding connect_first is_connect new_serial
early_call_lost w rx send_all checks c watch net cmd args_count packed more g r down mode free few =
    let (serial, c') = new_serial (half_connected c watch net) in
    (
      opens_half c watch net down,
      refl,
      starts_bare w c' net serial g.tx g.now (request w 2 cmd serial args_count packed) refl mode
          free,
      unframed_request w rx send_all checks 2 cmd serial args_count packed more r few,
    )
