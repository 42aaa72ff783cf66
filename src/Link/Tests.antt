-- ===== src/Link/Tests.antt =====
-- Handshakes and calls between a concrete server and a concrete client.
use rust_netx.Prelude.{
  ℕ, ◌≡◌, refl, Bool, true, false, none, some, List, [], ◌∷◌, ◌++◌, arith, codes, length,
}
use rust_netx.Prelude.Dict.{lookup, insert, remove}
use rust_netx.Wire.{ok, err, anyhow, service_name_error, connect_error}
use rust_netx.Wire.Frame.{frame, patch_len}
use rust_netx.Wire.LittleEndian.{plain, le, write_flag, write_sized}
use rust_netx.RetResult.{RetResult, success, error, write_result}
use rust_netx.RetResult.Parse.{IsSendable, received}
use rust_netx.Answers.{deliver}
use rust_netx.Token.{Token, Controller, set_controller, call_special_function}
use rust_netx.Token
use rust_netx.Token.Calls.{registered}
use rust_netx.Manager.{tag_value, connect, World, start, update, create_token}
use rust_netx.Server
use rust_netx.Server.{
  attach, data_reading, get_peer_token, read_buff_byline, input_event, key_verify_msg, open_session,
  session_id_msg,
}
use rust_netx.Client.{Client, new, get_result_buff, get_session_id_buff, is_connect}
use rust_netx.Client.Calls
use rust_netx.Client.Connect.{connect_network}
use rust_netx.Client.Request.{request}
use rust_netx.Client.Stream
use rust_netx.Client.Stream.{read_buffer, read_loop}
use rust_netx.Link.Handshake.{CanGreet, hello, refusal}
use rust_netx.Link.Handshake.Outcome.{welcomed, handshake, handshake_refused}
use rust_netx.Link.Call.{Fits}
use rust_netx.Link.Call.ToServer
use rust_netx.Link.Call.ToServer.{client_call}
use rust_netx.Link.Call.ToClient
use rust_netx.Link.Call.ToClient.{server_call}

abbrev all_wait : ℕ → Bool
all_wait tx = true

abbrev controller : Controller
controller type_tag cmd dr = ok success

-- A server that asks for a name and a key, one that asks for another name, and a client.
abbrev ours : Server.ServerOption
ours = record { service_name = codes "svc"; verify_key = codes "key" }

abbrev theirs : Server.ServerOption
theirs = record { service_name = codes "other"; verify_key = [] }

abbrev client : Client
client =
    new
      (record { service_name = codes "svc"; verify_key = codes "key"; request_out_time_ms = 5000 })
      0

client-CanGreet : CanGreet plain client
client-CanGreet = record {
  name_utf8 = refl;
  name_fits = omega arith;
  key_utf8 = refl;
  key_fits = omega arith;
  session_fits = omega arith;
}

abbrev empty : World
empty = start 5000 9000

abbrev opened : World
opened = record empty {
  dict = insert 77 0 [];
  tokens = update empty.tokens 0 (set_controller (Token.new 77) controller);
  next_addr = 1;
}

opens : open_session empty (some 77) (ok controller) 0 ≡ ok (opened, 0)
unfolding open_session create_token
opens = refl

opened_id : (opened.tokens 0).session_id ≡ 77
unfolding update set_controller
opened_id = refl

ours-accepts : refusal ours client ≡ none
unfolding refusal
ours-accepts = refl

abbrev theirs_text : List ℕ
theirs_text = codes "service name error"

theirs-refuses :
    refusal theirs client ≡ some (theirs_text, anyhow (service_name_error (codes "svc")))
unfolding refusal
theirs-refuses = refl

idle : is_connect client ≡ false
unfolding is_connect
idle = refl

opened_greets : call_special_function (opened.tokens 0) (tag_value connect) ≡ ok tt
unfolding call_special_function set_controller update
opened_greets = refl

handshake_example :
    let ask = get_session_id_buff plain 1 in
    let t = (attach opened 0 3).tokens 0 in
    let id_msg = session_id_msg plain (opened.tokens 0).session_id in
    let verified = key_verify_msg plain false (codes "verify success") in
    (get_peer_token plain ours empty (some 77) (ok controller) (ok tt) (hello plain client ++ ask)
      ≡ (verified ∷ [], ok (opened, 0, ask)))
    × (read_buff_byline plain all_wait (ok tt) true ask t
        ≡ some (record (Server.reading t) { out = id_msg ∷ [] }, ok tt))
    × (read_buffer plain all_wait (ok tt) true (verified ++ id_msg) client
        ≡ some (welcomed plain all_wait true client (opened.tokens 0).session_id, ok tt))
handshake_example =
    handshake plain all_wait true all_wait ours empty opened (some 77) (ok controller) client 0 3
      client-CanGreet ours-accepts opens (omega (arith, opened_id)) opened_greets

handshake_refused_example :
    (input_event plain theirs all_wait
        (ok tt)
        true
        empty
        (some 77)
        (ok controller)
        3
        1000
        (hello plain client ++ [])
      ≡ some (record {
        world = empty;
        out = key_verify_msg plain true theirs_text ∷ [];
        jobs = [];
        events = [];
        result = ok tt;
      }))
    × (read_buffer plain all_wait (ok tt) true (key_verify_msg plain true theirs_text) client
        ≡ some (
          record (Stream.reading plain all_wait (ok tt) client) {
            has_set_connect = false;
            told = (false, theirs_text) ∷ [];
          },
          ok tt,
        ))
    × ((connect_network client 4 (some (ok 2)) (some (false, theirs_text))).1
        ≡ err (connect_error theirs_text))
handshake_refused_example =
    handshake_refused plain all_wait true all_wait theirs empty (some 77) (ok controller) client 3
      1000 2 4 [] theirs_text (anyhow (service_name_error (codes "svc"))) client-CanGreet
      theirs-refuses idle

-- A call of the command 100 without arguments, and an error as its result.
args-Fits : Fits 2 100 1 []
args-Fits = record {
  type_known = omega arith;
  cmd_fits = omega arith;
  serial_fits = omega arith;
  packed_fits = omega arith;
}

abbrev failed : RetResult
failed = error 4 (codes "no")

failed-IsSendable : IsSendable plain failed
failed-IsSendable = record {
  id_fits = omega arith;
  msg_utf8 = refl;
  msg_fits = omega arith;
  count_fits = omega arith;
  args_fit = tt;
}

failed-written : length (write_result plain failed) ≡ 11
unfolding write_result write_flag le write_sized
failed-written = refl

abbrev up_client : Client
up_client = record client { net = some 2; mode = 1; result_dict = (9, 5) ∷ [] }

abbrev up_token : Token
up_token = record (Token.new 77) { peer = some 3; result_dict = (9, 5) ∷ [] }

one_free : lookup 1 up_client.result_dict ≡ none
unfolding lookup
one_free = refl

abbrev at_server : Server.Reading
at_server = Server.reading up_token

at_client : Stream.Reading
at_client = Stream.reading plain all_wait (ok tt) up_client

client_call_example :
    let req = request plain 2 100 1 0 [] in
    let c' = ToServer.calling plain up_client 1 6 2000 in
    let after = record c' { result_dict = remove 1 c'.result_dict } in
    (Calls.start_call plain up_client 1 6 2000 req ≡ ok (c', 2, frame plain req))
    × (data_reading plain all_wait (ok tt) true (frame plain req) at_server
        ≡ some (record at_server { jobs = ToServer.server_job plain 2 100 1 0 [] ∷ [] }, ok tt))
    × (read_loop plain all_wait
          (ok tt)
          true
          4
          (Server.get_result_buff plain 1 failed ++ [])
          (record at_client { client = c' })
        ≡ read_loop plain all_wait (ok tt) true 3 [] (record at_client {
          client = after;
          events = at_client.events ++ (deliver 6 (ok (ToServer.answered plain 1 failed)) ∷ []);
        }))
    × ((j : ℕ) → lookup j after.result_dict ≡ lookup j up_client.result_dict)
    × (Calls.await_result plain 1 (some (ok (ToServer.answered plain 1 failed)))
        ≡ ok (received failed))
client_call_example =
    client_call plain all_wait all_wait (ok tt) true 2 100 1 0 2 6 2000 3 [] [] up_client at_server
      at_client failed args-Fits refl one_free refl refl failed-IsSendable
      (omega (arith, failed-written))

server_call_example :
    let req = request plain 2 100 1 0 [] in
    let t' = registered up_token 1 6 2000 in
    let after = record t' { result_dict = remove 1 t'.result_dict } in
    (Token.register up_token 1 6 2000 ≡ ok (t', 3))
    × (read_loop plain all_wait
          (ok tt)
          true
          4
          (patch_len plain (plain.int 4 0 ++ req) ++ [])
          at_client
        ≡ read_loop plain all_wait (ok tt) true 3 [] (record at_client {
          jobs = at_client.jobs ++ (ToClient.client_job plain 2 100 1 0 [] ∷ []);
        }))
    × (data_reading plain all_wait
          (ok tt)
          true
          (get_result_buff plain 1 failed 1)
          (record at_server { token = t' })
        ≡ some (
          record at_server {
            token = after;
            events = deliver 6 (ok (ToClient.answered plain 1 failed)) ∷ [];
          },
          ok tt,
        ))
    × ((j : ℕ) → lookup j after.result_dict ≡ lookup j up_token.result_dict)
    × (Token.await_result plain 1 (some (ok (ToClient.answered plain 1 failed)))
        ≡ ok (received failed))
server_call_example =
    server_call plain all_wait all_wait (ok tt) true 2 100 1 0 3 6 2000 3 1 [] [] up_token at_server
      at_client failed args-Fits refl one_free refl refl failed-IsSendable
      (omega (arith, failed-written))
