-- ===== src/Link/Restart/Tests.antt =====
-- A restarted client at a concrete server.
use rust_netx.Prelude.{
  ℕ, suc, ◌+◌, ◌<◌, ◌^◌, ◌≡◌, refl, Bool, true, none, some, List, [], ◌∷◌, ◌++◌, arith, length,
}
use rust_netx.Prelude.Dict.{lookup, remove}
use rust_netx.Wire.{Error, ok}
use rust_netx.Wire.Frame.{frame}
use rust_netx.Wire.LittleEndian.{plain, le, write_flag, write_sized}
use rust_netx.RetResult.{success, write_result}
use rust_netx.RetResult.Parse.{IsSendable, received}
use rust_netx.Answers.{deliver}
use rust_netx.Token
use rust_netx.Token.{Controller, Token, set_peer, run_controller, execute_controller}
use rust_netx.Manager.{World, start, get_token}
use rust_netx.Server
use rust_netx.Server.{open_session}
use rust_netx.Server.Jobs.{run_job}
use rust_netx.Client.{ServerOption, new, new_serial}
use rust_netx.Client.Calls.{start_call, await_result}
use rust_netx.Client.Request.{request}
use rust_netx.Client.Stream
use rust_netx.Link.Call.ToServer.{server_job, calling, answered}
use rust_netx.Link.Restart.{restarted, restarted_client_gets_old_answer}

abbrev all_wait : ℕ → Bool
all_wait tx = true

abbrev info : ServerOption
info = record { service_name = []; verify_key = []; request_out_time_ms = 5000 }

abbrev accepting : Controller
accepting type_tag cmd dr = ok success

abbrev text : ℕ → ℕ → Error → List ℕ
text session_id cmd e = []

-- One session, 77, with its token at the address 0.
abbrev at_server : World
at_server = record (start 5000 60000) {
  dict = (77, 0) ∷ [];
  tokens = λ a. record (Token.new 77) { controller = some accepting };
}

known : get_token at_server 77 ≡ some 0
unfolding get_token lookup
known = refl

old_runs :
    execute_controller text
      (set_peer (at_server.tokens 0) (some 4))
      2
      100
      (server_job plain 2 100 1 0 []).args
    ≡ ok success
unfolding execute_controller run_controller set_peer
old_runs = refl

success-IsSendable : IsSendable plain success
success-IsSendable = record {
  id_fits = omega arith;
  msg_utf8 = refl;
  msg_fits = omega arith;
  count_fits = omega arith;
  args_fit = tt;
}

success_short : length (write_result plain success) + 16 < 2 ^ 32
unfolding write_result le write_flag write_sized
success_short = omega arith

at_client : Stream.Reading
at_client = Stream.reading plain all_wait (ok tt) (restarted info 77 2)

-- The new process asks for the command 200 and gets what the command 100 gave.
abbrev other_request : List ℕ
other_request = request plain 2 200 1 0 []

restarted_client_gets_old_answer_example :
    let old = server_job plain 2 100 1 0 [] in
    let reply = Server.get_result_buff plain 1 success in
    let (serial, c) = new_serial (restarted info 77 2) in
    let c' = calling plain c serial 6 2000 in
    (serial ≡ (new_serial (new info 77)).0)
    × (open_session at_server none (ok accepting) 77 ≡ ok (at_server, 0))
    × (start_call plain c serial 6 2000 other_request ≡ ok (c', 2, frame plain other_request))
    × (run_job plain text (set_peer (at_server.tokens 0) (some 4)) old ≡ ok ((4, reply) ∷ []))
    × (Stream.read_loop plain all_wait
          (ok tt)
          true
          (suc 3)
          (reply ++ [])
          (record at_client { client = c' })
        ≡ Stream.read_loop plain all_wait (ok tt) true 3 [] (record at_client {
          client = record c' { result_dict = remove serial c'.result_dict };
          events = at_client.events ++ (deliver 6 (ok (answered plain serial success)) ∷ []);
        }))
    × (await_result plain serial (some (ok (answered plain serial success)))
        ≡ ok (received success))
restarted_client_gets_old_answer_example =
    restarted_client_gets_old_answer plain text (ok tt) all_wait true info at_server none
      (ok accepting) 77 0 4 2 6 2000 3 2 100 0 [] other_request [] at_client success refl known
      (omega arith) old_runs success-IsSendable success_short refl
