-- ===== src/Link/System/Tests.antt =====
-- One call of a concrete client, from its serial to its result.
use rust_netx.Prelude.{
  ℕ, ◌<◌, ◌^◌, ◌≤◌, ◌≡◌, refl, ◌+◌, Bool, true, none, some, List, [], ◌∷◌, ◌++◌, arith, codes,
  length, count, ◌⊎◌, append-nil,
}
use rust_netx.Prelude.Deadlines.{InOrder}
use rust_netx.Prelude.Dict.{lookup, insert}
use rust_netx.Wire.{Error, Reader, reader, Result, ok, err, serial_time_out}
use rust_netx.Wire.Frame.{frame, read_buff}
use rust_netx.Wire.Frame.Laws.{read_buff-frame}
use rust_netx.Wire.LittleEndian.{plain, le, write_flag, write_sized}
use rust_netx.RetResult.{RetResult, success, write_result}
use rust_netx.Answers.{deliver, Sent}
use rust_netx.Answers.Once.{Distinct, channels}
use rust_netx.Token
use rust_netx.Token.{execute_controller, run_controller}
use rust_netx.Server
use rust_netx.Client.{Client, new, new_serial, framed}
use rust_netx.Client.Calls.Starts.{register-free}
use rust_netx.Server.Jobs.{run_job}
use rust_netx.Client.Calls.{check, set_request}
use rust_netx.Client.Stream
use rust_netx.Link.Call.{Fits, answer_short, request_short}
use rust_netx.Link.Call.ToServer.{calling, on_request}
use rust_netx.Link.System.{
  Asked, System, Step, Steps, draws, registers, sets, sends, serves, ends, hears, start, next,
  connected, IsIdle, request_of, bytes_of,
}
use rust_netx.Link.System.Invariant.{IsTold, answer_of, job_of}
use rust_netx.Link.System.Tasks.{get_result_buff-frame, run_job-answers}
use rust_netx.Link.System.Frames.{read_message-frame}
use rust_netx.Link.System.Answers.{answers_reach_their_calls}
use rust_netx.Link.System.Deadlines.{every_call_ends}
use rust_netx.Link.System.Progress.{no_call_is_lost, loops_go_on}

abbrev all_wait : ℕ → Bool
all_wait tx = true

abbrev client : Client
client =
    record (new (record { service_name = codes "svc"; verify_key = []; request_out_time_ms = 5000 })
      0) { mode = 1; net = some 2 }

-- The controller answers every call with an empty success.
abbrev accepting : Token.Controller
accepting type_tag cmd dr = ok success

abbrev token : Token.Token
token = record (Token.new 77) { peer = some 3; controller = some accepting }

abbrev text : ℕ → ℕ → Error → List ℕ
text session_id cmd e = []

-- What the token's actor makes of a task.
abbrev Executes : Server.Job → RetResult → Type 0
Executes job res = execute_controller text token job.type_tag job.cmd job.args ≡ ok res

abbrev question : Asked
question = record { tx = 0; net = 2; type_tag = 2; cmd = 100; args_count = 0; packed = [] }

question-Executes : Executes (job_of plain (1, question)) success
unfolding execute_controller run_controller
question-Executes = refl

abbrev at_rest : System
at_rest = connected client token 2000 plain all_wait (ok tt)

abbrev drawn : System
drawn = record at_rest {
  client = record at_rest.client { client = (new_serial client).1 };
  drawn = (new_serial client).0 ∷ [];
}

abbrev registered : System
registered = record drawn {
  client = record at_rest.client {
    client = record (new_serial client).1 { result_dict = insert 1 0 [] };
  };
  drawn = [];
  registered = (1, question) ∷ [];
  next_tx = 1;
  asked = insert 1 question [];
}

abbrev entered : System
entered = record registered {
  client = record at_rest.client { client = calling plain (new_serial client).1 1 0 2000 };
  registered = [];
  entered = (1, question) ∷ [];
}

abbrev asked : System
asked = record entered { entered = []; to_server = frame plain (request_of plain (1, question)) }

one-Fits : Fits 2 100 1 []
one-Fits = record {
  type_known = omega arith;
  cmd_fits = omega arith;
  serial_fits = omega arith;
  packed_fits = omega arith;
}

abbrev body : List ℕ
body = request_of plain (1, question)

abbrev served : System
served = record asked {
  server = record asked.server { jobs = job_of plain (1, question) ∷ [] };
  to_server = [];
}

abbrev ended : System
ended = record served {
  server = record served.server { jobs = [] };
  to_client = Server.get_result_buff plain 1 success;
  ran = 1 ∷ [];
}

abbrev heard : System
heard = record ended {
  client =
      (Stream.on_frame plain all_wait (ok tt) ended.client
        (reader (answer_of plain (1, success)))).0;
  to_client = [];
}

client-IsIdle : IsIdle client
client-IsIdle = record { framing = refl; no_calls = refl; no_entries = refl }

rest-drawn : Step plain (ok tt) true Executes at_rest drawn
unfolding Stream.reading
rest-drawn = draws (omega arith)

drawn-registered : Step plain (ok tt) true Executes drawn registered
unfolding new_serial lookup insert
drawn-registered =
    registers 1 [] [] question (registered.client.client) refl (omega arith) one-Fits refl
      (register-free (new_serial client).1 2 1 0 refl refl)

registered-entered : Step plain (ok tt) true Executes registered entered
unfolding new_serial insert
registered-entered = sets 1 question [] [] refl

entered-asked : Step plain (ok tt) true Executes entered asked
unfolding new_serial set_request framed
entered-asked = sends 1 question [] [] refl refl

drawn-asked : Steps plain (ok tt) true Executes at_rest asked
drawn-asked =
    next (next (next (next start rest-drawn) drawn-registered) registered-entered) entered-asked

asked-served : Step plain (ok tt) true Executes asked served
asked-served =
    let one : Step plain (ok tt) true Executes asked (record asked {
      server = (Server.on_frame plain all_wait (ok tt) asked.server (reader body)).0;
      to_server = [];
    }) =
      serves all_wait (reader body) [] (
        rw (append-nil (frame plain body)) at
          (read_buff-frame plain true body [] (request_short plain 2 100 1 0 [] one-Fits))) in
    rw (on_request plain all_wait (ok tt) 2 100 1 0 [] asked.server one-Fits) at one

success_short : length (write_result plain success) + 16 < 2 ^ 32
unfolding write_result le write_flag write_sized
success_short = omega arith

task_answers :
    bytes_of (run_job plain text served.server.token (job_of plain (1, question)))
    ≡ Server.get_result_buff plain 1 success
task_answers =
    run_job-answers plain text served.server.token (job_of plain (1, question)) success 3
      (omega arith) question-Executes refl

served-ended : Step plain (ok tt) true Executes served ended
served-ended =
    let one : Step plain (ok tt) true Executes served (record served {
      server = record served.server { jobs = [] };
      to_client = bytes_of (run_job plain text served.server.token (job_of plain (1, question)));
      ran = 1 ∷ [];
    }) =
      ends (job_of plain (1, question)) [] [] text (some accepting) success 3 refl question-Executes
        question-Executes
        (record {
          id_fits = omega arith;
          msg_utf8 = refl;
          msg_fits = omega arith;
          count_fits = omega arith;
          args_fit = tt;
        })
        success_short refl in
    rw task_answers at one

ended-heard : Step plain (ok tt) true Executes ended heard
ended-heard =
    let body' = answer_of plain (1, success) in
    let (e, e') =
      read_message-frame plain all_wait (ok tt) true body' []
        (answer_short plain 1 (write_result plain success) success_short) in
    hears all_wait (length body' + 4) (body' ++ []) (reader body') []
      (rw (get_result_buff-frame plain Executes 1 success, ← append-nil (frame plain body')) e) e'

one_call : Steps plain (ok tt) true Executes at_rest heard
one_call = next (next (next drawn-asked asked-served) served-ended) ended-heard

answers_reach_their_calls_example :
    ((tx : ℕ) (v : Result Reader)
      → Sent (deliver tx v) heard.client.events
      → IsTold plain Executes heard.asked tx v)
    × ((j k : ℕ) (p q : Asked)
        → lookup j heard.asked ≡ some p
        → lookup k heard.asked ≡ some q
        → p.tx ≡ q.tx
        → j ≡ k)
    × Distinct (channels heard.client.events)
    × ((k : ℕ) → count k heard.ran ≤ 1)
answers_reach_their_calls_example =
    answers_reach_their_calls plain Executes (ok tt) true all_wait client token 2000 heard
      client-IsIdle one_call

no_call_is_lost_example : lookup 1 heard.client.client.result_dict ≡ none
no_call_is_lost_example =
    no_call_is_lost plain Executes (ok tt) true all_wait client token 2000 heard client-IsIdle
      one_call refl refl refl refl refl refl 1

loops_go_on_example :
    ((asked.to_server ≡ [])
      ⊎ ((dr : Reader) × (rest : List ℕ) × (read_buff plain true asked.to_server ≡ ok (dr, rest))
          × ((Server.on_frame plain all_wait (ok tt) asked.server dr).1 ≡ ok tt)))
    × ((asked.to_client ≡ [])
        ⊎ ((p : ℕ × List ℕ) × (dr : Reader) × (rest : List ℕ) × (plain.read_int 4 asked.to_client
              ≡ some p)
            × (Stream.read_message plain all_wait (ok tt) true p ≡ ok (dr, rest))
            × ((Stream.on_frame plain all_wait (ok tt) asked.client dr).1 ≡ Stream.next)))
loops_go_on_example =
    loops_go_on plain Executes (ok tt) true all_wait client token 2000 asked client-IsIdle
      drawn-asked

one_entry : InOrder 2000 2000 asked.client.client.queue
unfolding new_serial set_request
one_entry = (omega arith, omega arith)

out_time : (asked.client.client.server_info).request_out_time_ms ≤ 5000
unfolding new_serial set_request
out_time = omega arith

-- The answer never comes.
every_call_ends_example :
    let r = check all_wait (2000 + 5000) asked.client.client in
    (lookup 1 (r.0).result_dict ≡ none)
    × ((tx : ℕ)
        → lookup 1 asked.client.client.result_dict ≡ some tx
        → all_wait tx ≡ true
        → Sent (deliver tx (err (serial_time_out 1))) r.1)
every_call_ends_example =
    every_call_ends plain Executes (ok tt) true all_wait all_wait client token 2000 2000 5000 asked
      client-IsIdle drawn-asked one_entry (omega arith) out_time 1 refl
