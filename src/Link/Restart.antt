-- ===== src/Link/Restart.antt =====
-- A client process that takes up the session of one before it: netx_client/src/client/impl_client.rs
-- numbers its calls from 1 on, and netx_server/src/server/impl_server.rs sends the result of a task
-- to the peer that the token has at the end of the task.
mod Tests
use rust_netx.Prelude.{
  ℕ, suc, ◌+◌, ◌<◌, ◌^◌, ◌≡◌, refl, Bool, true, false, Option, none, some, List, [], ◌∷◌, ◌++◌,
  arith, length, ◌==◌,
}
use rust_netx.Prelude.Dict.{lookup, remove, lookup-insert}
use rust_netx.Wire.{Wire, Error, Result, ok}
use rust_netx.Wire.Frame.{frame}
use rust_netx.RetResult.{RetResult, write_result}
use rust_netx.RetResult.Parse.{IsSendable, received}
use rust_netx.Answers.{deliver}
use rust_netx.Token.{Controller, Token, set_peer, send, execute_controller}
use rust_netx.Manager.{World, get_token}
use rust_netx.Server
use rust_netx.Server.{open_session}
use rust_netx.Server.Jobs.{run_job}
use rust_netx.Client.{Client, ServerOption, new, new_serial}
use rust_netx.Client.Calls.{start_call, await_result, set_request}
use rust_netx.Client.Request.{request}
use rust_netx.Client.Stream
use rust_netx.Link.Call.ToServer.{
  server_job, calling, answered, start_call-ok, client_reads_answer, await-answered,
}

-- A new process that is connected with a stored session.
abbrev pub restarted : ServerOption → ℕ → ℕ → Client
restarted info session net = record (new info session) { mode = 1; net = some net }

module _ (w : Wire) (text : ℕ → ℕ → Error → List ℕ) (send_all : Result (Unit {0})) where
  sent_to_new_peer :
      (t : Token) (peer : ℕ) (job : Server.Job) (res : RetResult)
      → execute_controller text (set_peer t (some peer)) job.type_tag job.cmd job.args ≡ ok res
      → 0 < job.type_tag
      → run_job w text (set_peer t (some peer)) job
        ≡ ok ((peer, Server.get_result_buff w job.serial res) ∷ [])
  unfolding run_job set_peer send
  sent_to_new_peer t peer job res e answers =
      let kind : (job.type_tag == 0) ≡ false = ground (arith, answers) in rw (e, kind) refl

  -- Two processes of a client use one stored session, the second after the first. Both number their
  -- first call 1. The second gets the token of the first back, and makes its first call, with any
  -- request. When a task that the first process's first call has started ends only now, with a
  -- result that a frame can carry, the answer is sent to the second process's connection. There it
  -- is given to the second process's call, which still waits, and this call returns the result of a
  -- request that it has not made.
  pub restarted_client_gets_old_answer :
      (rx : ℕ → Bool) (checks : Bool) (info : ServerOption) (s : World) (nanos : Option ℕ)
      (created : Result Controller) (session a peer net tx now fuel type_tag cmd args_count : ℕ)
      (packed req rest : List ℕ) (r : Stream.Reading) (res : RetResult)
      → (session == 0) ≡ false
      → get_token s session ≡ some a
      → 0 < type_tag
      → execute_controller text
          (set_peer (s.tokens a) (some peer))
          type_tag
          cmd
          (server_job w type_tag cmd 1 args_count packed).args
        ≡ ok res
      → IsSendable w res
      → length (write_result w res) + 16 < 2 ^ 32
      → rx tx ≡ true
      → let old = server_job w type_tag cmd 1 args_count packed in
        let reply = Server.get_result_buff w 1 res in
        let (serial, c) = new_serial (restarted info session net) in
        let c' = calling w c serial tx now in
        (serial ≡ (new_serial (new info session)).0)
        × (open_session s nanos created session ≡ ok (s, a))
        × (start_call w c serial tx now req ≡ ok (c', net, frame w req))
        × (run_job w text (set_peer (s.tokens a) (some peer)) old ≡ ok ((peer, reply) ∷ []))
        × (Stream.read_loop w rx send_all checks
              (suc fuel)
              (reply ++ rest)
              (record r { client = c' })
            ≡ Stream.read_loop w rx send_all checks fuel rest (record r {
              client = record c' { result_dict = remove serial c'.result_dict };
              events = r.events ++ (deliver tx (ok (answered w serial res)) ∷ []);
            }))
        × (await_result w serial (some (ok (answered w serial res))) ≡ ok (received res))
  unfolding new_serial open_session lookup set_request
  restarted_client_gets_old_answer rx checks info s nanos created session a peer net tx now fuel
        type_tag cmd args_count packed req rest r res stored known answers runs sendable short
        waits =
      let c = (new_serial (restarted info session net)).1 in
      let old = server_job w type_tag cmd 1 args_count packed in
      (
        refl,
        rw (stored, known) refl,
        start_call-ok w c net 1 tx now req refl refl refl,
        sent_to_new_peer (s.tokens a) peer old res runs answers,
        client_reads_answer w rx send_all checks fuel 1 tx res rest
            (record r { client = calling w c 1 tx now }) (omega arith) short
            (ground (arith, lookup-insert 1 1 tx [])) waits,
        await-answered w 1 res sendable,
      )
