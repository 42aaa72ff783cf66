-- ===== src/Link/Remote/Calls.antt =====
-- A remote call from the generated method of the client to its return, where the method at the
-- server succeeds, with a value or without, and where it fails.
use rust_netx.Prelude.{
  ◌==◌, false, ℕ, suc, ◌+◌, ◌-◌, ◌<◌, ◌^◌, ◌≡◌, refl, Bool, true, false, none, some, List, [], ◌∷◌,
  ◌++◌, arith, length, map, ◌==◌, length-map,
}
use rust_netx.Prelude.Dict.{lookup, remove}
use rust_netx.Wire.{Wire, Reader, Error, Result, ok, err, call_error}
use rust_netx.Wire.Frame.{frame}
use rust_netx.RetResult.{RetResult, success, write_result}
use rust_netx.RetResult.Parse.{IsSendable, received}
use rust_netx.Answers.{deliver}
use rust_netx.Token.{Controller, Token, execute_controller, run_controller, error_result, send}
use rust_netx.Server
use rust_netx.Server.Jobs.{run_job}
use rust_netx.Client.{Client}
use rust_netx.Client.Calls.{start_call, await_result}
use rust_netx.Client.Request.{request, call_data, value_of, checked}
use rust_netx.Client.Stream
use rust_netx.Builder.{FuncInfo}
use rust_netx.Builder.Generated.{Pack, arm_result, call_generated}
use rust_netx.Builder.Generated.Remote.{call_generated-request}
use rust_netx.Link.Call.ToServer.{server_job, calling, answered, client_call}
use rust_netx.Link.Remote.{
  Serves, unpacked, returned, failed, returned-IsSendable, error-IsSendable, returned_short,
  error_short, value_of-error, value_of-returned, checked-failed, checked-success,
  success-IsSendable, success_short,
}

run_controller_set :
    (t : Token) (k : Controller) (type_tag cmd : ℕ) (dr : Reader)
    → t.controller ≡ some k
    → run_controller t type_tag cmd dr ≡ k type_tag cmd dr
unfolding run_controller
run_controller_set t k type_tag cmd dr h = cc

module _ {V : Type 0} (w : Wire) (p : Pack V) (text : ℕ → ℕ → Error → List ℕ)
    (run : FuncInfo → List V → Result V) (fs : List FuncInfo) (f : FuncInfo) (vs : List V)
    (packed : List ℕ) (t : Token) (serial peer : ℕ) where
  abbrev pub job : Server.Job
  job = server_job w f.tt f.tag serial (length vs) packed

  -- The outcome of the method, as the actor's `execute_controller` gives it.
  executes :
      (res : RetResult)
      → Serves w p text run fs f vs packed t serial peer
      → error_result (text t.session_id f.tag) (arm_result w p f.tt (run f vs)) ≡ ok res
      → execute_controller text t f.tt f.tag job.args ≡ ok res
  unfolding execute_controller
  executes res h e =
      let req = request w f.tt f.tag serial (length vs) packed in
      let q =
        call_generated-request w p run fs f vs packed req h.found h.fits.type_known h.typed
          h.is_packed h.few in
      rw (run_controller_set t (call_generated w p run fs) f.tt f.tag job.args h.controller)
        (rw q e)

  sends : Serves w p text run fs f vs packed t serial peer → send t ≡ ok peer
  unfolding send
  sends h = cc (h.connected)

  run_job-served :
      (res : RetResult)
      → Serves w p text run fs f vs packed t serial peer
      → error_result (text t.session_id f.tag) (arm_result w p f.tt (run f vs)) ≡ ok res
      → run_job w text t job ≡ ok ((peer, Server.get_result_buff w serial res) ∷ [])
  unfolding run_job
  run_job-served res h e =
      let kind : (f.tt == 0) ≡ false = ground (arith, h.answers) in
      rw (executes res h e) (rw (kind, sends h) refl)

  call_data-packed :
      Serves w p text run fs f vs packed t serial peer
      → call_data w f.tt f.tag serial (map p.pack vs)
        ≡ ok (request w f.tt f.tag serial (length vs) packed)
  unfolding call_data
  call_data-packed h = rw (h.is_packed, length-map p.pack vs) refl

  module _ (rx rx' : ℕ → Bool) (send_all : Result (Unit {0})) (checks : Bool) (net tx now fuel : ℕ)
      (rest : List ℕ) (c : Client) (r : Server.Reading) (r' : Stream.Reading) where
    abbrev pub sent_request : List ℕ
    sent_request = request w f.tt f.tag serial (length vs) packed

    -- The client is connected in a framed mode, the serial is free, and the caller goes on waiting.
    pub record Ready : Type 0 where
      pub has_net : c.net ≡ some net
      pub free : lookup serial c.result_dict ≡ none
      pub framing : (c.mode == 0) ≡ false
      pub waits : rx' tx ≡ true

    -- From the caller to the server's task and back into the caller's channel, for a task with the
    -- result `res`.
    abbrev pub Travels : RetResult → Type 0
    Travels res =
        let c' = calling w c serial tx now in
        let reply = Server.get_result_buff w serial res in
        (call_data w f.tt f.tag serial (map p.pack vs) ≡ ok sent_request)
        × (start_call w c serial tx now sent_request ≡ ok (c', net, frame w sent_request))
        × (Server.data_reading w rx send_all checks (frame w sent_request) r
            ≡ some (record r { jobs = r.jobs ++ (job ∷ []) }, ok tt))
        × (run_job w text t job ≡ ok ((peer, reply) ∷ []))
        × (Stream.read_loop w rx' send_all checks (suc fuel) (reply ++ rest)
              (record r' { client = c' })
            ≡ Stream.read_loop w rx' send_all checks fuel rest (record r' {
              client = record c' { result_dict = remove serial c'.result_dict };
              events = r'.events ++ (deliver tx (ok (answered w serial res)) ∷ []);
            }))

    travels :
        (res : RetResult)
        → Serves w p text run fs f vs packed t serial peer
        → Ready
        → error_result (text t.session_id f.tag) (arm_result w p f.tt (run f vs)) ≡ ok res
        → IsSendable w res
        → length (write_result w res) + 16 < 2 ^ 32
        → Travels res
          × (await_result w serial (some (ok (answered w serial res))) ≡ ok (received res))
    travels res h go e sendable short =
        let (starts, reads, comes_back, _, value) =
          client_call w rx rx' send_all checks f.tt f.tag serial (length vs) net tx now fuel packed
            rest c r r' res h.fits go.has_net go.free go.framing go.waits sendable short in
        ((call_data-packed h, starts, reads, run_job-served res h e, comes_back), value)

    -- A remote call that succeeds. The generated method of a client packs its arguments, and its
    -- request starts one task at a server whose token has the controller generated from the same
    -- trait. Where the method for the tag, applied to the caller's values, returns `v`, that task
    -- sends one answer to the token's peer, the answer goes into the channel of the call, and the
    -- caller's method returns `v`. The method is one that returns a value, its values have the types
    -- of the trait and fit a frame, and the call still waits when the answer arrives.
    pub remote_call_returns :
        (v : V) (typ bs : List ℕ)
        → Serves w p text run fs f vs packed t serial peer
        → Ready
        → f.tt ≡ 2
        → run f vs ≡ ok v
        → p.HasType v typ
        → p.pack v ≡ ok bs
        → length bs + 25 < 2 ^ 32
        → Travels (returned w bs)
          × (value_of
                (unpacked p typ)
                (await_result w serial (some (ok (answered w serial (returned w bs)))))
              ≡ ok v)
    remote_call_returns v typ bs h go two out typed e small =
        let executed : error_result (text t.session_id f.tag) (arm_result w p f.tt (run f vs))
            ≡ ok (returned w bs) =
          rw (out, two, e) refl in
        let (way, value) =
          travels (returned w bs) h go executed (returned-IsSendable w bs (omega arith))
            (returned_short w bs small) in
        (way, rw value (value_of-returned w p v typ bs typed e))

    -- A remote call that fails. Where the method for the tag, applied to the caller's values, fails
    -- with an error, the server's task answers with the id -1 and the error's text, and the caller's
    -- method returns that id and text as a `CallError`, whether it asks for a value or not.
    pub remote_call_fails :
        (x : Error) (pack_to : Reader → Result V)
        → Serves w p text run fs f vs packed t serial peer
        → Ready
        → run f vs ≡ err x
        → w.is_utf8 (text t.session_id f.tag x) ≡ true
        → length (text t.session_id f.tag x) + 25 < 2 ^ 32
        → let res = failed w (text t.session_id f.tag x) in
          let got = await_result w serial (some (ok (answered w serial res))) in
          let failure = call_error (2 ^ 32 - 1) (text t.session_id f.tag x) in
          Travels res × (value_of pack_to got ≡ err failure) × (checked got ≡ err failure)
    remote_call_fails x pack_to h go out utf8 small =
        let said = text t.session_id f.tag x in
        let answers : (f.tt == 0) ≡ false = ground (arith, h.answers) in
        let executed : error_result (text t.session_id f.tag) (arm_result w p f.tt (run f vs))
            ≡ ok (failed w said) =
          rw (out, answers) refl in
        let (way, value) =
          travels (failed w said) h go executed
            (error-IsSendable w (2 ^ 32 - 1) said (omega arith) utf8 (omega arith))
            (error_short w (2 ^ 32 - 1) said small) in
        (
          way,
          rw value (value_of-error w pack_to (2 ^ 32 - 1) said),
          rw value (checked-failed w said),
        )

    -- A remote call of a method without a value, which asks whether it succeeded: where the method
    -- succeeds at the server, the caller's method does.
    pub remote_call_completes :
        (v : V)
        → Serves w p text run fs f vs packed t serial peer
        → Ready
        → f.tt ≡ 1
        → run f vs ≡ ok v
        → Travels success
          × (checked (await_result w serial (some (ok (answered w serial success)))) ≡ ok tt)
    remote_call_completes v h go one out =
        let executed : error_result (text t.session_id f.tag) (arm_result w p f.tt (run f vs))
            ≡ ok success =
          rw (out, one) refl in
        let (way, value) = travels success h go executed (success-IsSendable w) (success_short w) in
        (way, rw value (checked-success w))
