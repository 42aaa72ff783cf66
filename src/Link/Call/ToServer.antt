-- ===== src/Link/Call/ToServer.antt =====
-- The client calls the server.
use rust_netx.Prelude.{
  ℕ, suc, ◌+◌, ◌<◌, ◌^◌, ◌≡◌, refl, ◌∙◌, Bool, true, false, none, some, List, [], ◌∷◌, ◌++◌, arith,
  length, append-nil, ◌==◌,
}
use rust_netx.Prelude.Dict.{lookup, insert, remove, lookup-insert, remove_inserted}
use rust_netx.Wire.{Wire, Reader, reader, Result, ok}
use rust_netx.Wire.Frame.{frame}
use rust_netx.Wire.Frame.Laws.{patch_len-frame}
use rust_netx.RetResult.{RetResult, write_result}
use rust_netx.RetResult.Parse.{IsSendable, received, from-write_result}
use rust_netx.Answers.{deliver}
use rust_netx.Server
use rust_netx.Server.Commands.{data_reading-frames, serve_all}
use rust_netx.Client.{Client, framed}
use rust_netx.Client.Calls.{start_call, set_request, set_result, await_result}
use rust_netx.Client.Calls.Starts.{register-free}
use rust_netx.Client.Request.{request}
use rust_netx.Client.Stream
use rust_netx.Client.Served.{read_loop-frame}
use rust_netx.Link.Call.{Fits, args_bytes, answer_body, request_short, answer_short}

module _ (w : Wire) where
  -- The task that a request starts at the server.
  abbrev pub server_job : ℕ → ℕ → ℕ → ℕ → List ℕ → Server.Job
  server_job type_tag cmd serial args_count packed = record {
    type_tag = type_tag;
    cmd = cmd;
    serial = serial;
    args = record {
      inner = request w type_tag cmd serial args_count packed;
      unread = args_bytes w args_count packed;
    };
  }

  pub on_request :
      (rx : ℕ → Bool) (send_all : Result (Unit {0})) (type_tag cmd serial args_count : ℕ)
      (packed : List ℕ) (r : Server.Reading)
      → Fits type_tag cmd serial packed
      → Server.on_frame w rx send_all r (reader (request w type_tag cmd serial args_count packed))
        ≡ (
          record r { jobs = r.jobs ++ (server_job type_tag cmd serial args_count packed ∷ []) },
          ok tt,
        )
  unfolding Server.on_frame request
  on_request rx send_all type_tag cmd serial args_count packed r h =
      let args = args_bytes w args_count packed in
      let known = h.type_known in
      rw
        (
          w.read_int-int 4 2400 (w.int 1 type_tag ++ (w.int 4 cmd ++ (w.int 8 serial ++ args)))
              (omega arith),
          w.read_int-int 1 type_tag (w.int 4 cmd ++ (w.int 8 serial ++ args)) (omega arith),
          w.read_int-int 4 cmd (w.int 8 serial ++ args) h.cmd_fits,
          w.read_int-int 8 serial args h.serial_fits,
        )
        (ground arith)

  on_answer :
      (rx : ℕ → Bool) (send_all : Result (Unit {0})) (serial tx : ℕ) (payload : List ℕ)
      (r : Stream.Reading)
      → serial < 2 ^ 64
      → lookup serial r.client.result_dict ≡ some tx
      → rx tx ≡ true
      → Stream.on_frame w rx send_all r (reader (answer_body w serial payload)) ≡ (
        record r {
          client = record (r.client) { result_dict = remove serial r.client.result_dict };
          events =
              r.events
              ++ (deliver tx
                    (ok (record { inner = answer_body w serial payload; unread = payload }))
                  ∷ []);
        },
        Stream.next,
      )
  unfolding Stream.on_frame set_result
  on_answer rx send_all serial tx payload r h pending waits =
      rw
        (
          w.read_int-int 4 2500 (w.int 8 serial ++ payload) (omega arith),
          w.read_int-int 8 serial payload h,
          pending,
          waits,
        )
        refl

  -- The client with a call on its way.
  abbrev pub calling : Client → ℕ → ℕ → ℕ → Client
  calling c serial tx now =
      set_request (record c { result_dict = insert serial tx c.result_dict }) serial now

  pub start_call-ok :
      (c : Client) (net serial tx now : ℕ) (req : List ℕ)
      → c.net ≡ some net
      → lookup serial c.result_dict ≡ none
      → (c.mode == 0) ≡ false
      → start_call w c serial tx now req ≡ ok (calling c serial tx now, net, frame w req)
  unfolding start_call set_request framed
  start_call-ok c net serial tx now req up free mode =
      rw (register-free c net serial tx up free) (cc)

  server_reads_request :
      (rx : ℕ → Bool) (send_all : Result (Unit {0})) (checks : Bool)
      (type_tag cmd serial args_count : ℕ) (packed : List ℕ) (r : Server.Reading)
      → Fits type_tag cmd serial packed
      → Server.data_reading w rx send_all checks
          (frame w (request w type_tag cmd serial args_count packed))
          r
        ≡ some (
          record r { jobs = r.jobs ++ (server_job type_tag cmd serial args_count packed ∷ []) },
          ok tt,
        )
  unfolding serve_all
  server_reads_request rx send_all checks type_tag cmd serial args_count packed r h =
      let req = request w type_tag cmd serial args_count packed in
      rw (append-nil (frame w req)) at (
        data_reading-frames w rx send_all checks (req ∷ []) r
          (request_short w type_tag cmd serial args_count packed h, tt))
      ∙ rw (on_request rx send_all type_tag cmd serial args_count packed r h) refl

  -- The answer as it lies in the channel of the call.
  abbrev pub answered : ℕ → RetResult → Reader
  answered serial res = record {
    inner = answer_body w serial (write_result w res);
    unread = write_result w res;
  }

  pub client_reads_answer :
      (rx : ℕ → Bool) (send_all : Result (Unit {0})) (checks : Bool) (fuel serial tx : ℕ)
      (res : RetResult) (rest : List ℕ) (r : Stream.Reading)
      → serial < 2 ^ 64
      → length (write_result w res) + 16 < 2 ^ 32
      → lookup serial r.client.result_dict ≡ some tx
      → rx tx ≡ true
      → Stream.read_loop w rx send_all checks
          (suc fuel)
          (Server.get_result_buff w serial res ++ rest)
          r
        ≡ Stream.read_loop w rx send_all checks fuel rest (record r {
          client = record (r.client) { result_dict = remove serial r.client.result_dict };
          events = r.events ++ (deliver tx (ok (answered serial res)) ∷ []);
        })
  unfolding Server.get_result_buff
  client_reads_answer rx send_all checks fuel serial tx res rest r h fits pending waits =
      let body = answer_body w serial (write_result w res) in
      rw
        (
          patch_len-frame w body,
          read_loop-frame w rx send_all checks fuel body rest r
              (answer_short w serial (write_result w res) fits),
          on_answer rx send_all serial tx (write_result w res) r h pending waits,
        )
        refl

  pub await-answered :
      (serial : ℕ) (res : RetResult)
      → IsSendable w res
      → await_result w serial (some (ok (answered serial res))) ≡ ok (received res)
  unfolding await_result
  await-answered serial res h =
      rw (append-nil (write_result w res)) at
        (from-write_result w res (answer_body w serial (write_result w res)) [] h)

  -- A call of a connected client in a framed mode, with a serial that is not pending and a request
  -- that fits its fields and a frame. The request starts one task at the server, with the type,
  -- the command and the serial of the call and its arguments to read. When the server's answer for
  -- the serial, a result that the wire can carry in one frame, arrives while the call waits, it
  -- goes into that call's channel, its serial is not pending any more and every other serial is as
  -- before, and the call returns the result as `received` has it.
  pub client_call :
      (rx rx' : ℕ → Bool) (send_all : Result (Unit {0})) (checks : Bool)
      (type_tag cmd serial args_count net tx now fuel : ℕ) (packed rest : List ℕ) (c : Client)
      (r : Server.Reading) (r' : Stream.Reading) (res : RetResult)
      → Fits type_tag cmd serial packed
      → c.net ≡ some net
      → lookup serial c.result_dict ≡ none
      → (c.mode == 0) ≡ false
      → rx' tx ≡ true
      → IsSendable w res
      → length (write_result w res) + 16 < 2 ^ 32
      → let req = request w type_tag cmd serial args_count packed in
        let c' = calling c serial tx now in
        let after = record c' { result_dict = remove serial c'.result_dict } in
        (start_call w c serial tx now req ≡ ok (c', net, frame w req))
        × (Server.data_reading w rx send_all checks (frame w req) r
            ≡ some (
              record r { jobs = r.jobs ++ (server_job type_tag cmd serial args_count packed ∷ []) },
              ok tt,
            ))
        × (Stream.read_loop w rx' send_all checks
              (suc fuel)
              (Server.get_result_buff w serial res ++ rest)
              (record r' { client = c' })
            ≡ Stream.read_loop w rx' send_all checks fuel rest (record r' {
              client = after;
              events = r'.events ++ (deliver tx (ok (answered serial res)) ∷ []);
            }))
        × ((j : ℕ) → lookup j after.result_dict ≡ lookup j c.result_dict)
        × (await_result w serial (some (ok (answered serial res))) ≡ ok (received res))
  unfolding set_request
  client_call rx rx' send_all checks type_tag cmd serial args_count net tx now fuel packed rest c r
        r' res fits up free mode waits sendable short =
      let c' = calling c serial tx now in
      (
        start_call-ok c net serial tx now (request w type_tag cmd serial args_count packed) up free
            mode,
        server_reads_request rx send_all checks type_tag cmd serial args_count packed r fits,
        client_reads_answer rx' send_all checks fuel serial tx res rest (record r' { client = c' })
            fits.serial_fits short (ground (arith, lookup-insert serial serial tx c.result_dict))
            waits,
        remove_inserted serial tx c.result_dict free,
        await-answered serial res sendable,
      )
