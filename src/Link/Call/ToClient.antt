-- ===== src/Link/Call/ToClient.antt =====
-- The server calls the client.
use rust_netx.Prelude.{
  ℕ, suc, ◌+◌, ◌<◌, ◌^◌, ◌≡◌, refl, ◌∙◌, Bool, true, false, none, some, List, [], ◌∷◌, ◌++◌, arith,
  length, append-nil, ◌==◌,
}
use rust_netx.Prelude.Dict.{lookup, remove, lookup-insert, remove_inserted, contains_key}
use rust_netx.Wire.{Wire, Reader, reader, Result, ok}
use rust_netx.Wire.Frame.{frame, patch_len}
use rust_netx.Wire.Frame.Laws.{patch_len-frame}
use rust_netx.RetResult.{RetResult, write_result}
use rust_netx.RetResult.Parse.{IsSendable, received, from-write_result}
use rust_netx.Answers.{deliver}
use rust_netx.Server
use rust_netx.Server.Commands.{data_reading-frames, serve_all}
use rust_netx.Token.{Token, register, set_result, await_result}
use rust_netx.Token.Calls.{registered}
use rust_netx.Client.{framed, get_result_buff}
use rust_netx.Client.Request.{request}
use rust_netx.Client.Stream
use rust_netx.Client.Served.{read_loop-frame}
use rust_netx.Link.Call.{Fits, args_bytes, answer_body, request_short, answer_short}

module _ (w : Wire) where
  -- The task that a request starts at the client.
  abbrev pub client_job : ℕ → ℕ → ℕ → ℕ → List ℕ → Stream.Job
  client_job type_tag cmd serial args_count packed = record {
    type_tag = type_tag;
    cmd = cmd;
    session_id = serial;
    args = record {
      inner = request w type_tag cmd serial args_count packed;
      unread = args_bytes w args_count packed;
    };
  }

  on_request :
      (rx : ℕ → Bool) (send_all : Result (Unit {0})) (type_tag cmd serial args_count : ℕ)
      (packed : List ℕ) (r : Stream.Reading)
      → Fits type_tag cmd serial packed
      → Stream.on_frame w rx send_all r (reader (request w type_tag cmd serial args_count packed))
        ≡ (
          record r { jobs = r.jobs ++ (client_job type_tag cmd serial args_count packed ∷ []) },
          Stream.next,
        )
  unfolding Stream.on_frame request
  on_request rx send_all type_tag cmd serial args_count packed r h =
      let args = args_bytes w args_count packed in
      let known = h.type_known in
      rw
        (
          w.read_int-int 4 2400 (w.int 1 type_tag ++ (w.int 4 cmd ++ (w.int 8 serial ++ args)))
              (omega arith),
          w.read_int-int 1 type_tag (w.int 4 cmd ++ (w.int 8 serial ++ args)) (omega arith),
          w.read_int-int 4 cmd (w.int 8 serial ++ args) h.cmd_fits,
          w.read_int-int 8 serial args h.serial_fits,
        )
        (ground arith)

  client_reads_request :
      (rx : ℕ → Bool) (send_all : Result (Unit {0})) (checks : Bool)
      (fuel type_tag cmd serial args_count : ℕ) (packed rest : List ℕ) (r : Stream.Reading)
      → Fits type_tag cmd serial packed
      → Stream.read_loop w rx send_all checks
          (suc fuel)
          (patch_len w (w.int 4 0 ++ request w type_tag cmd serial args_count packed) ++ rest)
          r
        ≡ Stream.read_loop w rx send_all checks fuel rest
            (record r { jobs = r.jobs ++ (client_job type_tag cmd serial args_count packed ∷ []) })
  client_reads_request rx send_all checks fuel type_tag cmd serial args_count packed rest r h =
      let req = request w type_tag cmd serial args_count packed in
      rw
        (
          patch_len-frame w req,
          read_loop-frame w rx send_all checks fuel req rest r
              (request_short w type_tag cmd serial args_count packed h),
          on_request rx send_all type_tag cmd serial args_count packed r h,
        )
        refl

  on_answer :
      (rx : ℕ → Bool) (send_all : Result (Unit {0})) (serial tx : ℕ) (payload : List ℕ)
      (r : Server.Reading)
      → serial < 2 ^ 64
      → lookup serial r.token.result_dict ≡ some tx
      → rx tx ≡ true
      → Server.on_frame w rx send_all r (reader (answer_body w serial payload)) ≡ (
        record r {
          token = record (r.token) { result_dict = remove serial r.token.result_dict };
          events =
              r.events
              ++ (deliver tx
                    (ok (record { inner = answer_body w serial payload; unread = payload }))
                  ∷ []);
        },
        ok tt,
      )
  unfolding Server.on_frame set_result
  on_answer rx send_all serial tx payload r h pending waits =
      rw
        (
          w.read_int-int 4 2500 (w.int 8 serial ++ payload) (omega arith),
          w.read_int-int 8 serial payload h,
          pending,
          waits,
        )
        refl

  -- The answer as it lies in the channel of the call.
  abbrev pub answered : ℕ → RetResult → Reader
  answered serial res = record {
    inner = answer_body w serial (write_result w res);
    unread = write_result w res;
  }

  server_reads_answer :
      (rx : ℕ → Bool) (send_all : Result (Unit {0})) (checks : Bool) (serial tx mode : ℕ)
      (res : RetResult) (r : Server.Reading)
      → serial < 2 ^ 64
      → length (write_result w res) + 16 < 2 ^ 32
      → (mode == 0) ≡ false
      → lookup serial r.token.result_dict ≡ some tx
      → rx tx ≡ true
      → Server.data_reading w rx send_all checks (get_result_buff w serial res mode) r
        ≡ some (
          record r {
            token = record (r.token) { result_dict = remove serial r.token.result_dict };
            events = r.events ++ (deliver tx (ok (answered serial res)) ∷ []);
          },
          ok tt,
        )
  unfolding get_result_buff framed serve_all
  server_reads_answer rx send_all checks serial tx mode res r h fits framing pending waits =
      let body = answer_body w serial (write_result w res) in
      rw framing (
        rw (append-nil (frame w body)) at (
          data_reading-frames w rx send_all checks (body ∷ []) r
            (answer_short w serial (write_result w res) fits, tt))
        ∙ rw (on_answer rx send_all serial tx (write_result w res) r h pending waits) refl)

  await-answered :
      (serial : ℕ) (res : RetResult)
      → IsSendable w res
      → await_result w serial (some (ok (answered serial res))) ≡ ok (received res)
  unfolding await_result
  await-answered serial res h =
      rw (append-nil (write_result w res)) at
        (from-write_result w res (answer_body w serial (write_result w res)) [] h)

  register-ok :
      (t : Token) (peer serial tx now : ℕ)
      → t.peer ≡ some peer
      → lookup serial t.result_dict ≡ none
      → register t serial tx now ≡ ok (registered t serial tx now, peer)
  unfolding register contains_key
  register-ok t peer serial tx now up free = cc

  -- A call by the server of a connected client, with a serial that is not pending and a request
  -- that fits its fields and a frame. The request starts one task at the client, with the type,
  -- the command and the serial of the call and its arguments to read. When the client's answer in
  -- a framed mode, a result that the wire can carry in one frame, arrives while the call waits, it
  -- goes into that call's channel, its serial is not pending any more and every other serial is as
  -- before, and the call returns the result as `received` has it.
  pub server_call :
      (rx rx' : ℕ → Bool) (send_all : Result (Unit {0})) (checks : Bool)
      (type_tag cmd serial args_count peer tx now fuel mode : ℕ) (packed rest : List ℕ) (t : Token)
      (r : Server.Reading) (r' : Stream.Reading) (res : RetResult)
      → Fits type_tag cmd serial packed
      → t.peer ≡ some peer
      → lookup serial t.result_dict ≡ none
      → (mode == 0) ≡ false
      → rx tx ≡ true
      → IsSendable w res
      → length (write_result w res) + 16 < 2 ^ 32
      → let req = request w type_tag cmd serial args_count packed in
        let t' = registered t serial tx now in
        let after = record t' { result_dict = remove serial t'.result_dict } in
        (register t serial tx now ≡ ok (t', peer))
        × (Stream.read_loop w rx' send_all checks
              (suc fuel)
              (patch_len w (w.int 4 0 ++ req) ++ rest)
              r'
            ≡ Stream.read_loop w rx' send_all checks fuel rest (record r' {
              jobs = r'.jobs ++ (client_job type_tag cmd serial args_count packed ∷ []);
            }))
        × (Server.data_reading w rx send_all checks
              (get_result_buff w serial res mode)
              (record r { token = t' })
            ≡ some (
              record r {
                token = after;
                events = r.events ++ (deliver tx (ok (answered serial res)) ∷ []);
              },
              ok tt,
            ))
        × ((j : ℕ) → lookup j after.result_dict ≡ lookup j t.result_dict)
        × (await_result w serial (some (ok (answered serial res))) ≡ ok (received res))
  server_call rx rx' send_all checks type_tag cmd serial args_count peer tx now fuel mode packed
        rest t r r' res fits up free framing waits sendable short =
      let t' = registered t serial tx now in
      (
        register-ok t peer serial tx now up free,
        client_reads_request rx' send_all checks fuel type_tag cmd serial args_count packed rest r'
            fits,
        server_reads_answer rx send_all checks serial tx mode res (record r { token = t' })
            fits.serial_fits short framing
            (ground (arith, lookup-insert serial serial tx t.result_dict)) waits,
        remove_inserted serial tx t.result_dict free,
        await-answered serial res sendable,
      )
