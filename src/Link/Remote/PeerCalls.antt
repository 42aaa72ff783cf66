-- ===== src/Link/Remote/PeerCalls.antt =====
-- A remote call from a generated method of the server to the controller of a client, with the whole
-- `call_peer!` of netx_server/src/server/async_token.rs, and back.
use rust_netx.Prelude.{
  ℕ, suc, ◌+◌, ◌<◌, ◌^◌, ◌≡◌, refl, Bool, true, false, none, some, List, [], ◌∷◌, ◌++◌, arith,
  length, map, ◌==◌, length-map,
}
use rust_netx.Prelude.Dict.{lookup, remove}
use rust_netx.Wire.{Wire, Reader, Error, Result, ok, err, call_error}
use rust_netx.Wire.Frame.{patch_len}
use rust_netx.RetResult.{RetResult, error, write_result}
use rust_netx.RetResult.Parse.{IsSendable, received}
use rust_netx.Answers.{deliver}
use rust_netx.Token.{Controller, Token, new_serial, register, call, await_result}
use rust_netx.Token.Calls.{registered}
use rust_netx.Token.Macros.{Given, peer_value, peer_with}
use rust_netx.Server
use rust_netx.Client.{Client, run_controller, execute_controller, error_result, get_result_buff}
use rust_netx.Client.Jobs.{run_job}
use rust_netx.Client.Request.{request, call_peer_data, value_of}
use rust_netx.Client.Stream
use rust_netx.Builder.{FuncInfo}
use rust_netx.Builder.Generated.{Pack, arm_result, find_func, call_generated}
use rust_netx.Builder.Generated.Remote.{HaveTypes, call_generated-request}
use rust_netx.Client.Request.{pack_all}
use rust_netx.Link.Call.{Fits}
use rust_netx.Link.Call.ToClient.{client_job, answered, server_call}
use rust_netx.Link.Remote.{
  unpacked, returned, returned-IsSendable, returned_short, value_of-returned, error-IsSendable,
  error_short, value_of-error,
}

run_controller_set :
    (c : Client) (k : Controller) (type_tag cmd : ℕ) (dr : Reader)
    → c.controller ≡ some k
    → run_controller c type_tag cmd dr ≡ k type_tag cmd dr
unfolding run_controller
run_controller_set c k type_tag cmd dr h = cc

-- A call that gets past the actor, with a send that succeeds and an answer.
call_answered :
    (w : Wire) (t t' : Token) (serial tx now peer : ℕ) (answer : Reader)
    → register t serial tx now ≡ ok (t', peer)
    → call w t serial tx now (ok tt) (some (ok answer))
      ≡ (t', await_result w serial (some (ok answer)))
unfolding call
call_answered w t t' serial tx now peer answer h = rw (h, call) refl

module _ {V : Type 0} (w : Wire) (p : Pack V) (text : Error → List ℕ)
    (run : FuncInfo → List V → Result V) (fs : List FuncInfo) (f : FuncInfo) (vs : List V)
    (packed : List ℕ) (t : Token) (c : Client) (peer tx now : ℕ) where
  abbrev pub serial : ℕ
  serial = t.serial_atomic

  abbrev pub job : Stream.Job
  job = client_job w f.tt f.tag serial (length vs) packed

  -- The token has a peer and a free serial; the client is that of the same program, its controller
  -- is the generated one, and it is in a framed mode; the values have the types of the parameters
  -- and are packed.
  pub record PeerServes : Type 0 where
    pub connected : t.peer ≡ some peer
    pub free : lookup serial t.result_dict ≡ none
    pub controller : c.controller ≡ some (call_generated w p run fs)
    pub framing : (c.mode == 0) ≡ false
    pub found : find_func w p f.tag fs ≡ some f
    pub asks_value : f.tt ≡ 2
    pub typed : HaveTypes w p vs f.args_type
    pub is_packed : pack_all (map p.pack vs) ≡ ok packed
    pub few : length vs < 2 ^ 32
    pub fits : Fits f.tt f.tag serial packed

  executes :
      (res : RetResult)
      → PeerServes
      → error_result text (arm_result w p f.tt (run f vs)) ≡ ok res
      → execute_controller text c f.tt f.tag job.args ≡ ok res
  unfolding execute_controller
  executes res h e =
      let req = request w f.tt f.tag serial (length vs) packed in
      let q =
        call_generated-request w p run fs f vs packed req h.found h.fits.type_known h.typed
          h.is_packed h.few in
      rw (run_controller_set c (call_generated w p run fs) f.tt f.tag job.args h.controller)
        (rw q e)

  run_job-served :
      (res : RetResult)
      → PeerServes
      → error_result text (arm_result w p f.tt (run f vs)) ≡ ok res
      → run_job w text c job ≡ ok (get_result_buff w serial res c.mode ∷ [])
  unfolding run_job
  run_job-served res h e =
      let kind : (f.tt == 0) ≡ false = ground (arith, h.asks_value) in
      rw (executes res h e) (rw kind refl)

  abbrev pub sent_request : List ℕ
  sent_request = patch_len w (w.int 4 0 ++ request w f.tt f.tag serial (length vs) packed)

  call_peer_data-packed :
      PeerServes → call_peer_data w f.tt f.tag serial (map p.pack vs) ≡ ok sent_request
  unfolding call_peer_data
  call_peer_data-packed h = rw (h.is_packed, length-map p.pack vs) refl

  -- What surrounds the macro: the send succeeds, and the answer lies in the channel.
  abbrev pub given : RetResult → Given
  given res = record {
    tx = tx;
    now = now;
    send_all = ok tt;
    answer = some (ok (answered w serial res));
  }

  abbrev pub waiting : Token
  waiting = registered (new_serial t).1 serial tx now

  peer_value-answered :
      (res : RetResult) (pack_to : Reader → Result V)
      → PeerServes
      → register (new_serial t).1 serial tx now ≡ ok (waiting, peer)
      → peer_value w (given res) pack_to t f.tag (map p.pack vs)
        ≡ (waiting, value_of pack_to (await_result w serial (some (ok (answered w serial res)))))
  unfolding peer_value peer_with new_serial value_of
  peer_value-answered res pack_to h e =
      let called =
        call_answered w (new_serial t).1 waiting serial tx now peer (answered w serial res) e in
      let packs = rw (h.asks_value) at (call_peer_data-packed h) in rw (packs, called) refl

  module _ (rx rx' : ℕ → Bool) (send_all : Result (Unit {0})) (checks : Bool) (fuel : ℕ)
      (rest : List ℕ) (r : Server.Reading) (r' : Stream.Reading) where
    -- From the caller to the client's task and back into the caller's channel, for a task with the
    -- result `res`.
    abbrev pub PeerTravels : RetResult → Type 0
    PeerTravels res =
        let reply = get_result_buff w serial res c.mode in
        (call_peer_data w f.tt f.tag serial (map p.pack vs) ≡ ok sent_request)
        × (register (new_serial t).1 serial tx now ≡ ok (waiting, peer))
        × (Stream.read_loop w rx' send_all checks (suc fuel) (sent_request ++ rest) r'
            ≡ Stream.read_loop w rx' send_all checks fuel rest
                (record r' { jobs = r'.jobs ++ (job ∷ []) }))
        × (run_job w text c job ≡ ok (reply ∷ []))
        × (Server.data_reading w rx send_all checks reply (record r { token = waiting })
            ≡ some (
              record r {
                token = record waiting { result_dict = remove serial waiting.result_dict };
                events = r.events ++ (deliver tx (ok (answered w serial res)) ∷ []);
              },
              ok tt,
            ))

    peer_travels :
        (res : RetResult) (pack_to : Reader → Result V)
        → PeerServes
        → rx tx ≡ true
        → error_result text (arm_result w p f.tt (run f vs)) ≡ ok res
        → IsSendable w res
        → length (write_result w res) + 16 < 2 ^ 32
        → PeerTravels res
          × (peer_value w (given res) pack_to t f.tag (map p.pack vs)
              ≡ (waiting, value_of pack_to (ok (received res))))
    unfolding new_serial
    peer_travels res pack_to h waits e sendable short =
        let (starts, reads, comes_back, _, value) =
          server_call w rx rx' send_all checks f.tt f.tag serial (length vs) peer tx now fuel c.mode
            packed rest (new_serial t).1 r r' res h.fits h.connected h.free h.framing waits sendable
            short in
        (
          (call_peer_data-packed h, starts, reads, run_job-served res h e, comes_back),
          rw value at (peer_value-answered res pack_to h starts),
        )

    -- A remote call of the server to a client. The generated method of the server packs its
    -- arguments, and its request starts one task at a client that has the controller generated from
    -- the same trait. Where the method for the tag, applied to the caller's values, returns `v`, that
    -- task sends one answer, the answer goes into the channel of the call and its serial is not
    -- pending any more, and the whole `call_peer!` of the caller returns `v`. The method is one that
    -- returns a value, its values have the types of the trait and fit a frame, the token has a peer
    -- and a free serial, and the call still waits when the answer arrives.
    pub peer_call_returns :
        (v : V) (typ bs : List ℕ)
        → PeerServes
        → rx tx ≡ true
        → run f vs ≡ ok v
        → p.HasType v typ
        → p.pack v ≡ ok bs
        → length bs + 25 < 2 ^ 32
        → PeerTravels (returned w bs)
          × (peer_value w (given (returned w bs)) (unpacked p typ) t f.tag (map p.pack vs)
              ≡ (waiting, ok v))
    peer_call_returns v typ bs h waits out typed e small =
        let executed : error_result text (arm_result w p f.tt (run f vs)) ≡ ok (returned w bs) =
          rw (out, h.asks_value, e) refl in
        let (way, value) =
          peer_travels (returned w bs) (unpacked p typ) h waits executed
            (returned-IsSendable w bs (omega arith)) (returned_short w bs small) in
        (way, rw (value_of-returned w p v typ bs typed e) at value)

    -- A remote call of the server to a client that fails. Where the method of the client for the tag,
    -- applied to the caller's values, fails with an error, its task answers with the id 1 and the
    -- error's text, and the whole `call_peer!` of the caller returns them as a `CallError`. The method
    -- is one that returns a value, the text and the values fit a frame, the token has a peer and a
    -- free serial, and the call still waits when the answer arrives.
    pub peer_call_fails :
        (x : Error) (pack_to : Reader → Result V)
        → PeerServes
        → rx tx ≡ true
        → run f vs ≡ err x
        → w.is_utf8 (text x) ≡ true
        → length (text x) + 25 < 2 ^ 32
        → PeerTravels (error 1 (text x))
          × (peer_value w (given (error 1 (text x))) pack_to t f.tag (map p.pack vs)
              ≡ (waiting, err (call_error 1 (text x))))
    peer_call_fails x pack_to h waits out utf8 small =
        let executed : error_result text (arm_result w p f.tt (run f vs)) ≡ ok (error 1 (text x)) =
          rw (out, h.asks_value) refl in
        let (way, value) =
          peer_travels (error 1 (text x)) pack_to h waits executed
            (error-IsSendable w 1 (text x) (omega arith) utf8 (omega arith))
            (error_short w 1 (text x) small) in
        (way, rw (value_of-error w pack_to 1 (text x)) at value)
