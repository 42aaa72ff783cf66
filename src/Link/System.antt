-- ===== src/Link/System.antt =====
-- A client that calls a server, as a system of interleaved steps: the callers and the reading loop
-- of netx_client/src/client/impl_client.rs, the reading loop of
-- netx_server/src/server/impl_server.rs, its tasks, which end in any order, the periodic check of
-- request_manager.rs, and the two directions of the connection as streams of bytes.
pub mod Frames
pub mod Invariant
pub mod Grows
pub mod Calls
pub mod Sends
pub mod Time
pub mod Tasks
pub mod Hears
pub mod Answers
pub mod Progress
pub mod Deadlines
mod Tests
use rust_netx.Prelude.{
  false, ◌==◌, ℕ, suc, ◌+◌, ◌<◌, ◌^◌, ◌≡◌, Bool, Option, none, some, List, [], ◌∷◌, ◌++◌, length,
}
use rust_netx.Prelude.Dict.{Dict, insert}
use rust_netx.Wire.{Wire, Reader, Error, Result, ok, err, panic}
use rust_netx.Wire.Frame.{read_buff}
use rust_netx.RetResult.{RetResult, write_result}
use rust_netx.RetResult.Parse.{IsSendable}
use rust_netx.Token.{Token, Controller, set_peer, execute_controller}
use rust_netx.Server
use rust_netx.Server.Jobs.{run_job}
use rust_netx.Client.{Client, new_serial, framed}
use rust_netx.Client.Calls.{register, set_request, check}
use rust_netx.Client.Request.{request}
use rust_netx.Client.Stream
use rust_netx.Link.Call.{Fits}

-- A call as its caller made it: the channel that it waits on, the connection that it found when it
-- registered, and its request.
pub record Asked : Type 0 where
  pub tx : ℕ
  pub net : ℕ
  pub type_tag : ℕ
  pub cmd : ℕ
  pub args_count : ℕ
  pub packed : List ℕ

-- The two ends; the serials that callers drew and have not used yet; the calls that are registered and
-- not yet in the queue of deadlines; those in the queue whose request is not yet sent; the bytes on
-- their way; the calls made so far under their serials; the serials whose callers left between the
-- first and the second; the serials of the tasks that have ended; and how often a request or an
-- answer may have been lost.
pub record System : Type 0 where
  pub client : Stream.Reading
  pub server : Server.Reading
  pub drawn : List ℕ
  pub registered : List (ℕ × Asked)
  pub entered : List (ℕ × Asked)
  pub next_tx : ℕ
  pub clock : ℕ
  pub to_server : List ℕ
  pub to_client : List ℕ
  pub asked : Dict Asked
  pub stuck : List ℕ
  pub ran : List ℕ
  pub losses : ℕ

abbrev pub request_of : Wire → ℕ × Asked → List ℕ
request_of w (serial, q) = request w q.type_tag q.cmd serial q.args_count q.packed

-- The bytes that a task sends.
abbrev pub bytes_of : Result (List (ℕ × List ℕ)) → List ℕ
bytes_of (ok []) = []
bytes_of (ok ((peer, bytes) ∷ more)) = bytes ++ bytes_of (ok more)
bytes_of (err e) = []
bytes_of panic = []

module _ (w : Wire) (send_all : Result (Unit {0})) (overflow : Bool)
    (Executes : Server.Job → RetResult → Type 0) where
  -- The next step of one of the tasks. `Executes` says what the controller may answer to a task, and
  -- `rx` which callers still wait.
  pub data Step (s : System) : System → Type 0 where
    draws :
        s.client.client.serial_atomic + 1 < 2 ^ 64
        → Step s (record s {
          client = record s.client { client = (new_serial s.client.client).1 };
          drawn = s.drawn ++ ((new_serial s.client.client).0 ∷ []);
        })
    -- The three parts of a call before its wait, which others may come between: the dictionary, the
    -- deadline and the send.
    registers :
        (serial : ℕ) (before behind : List ℕ) (q : Asked) (c' : Client)
        → s.drawn ≡ before ++ (serial ∷ behind)
        → 0 < q.type_tag
        → Fits q.type_tag q.cmd serial q.packed
        → q.tx ≡ s.next_tx
        → register s.client.client serial q.tx ≡ ok (c', q.net)
        → Step s (record s {
          client = record s.client { client = c' };
          drawn = before ++ behind;
          registered = s.registered ++ ((serial, q) ∷ []);
          next_tx = suc s.next_tx;
          asked = insert serial q s.asked;
        })
    sets :
        (serial : ℕ) (q : Asked) (before behind : List (ℕ × Asked))
        → s.registered ≡ before ++ ((serial, q) ∷ behind)
        → Step s (record s {
          client = record s.client { client = set_request s.client.client serial s.clock };
          registered = before ++ behind;
          entered = s.entered ++ ((serial, q) ∷ []);
        })
    sends :
        (serial : ℕ) (q : Asked) (before behind : List (ℕ × Asked))
        → s.entered ≡ before ++ ((serial, q) ∷ behind)
        → s.client.client.net ≡ some q.net
        → Step s (record s {
          entered = before ++ behind;
          to_server = s.to_server ++ framed w (s.client.client).mode (request_of w (serial, q));
        })
    -- A caller is dropped before its deadline is set.
    forsakes :
        (serial : ℕ) (q : Asked) (before behind : List (ℕ × Asked))
        → s.registered ≡ before ++ ((serial, q) ∷ behind)
        → Step s (record s {
          registered = before ++ behind;
          stuck = s.stuck ++ (serial ∷ []);
          losses = suc s.losses;
        })
    -- A caller is dropped before its send, or its send fails.
    fails :
        (serial : ℕ) (q : Asked) (before behind : List (ℕ × Asked))
        → s.entered ≡ before ++ ((serial, q) ∷ behind)
        → Step s (record s { entered = before ++ behind; losses = suc s.losses })
    serves :
        (rx : ℕ → Bool) (dr : Reader) (rest : List ℕ)
        → read_buff w overflow s.to_server ≡ ok (dr, rest)
        → Step s
            (record s { server = (Server.on_frame w rx send_all s.server dr).0; to_server = rest })
    -- A task ends, whatever the controller is: it sends what `run_job` gives it.
    ends :
        (job : Server.Job) (before behind : List Server.Job) (text : ℕ → ℕ → Error → List ℕ)
        (k : Option Controller) (res : RetResult) (peer : ℕ)
        → s.server.jobs ≡ before ++ (job ∷ behind)
        → execute_controller text
            (record s.server.token { controller = k })
            job.type_tag
            job.cmd
            job.args
          ≡ ok res
        → Executes job res
        → IsSendable w res
        → length (write_result w res) + 16 < 2 ^ 32
        → s.server.token.peer ≡ some peer
        → Step s (record s {
          server = record s.server { jobs = before ++ behind };
          to_client =
              s.to_client
              ++ bytes_of (run_job w text (record s.server.token { controller = k }) job);
          ran = s.ran ++ (job.serial ∷ []);
        })
    -- A task that panics, or whose token has no peer at its end, sends nothing.
    loses :
        (job : Server.Job) (before behind : List Server.Job) (text : ℕ → ℕ → Error → List ℕ)
        (k : Option Controller)
        → s.server.jobs ≡ before ++ (job ∷ behind)
        → bytes_of (run_job w text (record s.server.token { controller = k }) job) ≡ []
        → Step s (record s {
          server = record s.server { jobs = before ++ behind };
          ran = s.ran ++ (job.serial ∷ []);
          losses = suc s.losses;
        })
    hears :
        (rx : ℕ → Bool) (n : ℕ) (from : List ℕ) (dr : Reader) (rest : List ℕ)
        → w.read_int 4 s.to_client ≡ some (n, from)
        → Stream.read_message w rx send_all overflow (n, from) ≡ ok (dr, rest)
        → Step s
            (record s { client = (Stream.on_frame w rx send_all s.client dr).0; to_client = rest })
    checks :
        (rx : ℕ → Bool)
        → Step s (record s {
          client = record s.client {
            client = (check rx s.clock s.client.client).0;
            events = s.client.events ++ (check rx s.clock s.client.client).1;
          };
        })
    waits : (d : ℕ) → Step s (record s { clock = s.clock + d })
    -- The connection is lost with all that was on its way, and each end may get a new one.
    reconnects :
        (net peer : Option ℕ)
        → Step s (record s {
          client = record s.client { client = record s.client.client { net = net } };
          server = record s.server { token = set_peer s.server.token peer };
          to_server = [];
          to_client = [];
          losses = suc s.losses;
        })

  pub data Steps (s : System) : System → Type 0 where
    start : Steps s s
    next : {s' s'' : System} → Steps s s' → Step s' s'' → Steps s s''

-- A client in a framed mode without pending calls, whose queue is empty.
pub record IsIdle (c : Client) : Type 0 where
  pub framing : (c.mode == 0) ≡ false
  pub no_calls : c.result_dict ≡ []
  pub no_entries : c.queue ≡ []

-- A client and a server's token, before the first call.
abbrev pub connected : Client → Token → ℕ → Wire → (ℕ → Bool) → Result (Unit {0}) → System
connected c t now w rx send_all = record {
  client = Stream.reading w rx send_all c;
  server = Server.reading t;
  drawn = [];
  registered = [];
  entered = [];
  next_tx = 0;
  clock = now;
  to_server = [];
  to_client = [];
  asked = [];
  stuck = [];
  ran = [];
  losses = 0;
}
