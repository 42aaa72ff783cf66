-- ===== src/Link/System/Deadlines.antt =====
-- The time that the calls of the system have: the queue of netx_client/src/client/request_manager.rs
-- and its periodic check.
use rust_netx.Prelude.{ℕ, ◌+◌, ◌<◌, ◌≤◌, ◌^◌, ◌≡◌, Bool, true, none, some, count, arith}
use rust_netx.Prelude.Dict.{lookup}
use rust_netx.Prelude.Deadlines.{InOrder}
use rust_netx.Wire.{Wire, Result, err, serial_time_out}
use rust_netx.RetResult.{RetResult}
use rust_netx.Answers.{deliver, Sent}
use rust_netx.Token.{Token}
use rust_netx.Server
use rust_netx.Client.{Client}
use rust_netx.Client.Calls.{check}
use rust_netx.Client.Pending.Served.{calls_end}
use rust_netx.Link.System.{System, Steps, connected, IsIdle}
use rust_netx.Link.System.Invariant.{serials, without_deadline}
use rust_netx.Link.System.Answers.{reached-Good}

module _ (w : Wire) (Executes : Server.Job → RetResult → Type 0) (send_all : Result (Unit {0}))
    (overflow : Bool) where
  -- From a connected client in a framed mode, without pending calls and with an empty queue, on,
  -- whatever the interleaving, with connections lost, callers dropped and tasks that never end: when
  -- the time for a request has passed since the clock of a reached state, and fewer than 2^32 ms
  -- since `lo`, a time from which on the queue is in order, one check ends every call but those
  -- whose callers are, or were dropped, between the registration and the deadline: the call is not
  -- pending any more, and if it was and its receiver waits, it is told that it has timed out.
  pub every_call_ends :
      (rx rx' : ℕ → Bool) (c : Client) (t : Token) (now lo d : ℕ) (s : System)
      → IsIdle c
      → Steps w send_all overflow Executes (connected c t now w rx send_all) s
      → InOrder lo s.clock s.client.client.queue
      → s.clock + d < lo + 2 ^ 32
      → (s.client.client.server_info).request_out_time_ms ≤ d
      → let r = check rx' (s.clock + d) s.client.client in
        (k : ℕ)
        → count k (serials s.registered) + count k s.stuck ≡ 0
        → (lookup k (r.0).result_dict ≡ none)
          × ((tx : ℕ)
              → lookup k s.client.client.result_dict ≡ some tx
              → rx' tx ≡ true
              → Sent (deliver tx (err (serial_time_out k))) r.1)
  every_call_ends rx rx' c t now lo d s idle h o fresh le k counted =
      let g = reached-Good w Executes send_all overflow rx c t now s idle h in
      calls_end (without_deadline s) rx' s.clock lo d s.client.client g.served o fresh le k
        (ground arith)
