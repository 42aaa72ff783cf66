-- ===== src/Link/System/Answers.antt =====
-- What holds at any time of the system of netx_client/src/client/impl_client.rs and
-- netx_server/src/server/impl_server.rs, from a connected client without calls on.
use rust_netx.Prelude.{ℕ, ◌≤◌, ◌≡◌, refl, Bool, none, some, [], arith, count}
use rust_netx.Prelude.Dict.{lookup}
use rust_netx.Wire.{Wire, Reader, Result}
use rust_netx.RetResult.{RetResult}
use rust_netx.Answers.{deliver, Sent}
use rust_netx.Answers.Once.{Distinct, channels}
use rust_netx.Token.{Token}
use rust_netx.Server
use rust_netx.Client.{Client}
use rust_netx.Client.Stream
use rust_netx.Link.System.{
  Asked, System, Step, Steps, registers, sets, sends, forsakes, fails, loses, draws, serves, ends,
  hears, checks, waits, reconnects, start, next, connected, IsIdle,
}
use rust_netx.Link.System.Invariant.{IsTold, Good}
use rust_netx.Link.System.Calls.{draws-Good, registers-Good}
use rust_netx.Link.System.Sends.{sets-Good, sends-Good, forsakes-Good, fails-Good}
use rust_netx.Link.System.Time.{waits-Good, reconnects-Good}
use rust_netx.Link.System.Tasks.{serves-Good, ends-Good, loses-Good}
use rust_netx.Link.System.Hears.{hears-Good, checks-Good}

module _ (w : Wire) (Executes : Server.Job → RetResult → Type 0) (send_all : Result (Unit {0}))
    (overflow : Bool) where
  Good-Step :
      (s s' : System)
      → Good w Executes s
      → Step w send_all overflow Executes s s'
      → Good w Executes s'
  Good-Step s _ g (draws h) = draws-Good w Executes s g h
  Good-Step s _ g (registers k before behind q c' drawn answers fits tx h) =
      registers-Good w Executes s k before behind q c' g drawn answers fits tx h
  Good-Step s _ g (sets k q before behind h) = sets-Good w Executes s k q before behind g h
  Good-Step s _ g (sends k q before behind h up) = sends-Good w Executes s k q before behind g h
  Good-Step s _ g (forsakes k q before behind h) = forsakes-Good w Executes s k q before behind g h
  Good-Step s _ g (fails k q before behind h) = fails-Good w Executes s k q before behind g h
  Good-Step s _ g (serves rx dr rest h) = serves-Good w Executes rx send_all overflow s dr rest g h
  Good-Step s _ g (ends job before behind text c res peer e exec run sendable short up) =
      ends-Good w Executes s job before behind text c res peer g e exec run sendable short up
  Good-Step s _ g (loses job before behind text c e silent) =
      loses-Good w Executes s job before behind g e
  Good-Step s _ g (hears rx n after dr rest h k) =
      hears-Good w Executes rx send_all overflow s n after rest dr g h k
  Good-Step s _ g (checks rx) = checks-Good w Executes rx s g
  Good-Step s _ g (waits d) = waits-Good w Executes s d g
  Good-Step s _ g (reconnects net peer) = reconnects-Good w Executes s net peer g

  Good-Steps :
      (s s' : System)
      → Good w Executes s
      → Steps w send_all overflow Executes s s'
      → Good w Executes s'
  Good-Steps s _ g start = g
  Good-Steps s _ g (next {s' = s'} {s'' = s''} all one) =
      Good-Step s' s'' (Good-Steps s s' g all) one

  connected-Good :
      (rx : ℕ → Bool) (c : Client) (t : Token) (now : ℕ)
      → IsIdle c
      → Good w Executes (connected c t now w rx send_all)
  unfolding Stream.reading lookup
  connected-Good rx c t now idle =
      let none_waits : (k : ℕ) → lookup k c.result_dict ≡ none = λ k. rw idle.no_calls refl in
      record {
        are_registered = tt;
        are_entered = tt;
        requests = [];
        running = [];
        answers = [];
        framing = idle.framing;
        below = λ k q e. absurd (cc e);
        apart = λ j k p q e e' h. absurd (cc e);
        pending = λ k tx e. absurd (cc (none_waits k, e));
        free = λ k e. refl;
        sent_requests = refl;
        are_requests = tt;
        jobs = refl;
        are_jobs = tt;
        sent_answers = refl;
        are_answers = tt;
        told = λ tx v e. absurd e;
        runs_once = λ k. omega arith;
        waited = λ l k tx e. absurd (cc (none_waits k, e));
        served = record {
          ordered = rw idle.no_entries (omega arith);
          covered = λ k tx e e'. absurd (cc (none_waits k, e));
        };
        answered_once = record {
          issued = λ k t e. absurd (cc (none_waits k, e));
          apart = λ j k t e e'. absurd (cc (none_waits k, e'));
          open_calls = λ k t e. refl;
          done_issued = λ t e. absurd (cc e);
          once = tt;
        };
      }

  pub reached-Good :
      (rx : ℕ → Bool) (c : Client) (t : Token) (now : ℕ) (s : System)
      → IsIdle c
      → Steps w send_all overflow Executes (connected c t now w rx send_all) s
      → Good w Executes s
  reached-Good rx c t now s idle h =
      Good-Steps (connected c t now w rx send_all) s (connected-Good rx c t now idle) h

  -- A client in a framed mode, without pending calls and with an empty queue, is connected. From
  -- then on callers draw serials, register their calls, set their deadlines and send, each in its
  -- own time, or are dropped between these; the two loops read, tasks end in any order and with any
  -- result that `Executes` allows and a frame can carry, or without one, calls time out, callers
  -- that wait give up, and connections are lost and made anew, at any time. In every state that is
  -- reached so, a value that was handed to a caller's channel is for a call that was made with
  -- this channel: its own time-out, or bytes that the call returns as a result that `Executes`
  -- allows for the task of its own request. A channel is that of one call only and has one value
  -- at most, and no serial is run twice.
  pub answers_reach_their_calls :
      (rx : ℕ → Bool) (c : Client) (t : Token) (now : ℕ) (s : System)
      → IsIdle c
      → Steps w send_all overflow Executes (connected c t now w rx send_all) s
      → ((tx : ℕ) (v : Result Reader)
          → Sent (deliver tx v) s.client.events
          → IsTold w Executes s.asked tx v)
        × ((j k : ℕ) (p q : Asked)
            → lookup j s.asked ≡ some p
            → lookup k s.asked ≡ some q
            → p.tx ≡ q.tx
            → j ≡ k)
        × Distinct (channels s.client.events)
        × ((k : ℕ) → count k s.ran ≤ 1)
  answers_reach_their_calls rx c t now s idle h =
      let g = reached-Good rx c t now s idle h in
      (g.told, g.apart, g.answered_once.once, λ k. ground (arith, g.runs_once k))
