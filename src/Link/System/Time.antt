-- ===== src/Link/System/Time.antt =====
-- What time and lost connections do to the system: the pending calls of
-- netx_client/src/client/impl_client.rs and the tasks of netx_server/src/server/impl_server.rs.
use rust_netx.Prelude.{ℕ, suc, ◌+◌, refl, Option, [], arith}
use rust_netx.RetResult.{RetResult}
use rust_netx.Server
use rust_netx.Token.{set_peer}
use rust_netx.Client.Pending.Served.{IsServed-later}
use rust_netx.Link.System.{System}
use rust_netx.Link.System.Invariant.{Good, without_deadline}
use rust_netx.Wire.{Wire}

module _ (w : Wire) (Executes : Server.Job → RetResult → Type 0) where
  pub waits-Good :
      (s : System) (d : ℕ) → Good w Executes s → Good w Executes (record s { clock = s.clock + d })
  waits-Good s d g = record {
    are_registered = g.are_registered;
    are_entered = g.are_entered;
    requests = g.requests;
    running = g.running;
    answers = g.answers;
    framing = g.framing;
    below = g.below;
    apart = g.apart;
    pending = g.pending;
    free = g.free;
    sent_requests = g.sent_requests;
    are_requests = g.are_requests;
    jobs = g.jobs;
    are_jobs = g.are_jobs;
    sent_answers = g.sent_answers;
    are_answers = g.are_answers;
    told = g.told;
    runs_once = g.runs_once;
    waited = g.waited;
    answered_once = g.answered_once;
    served = IsServed-later (without_deadline s) s.clock d s.client.client g.served;
  }

  -- Everything on its way is lost, and the tasks go on.
  pub reconnects-Good :
      (s : System) (net peer : Option ℕ)
      → Good w Executes s
      → Good w Executes (record s {
        client = record s.client { client = record s.client.client { net = net } };
        server = record s.server { token = set_peer s.server.token peer };
        to_server = [];
        to_client = [];
        losses = suc s.losses;
      })
  reconnects-Good s net peer g = record {
    are_registered = g.are_registered;
    are_entered = g.are_entered;
    requests = [];
    running = g.running;
    answers = [];
    framing = g.framing;
    below = g.below;
    apart = g.apart;
    pending = g.pending;
    free = g.free;
    sent_requests = refl;
    are_requests = tt;
    jobs = g.jobs;
    are_jobs = g.are_jobs;
    sent_answers = refl;
    are_answers = tt;
    told = g.told;
    runs_once = λ k. ground (arith, g.runs_once k);
    waited = λ l. absurd (omega (arith, l));
    answered_once = g.answered_once;
    served = record { ordered = g.served.ordered; covered = g.served.covered };
  }
