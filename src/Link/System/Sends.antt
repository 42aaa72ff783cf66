-- ===== src/Link/System/Sends.antt =====
-- What a caller does to the system behind its registration: its deadline is set, its request is sent,
-- or it is dropped before.
use rust_netx.Prelude.{
  ℕ, suc, ◌+◌, ◌≡◌, refl, ap, ◌∙◌, false, List, [], ◌∷◌, ◌++◌, arith, map, count, count-append,
  ◌==◌, ltb, if◌then◌else◌,
}
use rust_netx.Wire.{Wire, ok}
use rust_netx.Wire.Frame.{frame}
use rust_netx.RetResult.{RetResult}
use rust_netx.Server
use rust_netx.Client.{framed}
use rust_netx.Client.Calls.{set_request}
use rust_netx.Client.Pending.Served.{set_request-IsServed, IsServed-less}
use rust_netx.Link.System.{Asked, System, request_of}
use rust_netx.Link.System.Frames.{frames-append, map-append, count-without, All-append, All-without}
use rust_netx.Link.System.Invariant.{IsCall, Good, serials, without_deadline}

-- The serials of callers where one steps out or in.
serials-without :
    (j : ℕ) (ps before behind : List (ℕ × Asked)) (p : ℕ × Asked)
    → ps ≡ before ++ (p ∷ behind)
    → count j (serials ps) ≡ (if p.0 == j then 1 else 0) + count j (serials (before ++ behind))
serials-without j ps before behind p e =
    rw (e, map-append (λ x. x.0) before (p ∷ behind), map-append (λ x. x.0) before behind)
      (count-without j (serials before) p.0 (serials behind))

serials-append :
    (j : ℕ) (ps : List (ℕ × Asked)) (p : ℕ × Asked)
    → count j (serials (ps ++ (p ∷ []))) ≡ count j (serials ps) + count j (p.0 ∷ [])
serials-append j ps p =
    ap (count j) (map-append (λ x. x.0) ps (p ∷ [])) ∙ count-append j (serials ps) (p.0 ∷ [])

module _ (w : Wire) (Executes : Server.Job → RetResult → Type 0) where
  framed_in_frames :
      (mode : ℕ) (req : List ℕ) → (mode == 0) ≡ false → framed w mode req ≡ frame w req
  unfolding framed
  framed_in_frames mode req h = rw h refl

  pub sets-Good :
      (s : System) (k : ℕ) (q : Asked) (before behind : List (ℕ × Asked))
      → Good w Executes s
      → s.registered ≡ before ++ ((k, q) ∷ behind)
      → Good w Executes (record s {
        client = record s.client { client = set_request s.client.client k s.clock };
        registered = before ++ behind;
        entered = s.entered ++ ((k, q) ∷ []);
      })
  unfolding set_request
  sets-Good s k q before behind g h =
      let (call, others) =
        All-without (IsCall s.asked) before (k, q) behind (rw h at g.are_registered) in
      let less = λ (j : ℕ). serials-without j s.registered before behind (k, q) h in
      let more = λ (j : ℕ). serials-append j s.entered (k, q) in
      record {
        requests = g.requests;
        running = g.running;
        answers = g.answers;
        framing = g.framing;
        below = g.below;
        apart = g.apart;
        pending = g.pending;
        free = g.free;
        are_registered = others;
        are_entered = All-append (IsCall s.asked) s.entered (k, q) g.are_entered call;
        sent_requests = g.sent_requests;
        are_requests = g.are_requests;
        jobs = g.jobs;
        are_jobs = g.are_jobs;
        sent_answers = g.sent_answers;
        are_answers = g.are_answers;
        told = g.told;
        runs_once = λ j. ground (arith, g.runs_once j, less j, more j);
        waited = λ l j t e. ground (arith, g.waited l j t e, less j, more j);
        answered_once = g.answered_once;
        served =
            set_request-IsServed (without_deadline s)
              (λ j. ltb 0 (count j (serials (before ++ behind)) + count j s.stuck)) s.client.client
              k s.clock g.served (λ j e other. ground (arith, less j));
      }

  pub sends-Good :
      (s : System) (k : ℕ) (q : Asked) (before behind : List (ℕ × Asked))
      → Good w Executes s
      → s.entered ≡ before ++ ((k, q) ∷ behind)
      → Good w Executes (record s {
        entered = before ++ behind;
        to_server = s.to_server ++ framed w (s.client.client).mode (request_of w (k, q));
      })
  sends-Good s k q before behind g h =
      let (call, others) =
        All-without (IsCall s.asked) before (k, q) behind (rw h at g.are_entered) in
      let less = λ (j : ℕ). serials-without j s.entered before behind (k, q) h in
      let more = λ (j : ℕ). serials-append j g.requests (k, q) in
      record {
        requests = g.requests ++ ((k, q) ∷ []);
        running = g.running;
        answers = g.answers;
        framing = g.framing;
        below = g.below;
        apart = g.apart;
        pending = g.pending;
        free = g.free;
        are_registered = g.are_registered;
        are_entered = others;
        sent_requests =
            rw
              (
                g.sent_requests,
                framed_in_frames (s.client.client).mode (request_of w (k, q)) g.framing,
                map-append (request_of w) g.requests ((k, q) ∷ []),
                frames-append w (λ x. false) (ok tt) false (map (request_of w) g.requests)
                    (request_of w (k, q)),
              )
              refl;
        are_requests = All-append (IsCall s.asked) g.requests (k, q) g.are_requests call;
        jobs = g.jobs;
        are_jobs = g.are_jobs;
        sent_answers = g.sent_answers;
        are_answers = g.are_answers;
        told = g.told;
        runs_once = λ j. ground (arith, g.runs_once j, less j, more j);
        waited = λ l j t e. ground (arith, g.waited l j t e, less j, more j);
        answered_once = g.answered_once;
        served = g.served;
      }

  pub forsakes-Good :
      (s : System) (k : ℕ) (q : Asked) (before behind : List (ℕ × Asked))
      → Good w Executes s
      → s.registered ≡ before ++ ((k, q) ∷ behind)
      → Good w Executes (record s {
        registered = before ++ behind;
        stuck = s.stuck ++ (k ∷ []);
        losses = suc s.losses;
      })
  forsakes-Good s k q before behind g h =
      let (call, others) =
        All-without (IsCall s.asked) before (k, q) behind (rw h at g.are_registered) in
      let less = λ (j : ℕ). serials-without j s.registered before behind (k, q) h in
      record {
        requests = g.requests;
        running = g.running;
        answers = g.answers;
        framing = g.framing;
        below = g.below;
        apart = g.apart;
        pending = g.pending;
        free = g.free;
        are_registered = others;
        are_entered = g.are_entered;
        sent_requests = g.sent_requests;
        are_requests = g.are_requests;
        jobs = g.jobs;
        are_jobs = g.are_jobs;
        sent_answers = g.sent_answers;
        are_answers = g.are_answers;
        told = g.told;
        runs_once = λ j. ground (arith, g.runs_once j, less j);
        waited = λ l. absurd (omega (arith, l));
        answered_once = g.answered_once;
        served =
            IsServed-less (without_deadline s)
              (λ j. ltb 0 (count j (serials (before ++ behind)) + count j (s.stuck ++ (k ∷ []))))
              s.clock s.client.client g.served
              (λ j e. ground (arith, less j, count-append j s.stuck (k ∷ [])));
      }

  pub fails-Good :
      (s : System) (k : ℕ) (q : Asked) (before behind : List (ℕ × Asked))
      → Good w Executes s
      → s.entered ≡ before ++ ((k, q) ∷ behind)
      → Good w Executes (record s { entered = before ++ behind; losses = suc s.losses })
  fails-Good s k q before behind g h =
      let (call, others) =
        All-without (IsCall s.asked) before (k, q) behind (rw h at g.are_entered) in
      let less = λ (j : ℕ). serials-without j s.entered before behind (k, q) h in
      record {
        requests = g.requests;
        running = g.running;
        answers = g.answers;
        framing = g.framing;
        below = g.below;
        apart = g.apart;
        pending = g.pending;
        free = g.free;
        are_registered = g.are_registered;
        are_entered = others;
        sent_requests = g.sent_requests;
        are_requests = g.are_requests;
        jobs = g.jobs;
        are_jobs = g.are_jobs;
        sent_answers = g.sent_answers;
        are_answers = g.are_answers;
        told = g.told;
        runs_once = λ j. ground (arith, g.runs_once j, less j);
        waited = λ l. absurd (omega (arith, l));
        answered_once = g.answered_once;
        served = g.served;
      }
