-- ===== src/Link/System/Tasks.antt =====
-- What the server does to the system: its loop starts the task of a request, and a task that ends
-- sends its answer.
use rust_netx.Prelude.{
  ◌==◌, Bool, false, Option, some, suc, append-nil, ℕ, ◌+◌, ◌<◌, ◌^◌, ◌≡◌, refl, sym, ap, ◌∙◌, List,
  [], ◌∷◌, ◌++◌, arith, length, map, All, count, count-append,
}
use rust_netx.Wire.{Wire, Reader, Error, reader, Result, ok}
use rust_netx.Token.{Token, Controller, execute_controller, send}
use rust_netx.Server.Jobs.{run_job}
use rust_netx.Wire.Frame.{frame, frames, read_buff}
use rust_netx.Wire.Frame.Laws.{patch_len-frame}
use rust_netx.RetResult.{RetResult, write_result}
use rust_netx.RetResult.Parse.{IsSendable}
use rust_netx.Server
use rust_netx.Link.Call.{answer_body, request_short}
use rust_netx.Link.Call.ToServer.{on_request}
use rust_netx.Link.System.{Asked, System, request_of, bytes_of}
use rust_netx.Link.System.Frames.{
  Short, frames-append, read_buff-frames, map-append_cases, map-first, map-append, count-without,
  All-append, All-without,
}
use rust_netx.Link.System.Invariant.{IsCall, IsAnswer, Good, job_of, answer_of, serials}

-- The task of a call that asks for an answer sends it to the token's peer.
pub run_job-answers :
    (w : Wire) (text : ℕ → ℕ → Error → List ℕ) (t : Token) (job : Server.Job) (res : RetResult)
    (peer : ℕ)
    → 0 < job.type_tag
    → execute_controller text t job.type_tag job.cmd job.args ≡ ok res
    → t.peer ≡ some peer
    → bytes_of (run_job w text t job) ≡ Server.get_result_buff w job.serial res
unfolding run_job send
run_job-answers w text t job res peer asks exec up =
    let some_type : (job.type_tag == 0) ≡ false = ground arith in
    rw (exec, some_type, up) (append-nil (Server.get_result_buff w job.serial res))

module _ (w : Wire) (Executes : Server.Job → RetResult → Type 0) where
  requests-Short :
      (s : System) (requests : List (ℕ × Asked))
      → All (IsCall s.asked) requests
      → All Short (map (request_of w) requests)
  requests-Short s [] h = tt
  requests-Short s ((k, q) ∷ requests) h = (
    request_short w q.type_tag q.cmd k q.args_count q.packed h.0.fits,
    requests-Short s requests h.1,
  )

  serves_request :
      (rx : ℕ → Bool) (send_all : Result (Unit {0})) (s : System) (k : ℕ) (q : Asked) (dr : Reader)
      (rest : List ℕ) (behind : List (ℕ × Asked))
      → (g : Good w Executes s) → g.requests ≡ (k, q) ∷ behind
      → IsCall s.asked (k, q)
      → All (IsCall s.asked) behind
      → dr ≡ reader (request_of w (k, q))
      → rest ≡ frames w (map (request_of w) behind)
      → Good w Executes
          (record s { server = (Server.on_frame w rx send_all s.server dr).0; to_server = rest })
  serves_request rx send_all s k q dr rest behind g all call others e left =
      rw (e, on_request w rx send_all q.type_tag q.cmd k q.args_count q.packed s.server call.fits)
        (record {
          are_registered = g.are_registered;
          are_entered = g.are_entered;
          requests = behind;
          running = g.running ++ ((k, q) ∷ []);
          answers = g.answers;
          framing = g.framing;
          below = g.below;
          apart = g.apart;
          pending = g.pending;
          free = g.free;
          sent_requests = left;
          are_requests = others;
          jobs = rw (g.jobs, map-append (job_of w) g.running ((k, q) ∷ [])) refl;
          are_jobs = All-append (IsCall s.asked) g.running (k, q) g.are_jobs call;
          sent_answers = g.sent_answers;
          are_answers = g.are_answers;
          told = g.told;
          runs_once = λ j. omega (
            arith,
            g.runs_once j,
            ap (λ x. count j (serials x)) all,
            ap (count j) (map-append (λ p. p.0) g.running ((k, q) ∷ [])),
            count-append j (serials g.running) (k ∷ []),
          );
          waited = λ l j tx x. omega (
            arith,
            g.waited l j tx x,
            ap (λ x. count j (serials x)) all,
            ap (count j) (map-append (λ p. p.0) g.running ((k, q) ∷ [])),
            count-append j (serials g.running) (k ∷ []),
          );
          answered_once = g.answered_once;
          served = g.served;
        })

  pub serves-Good :
      (rx : ℕ → Bool) (send_all : Result (Unit {0})) (overflow : Bool) (s : System) (dr : Reader)
      (rest : List ℕ)
      → Good w Executes s
      → read_buff w overflow s.to_server ≡ ok (dr, rest)
      → Good w Executes
          (record s { server = (Server.on_frame w rx send_all s.server dr).0; to_server = rest })
  serves-Good rx send_all overflow s dr rest g h =
      let (body, bodies, same, e, left) =
        read_buff-frames w rx send_all overflow (map (request_of w) g.requests) dr rest
          (requests-Short s g.requests g.are_requests) (rw g.sent_requests at h) in
      let ((k, q), behind, all, call, others, one, more) =
        map-first (request_of w) g.requests body bodies g.are_requests same in
      serves_request rx send_all s k q dr rest behind g all call others (cc (e, one))
        (cc (left, more))

  pub get_result_buff-frame :
      (k : ℕ) (res : RetResult)
      → Server.get_result_buff w k res ≡ frame w (answer_body w k (write_result w res))
  unfolding Server.get_result_buff
  get_result_buff-frame k res = patch_len-frame w (answer_body w k (write_result w res))

  pub ends-Good :
      (s : System) (job : Server.Job) (before behind : List Server.Job)
      (text : ℕ → ℕ → Error → List ℕ) (c : Option Controller) (res : RetResult) (peer : ℕ)
      → Good w Executes s
      → let t = record s.server.token { controller = c } in
        s.server.jobs ≡ before ++ (job ∷ behind)
        → execute_controller text t job.type_tag job.cmd job.args ≡ ok res
        → Executes job res
        → IsSendable w res
        → length (write_result w res) + 16 < 2 ^ 32
        → s.server.token.peer ≡ some peer
        → Good w Executes (record s {
          server = record s.server { jobs = before ++ behind };
          to_client = s.to_client ++ bytes_of (run_job w text t job);
          ran = s.ran ++ (job.serial ∷ []);
        })
  ends-Good s job before behind text c res peer g h exec run sendable short up =
      let (ps, (k, q), qs, all, first, one, last) =
        map-append_cases (job_of w) g.running before job behind (sym g.jobs ∙ h) in
      let serial : job.serial ≡ k = ap (λ j. j.serial) (sym one) in
      let (call, others) = All-without (IsCall s.asked) ps (k, q) qs (rw all at g.are_jobs) in
      let asks : 0 < job.type_tag = omega (arith, call.answers, ap (λ j. j.type_tag) one) in
      let t = record s.server.token { controller = c } in
      let bytes = run_job-answers w text t job res peer asks exec up in
      let answer : IsAnswer w Executes s.asked (k, res) = record {
        question = q;
        call = call;
        result = record { executed = rw one run; sendable = sendable; short = short };
      } in
      record {
        are_registered = g.are_registered;
        are_entered = g.are_entered;
        requests = g.requests;
        running = ps ++ qs;
        answers = g.answers ++ ((k, res) ∷ []);
        framing = g.framing;
        below = g.below;
        apart = g.apart;
        pending = g.pending;
        free = g.free;
        sent_requests = g.sent_requests;
        are_requests = g.are_requests;
        jobs = rw (map-append (job_of w) ps qs, first, last) refl;
        are_jobs = others;
        sent_answers =
            rw
              (
                bytes,
                g.sent_answers,
                serial,
                get_result_buff-frame k res,
                map-append (answer_of w) g.answers ((k, res) ∷ []),
                frames-append w (λ tx. Bool.false) (ok tt) Bool.false (map (answer_of w) g.answers)
                    (answer_of w (k, res)),
              )
              refl;
        are_answers =
            All-append (IsAnswer w Executes s.asked) g.answers (k, res) g.are_answers answer;
        told = g.told;
        runs_once = λ j. omega (
          arith,
          g.runs_once j,
          ap (λ x. count j (serials x)) all,
          ap (count j) (map-append (λ p. p.0) ps ((k, q) ∷ qs)),
          ap (count j) (map-append (λ p. p.0) ps qs),
          count-without j (serials ps) k (serials qs),
          count-append j s.ran (job.serial ∷ []),
          ap (λ x. count j (x ∷ [])) serial,
        );
        waited = λ l j tx x. omega (
          arith,
          g.waited l j tx x,
          ap (λ x. count j (serials x)) all,
          ap (count j) (map-append (λ p. p.0) ps ((k, q) ∷ qs)),
          ap (count j) (map-append (λ p. p.0) ps qs),
          count-without j (serials ps) k (serials qs),
          ap (count j) (map-append (λ p. p.0) g.answers ((k, res) ∷ [])),
          count-append j (serials g.answers) (k ∷ []),
        );
        answered_once = g.answered_once;
        served = g.served;
      }

  pub loses-Good :
      (s : System) (job : Server.Job) (before behind : List Server.Job)
      → Good w Executes s
      → s.server.jobs ≡ before ++ (job ∷ behind)
      → Good w Executes (record s {
        server = record s.server { jobs = before ++ behind };
        ran = s.ran ++ (job.serial ∷ []);
        losses = suc s.losses;
      })
  loses-Good s job before behind g h =
      let (ps, (k, q), qs, all, first, one, last) =
        map-append_cases (job_of w) g.running before job behind (sym g.jobs ∙ h) in
      let serial : job.serial ≡ k = ap (λ j. j.serial) (sym one) in
      let (call, others) = All-without (IsCall s.asked) ps (k, q) qs (rw all at g.are_jobs) in
      record {
        requests = g.requests;
        running = ps ++ qs;
        answers = g.answers;
        framing = g.framing;
        below = g.below;
        apart = g.apart;
        pending = g.pending;
        free = g.free;
        are_registered = g.are_registered;
        are_entered = g.are_entered;
        sent_requests = g.sent_requests;
        are_requests = g.are_requests;
        jobs = rw (map-append (job_of w) ps qs, first, last) refl;
        are_jobs = others;
        sent_answers = g.sent_answers;
        are_answers = g.are_answers;
        told = g.told;
        runs_once = λ j. omega (
          arith,
          g.runs_once j,
          ap (λ x. count j (serials x)) all,
          ap (count j) (map-append (λ p. p.0) ps ((k, q) ∷ qs)),
          ap (count j) (map-append (λ p. p.0) ps qs),
          count-without j (serials ps) k (serials qs),
          count-append j s.ran (job.serial ∷ []),
          ap (λ x. count j (x ∷ [])) serial,
        );
        waited = λ l. absurd (omega (arith, l));
        answered_once = g.answered_once;
        served = g.served;
      }
