-- ===== src/Token/Pending/History.antt =====
-- The calls of netx_server/src/server/async_token.rs over whole histories of a token.
use rust_netx.Prelude.{
  ℕ, ◌+◌, ◌≡◌, refl, Bool, List, [], ◌∷◌, ◌++◌, arith, append_assoc, append-nil,
}
use rust_netx.Prelude.Dict.{lookup}
use rust_netx.Prelude.Deadlines.{InOrder-later}
use rust_netx.Wire.{Wire, Result, ok, err, panic}
use rust_netx.RetResult.{from}
use rust_netx.Answers.Once.{channels, channels-append, Distinct, IsOnce}
use rust_netx.Token.{
  Token, register, set_result, set_error, set_peer, check_request_timeout, log_unclaimed,
}
use rust_netx.Token.Pending.{
  Session, Op, calls, answered, fails, checks, peers, waits, after_register, step, run, start,
  IsServed,
}
use rust_netx.Token.Pending.Loop.{
  answer-IsServed, answer-IsOnce, check_loop-IsServed, check_loop-IsOnce, register-IsServed,
  register-IsOnce,
}

abbrev pub Served : Session → Type 0
Served s = IsServed s.clock s.token

abbrev pub Once : Session → List ℕ → Type 0
Once s done = IsOnce s.next_tx s.token.result_dict done

after_register-Served :
    (s : Session) (k : ℕ)
    → Served s
    → Served (after_register s (register s.token k s.next_tx s.clock))
after_register-Served s k h = go (register s.token k s.next_tx s.clock) refl
  where
    go :
        (r : Result (Token × ℕ))
        → register s.token k s.next_tx s.clock ≡ r
        → Served (after_register s r)
    go (ok (t, p)) e = register-IsServed s.token t k s.next_tx s.clock p h e
    go (err x) e = h
    go panic e = h

after_register-Once :
    (s : Session) (k : ℕ) (done : List ℕ)
    → Once s done
    → Once (after_register s (register s.token k s.next_tx s.clock)) done
after_register-Once s k done h = go (register s.token k s.next_tx s.clock) refl
  where
    go :
        (r : Result (Token × ℕ))
        → register s.token k s.next_tx s.clock ≡ r
        → Once (after_register s r) done
    go (ok (t, p)) e = register-IsOnce s.token t k s.next_tx s.clock p done h e
    go (err x) e = h
    go panic e = h

start-Served : (session_id now : ℕ) → Served (start session_id now)
unfolding start
start-Served session_id now = record {
  ordered = omega arith;
  covered = λ k c e. unfold lookup in cc;
}

start-Once : (session_id now : ℕ) → Once (start session_id now) []
unfolding start
start-Once session_id now = record {
  issued = λ k c e. unfold lookup in cc;
  apart = λ j k c e e'. unfold lookup in cc;
  open_calls = λ k c e. refl;
  done_issued = λ c m. cc;
  once = tt;
}

module _ (w : Wire) where
  step-Served : (s : Session) (op : (ℕ → Bool) × Op) → Served s → Served (step w s op).0
  unfolding step set_result set_error check_request_timeout
  step-Served s (rx, calls k) h = after_register-Served s k h
  step-Served s (rx, answered k dr) h =
      answer-IsServed rx s.clock s.token k (ok dr) (log_unclaimed (from w dr)) h
  step-Served s (rx, fails k e) h = answer-IsServed rx s.clock s.token k (err e) (ok tt) h
  step-Served s (rx, checks out) h =
      let (o, c) =
        check_loop-IsServed rx 0 s.clock out s.token.request_queue s.token h.ordered h.covered in
      record { ordered = o; covered = c }
  step-Served s (rx, peers p) h =
      unfold set_peer in record { ordered = h.ordered; covered = h.covered }
  step-Served s (rx, waits d) h = record {
    ordered = InOrder-later 0 s.clock (s.clock + d) s.token.request_queue (omega arith) h.ordered;
    covered = h.covered;
  }

  step-Once :
      (s : Session) (op : (ℕ → Bool) × Op) (done : List ℕ)
      → Once s done
      → let r = step w s op in Once r.0 (done ++ channels r.1)
  unfolding step set_result set_error check_request_timeout
  step-Once s (rx, calls k) done h = rw (append-nil done) (after_register-Once s k done h)
  step-Once s (rx, answered k dr) done h =
      answer-IsOnce rx s.next_tx done s.token k (ok dr) (log_unclaimed (from w dr)) h
  step-Once s (rx, fails k e) done h = answer-IsOnce rx s.next_tx done s.token k (err e) (ok tt) h
  step-Once s (rx, checks out) done h =
      check_loop-IsOnce rx s.next_tx s.clock out done s.token.request_queue s.token h
  step-Once s (rx, peers p) done h = unfold set_peer in rw (append-nil done) h
  step-Once s (rx, waits d) done h = rw (append-nil done) h

  run-Served : (s : Session) (ops : List ((ℕ → Bool) × Op)) → Served s → Served (run w s ops).0
  unfolding run
  run-Served s [] h = h
  run-Served s (op ∷ ops) h = run-Served (step w s op).0 ops (step-Served s op h)

  run-Once :
      (s : Session) (ops : List ((ℕ → Bool) × Op)) (done : List ℕ)
      → Once s done
      → let r = run w s ops in Once r.0 (done ++ channels r.1)
  unfolding run
  run-Once s [] done h = rw (append-nil done) h
  run-Once s (op ∷ ops) done h =
      let r = step w s op in
      let rest = run w r.0 ops in
      rw (channels-append r.1 rest.1, ← append_assoc done (channels r.1) (channels rest.1))
        (run-Once r.0 ops (done ++ channels r.1) (step-Once s op done h))

  -- From a new token, no history of calls, answers, errors, checks, connections and delays sends
  -- two answers into one call's channel.
  pub run_answers_once :
      (session_id now : ℕ) (ops : List ((ℕ → Bool) × Op))
      → Distinct (channels (run w (start session_id now) ops).1)
  run_answers_once session_id now ops =
      (run-Once (start session_id now) ops [] (start-Once session_id now)).once

  -- After any history of a new token, each pending call stands in the queue of deadlines, which
  -- is in order of time.
  pub run-start-Served :
      (session_id now : ℕ) (ops : List ((ℕ → Bool) × Op))
      → Served (run w (start session_id now) ops).0
  run-start-Served session_id now ops =
      run-Served (start session_id now) ops (start-Served session_id now)
