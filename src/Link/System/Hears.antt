-- ===== src/Link/System/Hears.antt =====
-- What the client's loop and its periodic check do to the system: an answer that arrives reaches its
-- call or nobody, and a call that is due fails as timed out.
use rust_netx.Prelude.{
  ℕ, ◌+◌, ◌<◌, ◌^◌, ◌≡◌, refl, ap, inl, inr, Bool, none, some, List, [], ◌∷◌, ◌++◌, arith, map,
  count, All, Option-cases, Bool-cases,
}
use rust_netx.Prelude.Dict.{lookup, lookup-remove}
use rust_netx.Prelude.Deadlines.{Deadlines}
use rust_netx.Wire.{Wire, Reader, reader, Result, ok, err, panic}
use rust_netx.Wire.Frame.{frames}
use rust_netx.RetResult.{RetResult, write_result}
use rust_netx.Answers.{Event, deliver, Sent}
use rust_netx.Answers.Once.{IsOnce, channels, channels-append}
use rust_netx.Answers.Timeouts.{Sent-append_cases}
use rust_netx.Server
use rust_netx.Client.{Client}
use rust_netx.Client.Calls.{set_result, check, check_loop, answer}
use rust_netx.Client.Stream
use rust_netx.Client.Stream.{then_flow}
use rust_netx.Client.Pending.Loop.{Shrinks, answer-Shrinks, check_loop-Shrinks, check_loop-Expired}
use rust_netx.Client.Pending.Served.{IsServed, answer-IsServed, check-IsServed}
use rust_netx.Client.Pending.Once.{answer-IsOnce, check_loop-IsOnce}
use rust_netx.Token.{log_unclaimed}
use rust_netx.RetResult.{from}
use rust_netx.Link.Call.{answer_body, answer_short}
use rust_netx.Link.Call.ToServer.{answered, await-answered}
use rust_netx.Link.System.{System}
use rust_netx.Link.System.Frames.{Short, read_message-frames, map-first}
use rust_netx.Link.System.Invariant.{IsAnswer, IsTold, Good, answer_of, serials, without_deadline}

-- What the loop keeps of a frame with an answer.
then_flow-first :
    (r : Stream.Reading) (x : Result (Unit {0})) → (then_flow r x (λ _. (r, Stream.next))).0 ≡ r
then_flow-first r (ok u) = refl
then_flow-first r (err e) = refl
then_flow-first r panic = refl

module _ (w : Wire) (rx : ℕ → Bool) where
  on_frame-answer_body :
      (send_all : Result (Unit {0})) (k : ℕ) (payload : List ℕ) (r : Stream.Reading)
      → k < 2 ^ 64
      → let a =
          set_result rx w r.client k
            (record { inner = answer_body w k payload; unread = payload }) in
        (Stream.on_frame w rx send_all r (reader (answer_body w k payload))).0
        ≡ record r { client = a.0; events = r.events ++ a.1 }
  unfolding Stream.on_frame
  on_frame-answer_body send_all k payload r h =
      let a =
        set_result rx w r.client k (record { inner = answer_body w k payload; unread = payload }) in
      rw (w.read_int-int 4 2500 (w.int 8 k ++ payload) (omega arith), w.read_int-int 8 k payload h)
        (then_flow-first (record r { client = a.0; events = r.events ++ a.1 }) a.2)

  set_result-Sent :
      (c : Client) (k : ℕ) (dr : Reader) (tx : ℕ) (v : Result Reader)
      → Sent (deliver tx v) (set_result rx w c k dr).1
      → (lookup k c.result_dict ≡ some tx) × (v ≡ ok dr)
  unfolding set_result
  set_result-Sent c k dr tx v h = elim (Option-cases (lookup k c.result_dict)) [
    | inl n ↦ absurd (rw n at h)
    | inr (t, s) ↦ elim (Bool-cases (rx t)) [
      | inl o ↦ elim (rw (s, o) at h) [ inl p ↦ (cc (s, p), cc p) | inr bad ↦ absurd bad ]
      | inr o ↦ absurd (rw (s, o) at h)
    ]
  ]

  -- The serial of an answer does not wait any more.
  set_result_ends :
      (c : Client) (k : ℕ) (dr : Reader) → lookup k (set_result rx w c k dr).0.result_dict ≡ none
  unfolding set_result
  set_result_ends c k dr = elim (Option-cases (lookup k c.result_dict)) [
    | inl n ↦ rw n n
    | inr (tx, s) ↦ rw s (ground (arith, lookup-remove k k c.result_dict))
  ]

module _ (w : Wire) (Executes : Server.Job → RetResult → Type 0) where
  -- The client ends calls, and what is left of the answers on their way is of calls.
  pub Good-Shrinks :
      (s : System) (q : Deadlines) (c : Client) (more : List Event) (rest : List ℕ)
      (answers : List (ℕ × RetResult))
      → (g : Good w Executes s) → Shrinks q s.client.client c
      → ((tx : ℕ) (v : Result Reader) → Sent (deliver tx v) more → IsTold w Executes s.asked tx v)
      → IsOnce s.next_tx c.result_dict (channels s.client.events ++ channels more)
      → rest ≡ frames w (map (answer_of w) answers)
      → All (IsAnswer w Executes s.asked) answers
      → (s.losses ≡ 0
          → (k tx : ℕ) → lookup k c.result_dict ≡ some tx
          → 0
            < count k (serials s.registered)
              + count k (serials s.entered)
              + count k (serials g.requests)
              + count k (serials g.running)
              + count k (serials answers))
      → IsServed (without_deadline s) s.clock c
      → Good w Executes (record s {
        client = record s.client { client = c; events = s.client.events ++ more };
        to_client = rest;
      })
  Good-Shrinks s q c more rest answers g h new once same are waits served = record {
    served = served;
    waited = waits;
    are_registered = g.are_registered;
    are_entered = g.are_entered;
    requests = g.requests;
    running = g.running;
    answers = answers;
    framing = rw h.same_mode g.framing;
    below = rw h.same_serial g.below;
    apart = g.apart;
    pending = λ k tx e. g.pending k tx (h.fewer k tx e);
    free = g.free;
    sent_requests = g.sent_requests;
    are_requests = g.are_requests;
    jobs = g.jobs;
    are_jobs = g.are_jobs;
    sent_answers = same;
    are_answers = are;
    told = λ tx v e. elim (Sent-append_cases (deliver tx v) s.client.events more e) [
      | inl old ↦ g.told tx v old
      | inr fresh ↦ new tx v fresh
    ];
    runs_once = rw h.same_serial g.runs_once;
    answered_once = rw (channels-append s.client.events more) once;
  }

  pub checks-Good :
      (rx : ℕ → Bool) (s : System)
      → Good w Executes s
      → Good w Executes (record s {
        client = record s.client {
          client = (check rx s.clock s.client.client).0;
          events = s.client.events ++ (check rx s.clock s.client.client).1;
        };
      })
  unfolding check
  checks-Good rx s g =
      let c = s.client.client in
      let checked = check_loop rx s.clock c.queue c in
      Good-Shrinks s c.queue checked.0 checked.1 s.to_client g.answers g
        (check_loop-Shrinks rx s.clock c.queue c)
        (λ tx v e.
          let x = check_loop-Expired rx s.clock c.queue c tx v e in
          let (question, call, same) = g.pending x.serial tx x.pending in
          record {
            serial = x.serial;
            question = question;
            call = call;
            channel = same;
            value = inl x.told;
          })
        (check_loop-IsOnce rx s.next_tx s.clock (channels s.client.events) c.queue c
          g.answered_once)
        g.sent_answers g.are_answers
        (λ l k tx e. g.waited l k tx ((check_loop-Shrinks rx s.clock c.queue c).fewer k tx e))
        (check-IsServed (without_deadline s) rx s.clock c g.served)

  -- A result that arrives, as its call finds it.
  hears_answer :
      (rx : ℕ → Bool) (s : System) (k : ℕ) (res : RetResult) (rest : List ℕ)
      (behind : List (ℕ × RetResult))
      → (g : Good w Executes s) → g.answers ≡ (k, res) ∷ behind
      → IsAnswer w Executes s.asked (k, res)
      → rest ≡ frames w (map (answer_of w) behind)
      → All (IsAnswer w Executes s.asked) behind
      → let a = set_result rx w s.client.client k (answered w k res) in
        Good w Executes (record s {
          client = record s.client { client = a.0; events = s.client.events ++ a.1 };
          to_client = rest;
        })
  unfolding set_result
  hears_answer rx s k res rest behind g all answer_k same are =
      let c = s.client.client in
      let a = set_result rx w c k (answered w k res) in
      let missing = log_unclaimed (from w (answered w k res)) in
      Good-Shrinks s c.queue a.0 a.1 rest behind g
        (answer-Shrinks rx c k (ok (answered w k res)) missing)
        (λ tx v e.
          let (waits, told) = set_result-Sent w rx c k (answered w k res) tx v e in
          let (question, call, channel) = g.pending k tx waits in
          record {
            serial = k;
            question = answer_k.question;
            call = answer_k.call;
            channel = cc (call.made, answer_k.call.made, channel);
            value =
                inr
                  (res, answer_k.result, rw told (await-answered w k res answer_k.result.sendable));
          })
        (answer-IsOnce rx s.next_tx (channels s.client.events) c k (ok (answered w k res)) missing
          g.answered_once)
        same are
        (λ l j tx e.
          let ends = set_result_ends w rx c k (answered w k res) in
          let shrinks = answer-Shrinks rx c k (ok (answered w k res)) missing in
          ground (
            arith,
            g.waited l j tx (shrinks.fewer j tx e),
            ap (λ x. count j (serials x)) all,
            ends,
            e,
          ))
        (answer-IsServed (without_deadline s) rx s.clock c k (ok (answered w k res)) missing
          g.served)

  hears_frame :
      (rx : ℕ → Bool) (send_all : Result (Unit {0})) (s : System) (k : ℕ) (res : RetResult)
      (dr : Reader) (rest : List ℕ) (behind : List (ℕ × RetResult))
      → (g : Good w Executes s) → g.answers ≡ (k, res) ∷ behind
      → IsAnswer w Executes s.asked (k, res)
      → dr ≡ reader (answer_of w (k, res))
      → rest ≡ frames w (map (answer_of w) behind)
      → All (IsAnswer w Executes s.asked) behind
      → Good w Executes
          (record s { client = (Stream.on_frame w rx send_all s.client dr).0; to_client = rest })
  hears_frame rx send_all s k res dr rest behind g all answer_k e same are =
      rw
        (
          e,
          on_frame-answer_body w rx send_all k (write_result w res) s.client
              answer_k.call.fits.serial_fits,
        )
        (hears_answer rx s k res rest behind g all answer_k same are)

  answers-Short :
      (s : System) (answers : List (ℕ × RetResult))
      → All (IsAnswer w Executes s.asked) answers
      → All Short (map (answer_of w) answers)
  answers-Short s [] h = tt
  answers-Short s ((k, res) ∷ answers) h =
      (answer_short w k (write_result w res) h.0.result.short, answers-Short s answers h.1)

  pub hears-Good :
      (rx : ℕ → Bool) (send_all : Result (Unit {0})) (overflow : Bool) (s : System) (n : ℕ)
      (after rest : List ℕ) (dr : Reader)
      → Good w Executes s
      → w.read_int 4 s.to_client ≡ some (n, after)
      → Stream.read_message w rx send_all overflow (n, after) ≡ ok (dr, rest)
      → Good w Executes
          (record s { client = (Stream.on_frame w rx send_all s.client dr).0; to_client = rest })
  hears-Good rx send_all overflow s n after rest dr g h k =
      let (body, bodies, same, e', left) =
        read_message-frames w rx send_all overflow (map (answer_of w) g.answers) n after dr rest
          (answers-Short s g.answers g.are_answers) (rw g.sent_answers at h) k in
      let ((serial, res), behind, all, answer, others, one, more) =
        map-first (answer_of w) g.answers body bodies g.are_answers same in
      hears_frame rx send_all s serial res dr rest behind g all answer (cc (e', one))
        (cc (left, more)) others
