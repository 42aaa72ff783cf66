-- ===== src/Client/Pending/Serials.antt =====
-- The serials of a client's calls over its histories, and the time that its calls have.
use rust_netx.Prelude.{
  leb→le, inl, inr, ℕ, suc, ◌+◌, ◌-◌, ◌%◌, ◌^◌, ◌<◌, ◌≤◌, ◌≡◌, Bool, true, none, some, List, [],
  ◌∷◌, ◌&&◌, ◌||◌, arith, length, ◌==◌, Option-cases,
}
use rust_netx.Prelude.Dict.{lookup, insert, lookup-insert}
use rust_netx.Prelude.Deadlines.{Deadlines, is_due, push_front}
use rust_netx.Wire.{Wire, Reader, Result, ok, err}
use rust_netx.RetResult.{from}
use rust_netx.Answers.{deliver, Sent, sent}
use rust_netx.Token.{log_unclaimed}
use rust_netx.Client.{ServerOption, new, new_serial}
use rust_netx.Client.Calls.{set_error, set_result, check}
use rust_netx.Client.Calls.Starts.{waiting_for, start_call-cases}
use rust_netx.Client.Pending.Loop.{
  Dated-Shrinks, answer-Shrinks, check_loop-Shrinks, check_loop-Expired,
}
use rust_netx.Client.Pending.{
  Session, Op, calls, answered, fails, checks, peers, waits, step, run, has, Dated,
}

has-push_front :
    (k at j b : ℕ) (q : Deadlines)
    → has k at (push_front j b q) ≡ (has k at q || ((j == k) && (b == at)))
has-push_front k at j b [] = ground arith
has-push_front k at j b ((i, x) ∷ q) = ground (arith, has-push_front k at j b q)

-- A call that is made: its serial is the next one.
Dated-call :
    (s : Session)
    → s.client.serial_atomic + 1 < 2 ^ 64
    → Dated s
    → let (serial, c) = new_serial s.client in
      Dated (record s {
        client = waiting_for c serial s.next_tx s.clock;
        next_tx = suc s.next_tx;
        made = insert s.next_tx s.clock s.made;
      })
unfolding new_serial
Dated-call s small d =
    let c = s.client in
    let n = c.serial_atomic in
    let dict = λ (k : ℕ). lookup-insert n k s.next_tx c.result_dict in
    let time = λ (tx : ℕ). lookup-insert s.next_tx tx s.clock s.made in
    record {
      fresh = λ k tx e. ground (arith, dict k, d.fresh k tx);
      fresh_entry =
          λ k at e. ground (arith, has-push_front k at n s.clock c.queue, d.fresh_entry k at);
      dated = λ k at tx e e'. ground (
        arith,
        dict k,
        time tx,
        has-push_front k at n s.clock c.queue,
        d.fresh_entry k at,
        d.dated k at tx,
        d.issued tx at,
        d.fresh k tx,
      );
      issued = λ tx at e. ground (arith, time tx, d.issued tx at);
    }

-- A serial that was taken by a call that failed is not used again.
Dated-skip :
    (s : Session)
    → s.client.serial_atomic + 1 < 2 ^ 64
    → Dated s
    → Dated (record s { client = (new_serial s.client).1 })
unfolding new_serial
Dated-skip s small d = record {
  fresh = λ k tx e. ground (arith, d.fresh k tx);
  fresh_entry = λ k at e. ground (arith, d.fresh_entry k at);
  dated = d.dated;
  issued = d.issued;
}

-- The next serial is free.
next_free : (s : Session) → Dated s → lookup s.client.serial_atomic s.client.result_dict ≡ none
next_free s d = elim (Option-cases (lookup s.client.serial_atomic s.client.result_dict)) [
  | inl free ↦ free
  | inr (tx, e) ↦ absurd (omega (arith, d.fresh s.client.serial_atomic tx e))
]

module _ (w : Wire) where
  step-Dated :
      (s : Session) (op : (ℕ → Bool) × Op)
      → s.client.serial_atomic + 1 < 2 ^ 64
      → Dated s
      → Dated (step w s op).0 × ((step w s op).0.client.serial_atomic < s.client.serial_atomic + 2)
  unfolding step set_result set_error check new_serial
  step-Dated s (rx, calls buff) small d =
      let n = s.client.serial_atomic in
      let c = (new_serial s.client).1 in
      elim (start_call-cases w c n s.next_tx s.clock (buff n) (next_free s d)) [
        | inl (net, sent, up, e) ↦ rw e (Dated-call s small d, omega arith)
        | inr (x, down, e) ↦ rw e (Dated-skip s small d, omega arith)
      ]
  step-Dated s (rx, answered k dr) small d =
      let h = answer-Shrinks rx s.client k (ok dr) (log_unclaimed (from w dr)) in
      (Dated-Shrinks s _ h d, omega (arith, h.same_serial))
  step-Dated s (rx, fails k e) small d =
      let h = answer-Shrinks rx s.client k (err e) (ok tt) in
      (Dated-Shrinks s _ h d, omega (arith, h.same_serial))
  step-Dated s (rx, checks) small d =
      let h = check_loop-Shrinks rx s.clock s.client.queue s.client in
      (Dated-Shrinks s _ h d, omega (arith, h.same_serial))
  step-Dated s (rx, peers p) small d = (
    record { fresh = d.fresh; fresh_entry = d.fresh_entry; dated = d.dated; issued = d.issued },
    omega arith,
  )
  step-Dated s (rx, waits t) small d = (
    record {
      fresh = d.fresh;
      fresh_entry = d.fresh_entry;
      dated = d.dated;
      issued = λ tx at e. let (a, b) = d.issued tx at e in (a, omega arith);
    },
    omega arith,
  )

  run-Dated :
      (s : Session) (ops : List ((ℕ → Bool) × Op))
      → s.client.serial_atomic + length ops < 2 ^ 64
      → Dated s
      → Dated (run w s ops)
  unfolding run
  run-Dated s [] few d = d
  run-Dated s (op ∷ ops) few d =
      let (d', bound) = step-Dated s op (omega arith) d in
      run-Dated (step w s op).0 ops (omega arith) d'

abbrev pub start : ServerOption → ℕ → ℕ → Session
start server_info session_id now = record {
  client = new server_info session_id;
  next_tx = 0;
  clock = now;
  made = [];
}

start-Dated :
    (server_info : ServerOption) (session_id now : ℕ) → Dated (start server_info session_id now)
start-Dated server_info session_id now = record {
  fresh = λ k tx e. unfold lookup in cc;
  fresh_entry = λ k at e. cc;
  dated = λ k at tx e e'. cc;
  issued = λ tx at e. unfold lookup in cc;
}

due-le : (now out at : ℕ) → at ≤ now → is_due now out at ≡ true → at + out ≤ now
unfolding is_due
due-le now out at le h = let l = leb→le out ((now - at) % 2 ^ 32) h in omega arith

-- After any history of a new client with fewer than 2^64 - 1 operations, each of whose calls takes
-- a new serial: the next serial is not pending, so that no call is refused for its serial; and the
-- periodic check ends only calls whose timeout has passed since they were made.
pub calls_keep_their_time :
    (w : Wire) (rx : ℕ → Bool) (server_info : ServerOption) (session_id now : ℕ)
    (ops : List ((ℕ → Bool) × Op))
    → length ops + 1 < 2 ^ 64
    → let s = run w (start server_info session_id now) ops in
      (lookup s.client.serial_atomic s.client.result_dict ≡ none)
      × ((tx : ℕ) (v : Result Reader)
          → Sent (deliver tx v) (check rx s.clock s.client).1
          → (at : ℕ) × (lookup tx s.made ≡ some at)
            × (at + (s.client.server_info).request_out_time_ms ≤ s.clock))
unfolding check
calls_keep_their_time w rx server_info session_id now ops few =
    let begin = start server_info session_id now in
    let s = run w begin ops in
    let d = run-Dated w begin ops (omega arith) (start-Dated server_info session_id now) in
    (
      next_free s d,
      λ tx v h.
          let x = check_loop-Expired rx s.clock s.client.queue s.client tx v h in
          let made = d.dated x.serial x.at tx x.entry x.pending in
          (x.at, made, due-le s.clock _ x.at (d.issued tx x.at made).1 x.due),
    )
