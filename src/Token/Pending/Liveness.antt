-- ===== src/Token/Pending/Liveness.antt =====
-- Pending calls of netx_server/src/server/async_token.rs and the time they have.
use rust_netx.Prelude.{
  mem_key, ℕ, ◌+◌, ◌^◌, ◌<◌, ◌≤◌, ◌≡◌, refl, Bool, true, false, Option, none, some, [], ◌∷◌, arith,
  if◌then◌else◌, ◌∙◌,
}
use rust_netx.Prelude.Dict.{lookup}
use rust_netx.Prelude.Deadlines.{
  Deadlines, InOrder, InOrder-later, InOrder-le, queued, due, waited_is_due,
}
use rust_netx.Wire.{err, serial_time_out}
use rust_netx.Answers.{deliver, Sent}
use rust_netx.Token.{check_request_timeout}
use rust_netx.Token.Timeout.{check_request_timeout_exact}
use rust_netx.Token.Pending.{Session}
use rust_netx.Token.Pending.History.{Served}

pub none_left :
    (b : Bool) (o : Option ℕ) → ((c : ℕ) → o ≡ some c → b ≡ true) → (if b then none else o) ≡ none
none_left true o h = refl
none_left false none h = refl
none_left false (some c) h = cc (h c refl)

-- When every entry has waited for the timeout, every queued serial is due.
pub all_due :
    (lo made d out : ℕ) (q : Deadlines) (k : ℕ)
    → made + d < lo + 2 ^ 32
    → out ≤ d
    → InOrder lo made q
    → queued k q ≡ true
    → mem_key k (due (made + d) out q) ≡ true
all_due lo made d out [] k fresh le h e = cc
all_due lo made d out ((j, at) ∷ q) k fresh le h e =
    let b = InOrder-le at made q h.1 in
    rw (waited_is_due made d out at b le (omega arith))
      (ground (arith, all_due at made d out q k (omega arith) le h.1))

-- At a token whose pending calls all stand in its queue, with the entries in order of time: once
-- `out` ms have passed since the clock, and fewer than 2^32 since `lo`, a time before every entry,
-- one check ends the calls. No call is pending any more, and each whose receiver waits is told
-- that it has timed out.
pub pending_calls_end :
    (rx : ℕ → Bool) (s : Session) (lo d out : ℕ)
    → Served s
    → InOrder lo s.clock s.token.request_queue
    → s.clock + d < lo + 2 ^ 32
    → out ≤ d
    → let r = check_request_timeout rx (s.clock + d) out s.token in
      ((k : ℕ) → lookup k (r.0).result_dict ≡ none)
      × ((k c : ℕ)
          → lookup k s.token.result_dict ≡ some c
          → rx c ≡ true
          → Sent (deliver c (err (serial_time_out k))) r.1)
pending_calls_end rx s lo d out h o fresh le =
    let q = s.token.request_queue in
    let now = s.clock + d in
    let (_, gone, told, _) =
      check_request_timeout_exact rx now out lo s.token fresh
        (InOrder-later lo s.clock now q (omega arith) o) in
    let over = λ (k c : ℕ) (e : lookup k s.token.result_dict ≡ some c).
      all_due lo s.clock d out q k fresh le o (h.covered k c e) in
    (
      λ k. gone k ∙ none_left (mem_key k (due now out q)) (lookup k s.token.result_dict) (over k),
      λ k c e o'. told k c (over k c e) e o',
    )
