-- ===== src/Token/Timeout.antt =====
-- `check_request_timeout` of netx_server/src/server/async_token.rs: which calls it ends, with what, and what it leaves.
use rust_netx.Prelude.{
  mem_key, ℕ, ◌+◌, ◌<◌, ◌^◌, ◌≡◌, refl, Bool, true, none, some, [], ◌∷◌, arith, inl, inr,
  if◌then◌else◌, Bool-cases, Option-cases,
}
use rust_netx.Prelude.Dict.{lookup}
use rust_netx.Prelude.Deadlines.{Deadlines, is_due, due, waiting, InOrder, not_due_later}
use rust_netx.Wire.{err, serial_time_out}
use rust_netx.Answers.{deliver, Event, Sent, IsTimeout, fail_one, fail_all}
use rust_netx.Answers.Timeouts.{fail_all-dict, fail_all-Sent, fail_all-IsTimeout}
use rust_netx.Token.{Token, set_error, check_loop, check_request_timeout}

module _ (rx : ℕ → Bool) (now out : ℕ) where
  -- Of a token, a failed serial changes the dictionary alone.
  set_error-fail_one :
      (t : Token) (k : ℕ)
      → let r = set_error rx t k (serial_time_out k) in
        let f = fail_one rx k t.result_dict in (r.0 ≡ record t { result_dict = f.0 }) × (r.1 ≡ f.1)
  unfolding set_error fail_one
  set_error-fail_one t k = elim (Option-cases (lookup k t.result_dict)) [
    | inl n ↦ rw n (refl, refl)
    | inr (c, s) ↦ rw s (refl, refl)
  ]

  -- On a queue in order, the loop that stops at the first entry which is not due fails exactly the
  -- serials that are due anywhere in the queue, and keeps exactly the other entries.
  check_loop-fail_all :
      (lo : ℕ) (q : Deadlines) (t : Token)
      → now < lo + 2 ^ 32
      → InOrder lo now q
      → check_loop rx now out q t ≡ (
          let r = fail_all rx (due now out q) t.result_dict in
          (record t { result_dict = r.0; request_queue = waiting now out q }, r.1))
  unfolding check_loop fail_all
  check_loop-fail_all lo [] t fresh h = refl
  check_loop-fail_all lo ((k, at) ∷ q) t fresh h = elim (Bool-cases (is_due now out at)) [
    | inl d ↦
        let (same, es) = set_error-fail_one t k in
        let t' = record t { result_dict = (fail_one rx k t.result_dict).0 } in
        rw (d, same, es, check_loop-fail_all at q t' (omega arith) h.1) refl
    | inr d ↦
        let (none_due, all_wait) = not_due_later now out at q (omega arith) h.1 d in
        rw (d, none_due, all_wait) refl
  ]

-- With the entries in order and less than 2^32 ms old, `check_request_timeout` takes exactly the
-- due entries out of the queue and their serials out of the dictionary. It tells each of these
-- that is pending, and whose receiver waits, that it has timed out, and sends nothing else.
pub check_request_timeout_exact :
    (rx : ℕ → Bool) (now out lo : ℕ) (t : Token)
    → now < lo + 2 ^ 32
    → InOrder lo now t.request_queue
    → let r = check_request_timeout rx now out t in
      let over = due now out t.request_queue in
      ((r.0).request_queue ≡ waiting now out t.request_queue)
      × ((k : ℕ)
          → lookup k (r.0).result_dict ≡ (if mem_key k over then none else lookup k t.result_dict))
      × ((k c : ℕ)
          → mem_key k over ≡ true
          → lookup k t.result_dict ≡ some c
          → rx c ≡ true
          → Sent (deliver c (err (serial_time_out k))) r.1)
      × ((e : Event) → Sent e r.1 → IsTimeout rx over t.result_dict e)
unfolding check_request_timeout
check_request_timeout_exact rx now out lo t fresh h =
    let over = due now out t.request_queue in
    rw (check_loop-fail_all rx now out lo t.request_queue t fresh h) (
      refl,
      fail_all-dict rx over t.result_dict,
      fail_all-Sent rx over t.result_dict,
      fail_all-IsTimeout rx over t.result_dict,
    )
