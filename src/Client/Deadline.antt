-- ===== src/Client/Deadline.antt =====
-- `check` of netx_client/src/client/request_manager.rs: which calls it ends, and what it leaves.
use rust_netx.Prelude.{
  mem_key, ℕ, ◌+◌, ◌<◌, ◌^◌, ◌≡◌, refl, Bool, true, none, some, [], ◌∷◌, arith, inl, inr,
  if◌then◌else◌, Bool-cases, Option-cases,
}
use rust_netx.Prelude.Dict.{lookup}
use rust_netx.Prelude.Deadlines.{Deadlines, is_due, due, waiting, InOrder, not_due_later}
use rust_netx.Wire.{err, serial_time_out}
use rust_netx.Answers.{deliver, Event, Sent, IsTimeout, fail_one, fail_all}
use rust_netx.Answers.Timeouts.{fail_all-dict, fail_all-Sent, fail_all-IsTimeout}
use rust_netx.Client.{Client}
use rust_netx.Client.Calls.{set_error, check_loop, check}

module _ (rx : ℕ → Bool) (now : ℕ) where
  -- Of a client, a failed serial changes the dictionary alone.
  set_error-fail_one :
      (c : Client) (k : ℕ)
      → let r = set_error rx c k (serial_time_out k) in
        let f = fail_one rx k c.result_dict in (r.0 ≡ record c { result_dict = f.0 }) × (r.1 ≡ f.1)
  unfolding set_error fail_one
  set_error-fail_one c k = elim (Option-cases (lookup k c.result_dict)) [
    | inl n ↦ rw n (refl, refl)
    | inr (tx, s) ↦ rw s (refl, refl)
  ]

  check_loop-fail_all :
      (lo : ℕ) (q : Deadlines) (c : Client)
      → now < lo + 2 ^ 32
      → InOrder lo now q
      → let out = (c.server_info).request_out_time_ms in
        check_loop rx now q c ≡ (
          let r = fail_all rx (due now out q) c.result_dict in
          (record c { result_dict = r.0; queue = waiting now out q }, r.1))
  unfolding check_loop fail_all
  check_loop-fail_all lo [] c fresh h = refl
  check_loop-fail_all lo ((k, at) ∷ q) c fresh h =
      let out = (c.server_info).request_out_time_ms in
      elim (Bool-cases (is_due now out at)) [
        | inl d ↦
            let (same, es) = set_error-fail_one c k in
            let c' = record c { result_dict = (fail_one rx k c.result_dict).0 } in
            rw (d, same, es, check_loop-fail_all at q c' (omega arith) h.1) refl
        | inr d ↦
            let (none_due, all_wait) = not_due_later now out at q (omega arith) h.1 d in
            rw (d, none_due, all_wait) refl
      ]

-- With the entries in order and less than 2^32 ms old, `check` of the client's manager takes
-- exactly the due entries out of the queue and their serials out of the dictionary. It tells each
-- of these that is pending, and whose receiver waits, that it has timed out, and sends nothing
-- else.
pub check_exact :
    (rx : ℕ → Bool) (now lo : ℕ) (c : Client)
    → now < lo + 2 ^ 32
    → InOrder lo now c.queue
    → let r = check rx now c in
      let out = (c.server_info).request_out_time_ms in
      let over = due now out c.queue in
      ((r.0).queue ≡ waiting now out c.queue)
      × ((k : ℕ)
          → lookup k (r.0).result_dict ≡ (if mem_key k over then none else lookup k c.result_dict))
      × ((k tx : ℕ)
          → mem_key k over ≡ true
          → lookup k c.result_dict ≡ some tx
          → rx tx ≡ true
          → Sent (deliver tx (err (serial_time_out k))) r.1)
      × ((e : Event) → Sent e r.1 → IsTimeout rx over c.result_dict e)
unfolding check
check_exact rx now lo c fresh h =
    let over = due now (c.server_info).request_out_time_ms c.queue in
    rw (check_loop-fail_all rx now lo c.queue c fresh h) (
      refl,
      fail_all-dict rx over c.result_dict,
      fail_all-Sent rx over c.result_dict,
      fail_all-IsTimeout rx over c.result_dict,
    )
