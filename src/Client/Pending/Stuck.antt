-- ===== src/Client/Pending/Stuck.antt =====
-- Calls that no check ends: `call` of netx_client/src/client/impl_client.rs between its registration and
-- its deadline, and `check` of request_manager.rs.
use rust_netx.Prelude.{
  ℕ, ◌≡◌, Bool, false, some, List, [], ◌∷◌, ◌==◌, arith, Bool-cases, Option-cases, inl, inr,
}
use rust_netx.Prelude.Dict.{insert, lookup, lookup-remove, lookup-insert}
use rust_netx.Prelude.Deadlines.{Deadlines, queued, queued-behind, is_due}
use rust_netx.Wire.{Error, ok, serial_time_out}
use rust_netx.Client.{Client}
use rust_netx.Client.Calls.{register, set_error, check_loop, check}
use rust_netx.Client.Calls.Starts.{register-eq-ok}

-- The call is pending and has no entry in the queue of deadlines.
record Stuck (c : Client) (k tx : ℕ) : Type 0 where
  pending : lookup k c.result_dict ≡ some tx
  no_entry : queued k c.queue ≡ false

module _ (rx : ℕ → Bool) where
  -- The time-out of another call.
  set_error-other :
      (c : Client) (j k tx : ℕ) (e : Error)
      → lookup k c.result_dict ≡ some tx
      → (j == k) ≡ false
      → lookup k (set_error rx c j e).0.result_dict ≡ some tx
  unfolding set_error
  set_error-other c j k tx e h other = elim (Option-cases (lookup j c.result_dict)) [
    | inl n ↦ rw n h
    | inr (t, s) ↦ rw s (ground (arith, lookup-remove j k c.result_dict))
  ]

  check_loop-Stuck :
      (now k tx : ℕ) (q : Deadlines) (c : Client)
      → lookup k c.result_dict ≡ some tx
      → queued k q ≡ false
      → Stuck (check_loop rx now q c).0 k tx
  unfolding check_loop
  check_loop-Stuck now k tx [] c h m = record { pending = h; no_entry = m }
  check_loop-Stuck now k tx ((j, at) ∷ q) c h m =
      let (other, m') = queued-behind k j at q m in
      let failed = set_error rx c j (serial_time_out j) in
      elim (Bool-cases (is_due now (c.server_info).request_out_time_ms at)) [
        | inl d ↦ rw d (
            check_loop-Stuck now k tx q failed.0
              (set_error-other c j k tx (serial_time_out j) h other) m')
        | inr d ↦ rw d (record { pending = h; no_entry = m })
      ]

  -- The checks of the client at these times.
  unfoldable pub checks_at : List ℕ → Client → Client
  checks_at [] c = c
  checks_at (now ∷ nows) c = checks_at nows (check rx now c).0

  checks_at-Stuck :
      (nows : List ℕ) (k tx : ℕ) (c : Client) → Stuck c k tx → Stuck (checks_at nows c) k tx
  unfolding checks_at check
  checks_at-Stuck [] k tx c h = h
  checks_at-Stuck (now ∷ nows) k tx c h =
      checks_at-Stuck nows k tx (check rx now c).0
        (check_loop-Stuck now k tx c.queue c h.pending h.no_entry)

-- A caller that is dropped between its registration and its deadline leaves its call behind: when a
-- call is registered under a serial that has no entry in the queue, and no deadline is set for it,
-- the serial is still taken after any number of checks at any times, if nothing but checks runs.
pub dropped_call_stays :
    (rx : ℕ → Bool) (c c' : Client) (k tx net : ℕ) (nows : List ℕ)
    → queued k c.queue ≡ false
    → register c k tx ≡ ok (c', net)
    → lookup k (checks_at rx nows c').result_dict ≡ some tx
dropped_call_stays rx c c' k tx net nows no_entry h =
    let (up, free, same) = register-eq-ok c c' k tx net h in
    rw same
      (checks_at-Stuck rx nows k tx (record c { result_dict = insert k tx c.result_dict })
        (record {
          pending = ground (arith, lookup-insert k k tx c.result_dict);
          no_entry = no_entry;
        })).pending
