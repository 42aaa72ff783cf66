-- ===== src/Client/Pending/Served.antt =====
-- The pending calls of netx_client/src/client/impl_client.rs and their entries in the queue of
-- request_manager.rs.
use rust_netx.Prelude.{
  ℕ, ◌+◌, ◌<◌, ◌≤◌, ◌^◌, ◌≡◌, ◌∙◌, Bool, true, false, none, some, [], ◌∷◌, arith, mem_key, ◌==◌,
  Option-cases, Bool-cases, inl, inr,
}
use rust_netx.Prelude.Dict.{Dict, insert, lookup, lookup-remove, lookup-insert}
use rust_netx.Prelude.Deadlines.{
  Deadlines, InOrder, InOrder-from, InOrder-later, InOrder-push_front, queued, queued-push_front,
  is_due, due,
}
use rust_netx.Wire.{Reader, Result, Error, err, serial_time_out}
use rust_netx.Answers.{deliver, Sent}
use rust_netx.Client.{Client}
use rust_netx.Client.Calls.{set_request, answer, set_error, check_loop, check}
use rust_netx.Client.Deadline.{check_exact}
use rust_netx.Token.Pending.Liveness.{all_due, none_left}

-- Every pending call has an entry but those that `exempt` names.
abbrev IsCovered : (ℕ → Bool) → Deadlines → Dict ℕ → Type 0
IsCovered exempt q d = (k tx : ℕ) → lookup k d ≡ some tx → exempt k ≡ false → queued k q ≡ true

pub record IsServed (exempt : ℕ → Bool) (now : ℕ) (c : Client) : Type 0 where
  pub ordered : InOrder 0 now c.queue
  pub covered :
      (k tx : ℕ) → lookup k c.result_dict ≡ some tx → exempt k ≡ false → queued k c.queue ≡ true

-- A call that is registered has no entry yet.
pub registered-IsServed :
    (exempt exempt' : ℕ → Bool) (c : Client) (k tx now : ℕ)
    → IsServed exempt now c
    → exempt' k ≡ true
    → ((j : ℕ) → exempt' j ≡ false → exempt j ≡ false)
    → IsServed exempt' now (record c { result_dict = insert k tx c.result_dict })
registered-IsServed exempt exempt' c k tx now h new less = record {
  ordered = h.ordered;
  covered = λ j t e e'. elim (Bool-cases (k == j)) [
    | inl same ↦ let at : k ≡ j = ground arith in absurd (cc (new, at, e'))
    | inr other ↦ h.covered j t (cc (e, other, lookup-insert k j tx c.result_dict)) (less j e')
  ];
}

pub set_request-IsServed :
    (exempt exempt' : ℕ → Bool) (c : Client) (k now : ℕ)
    → IsServed exempt now c
    → ((j : ℕ) → exempt' j ≡ false → (k == j) ≡ false → exempt j ≡ false)
    → IsServed exempt' now (set_request c k now)
unfolding set_request
set_request-IsServed exempt exempt' c k now h less = record {
  ordered = InOrder-push_front 0 now now k c.queue (omega arith) h.ordered;
  covered = λ j t e e'. elim (Bool-cases (k == j)) [
    | inl same ↦ ground (arith, queued-push_front j k now c.queue)
    | inr other ↦
        ground (arith, queued-push_front j k now c.queue, h.covered j t e (less j e' other))
  ];
}

pub IsServed-later :
    (exempt : ℕ → Bool) (now d : ℕ) (c : Client)
    → IsServed exempt now c
    → IsServed exempt (now + d) c
IsServed-later exempt now d c h = record {
  ordered = InOrder-later 0 now (now + d) c.queue (omega arith) h.ordered;
  covered = h.covered;
}

pub IsServed-less :
    (exempt exempt' : ℕ → Bool) (now : ℕ) (c : Client)
    → IsServed exempt now c
    → ((j : ℕ) → exempt' j ≡ false → exempt j ≡ false)
    → IsServed exempt' now c
IsServed-less exempt exempt' now c h less = record {
  ordered = h.ordered;
  covered = λ j t e e'. h.covered j t e (less j e');
}

module _ (exempt : ℕ → Bool) (rx : ℕ → Bool) where
  pub answer-IsServed :
      (now : ℕ) (c : Client) (k : ℕ) (v : Result Reader) (missing : Result (Unit {0}))
      → IsServed exempt now c
      → IsServed exempt now (answer rx c k v missing (lookup k c.result_dict)).0
  answer-IsServed now c k v missing h = elim (Option-cases (lookup k c.result_dict)) [
    | inl n ↦ rw n h
    | inr (tx, s) ↦ rw s (record {
      ordered = h.ordered;
      covered = λ j t e. h.covered j t (ground (arith, lookup-remove k j c.result_dict));
    })
  ]

  set_error-lookup :
      (c : Client) (k j tx : ℕ) (e : Error)
      → lookup j (set_error rx c k e).0.result_dict ≡ some tx
      → (lookup j c.result_dict ≡ some tx) × ((k == j) ≡ false)
  unfolding set_error
  set_error-lookup c k j tx e h = elim (Option-cases (lookup k c.result_dict)) [
    | inl n ↦ let h' = rw n at h in (h', ground (arith, n, h'))
    | inr (t, s) ↦ let h' = rw s at h in ground (arith, lookup-remove k j c.result_dict, h')
  ]

  check_loop-IsServed :
      (lo now : ℕ) (q : Deadlines) (c : Client)
      → InOrder lo now q
      → IsCovered exempt q c.result_dict
      → let r = (check_loop rx now q c).0 in
        InOrder lo now r.queue × IsCovered exempt r.queue r.result_dict
  unfolding check_loop
  check_loop-IsServed lo now [] c o h = (o, h)
  check_loop-IsServed lo now ((k, at) ∷ q) c o h =
      let failed = set_error rx c k (serial_time_out k) in
      elim (Bool-cases (is_due now (c.server_info).request_out_time_ms at)) [
        | inl d ↦
            let (o', h') = check_loop-IsServed at now q failed.0 o.1 (λ j tx e e''.
              let (e', other) = set_error-lookup c k j tx (serial_time_out k) e in
              ground (arith, h j tx e' e'')) in
            rw d (InOrder-from lo at now _ o.0 o', h')
        | inr d ↦ rw d (o, h)
      ]

  pub check-IsServed :
      (now : ℕ) (c : Client) → IsServed exempt now c → IsServed exempt now (check rx now c).0
  unfolding check
  check-IsServed now c h =
      let (o, h') = check_loop-IsServed 0 now c.queue c h.ordered h.covered in
      record { ordered = o; covered = h' }

  -- Once the time is over, one check ends every call.
  pub calls_end :
      (now lo d : ℕ) (c : Client)
      → IsServed exempt now c
      → InOrder lo now c.queue
      → now + d < lo + 2 ^ 32
      → (c.server_info).request_out_time_ms ≤ d
      → let r = check rx (now + d) c in
        (k : ℕ)
        → exempt k ≡ false
        → (lookup k (r.0).result_dict ≡ none)
          × ((tx : ℕ)
              → lookup k c.result_dict ≡ some tx
              → rx tx ≡ true
              → Sent (deliver tx (err (serial_time_out k))) r.1)
  calls_end now lo d c h o fresh le k counted =
      let q = c.queue in
      let out = (c.server_info).request_out_time_ms in
      let (_, gone, told, _) =
        check_exact rx (now + d) lo c fresh (InOrder-later lo now (now + d) q (omega arith) o) in
      let over = λ (tx : ℕ) (e : lookup k c.result_dict ≡ some tx).
        all_due lo now d out q k fresh le o (h.covered k tx e counted) in
      (
        gone k ∙ none_left (mem_key k (due (now + d) out q)) (lookup k c.result_dict) over,
        λ tx e o'. told k tx (over tx e) e o',
      )
