-- ===== src/Client/Pending/Loop.antt =====
-- What the ends of calls do to the serials and the times of the others: an answer, an error, and
-- the loop of `check` in netx_client/src/client/request_manager.rs.
use rust_netx.Prelude.{
  inl, inr, ℕ, ◌≡◌, ◌∙◌, refl, Bool, true, some, [], ◌∷◌, arith, Bool-cases, Option-cases,
}
use rust_netx.Prelude.Dict.{Dict, lookup, lookup-remove}
use rust_netx.Prelude.Deadlines.{Deadlines, is_due}
use rust_netx.Wire.{Reader, Result, Error, ok, err, serial_time_out}
use rust_netx.Answers.{deliver, Sent}
use rust_netx.Answers.Timeouts.{Sent-append_cases}
use rust_netx.Client.{Client}
use rust_netx.Client.Calls.{answer, set_error, check_loop}
use rust_netx.Client.Pending.{Session, has, Dated}

-- What a client keeps where it only ends calls: pending calls and entries go, none come.
pub record Shrinks (q : Deadlines) (c c' : Client) : Type 0 where
  pub same_serial : c'.serial_atomic ≡ c.serial_atomic
  pub same_mode : c'.mode ≡ c.mode
  pub fewer : (k tx : ℕ) → lookup k c'.result_dict ≡ some tx → lookup k c.result_dict ≡ some tx
  pub shorter : (k at : ℕ) → has k at c'.queue ≡ true → has k at q ≡ true

pub Dated-Shrinks :
    (s : Session) (c : Client)
    → Shrinks s.client.queue s.client c
    → Dated s
    → Dated (record s { client = c })
Dated-Shrinks s c h d = record {
  fresh = λ k tx e. omega (arith, h.same_serial, d.fresh k tx (h.fewer k tx e));
  fresh_entry = λ k at e. omega (arith, h.same_serial, d.fresh_entry k at (h.shorter k at e));
  dated = λ k at tx e e'. d.dated k at tx (h.shorter k at e) (h.fewer k tx e');
  issued = d.issued;
}

module _ (rx : ℕ → Bool) where
  pub answer-Shrinks :
      (c : Client) (k : ℕ) (v : Result Reader) (missing : Result (Unit {0}))
      → Shrinks c.queue c (answer rx c k v missing (lookup k c.result_dict)).0
  answer-Shrinks c k v missing = elim (Option-cases (lookup k c.result_dict)) [
    | inl n ↦ rw n (record {
      same_serial = refl;
      same_mode = refl;
      fewer = λ j tx e. e;
      shorter = λ j at e. e;
    })
    | inr (t, e) ↦ rw e (record {
      same_serial = refl;
      same_mode = refl;
      fewer = λ j tx e. ground (arith, lookup-remove k j c.result_dict);
      shorter = λ j at e. e;
    })
  ]

  set_error-Shrinks : (c : Client) (k : ℕ) (e : Error) → Shrinks c.queue c (set_error rx c k e).0
  unfolding set_error
  set_error-Shrinks c k e = answer-Shrinks c k (err e) (ok tt)

  pub check_loop-Shrinks :
      (now : ℕ) (q : Deadlines) (c : Client) → Shrinks q c (check_loop rx now q c).0
  unfolding check_loop
  check_loop-Shrinks now [] c = record {
    same_serial = refl;
    same_mode = refl;
    fewer = λ k tx e. e;
    shorter = λ k at e. e;
  }
  check_loop-Shrinks now ((j, b) ∷ q) c =
      let failed = (set_error rx c j (serial_time_out j)).0 in
      let one = set_error-Shrinks c j (serial_time_out j) in
      let rest = check_loop-Shrinks now q failed in
      elim (Bool-cases (is_due now (c.server_info).request_out_time_ms b)) [
        | inl d ↦ rw d (record {
          same_serial = rest.same_serial ∙ one.same_serial;
          same_mode = rest.same_mode ∙ one.same_mode;
          fewer = λ k tx e. one.fewer k tx (rest.fewer k tx e);
          shorter = λ k at e. ground (arith, rest.shorter k at e);
        })
        | inr d ↦ rw d (record {
          same_serial = refl;
          same_mode = refl;
          fewer = λ k tx e. e;
          shorter = λ k at e. e;
        })
      ]

  -- What a failing serial sends, and what the loop sends: to a pending call with an entry that is
  -- due.
  set_error-Sent :
      (c : Client) (j : ℕ) (e : Error) (tx : ℕ) (v : Result Reader)
      → Sent (deliver tx v) (set_error rx c j e).1
      → (lookup j c.result_dict ≡ some tx) × (v ≡ err e)
  unfolding set_error
  set_error-Sent c j e tx v h = elim (Option-cases (lookup j c.result_dict)) [
    | inl n ↦ absurd (rw n at h)
    | inr (t, s) ↦ elim (Bool-cases (rx t)) [
      | inl o ↦ elim (rw (s, o) at h) [ inl p ↦ (cc (s, p), cc p) | inr bad ↦ absurd bad ]
      | inr o ↦ absurd (rw (s, o) at h)
    ]
  ]

  set_error-out_time :
      (c : Client) (j : ℕ) (e : Error) → (set_error rx c j e).0.server_info ≡ c.server_info
  unfolding set_error
  set_error-out_time c j e = elim (Option-cases (lookup j c.result_dict)) [
    | inl n ↦ rw n refl
    | inr (t, s) ↦ rw s refl
  ]

  -- The call `k` with the channel `tx` was ended by an entry that is due.
  pub record Expired (now out tx : ℕ) (v : Result Reader) (q : Deadlines) (d : Dict ℕ)
      : Type 0 where
    pub serial : ℕ
    pub at : ℕ
    pub entry : has serial at q ≡ true
    pub pending : lookup serial d ≡ some tx
    pub due : is_due now out at ≡ true
    pub told : v ≡ err (serial_time_out serial)

  pub check_loop-Expired :
      (now : ℕ) (q : Deadlines) (c : Client) (tx : ℕ) (v : Result Reader)
      → Sent (deliver tx v) (check_loop rx now q c).1
      → Expired now (c.server_info).request_out_time_ms tx v q c.result_dict
  unfolding check_loop
  check_loop-Expired now [] c tx v h = absurd h
  check_loop-Expired now ((j, b) ∷ q) c tx v h =
      let out = (c.server_info).request_out_time_ms in
      let failed = set_error rx c j (serial_time_out j) in
      elim (Bool-cases (is_due now out b)) [
        | inl d ↦ elim (Sent-append_cases (deliver tx v) failed.1 _ (rw d at h)) [
          | inl here ↦
              let (e, same) = set_error-Sent c j (serial_time_out j) tx v here in
              record { serial = j; at = b; entry = ground arith; pending = e; due = d; told = same }
          | inr later ↦
              let x = check_loop-Expired now q failed.0 tx v later in
              record {
                serial = x.serial;
                at = x.at;
                entry = ground (arith, x.entry);
                pending = (set_error-Shrinks c j (serial_time_out j)).fewer x.serial tx x.pending;
                due = rw (set_error-out_time c j (serial_time_out j)) at x.due;
                told = x.told;
              }
        ]
        | inr d ↦ absurd (rw d at h)
      ]
