-- ===== src/Token/Pending/Loop.antt =====
-- The operations of netx_server/src/server/async_token.rs and the two invariants of its calls.
use rust_netx.Prelude.{
  none, if◌then◌else◌, ℕ, suc, ◌≡◌, Bool, true, false, some, List, [], ◌∷◌, ◌++◌, arith,
  Option-cases, Bool-cases, ◌==◌, append_assoc, append-nil, inl, inr,
}
use rust_netx.Prelude.Dict.{Dict, lookup, lookup-remove, lookup-insert}
use rust_netx.Prelude.Deadlines.{
  Deadlines, InOrder, InOrder-from, InOrder-push_front, queued, queued-push_front, is_due,
}
use rust_netx.Wire.{Reader, Result, Error, ok, err, serial_time_out}
use rust_netx.Answers.Once.{
  channels, channels-append, IsOnce, remove-IsOnce, answered-IsOnce, insert-IsOnce,
}
use rust_netx.Token.{Token, register, set_error, check_loop, answer}
use rust_netx.Token.Calls.{register-eq-ok}
use rust_netx.Token.Pending.{IsServed}

module _ (rx : ℕ → Bool) where
  pub answer-IsOnce :
      (next : ℕ) (done : List ℕ) (t : Token) (k : ℕ) (v : Result Reader)
      (missing : Result (Unit {0}))
      → IsOnce next t.result_dict done
      → let r = answer rx t k v missing (lookup k t.result_dict) in
        IsOnce next (r.0).result_dict (done ++ channels r.1)
  answer-IsOnce next done t k v missing h = elim (Option-cases (lookup k t.result_dict)) [
    | inl n ↦ rw (n, append-nil done) h
    | inr (c, s) ↦ rw s (elim (Bool-cases (rx c)) [
      | inl o ↦ rw o (answered-IsOnce next t.result_dict done k c s h)
      | inr o ↦ rw (o, append-nil done) (remove-IsOnce next t.result_dict done k h)
    ])
  ]

  pub set_error-IsOnce :
      (next : ℕ) (done : List ℕ) (t : Token) (k : ℕ) (e : Error)
      → IsOnce next t.result_dict done
      → let r = set_error rx t k e in IsOnce next (r.0).result_dict (done ++ channels r.1)
  unfolding set_error
  set_error-IsOnce next done t k e h = answer-IsOnce next done t k (err e) (ok tt) h

  pub check_loop-IsOnce :
      (next now out : ℕ) (done : List ℕ) (q : Deadlines) (t : Token)
      → IsOnce next t.result_dict done
      → let r = check_loop rx now out q t in IsOnce next (r.0).result_dict (done ++ channels r.1)
  unfolding check_loop
  check_loop-IsOnce next now out done [] t h = rw (append-nil done) h
  check_loop-IsOnce next now out done ((k, at) ∷ q) t h =
      let failed = set_error rx t k (serial_time_out k) in
      let rest = check_loop rx now out q failed.0 in
      elim (Bool-cases (is_due now out at)) [
        | inl d ↦
            rw
              (
                d,
                channels-append failed.1 rest.1,
                ← append_assoc done (channels failed.1) (channels rest.1),
              )
              (check_loop-IsOnce next now out (done ++ channels failed.1) q failed.0
                (set_error-IsOnce next done t k (serial_time_out k) h))
        | inr d ↦ rw (d, append-nil done) h
      ]

  -- The queue keeps its order, and what is left of the dictionary is queued.
  abbrev IsCovered : Deadlines → Dict ℕ → Type 0
  IsCovered q d = (k c : ℕ) → lookup k d ≡ some c → queued k q ≡ true

  set_error-dict :
      (t : Token) (k j : ℕ) (e : Error)
      → lookup j (set_error rx t k e).0.result_dict
        ≡ (if k == j then none else lookup j t.result_dict)
  unfolding set_error
  set_error-dict t k j e = elim (Option-cases (lookup k t.result_dict)) [
    | inl n ↦ rw n (ground (arith, n))
    | inr (c, s) ↦ rw s (lookup-remove k j t.result_dict)
  ]

  pub set_error-lookup :
      (t : Token) (k j c : ℕ) (e : Error)
      → lookup j (set_error rx t k e).0.result_dict ≡ some c
      → (lookup j t.result_dict ≡ some c) × ((k == j) ≡ false)
  set_error-lookup t k j c e h = ground (arith, set_error-dict t k j e)

  pub check_loop-IsServed :
      (lo now out : ℕ) (q : Deadlines) (t : Token)
      → InOrder lo now q
      → IsCovered q t.result_dict
      → let r = (check_loop rx now out q t).0 in
        InOrder lo now r.request_queue × IsCovered r.request_queue r.result_dict
  unfolding check_loop
  check_loop-IsServed lo now out [] t o c = (o, c)
  check_loop-IsServed lo now out ((k, at) ∷ q) t o c =
      let failed = set_error rx t k (serial_time_out k) in
      elim (Bool-cases (is_due now out at)) [
        | inl d ↦
            let (o', c') = check_loop-IsServed at now out q failed.0 o.1 (λ j tx e.
              let (e', ne) = set_error-lookup t k j tx (serial_time_out k) e in
              ground (arith, c j tx e')) in
            rw d (InOrder-from lo at now _ o.0 o', c')
        | inr d ↦ rw d (o, c)
      ]

  pub answer-IsServed :
      (now : ℕ) (t : Token) (k : ℕ) (v : Result Reader) (missing : Result (Unit {0}))
      → IsServed now t
      → IsServed now (answer rx t k v missing (lookup k t.result_dict)).0
  answer-IsServed now t k v missing h = elim (Option-cases (lookup k t.result_dict)) [
    | inl n ↦ rw n h
    | inr (c, s) ↦ rw s (record {
      ordered = h.ordered;
      covered = λ j c' e. h.covered j c' (ground (arith, lookup-remove k j t.result_dict));
    })
  ]

-- A new call takes the next channel, and the current time.
pub register-IsServed :
    (t t' : Token) (k tx now p : ℕ)
    → IsServed now t
    → register t k tx now ≡ ok (t', p)
    → IsServed now t'
register-IsServed t t' k tx now p h e =
    let (absent, has_peer, same) = register-eq-ok t t' k tx now p e in
    rw same (record {
      ordered = InOrder-push_front 0 now now k t.request_queue (omega arith) h.ordered;
      covered = λ j c s. ground (
        arith,
        lookup-insert k j tx t.result_dict,
        queued-push_front j k now t.request_queue,
        h.covered j c,
      );
    })

pub register-IsOnce :
    (t t' : Token) (k tx now p : ℕ) (done : List ℕ)
    → IsOnce tx t.result_dict done
    → register t k tx now ≡ ok (t', p)
    → IsOnce (suc tx) t'.result_dict done
register-IsOnce t t' k tx now p done h e =
    let (absent, has_peer, same) = register-eq-ok t t' k tx now p e in
    rw same (insert-IsOnce t.result_dict k tx done h)
