-- ===== src/Client/Pending/Once.antt =====
-- How often a call of netx_client/src/client/impl_client.rs is answered: by an answer, an error, and
-- the loop of `check` in request_manager.rs.
use rust_netx.Prelude.{
  ℕ, Bool, List, [], ◌∷◌, ◌++◌, Option-cases, Bool-cases, append_assoc, append-nil, inl, inr,
}
use rust_netx.Prelude.Dict.{lookup}
use rust_netx.Prelude.Deadlines.{Deadlines, is_due}
use rust_netx.Wire.{Reader, Result, Error, err, ok, serial_time_out}
use rust_netx.Answers.Once.{channels, channels-append, IsOnce, remove-IsOnce, answered-IsOnce}
use rust_netx.Client.{Client}
use rust_netx.Client.Calls.{answer, set_error, check_loop}

module _ (rx : ℕ → Bool) where
  pub answer-IsOnce :
      (next : ℕ) (done : List ℕ) (c : Client) (k : ℕ) (v : Result Reader)
      (missing : Result (Unit {0}))
      → IsOnce next c.result_dict done
      → let r = answer rx c k v missing (lookup k c.result_dict) in
        IsOnce next (r.0).result_dict (done ++ channels r.1)
  answer-IsOnce next done c k v missing h = elim (Option-cases (lookup k c.result_dict)) [
    | inl n ↦ rw (n, append-nil done) h
    | inr (tx, s) ↦ rw s (elim (Bool-cases (rx tx)) [
      | inl o ↦ rw o (answered-IsOnce next c.result_dict done k tx s h)
      | inr o ↦ rw (o, append-nil done) (remove-IsOnce next c.result_dict done k h)
    ])
  ]

  set_error-IsOnce :
      (next : ℕ) (done : List ℕ) (c : Client) (k : ℕ) (e : Error)
      → IsOnce next c.result_dict done
      → let r = set_error rx c k e in IsOnce next (r.0).result_dict (done ++ channels r.1)
  unfolding set_error
  set_error-IsOnce next done c k e h = answer-IsOnce next done c k (err e) (ok tt) h

  pub check_loop-IsOnce :
      (next now : ℕ) (done : List ℕ) (q : Deadlines) (c : Client)
      → IsOnce next c.result_dict done
      → let r = check_loop rx now q c in IsOnce next (r.0).result_dict (done ++ channels r.1)
  unfolding check_loop
  check_loop-IsOnce next now done [] c h = rw (append-nil done) h
  check_loop-IsOnce next now done ((k, at) ∷ q) c h =
      let failed = set_error rx c k (serial_time_out k) in
      let rest = check_loop rx now q failed.0 in
      elim (Bool-cases (is_due now (c.server_info).request_out_time_ms at)) [
        | inl d ↦
            rw
              (
                d,
                channels-append failed.1 rest.1,
                ← append_assoc done (channels failed.1) (channels rest.1),
              )
              (check_loop-IsOnce next now (done ++ channels failed.1) q failed.0
                (set_error-IsOnce next done c k (serial_time_out k) h))
        | inr d ↦ rw (d, append-nil done) h
      ]
