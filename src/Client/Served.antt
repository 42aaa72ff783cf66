-- ===== src/Client/Served.antt =====
-- `read_buffer` of netx_client/src/client/impl_client.rs on any stream, and on one frame.
use rust_netx.Prelude.{
  ℕ, zero, suc, ◌+◌, ◌%◌, ◌<◌, ◌≤◌, ◌^◌, ◌≡◌, refl, Bool, Option, some, List, ◌++◌, arith, length,
  Option-cases, inl, inr, ap, append_assoc,
}
use rust_netx.Wire.{Wire, Reader, reader, Result, ok, err, panic, >>=-eq-ok}
use rust_netx.Wire.Frame.{frame, read_exact, sub_u32}
use rust_netx.Wire.Frame.Laws.{read_exact-append, read_exact_takes, sub_u32_four}
use rust_netx.Client.{Client}
use rust_netx.Client.Stream.{
  Reading, Flow, next, breaks, fails, panics, continue, with_message, read_message, on_frame,
  read_loop, read_buffer, after_verify, reading,
}

module _ (w : Wire) (rx : ℕ → Bool) (send_all : Result (Unit {0})) (checks : Bool) where
  abbrev Next : Type 0
  Next = List ℕ → Reading → Option (Reading × Result (Unit {0}))

  read_message_takes :
      (n : ℕ) (s rest : List ℕ) (dr : Reader)
      → read_message w rx send_all checks (n, s) ≡ ok (dr, rest)
      → length rest ≤ length s
  read_message_takes n s rest dr h =
      let (len, e2, h2) = >>=-eq-ok (sub_u32 checks n 4) _ h in
      let (q, e3, h3) = >>=-eq-ok (read_exact len s) _ h2 in
      let same : q.1 ≡ rest = cc h3 in
      omega (arith, read_exact_takes len s q.0 q.1 e3, ap length same)

  continue_returns :
      (loop : Next) (rest : List ℕ) (x : Reading × Flow)
      → ((r : Reading) → (o : Reading × Result (Unit {0})) × (loop rest r ≡ some o))
      → (o : Reading × Result (Unit {0})) × (continue w rx send_all loop rest x ≡ some o)
  continue_returns loop rest (r, next) h = h r
  continue_returns loop rest (r, breaks) h = ((r, ok tt), refl)
  continue_returns loop rest (r, fails e) h = ((r, err e), refl)
  continue_returns loop rest (r, panics) h = ((r, panic), refl)

  with_message_returns :
      (loop : Next) (r : Reading) (x : Result (Reader × List ℕ))
      → ((dr : Reader) (rest : List ℕ) (r' : Reading)
          → x ≡ ok (dr, rest)
          → (o : Reading × Result (Unit {0})) × (loop rest r' ≡ some o))
      → (o : Reading × Result (Unit {0})) × (with_message w rx send_all loop r x ≡ some o)
  with_message_returns loop r (ok (dr, rest)) ih =
      continue_returns loop rest (on_frame w rx send_all r dr) (λ r'. ih dr rest r' refl)
  with_message_returns loop r (err e) ih = ((r, err e), refl)
  with_message_returns loop r panic ih = ((r, panic), refl)

  read_loop_returns :
      (fuel : ℕ) (stream : List ℕ) (r : Reading)
      → length stream < fuel
      → (o : Reading × Result (Unit {0})) × (read_loop w rx send_all checks fuel stream r ≡ some o)
  unfolding read_loop
  read_loop_returns zero stream r h = absurd (omega arith)
  read_loop_returns (suc fuel) stream r h = elim (Option-cases (w.read_int 4 stream)) [
    | inl e ↦ rw e ((r, ok tt), refl)
    | inr ((n, s), e) ↦ rw e (
        with_message_returns (read_loop w rx send_all checks fuel) r
          (read_message w rx send_all checks (n, s))
          (λ dr rest r' m.
            read_loop_returns fuel rest r'
              (omega (arith, w.read_int_takes 4 stream s n e, read_message_takes n s rest dr m))))
  ]

  after_verify_returns :
      (stream : List ℕ) (r : Reading) (sent_verify : Result (Unit {0}))
      → (o : Reading × Result (Unit {0})) × (after_verify w rx send_all checks stream r sent_verify
          ≡ some o)
  after_verify_returns stream r (ok u) =
      read_loop_returns (suc (length stream)) stream r (omega arith)
  after_verify_returns stream r (err e) = ((r, err e), refl)
  after_verify_returns stream r panic = ((r, panic), refl)

  -- The client's `read_buffer` ends on every stream that the server may send: its loop never runs
  -- out of fuel.
  pub read_buffer_returns :
      (stream : List ℕ) (c : Client)
      → (o : Reading × Result (Unit {0})) × (read_buffer w rx send_all checks stream c ≡ some o)
  unfolding read_buffer
  read_buffer_returns stream c = after_verify_returns stream (reading w rx send_all c) send_all

  -- One turn of the loop takes one frame.
  pub read_loop-frame :
      (fuel : ℕ) (body rest : List ℕ) (r : Reading)
      → length body + 4 < 2 ^ 32
      → read_loop w rx send_all checks (suc fuel) (frame w body ++ rest) r
        ≡ continue w rx send_all
            (read_loop w rx send_all checks fuel)
            rest
            (on_frame w rx send_all r (reader body))
  unfolding read_loop frame
  read_loop-frame fuel body rest r h =
      let n = (length body + 4) % 2 ^ 32 in
      let e : n ≡ length body + 4 = omega arith in
      rw (append_assoc (w.int 4 n) body rest, w.read_int-int 4 n (body ++ rest) (omega arith), e)
        (rw (sub_u32_four checks (length body), read_exact-append body rest) refl)
