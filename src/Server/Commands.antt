-- ===== src/Server/Commands.antt =====
-- `data_reading` of netx_server/src/server/impl_server.rs on any stream, and on a stream of frames.
use rust_netx.Prelude.{
  ℕ, zero, suc, ◌+◌, ◌<◌, ◌^◌, ◌≡◌, refl, Bool, Option, some, List, [], ◌∷◌, arith, length, All,
  Option-cases, inl, inr, ap,
}
use rust_netx.Wire.{
  Wire, Reader, reader, Result, ok, err, panic, io_error, or_io, >>=-eq-ok, or_io-eq-ok,
}
use rust_netx.Wire.Frame.{frames, read_buff, read_exact, sub_u32}
use rust_netx.Wire.Frame.Laws.{read_buff-frame, read_exact_takes}
use rust_netx.Server.{Reading, with_frame, continue, on_frame, read_loop, data_reading}

module _ (w : Wire) where
  read_buff_takes :
      (checks : Bool) (s rest : List ℕ) (dr : Reader)
      → read_buff w checks s ≡ ok (dr, rest)
      → length rest < length s
  unfolding read_buff
  read_buff_takes checks s rest dr h =
      let (p, e1, h1) = >>=-eq-ok (or_io (w.read_int 4 s)) _ h in
      let (len, e2, h2) = >>=-eq-ok (sub_u32 checks p.0 4) _ h1 in
      let (q, e3, h3) = >>=-eq-ok (read_exact len p.1) _ h2 in
      let same : q.1 ≡ rest = cc h3 in
      omega (
        arith,
        w.read_int_takes 4 s p.1 p.0 (or_io-eq-ok (w.read_int 4 s) e1),
        read_exact_takes len p.1 q.0 q.1 e3,
        ap length same,
      )

module _ (w : Wire) (rx : ℕ → Bool) (send_all : Result (Unit {0})) (checks : Bool) where
  abbrev Next : Type 0
  Next = List ℕ → Reading → Option (Reading × Result (Unit {0}))

  continue_returns :
      (next : Next) (rest : List ℕ) (x : Reading × Result (Unit {0}))
      → ((r : Reading) → (o : Reading × Result (Unit {0})) × (next rest r ≡ some o))
      → (o : Reading × Result (Unit {0})) × (continue w rx send_all next rest x ≡ some o)
  continue_returns next rest (r, ok u) h = h r
  continue_returns next rest (r, err e) h = ((r, err e), refl)
  continue_returns next rest (r, panic) h = ((r, panic), refl)

  with_frame_returns :
      (next : Next) (fuel : ℕ) (r : Reading) (x : Result (Reader × List ℕ))
      → ((dr : Reader) (rest : List ℕ) → x ≡ ok (dr, rest) → length rest < fuel)
      → ((rest : List ℕ) (r' : Reading)
          → length rest < fuel
          → (o : Reading × Result (Unit {0})) × (next rest r' ≡ some o))
      → (o : Reading × Result (Unit {0})) × (with_frame w rx send_all next r x ≡ some o)
  with_frame_returns next fuel r (ok (dr, rest)) short ih =
      continue_returns next rest (on_frame w rx send_all r dr)
        (λ r'. ih rest r' (short dr rest refl))
  with_frame_returns next fuel r (err e) short ih = ((r, ok tt), refl)
  with_frame_returns next fuel r panic short ih = ((r, panic), refl)

  read_loop_returns :
      (fuel : ℕ) (stream : List ℕ) (r : Reading)
      → length stream < fuel
      → (o : Reading × Result (Unit {0})) × (read_loop w rx send_all checks fuel stream r ≡ some o)
  unfolding read_loop
  read_loop_returns zero stream r h = absurd (omega arith)
  read_loop_returns (suc fuel) stream r h =
      with_frame_returns (read_loop w rx send_all checks fuel) fuel r (read_buff w checks stream)
        (λ dr rest e. omega (arith, read_buff_takes w checks stream rest dr e))
        (λ rest r' lt. read_loop_returns fuel rest r' lt)

  -- `data_reading` ends on every stream, well formed or not: its loop never runs out of fuel.
  pub data_reading_returns :
      (stream : List ℕ) (r : Reading)
      → (o : Reading × Result (Unit {0})) × (data_reading w rx send_all checks stream r ≡ some o)
  unfolding data_reading
  data_reading_returns stream r = read_loop_returns (suc (length stream)) stream r (omega arith)

  -- The bodies of frames served in order up to the first that fails.
  abbrev and_then :
      (Reading → Reading × Result (Unit {0}))
      → Reading × Result (Unit {0})
      → Reading × Result (Unit {0})
  and_then f (r, ok u) = f r
  and_then f (r, err e) = (r, err e)
  and_then f (r, panic) = (r, panic)

  unfoldable pub serve_all : List (List ℕ) → Reading → Reading × Result (Unit {0})
  serve_all [] r = (r, ok tt)
  serve_all (b ∷ bs) r = and_then (serve_all bs) (on_frame w rx send_all r (reader b))

  pub read_buff_end : read_buff w checks [] ≡ err io_error
  unfolding read_buff
  read_buff_end = elim (Option-cases (w.read_int 4 [])) [
    | inl e ↦ rw e refl
    | inr ((x, rest), e) ↦ absurd (omega (arith, w.read_int_takes 4 [] rest x e))
  ]

  continue-and_then :
      (fuel : ℕ) (bs : List (List ℕ)) (x : Reading × Result (Unit {0}))
      → ((r : Reading)
          → read_loop w rx send_all checks fuel (frames w bs) r ≡ some (serve_all bs r))
      → continue w rx send_all (read_loop w rx send_all checks fuel) (frames w bs) x
        ≡ some (and_then (serve_all bs) x)
  continue-and_then fuel bs (r, ok u) h = h r
  continue-and_then fuel bs (r, err e) h = refl
  continue-and_then fuel bs (r, panic) h = refl

  read_loop-frames :
      (fuel : ℕ) (bs : List (List ℕ)) (r : Reading)
      → length (frames w bs) < fuel
      → All (λ b. length b + 4 < 2 ^ 32) bs
      → read_loop w rx send_all checks fuel (frames w bs) r ≡ some (serve_all bs r)
  unfolding read_loop serve_all
  read_loop-frames zero bs r lt h = absurd (omega arith)
  read_loop-frames (suc fuel) [] r lt h = rw read_buff_end refl
  read_loop-frames (suc fuel) (b ∷ bs) r lt h =
      let e = read_buff-frame w checks b (frames w bs) h.0 in
      let lt' : length (frames w bs) < fuel =
        omega (arith, read_buff_takes w checks (frames w (b ∷ bs)) (frames w bs) (reader b) e) in
      rw e (
        continue-and_then fuel bs (on_frame w rx send_all r (reader b))
          (λ r'. read_loop-frames fuel bs r' lt' h.1))

  -- On a stream of frames `data_reading` serves their bodies one by one, in order, until one fails
  -- or the stream ends.
  pub data_reading-frames :
      (bs : List (List ℕ)) (r : Reading)
      → All (λ b. length b + 4 < 2 ^ 32) bs
      → data_reading w rx send_all checks (frames w bs) r ≡ some (serve_all bs r)
  unfolding data_reading
  data_reading-frames bs r h = read_loop-frames (suc (length (frames w bs))) bs r (omega arith) h
