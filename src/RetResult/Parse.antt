-- ===== src/RetResult/Parse.antt =====
-- `RetResult::from` on what `get_result_buff` writes, and on any other bytes.
use rust_netx.Prelude.{
  ℕ, zero, suc, ◌%◌, ◌^◌, ◌≤◌, ◌<◌, ◌≡◌, ◌≢◌, refl, Bool, true, false, some, List, [], ◌∷◌, ◌++◌,
  arith, length, map, All, codes, append_assoc, ltb, lt→ltb, le→ltb, Bool-cases, Option-cases, inl,
  inr, if◌then◌else◌, ◌↔◌,
}
use rust_netx.Wire.{Wire, Reader, reader, ok, panic, bind-ne-panic}
use rust_netx.RetResult.{
  RetResult, new, read_args, from_error, from_args, from, write_args, write_result,
}

-- What the wire can carry: a 32-bit id, a UTF-8 message, fewer than 2^31 arguments, each shorter
-- than 2^32 bytes.
pub record IsSendable (w : Wire) (r : RetResult) : Type 0 where
  pub id_fits : r.error_id < 2 ^ 32
  pub msg_utf8 : w.is_utf8 r.msg ≡ true
  pub msg_fits : length r.msg < 2 ^ 32
  pub count_fits : length r.arguments < 2 ^ 31
  pub args_fit : All (λ a. length a.inner < 2 ^ 32) r.arguments

-- What arrives: an error keeps its id and message and loses its arguments, a success has the whole
-- arguments, the id 0 and the message "success".
abbrev pub received : RetResult → RetResult
received r = record {
  is_error = r.is_error;
  error_id = if r.is_error then r.error_id else 0;
  msg = if r.is_error then r.msg else codes "success";
  arguments = if r.is_error then [] else map (λ a. reader a.inner) r.arguments;
}

module _ (w : Wire) where
  read_args-write_args :
      (as' : List Reader) (rest : List ℕ)
      → All (λ a. length a.inner < 2 ^ 32) as'
      → read_args w (length as') (write_args w as' ++ rest) ≡ ok (map (λ a. reader a.inner) as')
  unfolding read_args write_args
  read_args-write_args [] rest h = refl
  read_args-write_args (a ∷ as') rest h =
      rw
        (
          append_assoc (w.write_bytes a.inner) (write_args w as') rest,
          w.read_buf-write_bytes a.inner (write_args w as' ++ rest) h.0,
          read_args-write_args as' rest h.1,
        )
        refl

  from_error-write :
      (id : ℕ) (msg rest : List ℕ)
      → id < 2 ^ 32
      → w.is_utf8 msg ≡ true
      → length msg < 2 ^ 32
      → from_error w (w.int 4 id ++ (w.write_bytes msg ++ rest)) ≡ ok (new true id msg [])
  unfolding from_error
  from_error-write id msg rest i u m =
      rw (w.read_int-int 4 id (w.write_bytes msg ++ rest) i, w.read_str-write_bytes msg rest u m)
        refl

  from_args-write :
      (as' : List Reader) (rest : List ℕ)
      → length as' < 2 ^ 31
      → All (λ a. length a.inner < 2 ^ 32) as'
      → from_args w (w.int 4 (length as' % 2 ^ 32) ++ (write_args w as' ++ rest))
        ≡ ok (new false 0 (codes "success") (map (λ a. reader a.inner) as'))
  unfolding from_args
  from_args-write as' rest c h =
      let e : length as' % 2 ^ 32 ≡ length as' = omega arith in
      rw
        (
          e,
          w.read_int-int 4 (length as') (write_args w as' ++ rest) (omega arith),
          lt→ltb (length as') (2 ^ 31) c,
          read_args-write_args as' rest h,
        )
        refl

  from-write :
      (b : Bool) (id : ℕ) (msg : List ℕ) (as' : List Reader) (whole rest : List ℕ)
      → IsSendable w (new b id msg as')
      → from w (record { inner = whole; unread = write_result w (new b id msg as') ++ rest })
        ≡ ok (received (new b id msg as'))
  unfolding from write_result
  from-write true id msg as' whole rest h =
      let body = w.int 4 id ++ w.write_bytes msg in
      rw
        (
          append_assoc (w.write_bool true) body rest,
          w.read_bool-write_bool true (body ++ rest),
          append_assoc (w.int 4 id) (w.write_bytes msg) rest,
        )
        (from_error-write id msg rest h.id_fits h.msg_utf8 h.msg_fits)
  from-write false id msg as' whole rest h =
      let head = w.int 4 (length as' % 2 ^ 32) in
      let body = head ++ write_args w as' in
      rw
        (
          append_assoc (w.write_bool false) body rest,
          w.read_bool-write_bool false (body ++ rest),
          append_assoc head (write_args w as') rest,
        )
        (from_args-write as' rest h.count_fits h.args_fit)

  -- What `get_result_buff` writes for a sendable result, `RetResult::from` reads as `received`:
  -- an error with its id and message, a success with all its arguments in order. Bytes that
  -- follow do not matter.
  pub from-write_result :
      (r : RetResult) (whole rest : List ℕ)
      → IsSendable w r
      → from w (record { inner = whole; unread = write_result w r ++ rest }) ≡ ok (received r)
  from-write_result r whole rest h = from-write r.is_error r.error_id r.msg r.arguments whole rest h

  read_args-ne-panic : (n : ℕ) (s : List ℕ) → read_args w n s ≢ panic
  unfolding read_args
  read_args-ne-panic zero s h = cc
  read_args-ne-panic (suc n) s h = elim (Option-cases (w.read_buf s)) [
    | inl e ↦ cc (rw e at h)
    | inr ((b, s'), e) ↦
        bind-ne-panic (read_args w n s') _ (read_args-ne-panic n s') (λ a q. cc) (rw e at h)
  ]

  -- The bytes of a success with a negative count: the flag, and a number with the sign bit.
  abbrev pub HasNegativeCount : List ℕ → Type 0
  HasNegativeCount bytes =
      (s : List ℕ) × (n : ℕ) × (rest : List ℕ) × (w.read_bool bytes ≡ some (false, s))
      × (w.read_int 4 s ≡ some (n, rest))
      × (2 ^ 31 ≤ n)

  from_args_panics :
      (s : List ℕ)
      → from_args w s ≡ panic
      → (n : ℕ) × (rest : List ℕ) × (w.read_int 4 s ≡ some (n, rest)) × (2 ^ 31 ≤ n)
  unfolding from_args
  from_args_panics s h = elim (Option-cases (w.read_int 4 s)) [
    | inl e ↦ cc (rw e at h)
    | inr ((n, rest), e) ↦ elim (Bool-cases (ltb n (2 ^ 31))) [
      | inl small ↦ absurd (
          bind-ne-panic (read_args w n rest) _ (read_args-ne-panic n rest) (λ a q. cc)
            (rw (e, small) at h))
      | inr big ↦ (n, rest, e, ground arith)
    ]
  ]

  from_error-ne-panic : (s : List ℕ) → from_error w s ≢ panic
  unfolding from_error
  from_error-ne-panic s h = ground arith

  from_panics : (dr : Reader) → from w dr ≡ panic → HasNegativeCount dr.unread
  unfolding from
  from_panics dr h = elim (Option-cases (w.read_bool dr.unread)) [
    | inl e ↦ cc (rw e at h)
    | inr ((true, s), e) ↦ absurd (from_error-ne-panic s (rw e at h))
    | inr ((false, s), e) ↦
        let (n, rest, r, big) = from_args_panics s (rw e at h) in (s, n, rest, e, r, big)
  ]

  negative_panics : (dr : Reader) → HasNegativeCount dr.unread → from w dr ≡ panic
  unfolding from from_args
  negative_panics dr (s, n, rest, e, r, big) = rw (e, r, le→ltb n (2 ^ 31) big) refl

  -- `RetResult::from` panics on exactly the bytes of a success whose argument count is negative as
  -- an i32; on all other bytes it returns.
  pub from_panics_iff : (dr : Reader) → (from w dr ≡ panic) ↔ HasNegativeCount dr.unread
  from_panics_iff dr = (from_panics dr, negative_panics dr)
