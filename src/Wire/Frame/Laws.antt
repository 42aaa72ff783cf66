-- ===== src/Wire/Frame/Laws.antt =====
-- The writes of frames and texts against the reads of netx_server/src/owned_read_half_ex.rs.
use rust_netx.Prelude.{
  ℕ, ◌+◌, ◌%◌, ◌^◌, ◌<◌, ◌≡◌, refl, Bool, true, List, [], ◌++◌, none, Option-cases, arith, length,
  drop, length-append, ◌≤◌, length-drop-le, ap, leb, Bool-cases, inl, inr, take-length, drop-length,
  append_assoc, le→leb,
}
use rust_netx.Wire.Defs.{Wire, reader, ok}
use rust_netx.Wire.Frame.{read_exact, frame, patch_len, read_string, read_buff, sub_u32}
use mathlib.Core.Path.{ap₂}

pub read_exact-append : (s rest : List ℕ) → read_exact (length s) (s ++ rest) ≡ ok (s, rest)
unfolding read_exact
read_exact-append s rest =
    rw (le→leb (length s) (length (s ++ rest)) (omega (arith, length-append s rest)))
      (rw (take-length s rest, drop-length s rest) refl)

-- What a read leaves is shorter than the stream by four bytes at least.
pub read_exact_takes :
    (n : ℕ) (s b rest : List ℕ) → read_exact n s ≡ ok (b, rest) → length rest ≤ length s
unfolding read_exact
read_exact_takes n s b rest h = elim (Bool-cases (leb n (length s))) [
  | inl e ↦
      let q : drop n s ≡ rest = cc (rw e at h) in omega (arith, length-drop-le n s, ap length q)
  | inr e ↦ cc (rw e at h)
]

pub sub_u32_four : (checks : Bool) (n : ℕ) → sub_u32 checks (n + 4) 4 ≡ ok n
unfolding sub_u32
sub_u32_four checks n = ground arith

module _ (w : Wire) where
  drop_int : (x : ℕ) (body : List ℕ) → drop 4 (w.int 4 x ++ body) ≡ body
  drop_int x body = rw (w.length-int 4 x) at (drop-length (w.int 4 x) body)

  pub read_int_end : w.read_int 4 [] ≡ none
  read_int_end = elim (Option-cases (w.read_int 4 [])) [
    | inl e ↦ e
    | inr ((x, rest), e) ↦ absurd (omega (arith, w.read_int_takes 4 [] rest x e))
  ]

  -- The two ways to write a frame agree: the server, which writes a zero, then the body, and at last
  -- the whole length over the zero, makes the bytes that the client makes with the length in front.
  pub patch_len-frame : (body : List ℕ) → patch_len w (w.int 4 0 ++ body) ≡ frame w body
  unfolding patch_len frame
  patch_len-frame body =
      ap₂ (λ (n : ℕ) (t : List ℕ). w.int 4 (n % 2 ^ 32) ++ t)
        (omega (arith, length-append (w.int 4 0) body, w.length-int 4 0)) (drop_int 0 body)

  -- A frame whose whole length fits a u32 is read back as its body, and what follows it in the
  -- stream is left. Overflow checks make no difference.
  pub read_buff-frame :
      (checks : Bool) (body rest : List ℕ)
      → length body + 4 < 2 ^ 32
      → read_buff w checks (frame w body ++ rest) ≡ ok (reader body, rest)
  unfolding read_buff frame
  read_buff-frame checks body rest h =
      let n = (length body + 4) % 2 ^ 32 in
      let e : n ≡ length body + 4 = omega arith in
      rw (append_assoc (w.int 4 n) body rest, w.read_int-int 4 n (body ++ rest) (omega arith), e)
        (rw (sub_u32_four checks (length body), read_exact-append body rest) refl)

  -- `read_string` reads a UTF-8 text of fewer than 2^32 bytes as it was written, and leaves what
  -- follows it.
  pub read_string-write_bytes :
      (s rest : List ℕ)
      → w.is_utf8 s ≡ true
      → length s < 2 ^ 32
      → read_string w (w.write_bytes s ++ rest) ≡ ok (s, rest)
  unfolding read_string
  read_string-write_bytes s rest u h =
      rw
        (
          w.write_bytes_layout s h,
          append_assoc (w.int 4 (length s)) s rest,
          w.read_int-int 4 (length s) (s ++ rest) h,
        )
        (rw (read_exact-append s rest, w.from_utf8_lossy_lem s u) refl)
