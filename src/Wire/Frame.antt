-- ===== src/Wire/Frame.antt =====
-- Frames: four bytes of length, which count themselves, and a body. The two ways to write one
-- (the `mode` branches of netx_client/src/client/impl_client.rs, and the patch of `data[0..4]` in
-- netx_server/src/server/impl_server.rs) and the reads of netx_server/src/owned_read_half_ex.rs.
pub mod Laws
use rust_netx.Prelude.{
  ℕ, ◌+◌, ◌-◌, ◌%◌, ◌^◌, Bool, Option, none, some, List, [], ◌∷◌, ◌++◌, length, take, drop, leb,
  ltb, ◌==◌, if◌then◌else◌,
}
use rust_netx.Wire.Defs.{Wire, Reader, reader, Result, ok, err, panic, io_error, or_io, ◌>>=◌}

-- `a - b` on u32: with overflow checks (a debug build) it panics below 0, without them it wraps.
unfoldable pub sub_u32 : Bool → ℕ → ℕ → Result ℕ
sub_u32 checks a b =
    if leb b a then ok (a - b) else if checks then panic else ok ((a + 2 ^ 32 - b) % 2 ^ 32)

-- `read_exact` into a buffer of `n` bytes: the buffer, and the rest of the stream.
unfoldable pub read_exact : ℕ → List ℕ → Result (List ℕ × List ℕ)
read_exact n stream =
    if leb n (length stream) then ok (take n stream, drop n stream) else err io_error

module _ (w : Wire) where
  -- The body behind its length, as the client writes it in a mode other than 0.
  unfoldable pub frame : List ℕ → List ℕ
  frame body = w.int 4 ((length body + 4) % 2 ^ 32) ++ body

  -- The stream of the frames of some bodies.
  abbrev pub frames : List (List ℕ) → List ℕ
  frames [] = []
  frames (b ∷ bs) = frame b ++ frames bs

  -- `(&mut data[0..4]).put_u32_le(data.len() as u32)`
  unfoldable pub patch_len : List ℕ → List ℕ
  patch_len data' = w.int 4 (length data' % 2 ^ 32) ++ drop 4 data'

  unfoldable pub read_string : List ℕ → Result (List ℕ × List ℕ)
  read_string stream = do
    (len, rest) ← or_io (w.read_int 4 stream)
    (buff, rest') ← read_exact len rest
    ok (w.from_utf8_lossy buff, rest')

  unfoldable pub read_buff : Bool → List ℕ → Result (Reader × List ℕ)
  read_buff checks stream = do
    (n, rest) ← or_io (w.read_int 4 stream)
    len ← sub_u32 checks n 4
    (buff, rest') ← read_exact len rest
    ok (reader buff, rest')
