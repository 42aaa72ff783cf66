-- ===== src/Server/Failures.antt =====
-- Bad frames and cancelled calls at `data_reading` of netx_server/src/server/impl_server.rs.
use rust_netx.Prelude.{
  ℕ, ◌+◌, ◌-◌, ◌<◌, ◌^◌, ◌≡◌, refl, Bool, true, false, some, if◌then◌else◌, List, [], ◌++◌, arith,
  length, lt→leb, length-append,
}
use rust_netx.Prelude.Dict.{lookup, remove}
use rust_netx.Wire.{Wire, reader, Result, ok, err, panic, serial_close}
use rust_netx.Wire.Frame.{frame, read_buff, read_exact, sub_u32}
use rust_netx.Wire.Frame.Laws.{read_buff-frame}
use rust_netx.Token.{set_result}
use rust_netx.Server.{Reading, on_frame, read_loop, data_reading}

sub_u32_short :
    (checks : Bool) (n : ℕ)
    → n < 4
    → sub_u32 checks n 4 ≡ (if checks then panic else ok (n + 2 ^ 32 - 4))
unfolding sub_u32
sub_u32_short checks n h = ground arith

module _ (w : Wire) (rx : ℕ → Bool) (send_all : Result (Unit {0})) where
  -- A frame whose length is below 4 panics the task in a build with overflow checks. Without them
  -- the length wraps to almost 2^32, and where fewer bytes follow, the connection ends as at the
  -- end of the stream.
  pub short_frame :
      (n : ℕ) (rest : List ℕ) (r : Reading)
      → n < 4
      → length rest < 2 ^ 32 - 4
      → (data_reading w rx send_all true (w.int 4 n ++ rest) r ≡ some (r, panic))
        × (data_reading w rx send_all false (w.int 4 n ++ rest) r ≡ some (r, ok tt))
  unfolding data_reading read_loop read_buff read_exact
  short_frame n rest r h few =
      let e = w.read_int-int 4 n rest (omega arith) in
      (
        rw (e, sub_u32_short true n h) refl,
        rw (e, sub_u32_short false n h)
            (rw (lt→leb (n + 2 ^ 32 - 4) (length rest) (omega arith)) refl),
      )

  abbrev pub result_msg : ℕ → List ℕ → List ℕ
  result_msg serial payload = w.int 4 2500 ++ (w.int 8 serial ++ payload)

  fits_frame :
      (serial : ℕ) (payload : List ℕ)
      → length payload + 16 < 2 ^ 32
      → length (result_msg serial payload) + 4 < 2 ^ 32
  fits_frame serial payload h = omega (
    arith,
    length-append (w.int 4 2500) (w.int 8 serial ++ payload),
    length-append (w.int 8 serial) payload,
    w.length-int 4 2500,
    w.length-int 8 serial,
  )

  on_result :
      (serial : ℕ) (payload : List ℕ) (r : Reading)
      → serial < 2 ^ 64
      → let a =
          set_result rx w r.token serial
            (record { inner = result_msg serial payload; unread = payload }) in
        on_frame w rx send_all r (reader (result_msg serial payload))
        ≡ (record r { token = a.0; events = r.events ++ a.1 }, a.2)
  unfolding on_frame
  on_result serial payload r h =
      rw
        (
          w.read_int-int 4 2500 (w.int 8 serial ++ payload) (omega arith),
          w.read_int-int 8 serial payload h,
        )
        refl

  -- An answer to a call that the server has given up (its receiver is dropped while the call is
  -- pending) ends the connection with `SerialClose`: what follows in the stream is not read.
  pub cancelled_call_ends_connection :
      (checks : Bool) (serial tx : ℕ) (payload rest : List ℕ) (r : Reading)
      → serial < 2 ^ 64
      → length payload + 16 < 2 ^ 32
      → lookup serial r.token.result_dict ≡ some tx
      → rx tx ≡ false
      → (r' : Reading) × (data_reading w rx send_all checks
            (frame w (result_msg serial payload) ++ rest)
            r
          ≡ some (r', err (serial_close serial)))
  unfolding data_reading read_loop set_result
  cancelled_call_ends_connection checks serial tx payload rest r h fits pending gone = (
    record r {
      token = record (r.token) { result_dict = remove serial r.token.result_dict };
      events = r.events ++ [];
    },
    rw
        (
          read_buff-frame w checks (result_msg serial payload) rest
              (fits_frame serial payload fits),
          on_result serial payload r h,
        )
        (rw (pending, gone) refl),
  )
