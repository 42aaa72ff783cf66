-- ===== src/Link/Call.antt =====
-- A call from one end to the other and its answer back: the bytes of the `call!` and `call_peer!`
-- macros at the other end's loop, and those of `get_result_buff` at the caller's.
pub mod ToServer
pub mod ToClient
use rust_netx.Prelude.{ℕ, ◌+◌, ◌%◌, ◌<◌, ◌^◌, ◌≡◌, List, ◌++◌, arith, length, length-append}
use rust_netx.Wire.{Wire}
use rust_netx.Client.Request.{request}

-- The numbers of a request fit their fields, and the request fits a frame.
pub record Fits (type_tag cmd serial : ℕ) (packed : List ℕ) : Type 0 where
  pub type_known : type_tag < 3
  pub cmd_fits : cmd < 2 ^ 32
  pub serial_fits : serial < 2 ^ 64
  pub packed_fits : length packed + 25 < 2 ^ 32

module _ (w : Wire) where
  -- What the other end has left to read when it has the type, the command and the serial.
  abbrev pub args_bytes : ℕ → List ℕ → List ℕ
  args_bytes args_count packed = w.int 4 (args_count % 2 ^ 32) ++ packed

  -- The bytes of an answer behind its command.
  abbrev pub answer_body : ℕ → List ℕ → List ℕ
  answer_body serial payload = w.int 4 2500 ++ (w.int 8 serial ++ payload)

  pub request_short :
      (type_tag cmd serial args_count : ℕ) (packed : List ℕ)
      → Fits type_tag cmd serial packed
      → length (request w type_tag cmd serial args_count packed) + 4 < 2 ^ 32
  unfolding request
  request_short type_tag cmd serial args_count packed h =
      let args = args_bytes args_count packed in
      omega (
        arith,
        h.packed_fits,
        length-append (w.int 4 2400)
            (w.int 1 type_tag ++ (w.int 4 cmd ++ (w.int 8 serial ++ args))),
        length-append (w.int 1 type_tag) (w.int 4 cmd ++ (w.int 8 serial ++ args)),
        length-append (w.int 4 cmd) (w.int 8 serial ++ args),
        length-append (w.int 8 serial) args,
        length-append (w.int 4 (args_count % 2 ^ 32)) packed,
        w.length-int 4 2400,
        w.length-int 1 type_tag,
        w.length-int 4 cmd,
        w.length-int 8 serial,
        w.length-int 4 (args_count % 2 ^ 32),
      )

  pub answer_short :
      (serial : ℕ) (payload : List ℕ)
      → length payload + 16 < 2 ^ 32
      → length (answer_body serial payload) + 4 < 2 ^ 32
  answer_short serial payload h = omega (
    arith,
    length-append (w.int 4 2500) (w.int 8 serial ++ payload),
    length-append (w.int 8 serial) payload,
    w.length-int 4 2500,
    w.length-int 8 serial,
  )
