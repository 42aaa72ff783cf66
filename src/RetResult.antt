-- ===== src/RetResult.antt =====
-- The answer to a call: netx_server/src/server/result.rs, which netx_client/src/client/result.rs
-- repeats, and the bytes that the two `get_result_buff` functions write for it.
pub mod Parse
pub mod Access
mod Tests
use rust_netx.Prelude.{
  ℕ, zero, suc, ◌%◌, ◌^◌, Bool, true, false, Option, none, some, List, [], ◌∷◌, ◌++◌, length, codes,
  leb, ltb, get_elem?, if◌then◌else◌,
}
use rust_netx.Wire.{
  Wire, Reader, reader, Result, ok, err, panic, io_error, call_error, or_io, ◌>>=◌,
}

pub record RetResult : Type 0 where
  pub is_error : Bool
  pub error_id : ℕ
  pub msg : List ℕ
  pub arguments : List Reader

-- `RetResult::new`
abbrev pub new : Bool → ℕ → List ℕ → List Reader → RetResult
new is_error error_id msg args = record {
  is_error = is_error;
  error_id = error_id;
  msg = msg;
  arguments = args;
}

abbrev pub success : RetResult
success = record { is_error = false; error_id = 0; msg = codes "Success"; arguments = [] }

abbrev pub error : ℕ → List ℕ → RetResult
error error_id msg = record { is_error = true; error_id = error_id; msg = msg; arguments = [] }

-- The argument is what `Data::pack_from` makes of the value; a failure is only logged.
abbrev pub add_arg_buff : RetResult → Option (List ℕ) → RetResult
add_arg_buff r (some packed) = record r { arguments = r.arguments ++ (reader packed ∷ []) }
add_arg_buff r none = r

unfoldable pub len : RetResult → ℕ
len r = length r.arguments

unfoldable pub is_empty : RetResult → Bool
is_empty r = elim r.arguments [ [] ↦ true | _ ∷ _ ↦ false ]

unfoldable pub check : RetResult → Result RetResult
check r = if r.is_error then err (call_error r.error_id r.msg) else ok r

-- `self.arguments[index]`, the two `Index` implementations.
unfoldable pub index : RetResult → ℕ → Result Reader
index r i = elim (get_elem? r.arguments i) [ some a ↦ ok a | none ↦ panic ]

unfoldable pub get : RetResult → ℕ → Result Reader
unfolding len index
get r i = if leb (len r) i then err io_error else index r i

-- `pack_to` is the deserializer of the type that is asked for.
unfoldable pub deserialize {ℓ} : {V : Type ℓ} → (Reader → Result V) → RetResult → Result V
unfolding is_empty index
deserialize pack_to r = if is_empty r then err io_error else (index r 0 >>= pack_to)

module _ (w : Wire) where
  -- `for _ in 0..len { buffs.push(..read_fixed_buf()?..) }`
  unfoldable pub read_args : ℕ → List ℕ → Result (List Reader)
  read_args zero s = ok []
  read_args (suc n) s = do
    (b, s') ← or_io (w.read_buf s)
    rest ← read_args n s'
    ok (reader b ∷ rest)

  -- `RetResult::from`. The count is an i32: `Vec::with_capacity(len as usize)` panics below 0.
  unfoldable pub from_error : List ℕ → Result RetResult
  from_error s = do
    (id, s') ← or_io (w.read_int 4 s)
    (msg, _) ← or_io (w.read_str s')
    ok (new true id msg [])

  unfoldable pub from_args : List ℕ → Result RetResult
  unfolding read_args
  from_args s = do
    (n, s') ← or_io (w.read_int 4 s)
    if ltb n (2 ^ 31)
        then (read_args n s' >>= λ args. ok (new false 0 (codes "success") args))
        else panic

  unfoldable pub from : Reader → Result RetResult
  unfolding from_error from_args
  from dr = do (e, s) ← or_io (w.read_bool dr.unread); if e then from_error s else from_args s

  -- What `get_result_buff` writes behind the serial.
  unfoldable pub write_args : List Reader → List ℕ
  write_args [] = []
  write_args (a ∷ as') = w.write_bytes a.inner ++ write_args as'

  unfoldable pub write_result : RetResult → List ℕ
  unfolding write_args
  write_result r =
      if r.is_error
      then w.write_bool true ++ (w.int 4 r.error_id ++ w.write_bytes r.msg)
      else w.write_bool false ++ (w.int 4 (length r.arguments % 2 ^ 32) ++ write_args r.arguments)
