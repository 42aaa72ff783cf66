-- ===== src/Builder/Generated.antt =====
-- What the macros of netx_builder/src/lib.rs generate: the `call` of a controller, which reads the
-- arguments and runs a method, and the methods of a caller, which use `call!` and `call_peer!`.
pub mod Remote
pub mod OneByte
pub mod Expansion
use rust_netx.Prelude.{
  ℕ, ◌==◌, ◌≡◌, ◌++◌, Bool, Option, none, some, ltb, List, [], ◌∷◌, if◌then◌else◌, length,
}
use rust_netx.Wire.{
  Wire, Reader, Result, Error, ok, err, panic, anyhow, cmd_tag_not_found, tt_mismatch,
  args_len_error, or_io, ◌>>=◌, ◌>>◌,
}
use rust_netx.RetResult.{RetResult, success, add_arg_buff}
use rust_netx.Token.{Controller}
use rust_netx.Builder.{FuncInfo, connect_tag, disconnect_tag, closed_tag}

-- `pack_serialize` and `pack_deserialize` of data_rw, for the values of a program: `V` is any of
-- them. A value that has a type comes back from its bytes, and the bytes behind them are left.
pub record Pack (V : Type 0) : Type 1 where
  pub HasType : V → List ℕ → Type 0
  pub pack : V → Result (List ℕ)
  pub unpack : List ℕ → List ℕ → Result (V × List ℕ)
  pub unpack-pack :
      (v : V) (typ bs rest : List ℕ)
      → HasType v typ
      → pack v ≡ ok bs
      → unpack typ (bs ++ rest) ≡ ok (v, rest)

module _ {V : Type 0} (w : Wire) (p : Pack V) where
  -- `let arg0=data.pack_deserialize::<T>()?;` for each parameter, in order.
  unfoldable pub unpack_args : List (List ℕ) → List ℕ → Result (List V × List ℕ)
  unpack_args [] s = ok ([], s)
  unpack_args (typ ∷ types) s = do
    (v, s') ← p.unpack typ s
    (vs, rest) ← unpack_args types s'
    ok (v ∷ vs, rest)

  -- `pack_from`, whose failure `add_arg_buff` only logs.
  abbrev packed_or_none : Result (List ℕ) → Result RetResult
  packed_or_none (ok bs) = ok (add_arg_buff success (some bs))
  packed_or_none (err e) = ok (add_arg_buff success none)
  packed_or_none panic = panic

  -- What an arm makes of the method's outcome. A method that returns nothing has no error.
  abbrev pub arm_result : ℕ → Result V → Result RetResult
  arm_result tt panic = panic
  arm_result tt (ok v) =
      if tt == 0 then ok success else if tt == 1 then ok success else packed_or_none (p.pack v)
  arm_result tt (err e) = if tt == 0 then ok success else err e

  -- The arm of a method: its type, the number of arguments, the arguments, the method.
  unfoldable pub arm : (FuncInfo → List V → Result V) → FuncInfo → ℕ → Reader → Result RetResult
  unfolding unpack_args
  arm run f type_tag dr =
      if ltb 2 f.tt
      then panic
      else if type_tag == f.tt
      then (do
        (args_len, s) ← or_io (w.read_int 4 dr.unread)
        if args_len == length f.args_type
            then (unpack_args f.args_type s >>= λ q. arm_result f.tt (run f q.0))
            else err (anyhow args_len_error))
      else err (anyhow (tt_mismatch f.tag type_tag))

  abbrev default_arm : ℕ → Result RetResult
  default_arm cmd =
      if cmd == connect_tag
      then ok success
      else if cmd == disconnect_tag
      then ok success
      else if cmd == closed_tag
      then ok success
      else err (anyhow (cmd_tag_not_found cmd))

  -- `match cmd_tag`: the first arm with the tag.
  unfoldable pub find_func : ℕ → List FuncInfo → Option FuncInfo
  find_func cmd [] = none
  find_func cmd (f ∷ fs) = if f.tag == cmd then some f else find_func cmd fs

  abbrev pub run_found :
      (FuncInfo → List V → Result V) → Option FuncInfo → ℕ → ℕ → Reader → Result RetResult
  run_found run (some f) type_tag cmd dr = arm run f type_tag dr
  run_found run none type_tag cmd dr = default_arm cmd

  -- `IController::call` of the generated controller.
  unfoldable pub call_generated : (FuncInfo → List V → Result V) → List FuncInfo → Controller
  unfolding find_func
  call_generated run fs type_tag cmd dr = run_found run (find_func cmd fs) type_tag cmd dr

-- The arm of `call!` or of `call_peer!` that a generated method of a caller uses.
pub data Stub : Type 0 where
  call_run_not_err call_checkrun call_value : Stub
  peer_run_not_err peer_checkrun peer_value : Stub

unfoldable pub stub_client : FuncInfo → Result Stub
stub_client f =
    if f.tt == 0
    then ok call_run_not_err
    else if f.tt == 1
    then ok call_checkrun
    else if f.tt == 2
    then ok call_value
    else panic

unfoldable pub stub_server : FuncInfo → Result Stub
stub_server f =
    if f.tt == 0
    then ok peer_run_not_err
    else if f.tt == 1
    then ok peer_checkrun
    else if f.tt == 2
    then ok peer_value
    else panic

unfoldable pub get_impl_func_client : List FuncInfo → Result (List Stub)
unfolding stub_client
get_impl_func_client [] = ok []
get_impl_func_client (f ∷ fs) = do s ← stub_client f; rest ← get_impl_func_client fs; ok (s ∷ rest)

unfoldable pub get_impl_func_server : List FuncInfo → Result (List Stub)
unfolding stub_server
get_impl_func_server [] = ok []
get_impl_func_server (f ∷ fs) = do s ← stub_server f; rest ← get_impl_func_server fs; ok (s ∷ rest)
