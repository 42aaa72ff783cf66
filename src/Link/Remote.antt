-- ===== src/Link/Remote.antt =====
-- A whole remote call: a generated method of the client (netx_builder/src/lib.rs), the call macros,
-- the two reading loops, the generated controller of the server, and the answer back.
pub mod Calls
pub mod PeerCalls
mod Tests
mod PeerTests
use rust_netx.Prelude.{
  ◌-◌, ℕ, suc, ◌+◌, ◌<◌, ◌^◌, ◌%◌, ◌≡◌, refl, ap, ◌∙◌, Bool, true, false, Option, none, some, List,
  [], ◌∷◌, ◌++◌, arith, length, map, append-nil, length-append, ◌==◌, if◌then◌else◌,
}
use rust_netx.Prelude.Dict.{lookup, remove}
use rust_netx.Wire.{Wire, Reader, reader, Error, Result, ok, err, call_error, ◌>>=◌}
use rust_netx.Wire.Frame.{frame}
use rust_netx.RetResult.{
  RetResult, success, error, add_arg_buff, write_result, write_args, check, deserialize, is_empty,
  index,
}
use rust_netx.RetResult.Parse.{IsSendable, received}
use rust_netx.Answers.{deliver}
use rust_netx.Token.{Token, execute_controller, run_controller, error_result, send}
use rust_netx.Server
use rust_netx.Server.Jobs.{run_job}
use rust_netx.Client.{Client}
use rust_netx.Client.Calls.{start_call, await_result}
use rust_netx.Client.Request.{pack_all, value_of, checked}
use rust_netx.Client.Stream
use rust_netx.Builder.{FuncInfo}
use rust_netx.Builder.Generated.{Pack, arm_result, find_func, call_generated}
use rust_netx.Builder.Generated.Remote.{HaveTypes, call_generated-request}
use rust_netx.Link.Call.{Fits, args_bytes}
use rust_netx.Link.Call.ToServer.{server_job, calling, answered, client_call}

-- `pack_deserialize` of the type that the caller asks for.
abbrev pub unpacked : {V : Type 0} → Pack V → List ℕ → Reader → Result V
unpacked p typ dr = p.unpack typ dr.unread >>= λ q. ok q.0

module _ (w : Wire) where
  -- What a method that returned a packed value answers, and what one that failed answers.
  abbrev pub returned : List ℕ → RetResult
  returned bs = add_arg_buff success (some bs)

  abbrev pub failed : List ℕ → RetResult
  failed text = error (2 ^ 32 - 1) text

  returned-IsSendable : (bs : List ℕ) → length bs < 2 ^ 32 → IsSendable w (returned bs)
  returned-IsSendable bs h = record {
    id_fits = omega arith;
    msg_utf8 = w.is_utf8_ascii _ refl;
    msg_fits = omega arith;
    count_fits = omega arith;
    args_fit = (h, tt);
  }

  error-IsSendable :
      (id : ℕ) (text : List ℕ)
      → id < 2 ^ 32
      → w.is_utf8 text ≡ true
      → length text < 2 ^ 32
      → IsSendable w (error id text)
  error-IsSendable id text l u h = record {
    id_fits = l;
    msg_utf8 = u;
    msg_fits = h;
    count_fits = omega arith;
    args_fit = tt;
  }

  written : (bs : List ℕ) → length bs < 2 ^ 32 → length (w.write_bytes bs) ≡ length bs + 4
  written bs h = omega (
    arith,
    ap length (w.write_bytes_layout bs h),
    length-append (w.int 4 (length bs)) bs,
    w.length-int 4 (length bs),
  )

  returned_short :
      (bs : List ℕ) → length bs + 25 < 2 ^ 32 → length (write_result w (returned bs)) + 16 < 2 ^ 32
  unfolding write_result
  returned_short bs h =
      let one = w.int 4 1 in
      let body = w.write_bytes bs ++ [] in
      omega (
        arith,
        length-append (w.write_bool false) (one ++ body),
        length-append one body,
        ap length (append-nil (w.write_bytes bs)),
        written bs (omega arith),
        w.length-write_bool false,
        w.length-int 4 1,
      )

  error_short :
      (id : ℕ) (text : List ℕ)
      → length text + 25 < 2 ^ 32
      → length (write_result w (error id text)) + 16 < 2 ^ 32
  unfolding write_result
  error_short id text h = omega (
    arith,
    length-append (w.write_bool true) (w.int 4 id ++ w.write_bytes text),
    length-append (w.int 4 id) (w.write_bytes text),
    written text (omega arith),
    w.length-write_bool true,
    w.length-int 4 id,
  )

  value_of-error :
      {V : Type 0} (pack_to : Reader → Result V) (id : ℕ) (text : List ℕ)
      → value_of pack_to (ok (received (error id text))) ≡ err (call_error id text)
  unfolding value_of check
  value_of-error pack_to id text = refl

  checked-failed :
      (text : List ℕ) → checked (ok (received (failed text))) ≡ err (call_error (2 ^ 32 - 1) text)
  unfolding checked check
  checked-failed text = refl

  checked-success : checked (ok (received success)) ≡ ok tt
  unfolding checked check
  checked-success = refl

  success-IsSendable : IsSendable w success
  success-IsSendable = record {
    id_fits = omega arith;
    msg_utf8 = w.is_utf8_ascii _ refl;
    msg_fits = omega arith;
    count_fits = omega arith;
    args_fit = tt;
  }

  success_short : length (write_result w success) + 16 < 2 ^ 32
  unfolding write_result
  success_short = omega (
    arith,
    length-append (w.write_bool false) (w.int 4 0 ++ []),
    length-append (w.int 4 0) [],
    w.length-write_bool false,
    w.length-int 4 0,
  )

  value_of-returned :
      {V : Type 0} (p : Pack V) (v : V) (typ bs : List ℕ)
      → p.HasType v typ
      → p.pack v ≡ ok bs
      → value_of (unpacked p typ) (ok (received (returned bs))) ≡ ok v
  unfolding value_of check deserialize is_empty index
  value_of-returned p v typ bs h e =
      let q = rw (append-nil bs) at (p.unpack-pack v typ bs [] h e) in rw q refl

  module _ {V : Type 0} (p : Pack V) (text : ℕ → ℕ → Error → List ℕ)
      (run : FuncInfo → List V → Result V) (fs : List FuncInfo) (f : FuncInfo) (vs : List V)
      (packed : List ℕ) (t : Token) (serial peer : ℕ) where
    -- The client and the server are those of one program: the token's controller is the generated
    -- one, and it has a peer; the values have the types of the parameters and are packed.
    pub record Serves : Type 0 where
      pub controller : t.controller ≡ some (call_generated w p run fs)
      pub connected : t.peer ≡ some peer
      pub found : find_func w p f.tag fs ≡ some f
      pub answers : 0 < f.tt
      pub typed : HaveTypes w p vs f.args_type
      pub is_packed : pack_all (map p.pack vs) ≡ ok packed
      pub few : length vs < 2 ^ 32
      pub fits : Fits f.tt f.tag serial packed
