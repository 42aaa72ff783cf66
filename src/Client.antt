-- ===== src/Client.antt =====
-- The client, netx_client/src/client/impl_client.rs with request_manager.rs: its state, its buffers
-- and the small operations. An operation takes the state and returns the new one.
pub mod Calls
pub mod Stream
pub mod Connect
pub mod Deadline
pub mod Request
pub mod Macros
pub mod Served
pub mod Jobs
pub mod Pending
mod Tests
use rust_netx.Prelude.{
  ℕ, ◌+◌, ◌%◌, ◌^◌, Bool, true, false, Option, none, some, List, [], ◌∷◌, ◌++◌, ◌==◌, if◌then◌else◌,
  length,
}
use rust_netx.Prelude.Dict.{Dict}
use rust_netx.Prelude.Deadlines.{Deadlines}
use rust_netx.Wire.{
  Wire, Reader, reader, Error, Result, ok, err, panic, anyhow, controller_none, cmd_tag_not_found,
  ◌>>◌,
}
use rust_netx.Wire.Frame.{frame}
use rust_netx.RetResult.{RetResult, error, write_result}
use rust_netx.Token.{Controller}

-- `ServerOption`, without the address.
pub record ServerOption : Type 0 where
  pub service_name : List ℕ
  pub verify_key : List ℕ
  pub request_out_time_ms : ℕ

-- `NetXClient` with the `DefaultSessionStore` of default_session_save.rs as its session and the
-- queue of its `RequestManager`. A peer and a watch channel are numbers.
pub record Client : Type 0 where
  pub server_info : ServerOption
  pub mode : ℕ
  pub session_id : ℕ
  pub net : Option ℕ
  pub connect_stats : Option ℕ
  pub result_dict : Dict ℕ
  pub serial_atomic : ℕ
  pub queue : Deadlines
  pub controller : Option Controller

abbrev pub new : ServerOption → ℕ → Client
new server_info session_id = record {
  server_info = server_info;
  mode = 0;
  session_id = session_id;
  net = none;
  connect_stats = none;
  result_dict = [];
  serial_atomic = 1;
  queue = [];
  controller = none;
}

-- `DefaultController`, which refuses every command.
abbrev pub default_controller : Controller
default_controller type_tag cmd dr = err (anyhow (cmd_tag_not_found cmd))

unfoldable pub init : Client → Controller → Client
init c controller = record c { controller = some controller }

unfoldable pub set_mode : Client → ℕ → Client
set_mode c mode = record c { mode = mode }

-- `store_session_id`, of the client and of `DefaultSessionStore`.
unfoldable pub store_session_id : Client → ℕ → Client
store_session_id c session_id = record c { session_id = session_id }

unfoldable pub set_network_client : Client → ℕ → Client
set_network_client c net = record c { net = some net }

unfoldable pub set_connect_stats : Client → Option ℕ → Client
set_connect_stats c stats = record c { connect_stats = stats }

unfoldable pub is_connect : Client → Bool
is_connect c = elim c.net [ some _ ↦ true | none ↦ false ]

-- `fetch_add(1)` on an i64.
unfoldable pub new_serial : Client → ℕ × Client
new_serial c = (c.serial_atomic, record c { serial_atomic = (c.serial_atomic + 1) % 2 ^ 64 })

unfoldable pub get_callback_len : Client → ℕ
get_callback_len c = length c.result_dict

unfoldable pub call_special_function : Client → ℕ → Result (Unit {0})
call_special_function c cmd_tag = elim c.controller [
  | some f ↦ f 1 cmd_tag (reader (0 ∷ 0 ∷ 0 ∷ 0 ∷ [])) >> ok tt
  | none ↦ ok tt
]

-- `NetXClient::execute_controller`
unfoldable pub run_controller : Client → ℕ → ℕ → Reader → Result RetResult
run_controller c type_tag cmd dr = elim c.controller [
  | some f ↦ f type_tag cmd dr
  | none ↦ err (anyhow controller_none)
]

-- The actor's `execute_controller`: an error becomes a result with the id 1 and a text.
abbrev pub error_result : (Error → List ℕ) → Result RetResult → Result RetResult
error_result text (ok res) = ok res
error_result text (err e) = ok (error 1 (text e))
error_result text panic = panic

unfoldable pub execute_controller : (Error → List ℕ) → Client → ℕ → ℕ → Reader → Result RetResult
unfolding run_controller
execute_controller text c type_tag cmd dr = error_result text (run_controller c type_tag cmd dr)

-- `clean_connect`: the state, and what `net.disconnect()` gives where there was a peer.
unfoldable pub clean_connect : Client → Result (Unit {0}) → Client × Result (Unit {0})
clean_connect c disconnected =
    (record c { net = none }, elim c.net [ some _ ↦ disconnected | none ↦ ok tt ])

-- `close`: the callback's error is only logged, and the controller goes.
abbrev pub after_closed :
    Client → Result (Unit {0}) → Result (Unit {0}) → Client × Result (Unit {0})
after_closed c disconnected panic = (c, panic)
after_closed c disconnected _ = clean_connect (record c { controller = none }) disconnected

unfoldable pub close : Client → Result (Unit {0}) → Client × Result (Unit {0})
unfolding clean_connect
close c disconnected = after_closed c disconnected (call_special_function c 2147483645)

module _ (w : Wire) where
  unfoldable pub get_verify_buff : List ℕ → List ℕ → ℕ → List ℕ
  get_verify_buff service_name verify_key session_id =
      w.int 4 1000
      ++ (w.write_bytes service_name ++ (w.write_bytes verify_key ++ w.int 8 session_id))

  -- The length goes in front of a buffer in every mode but 0.
  unfoldable pub framed : ℕ → List ℕ → List ℕ
  framed mode buff = if mode == 0 then buff else frame w buff

  unfoldable pub get_session_id_buff : ℕ → List ℕ
  unfolding framed
  get_session_id_buff mode = framed mode (w.int 4 2000)

  unfoldable pub get_result_buff : ℕ → RetResult → ℕ → List ℕ
  unfolding framed
  get_result_buff session_id result mode =
      framed mode (w.int 4 2500 ++ (w.int 8 session_id ++ write_result w result))
