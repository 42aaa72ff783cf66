-- ===== src/Client/Connect.antt =====
-- `connect_network` and `input_buffer` of netx_client/src/client/impl_client.rs.
pub mod Outcome
use rust_netx.Prelude.{ℕ, Bool, true, false, Option, none, some, List, codes, if◌then◌else◌}
use rust_netx.Wire.{
  Error, Result, ok, err, panic, anyhow, connect_timeout, watch_recv_error, connect_error, ◌>>=◌,
  ◌>>◌,
}
use rust_netx.Client.{
  Client, is_connect, set_network_client, set_connect_stats, clean_connect, call_special_function,
}

-- `tokio::time::timeout(..).await.map_err(..)??`: `none` is the elapsed time.
abbrev in_time : Option (Result ℕ) → Result ℕ
in_time (some r) = r
in_time none = err (anyhow connect_timeout)

abbrev opened : Client → ℕ → Result ℕ → Client × Result (Option ℕ)
opened c watch (ok net) =
    (set_connect_stats (set_network_client c net) (some watch), ok (some watch))
opened c watch (err e) = (c, err e)
opened c watch panic = (c, panic)

-- The part inside the actor: the watch channel to wait for. `watch` is the one that a new
-- connection makes, and `connected` the outcome of opening the stream.
unfoldable pub open_network : Client → ℕ → Option (Result ℕ) → Client × Result (Option ℕ)
unfolding is_connect set_network_client set_connect_stats
open_network c watch connected =
    if is_connect c then (c, ok c.connect_stats) else opened c watch (in_time connected)

-- `changed().await` with the value then: `none` is a sender that was dropped.
abbrev told_result : Option (Bool × List ℕ) → Result (Unit {0})
told_result (some (true, msg)) = ok tt
told_result (some (false, msg)) = err (connect_error msg)
told_result none = err watch_recv_error

abbrev wait_handler :
    Option (Bool × List ℕ) → Client × Result (Option ℕ) → Client × Result (Unit {0})
wait_handler changed (c, ok (some watch)) = (set_connect_stats c none, told_result changed)
wait_handler changed (c, ok none) = (c, ok tt)
wait_handler changed (c, err e) = (c, err e)
wait_handler changed (c, panic) = (c, panic)

unfoldable pub connect_network :
    Client → ℕ → Option (Result ℕ) → Option (Bool × List ℕ) → Client × Result (Unit {0})
unfolding open_network
connect_network c watch connected changed = wait_handler changed (open_network c watch connected)

-- The task that the greeting starts: what it tells, and whether it disconnects.
unfoldable pub connect_task : (Error → List ℕ) → Client → Result (Bool × (Bool × List ℕ))
unfolding call_special_function
connect_task text c = elim (call_special_function c 2147483647) [
  | ok _ ↦ ok (false, (true, codes "success"))
  | err e ↦ ok (true, (false, text e))
  | panic ↦ panic
]

-- `input_buffer` after `read_buffer`, whose error is only logged.
unfoldable pub input_end : Client → Result (Unit {0}) → Client × Result (Unit {0})
unfolding clean_connect
input_end c disconnected =
    let r = clean_connect c disconnected in (r.0, r.1 >> call_special_function r.0 2147483646)
