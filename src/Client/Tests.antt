-- ===== src/Client/Tests.antt =====
-- A client in concrete states.
use rust_netx.Prelude.{false, ℕ, ◌≡◌, refl, Bool, true, none, some, Option, List, [], ◌∷◌, codes}
use rust_netx.Prelude.Dict.{lookup, insert}
use rust_netx.Wire.{anyhow, not_connect, Result, ok, err}
use rust_netx.Wire.LittleEndian.{plain}
use rust_netx.Client.{
  default_controller, init, call_special_function, Client, new, close, is_connect,
  set_network_client, set_connect_stats,
}
use rust_netx.Client.Calls.{register}
use rust_netx.Client.Connect.{connect_network, input_end, connect_task}
use rust_netx.Client.Connect.Outcome.{stale_clean_connect}
use rust_netx.Client.Served.{read_buffer_returns}
use rust_netx.Client.Stream.{Reading, read_buffer}

abbrev all_wait : ℕ → Bool
all_wait tx = true

abbrev told_ok : Option (Bool × List ℕ)
told_ok = some (true, [])

abbrev idle : Client
idle = new (record { service_name = codes "svc"; verify_key = []; request_out_time_ms = 5000 }) 0

-- A client that waits for the serials 7 and 8.
abbrev busy : Client
busy = record idle {
  net = some 2;
  result_dict = (8, 1) ∷ (7, 0) ∷ [];
  queue = (7, 1000) ∷ (8, 4000) ∷ [];
}

read_buffer_returns_example :
    (o : Reading × Result (Unit {0})) × (read_buffer plain all_wait (ok tt) true (1 ∷ []) idle
      ≡ some o)
read_buffer_returns_example = read_buffer_returns plain all_wait (ok tt) true (1 ∷ []) idle

idle-connects : (connect_network idle 4 (some (ok 2)) told_ok).1 ≡ ok tt
unfolding connect_network is_connect set_network_client set_connect_stats
idle-connects = refl

busy_closes : call_special_function busy 2147483645 ≡ ok tt
unfolding call_special_function
busy_closes = refl

nine_free : lookup 9 busy.result_dict ≡ none
unfolding lookup
nine_free = refl

stale_clean_connect_example :
    let c' = set_network_client (close busy (ok tt)).0 6 in
    ((register c' 9 1) ≡ ok (record c' { result_dict = insert 9 1 c'.result_dict }, 6))
    × (register (input_end c' (ok tt)).0 9 1 ≡ err (anyhow not_connect))
stale_clean_connect_example = stale_clean_connect busy 6 9 1 (ok tt) (ok tt) busy_closes nine_free

-- With the default controller, the task of a new connection ends it.
default_controller-connect_task :
    connect_task (λ e. codes "no") (init idle default_controller) ≡ ok (true, (false, codes "no"))
unfolding connect_task init call_special_function
default_controller-connect_task = refl
