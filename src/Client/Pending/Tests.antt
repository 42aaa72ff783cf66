-- ===== src/Client/Pending/Tests.antt =====
-- A history of a client at concrete times.
use rust_netx.Prelude.{refl, ℕ, ◌+◌, ◌≤◌, ◌≡◌, Bool, true, none, some, List, [], ◌∷◌, arith, codes}
use rust_netx.Prelude.Dict.{lookup, insert}
use rust_netx.Wire.{Result, Reader, ok}
use rust_netx.Wire.LittleEndian.{plain}
use rust_netx.Answers.{deliver, Sent}
use rust_netx.Client.{ServerOption, Client, new}
use rust_netx.Client.Calls.{check, register}
use rust_netx.Client.Calls.Starts.{register-free}
use rust_netx.Client.Pending.{Op, calls, peers, waits, run}
use rust_netx.Client.Pending.Serials.{start, calls_keep_their_time}
use rust_netx.Client.Pending.Stuck.{checks_at, dropped_call_stays}

abbrev options : ServerOption
options = record { service_name = codes "svc"; verify_key = []; request_out_time_ms = 5000 }

abbrev all_wait : ℕ → Bool
all_wait tx = true

-- Two calls, three seconds apart, and then three seconds more.
abbrev history : List ((ℕ → Bool) × Op)
history =
    (all_wait, peers (some 2))
    ∷ (all_wait, calls (λ serial. []))
    ∷ (all_wait, waits 3000)
    ∷ (all_wait, calls (λ serial. []))
    ∷ (all_wait, waits 3000)
    ∷ []

calls_keep_their_time_example :
    let s = run plain (start options 0 1000) history in
    (lookup s.client.serial_atomic s.client.result_dict ≡ none)
    × ((tx : ℕ) (v : Result Reader)
        → Sent (deliver tx v) (check all_wait s.clock s.client).1
        → (at : ℕ) × (lookup tx s.made ≡ some at)
          × (at + (s.client.server_info).request_out_time_ms ≤ s.clock))
calls_keep_their_time_example =
    calls_keep_their_time plain all_wait options 0 1000 history (omega arith)

-- A connected client registers the call 7, and its caller is dropped.
abbrev alone : Client
alone = record (new options 0) { net = some 2 }

abbrev with_seven : Client
with_seven = record alone { result_dict = insert 7 4 alone.result_dict }

seven_registers : register alone 7 4 ≡ ok (with_seven, 2)
unfolding lookup
seven_registers = register-free alone 2 7 4 refl refl

dropped_call_stays_example :
    lookup 7 (checks_at all_wait (9000 ∷ 20000 ∷ []) with_seven).result_dict ≡ some 4
dropped_call_stays_example =
    dropped_call_stays all_wait alone with_seven 7 4 2 (9000 ∷ 20000 ∷ []) refl seven_registers
