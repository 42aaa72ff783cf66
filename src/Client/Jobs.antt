-- ===== src/Client/Jobs.antt =====
-- The tasks that `read_buffer` of netx_client/src/client/impl_client.rs starts for the calls of the
-- server.
use rust_netx.Prelude.{ℕ, ◌==◌, List, [], ◌∷◌, if◌then◌else◌}
use rust_netx.Wire.{Wire, Error, Result, ok, ◌>>=◌}
use rust_netx.Client.{Client, execute_controller, get_result_buff}
use rust_netx.Client.Stream.{Job}

-- What the task sends to the peer of its connection.
unfoldable pub run_job : Wire → (Error → List ℕ) → Client → Job → Result (List (List ℕ))
unfolding execute_controller
run_job w text c job = execute_controller text c job.type_tag job.cmd job.args >>= λ res.
    ok (if job.type_tag == 0 then [] else get_result_buff w job.session_id res c.mode ∷ [])
