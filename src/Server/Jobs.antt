-- ===== src/Server/Jobs.antt =====
-- The tasks that `data_reading` of netx_server/src/server/impl_server.rs starts for the calls of the
-- client.
use rust_netx.Prelude.{ℕ, ◌==◌, List, [], ◌∷◌, if◌then◌else◌}
use rust_netx.Wire.{Wire, Error, Result, ok, err, panic, ◌>>=◌}
use rust_netx.Token.{Token, execute_controller, send}
use rust_netx.Server.{Job, get_result_buff}

-- A send that fails is only logged.
abbrev sent_to : Result ℕ → List ℕ → List (ℕ × List ℕ)
sent_to (ok peer) buff = (peer, buff) ∷ []
sent_to (err e) buff = []
sent_to panic buff = []

-- What the task sends, and to which peer: the type 0 sends nothing, and the types 1 and 2 the
-- result to the peer that the token has at the end. `text` is the text of an error.
unfoldable pub run_job : Wire → (ℕ → ℕ → Error → List ℕ) → Token → Job → Result (List (ℕ × List ℕ))
unfolding execute_controller
run_job w text t job = execute_controller text t job.type_tag job.cmd job.args >>= λ res.
    ok (if job.type_tag == 0 then [] else sent_to (send t) (get_result_buff w job.serial res))
