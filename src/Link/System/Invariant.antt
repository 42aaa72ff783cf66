-- ===== src/Link/System/Invariant.antt =====
-- What holds of the system of netx_client/src/client/impl_client.rs and
-- netx_server/src/server/impl_server.rs at any time: what is on its way belongs to a call.
use rust_netx.Prelude.{
  ℕ, ◌+◌, ◌<◌, ◌≤◌, ◌^◌, ◌≡◌, ◌⊎◌, Bool, false, none, some, List, length, map, All, count, ltb,
  ◌==◌, if◌then◌else◌,
}
use rust_netx.Prelude.Dict.{Dict, lookup}
use rust_netx.Wire.{Wire, Reader, Result, ok, err, serial_time_out}
use rust_netx.RetResult.{RetResult, write_result}
use rust_netx.RetResult.Parse.{IsSendable, received}
use rust_netx.Answers.{deliver, Sent}
use rust_netx.Answers.Once.{IsOnce, channels}
use rust_netx.Server
use rust_netx.Wire.Frame.{frames}
use rust_netx.Client.Calls.{await_result}
use rust_netx.Client.Pending.Served.{IsServed}
use rust_netx.Link.Call.{Fits, answer_body}
use rust_netx.Link.Call.ToServer.{server_job}
use rust_netx.Link.System.{Asked, System, request_of}

abbrev pub job_of : Wire → ℕ × Asked → Server.Job
job_of w (serial, q) = server_job w q.type_tag q.cmd serial q.args_count q.packed

abbrev pub answer_of : Wire → ℕ × RetResult → List ℕ
answer_of w (serial, res) = answer_body w serial (write_result w res)

abbrev pub serials {ℓ} : {A : Type ℓ} → List (ℕ × A) → List ℕ
serials = map (λ p. p.0)

-- The calls that have no deadline: their callers are not that far, or left before.
abbrev pub without_deadline : System → ℕ → Bool
without_deadline s k = ltb 0 (count k (serials s.registered) + count k s.stuck)

-- A call that was made, with a request that the wire can carry.
pub record IsCall (asked : Dict Asked) (p : ℕ × Asked) : Type 0 where
  pub made : lookup p.0 asked ≡ some p.1
  pub answers : 0 < p.1.type_tag
  pub fits : Fits p.1.type_tag p.1.cmd p.0 p.1.packed

module _ (w : Wire) (Executes : Server.Job → RetResult → Type 0) where
  -- A result of the task of a call.
  pub record IsResult (p : ℕ × Asked) (res : RetResult) : Type 0 where
    pub executed : Executes (job_of w p) res
    pub sendable : IsSendable w res
    pub short : length (write_result w res) + 16 < 2 ^ 32

  pub record IsAnswer (asked : Dict Asked) (a : ℕ × RetResult) : Type 0 where
    pub question : Asked
    pub call : IsCall asked (a.0, question)
    pub result : IsResult (a.0, question) a.1

  -- What a caller was told: its own call has timed out, or the result of its own task.
  pub record IsTold (asked : Dict Asked) (tx : ℕ) (v : Result Reader) : Type 0 where
    pub serial : ℕ
    pub question : Asked
    pub call : IsCall asked (serial, question)
    pub channel : question.tx ≡ tx
    pub value :
        (v ≡ err (serial_time_out serial))
        ⊎ ((res : RetResult) × IsResult (serial, question) res
            × (await_result w serial (some v) ≡ ok (received res)))

  pub record Good (s : System) : Type 0 where
    pub requests : List (ℕ × Asked)
    pub running : List (ℕ × Asked)
    pub answers : List (ℕ × RetResult)
    pub framing : (s.client.client.mode == 0) ≡ false
    -- Of the calls that were made.
    pub below :
        (k : ℕ) (q : Asked)
        → lookup k s.asked ≡ some q
        → (k < s.client.client.serial_atomic) × (q.tx < s.next_tx)
    pub apart :
        (j k : ℕ) (p q : Asked)
        → lookup j s.asked ≡ some p
        → lookup k s.asked ≡ some q
        → p.tx ≡ q.tx
        → j ≡ k
    pub pending :
        (k tx : ℕ)
        → lookup k s.client.client.result_dict ≡ some tx
        → (q : Asked) × IsCall s.asked (k, q) × (q.tx ≡ tx)
    -- Of what is on its way.
    pub free : (k : ℕ) → 0 < count k s.drawn → lookup k s.asked ≡ none
    pub are_registered : All (IsCall s.asked) s.registered
    pub are_entered : All (IsCall s.asked) s.entered
    pub sent_requests : s.to_server ≡ frames w (map (request_of w) requests)
    pub are_requests : All (IsCall s.asked) requests
    pub jobs : s.server.jobs ≡ map (job_of w) running
    pub are_jobs : All (IsCall s.asked) running
    pub sent_answers : s.to_client ≡ frames w (map (answer_of w) answers)
    pub are_answers : All (IsAnswer s.asked) answers
    pub told :
        (tx : ℕ) (v : Result Reader) → Sent (deliver tx v) s.client.events → IsTold s.asked tx v
    -- A serial is drawn, of a caller that has not sent, on its way to the server, running, or has run,
    -- once in all.
    pub runs_once :
        (k : ℕ)
        → count k s.drawn
            + count k (serials s.registered)
            + count k (serials s.entered)
            + count k (serials requests)
            + count k (serials running)
            + count k s.ran
          ≤ (if ltb k s.client.client.serial_atomic then 1 else 0)
    -- While nothing was lost, a call that waits is one that is not sent yet, on its way to the server,
    -- running, or on its way back.
    pub waited :
        s.losses ≡ 0
        → (k tx : ℕ) → lookup k s.client.client.result_dict ≡ some tx
        → 0
          < count k (serials s.registered)
            + count k (serials s.entered)
            + count k (serials requests)
            + count k (serials running)
            + count k (serials answers)
    pub answered_once : IsOnce s.next_tx s.client.client.result_dict (channels s.client.events)
    pub served : IsServed (without_deadline s) s.clock s.client.client
