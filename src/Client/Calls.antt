-- ===== src/Client/Calls.antt =====
-- Calls of netx_client/src/client/impl_client.rs and the deadlines of request_manager.rs.
pub mod Starts
use rust_netx.Prelude.{ℕ, Bool, Option, none, some, List, [], ◌∷◌, ◌++◌, if◌then◌else◌}
use rust_netx.Prelude.Dict.{lookup, insert, remove, contains_key}
use rust_netx.Prelude.Deadlines.{Deadlines, is_due, push_front}
use rust_netx.Wire.{
  Wire, Reader, Error, Result, ok, err, panic, anyhow, serial_is_have, not_connect, serial_close,
  serial_time_out, ◌>>=◌, ◌>>◌,
}
use rust_netx.RetResult.{RetResult, from}
use rust_netx.Answers.{Event, sent}
use rust_netx.Token.{log_unclaimed}
use rust_netx.Client.{Client, framed}

module _ (rx_open : ℕ → Bool) where
  -- A failed `tx.send` is only logged.
  abbrev pub answer :
      Client
      → ℕ
      → Result Reader
      → Result (Unit {0})
      → Option ℕ
      → Client × List Event × Result (Unit {0})
  answer c serial v missing (some tx) =
      (record c { result_dict = remove serial c.result_dict }, sent rx_open tx v, ok tt)
  answer c serial v missing none = (c, [], missing)

  -- A result that nobody waits for is parsed for the log.
  unfoldable pub set_result : Wire → Client → ℕ → Reader → Client × List Event × Result (Unit {0})
  set_result w c serial dr =
      answer c serial (ok dr) (log_unclaimed (from w dr)) (lookup serial c.result_dict)

  unfoldable pub set_error : Client → ℕ → Error → Client × List Event × Result (Unit {0})
  set_error c serial e = answer c serial (err e) (ok tt) (lookup serial c.result_dict)

  -- `RequestManager::check`, while the client is alive.
  unfoldable pub check_loop : ℕ → Deadlines → Client → Client × List Event
  check_loop now [] c = (record c { queue = [] }, [])
  check_loop now ((serial, at) ∷ q) c =
      let failed = set_error c serial (serial_time_out serial) in
      let rest = check_loop now q failed.0 in
      if is_due now (c.server_info).request_out_time_ms at
      then (rest.0, failed.1 ++ rest.1)
      else (record c { queue = (serial, at) ∷ q }, [])

  unfoldable pub check : ℕ → Client → Client × List Event
  unfolding check_loop
  check now c = check_loop now c.queue c

-- `RequestManager::set`
unfoldable pub set_request : Client → ℕ → ℕ → Client
set_request c serial now = record c { queue = push_front serial now c.queue }

-- The part of `call` inside the actor: the peer, and the state with the channel `tx`.
unfoldable pub register : Client → ℕ → ℕ → Result (Client × ℕ)
unfolding contains_key insert
register c serial tx = elim c.net [
  | some net ↦
      if contains_key serial c.result_dict
      then err (anyhow serial_is_have)
      else ok (record c { result_dict = insert serial tx c.result_dict }, net)
  | none ↦ err (anyhow not_connect)
]

-- `rx.await`
unfoldable pub await_result : Wire → ℕ → Option (Result Reader) → Result RetResult
await_result w serial none = err (serial_close serial)
await_result w serial (some v) = v >>= from w

-- What a call does behind its registration and before it waits: the deadline, and the bytes for the
-- peer.
abbrev send_call : Wire → ℕ → ℕ → List ℕ → Client × ℕ → Client × ℕ × List ℕ
send_call w serial now buff (c, net) =
    let c' = set_request c serial now in (c', net, framed w (c'.mode) buff)

-- The three awaits of `call` before its wait, where no other task comes between: the dictionary in the
-- client's actor, the deadline in that of the request manager, and the send.
unfoldable pub start_call : Wire → Client → ℕ → ℕ → ℕ → List ℕ → Result (Client × ℕ × List ℕ)
unfolding register set_request framed
start_call w c serial tx now buff = register c serial tx >>= λ r. ok (send_call w serial now buff r)

-- The whole `call`, with the outcome of `net.send_all` and what the channel gives.
unfoldable pub call :
    Wire
    → Client
    → ℕ
    → ℕ
    → ℕ
    → List ℕ
    → Result (Unit {0})
    → Option (Result Reader)
    → Client × Result RetResult
unfolding start_call await_result
call w c serial tx now buff send_all given = elim (start_call w c serial tx now buff) [
  | ok (c', _, _) ↦ (c', send_all >> await_result w serial given)
  | err e ↦ (c, err e)
  | panic ↦ (c, panic)
]

-- `run`: the bytes for the peer.
unfoldable pub run : Wire → Client → List ℕ → Result (ℕ × List ℕ)
unfolding framed
run w c buff = elim c.net [
  | some net ↦ ok (net, framed w c.mode buff)
  | none ↦ err (anyhow not_connect)
]
