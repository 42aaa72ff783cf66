-- ===== src/Token/Macros.antt =====
-- The arms of `call_peer!` in netx_server/src/server/async_token.rs, each as a whole: the serial is
-- taken, the arguments are packed, and the request is sent to the token's peer.
use rust_netx.Prelude.{ℕ, Option, List, [], ◌∷◌}
use rust_netx.Wire.{Wire, Reader, Result, ok, err, panic}
use rust_netx.RetResult.{RetResult}
use rust_netx.Token.{Token, new_serial, call, send}
use rust_netx.Client.Request.{call_peer_data, logged_peer_data, logged, value_of, checked}

-- What the surroundings give to one use of a macro: the channel that is made, the clock, the outcome
-- of the send, and what the channel of the call gives.
pub record Given : Type 0 where
  pub tx : ℕ
  pub now : ℕ
  pub send_all : Result (Unit {0})
  pub answer : Option (Result Reader)

module _ (w : Wire) (g : Given) where
  abbrev sent_data : Token → ℕ → Result (List ℕ) → Token × Result RetResult
  sent_data t serial (ok req) = call w t serial g.tx g.now g.send_all g.answer
  sent_data t serial (err e) = (t, err e)
  sent_data t serial panic = (t, panic)

  -- From the serial to the result, for the types 1 and 2.
  unfoldable pub peer_with : ℕ → Token → ℕ → List (Result (List ℕ)) → Token × Result RetResult
  unfolding new_serial call_peer_data call
  peer_with type_tag t cmd args =
      let (serial, t') = new_serial t in
      sent_data t' serial (call_peer_data w type_tag cmd serial args)

  -- `call_peer!`, which asks for a value.
  unfoldable pub peer_value {ℓ} :
      {V : Type ℓ} → (Reader → Result V) → Token → ℕ → List (Result (List ℕ)) → Token × Result V
  unfolding peer_with value_of
  peer_value pack_to t cmd args = let r = peer_with 2 t cmd args in (r.0, value_of pack_to r.1)

  -- `call_peer!(@result ..)`
  unfoldable pub peer_result : Token → ℕ → List (Result (List ℕ)) → Token × Result RetResult
  unfolding peer_with
  peer_result t cmd args = peer_with 2 t cmd args

  -- `call_peer!(@checkrun ..)`
  unfoldable pub peer_checkrun : Token → ℕ → List (Result (List ℕ)) → Token × Result (Unit {0})
  unfolding peer_with checked
  peer_checkrun t cmd args = let r = peer_with 1 t cmd args in (r.0, checked r.1)

  -- The peer that `run` sends to with the bytes, and the outcome of the send.
  abbrev to_peer : List ℕ → Result ℕ → List (ℕ × List ℕ) × Result (Unit {0})
  to_peer req (ok peer) = ((peer, req) ∷ [], g.send_all)
  to_peer req (err e) = ([], err e)
  to_peer req panic = ([], panic)

  abbrev run_data : Token → Result (List ℕ) → List (ℕ × List ℕ) × Result (Unit {0})
  run_data t (ok req) = to_peer req (send t)
  run_data t (err e) = ([], err e)
  run_data t panic = ([], panic)

  -- `call_peer!(@run ..)`
  unfoldable pub peer_run :
      Token → ℕ → List (Result (List ℕ)) → Token × List (ℕ × List ℕ) × Result (Unit {0})
  unfolding new_serial call_peer_data send
  peer_run t cmd args =
      let (serial, t') = new_serial t in
      let r = run_data t' (call_peer_data w 0 cmd serial args) in (t', r.0, r.1)

  -- `call_peer!(@run_not_err ..)`: no error comes out.
  unfoldable pub peer_run_not_err :
      Token → ℕ → List (Result (List ℕ)) → Token × List (ℕ × List ℕ) × Result (Unit {0})
  unfolding new_serial logged_peer_data send
  peer_run_not_err t cmd args =
      let (serial, t') = new_serial t in
      let r = run_data t' (logged_peer_data w cmd serial args) in (t', r.0, logged r.1)
