-- ===== src/Client/Macros.antt =====
-- The arms of `call!` in netx_client/src/client/impl_client.rs, each as a whole: a client that is not
-- connected connects first, the serial is taken, the arguments are packed, and the request is sent.
mod Tests
use rust_netx.Prelude.{
  ℕ, ◌+◌, ◌≡◌, ◌⊎◌, inl, inr, refl, Bool, true, false, Option, none, some, List, [], ◌∷◌, ◌++◌,
  arith, length, if◌then◌else◌, Bool-cases,
}
use rust_netx.Prelude.Dict.{lookup}
use rust_netx.Wire.{Wire, Reader, Error, Result, ok, err, panic, ◌>>=◌, ◌>>◌, >>=-eq-ok}
use rust_netx.RetResult.{RetResult}
use rust_netx.Client.{Client, is_connect, new_serial}
use rust_netx.Client.Calls.{call, run, start_call, await_result}
use rust_netx.Client.Connect.{connect_network}
use rust_netx.Client.Request.{request, call_data, value_of, checked, logged, logged_data}

-- What the surroundings give to one use of a macro: the channels that are made, the outcome of
-- connecting and what the watch channel tells, the clock, the outcome of the send, and what the
-- oneshot channel of the call gives.
pub record Given : Type 0 where
  pub watch : ℕ
  pub tx : ℕ
  pub connected : Option (Result ℕ)
  pub changed : Option (Bool × List ℕ)
  pub now : ℕ
  pub send_all : Result (Unit {0})
  pub answer : Option (Result Reader)

module _ (w : Wire) (g : Given) where
  -- `if $client.is_connect() == false { $client.connect_network().await }`
  unfoldable pub connect_first : Client → Client × Result (Unit {0})
  unfolding is_connect connect_network
  connect_first c =
      if is_connect c then (c, ok tt) else connect_network c g.watch g.connected g.changed

  -- From the packed data on.
  abbrev pub sent_data : Client → ℕ → Result (List ℕ) → Client × Result RetResult
  sent_data c serial (ok req) = call w c serial g.tx g.now req g.send_all g.answer
  sent_data c serial (err e) = (c, err e)
  sent_data c serial panic = (c, panic)

  unfoldable pub call_with :
      ℕ → ℕ → List (Result (List ℕ)) → Client × Result (Unit {0}) → Client × Result RetResult
  unfolding new_serial call_data call
  call_with type_tag cmd args (c, ok _) =
      let (serial, c') = new_serial c in sent_data c' serial (call_data w type_tag cmd serial args)
  call_with type_tag cmd args (c, err e) = (c, err e)
  call_with type_tag cmd args (c, panic) = (c, panic)

  -- `call!`, which asks for a value.
  unfoldable pub call_value {ℓ} :
      {V : Type ℓ} → (Reader → Result V) → Client → ℕ → List (Result (List ℕ)) → Client × Result V
  unfolding connect_first call_with value_of
  call_value pack_to c cmd args =
      let r = call_with 2 cmd args (connect_first c) in (r.0, value_of pack_to r.1)

  -- `call!(@result ..)`
  unfoldable pub call_result : Client → ℕ → List (Result (List ℕ)) → Client × Result RetResult
  unfolding connect_first call_with
  call_result c cmd args = call_with 2 cmd args (connect_first c)

  -- `call!(@checkrun ..)`
  unfoldable pub call_checkrun : Client → ℕ → List (Result (List ℕ)) → Client × Result (Unit {0})
  unfolding connect_first call_with checked
  call_checkrun c cmd args = let r = call_with 1 cmd args (connect_first c) in (r.0, checked r.1)

  -- The bytes that `run` gives to the peer, and the outcome of the send.
  abbrev run_data : Client → Result (List ℕ) → List (ℕ × List ℕ) × Result (Unit {0})
  run_data c req = elim (req >>= run w c) [
    | ok p ↦ (p ∷ [], g.send_all)
    | err e ↦ ([], err e)
    | panic ↦ ([], panic)
  ]

  unfoldable pub run_with :
      (ℕ → Result (List ℕ))
      → Client × Result (Unit {0})
      → Client × List (ℕ × List ℕ) × Result (Unit {0})
  unfolding new_serial run
  run_with req (c, ok _) =
      let (serial, c') = new_serial c in let r = run_data c' (req serial) in (c', r.0, r.1)
  run_with req (c, err e) = (c, [], err e)
  run_with req (c, panic) = (c, [], panic)

  -- `call!(@run ..)`
  unfoldable pub call_run :
      Client → ℕ → List (Result (List ℕ)) → Client × List (ℕ × List ℕ) × Result (Unit {0})
  unfolding connect_first run_with call_data
  call_run c cmd args = run_with (λ serial. call_data w 0 cmd serial args) (connect_first c)

  -- `call!(@run_not_err ..)`: no error stops it, and none comes out.
  unfoldable pub call_run_not_err :
      Client → ℕ → List (Result (List ℕ)) → Client × List (ℕ × List ℕ) × Result (Unit {0})
  unfolding connect_first run_with logged_data
  call_run_not_err c cmd args =
      let (c1, r) = connect_first c in
      let (c2, sent, out) = run_with (λ serial. logged_data w cmd serial args) (c1, logged r) in
      (c2, sent, logged out)
