-- ===== src/Client/Calls/Starts.antt =====
-- `call` of netx_client/src/client/impl_client.rs up to its wait: when it starts, and what it leaves.
use rust_netx.Prelude.{ℕ, ◌≡◌, ◌⊎◌, refl, none, some, List, inl, inr, Bool-cases, Option-cases}
use rust_netx.Prelude.Dict.{lookup, insert, contains_key, contains_key_cases}
use rust_netx.Prelude.Deadlines.{push_front}
use rust_netx.Wire.{Wire, Error, ok, err, anyhow, not_connect, >>=-eq-ok}
use rust_netx.Client.{Client, framed}
use rust_netx.Client.Calls.{register, set_request, start_call}

-- The client while it waits for the call `serial`.
abbrev pub waiting_for : Client → ℕ → ℕ → ℕ → Client
waiting_for c serial tx now = record c {
  result_dict = insert serial tx c.result_dict;
  queue = push_front serial now c.queue;
}

pub register-free :
    (c : Client) (net serial tx : ℕ)
    → c.net ≡ some net
    → lookup serial c.result_dict ≡ none
    → register c serial tx ≡ ok (record c { result_dict = insert serial tx c.result_dict }, net)
unfolding register contains_key
register-free c net serial tx up free = cc

pub register-eq-ok :
    (c c' : Client) (serial tx net : ℕ)
    → register c serial tx ≡ ok (c', net)
    → (c.net ≡ some net)
      × (lookup serial c.result_dict ≡ none)
      × (c' ≡ record c { result_dict = insert serial tx c.result_dict })
unfolding register
register-eq-ok c c' serial tx net h = elim (Option-cases c.net) [
  | inl n ↦ absurd (cc (h, n))
  | inr (p, n) ↦ elim (Bool-cases (contains_key serial c.result_dict)) [
    | inl taken ↦ absurd (cc (h, n, taken))
    | inr free ↦ (cc (h, n, free), contains_key_cases serial c.result_dict free, cc (h, n, free))
  ]
]

pub start_call-eq-ok :
    (w : Wire) (c c' : Client) (serial tx now net : ℕ) (req sent : List ℕ)
    → start_call w c serial tx now req ≡ ok (c', net, sent)
    → (c.net ≡ some net)
      × (lookup serial c.result_dict ≡ none)
      × (c' ≡ waiting_for c serial tx now)
      × (sent ≡ framed w c.mode req)
unfolding start_call set_request
start_call-eq-ok w c c' serial tx now net req sent h =
    let ((c1, net1), e, k) = >>=-eq-ok (register c serial tx) _ h in
    let (up, free, same) = register-eq-ok c c1 serial tx net1 e in
    let one = waiting_for c serial tx now in
    let k' : ok (one, net1, framed w c.mode req) ≡ ok (c', net, sent) = rw same at k in
    (cc (up, k'), free, cc k', cc k')

-- A connected client with a free serial starts the call, and one that is not connected gives an error.
pub start_call-cases :
    (w : Wire) (c : Client) (serial tx now : ℕ) (buff : List ℕ)
    → lookup serial c.result_dict ≡ none
    → ((net : ℕ) × (sent : List ℕ) × (c.net ≡ some net)
        × (start_call w c serial tx now buff ≡ ok (waiting_for c serial tx now, net, sent)))
      ⊎ ((e : Error) × (c.net ≡ none) × (start_call w c serial tx now buff ≡ err e))
unfolding start_call register set_request contains_key
start_call-cases w c serial tx now buff free = elim (Option-cases c.net) [
  | inl n ↦ inr (anyhow not_connect, n, rw n refl)
  | inr (net, n) ↦
      inl (net, framed w c.mode buff, n, rw (register-free c net serial tx n free) refl)
]
