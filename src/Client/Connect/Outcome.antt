-- ===== src/Client/Connect/Outcome.antt =====
-- The outcome of `connect_network` of netx_client/src/client/impl_client.rs, and a late end of an
-- old connection.
use rust_netx.Prelude.{
  ℕ, ◌≡◌, ◌⊎◌, inl, inr, refl, Bool, true, false, Option, none, some, List, Bool-cases,
}
use rust_netx.Wire.{anyhow, not_connect, Result, ok, err, panic}
use rust_netx.Prelude.Dict.{lookup, insert, contains_key}
use rust_netx.Client.Calls.{register}
use rust_netx.Client.{
  clean_connect, after_closed, call_special_function, Client, is_connect, close, set_network_client,
  set_connect_stats,
}
use rust_netx.Client.Connect.{
  connect_network, opened, in_time, told_result, wait_handler, input_end,
}

told_ok :
    (changed : Option (Bool × List ℕ))
    → told_result changed ≡ ok tt
    → (msg : List ℕ) × (changed ≡ some (true, msg))
told_ok (some (true, msg)) h = (msg, refl)
told_ok (some (false, msg)) h = cc
told_ok none h = cc

opened_ok :
    (c : Client) (watch : ℕ) (x : Result ℕ) (changed : Option (Bool × List ℕ))
    → (wait_handler changed (opened c watch x)).1 ≡ ok tt
    → let c' = (wait_handler changed (opened c watch x)).0 in
      (c'.connect_stats ≡ none)
      × (is_connect c' ≡ true)
      × ((msg : List ℕ) × (changed ≡ some (true, msg)))
unfolding is_connect set_network_client set_connect_stats
opened_ok c watch (ok net) changed h = (refl, refl, told_ok changed h)
opened_ok c watch (err e) changed h = cc
opened_ok c watch panic changed h = cc

already_ok :
    (c : Client) (stats : Option ℕ) (changed : Option (Bool × List ℕ))
    → is_connect c ≡ true
    → c.connect_stats ≡ stats
    → (wait_handler changed (c, ok stats)).1 ≡ ok tt
    → let c' = (wait_handler changed (c, ok stats)).0 in
      (c'.connect_stats ≡ none)
      × (is_connect c' ≡ true)
      × ((c.connect_stats ≡ none) ⊎ ((msg : List ℕ) × (changed ≡ some (true, msg))))
unfolding is_connect set_connect_stats
already_ok c none changed up e h = (e, up, inl e)
already_ok c (some watch) changed up e h = (refl, up, inr (told_ok changed h))

-- `connect_network` returns Ok in two cases only: the client already had a peer that nobody waits
-- for, or the connection's task has told that the connection is made. It then leaves no watch
-- channel behind, and the client has a peer.
pub connect_network-ok :
    (c : Client) (watch : ℕ) (connected : Option (Result ℕ)) (changed : Option (Bool × List ℕ))
    → (connect_network c watch connected changed).1 ≡ ok tt
    → let c' = (connect_network c watch connected changed).0 in
      (c'.connect_stats ≡ none)
      × (is_connect c' ≡ true)
      × (((is_connect c ≡ true) × (c.connect_stats ≡ none))
          ⊎ ((msg : List ℕ) × (changed ≡ some (true, msg))))
unfolding connect_network
connect_network-ok c watch connected changed h = elim (Bool-cases (is_connect c)) [
  | inl up ↦
      let (a, b, m) = already_ok c c.connect_stats changed up refl (rw up at h) in
      rw up (a, b, elim m [ inl e ↦ inl (refl, e) | inr told ↦ inr told ])
  | inr down ↦
      let (a, b, m) = opened_ok c watch (in_time connected) changed (rw down at h) in
      rw down (a, b, inr m)
]

close_lem :
    (c : Client) (closed : Result (Unit {0}))
    → call_special_function c 2147483645 ≡ ok tt
    → close c closed ≡ clean_connect (record c { controller = none }) closed
unfolding close
close_lem c closed h = rw (h, after_closed) refl

-- A client whose callback accepts the close closes and connects again, before the task of its old
-- connection has ended. A call with a serial that is not pending would then go to the new peer.
-- The end of the old connection takes that peer away: every such call fails as not connected.
pub stale_clean_connect :
    (c : Client) (net serial tx : ℕ) (closed ended : Result (Unit {0}))
    → call_special_function c 2147483645 ≡ ok tt
    → lookup serial c.result_dict ≡ none
    → let c' = set_network_client (close c closed).0 net in
      ((register c' serial tx)
        ≡ ok (record c' { result_dict = insert serial tx c'.result_dict }, net))
      × (register (input_end c' ended).0 serial tx ≡ err (anyhow not_connect))
unfolding input_end register set_network_client clean_connect contains_key
stale_clean_connect c net serial tx closed ended h free =
    rw (close_lem c closed h) (rw free (refl, refl))
