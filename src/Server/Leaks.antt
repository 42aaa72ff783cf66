-- ===== src/Server/Leaks.antt =====
-- Sessions that no check removes: the end of `input_event` of netx_server/src/server/impl_server.rs, and
-- `check_tokens_disconnect_timeout` of netx_server/src/server/async_token_manager.rs.
use rust_netx.Prelude.{
  ℕ, ◌≡◌, refl, ap, ◌∙◌, Bool, false, none, some, List, [], ◌∷◌, inl, inr, Bool-cases,
}
use rust_netx.Prelude.Dict.{lookup}
use rust_netx.Prelude.Deadlines.{Deadlines, queued, queued-behind, is_due}
use rust_netx.Wire.{Error, Result, ok, err, panic}
use rust_netx.Token.{set_peer, call_special_function}
use rust_netx.Manager.{
  World, Cleared, update, tag_value, disconnect, after_close, close_session, clear_loop,
  check_tokens_disconnect_timeout,
}
use rust_netx.Manager.Expiry.{close_session-dict}
use rust_netx.Server.{teardown}
use rust_netx.Server.Teardown.{update_same, special_of_peer}

-- The session stands in the table, and nothing is queued to remove it.
record Forgotten (w : World) (k a : ℕ) : Type 0 where
  there : lookup k w.dict ≡ some a
  unqueued : queued k w.clear_queue ≡ false

module _ (peer_down : ℕ → Result Bool) where
  after_close-Forgotten :
      (q : Deadlines) (k a : ℕ) (gone rest : Cleared)
      → lookup k (gone.0).dict ≡ some a
      → queued k q ≡ false
      → Forgotten (rest.0) k a
      → Forgotten (after_close q gone rest).0 k a
  after_close-Forgotten q k a (w, ns, ok u) rest e m h = h
  after_close-Forgotten q k a (w, ns, err x) rest e m h = h
  after_close-Forgotten q k a (w, ns, panic) rest e m h = record { there = e; unqueued = m }

  clear_loop-Forgotten :
      (now k a : ℕ) (q : Deadlines) (w : World)
      → lookup k w.dict ≡ some a
      → queued k q ≡ false
      → Forgotten (clear_loop peer_down now q w).0 k a
  unfolding clear_loop
  clear_loop-Forgotten now k a [] w e m = record { there = e; unqueued = refl }
  clear_loop-Forgotten now k a ((j, at) ∷ q) w e m =
      let gone = close_session peer_down w j in
      let (other, m') = queued-behind k j at q m in
      let e' : lookup k (gone.0).dict ≡ some a = close_session-dict peer_down w j k ∙ rw other e in
      elim (Bool-cases (is_due now w.session_save_time at)) [
        | inl d ↦ rw d (
            after_close-Forgotten q k a gone (clear_loop peer_down now q gone.0) e' m'
              (clear_loop-Forgotten now k a q gone.0 e' m'))
        | inr d ↦ rw d (record { there = e; unqueued = m })
      ]

  -- The checks of the server at these times, whatever else they find.
  unfoldable pub checks_at : List ℕ → World → World
  checks_at [] w = w
  checks_at (now ∷ nows) w = checks_at nows (check_tokens_disconnect_timeout peer_down now w).0

  checks_at-Forgotten :
      (nows : List ℕ) (k a : ℕ) (w : World) → Forgotten w k a → Forgotten (checks_at nows w) k a
  unfolding checks_at check_tokens_disconnect_timeout
  checks_at-Forgotten [] k a w h = h
  checks_at-Forgotten (now ∷ nows) k a w h =
      checks_at-Forgotten nows k a (check_tokens_disconnect_timeout peer_down now w).0
        (clear_loop-Forgotten now k a w.clear_queue w h.there h.unqueued)

-- A callback that fails at the disconnect leaves its session behind. When a connection ends whose
-- session is in the table and not already queued for removal, and the Disconnect callback gives an
-- error, the connection ends with that error, and the session is still in the table after any
-- number of checks at any times, if nothing but checks runs.
pub failed_disconnect_leaks :
    (peer_down : ℕ → Result Bool) (s : World) (a k now : ℕ) (e : Error) (nows : List ℕ)
    → lookup k s.dict ≡ some a
    → queued k s.clear_queue ≡ false
    → call_special_function (s.tokens a) (tag_value disconnect) ≡ err e
    → ((teardown s a now).1 ≡ err e)
      × (lookup k (checks_at peer_down nows (teardown s a now).0).dict ≡ some a)
unfolding teardown
failed_disconnect_leaks peer_down s a k now e nows there unqueued h =
    let t = set_peer (s.tokens a) none in
    let q : call_special_function (update s.tokens a t a) (tag_value disconnect) ≡ err e =
      ap (λ x. call_special_function x (tag_value disconnect)) (update_same s.tokens a t)
      ∙ special_of_peer (s.tokens a) none (tag_value disconnect)
      ∙ h in
    rw q (
      refl,
      (checks_at-Forgotten peer_down nows k a (record s { tokens = update s.tokens a t })
          (record { there = there; unqueued = unqueued })).there,
    )
