-- ===== src/Server/Teardown.antt =====
-- The end of a connection in netx_server/src/server/impl_server.rs, and what becomes of its session.
use rust_netx.Prelude.{
  ◌==◌, Bool-cases, inl, inr, mem_key, ℕ, ◌+◌, ◌^◌, ◌<◌, ◌≤◌, ◌≡◌, refl, ap, ◌∙◌, Bool, true, false,
  Option, none, some, [], ◌∷◌, arith, ==-refl,
}
use rust_netx.Prelude.Dict.{lookup}
use rust_netx.Prelude.Deadlines.{
  Deadlines, InOrder, InOrder-push_front, InOrder-later, InOrder-le, due, push_front, is_due,
  waited_is_due,
}
use rust_netx.Wire.{Result, ok, err, panic, token_disconnect}
use rust_netx.Token.{Token, send, set_peer, call_special_function, is_disconnect}
use rust_netx.Manager.{
  World, update, set_token, peer_disconnect, tag_value, disconnect, closed,
  check_tokens_disconnect_timeout,
}
use rust_netx.Manager.Expiry.{IsCalm, is_down, check_tokens_disconnect_timeout_exact}
use rust_netx.Server.{attach, teardown, after_disconnect}

pub update_same : (tokens : ℕ → Token) (a : ℕ) (t : Token) → update tokens a t a ≡ t
unfolding update
update_same tokens a t = rw (==-refl a) refl

-- The callback of a token does not depend on its peer.
pub special_of_peer :
    (t : Token) (p : Option ℕ) (tag : ℕ)
    → call_special_function (set_peer t p) tag ≡ call_special_function t tag
unfolding call_special_function set_peer
special_of_peer t p tag = refl

after_disconnect_keeps :
    (s : World) (a now : ℕ) (x : Result (Unit {0}))
    → let s' = (after_disconnect s a now x).0 in
      (s'.tokens ≡ s.tokens) × (s'.dict ≡ s.dict) × (s'.session_save_time ≡ s.session_save_time)
unfolding peer_disconnect
after_disconnect_keeps s a now (ok u) = (refl, refl, refl)
after_disconnect_keeps s a now (err e) = (refl, refl, refl)
after_disconnect_keeps s a now panic = (refl, refl, refl)

-- Whatever the callback says, a teardown takes the peer away from the token at its address; the
-- other tokens and the table stay.
teardown_keeps :
    (s : World) (a now : ℕ)
    → let s' = (teardown s a now).0 in
      (s'.tokens ≡ update s.tokens a (set_peer (s.tokens a) none))
      × (s'.dict ≡ s.dict)
      × (s'.session_save_time ≡ s.session_save_time)
unfolding teardown
teardown_keeps s a now =
    let s' = set_token s a (set_peer (s.tokens a) none) in
    after_disconnect_keeps s' a now (call_special_function (s'.tokens a) (tag_value disconnect))

pub attach_token : (s : World) (a p : ℕ) → (attach s a p).tokens a ≡ set_peer (s.tokens a) (some p)
unfolding attach
attach_token s a p = update_same s.tokens a (set_peer (s.tokens a) (some p))

teardown_token :
    (s : World) (a now : ℕ) → (teardown s a now).0.tokens a ≡ set_peer (s.tokens a) none
teardown_token s a now =
    ap (λ f. f a) (teardown_keeps s a now).0 ∙ update_same s.tokens a (set_peer (s.tokens a) none)

-- A connection that ends late takes the peer of its successor away. When a session's second
-- connection has replaced the first, the end of the first leaves the session's token without a
-- peer: `send` fails as disconnected, and the token counts as disconnected, although the second
-- connection is up.
pub stale_teardown :
    (s : World) (a p1 p2 now : ℕ) (peer_down : ℕ → Result Bool)
    → let t = (teardown (attach (attach s a p1) a p2) a now).0.tokens a in
      (send ((attach (attach s a p1) a p2).tokens a) ≡ ok p2)
      × (send t ≡ err (token_disconnect (s.tokens a).session_id))
      × (is_disconnect peer_down t ≡ true)
unfolding send set_peer is_disconnect
stale_teardown s a p1 p2 now peer_down =
    let s1 = attach s a p1 in
    let s2 = attach s1 a p2 in
    (
      rw (attach_token s1 a p2) refl,
      rw (teardown_token s2 a now, attach_token s1 a p2, attach_token s a p1) refl,
      rw (teardown_token s2 a now) refl,
    )

calm_of_peer :
    (s : World) (a b tag : ℕ) (p : Option ℕ)
    → call_special_function (update s.tokens a (set_peer (s.tokens a) p) b) tag
      ≡ call_special_function (s.tokens b) tag
unfolding update call_special_function set_peer
calm_of_peer s a b tag p = elim (Bool-cases (a == b)) [
  | inl e ↦ let same : a ≡ b = ground arith in rw (e, same) refl
  | inr e ↦ rw e refl
]

-- A new peer of a token changes no callback.
new_peer-IsCalm :
    (s : World) (a : ℕ) (p : Option ℕ) (q : Deadlines)
    → IsCalm s
    → IsCalm (record s { tokens = update s.tokens a (set_peer (s.tokens a) p); clear_queue = q })
new_peer-IsCalm s a p q h k b e panics =
    h k b e (cc (calm_of_peer s a b (tag_value closed) p, panics))

mem_key-due :
    (now save k at : ℕ) (q : Deadlines)
    → is_due now save at ≡ true
    → mem_key k (due now save (push_front k at q)) ≡ true
mem_key-due now save k at [] d = rw d (ground arith)
mem_key-due now save k at ((j, at') ∷ q) d = ground (arith, mem_key-due now save k at q d)

-- The state after a teardown whose callback succeeds.
abbrev ended : World → ℕ → ℕ → ℕ → World
ended s a k now = record s {
  tokens = update s.tokens a (set_peer (s.tokens a) none);
  clear_queue = push_front k now s.clear_queue;
}

teardown-ended :
    (s : World) (a k now : ℕ)
    → (s.tokens a).session_id ≡ k
    → call_special_function (s.tokens a) (tag_value disconnect) ≡ ok tt
    → teardown s a now ≡ (ended s a k now, ok tt)
unfolding teardown peer_disconnect
teardown-ended s a k now same fine =
    let t = set_peer (s.tokens a) none in
    let e : call_special_function (update s.tokens a t a) (tag_value disconnect) ≡ ok tt =
      ap (λ x. call_special_function x (tag_value disconnect)) (update_same s.tokens a t)
      ∙ special_of_peer (s.tokens a) none (tag_value disconnect)
      ∙ fine in
    let e' : (update s.tokens a t a).session_id ≡ k =
      ap (λ x. x.session_id) (update_same s.tokens a t) ∙ unfold set_peer in same in
    rw (e, e') refl

module _ (peer_down : ℕ → Result Bool) where
  down-none :
      (s : World) (a k : ℕ)
      → lookup k s.dict ≡ some a
      → (s.tokens a).peer ≡ none
      → is_down peer_down s k ≡ true
  unfolding is_disconnect
  down-none s a k there e = rw (there, e) refl

  down-up :
      (s : World) (a k p : ℕ)
      → lookup k s.dict ≡ some a
      → (s.tokens a).peer ≡ some p
      → peer_down p ≡ ok false
      → is_down peer_down s k ≡ false
  unfolding is_disconnect
  down-up s a k p there e up = rw (there, is_disconnect, e, up) refl

gone_peer : (s : World) (a : ℕ) → (update s.tokens a (set_peer (s.tokens a) none) a).peer ≡ none
unfolding set_peer
gone_peer s a = ap (λ t. t.peer) (update_same s.tokens a (record (s.tokens a) { peer = none }))

new_peer : (s : World) (a p : ℕ) → ((attach s a p).tokens a).peer ≡ some p
unfolding set_peer
new_peer s a p = ap (λ t. t.peer) (attach_token s a p)

-- The two ends of a session that stands in the table under its token's id, where the queue of
-- sessions to clear is in order of time and spans fewer than 2^32 ms up to the check, and where no
-- token of a session in the table has a Closed callback that panics. After a
-- teardown whose callback succeeds, a check that runs when `session_save_time` has passed removes
-- the session, if no connection has taken the token up; if one has, and its peer is not
-- disconnected, the check leaves the session.
pub session_after_teardown :
    (peer_down : ℕ → Result Bool) (s : World) (a k lo d p t1 : ℕ)
    → lookup k s.dict ≡ some a
    → (s.tokens a).session_id ≡ k
    → call_special_function (s.tokens a) (tag_value disconnect) ≡ ok tt
    → InOrder lo t1 s.clear_queue
    → t1 + d < lo + 2 ^ 32
    → s.session_save_time ≤ d
    → peer_down p ≡ ok false
    → IsCalm s
    → let s' = (teardown s a t1).0 in
      let check = λ (x : World). (check_tokens_disconnect_timeout peer_down (t1 + d) x).0 in
      (lookup k (check s').dict ≡ none) × (lookup k (check (attach s' a p)).dict ≡ some a)
unfolding attach
session_after_teardown peer_down s a k lo d p t1 there same fine o fresh long up calm =
    let s' = ended s a k t1 in
    let q = teardown-ended s a k t1 same fine in
    let due_now = mem_key-due (t1 + d) s.session_save_time k t1 s.clear_queue (
      waited_is_due t1 d s.session_save_time t1 (omega arith) long
        (omega (arith, InOrder-le lo t1 s.clear_queue o))) in
    let order : InOrder lo (t1 + d) s'.clear_queue =
      InOrder-later lo t1 (t1 + d) s'.clear_queue (omega arith)
        (InOrder-push_front lo t1 t1 k s.clear_queue (omega arith) o) in
    let s'' = attach s' a p in
    let calm' = new_peer-IsCalm s a none (push_front k t1 s.clear_queue) calm in
    let calm'' = new_peer-IsCalm s' a (some p) s'.clear_queue calm' in
    (
      rw
          (
            q,
            (check_tokens_disconnect_timeout_exact peer_down lo (t1 + d) s' fresh order calm').1 k,
            due_now,
            down-none peer_down s' a k there (gone_peer s a),
          )
          refl,
      rw
          (
            q,
            (check_tokens_disconnect_timeout_exact peer_down lo (t1 + d) s'' fresh order calm'').1
                k,
            due_now,
            down-up peer_down s'' a k p there (new_peer s' a p) up,
          )
          there,
    )
