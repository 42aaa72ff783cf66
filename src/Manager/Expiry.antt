-- ===== src/Manager/Expiry.antt =====
-- `check_tokens_disconnect_timeout` of netx_server/src/server/async_token_manager.rs.
use rust_netx.Prelude.{
  ◌≢◌, mem_key, ℕ, ◌+◌, ◌^◌, ◌<◌, ◌≡◌, refl, ap, Bool, true, false, Option, none, some, List, [],
  ◌∷◌, ◌++◌, arith, ◌==◌, inl, inr, if◌then◌else◌, Bool-cases, Option-cases, ◌&&◌,
}
use rust_netx.Prelude.Dict.{lookup, lookup-remove}
use rust_netx.Prelude.Deadlines.{Deadlines, is_due, due, waiting, InOrder, not_due_later}
use rust_netx.Wire.{Result, ok, err, panic}
use rust_netx.Token.{Token, is_disconnect, clear_controller_fun_maps, call_special_function}
use rust_netx.Manager.{
  World, Notice, Cleared, told_tokens, unwound, after_close, tag_value, closed, update,
  close_session, close_token, clear_loop, check_tokens_disconnect_timeout,
}

same_session : (k j : ℕ) (w : World) → (k == j) ≡ true → lookup k w.dict ≡ lookup j w.dict
same_session k j w e = let same : k ≡ j = ground arith in ap (λ i. lookup i w.dict) same

-- No session of the table has a token whose Closed callback panics.
abbrev pub IsCalm : World → Type 0
IsCalm w =
    (k a : ℕ)
    → lookup k w.dict ≡ some a
    → call_special_function (w.tokens a) (tag_value closed) ≢ panic

module _ (peer_down : ℕ → Result Bool) where
  -- The session is in the table and its token has no live peer.
  abbrev down : (ℕ → Token) → Option ℕ → Bool
  down tokens (some a) = is_disconnect peer_down (tokens a)
  down tokens none = false

  abbrev pub is_down : World → ℕ → Bool
  is_down w k = down w.tokens (lookup k w.dict)

  unfoldable pub close_all : List ℕ → World → World × List Notice
  close_all [] w = (w, [])
  close_all (k ∷ ks) w =
      let gone = close_session peer_down w k in
      let rest = close_all ks gone.0 in (rest.0, gone.1 ++ rest.1)

  -- What one closed session leaves.
  pub close_session-dict :
      (w : World) (k j : ℕ)
      → lookup j (close_session peer_down w k).0.dict
        ≡ (if (k == j) && is_down w k then none else lookup j w.dict)
  unfolding close_session
  close_session-dict w k j = elim (Option-cases (lookup k w.dict)) [
    | inl n ↦ rw n (ground arith)
    | inr (a, s) ↦ rw s (ground (arith, lookup-remove k j w.dict))
  ]

  cleared :
      (tokens : ℕ → Token) (b a : ℕ)
      → is_disconnect peer_down (update tokens b (clear_controller_fun_maps (tokens b)) a)
        ≡ is_disconnect peer_down (tokens a)
  unfolding update clear_controller_fun_maps is_disconnect
  cleared tokens b a = elim (Bool-cases (b == a)) [
    | inl e ↦ let same : b ≡ a = ground arith in rw (e, same) refl
    | inr e ↦ rw e refl
  ]

  told :
      (tokens : ℕ → Token) (b a : ℕ) (x : Result (Unit {0}))
      → is_disconnect peer_down (told_tokens tokens b x a) ≡ is_disconnect peer_down (tokens a)
  told tokens b a (ok u) = cleared tokens b a
  told tokens b a (err e) = cleared tokens b a
  told tokens b a panic = refl

  close_token-tokens :
      (w : World) (k b a : ℕ)
      → is_disconnect peer_down ((close_token peer_down w k b).0.tokens a)
        ≡ is_disconnect peer_down (w.tokens a)
  close_token-tokens w k b a = elim (Bool-cases (is_disconnect peer_down (w.tokens b))) [
    | inl d ↦ rw d (told w.tokens b a (call_special_function (w.tokens b) (tag_value closed)))
    | inr d ↦ rw d refl
  ]

  close_session-tokens :
      (w : World) (k a : ℕ)
      → is_disconnect peer_down ((close_session peer_down w k).0.tokens a)
        ≡ is_disconnect peer_down (w.tokens a)
  unfolding close_session
  close_session-tokens w k a = elim (Option-cases (lookup k w.dict)) [
    | inl n ↦ rw n refl
    | inr (b, s) ↦ rw s (close_token-tokens w k b a)
  ]

  close_session-save_time :
      (w : World) (k : ℕ) → (close_session peer_down w k).0.session_save_time ≡ w.session_save_time
  unfolding close_session
  close_session-save_time w k = ground arith

  close_session-is_down :
      (w : World) (k j : ℕ)
      → is_down (close_session peer_down w k).0 j
        ≡ (if (k == j) && is_down w k then false else is_down w j)
  close_session-is_down w k j =
      let w' = (close_session peer_down w k).0 in
      elim (Bool-cases ((k == j) && is_down w k)) [
        | inl gone ↦ rw (close_session-dict w k j, gone) refl
        | inr kept ↦ rw (close_session-dict w k j, kept) (same_down (lookup j w.dict))
      ]
    where
      same_down : (o : Option ℕ) → down (close_session peer_down w k).0.tokens o ≡ down w.tokens o
      same_down none = refl
      same_down (some a) = close_session-tokens w k a

  close_all-dict :
      (ks : List ℕ) (w : World) (j : ℕ)
      → lookup j (close_all ks w).0.dict
        ≡ (if mem_key j ks && is_down w j then none else lookup j w.dict)
  unfolding close_all
  close_all-dict [] w j = refl
  close_all-dict (k ∷ ks) w j =
      let w' = (close_session peer_down w k).0 in
      ground (
        arith,
        close_all-dict ks w' j,
        close_session-dict w k j,
        close_session-is_down w k j,
        same_session k j w,
      )

  told-calm :
      (tokens : ℕ → Token) (a b tag : ℕ) (x : Result (Unit {0}))
      → call_special_function (tokens b) tag ≢ panic
      → call_special_function (told_tokens tokens a x b) tag ≢ panic
  unfolding update call_special_function clear_controller_fun_maps
  told-calm tokens a b tag (ok u) h = elim (Bool-cases (a == b)) [
    | inl e ↦ rw e (λ q. cc q)
    | inr e ↦ rw e h
  ]
  told-calm tokens a b tag (err x) h = elim (Bool-cases (a == b)) [
    | inl e ↦ rw e (λ q. cc q)
    | inr e ↦ rw e h
  ]
  told-calm tokens a b tag panic h = h

  calm_tokens :
      (w : World) (k b : ℕ)
      → call_special_function (w.tokens b) (tag_value closed) ≢ panic
      → call_special_function ((close_session peer_down w k).0.tokens b) (tag_value closed) ≢ panic
  unfolding close_session
  calm_tokens w k b h = elim (Option-cases (lookup k w.dict)) [
    | inl n ↦ rw n h
    | inr (a, s) ↦ elim (Bool-cases (is_disconnect peer_down (w.tokens a))) [
      | inl d ↦
          let x = call_special_function (w.tokens a) (tag_value closed) in
          rw (s, d) (told-calm w.tokens a b (tag_value closed) x h)
      | inr d ↦ rw (s, d) h
    ]
  ]

  close_session-IsCalm : (w : World) (k : ℕ) → IsCalm w → IsCalm (close_session peer_down w k).0
  close_session-IsCalm w k h j b e =
      calm_tokens w k b (h j b (ground (arith, close_session-dict w k j)))

  unwound-ok : (x : Result (Unit {0})) → x ≢ panic → unwound x ≡ ok tt
  unwound-ok (ok u) h = refl
  unwound-ok (err e) h = refl
  unwound-ok panic h = absurd (h refl)

  close_session-ok : (w : World) (k : ℕ) → IsCalm w → (close_session peer_down w k).2 ≡ ok tt
  unfolding close_session
  close_session-ok w k h = elim (Option-cases (lookup k w.dict)) [
    | inl n ↦ rw n refl
    | inr (a, s) ↦ elim (Bool-cases (is_disconnect peer_down (w.tokens a))) [
      | inl d ↦
          rw (s, d) (unwound-ok (call_special_function (w.tokens a) (tag_value closed)) (h k a s))
      | inr d ↦ rw (s, d) refl
    ]
  ]

  after_close-ok :
      (q : Deadlines) (gone rest : Cleared)
      → gone.2 ≡ ok tt
      → after_close q gone rest ≡ (rest.0, gone.1 ++ rest.1, rest.2)
  after_close-ok q (w, ns, ok u) rest h = refl
  after_close-ok q (w, ns, err e) rest h = refl
  after_close-ok q (w, ns, panic) rest h = absurd (cc h)

  -- On a queue in order the loop closes exactly the sessions that are due.
  clear_loop-close_all :
      (lo now : ℕ) (q : Deadlines) (w : World)
      → now < lo + 2 ^ 32
      → InOrder lo now q
      → IsCalm w
      → clear_loop peer_down now q w ≡ (
          let r = close_all (due now w.session_save_time q) w in
          (record (r.0) { clear_queue = waiting now w.session_save_time q }, r.1, ok tt))
  unfolding clear_loop close_all
  clear_loop-close_all lo now [] w fresh h calm = refl
  clear_loop-close_all lo now ((k, at) ∷ q) w fresh h calm =
      let gone = close_session peer_down w k in
      let rest = clear_loop peer_down now q gone.0 in
      elim (Bool-cases (is_due now w.session_save_time at)) [
        | inl d ↦
            rw
              (
                d,
                after_close-ok q gone rest (close_session-ok w k calm),
                clear_loop-close_all at now q gone.0 (omega arith) h.1
                    (close_session-IsCalm w k calm),
                close_session-save_time w k,
              )
              refl
        | inr d ↦
            let (none_due, all_wait) =
              not_due_later now w.session_save_time at q (omega arith) h.1 d in
            rw (d, none_due, all_wait) refl
      ]

  -- With the entries in order and less than 2^32 ms old, and where no Closed callback of a session
  -- in the table panics, the check of disconnected tokens removes exactly the sessions whose time
  -- is over and whose token has no live peer, takes exactly the due entries out of its queue, and
  -- comes to its end.
  pub check_tokens_disconnect_timeout_exact :
      (lo now : ℕ) (w : World)
      → now < lo + 2 ^ 32
      → InOrder lo now w.clear_queue
      → IsCalm w
      → let r = check_tokens_disconnect_timeout peer_down now w in
        let over = due now w.session_save_time w.clear_queue in
        ((r.0).clear_queue ≡ waiting now w.session_save_time w.clear_queue)
        × ((k : ℕ)
            → lookup k (r.0).dict
              ≡ (if mem_key k over && is_down w k then none else lookup k w.dict))
        × (r.2 ≡ ok tt)
  unfolding check_tokens_disconnect_timeout
  check_tokens_disconnect_timeout_exact lo now w fresh h calm =
      let save = w.session_save_time in
      rw (clear_loop-close_all lo now w.clear_queue w fresh h calm)
        (refl, close_all-dict (due now save w.clear_queue) w, refl)
