-- ===== src/Server/Sessions.antt =====
-- The table of sessions over any history of connections and checks: create_token and the checks of
-- netx_server/src/server/async_token_manager.rs, with the ends of the connections of impl_server.rs.
pub mod History
use rust_netx.Prelude.{
  ℕ, suc, ◌<◌, ◌≡◌, refl, ap, ◌∙◌, sym, Bool, true, false, Option, none, some, List, [], ◌∷◌, arith,
  ◌==◌, if◌then◌else◌, Bool-cases, Option-cases, inl, inr,
}
use rust_netx.Prelude.Dict.{lookup, insert, lookup-insert, lookup-remove, values}
use rust_netx.Prelude.Deadlines.{Deadlines, is_due}
use rust_netx.Wire.{Result, ok, err, panic, serial_time_out}
use rust_netx.Token.{
  Token, Controller, set_peer, set_controller, clear_controller_fun_maps, set_error, check_loop,
  check_request_timeout, is_disconnect, call_special_function, new,
}
use rust_netx.Manager.{
  World, update, set_token, start, create_token, peer_disconnect, check_each,
  check_tokens_request_timeout, close_session, clear_loop, check_tokens_disconnect_timeout,
  check_round, tag_value, disconnect, closed, told_tokens, Cleared, after_close,
}
use rust_netx.Server.{open_session, attach, teardown, after_disconnect}

-- Each entry of the table leads to a token that was made, and that has the entry's session id.
pub record IsTable (s : World) : Type 0 where
  pub entry :
      (k a : ℕ) → lookup k s.dict ≡ some a → (a < s.next_addr) × ((s.tokens a).session_id ≡ k)

-- No token is made or renamed, and no entry is new.
pub record Keeps (s s' : World) : Type 0 where
  pub next : s'.next_addr ≡ s.next_addr
  pub ids : (a : ℕ) → (s'.tokens a).session_id ≡ (s.tokens a).session_id
  pub entries : (k a : ℕ) → lookup k s'.dict ≡ some a → lookup k s.dict ≡ some a

pub Keeps-refl : (s : World) → Keeps s s
Keeps-refl s = record { next = refl; ids = λ a. refl; entries = λ k a e. e }

pub Keeps-trans : (s s' s'' : World) → Keeps s s' → Keeps s' s'' → Keeps s s''
Keeps-trans s s' s'' f g = record {
  next = g.next ∙ f.next;
  ids = λ a. g.ids a ∙ f.ids a;
  entries = λ k a e. f.entries k a (g.entries k a e);
}

pub Keeps-IsTable : (s s' : World) → Keeps s s' → IsTable s → IsTable s'
Keeps-IsTable s s' f h = record {
  entry = λ k a e.
      let (lt, id) = h.entry k a (f.entries k a e) in (omega (arith, f.next), f.ids a ∙ id);
}

update_ids :
    (tokens : ℕ → Token) (a b : ℕ) (t : Token)
    → t.session_id ≡ (tokens a).session_id
    → (update tokens a t b).session_id ≡ (tokens b).session_id
unfolding update
update_ids tokens a b t h = elim (Bool-cases (a == b)) [
  | inl same ↦ let e : a ≡ b = ground arith in rw same (h ∙ ap (λ i. (tokens i).session_id) e)
  | inr other ↦ rw other refl
]

pub set_token-Keeps :
    (s : World) (a : ℕ) (t : Token)
    → t.session_id ≡ (s.tokens a).session_id
    → Keeps s (set_token s a t)
set_token-Keeps s a t h = record {
  next = refl;
  ids = λ b. update_ids s.tokens a b t h;
  entries = λ k b e. e;
}

set_error-id :
    (rx : ℕ → Bool) (t : Token) (k : ℕ)
    → (set_error rx t k (serial_time_out k)).0.session_id ≡ t.session_id
unfolding set_error
set_error-id rx t k = elim (Option-cases (lookup k t.result_dict)) [
  | inl n ↦ rw n refl
  | inr (c, e) ↦ rw e refl
]

check_loop-id :
    (rx : ℕ → Bool) (now out : ℕ) (q : Deadlines) (t : Token)
    → (check_loop rx now out q t).0.session_id ≡ t.session_id
unfolding check_loop
check_loop-id rx now out [] t = refl
check_loop-id rx now out ((k, at) ∷ q) t =
    let t' = (set_error rx t k (serial_time_out k)).0 in
    elim (Bool-cases (is_due now out at)) [
      | inl d ↦ rw d (check_loop-id rx now out q t' ∙ set_error-id rx t k)
      | inr d ↦ rw d refl
    ]

check_each-Keeps :
    (rx : ℕ → Bool) (now : ℕ) (as' : List ℕ) (s : World) → Keeps s (check_each rx now as' s).0
unfolding check_each check_request_timeout
check_each-Keeps rx now [] s = Keeps-refl s
check_each-Keeps rx now (a ∷ as') s =
    let t = (check_request_timeout rx now s.request_out_time (s.tokens a)).0 in
    let s' = set_token s a t in
    Keeps-trans s s' (check_each rx now as' s').0
      (set_token-Keeps s a t
        (check_loop-id rx now s.request_out_time (s.tokens a).request_queue (s.tokens a)))
      (check_each-Keeps rx now as' s')

told_ids :
    (tokens : ℕ → Token) (a b : ℕ) (x : Result (Unit {0}))
    → (told_tokens tokens a x b).session_id ≡ (tokens b).session_id
unfolding clear_controller_fun_maps
told_ids tokens a b (ok u) = update_ids tokens a b (record (tokens a) { controller = none }) refl
told_ids tokens a b (err e) = update_ids tokens a b (record (tokens a) { controller = none }) refl
told_ids tokens a b panic = refl

module _ (peer_down : ℕ → Result Bool) where
  after_close-Keeps :
      (s : World) (q : Deadlines) (gone rest : Cleared)
      → Keeps s gone.0
      → Keeps gone.0 rest.0
      → Keeps s (after_close q gone rest).0
  after_close-Keeps s q (w, ns, ok u) rest h k = Keeps-trans s w rest.0 h k
  after_close-Keeps s q (w, ns, err e) rest h k = Keeps-trans s w rest.0 h k
  after_close-Keeps s q (w, ns, panic) rest h k = record {
    next = h.next;
    ids = h.ids;
    entries = h.entries;
  }

  close_session-Keeps : (s : World) (k : ℕ) → Keeps s (close_session peer_down s k).0
  unfolding close_session clear_controller_fun_maps
  close_session-Keeps s k = elim (Option-cases (lookup k s.dict)) [
    | inl n ↦ rw n (Keeps-refl s)
    | inr (a, e) ↦ elim (Bool-cases (is_disconnect peer_down (s.tokens a))) [
      | inl down ↦
          rw (e, down)
            (record {
              next = refl;
              ids = λ b.
                  told_ids s.tokens a b (call_special_function (s.tokens a) (tag_value closed));
              entries = λ j b f. ground (arith, lookup-remove k j s.dict);
            })
      | inr up ↦ rw (e, up) (Keeps-refl s)
    ]
  ]

  clear_loop-Keeps :
      (now : ℕ) (q : Deadlines) (s : World) → Keeps s (clear_loop peer_down now q s).0
  unfolding clear_loop
  clear_loop-Keeps now [] s = record { next = refl; ids = λ a. refl; entries = λ k a e. e }
  clear_loop-Keeps now ((k, at) ∷ q) s =
      let s' = (close_session peer_down s k).0 in
      elim (Bool-cases (is_due now s.session_save_time at)) [
        | inl d ↦ rw d (
            after_close-Keeps s q (close_session peer_down s k) (clear_loop peer_down now q s')
              (close_session-Keeps s k) (clear_loop-Keeps now q s'))
        | inr d ↦ rw d (record { next = refl; ids = λ a. refl; entries = λ j a e. e })
      ]

  pub check_round-Keeps :
      (rx : ℕ → Bool) (now : ℕ) (s : World) → Keeps s (check_round peer_down rx now s).0
  unfolding check_round check_tokens_request_timeout check_tokens_disconnect_timeout
  check_round-Keeps rx now s =
      let s' = (check_each rx now (values s.dict) s).0 in
      Keeps-trans s s' (clear_loop peer_down now s'.clear_queue s').0
        (check_each-Keeps rx now (values s.dict) s) (clear_loop-Keeps now s'.clear_queue s')
