-- ===== src/Server/Sessions/History.antt =====
-- New sessions in create_token of netx_server/src/server/async_token_manager.rs, and the table over
-- whole histories of the server.
use rust_netx.Prelude.{
  ℕ, suc, ◌≡◌, ◌≢◌, ◌↔◌, refl, ap, ◌∙◌, sym, Bool, true, false, Option, none, some, List, [], ◌∷◌,
  arith, ◌==◌, if◌then◌else◌, Bool-cases, Option-cases, inl, inr,
}
use rust_netx.Prelude.Dict.{lookup, insert, lookup-insert}
use rust_netx.Wire.{Result, ok, err, panic}
use rust_netx.Token.{Controller, set_peer, set_controller, new, call_special_function}
use rust_netx.Manager.{
  World, update, set_token, start, get_token, create_token, peer_disconnect, check_round, tag_value,
  disconnect,
}
use rust_netx.Server.{open_session, attach, teardown, after_disconnect}
use rust_netx.Server.Sessions.{
  IsTable, Keeps, Keeps-refl, Keeps-trans, Keeps-IsTable, set_token-Keeps, check_round-Keeps,
}

some_inj : {a b : ℕ} → ◌≡◌ {A = Option ℕ} (some a) (some b) → a ≡ b
some_inj h = cc

attach-Keeps : (s : World) (a peer : ℕ) → Keeps s (attach s a peer)
unfolding attach set_peer
attach-Keeps s a peer = set_token-Keeps s a (record (s.tokens a) { peer = some peer }) refl

after_disconnect-Keeps :
    (s : World) (a now : ℕ) (x : Result (Unit {0})) → Keeps s (after_disconnect s a now x).0
unfolding peer_disconnect
after_disconnect-Keeps s a now (ok u) = record {
  next = refl;
  ids = λ b. refl;
  entries = λ k b e. e;
}
after_disconnect-Keeps s a now (err e) = Keeps-refl s
after_disconnect-Keeps s a now panic = Keeps-refl s

teardown-Keeps : (s : World) (a now : ℕ) → Keeps s (teardown s a now).0
unfolding teardown set_peer
teardown-Keeps s a now =
    let s' = set_token s a (record (s.tokens a) { peer = none }) in
    let x = call_special_function (s'.tokens a) (tag_value disconnect) in
    Keeps-trans s s' (after_disconnect s' a now x).0
      (set_token-Keeps s a (record (s.tokens a) { peer = none }) refl)
      (after_disconnect-Keeps s' a now x)

-- What a new session is: a token of its own at a new address, under the clock's number.
abbrev pub with_session : World → ℕ → Controller → World
with_session s id c = record s {
  dict = insert id s.next_addr s.dict;
  tokens = update s.tokens s.next_addr (set_controller (new id) c);
  next_addr = suc s.next_addr;
}

new_id :
    (s : World) (id b : ℕ) (c : Controller)
    → (with_session s id c).tokens b
      ≡ (if s.next_addr == b then set_controller (new id) c else s.tokens b)
unfolding update
new_id s id b c = refl

with_session-IsTable :
    (s : World) (id : ℕ) (c : Controller) → IsTable s → IsTable (with_session s id c)
unfolding set_controller
with_session-IsTable s id c h = record {
  entry = λ k a e. elim (Bool-cases (id == k)) [
    | inl mine ↦
        let q = rw (lookup-insert id k s.next_addr s.dict, mine) at e in
        let at_new : s.next_addr ≡ a = cc in
        let this : (s.next_addr == a) ≡ true = ground arith in
        (omega arith, rw (new_id s id a c, this) (ground arith))
    | inr other ↦
        let q = rw (lookup-insert id k s.next_addr s.dict, other) at e in
        let (lt, same) = h.entry k a q in
        let old : (s.next_addr == a) ≡ false = ground arith in
        (omega arith, rw (new_id s id a c, old) same)
  ];
}

create_token-eq-ok :
    (s s' : World) (nanos : Option ℕ) (created : Result Controller) (a : ℕ)
    → create_token s nanos created ≡ ok (s', a)
    → (id : ℕ) × (c : Controller) × (nanos ≡ some id)
      × (created ≡ ok c)
      × (a ≡ s.next_addr)
      × (s' ≡ with_session s id c)
unfolding create_token
create_token-eq-ok s s' (some id) (ok c) a h = (id, c, refl, refl, cc, cc)
create_token-eq-ok s s' (some id) (err e) a h = cc
create_token-eq-ok s s' (some id) panic a h = cc
create_token-eq-ok s s' none created a h = cc

-- A new session leads from the clock's number to a token that no entry of the table led to before,
-- and every other entry is as it was. An entry that stood under the same number is replaced: it
-- does not lead to its token any more.
pub create_token_replaces :
    (s s' : World) (nanos : Option ℕ) (created : Result Controller) (a : ℕ)
    → IsTable s
    → create_token s nanos created ≡ ok (s', a)
    → (id : ℕ) × (nanos ≡ some id)
      × ((j : ℕ) → lookup j s'.dict ≡ (if id == j then some a else lookup j s.dict))
      × ((j b : ℕ) → lookup j s.dict ≡ some b → b ≢ a)
      × IsTable s'
create_token_replaces s s' nanos created a h e =
    let (id, c, n, m, at_new, w) = create_token-eq-ok s s' nanos created a e in
    (
      id,
      n,
      λ j. rw (w, at_new) (lookup-insert id j s.next_addr s.dict),
      λ j b there same. absurd (let (lt, _) = h.entry j b there in omega arith),
      rw w (with_session-IsTable s id c h),
    )

-- A handshake's search for a session, a connection that takes a token, a connection's end, and a
-- round of the periodic checks. Any task may do any of them at any time.
pub data Act : Type 0 where
  opens : Option ℕ → Result Controller → ℕ → Act
  attaches : ℕ → ℕ → Act
  ends : ℕ → ℕ → Act
  rounds : (ℕ → Result Bool) → (ℕ → Bool) → ℕ → Act

abbrev after_open : World → Result (World × ℕ) → World
after_open s (ok (s', a)) = s'
after_open s (err e) = s
after_open s panic = s

unfoldable pub act : World → Act → World
act s (opens nanos created session) = after_open s (open_session s nanos created session)
act s (attaches a peer) = attach s a peer
act s (ends a now) = (teardown s a now).0
act s (rounds peer_down rx now) = (check_round peer_down rx now s).0

unfoldable pub acts : World → List Act → World
acts s [] = s
acts s (x ∷ xs) = acts (act s x) xs

made-IsTable :
    (s : World) (nanos : Option ℕ) (created : Result Controller)
    → IsTable s
    → IsTable (after_open s (create_token s nanos created))
unfolding create_token
made-IsTable s (some id) (ok c) h = with_session-IsTable s id c h
made-IsTable s (some id) (err e) h = h
made-IsTable s (some id) panic h = h
made-IsTable s none created h = h

open_session-IsTable :
    (s : World) (nanos : Option ℕ) (created : Result Controller) (session : ℕ)
    → IsTable s
    → IsTable (after_open s (open_session s nanos created session))
unfolding open_session
open_session-IsTable s nanos created session h = elim (Bool-cases (session == 0)) [
  | inl none_yet ↦ rw none_yet (made-IsTable s nanos created h)
  | inr known ↦ elim (Option-cases (get_token s session)) [
    | inl lost ↦ rw (known, lost) (made-IsTable s nanos created h)
    | inr (a, there) ↦ rw (known, there) h
  ]
]

act-IsTable : (s : World) (x : Act) → IsTable s → IsTable (act s x)
unfolding act
act-IsTable s (opens nanos created session) h = open_session-IsTable s nanos created session h
act-IsTable s (attaches a peer) h = Keeps-IsTable s (attach s a peer) (attach-Keeps s a peer) h
act-IsTable s (ends a now) h = Keeps-IsTable s (teardown s a now).0 (teardown-Keeps s a now) h
act-IsTable s (rounds peer_down rx now) h =
    Keeps-IsTable s (check_round peer_down rx now s).0 (check_round-Keeps peer_down rx now s) h

acts-IsTable : (s : World) (xs : List Act) → IsTable s → IsTable (acts s xs)
unfolding acts
acts-IsTable s [] h = h
acts-IsTable s (x ∷ xs) h = acts-IsTable (act s x) xs (act-IsTable s x h)

start-IsTable :
    (request_out_time session_save_time : ℕ) → IsTable (start request_out_time session_save_time)
start-IsTable out save = record { entry = λ k a e. unfold lookup in cc }

-- Over any history of handshakes, connections, their ends and periodic checks, in any order, a
-- session id that the table knows leads to a token with that id, and two ids lead to one token only
-- if they are the same.
pub sessions_never_mix :
    (out save k j a b : ℕ) (xs : List Act)
    → get_token (acts (start out save) xs) k ≡ some a
    → get_token (acts (start out save) xs) j ≡ some b
    → (((acts (start out save) xs).tokens a).session_id ≡ k) × ((a ≡ b) ↔ (k ≡ j))
unfolding get_token
sessions_never_mix out save k j a b xs e f =
    let s = acts (start out save) xs in
    let h = acts-IsTable (start out save) xs (start-IsTable out save) in
    let (_, id) = h.entry k a e in
    let (_, id') = h.entry j b f in
    (
      id,
      (
        (λ same. sym id ∙ ap (λ (i : ℕ). (s.tokens i).session_id) same ∙ id'),
        (λ same. some_inj (sym e ∙ ap (λ (i : ℕ). lookup i s.dict) same ∙ f)),
      ),
    )
