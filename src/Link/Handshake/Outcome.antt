-- ===== src/Link/Handshake/Outcome.antt =====
-- Whole handshakes between `read_buffer` of the client and `get_peer_token` of the server.
use rust_netx.Client.Connect.{connect_network}
use rust_netx.Prelude.{
  Bool-cases, inl, inr, ℕ, suc, ◌≤◌, ◌%◌, drop, ◌+◌, ◌-◌, ◌<◌, ◌^◌, ◌≡◌, refl, ap, ◌∙◌, Bool, true,
  false, Option, none, some, List, [], ◌∷◌, ◌++◌, arith, length, length-append, append-nil, codes,
  is_ascii,
}
use rust_netx.Wire.{connect_error, reader, Wire, Error, Result, ok, err}
use rust_netx.Wire.Frame.{frame, patch_len}
use rust_netx.Wire.Frame.Laws.{read_int_end}
use rust_netx.Token.{Token, Controller, set_peer, send, call_special_function}
use rust_netx.Manager.{World, tag_value, connect}
use rust_netx.Server
use rust_netx.Server.{
  key_verify_msg, session_id_msg, open_session, get_peer_token, data_reading, read_buff_byline,
  input_event, Outcome,
}
use rust_netx.Server.Teardown.{attach_token, special_of_peer}
use rust_netx.Server.Commands.{data_reading-frames, serve_all}
use rust_netx.Client.{is_connect, Client, framed, get_session_id_buff, set_mode, store_session_id}
use rust_netx.Client.Stream
use rust_netx.Client.Stream.{read_buffer}
use rust_netx.Link.Handshake.{
  CanGreet, refusal, hello, get_peer_token-hello, key_verify_msg-read, session_id_msg-read, greeted,
}

module _ (w : Wire) (rx : ℕ → Bool) (checks : Bool) where
  abbrev verified : List ℕ
  verified = key_verify_msg w false (codes "verify success")

  -- What the client's connection has done, when the server has answered both its messages.
  abbrev pub welcomed : Client → ℕ → Stream.Reading
  welcomed c session_id = record {
    client = record c { mode = 1; session_id = session_id };
    out = hello w c ∷ get_session_id_buff w 1 ∷ [];
    jobs = [];
    events = [];
    has_set_connect = false;
    connects = true;
    told = [];
  }

  read_end :
      (fuel : ℕ) (r : Stream.Reading)
      → Stream.read_loop w rx (ok tt) checks (suc fuel) [] r ≡ some (r, ok tt)
  unfolding Stream.read_loop
  read_end fuel r = rw (read_int_end w) refl

  welcome-read :
      (fuel session_id : ℕ) (c : Client)
      → session_id < 2 ^ 64
      → Stream.read_loop w rx
          (ok tt)
          checks
          (suc (suc (suc fuel)))
          (verified ++ session_id_msg w session_id)
          (Stream.reading w rx (ok tt) c)
        ≡ some (welcomed c session_id, ok tt)
  unfolding Stream.reading set_mode store_session_id
  welcome-read fuel session_id c h =
      let r = Stream.reading w rx (ok tt) c in
      let id = session_id_msg w session_id in
      key_verify_msg-read w rx checks (suc (suc fuel)) false (codes "verify success") id r refl
        (omega arith)
      ∙ rw (append-nil id) at
          (session_id_msg-read w rx checks (suc fuel) session_id [] (greeted w rx r) h)
      ∙ read_end fuel (welcomed c session_id)

  -- A client that asks gets the id of its session.
  on_ask :
      (rx' : ℕ → Bool) (r : Server.Reading) (peer : ℕ)
      → send r.token ≡ ok peer
      → Server.on_frame w rx' (ok tt) r (reader (w.int 4 2000))
        ≡ (record r { out = r.out ++ (session_id_msg w r.token.session_id ∷ []) }, ok tt)
  unfolding Server.on_frame
  on_ask rx' r peer h =
      let two = rw (append-nil (w.int 4 2000)) at (w.read_int-int 4 2000 [] (omega arith)) in
      rw two (cc)

  ask-read :
      (rx' : ℕ → Bool) (t : Token) (peer : ℕ)
      → send t ≡ ok peer
      → data_reading w rx' (ok tt) checks (get_session_id_buff w 1) (Server.reading t)
        ≡ some (record (Server.reading t) { out = session_id_msg w t.session_id ∷ [] }, ok tt)
  unfolding get_session_id_buff framed serve_all
  ask-read rx' t peer h =
      let body = w.int 4 2000 in
      let fits : length body + 4 < 2 ^ 32 = omega (arith, w.length-int 4 2000) in
      rw (append-nil (frame w body)) at
        (data_reading-frames w rx' (ok tt) checks (body ∷ []) (Server.reading t) (fits, tt))
      ∙ rw (on_ask rx' (Server.reading t) peer h) refl

  greeted_ask :
      (rx' : ℕ → Bool) (t : Token) (peer : ℕ)
      → send t ≡ ok peer
      → call_special_function t (tag_value connect) ≡ ok tt
      → read_buff_byline w rx' (ok tt) checks (get_session_id_buff w 1) t
        ≡ some (record (Server.reading t) { out = session_id_msg w t.session_id ∷ [] }, ok tt)
  unfolding read_buff_byline
  greeted_ask rx' t peer h greets = rw greets (ask-read rx' t peer h)

  welcome_bytes : (session_id : ℕ) → 2 ≤ length (verified ++ session_id_msg w session_id)
  unfolding session_id_msg patch_len
  welcome_bytes session_id =
      let body = w.int 4 0 ++ (w.int 4 2000 ++ w.int 8 session_id) in
      let head = w.int 4 (length body % 2 ^ 32) in
      omega (
        arith,
        length-append verified (head ++ drop 4 body),
        length-append head (drop 4 body),
        w.length-int 4 (length body % 2 ^ 32),
      )

  read_buffer-welcome :
      (session_id : ℕ) (c : Client)
      → session_id < 2 ^ 64
      → read_buffer w rx (ok tt) checks (verified ++ session_id_msg w session_id) c
        ≡ some (welcomed c session_id, ok tt)
  unfolding read_buffer
  read_buffer-welcome session_id c h =
      let s = verified ++ session_id_msg w session_id in
      let e : length s ≡ suc (suc (length s - 2)) = omega (arith, welcome_bytes session_id) in
      ap (λ n. Stream.read_loop w rx (ok tt) checks (suc n) s (Stream.reading w rx (ok tt) c)) e
      ∙ welcome-read (length s - 2) session_id c h

  -- The callback of a token does not change when a connection takes it.
  connected :
      (s : World) (a peer : ℕ)
      → call_special_function (s.tokens a) (tag_value connect) ≡ ok tt
      → call_special_function ((Server.attach s a peer).tokens a) (tag_value connect) ≡ ok tt
  connected s a peer h =
      rw (attach_token s a peer) (special_of_peer (s.tokens a) (some peer) (tag_value connect) ∙ h)

  -- A handshake that succeeds. A client whose service name and key are those of the server, or
  -- where the server has none, sends its credentials and then asks for its id. If the server finds
  -- or makes a session for it whose Connect callback succeeds, it answers the two messages with two of its own, takes the session
  -- to this connection, and reads on. From these the client has taken mode 1 and stored the id of
  -- that session, and it has started the task that calls `Connect`.
  pub handshake :
      (rx' : ℕ → Bool) (o : Server.ServerOption) (s s' : World) (nanos : Option ℕ)
      (created : Result Controller) (c : Client) (a peer : ℕ)
      → CanGreet w c
      → refusal o c ≡ none
      → open_session s nanos created c.session_id ≡ ok (s', a)
      → (s'.tokens a).session_id < 2 ^ 64
      → call_special_function (s'.tokens a) (tag_value connect) ≡ ok tt
      → let ask = get_session_id_buff w 1 in
        let t = (Server.attach s' a peer).tokens a in
        let id_msg = session_id_msg w (s'.tokens a).session_id in
        (get_peer_token w o s nanos created (ok tt) (hello w c ++ ask)
          ≡ (verified ∷ [], ok (s', a, ask)))
        × (read_buff_byline w rx' (ok tt) checks ask t
            ≡ some (record (Server.reading t) { out = id_msg ∷ [] }, ok tt))
        × (read_buffer w rx (ok tt) checks (verified ++ id_msg) c
            ≡ some (welcomed c (s'.tokens a).session_id, ok tt))
  unfolding send set_peer
  handshake rx' o s s' nanos created c a peer g fine opens fits greets =
      let ask = get_session_id_buff w 1 in
      let t = (Server.attach s' a peer).tokens a in
      (
        get_peer_token-hello w o s nanos created c ask g ∙ rw (fine, opens) refl,
        greeted_ask rx' t peer (rw (attach_token s' a peer, send, set_peer) refl)
              (connected s' a peer greets)
            ∙ rw (attach_token s' a peer) refl,
        read_buffer-welcome (s'.tokens a).session_id c fits,
      )

  refusal_text :
      (o : Server.ServerOption) (c : Client) (msg : List ℕ) (e : Error)
      → refusal o c ≡ some (msg, e)
      → (is_ascii msg ≡ true) × (length msg < 2 ^ 31)
  unfolding refusal
  refusal_text o c msg e h =
      let name = (c.server_info).service_name in
      elim (Bool-cases (Server.differs o.service_name name)) [
        | inl bad ↦
            let m : codes "service name error" ≡ msg = cc (rw bad at h) in
            rw⁻¹ m (refl, omega arith)
        | inr good ↦ elim (Bool-cases (Server.differs o.verify_key (c.server_info).verify_key)) [
          | inl bad ↦
              let m : codes "service verify key error" ≡ msg = cc (rw (good, bad) at h) in
              rw⁻¹ m (refl, omega arith)
          | inr fine ↦ absurd (cc (rw (good, fine) at h))
        ]
      ]

  read_buffer-refused :
      (msg : List ℕ) (c : Client)
      → is_ascii msg ≡ true
      → length msg < 2 ^ 31
      → read_buffer w rx (ok tt) checks (key_verify_msg w true msg) c
        ≡ some (
          record (Stream.reading w rx (ok tt) c) {
            has_set_connect = false;
            told = (false, msg) ∷ [];
          },
          ok tt,
        )
  unfolding read_buffer Stream.reading
  read_buffer-refused msg c a h =
      let m = key_verify_msg w true msg in
      rw (append-nil m) at
        (key_verify_msg-read w rx checks (length m) true msg [] (Stream.reading w rx (ok tt) c) a h)

  -- A handshake that fails. To a client whose service name or key the server does not accept it
  -- sends one message, and the connection ends without a change to any session, whatever else the
  -- client has sent. The client reads the text of that message, starts no call of `Connect`, and
  -- its `connect_network` returns the text as an error.
  pub handshake_refused :
      (rx' : ℕ → Bool) (o : Server.ServerOption) (s : World) (nanos : Option ℕ)
      (created : Result Controller) (c : Client) (peer now net watch : ℕ) (rest msg : List ℕ)
      (e : Error)
      → CanGreet w c
      → refusal o c ≡ some (msg, e)
      → is_connect c ≡ false
      → (input_event w o rx' (ok tt) checks s nanos created peer now (hello w c ++ rest)
          ≡ some (record {
            world = s;
            out = key_verify_msg w true msg ∷ [];
            jobs = [];
            events = [];
            result = ok tt;
          }))
        × (read_buffer w rx (ok tt) checks (key_verify_msg w true msg) c
            ≡ some (
              record (Stream.reading w rx (ok tt) c) {
                has_set_connect = false;
                told = (false, msg) ∷ [];
              },
              ok tt,
            ))
        × ((connect_network c watch (some (ok net)) (some (false, msg))).1
            ≡ err (connect_error msg))
  unfolding input_event connect_network
  handshake_refused rx' o s nanos created c peer now net watch rest msg e g why down =
      let (a, h) = refusal_text o c msg e why in
      (
        rw (get_peer_token-hello w o s nanos created c rest g, why) refl,
        read_buffer-refused msg c a h,
        rw down refl,
      )
