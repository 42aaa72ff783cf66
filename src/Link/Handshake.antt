-- ===== src/Link/Handshake.antt =====
-- The handshake: the credentials of the client's `get_verify_buff` at the server's
-- `get_peer_token`, and the answers of the server at the client's `read_buffer`.
pub mod Outcome
use rust_netx.Prelude.{
  Bool-cases, Option-cases, inl, inr, ℕ, suc, ◌+◌, ◌-◌, ◌<◌, ◌^◌, ◌≡◌, refl, ap, Bool, true, false,
  Option, none, some, List, [], ◌∷◌, ◌++◌, arith, length, length-append, append_assoc, append-nil,
  codes, if◌then◌else◌, is_ascii,
}
use rust_netx.Wire.{
  Wire, reader, Error, Result, ok, err, anyhow, service_name_error, verify_key_error, ◌>>=◌,
}
use rust_netx.Wire.Frame.{frame}
use rust_netx.Wire.Frame.Laws.{patch_len-frame, read_string-write_bytes}
use rust_netx.Token.{Controller}
use rust_netx.Manager.{World}
use rust_netx.Server
use rust_netx.Server.{
  check_credentials, differs, refused, accepted, Verdict, key_verify_msg, session_id_msg,
  open_session, get_peer_token, attach, data_reading,
}
use rust_netx.Client.{Client, get_verify_buff, get_session_id_buff, set_mode, store_session_id}
use rust_netx.Client.Stream
use rust_netx.Client.Stream.{next, breaks, Flow, take_connect, refuse, read_buffer}
use rust_netx.Client.Served.{read_loop-frame}

-- The client's credentials can be written and come back whole.
pub record CanGreet (w : Wire) (c : Client) : Type 0 where
  pub name_utf8 : w.is_utf8 (c.server_info).service_name ≡ true
  pub name_fits : length (c.server_info).service_name < 2 ^ 32
  pub key_utf8 : w.is_utf8 (c.server_info).verify_key ≡ true
  pub key_fits : length (c.server_info).verify_key < 2 ^ 32
  pub session_fits : c.session_id < 2 ^ 64

-- Why the server refuses a client, if it does: its text and its error.
unfoldable pub refusal : Server.ServerOption → Client → Option (List ℕ × Error)
refusal o c =
    let name = (c.server_info).service_name in
    if differs o.service_name name
    then some (codes "service name error", anyhow (service_name_error name))
    else if differs o.verify_key (c.server_info).verify_key
    then some (codes "service verify key error", anyhow (verify_key_error name))
    else none

module _ (w : Wire) where
  abbrev pub hello : Client → List ℕ
  hello c = get_verify_buff w (c.server_info).service_name (c.server_info).verify_key c.session_id

  check_credentials-hello :
      (o : Server.ServerOption) (c : Client) (rest : List ℕ)
      → CanGreet w c
      → check_credentials w o (hello c ++ rest) ≡ (elim (refusal o c) [
        | some (msg, e) ↦ refused msg e
        | none ↦ accepted (w.int 8 c.session_id ++ rest)
      ])
  unfolding check_credentials get_verify_buff refusal
  check_credentials-hello o c rest h =
      let name = w.write_bytes (c.server_info).service_name in
      let key = w.write_bytes (c.server_info).verify_key in
      let id = w.int 8 c.session_id in
      rw
        (
          append_assoc (w.int 4 1000) (name ++ (key ++ id)) rest,
          w.read_int-int 4 1000 ((name ++ (key ++ id)) ++ rest) (omega arith),
          append_assoc name (key ++ id) rest,
          read_string-write_bytes w (c.server_info).service_name ((key ++ id) ++ rest) h.name_utf8
              h.name_fits,
          append_assoc key id rest,
          read_string-write_bytes w (c.server_info).verify_key (id ++ rest) h.key_utf8 h.key_fits,
        )
        (ground arith)

  -- The server answers credentials that the client can write with one message. It refuses exactly
  -- a service name or key that differs from the one it is set to, where it is set to one, and
  -- reads no session id then; otherwise it goes on with the session that the client asked for.
  pub get_peer_token-hello :
      (o : Server.ServerOption) (s : World) (nanos : Option ℕ) (created : Result Controller)
      (c : Client) (rest : List ℕ)
      → CanGreet w c
      → get_peer_token w o s nanos created (ok tt) (hello c ++ rest) ≡ (elim (refusal o c) [
        | some (msg, e) ↦ (key_verify_msg w true msg ∷ [], err e)
        | none ↦ (
          key_verify_msg w false (codes "verify success") ∷ [],
          open_session s nanos created c.session_id >>= λ p. ok (p.0, p.1, rest),
        )
      ])
  unfolding get_peer_token
  get_peer_token-hello o s nanos created c rest h =
      rw (check_credentials-hello o c rest h) (elim (Option-cases (refusal o c)) [
        | inl ok_now ↦
            let e = w.read_int-int 8 c.session_id rest h.session_fits in
            rw ok_now (rw e (ground (arith)))
        | inr ((msg, e), why) ↦ rw why refl
      ])

  -- The body of a `key_verify_msg`.
  abbrev pub verdict_body : Bool → List ℕ → List ℕ
  verdict_body is_err msg =
      w.int 4 1000 ++ (w.write_bool is_err ++ (w.write_bytes msg ++ w.int 1 1))

  key_verify_msg-frame :
      (is_err : Bool) (msg : List ℕ)
      → key_verify_msg w is_err msg ≡ frame w (verdict_body is_err msg)
  unfolding key_verify_msg
  key_verify_msg-frame is_err msg = patch_len-frame w (verdict_body is_err msg)

  verdict_fits :
      (is_err : Bool) (msg : List ℕ)
      → length msg < 2 ^ 31
      → length (verdict_body is_err msg) + 4 < 2 ^ 32
  verdict_fits is_err msg h = omega (
    arith,
    length-append (w.int 4 1000) (w.write_bool is_err ++ (w.write_bytes msg ++ w.int 1 1)),
    length-append (w.write_bool is_err) (w.write_bytes msg ++ w.int 1 1),
    length-append (w.write_bytes msg) (w.int 1 1),
    ap length (w.write_bytes_layout msg (omega arith)),
    length-append (w.int 4 (length msg)) msg,
    w.length-int 4 1000,
    w.length-int 4 (length msg),
    w.length-int 1 1,
    w.length-write_bool is_err,
  )

  module _ (rx : ℕ → Bool) where
    -- A client that is accepted takes mode 1, asks for its session id and starts the task that
    -- calls `Connect`, once.
    abbrev pub greeted : Stream.Reading → Stream.Reading
    greeted r =
        take_connect w rx (ok tt)
          (record r { client = set_mode r.client 1; out = r.out ++ (get_session_id_buff w 1 ∷ []) })

    on_verdict :
        (is_err : Bool) (msg : List ℕ) (r : Stream.Reading)
        → is_ascii msg ≡ true
        → length msg < 2 ^ 31
        → Stream.on_frame w rx (ok tt) r (reader (verdict_body is_err msg))
          ≡ (if is_err then refuse w rx (ok tt) r msg else (greeted r, next))
    unfolding Stream.on_frame set_mode
    on_verdict is_err msg r a h =
        let tail = w.write_bytes msg ++ w.int 1 1 in
        let one = rw (append-nil (w.int 1 1)) at (w.read_int-int 1 1 [] (omega arith)) in
        let fits : length msg < 2 ^ 32 = omega arith in
        let str = w.read_str-write_bytes msg (w.int 1 1) (w.is_utf8_ascii msg a) fits in
        let whole = length (verdict_body is_err msg) in
        let left : whole - (whole - length (w.int 1 1)) ≡ 1 = omega (
          arith,
          length-append (w.int 4 1000) (w.write_bool is_err ++ tail),
          length-append (w.write_bool is_err) tail,
          length-append (w.write_bytes msg) (w.int 1 1),
          w.length-int 1 1,
        ) in
        rw
          (
            w.read_int-int 4 1000 (w.write_bool is_err ++ tail) (omega arith),
            w.read_bool-write_bool is_err tail,
            str,
          )
          (elim (Bool-cases is_err) [
            | inl e ↦ rw e refl
            | inr e ↦ let left' = rw e at left in rw e (rw (left', one) refl)
          ])

    pub key_verify_msg-read :
        (checks : Bool) (fuel : ℕ) (is_err : Bool) (msg rest : List ℕ) (r : Stream.Reading)
        → is_ascii msg ≡ true
        → length msg < 2 ^ 31
        → Stream.read_loop w rx (ok tt) checks (suc fuel) (key_verify_msg w is_err msg ++ rest) r
          ≡ Stream.continue w rx
              (ok tt)
              (Stream.read_loop w rx (ok tt) checks fuel)
              rest
              (if is_err then refuse w rx (ok tt) r msg else (greeted r, next))
    key_verify_msg-read checks fuel is_err msg rest r a h = rw (key_verify_msg-frame is_err msg) (
        rw (on_verdict is_err msg r a h) at (
          read_loop-frame w rx (ok tt) checks fuel (verdict_body is_err msg) rest r
            (verdict_fits is_err msg h)))

    pub session_id_msg-read :
        (checks : Bool) (fuel : ℕ) (session_id : ℕ) (rest : List ℕ) (r : Stream.Reading)
        → session_id < 2 ^ 64
        → Stream.read_loop w rx (ok tt) checks (suc fuel) (session_id_msg w session_id ++ rest) r
          ≡ Stream.read_loop w rx
              (ok tt)
              checks
              fuel
              rest
              (record r { client = store_session_id r.client session_id })
    unfolding session_id_msg Stream.on_frame
    session_id_msg-read checks fuel session_id rest r h =
        let body = w.int 4 2000 ++ w.int 8 session_id in
        let fits : length body + 4 < 2 ^ 32 = omega (
          arith,
          length-append (w.int 4 2000) (w.int 8 session_id),
          w.length-int 4 2000,
          w.length-int 8 session_id,
        ) in
        let id = rw (append-nil (w.int 8 session_id)) at (w.read_int-int 8 session_id [] h) in
        rw (patch_len-frame w body, read_loop-frame w rx (ok tt) checks fuel body rest r fits)
          (rw (w.read_int-int 4 2000 (w.int 8 session_id) (omega arith), id) refl)
