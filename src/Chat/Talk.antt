-- ===== src/Chat/Talk.antt =====
-- Who gets the messages of `talk` and `to` in examples/msg/msgserver/src/controller.rs.
use rust_netx.Prelude.{
  ap, inl, inr, ℕ, ◌≡◌, ◌≢◌, ◌↔◌, ◌⊎◌, refl, true, false, Option, none, some, List, [], ◌∷◌, ◌++◌,
  ◌==◌, ==_iff, Bool-cases, Option-cases,
}
use rust_netx.Wire.{Result, ok, err, panic}
use rust_netx.Token.{send}
use rust_netx.Manager.{World, token_get_token, get_token}
use rust_netx.Chat.{
  User, find, find_by_nickname, Fault, not_login, Reply, done, fault, Message, say, message,
  delivered, talk_to, or_fault, not_found, ◌>>=◌, talk_loop, talk, target, tell, Spoken,
}
use mathlib.Core.List.{Memᴰ}
use mathlib.Core.List.Memᴰ

module _ (w : World) where
  -- A user of another session than the speaker's, whose token stands at `a` and has a peer.
  pub record Hears (from u : User) (a : ℕ) : Type 0 where
    pub other : u.session_id ≢ from.session_id
    pub token : get_token w u.session_id ≡ some a
    pub peer : ℕ
    pub connected : send (w.tokens a) ≡ ok peer

  -- The messages are those to the users that hear, each as the speaker said it.
  pub record Reaches (from : User) (msg : List ℕ) (us : List User) (sent : List Message)
      : Type 0 where
    pub each : (u : User) (a : ℕ) → Memᴰ u us → Hears from u a → Memᴰ (say from msg false a) sent
    pub only :
        (m : Message)
        → Memᴰ m sent
        → (u : User) × (a : ℕ) × Memᴰ u us × Hears from u a × (m ≡ say from msg false a)

  Reaches-none : (from : User) (msg : List ℕ) → Reaches from msg [] []
  Reaches-none from msg = record {
    each = λ u a h hears. absurd (Memᴰ.not-nil h);
    only = λ m h. absurd (Memᴰ.not-nil h);
  }

  Reaches-passed :
      (from u : User) (msg : List ℕ) (us : List User) (sent : List Message)
      → ((a : ℕ) → Hears from u a → ⊥)
      → Reaches from msg us sent
      → Reaches from msg (u ∷ us) sent
  Reaches-passed from u msg us sent deaf h = record {
    each = λ v a m hears. elim (Memᴰ.cases_cons m) [
      | inl e ↦ absurd (deaf a (rw⁻¹ e hears))
      | inr m' ↦ h.each v a m' hears
    ];
    only = λ m mem. let (v, a, m', hears, e) = h.only m mem in (v, a, Memᴰ.tail m', hears, e);
  }

  Reaches-said :
      (from u : User) (msg : List ℕ) (us : List User) (sent : List Message) (a : ℕ)
      → Hears from u a
      → Reaches from msg us sent
      → Reaches from msg (u ∷ us) (say from msg false a ∷ sent)
  Reaches-said from u msg us sent a hears h = record {
    each = λ v b m heard. elim (Memᴰ.cases_cons m) [
      | inl e ↦ Memᴰ.head (cc (hears.token, (rw e at heard).token))
      | inr m' ↦ Memᴰ.tail (h.each v b m' heard)
    ];
    only = λ m mem. elim (Memᴰ.cases_cons mem) [
      | inl e ↦ (u, a, Memᴰ.head refl, hears, e)
      | inr mem' ↦ let (v, b, m', heard, e) = h.only m mem' in (v, b, Memᴰ.tail m', heard, e)
    ];
  }

  no_peer :
      (from u : User) (a : ℕ) (x : Result ℕ)
      → get_token w u.session_id ≡ some a
      → send (w.tokens a) ≡ x
      → ((p : ℕ) → x ≢ ok p)
      → (b : ℕ) → Hears from u b
      → ⊥
  no_peer from u a x found e down b hears =
      let same : a ≡ b = cc (found, hears.token) in
      down hears.peer (cc (ap (λ i. send (w.tokens i)) same, e, hears.connected))

  -- A user with a token gets the message if the token has a peer.
  Reaches-heard :
      (from u : User) (msg : List ℕ) (us : List User) (sent : List Message) (a : ℕ)
      → u.session_id ≢ from.session_id
      → get_token w u.session_id ≡ some a
      → (x : Result ℕ) → send (w.tokens a) ≡ x
      → Reaches from msg us sent
      → Reaches from msg (u ∷ us) (delivered x (say from msg false a) ++ sent)
  Reaches-heard from u msg us sent a other found (ok p) e h =
      Reaches-said from u msg us sent a
        (record { other = other; token = found; peer = p; connected = e }) h
  Reaches-heard from u msg us sent a other found (err x) e h =
      Reaches-passed from u msg us sent (no_peer from u a (err x) found e (λ p q. absurd cc)) h
  Reaches-heard from u msg us sent a other found panic e h =
      Reaches-passed from u msg us sent (no_peer from u a panic found e (λ p q. absurd cc)) h

  talk_loop_own :
      (from u : User) (msg : List ℕ) (us : List User)
      → (u.session_id == from.session_id) ≡ true
      → talk_loop (some w) from msg (u ∷ us) ≡ talk_loop (some w) from msg us
  unfolding talk_loop
  talk_loop_own from u msg us own = rw own refl

  talk_loop_other :
      (from u : User) (msg : List ℕ) (us : List User)
      → (u.session_id == from.session_id) ≡ false
      → talk_loop (some w) from msg (u ∷ us)
        ≡ talk_to (some w) from msg (ok (get_token w u.session_id)) (talk_loop (some w) from msg us)
  unfolding talk_loop token_get_token
  talk_loop_other from u msg us other = rw other refl

  abbrev pub AllReached : User → List ℕ → List User → Spoken → Type 0
  AllReached from msg us r = Reaches from msg us r.0 × (r.1 ≡ done tt)

  talk_loop-AllReached :
      (from : User) (msg : List ℕ) (us : List User)
      → AllReached from msg us (talk_loop (some w) from msg us)
  unfolding talk_loop
  talk_loop-AllReached from msg [] = (Reaches-none from msg, refl)
  talk_loop-AllReached from msg (u ∷ us) =
      let rest = talk_loop (some w) from msg us in
      let (below, finished) = talk_loop-AllReached from msg us in
      elim (Bool-cases (u.session_id == from.session_id)) [
        | inl own ↦ rw (talk_loop_own from u msg us own) (
          Reaches-passed from u msg us rest.0
              (λ a hears. hears.other ((==_iff u.session_id from.session_id).0 own)) below,
          finished,
        )
        | inr other ↦
            rw (talk_loop_other from u msg us other)
              (elim (Option-cases (get_token w u.session_id)) [
                | inl gone ↦ rw gone (
                  Reaches-passed from u msg us rest.0 (λ a hears. cc (hears.token, gone)) below,
                  finished,
                )
                | inr (a, found) ↦ rw found (
                  Reaches-heard from u msg us rest.0 a
                      (λ e. cc (other, (==_iff u.session_id from.session_id).1 e)) found
                      (send (w.tokens a)) refl below,
                  finished,
                )
              ])
      ]

  -- While the server is up, what a logged-in session says reaches those users of other sessions
  -- whose session has a token with a peer, each at its token, with the speaker's nickname and the
  -- text; nobody else gets it, and `talk` succeeds. A session that is not logged in sends nothing and gets the
  -- error "not login".
  pub talk-Reaches :
      (users : List User) (session_id : ℕ) (msg : List ℕ)
      → let r = talk (some w) users session_id msg in
        ((from : User) × (find users session_id ≡ some from) × AllReached from msg users r)
        ⊎ ((find users session_id ≡ none) × (r ≡ ([], fault not_login)))
  unfolding talk
  talk-Reaches users session_id msg = elim (Option-cases (find users session_id)) [
    | inl absent ↦ inr (absent, rw absent refl)
    | inr (from, found) ↦ inl (from, found, rw found (talk_loop-AllReached from msg users))
  ]

>>=-eq-done :
    {A B : Type 0} (r : Reply A) (f : A → Reply B) {b : B}
    → (r >>= f) ≡ done b
    → (a : A) × (r ≡ done a) × (f a ≡ done b)
>>=-eq-done (done a) f h = (a, refl, h)
>>=-eq-done (fault x) f h = absurd cc

or_fault-eq-done :
    {A : Type 0} (x : Fault) (o : Option A) {a : A} → or_fault x o ≡ done a → o ≡ some a
or_fault-eq-done x (some a) h = cc
or_fault-eq-done x none h = absurd cc

-- What `to` needs to send `m`: the caller is logged in, the nickname is that of a user, and the
-- session of that user has a token, whose peer, if it has one, gets the caller's nickname and the
-- text.
pub record Delivers (w : World) (users : List User) (session_id : ℕ) (nickname msg : List ℕ)
    (sent : List Message) : Type 0 where
  pub from : User
  pub user : User
  pub token : ℕ
  pub logged_in : find users session_id ≡ some from
  pub named : find_by_nickname users nickname ≡ some user
  pub online : get_token w user.session_id ≡ some token
  pub said : sent ≡ message (some w) (say from msg true token)

-- While the server is up, `to` succeeds exactly when the caller is logged in, the nickname is that of
-- some user, and the session of the first such user has a token. One message goes to that token, with
-- the caller's nickname and the text, if the token has a peer, and none if it has not.
pub tell_iff :
    (w : World) (users : List User) (session_id : ℕ) (nickname msg : List ℕ) (sent : List Message)
    → (tell (some w) users session_id nickname msg ≡ done sent)
      ↔ Delivers w users session_id nickname msg sent
unfolding tell target token_get_token
tell_iff w users session_id nickname msg sent = (forth, back)
  where
    back :
        Delivers w users session_id nickname msg sent
        → tell (some w) users session_id nickname msg ≡ done sent
    back d = rw (d.logged_in, d.named, d.online) (cc (d.said))

    forth :
        tell (some w) users session_id nickname msg ≡ done sent
        → Delivers w users session_id nickname msg sent
    forth h =
        let ((from, token), e, h1) = >>=-eq-done (target (some w) users session_id nickname) _ h in
        let (from', e1, h2) = >>=-eq-done (or_fault not_login (find users session_id)) _ e in
        let (user, e2, h3) =
          >>=-eq-done (or_fault (not_found nickname) (find_by_nickname users nickname)) _ h2 in
        let (found, e3, h4) =
          >>=-eq-done (or_fault (not_found nickname) (get_token w user.session_id)) _ h3 in
        record {
          from = from';
          user = user;
          token = found;
          logged_in = or_fault-eq-done not_login _ e1;
          named = or_fault-eq-done (not_found nickname) _ e2;
          online = or_fault-eq-done (not_found nickname) _ e3;
          said = cc (h1, h4);
        }
