-- ===== src/Chat.antt =====
-- The chat server of examples/msg/msgserver/src: user_manager.rs, and the methods of controller.rs.
-- The manager is shared by all sessions, so a method takes its users and returns them.
pub mod Logins
pub mod Races
pub mod Talk
mod Tests
use rust_netx.Prelude.{
  ℕ, ◌==◌, Bool, true, false, not, Option, none, some, List, [], ◌∷◌, ◌++◌, bytes_eq, codes,
  if◌then◌else◌,
}
use rust_netx.Wire.{Error, Result, ok, err, panic}
use rust_netx.Token.{send}
use rust_netx.Manager.{World, token_get_token}

-- examples/msg/packer/src/lib.rs
pub record User : Type 0 where
  pub nickname : List ℕ
  pub session_id : ℕ

pub record LogOnRes : Type 0 where
  pub success : Bool
  pub msg : List ℕ

unfoldable pub check_nickname : List User → List ℕ → Bool
check_nickname [] nickname = true
check_nickname (user ∷ users) nickname =
    if bytes_eq user.nickname nickname then false else check_nickname users nickname

unfoldable pub add : List User → User → List User
add users user = users ++ (user ∷ [])

unfoldable pub find : List User → ℕ → Option User
find [] session_id = none
find (user ∷ users) session_id =
    if user.session_id == session_id then some user else find users session_id

unfoldable pub find_by_nickname : List User → List ℕ → Option User
find_by_nickname [] nickname = none
find_by_nickname (user ∷ users) nickname =
    if bytes_eq user.nickname nickname then some user else find_by_nickname users nickname

-- The users that are left, and the one that was removed: the first of the session.
unfoldable pub remove : List User → ℕ → List User × Option User
remove [] session_id = ([], none)
remove (user ∷ users) session_id =
    let rest = remove users session_id in
    if user.session_id == session_id then (users, some user) else (user ∷ rest.0, rest.1)

-- Why a method of the controller fails.
pub data Fault : Type 0 where
  not_login : Fault
  not_found : List ℕ → Fault
  failed : Error → Fault
  panicked : Fault

pub data Reply (A : Type 0) : Type 0 where
  done : A → Reply A
  fault : Fault → Reply A

infixl 5 ◌>>=◌
abbrev pub ◌>>=◌ : {A B : Type 0} → Reply A → (A → Reply B) → Reply B
done a >>= f = f a
fault x >>= f = fault x

-- `.context(..)?` on an Option, and `?` on a result.
abbrev pub or_fault : {A : Type 0} → Fault → Option A → Reply A
or_fault x (some a) = done a
or_fault x none = fault x

abbrev lifted : {A : Type 0} → Result A → Reply A
lifted (ok a) = done a
lifted (err e) = fault (failed e)
lifted panic = fault panicked

-- `close`
unfoldable pub close : List User → ℕ → List User
unfolding remove
close users session_id = (remove users session_id).0

-- The two actor calls of `login`, which other tasks may come between: the answer where the nickname
-- is taken, and the new user.
abbrev pub refused : LogOnRes
refused = record { success = false; msg = codes "nickname is use" }

abbrev pub accepted : LogOnRes
accepted = record { success = true; msg = codes "login ok" }

-- `login` where no other task comes between its two calls.
unfoldable pub login : List User → ℕ → List ℕ → List User × LogOnRes
unfolding check_nickname add
login users session_id nickname =
    if check_nickname users nickname
    then (add users (record { nickname = nickname; session_id = session_id }), accepted)
    else (users, refused)

-- A call of the client's `message` through the token at an address. It has no answer.
pub record Message : Type 0 where
  pub to : ℕ
  pub nickname : List ℕ
  pub msg : List ℕ
  pub to_me : Bool

abbrev pub say : User → List ℕ → Bool → ℕ → Message
say from msg to_me token = record { to = token; nickname = from.nickname; msg = msg; to_me = to_me }

abbrev pub Spoken : Type 0
Spoken = List Message × Reply (Unit {0})

-- `peer.message(..)`, whose stub is `call_peer!(@run_not_err ..)`: a token without a peer gets nothing,
-- and its error is only logged.
abbrev pub delivered : Result ℕ → Message → List Message
delivered (ok peer) m = m ∷ []
delivered (err e) m = []
delivered panic m = []

abbrev pub message : Option World → Message → List Message
message (some w) m = delivered (send (w.tokens m.to)) m
message none m = []

module _ (manager : Option World) where
  -- What one user's token makes of the loop of `talk`. An error ends it behind the messages that were
  -- sent before.
  abbrev pub talk_to : User → List ℕ → Result (Option ℕ) → Spoken → Spoken
  talk_to from msg (ok (some token)) (sent, r) =
      (message manager (say from msg false token) ++ sent, r)
  talk_to from msg (ok none) rest = rest
  talk_to from msg (err e) rest = ([], fault (failed e))
  talk_to from msg panic rest = ([], fault panicked)

  unfoldable pub talk_loop : User → List ℕ → List User → Spoken
  unfolding token_get_token send
  talk_loop from msg [] = ([], done tt)
  talk_loop from msg (user ∷ others) =
      let rest = talk_loop from msg others in
      if user.session_id == from.session_id
      then rest
      else talk_to from msg (token_get_token manager user.session_id) rest

  abbrev pub talk_as : List ℕ → List User → Option User → Spoken
  talk_as msg users (some from) = talk_loop from msg users
  talk_as msg users none = ([], fault not_login)

  unfoldable pub talk : List User → ℕ → List ℕ → Spoken
  unfolding find talk_loop
  talk users session_id msg = talk_as msg users (find users session_id)

  -- The chain that `to` and `ping` share: the caller's user and the token of the target.
  unfoldable pub target : List User → ℕ → List ℕ → Reply (User × ℕ)
  unfolding find find_by_nickname token_get_token
  target users session_id nickname = do
    from ← or_fault not_login (find users session_id)
    user ← or_fault (not_found nickname) (find_by_nickname users nickname)
    found ← lifted (token_get_token manager user.session_id)
    token ← or_fault (not_found nickname) found
    done (from, token)

  -- `to`
  unfoldable pub tell : List User → ℕ → List ℕ → List ℕ → Reply (List Message)
  unfolding target send
  tell users session_id nickname msg =
      target users session_id nickname >>= λ r. done (message manager (say r.0 msg true r.1))

  -- `ping`: `peer_ping` is what the call of the client's `ping` gives.
  unfoldable pub ping : (ℕ → List ℕ → ℕ → Result ℕ) → List User → ℕ → List ℕ → ℕ → Reply ℕ
  unfolding target
  ping peer_ping users session_id nickname time =
      target users session_id nickname >>= λ r. lifted (peer_ping r.1 (r.0).nickname time)
