-- ===== src/Chat/Races.antt =====
-- What `login` and `close` of examples/msg/msgserver/src/controller.rs do to the users of
-- user_manager.rs: alone, and where another task comes between the two calls of `login`.
use rust_netx.Prelude.{
  inl, inr, ℕ, ◌≡◌, ◌≢◌, ◌⊎◌, refl, true, false, none, some, List, [], ◌∷◌, arith, bytes_eq,
  bytes_eq_iff, ==-refl, Bool-cases,
}
use rust_netx.Chat.{
  User, check_nickname, add, find, find_by_nickname, remove, close, login, LogOnRes, accepted,
  refused,
}
use rust_netx.Chat.Logins.{Room, checks, adds, Steps, start, next, check_nickname-add}

abbrev pub user_of : ℕ → List ℕ → User
user_of s n = record { nickname = n; session_id = s }

find_by_nickname-add :
    (us : List User) (u : User)
    → check_nickname us u.nickname ≡ true
    → find_by_nickname (add us u) u.nickname ≡ some u
unfolding check_nickname find_by_nickname add
find_by_nickname-add [] u free = rw ((bytes_eq_iff u.nickname u.nickname).1 refl) refl
find_by_nickname-add (v ∷ us) u free = ground (arith, find_by_nickname-add us u)

find_by_nickname_stays :
    (us : List User) (u v : User) (n : List ℕ)
    → find_by_nickname us n ≡ some u
    → find_by_nickname (add us v) n ≡ some u
unfolding find_by_nickname add
find_by_nickname_stays [] u v n h = cc
find_by_nickname_stays (x ∷ us) u v n h = ground (arith, find_by_nickname_stays us u v n)

find_by_nickname_taken :
    (us : List User) (n : List ℕ)
    → check_nickname us n ≡ false
    → (u : User) × (find_by_nickname us n ≡ some u)
unfolding check_nickname find_by_nickname
find_by_nickname_taken [] n h = absurd cc
find_by_nickname_taken (u ∷ us) n h = elim (Bool-cases (bytes_eq u.nickname n)) [
  | inl same ↦ (u, rw same refl)
  | inr other ↦ rw other (find_by_nickname_taken us n (rw other at h))
]

find-add :
    (us : List User) (u : User)
    → find us u.session_id ≡ none
    → find (add us u) u.session_id ≡ some u
unfolding find add
find-add [] u h = rw (==-refl u.session_id) refl
find-add (v ∷ us) u h = ground (arith, find-add us u)

close_absent : (us : List User) (s : ℕ) → find us s ≡ none → close us s ≡ us
unfolding find close remove
close_absent [] s h = refl
close_absent (u ∷ us) s h = ground (arith, close_absent us s)

close-add :
    (us : List User) (u : User) → find us u.session_id ≡ none → close (add us u) u.session_id ≡ us
unfolding find close remove add
close-add [] u h = ground (arith, ==-refl u.session_id)
close-add (v ∷ us) u h = ground (arith, close-add us u)

login_free :
    (us : List User) (s : ℕ) (n : List ℕ)
    → check_nickname us n ≡ true
    → login us s n ≡ (add us (user_of s n), accepted)
unfolding login
login_free us s n h = rw h refl

login_taken :
    (us : List User) (s : ℕ) (n : List ℕ)
    → check_nickname us n ≡ false
    → login us s n ≡ (us, refused)
unfolding login
login_taken us s n h = rw h refl

-- What the caller of `login` sees: the new user is found by its session and by its nickname, or the
-- nickname is somebody's and nothing changes.
abbrev pub Answered : List User → ℕ → List ℕ → List User × LogOnRes → Type 0
Answered us s n (us', answer) =
    (answer ≡ accepted)
      × (find us' s ≡ some (user_of s n))
      × (find_by_nickname us' n ≡ some (user_of s n))
    ⊎ (answer ≡ refused) × (us' ≡ us) × (u : User) × (find_by_nickname us n ≡ some u)

login-Answered :
    (us : List User) (s : ℕ) (n : List ℕ) → find us s ≡ none → Answered us s n (login us s n)
login-Answered us s n absent = elim (Bool-cases (check_nickname us n)) [
  | inl free ↦
      rw (login_free us s n free)
        (inl (refl, find-add us (user_of s n) absent, find_by_nickname-add us (user_of s n) free))
  | inr taken ↦
      let (u, found) = find_by_nickname_taken us n taken in
      rw (login_taken us s n taken) (inr (refl, refl, u, found))
]

close-login :
    (us : List User) (s : ℕ) (n : List ℕ) → find us s ≡ none → close (login us s n).0 s ≡ us
close-login us s n absent = elim (Bool-cases (check_nickname us n)) [
  | inl free ↦ rw (login_free us s n free) (close-add us (user_of s n) absent)
  | inr taken ↦ rw (login_taken us s n taken) (close_absent us s absent)
]

-- A login with no other call between its two, of a session that is not logged in, either finds its
-- nickname free, and the new user is then found both by the session and by the nickname, or finds
-- it taken by some user, and is refused with no change. Either way the close of the session gives
-- back the users of before.
pub login_then_close :
    (us : List User) (s : ℕ) (n : List ℕ)
    → find us s ≡ none
    → Answered us s n (login us s n) × (close (login us s n).0 s ≡ us)
login_then_close us s n absent = (login-Answered us s n absent, close-login us s n absent)

close-add_two :
    (us : List User) (u v : User)
    → u.session_id ≡ v.session_id
    → find us u.session_id ≡ none
    → close (add (add us u) v) u.session_id ≡ add us v
unfolding find close remove add
close-add_two [] u v same h = ground (arith, ==-refl u.session_id)
close-add_two (x ∷ us) u v same h = ground (arith, close-add_two us u v)

-- A session that logs in under two free nicknames has two users, since `login` does not look
-- whether it is logged in. Its close takes the first away and leaves the second, whose nickname
-- then stays taken.
pub second_login_stays :
    (us : List User) (s : ℕ) (n m : List ℕ)
    → find us s ≡ none
    → check_nickname us n ≡ true
    → check_nickname us m ≡ true
    → n ≢ m
    → (close (login (login us s n).0 s m).0 s ≡ add us (user_of s m))
      × (check_nickname (close (login (login us s n).0 s m).0 s) m ≡ false)
second_login_stays us s n m absent free free' other =
    let u = user_of s n in
    let v = user_of s m in
    let same : bytes_eq n m ≡ false = ground (arith, bytes_eq_iff n m, other) in
    let still : check_nickname (add us u) m ≡ true =
      rw (check_nickname-add us u m, free', same) refl in
    let left : close (login (login us s n).0 s m).0 s ≡ add us v =
      rw (login_free us s n free)
        (rw (login_free (add us u) s m still) (close-add_two us u v refl absent)) in
    (left, rw left (rw (check_nickname-add us v m, free', (bytes_eq_iff m m).1 refl) refl))

-- Two sessions that log in under one free nickname both check it before either is added, and both
-- are accepted. The nickname is then not unique, and a search for it finds the one that was added
-- first.
pub logins_race :
    (us : List User) (s s' : ℕ) (n : List ℕ)
    → check_nickname us n ≡ true
    → let both = add (add us (user_of s n)) (user_of s' n) in
      Steps 2 (record { users = us; checked = [] }) (record { users = both; checked = [] })
      × (find_by_nickname both n ≡ some (user_of s n))
logins_race us s s' n free =
    let one = add us (user_of s n) in
    let r0 : Room = record { users = us; checked = [] } in
    let r1 : Room = record { users = us; checked = user_of s n ∷ [] } in
    let r2 : Room = record { users = us; checked = user_of s n ∷ user_of s' n ∷ [] } in
    let r3 : Room = record { users = one; checked = user_of s' n ∷ [] } in
    let s1 : Steps 2 r0 r1 = next start (checks (user_of s n) free) (omega arith) in
    let s2 : Steps 2 r0 r2 = next s1 (checks (user_of s' n) free) (omega arith) in
    let s3 : Steps 2 r0 r3 =
      next s2 (adds (user_of s n) [] (user_of s' n ∷ []) refl) (omega arith) in
    (
      next s3 (adds (user_of s' n) [] [] refl) (omega arith),
      find_by_nickname_stays one (user_of s n) (user_of s' n) n
          (find_by_nickname-add us (user_of s n) free),
    )
