-- ===== src/Token/Calls.antt =====
-- `call` of netx_server/src/server/async_token.rs up to its wait.
use rust_netx.Prelude.{ℕ, ◌≡◌, none, some, inl, inr, Option-cases}
use rust_netx.Prelude.Dict.{lookup, insert, contains_key}
use rust_netx.Prelude.Deadlines.{push_front}
use rust_netx.Wire.{ok}
use rust_netx.Token.{Token, register}

abbrev pub registered : Token → ℕ → ℕ → ℕ → Token
registered t serial tx now = record t {
  result_dict = insert serial tx t.result_dict;
  request_queue = push_front serial now t.request_queue;
}

-- A call that gets past the actor had a peer and a serial that was not pending; the new entries
-- are the only change.
pub register-eq-ok :
    (t t' : Token) (serial tx now p : ℕ)
    → register t serial tx now ≡ ok (t', p)
    → (lookup serial t.result_dict ≡ none) × (t.peer ≡ some p) × (t' ≡ registered t serial tx now)
unfolding register
register-eq-ok t t' serial tx now p h = elim (Option-cases t.peer) [
  | inl n ↦ cc (rw n at h)
  | inr (p', s) ↦ elim (Option-cases (lookup serial t.result_dict)) [
    | inl absent ↦ let q = rw (s, absent, contains_key, lookup) at h in (absent, cc, cc)
    | inr (c, there) ↦ cc (rw (s, there, contains_key, lookup) at h)
  ]
]
