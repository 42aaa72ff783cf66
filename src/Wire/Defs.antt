-- ===== src/Wire/Defs.antt =====
-- The interface to `data_rw`, tokio and `bytes`, and the errors of the two crates
-- (netx_server/src/error.rs, netx_client/src/error.rs).
use rust_netx.Prelude.{
  ℕ, ◌+◌, ◌<◌, ◌^◌, ◌≡◌, ◌≢◌, refl, Bool, true, Option, none, some, List, ◌++◌, length, is_ascii,
}

-- `int n x` is `x` in `n` bytes, lowest first; a signed number is its bit pattern. `write_fixed`
-- of data_rw, `put_u32_le` and tokio's `read_*_le` agree on it. A read answers `none` when the
-- bytes do not hold the value.
pub record Wire : Type 0 where
  pub int : ℕ → ℕ → List ℕ
  pub read_int : ℕ → List ℕ → Option (ℕ × List ℕ)
  pub length-int : (n x : ℕ) → length (int n x) ≡ n
  pub read_int-int :
      (n x : ℕ) (rest : List ℕ) → x < 256 ^ n → read_int n (int n x ++ rest) ≡ some (x, rest)
  pub read_int_takes :
      (n : ℕ) (s rest : List ℕ) (x : ℕ) → read_int n s ≡ some (x, rest) → length s ≡ n + length rest
  pub write_bool : Bool → List ℕ
  pub read_bool : List ℕ → Option (Bool × List ℕ)
  pub length-write_bool : (b : Bool) → length (write_bool b) ≡ 1
  pub read_bool-write_bool :
      (b : Bool) (rest : List ℕ) → read_bool (write_bool b ++ rest) ≡ some (b, rest)
  -- A text or a byte vector is its length in 4 bytes and its bytes.
  pub write_bytes : List ℕ → List ℕ
  pub write_bytes_layout : (s : List ℕ) → length s < 2 ^ 32 → write_bytes s ≡ int 4 (length s) ++ s
  pub read_buf : List ℕ → Option (List ℕ × List ℕ)
  pub read_buf-write_bytes :
      (s rest : List ℕ) → length s < 2 ^ 32 → read_buf (write_bytes s ++ rest) ≡ some (s, rest)
  pub is_utf8 : List ℕ → Bool
  pub is_utf8_ascii : (s : List ℕ) → is_ascii s ≡ true → is_utf8 s ≡ true
  pub read_str : List ℕ → Option (List ℕ × List ℕ)
  pub read_str-write_bytes :
      (s rest : List ℕ)
      → is_utf8 s ≡ true
      → length s < 2 ^ 32
      → read_str (write_bytes s ++ rest) ≡ some (s, rest)
  pub from_utf8_lossy : List ℕ → List ℕ
  pub from_utf8_lossy_lem : (s : List ℕ) → is_utf8 s ≡ true → from_utf8_lossy s ≡ s

-- What an `anyhow` error says. `foreign` is an error that a controller or a library made.
pub data Message : Type 0 where
  not_verify_key : Message
  service_name_error : List ℕ → Message
  verify_key_error : List ℕ → Message
  controller_none : Message
  serial_is_have : Message
  not_connect : Message
  connect_timeout : Message
  cmd_tag_not_found : ℕ → Message
  tt_mismatch : ℕ → ℕ → Message
  args_len_error : Message
  foreign : ℕ → Message

-- The variants of the two `Error` enumerations.
pub data Error : Type 0 where
  anyhow : Message → Error
  io_error : Error
  net_error : Error
  watch_recv_error : Error
  connect_error : List ℕ → Error
  serial_close : ℕ → Error
  serial_time_out : ℕ → Error
  manager_upgrade_fail : Error
  serial_have : Error
  token_disconnect : ℕ → Error
  call_error : ℕ → List ℕ → Error

-- `panic` is the end of the task that runs the code.
pub data Result {ℓ} (A : Type ℓ) : Type ℓ where
  ok : A → Result A
  err : Error → Result A
  panic : Result A

infixl 5 ◌>>=◌ ◌>>◌
abbrev pub ◌>>=◌ {ℓ κ} : {A : Type ℓ} {B : Type κ} → Result A → (A → Result B) → Result B
panic >>= next = panic
err why >>= next = err why
ok x >>= next = next x

abbrev pub ◌>>◌ {ℓ κ} : {A : Type ℓ} {B : Type κ} → Result A → Result B → Result B
m >> k = m >>= λ _. k

pub bind-ne-panic {ℓ κ} :
    {A : Type ℓ} {B : Type κ} (m : Result A) (f : A → Result B)
    → m ≢ panic
    → ((a : A) → f a ≢ panic)
    → (m >>= f) ≢ panic
bind-ne-panic (ok a) f h k e = k a e
bind-ne-panic (err x) f h k e = cc
bind-ne-panic panic f h k e = h refl

-- The parts of a chain that succeeds.
pub >>=-eq-ok {ℓ κ} :
    {A : Type ℓ} {B : Type κ} {y : B} (first : Result A) (next : A → Result B)
    → (first >>= next) ≡ ok y
    → (x : A) × (first ≡ ok x) × (next x ≡ ok y)
>>=-eq-ok panic next e = cc
>>=-eq-ok (err why) next e = cc
>>=-eq-ok (ok x) next e = (x, refl, e)

-- A read that fails is an io error.
abbrev pub or_io {ℓ} : {A : Type ℓ} → Option A → Result A
or_io (some a) = ok a
or_io none = err io_error

-- A `DataOwnedReader`: the whole buffer, and the part that has not been read.
pub record Reader : Type 0 where
  pub inner : List ℕ
  pub unread : List ℕ

-- `DataOwnedReader::new`
abbrev pub reader : List ℕ → Reader
reader buff = record { inner = buff; unread = buff }

pub or_io-eq-ok {ℓ} : {A : Type ℓ} (o : Option A) {a : A} → or_io o ≡ ok a → o ≡ some a
or_io-eq-ok (some b) h = cc
or_io-eq-ok none h = cc
