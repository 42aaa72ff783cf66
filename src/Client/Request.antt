-- ===== src/Client/Request.antt =====
-- The `call!` macros of netx_client/src/client/impl_client.rs and the `call_peer!` macros of
-- netx_server/src/server/async_token.rs: the bytes of a request, and what becomes of the answer.
use rust_netx.Prelude.{ℕ, ◌%◌, ◌^◌, List, [], ◌∷◌, ◌++◌, length}
use rust_netx.Wire.{Wire, Reader, Result, ok, err, panic, ◌>>=◌, ◌>>◌}
use rust_netx.Wire.Frame.{patch_len}
use rust_netx.RetResult.{RetResult, check, deserialize}

-- `$(data.pack_serialize($args)?;)*`: an argument is what its serializer makes of it.
unfoldable pub pack_all : List (Result (List ℕ)) → Result (List ℕ)
pack_all [] = ok []
pack_all (a ∷ as') = do b ← a; bs ← pack_all as'; ok (b ++ bs)

-- An error that is logged: the macro goes on.
abbrev pub logged : Result (Unit {0}) → Result (Unit {0})
logged panic = panic
logged (ok u) = ok u
logged (err e) = ok tt

-- `pack_serialize` with its errors logged: the argument is left out.
unfoldable pub pack_logged : List (Result (List ℕ)) → Result (List ℕ)
pack_logged [] = ok []
pack_logged (ok b ∷ as') = do bs ← pack_logged as'; ok (b ++ bs)
pack_logged (err e ∷ as') = pack_logged as'
pack_logged (panic ∷ as') = panic

module _ (w : Wire) where
  -- What is written before the arguments, and then they.
  unfoldable pub request : ℕ → ℕ → ℕ → ℕ → List ℕ → List ℕ
  request type_tag cmd serial args_count packed =
      w.int 4 2400
      ++ (w.int 1 type_tag
          ++ (w.int 4 cmd ++ (w.int 8 serial ++ (w.int 4 (args_count % 2 ^ 32) ++ packed))))

  -- The buffer of `call!`.
  unfoldable pub call_data : ℕ → ℕ → ℕ → List (Result (List ℕ)) → Result (List ℕ)
  unfolding request pack_all
  call_data type_tag cmd serial args =
      pack_all args >>= λ packed. ok (request type_tag cmd serial (length args) packed)

  -- The buffer of `call_peer!`, with its length in front.
  unfoldable pub call_peer_data : ℕ → ℕ → ℕ → List (Result (List ℕ)) → Result (List ℕ)
  unfolding request pack_all
  call_peer_data type_tag cmd serial args = pack_all args >>= λ packed.
      ok (patch_len w (w.int 4 0 ++ request type_tag cmd serial (length args) packed))

  -- The buffers of `@run_not_err`, which have the count of all arguments.
  unfoldable pub logged_data : ℕ → ℕ → List (Result (List ℕ)) → Result (List ℕ)
  unfolding request pack_logged
  logged_data cmd serial args =
      pack_logged args >>= λ packed. ok (request 0 cmd serial (length args) packed)

  unfoldable pub logged_peer_data : ℕ → ℕ → List (Result (List ℕ)) → Result (List ℕ)
  unfolding logged_data
  logged_peer_data cmd serial args =
      logged_data cmd serial args >>= λ req. ok (patch_len w (w.int 4 0 ++ req))

-- `.await?.check()?` and then `ret.deserialize()?`.
unfoldable pub value_of {ℓ} : {V : Type ℓ} → (Reader → Result V) → Result RetResult → Result V
unfolding check deserialize
value_of pack_to answered = answered >>= check >>= deserialize pack_to

-- `@checkrun`
unfoldable pub checked : Result RetResult → Result (Unit {0})
unfolding check
checked answered = answered >>= check >> ok tt
