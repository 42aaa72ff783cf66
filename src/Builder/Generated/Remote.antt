-- ===== src/Builder/Generated/Remote.antt =====
-- A generated method of a caller against the generated controller at the other end.
use rust_netx.Prelude.{
  ℕ, ◌<◌, ◌^◌, ◌%◌, ◌≡◌, refl, some, List, [], ◌∷◌, ◌++◌, arith, length, map, append_assoc,
  append-nil, ==-refl, le→ltb,
}
use rust_netx.Wire.{Wire, Result, ok, >>=-eq-ok}
use rust_netx.Client.Request.{pack_all}
use rust_netx.Builder.{FuncInfo}
use rust_netx.Builder.Generated.{Pack, unpack_args, arm_result, arm, find_func, call_generated}

module _ {V : Type 0} (w : Wire) (p : Pack V) where
  -- The values fit the types of the parameters.
  abbrev pub HaveTypes : List V → List (List ℕ) → Type 0
  HaveTypes [] [] = Unit {0}
  HaveTypes [] (typ ∷ types) = ⊥
  HaveTypes (v ∷ vs) [] = ⊥
  HaveTypes (v ∷ vs) (typ ∷ types) = p.HasType v typ × HaveTypes vs types

  HaveTypes-length :
      (vs : List V) (types : List (List ℕ)) → HaveTypes vs types → length vs ≡ length types
  HaveTypes-length [] [] h = refl
  HaveTypes-length [] (typ ∷ types) h = absurd h
  HaveTypes-length (v ∷ vs) [] h = absurd h
  HaveTypes-length (v ∷ vs) (typ ∷ types) h = omega (arith, HaveTypes-length vs types h.1)

  unpack_args-pack_all :
      (vs : List V) (types : List (List ℕ)) (packed rest : List ℕ)
      → HaveTypes vs types
      → pack_all (map p.pack vs) ≡ ok packed
      → unpack_args w p types (packed ++ rest) ≡ ok (vs, rest)
  unfolding unpack_args pack_all
  unpack_args-pack_all [] [] packed rest h e = let q : [] ≡ packed = cc in rw⁻¹ q refl
  unpack_args-pack_all [] (typ ∷ types) packed rest h e = absurd h
  unpack_args-pack_all (v ∷ vs) [] packed rest h e = absurd h
  unpack_args-pack_all (v ∷ vs) (typ ∷ types) packed rest h e =
      let (b, eb, e1) = >>=-eq-ok (p.pack v) _ e in
      let (bs, ebs, e2) = >>=-eq-ok (pack_all (map p.pack vs)) _ e1 in
      let q : b ++ bs ≡ packed = cc e2 in
      rw⁻¹ q (
        rw
          (
            append_assoc b bs rest,
            p.unpack-pack v typ b (bs ++ rest) h.0 eb,
            unpack_args-pack_all vs types bs rest h.1 ebs,
          )
          refl)

  -- The generated controller, given the request of a generated method for a function of the same
  -- trait, runs that function with the values of the caller. The values have the types of the
  -- function's parameters and can be packed, and no function before it has its tag.
  pub call_generated-request :
      (run : FuncInfo → List V → Result V) (fs : List FuncInfo) (f : FuncInfo) (vs : List V)
      (packed whole : List ℕ)
      → find_func w p f.tag fs ≡ some f
      → f.tt < 3
      → HaveTypes vs f.args_type
      → pack_all (map p.pack vs) ≡ ok packed
      → length vs < 2 ^ 32
      → call_generated w p run fs f.tt f.tag
          (record { inner = whole; unread = w.int 4 (length vs % 2 ^ 32) ++ packed })
        ≡ arm_result w p f.tt (run f vs)
  unfolding call_generated arm
  call_generated-request run fs f vs packed whole found small typed e few =
      let n : length vs % 2 ^ 32 ≡ length f.args_type =
        omega (arith, HaveTypes-length vs f.args_type typed) in
      let args =
        rw (append-nil packed) at (unpack_args-pack_all vs f.args_type packed [] typed e) in
      rw
        (
          found,
          le→ltb 2 f.tt (omega arith),
          ==-refl f.tt,
          n,
          w.read_int-int 4 (length f.args_type) packed (omega arith),
          ==-refl (length f.args_type),
          args,
        )
        refl
