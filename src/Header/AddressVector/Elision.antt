-- ===== src/Header/AddressVector/Elision.antt =====
-- Eliding the prefix of the DODAGID and putting it back.
use mathlib.Core.List.{append_assoc}
use mathlib.Core.Path.{subst}
use rpl.Base.{
  ℕ, zero, suc, ◌+◌, ◌-◌, ◌*◌, ◌≤◌, ◌≡◌, ◌⊎◌, inl, inr, refl, true, some, List, [], ◌∷◌, ◌++◌,
  length, length-append, length-drop, take, drop, take-append-drop, All, Bool-cases, arith,
}
use rpl.Buffer.{◌>>=◌, same_bytes}
use rpl.Buffer.Reading.{read_bytes-append, read_bytes_enough}
use rpl.Ipv6.{Ipv6, IsAddress}
use rpl.Header.AddressVector.{
  shares_prefix, all_share_prefix, elided_prefix_length, write_vector, read_elided, read_vector,
}

same_bytes→eq : (xs ys : List ℕ) → same_bytes xs ys ≡ true → xs ≡ ys
unfolding same_bytes
same_bytes→eq [] [] h = refl
same_bytes→eq (x ∷ xs) (y ∷ ys) h = ground (arith, same_bytes→eq xs ys)
same_bytes→eq [] (y ∷ ys) h = cc
same_bytes→eq (x ∷ xs) [] h = cc

module _ (net : Ipv6) (dodag_id : ℕ) where
  -- The first `compr` octets of an address are those of the DODAGID.
  abbrev pub Elides : ℕ → ℕ → Type 0
  Elides compr a = take compr (net.serialize dodag_id) ≡ take compr (net.serialize a)

  pub shares_prefix→Elides : (a : ℕ) → shares_prefix net dodag_id a ≡ true → Elides 8 a
  unfolding shares_prefix
  shares_prefix→Elides a h = same_bytes→eq _ _ h

  pub all_share_prefix→All :
      (xs : List ℕ) → all_share_prefix net dodag_id xs ≡ true → All (λ a. Elides 8 a) xs
  unfolding all_share_prefix
  all_share_prefix→All [] h = tt
  all_share_prefix→All (a ∷ r) h =
      (shares_prefix→Elides a (ground arith), all_share_prefix→All r (ground arith))

  pub nothing-Elides : (xs : List ℕ) → All (λ a. Elides 0 a) xs
  nothing-Elides [] = tt
  nothing-Elides (a ∷ r) = (refl, nothing-Elides r)

  -- ElidedPrefixLength() is 0 or 8, and what it elides can be put back.
  pub elided_prefix_length_cases :
      (xs : List ℕ)
      → (elided_prefix_length net dodag_id xs ≡ 0) ⊎ (elided_prefix_length net dodag_id xs ≡ 8)
  unfolding elided_prefix_length
  elided_prefix_length_cases [] = inl refl
  elided_prefix_length_cases (a ∷ r) = ground arith

  pub elided_prefix_length-Elides :
      (xs : List ℕ) → All (λ a. Elides (elided_prefix_length net dodag_id xs) a) xs
  unfolding elided_prefix_length
  elided_prefix_length-Elides [] = tt
  elided_prefix_length-Elides (a ∷ r) = elim (Bool-cases (all_share_prefix net dodag_id (a ∷ r))) [
    | inl shared ↦ at_length 8 (rw shared refl) (all_share_prefix→All (a ∷ r) shared)
    | inr not_shared ↦ at_length 0 (rw not_shared refl) (nothing-Elides (a ∷ r))
  ]
    where
      at_length :
          (c : ℕ)
          → c ≡ elided_prefix_length net dodag_id (a ∷ r)
          → All (λ b. Elides c b) (a ∷ r)
          → All (λ b. Elides (elided_prefix_length net dodag_id (a ∷ r)) b) (a ∷ r)
      at_length c e all = subst (λ k. All (λ b. Elides k b) (a ∷ r)) e all

  pub length-elided : (c a : ℕ) → c ≤ 16 → length (drop c (net.serialize a)) ≡ 16 - c
  length-elided c a h = omega (arith, length-drop c (net.serialize a), net.length-serialize a)

  pub read_elided-drop :
      (c a : ℕ) (rest : List ℕ)
      → c ≤ 16
      → Elides c a
      → IsAddress a
      → read_elided net dodag_id c (drop c (net.serialize a) ++ rest) ≡ some (a, rest)
  unfolding read_elided
  read_elided-drop c a rest hc el ia =
      rw
        (
          read_bytes-append (16 - c) (drop c (net.serialize a)) rest (length-elided c a hc),
          ◌>>=◌,
          el,
          take-append-drop c (net.serialize a),
          net.deserialize-serialize a ia,
        )
        refl

  pub read_vector-write :
      (c : ℕ) (xs rest : List ℕ)
      → c ≤ 16
      → All (λ a. Elides c a) xs
      → All IsAddress xs
      → read_vector net (length xs) dodag_id c (write_vector net c xs ++ rest) ≡ some (xs, rest)
  unfolding read_vector write_vector
  read_vector-write c [] rest hc el ia = refl
  read_vector-write c (a ∷ r) rest hc el ia =
      rw (append_assoc (drop c (net.serialize a)) (write_vector net c r) rest) (
        ground (
          arith,
          read_elided-drop c a (write_vector net c r ++ rest) hc el.0 ia.0,
          read_vector-write c r rest hc el.1 ia.1,
        ))

  pub length-write_vector :
      (c : ℕ) (xs : List ℕ) → c ≤ 16 → length (write_vector net c xs) ≡ length xs * (16 - c)
  unfolding write_vector
  length-write_vector c [] hc = omega arith
  length-write_vector c (a ∷ r) hc = omega (
    arith,
    length-append (drop c (net.serialize a)) (write_vector net c r),
    length-elided c a hc,
    length-write_vector c r hc,
  )

  -- Reads that are covered by what remains do not fail, and take just that.
  pub read_elided_enough :
      (c : ℕ) (bytes : List ℕ)
      → 16 - c ≤ length bytes
      → (a : ℕ) × (rest : List ℕ) × (read_elided net dodag_id c bytes ≡ some (a, rest))
        × (length bytes ≡ length rest + (16 - c))
  unfolding read_elided
  read_elided_enough c bytes h = (
    net.deserialize (take c (net.serialize dodag_id) ++ take (16 - c) bytes),
    drop (16 - c) bytes,
    ground (arith, read_bytes_enough (16 - c) bytes h),
    omega (arith, read_bytes_enough (16 - c) bytes h),
  )

  pub read_vector_enough :
      (k c : ℕ) (bytes : List ℕ)
      → k * (16 - c) ≤ length bytes
      → (xs : List ℕ) × (rest : List ℕ) × (read_vector net k dodag_id c bytes ≡ some (xs, rest))
        × (length bytes ≡ length rest + k * (16 - c))
  unfolding read_vector
  read_vector_enough zero c bytes h = ([], bytes, refl, omega arith)
  read_vector_enough (suc k) c bytes h =
      let (a, mid, ea, la) = read_elided_enough c bytes (omega arith) in
      let (xs, rest, ex, lx) = read_vector_enough k c mid (omega arith) in
      (a ∷ xs, rest, ground arith, omega arith)
