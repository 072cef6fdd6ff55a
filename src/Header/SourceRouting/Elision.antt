-- ===== src/Header/SourceRouting/Elision.antt =====
-- Eliding fe80::/64 from an address and putting it back.
use rpl.Base.{
  ℕ, ◌+◌, ◌-◌, ◌*◌, ◌≤◌, ◌≡◌, ◌⊎◌, inl, inr, refl, sym, ap, ◌∙◌, min, true, some, List, [], ◌∷◌,
  ◌++◌, length, length-append, length-drop, take, drop, take-append-drop, replicate, All, arith,
}
use rpl.Buffer.Reading.{read_bytes-append}
use rpl.Ipv6.{Ipv6, IsAddress, link_local_prefix}
use mathlib.Core.List.{append_assoc}
use rpl.Header.SourceRouting.{
  all_but_last_link_local, last_link_local, cmpri, cmpre, write_addresses, read_entry,
  read_addresses,
}

module _ (net : Ipv6) where
  -- Either nothing is elided, or the address has the prefix that is.
  abbrev pub Elides : ℕ → ℕ → Type 0
  Elides n a = (n ≡ 0) ⊎ ((n ≡ 8) × (net.is_link_local a ≡ true))

  length-elided : (n a : ℕ) → n ≤ 16 → length (drop n (net.serialize a)) ≡ 16 - n
  length-elided n a h = omega (arith, length-drop n (net.serialize a), net.length-serialize a)

  restored :
      (n a : ℕ)
      → Elides n a
      → take (min n 8) link_local_prefix ++ (replicate (n - min n 8) 0 ++ drop n (net.serialize a))
        ≡ net.serialize a
  restored n a (inl e) = rw e refl
  restored n a (inr (e, ll)) = rw e (
      ap (λ (p : List ℕ). p ++ drop 8 (net.serialize a)) (sym (net.link_local a ll))
      ∙ take-append-drop 8 (net.serialize a))

  read_entry-elided :
      (n a : ℕ) (rest : List ℕ)
      → Elides n a
      → IsAddress a
      → read_entry net n (drop n (net.serialize a) ++ rest) ≡ some (a, rest)
  unfolding read_entry
  read_entry-elided n a rest el ia = ground (
    arith,
    restored n a el,
    net.deserialize-serialize a ia,
    read_bytes-append (16 - n) (drop n (net.serialize a)) rest (length-elided n a (ground arith)),
  )

  -- What is elided from the entries of a list, the last one apart.
  abbrev pub ElidesAll : ℕ → ℕ → List ℕ → Type 0
  ElidesAll i e [] = Unit {0}
  ElidesAll i e (a ∷ []) = Elides e a
  ElidesAll i e (a ∷ b ∷ r) = Elides i a × ElidesAll i e (b ∷ r)

  pub read_addresses-write :
      (i e : ℕ) (xs rest : List ℕ)
      → ElidesAll i e xs
      → All IsAddress xs
      → read_addresses net (length xs) i e (write_addresses net i e xs ++ rest) ≡ some (xs, rest)
  unfolding read_addresses write_addresses
  read_addresses-write i e [] rest el ia = refl
  read_addresses-write i e (a ∷ []) rest el ia = ground (arith, read_entry-elided e a rest el ia.0)
  read_addresses-write i e (a ∷ b ∷ r) rest el ia =
      rw (append_assoc (drop i (net.serialize a)) (write_addresses net i e (b ∷ r)) rest) (
        ground (
          arith,
          read_entry-elided i a (write_addresses net i e (b ∷ r) ++ rest) el.0 ia.0,
          read_addresses-write i e (b ∷ r) rest el.1 ia.1,
        ))

  pub length-write :
      (i e a : ℕ) (r : List ℕ)
      → i ≤ 16
      → e ≤ 16
      → length (write_addresses net i e (a ∷ r)) ≡ length r * (16 - i) + (16 - e)
  unfolding write_addresses
  length-write i e a [] hi he = omega (arith, length-elided e a he)
  length-write i e a (b ∷ r) hi he = omega (
    arith,
    length-append (drop i (net.serialize a)) (write_addresses net i e (b ∷ r)),
    length-elided i a hi,
    length-write i e b r hi he,
  )

  -- Cmpri() and Cmpre() elide only what can be put back.
  cmpre-Elides :
      (i : ℕ) (a : ℕ) (r : List ℕ)
      → (i ≡ 0) ⊎ ((i ≡ 8) × (all_but_last_link_local net (a ∷ r) ≡ true))
      → ElidesAll i (cmpre net (a ∷ r)) (a ∷ r)
  unfolding all_but_last_link_local cmpre last_link_local
  cmpre-Elides i a [] h = ground arith
  cmpre-Elides i a (b ∷ r) h = ground (arith, cmpre-Elides i b r)

  pub cmpri_cases :
      (xs : List ℕ)
      → (cmpri net xs ≡ 0) ⊎ ((cmpri net xs ≡ 8) × (all_but_last_link_local net xs ≡ true))
  unfolding cmpri
  cmpri_cases xs = ground arith

  pub cmpre_cases : (xs : List ℕ) → (cmpre net xs ≡ 0) ⊎ (cmpre net xs ≡ 8)
  unfolding cmpre
  cmpre_cases xs = ground arith

  pub chosen-ElidesAll :
      (a : ℕ) (r : List ℕ) → ElidesAll (cmpri net (a ∷ r)) (cmpre net (a ∷ r)) (a ∷ r)
  chosen-ElidesAll a r = cmpre-Elides (cmpri net (a ∷ r)) a r (cmpri_cases (a ∷ r))
