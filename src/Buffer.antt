-- ===== src/Buffer.antt =====
-- The wire as ns-3's Buffer::Iterator shows it: what is written is a list of bytes, and a reader
-- takes bytes off the front of those that remain. `none` is a read past the end of the buffer.
pub mod Reading
use rpl.Base.{
  ℕ, zero, suc, ◌/◌, ◌%◌, ◌*◌, ◌+◌, ◌^◌, Bool, true, false, Option, none, some, List, [], ◌∷◌, take,
  drop, length, ltb, ◌==◌, ◌&&◌, if◌then◌else◌,
}

abbrev pub Reader : Type 0 → Type 0
Reader A = List ℕ → Option (A × List ℕ)

infixl 5 ◌>>=◌ ◌>>◌
abbrev pub ◌>>=◌ : {A B : Type 0} → Reader A → (A → Reader B) → Reader B
◌>>=◌ m f bytes = elim (m bytes) [ none ↦ none | some (a, rest) ↦ f a rest ]

abbrev pub ◌>>◌ : {A B : Type 0} → Reader A → Reader B → Reader B
m >> k = m >>= λ _. k

abbrev pub return : {A : Type 0} → A → Reader A
return a bytes = some (a, bytes)

abbrev pub read_u8 : Reader ℕ
read_u8 [] = none
read_u8 (b ∷ rest) = some (b, rest)

abbrev pub read_u16 : Reader ℕ
read_u16 = do hi ← read_u8; lo ← read_u8; return (hi * 256 + lo)

-- `Read(buf, n)`.
unfoldable pub read_bytes : ℕ → Reader (List ℕ)
read_bytes n bytes = if ltb (length bytes) n then none else some (take n bytes, drop n bytes)

-- `Next(n)`.
unfoldable pub skip : ℕ → Reader (Unit {0})
skip n bytes = if ltb (length bytes) n then none else some (tt, drop n bytes)

-- `std::equal` on two runs of octets.
unfoldable pub same_bytes : List ℕ → List ℕ → Bool
same_bytes [] [] = true
same_bytes (x ∷ xs) (y ∷ ys) = x == y && same_bytes xs ys
same_bytes _ _ = false

abbrev pub read_u32 : Reader ℕ
read_u32 = do hi ← read_u16; lo ← read_u16; return (hi * 2 ^ 16 + lo)

-- `WriteHtonU32(v)` of a uint32_t.
abbrev pub write_u32 : ℕ → List ℕ → List ℕ
write_u32 v rest = (v / 2 ^ 24) ∷ (v / 2 ^ 16 % 256) ∷ (v / 2 ^ 8 % 256) ∷ (v % 256) ∷ rest

-- `WriteHtonU16(v)` of a uint16_t.
abbrev pub write_u16 : ℕ → List ℕ → List ℕ
write_u16 v rest = (v / 256) ∷ (v % 256) ∷ rest
