-- ===== src/Header/Options/Walk.antt =====
-- The option loop ends within its fuel and reads nothing past the end.
use rpl.Base.{
  ℕ, zero, suc, ◌≤◌, ◌<◌, ◌≡◌, ◌≢◌, refl, Bool, true, false, Option, none, some, List, [], ◌∷◌,
  ◌++◌, length, length-append, ltb, ◌==◌, if◌then◌else◌, Bool-cases, inl, inr, arith,
}
use rpl.Header.Options.{Handler, option_pad1, read_option, walk_options}
use rpl.Buffer.{Reader}

-- The loop has an answer, and what it left unread is no longer than what it was given.
abbrev pub Ends : {S : Type 0} → List ℕ → Option (S × List ℕ) → Type 0
Ends {S} bytes r = (s : S) × (rest : List ℕ) × (r ≡ some (s, rest)) × (length rest ≤ length bytes)

-- A branch that stays inside the content it was announced.
abbrev pub StaysInside : {S : Type 0} → Handler S → Type 0
StaysInside {S} handle =
    (t l : ℕ) (s : S) (body : List ℕ)
    → l ≤ length body
    → Ends {S = S × Bool} body (handle t l s body)

module _ {S : Type 0} (handle : Handler S) where
  read_option-Ends :
      (t : ℕ) (s : S) (next : S → Reader S) (bytes : List ℕ)
      → StaysInside handle
      → ((s' : S) (rest : List ℕ) → length rest < length bytes → Ends rest (next s' rest))
      → Ends bytes (read_option handle t s next bytes)
  unfolding read_option
  read_option-Ends t s next [] inside go = (s, [], refl, omega arith)
  read_option-Ends t s next (l ∷ body) inside go = elim (Bool-cases (ltb (length body) l)) [
    | inl short ↦ rw short (s, body, refl, omega arith)
    | inr fits ↦ rw fits (handled (inside t l s body (ground arith)))
  ]
    where
      finish :
          (s' : S) (stop : Bool) (rest : List ℕ)
          → length rest ≤ length body
          → Ends (l ∷ body) (if stop then some (s', rest) else next s' rest)
      finish s' true rest le = (s', rest, refl, omega arith)
      finish s' false rest le =
          let (u, r, e, lr) = go s' rest (omega arith) in (u, r, e, omega arith)

      handled :
          Ends {S = S × Bool} body (handle t l s body)
          → Ends (l ∷ body) (elim (handle t l s body) [
            | none ↦ none
            | some ((s', stop), rest) ↦ if stop then some (s', rest) else next s' rest
          ])
      handled ((s', stop), rest, e, le) = rw e (finish s' stop rest le)

  -- With as much fuel as bytes the loop ends on every input, however the options are cut.
  pub walk_options-Ends :
      (fuel : ℕ) (s : S) (bytes : List ℕ)
      → StaysInside handle
      → length bytes ≤ fuel
      → Ends bytes (walk_options handle fuel s bytes)
  unfolding walk_options
  walk_options-Ends fuel s [] inside h = (s, [], refl, omega arith)
  walk_options-Ends zero s (t ∷ bytes) inside h = absurd (omega arith)
  walk_options-Ends (suc fuel) s (t ∷ bytes) inside h = elim (Bool-cases (t == option_pad1)) [
    | inl pad ↦ rw pad (longer (walk_options-Ends fuel s bytes inside (omega arith)))
    | inr other ↦ rw other (
        longer (
          read_option-Ends t s (walk_options handle fuel) bytes inside
            (λ s' rest lt. walk_options-Ends fuel s' rest inside (omega arith))))
  ]
    where
      longer : {r : Option (S × List ℕ)} → Ends bytes r → Ends (t ∷ bytes) r
      longer (u, rest, e, le) = (u, rest, e, omega arith)

  -- One round over a whole option.
  pub walk_options_step :
      (fuel t l : ℕ) (s s' : S) (body rest : List ℕ)
      → t ≢ option_pad1
      → length body ≡ l
      → handle t l s (body ++ rest) ≡ some ((s', false), rest)
      → walk_options handle (suc fuel) s (t ∷ l ∷ (body ++ rest)) ≡ walk_options handle fuel s' rest
  unfolding walk_options read_option
  walk_options_step fuel t l s s' body rest nt el eh = rw (ne-false t nt, fits, eh) refl
    where
      ne-false : (t : ℕ) → t ≢ option_pad1 → (t == option_pad1) ≡ false
      ne-false t nt = ground arith

      fits : ltb (length (body ++ rest)) l ≡ false
      fits = ground (arith, length-append body rest)
