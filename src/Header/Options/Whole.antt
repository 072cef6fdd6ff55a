-- ===== src/Header/Options/Whole.antt =====
-- The option loop with as much fuel as bytes, as the parsers run it: the fuel is never felt, so that
-- options can be read one after another.
use mathlib.Core.List.{append-nil}
use mathlib.Core.Path.{subst}
use rpl.Base.{
  ℕ, zero, suc, ◌≤◌, ◌<◌, ◌≡◌, ◌≢◌, refl, ◌∙◌, Bool, true, false, none, some, List, [], ◌∷◌, ◌++◌,
  length, length-append, ltb, ◌==◌, if◌then◌else◌, Bool-cases, inl, inr, arith,
}
use rpl.Buffer.{Reader}
use rpl.Header.Options.{Handler, option_pad1, read_option, walk_options}
use rpl.Header.Options.Walk.{Ends, StaysInside, walk_options_step}

module _ {S : Type 0} (handle : Handler S) where
  read_option_fuel :
      (t : ℕ) (s : S) (next other : S → Reader S) (bytes : List ℕ)
      → StaysInside handle
      → ((s' : S) (rest : List ℕ) → length rest < length bytes → next s' rest ≡ other s' rest)
      → read_option handle t s next bytes ≡ read_option handle t s other bytes
  unfolding read_option
  read_option_fuel t s next other [] inside same = refl
  read_option_fuel t s next other (l ∷ body) inside same = elim (Bool-cases (ltb (length body) l)) [
    | inl short ↦ rw short refl
    | inr fits ↦ rw fits (handled (inside t l s body (ground arith)))
  ]
    where
      finish :
          (s' : S) (stop : Bool) (rest : List ℕ)
          → length rest ≤ length body
          → (if stop then some (s', rest) else next s' rest)
            ≡ (if stop then some (s', rest) else other s' rest)
      finish s' true rest le = refl
      finish s' false rest le = same s' rest (omega arith)

      handled :
          Ends {S = S × Bool} body (handle t l s body)
          → (elim (handle t l s body) [
            | none ↦ none
            | some ((s', stop), rest) ↦ if stop then some (s', rest) else next s' rest
          ])
            ≡ (elim (handle t l s body) [
              | none ↦ none
              | some ((s', stop), rest) ↦ if stop then some (s', rest) else other s' rest
            ])
      handled ((s', stop), rest, e, le) = rw e (finish s' stop rest le)

  walk_options_fuel :
      (f g : ℕ) (s : S) (bytes : List ℕ)
      → StaysInside handle
      → length bytes ≤ f
      → length bytes ≤ g
      → walk_options handle f s bytes ≡ walk_options handle g s bytes
  unfolding walk_options
  walk_options_fuel zero zero s [] inside hf hg = refl
  walk_options_fuel zero (suc g) s [] inside hf hg = refl
  walk_options_fuel (suc f) zero s [] inside hf hg = refl
  walk_options_fuel (suc f) (suc g) s [] inside hf hg = refl
  walk_options_fuel zero g s (t ∷ bytes) inside hf hg = absurd (omega arith)
  walk_options_fuel (suc f) zero s (t ∷ bytes) inside hf hg = absurd (omega arith)
  walk_options_fuel (suc f) (suc g) s (t ∷ bytes) inside hf hg =
      elim (Bool-cases (t == option_pad1)) [
        | inl pad ↦ rw pad (walk_options_fuel f g s bytes inside (omega arith) (omega arith))
        | inr other ↦ rw other (
            read_option_fuel t s (walk_options handle f) (walk_options handle g) bytes inside
              (λ s' rest lt. walk_options_fuel f g s' rest inside (omega arith) (omega arith)))
      ]

  pub walk_whole : S → Reader S
  walk_whole s bytes = walk_options handle (length bytes) s bytes

  pub walk_whole_lem :
      (s : S) (bytes : List ℕ) → walk_whole s bytes ≡ walk_options handle (length bytes) s bytes
  unfolding walk_whole
  walk_whole_lem s bytes = refl

  pub walk_whole_end : (s : S) → walk_whole s [] ≡ some (s, [])
  unfolding walk_whole walk_options
  walk_whole_end s = refl

  -- A whole option that its branch takes, in front of any others.
  pub walk_whole_step :
      (t l : ℕ) (s s' : S) (body rest : List ℕ)
      → StaysInside handle
      → t ≢ option_pad1
      → length body ≡ l
      → handle t l s (body ++ rest) ≡ some ((s', false), rest)
      → walk_whole s (t ∷ l ∷ (body ++ rest)) ≡ walk_whole s' rest
  unfolding walk_whole
  walk_whole_step t l s s' body rest inside nt el eh =
      walk_options_step handle (suc (length (body ++ rest))) t l s s' body rest nt el eh
      ∙ walk_options_fuel (suc (length (body ++ rest))) (length rest) s' rest inside
          (omega (arith, length-append body rest)) (omega arith)

  -- A whole option that ends the message.
  pub walk_whole_last :
      (t l : ℕ) (s s' : S) (body : List ℕ)
      → StaysInside handle
      → t ≢ option_pad1
      → length body ≡ l
      → handle t l s (body ++ []) ≡ some ((s', false), [])
      → walk_whole s (t ∷ l ∷ body) ≡ some (s', [])
  walk_whole_last t l s s' body inside nt el eh =
      subst (λ b. walk_whole s (t ∷ l ∷ b) ≡ some (s', [])) (append-nil body)
        (walk_whole_step t l s s' body [] inside nt el eh ∙ walk_whole_end s')
