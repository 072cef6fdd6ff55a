-- ===== src/Header/Options.antt =====
-- The loop over RPL options that the Deserialize() of DIO, DAO and P2P-DRO share the shape of: type
-- octet, length octet, and as many octets of content.
pub mod Walk
pub mod Whole
use rpl.Base.{
  ℕ, zero, suc, ◌+◌, Bool, true, false, Option, none, some, List, [], ◌∷◌, length, ltb, ◌==◌,
  if◌then◌else◌,
}
use rpl.Buffer.{Reader}

abbrev pub option_pad1 : ℕ
option_pad1 = 0

-- What the branch for one option does: from its type, its length and the parser's state, read the
-- content, and say whether the loop is left.
abbrev pub Handler : Type 0 → Type 0
Handler S = ℕ → ℕ → S → Reader (S × Bool)

-- Behind the type octet `t`. The loop is left if no length octet follows, and if the length is more
-- than what remains.
unfoldable pub read_option : {S : Type 0} → Handler S → ℕ → S → (S → Reader S) → Reader S
read_option handle t s next [] = some (s, [])
read_option handle t s next (l ∷ body) =
    if ltb (length body) l then some (s, body) else elim (handle t l s body) [
      | none ↦ none
      | some ((s', stop), rest) ↦ if stop then some (s', rest) else next s' rest
    ]

-- The loop, on fuel; `none` is a read past the end, or no fuel left.
unfoldable pub walk_options : {S : Type 0} → Handler S → ℕ → S → Reader S
walk_options handle fuel s [] = some (s, [])
walk_options handle zero s (t ∷ bytes) = none
walk_options handle (suc fuel) s (t ∷ bytes) =
    let padding = walk_options handle fuel s bytes in
    if t == option_pad1 then padding else read_option handle t s (walk_options handle fuel) bytes
