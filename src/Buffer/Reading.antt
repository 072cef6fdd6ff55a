-- ===== src/Buffer/Reading.antt =====
-- What a reader finds behind bytes that were written.
use rpl.Base.{
  ℕ, ◌-◌, ◌≤◌, ◌<◌, ◌≡◌, refl, none, some, List, ◌++◌, take, drop, length, length-append,
  take-append_length, drop-append_length, length-drop, arith,
}
use mathlib.Core.Path.{subst}
use rpl.Buffer.{Reader, ◌>>=◌, read_bytes, skip}

take-append_eq {ℓ} : {A : Type ℓ} (n : ℕ) (xs ys : List A) → length xs ≡ n → take n (xs ++ ys) ≡ xs
take-append_eq n xs ys e = subst (λ k. take k (xs ++ ys) ≡ xs) e (take-append_length xs ys)

drop-append_eq {ℓ} : {A : Type ℓ} (n : ℕ) (xs ys : List A) → length xs ≡ n → drop n (xs ++ ys) ≡ ys
drop-append_eq n xs ys e = subst (λ k. drop k (xs ++ ys) ≡ ys) e (drop-append_length xs ys)

pub read_bytes-append :
    (n : ℕ) (xs ys : List ℕ) → length xs ≡ n → read_bytes n (xs ++ ys) ≡ some (xs, ys)
unfolding read_bytes
read_bytes-append n xs ys e =
    ground (arith, length-append xs ys, take-append_eq n xs ys e, drop-append_eq n xs ys e)

pub skip-append : (n : ℕ) (xs ys : List ℕ) → length xs ≡ n → skip n (xs ++ ys) ≡ some (tt, ys)
unfolding skip
skip-append n xs ys e = ground (arith, length-append xs ys, drop-append_eq n xs ys e)

-- A read of more than remains passes the end, and so does what it is a part of.
pub read_bytes_short : (n : ℕ) (bytes : List ℕ) → length bytes < n → read_bytes n bytes ≡ none
unfolding read_bytes
read_bytes_short n bytes h = ground arith

pub bind_none :
    {A B : Type 0} (r : Reader A) (f : A → Reader B) (bytes : List ℕ)
    → r bytes ≡ none
    → (r >>= f) bytes ≡ none
bind_none r f bytes h = rw (h, ◌>>=◌) refl

-- A read that is covered by what remains does not fail, and leaves that much less.
pub read_bytes_enough :
    (n : ℕ) (bytes : List ℕ)
    → n ≤ length bytes
    → (read_bytes n bytes ≡ some (take n bytes, drop n bytes))
      × (length (drop n bytes) ≡ length bytes - n)
unfolding read_bytes
read_bytes_enough n bytes h = (ground arith, length-drop n bytes)

pub skip_enough :
    (n : ℕ) (bytes : List ℕ) → n ≤ length bytes → skip n bytes ≡ some (tt, drop n bytes)
unfolding skip
skip_enough n bytes h = ground arith
