-- ===== src/Bytes.antt =====
-- Go's encoding/binary on byte slices: fixed-width numbers in little-endian and big-endian order,
-- as the codecs of the protocols use them. A byte is a number below 256.
use mathlib.Core.List.{reverse, reverse-cons, reverse-reverse}
use native.Mathlib.Nat.{pow-suc}
use yuhaiin.Prelude.{
  ℕ, zero, suc, ◌+◌, ◌*◌, ◌/◌, ◌%◌, ◌^◌, ◌<◌, ◌≡◌, refl, ap, ◌∙◌, List, [], ◌∷◌, arith, length,
  length-append, ℕ_discrete, Bool, same, if◌then◌else◌, ◌==◌,
}

abbrev pub Bytes : Type 0
Bytes = List ℕ

-- The `k` low bytes, least significant first; `PutUint16`, `PutUint32` and `PutUint64` are k = 2, 4
-- and 8.
unfoldable pub put_le : ℕ → ℕ → Bytes
put_le zero x = []
put_le (suc k) x = (x % 256) ∷ put_le k (x / 256)

unfoldable pub get_le : Bytes → ℕ
get_le [] = 0
get_le (b ∷ bs) = b + 256 * get_le bs

unfoldable pub put_be : ℕ → ℕ → Bytes
unfolding put_le
put_be k x = reverse (put_le k x)

unfoldable pub get_be : Bytes → ℕ
unfolding get_le
get_be bs = get_le (reverse bs)

-- A slice of bytes, each below 256.
abbrev pub IsBytes : Bytes → Type 0
IsBytes [] = Unit {0}
IsBytes (b ∷ bs) = (b < 256) × IsBytes bs

pub length-put_le : (k x : ℕ) → length (put_le k x) ≡ k
unfolding put_le
length-put_le zero x = refl
length-put_le (suc k) x = ap suc (length-put_le k (x / 256))

pub get_le-put_le : (k x : ℕ) → x < 256 ^ k → get_le (put_le k x) ≡ x
unfolding put_le get_le
get_le-put_le zero x h = omega arith
get_le-put_le (suc k) x h = omega (arith, get_le-put_le k (x / 256) (omega (arith, pow-suc 256 k)))

pub get_le-lt : (bs : Bytes) → IsBytes bs → get_le bs < 256 ^ length bs
unfolding get_le
get_le-lt [] h = omega arith
get_le-lt (b ∷ bs) h = omega (arith, get_le-lt bs h.1, pow-suc 256 (length bs))

pub length-reverse {ℓ} : {A : Type ℓ} (ys : List A) → length (reverse ys) ≡ length ys
length-reverse [] = refl
length-reverse (y ∷ ys) =
    ap length (reverse-cons y ys)
    ∙ length-append (reverse ys) (y ∷ [])
    ∙ rw (length-reverse ys) (omega arith)

pub length-put_be : (k x : ℕ) → length (put_be k x) ≡ k
unfolding put_be
length-put_be k x = length-reverse (put_le k x) ∙ length-put_le k x

pub get_be-put_be : (k x : ℕ) → x < 256 ^ k → get_be (put_be k x) ≡ x
unfolding put_be get_be
get_be-put_be k x h = rw reverse-reverse (get_le-put_le k x h)

unfoldable pub bytes_discrete : Discrete Bytes
unfolding ℕ_discrete
bytes_discrete = hlevel ℕ_discrete

abbrev pub eq_bytes : Bytes → Bytes → Bool
eq_bytes a b = same bytes_discrete a b

-- strings.Split for a separator of one byte, with its lists of parts.
abbrev pub onto_first : ℕ → List Bytes → List Bytes
onto_first x [] = (x ∷ []) ∷ []
onto_first x (p ∷ ps) = (x ∷ p) ∷ ps

unfoldable pub split : ℕ → Bytes → List Bytes
split c [] = [] ∷ []
split c (x ∷ xs) = if x == c then [] ∷ split c xs else onto_first x (split c xs)
