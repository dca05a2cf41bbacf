-- ===== src/Prelude/Text.antt =====
-- Text as code points, lower case, and Go's order on strings. Go compares bytes; on UTF-8 that is the
-- order of the code points.
use Prim.Native.Char.{code}
use Prim.Native.String.{String}
use Prim.Native.Nat.{ℕ, ◌+◌, ◌/◌, ◌%◌, compare, Ordering}
use mathlib.Core.Path.{◌≡◌, refl}
use mathlib.Core.Bool.{Bool, true, false, ◌&&◌}
use mathlib.Core.List.{List, [], ◌∷◌, ◌++◌, map}
use native.Mathlib.Omega.{arith}
use text.Mathlib.TextEquality.{Char-path}
use k8gobgp.Prelude.Tests.{leb, nat_beq, if◌then◌else◌}

abbrev pub codes : String → List ℕ
codes String.[] = []
codes (String.◌∷◌ c s) = code c ∷ codes s

pub codes_injective : (s t : String) → codes s ≡ codes t → s ≡ t
codes_injective String.[] String.[] h = refl
codes_injective String.[] (String.◌∷◌ d t) h = absurd (cc h)
codes_injective (String.◌∷◌ c s) String.[] h = absurd (cc h)
codes_injective (String.◌∷◌ c s) (String.◌∷◌ d t) h =
    let p : c ≡ d = Char-path c d (ground arith) in
    let q : s ≡ t = codes_injective s t (ground arith) in cc

-- The UTF-8 form of a code point, and a text as the bytes that Go's strings have.
abbrev utf8_code : ℕ → List ℕ
utf8_code c =
    if leb c 127
    then c ∷ []
    else if leb c 2047
    then (192 + c / 64) ∷ (128 + c % 64) ∷ []
    else if leb c 65535
    then (224 + c / 4096) ∷ (128 + (c / 64) % 64) ∷ (128 + c % 64) ∷ []
    else (240 + c / 262144) ∷ (128 + (c / 4096) % 64) ∷ (128 + (c / 64) % 64) ∷ (128 + c % 64) ∷ []

abbrev pub utf8 : String → List ℕ
utf8 String.[] = []
utf8 (String.◌∷◌ c s) = utf8_code (code c) ++ utf8 s

-- unicode.ToLower, exact where the result is ASCII: besides the capital letters only U+0130 and the
-- Kelvin sign U+212A have an ASCII lower case. Any other character maps to one that is not ASCII, as
-- it is itself.
abbrev pub lower_code : ℕ → ℕ
lower_code c =
    if leb 65 c && leb c 90
    then c + 32
    else if nat_beq c 304
    then 105
    else if nat_beq c 8490
    then 107
    else c

-- strings.ToLower, for a comparison with an ASCII text.
abbrev pub lower : String → List ℕ
lower s = map lower_code (codes s)

-- `s < t` on the code points.
abbrev pub codes_ltb : List ℕ → List ℕ → Bool
codes_ltb [] [] = false
codes_ltb [] (y ∷ ys) = true
codes_ltb (x ∷ xs) [] = false
codes_ltb (x ∷ xs) (y ∷ ys) = elim (compare x y) [
  | Ordering.lt ↦ true
  | Ordering.eq ↦ codes_ltb xs ys
  | Ordering.gt ↦ false
]

pub codes_ltb_irrefl : (xs : List ℕ) → codes_ltb xs xs ≡ false
codes_ltb_irrefl [] = refl
codes_ltb_irrefl (x ∷ xs) = ground (arith, codes_ltb_irrefl xs)

pub codes_ltb_trans :
    (xs ys zs : List ℕ) → codes_ltb xs ys ≡ true → codes_ltb ys zs ≡ true → codes_ltb xs zs ≡ true
codes_ltb_trans [] [] zs p q = absurd (ground arith)
codes_ltb_trans [] (y ∷ ys) [] p q = absurd (ground arith)
codes_ltb_trans [] (y ∷ ys) (z ∷ zs) p q = refl
codes_ltb_trans (x ∷ xs) [] zs p q = absurd (ground arith)
codes_ltb_trans (x ∷ xs) (y ∷ ys) [] p q = absurd (ground arith)
codes_ltb_trans (x ∷ xs) (y ∷ ys) (z ∷ zs) p q = ground (arith, codes_ltb_trans xs ys zs)

pub codes_ltb_total : (xs ys : List ℕ) → codes_ltb xs ys ≡ false → codes_ltb ys xs ≡ false → xs ≡ ys
codes_ltb_total [] [] p q = refl
codes_ltb_total [] (y ∷ ys) p q = absurd (ground arith)
codes_ltb_total (x ∷ xs) [] p q = absurd (ground arith)
codes_ltb_total (x ∷ xs) (y ∷ ys) p q = ground (arith, codes_ltb_total xs ys)

unfoldable pub text_ltb : String → String → Bool
text_ltb s t = codes_ltb (codes s) (codes t)

pub text_ltb_total : (s t : String) → text_ltb s t ≡ false → text_ltb t s ≡ false → s ≡ t
unfolding text_ltb
text_ltb_total s t p q = codes_injective s t (codes_ltb_total (codes s) (codes t) p q)

-- "not before" is transitive.
pub codes_ltb_neg_trans :
    (xs ys zs : List ℕ)
    → codes_ltb xs ys ≡ false
    → codes_ltb ys zs ≡ false
    → codes_ltb xs zs ≡ false
codes_ltb_neg_trans [] [] [] p q = refl
codes_ltb_neg_trans [] [] (z ∷ zs) p q = absurd (ground arith)
codes_ltb_neg_trans [] (y ∷ ys) zs p q = absurd (ground arith)
codes_ltb_neg_trans (x ∷ xs) [] [] p q = refl
codes_ltb_neg_trans (x ∷ xs) [] (z ∷ zs) p q = absurd (ground arith)
codes_ltb_neg_trans (x ∷ xs) (y ∷ ys) [] p q = refl
codes_ltb_neg_trans (x ∷ xs) (y ∷ ys) (z ∷ zs) p q = ground (arith, codes_ltb_neg_trans xs ys zs)

pub text_ltb_irrefl : (s : String) → text_ltb s s ≡ false
unfolding text_ltb
text_ltb_irrefl s = codes_ltb_irrefl (codes s)

pub text_ltb_neg_trans :
    (s t u : String) → text_ltb s t ≡ false → text_ltb t u ≡ false → text_ltb s u ≡ false
unfolding text_ltb
text_ltb_neg_trans s t u = codes_ltb_neg_trans (codes s) (codes t) (codes u)

codes_ltb_asym : (xs ys : List ℕ) → codes_ltb xs ys ≡ true → codes_ltb ys xs ≡ false
codes_ltb_asym [] [] p = refl
codes_ltb_asym [] (y ∷ ys) p = refl
codes_ltb_asym (x ∷ xs) [] p = absurd (ground arith)
codes_ltb_asym (x ∷ xs) (y ∷ ys) p = ground (arith, codes_ltb_asym xs ys)

pub text_ltb_asym : (s t : String) → text_ltb s t ≡ true → text_ltb t s ≡ false
unfolding text_ltb
text_ltb_asym s t = codes_ltb_asym (codes s) (codes t)
