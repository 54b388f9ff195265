-- ===== src/Base/Text.antt =====
-- Go strings as lists of bytes, and the functions of the package `strings` that the program calls.
-- `equal_fold` folds the letters A to Z, which is what `strings.EqualFold` does on ASCII text.
use Prim.Native.Char.{code}
use Prim.Native.String.{String}
use Prim.Native.Nat.{ℕ, ◌+◌, ◌/◌, ◌%◌, zero, suc}
use mathlib.Core.Path.{◌≡◌, refl}
use mathlib.Core.Logic.{◌↔◌, ◌≢◌}
use mathlib.Core.Bool.{Bool, true, false, ◌&&◌, ◌||◌}
use mathlib.Core.List.{List, [], ◌∷◌, ◌++◌}
use native.Mathlib.Omega.{arith}
use deviced.Base.Tests.{ltb, leb, ◌==◌, if◌then◌else◌, ==-refl}
use deviced.Base.Lists.{All}

abbrev pub Bytes : Type 0
Bytes = List ℕ

-- The code points of a literal: its bytes, if it is ASCII.
abbrev pub codes : String → Bytes
codes String.[] = []
codes (String.◌∷◌ c s) = code c ∷ codes s

-- `a == b` on strings.
abbrev pub beq : Bytes → Bytes → Bool
beq [] [] = true
beq [] (d ∷ t) = false
beq (c ∷ s) [] = false
beq (c ∷ s) (d ∷ t) = c == d && beq s t

abbrev pub is_empty : Bytes → Bool
is_empty [] = true
is_empty (c ∷ s) = false

abbrev pub fold_byte : ℕ → ℕ
fold_byte c = if leb b'A' c && leb c b'Z' then c + 32 else c

-- `strings.EqualFold` on ASCII text.
abbrev pub equal_fold : Bytes → Bytes → Bool
equal_fold [] [] = true
equal_fold [] (d ∷ t) = false
equal_fold (c ∷ s) [] = false
equal_fold (c ∷ s) (d ∷ t) = fold_byte c == fold_byte d && equal_fold s t

-- `strings.HasPrefix(s, prefix)`, the prefix first.
abbrev pub has_prefix : Bytes → Bytes → Bool
has_prefix [] s = true
has_prefix (c ∷ p) [] = false
has_prefix (c ∷ p) (d ∷ s) = c == d && has_prefix p s

-- `strings.HasSuffix(s, suffix)`, the suffix first.
abbrev pub has_suffix : Bytes → Bytes → Bool
has_suffix suffix [] = is_empty suffix
has_suffix suffix (c ∷ s) = beq suffix (c ∷ s) || has_suffix suffix s

-- `strings.Contains(s, sub)`, the part first.
abbrev pub contains : Bytes → Bytes → Bool
contains sub [] = has_prefix sub []
contains sub (c ∷ s) = has_prefix sub (c ∷ s) || contains sub s

abbrev pub prepend : ℕ → List Bytes → List Bytes
prepend c [] = (c ∷ []) ∷ []
prepend c (p ∷ ps) = (c ∷ p) ∷ ps

-- `strings.Split(s, sep)` at a separator of one byte.
abbrev pub split : ℕ → Bytes → List Bytes
split sep [] = [] ∷ []
split sep (c ∷ s) = let parts = split sep s in if c == sep then [] ∷ parts else prepend c parts

-- `strings.Join(parts, sep)` at a separator of one byte.
abbrev pub join : ℕ → List Bytes → Bytes
join sep [] = []
join sep (p ∷ []) = p
join sep (p ∷ q ∷ ps) = p ++ (sep ∷ join sep (q ∷ ps))

-- `strconv.Itoa` below a thousand million.
abbrev itoa_fuel : ℕ → ℕ → Bytes
itoa_fuel zero n = []
itoa_fuel (suc f) n =
    let front = itoa_fuel f (n / 10) in
    if ltb n 10 then (b'0' + n) ∷ [] else front ++ (b'0' + n % 10) ∷ []

abbrev pub itoa : ℕ → Bytes
itoa n = itoa_fuel 9 n

pub beq→eq : (s t : Bytes) → beq s t ≡ true → s ≡ t
beq→eq [] [] h = refl
beq→eq [] (d ∷ t) h = cc
beq→eq (c ∷ s) [] h = cc
beq→eq (c ∷ s) (d ∷ t) h = ground (arith, beq→eq s t)

pub beq_refl : (s : Bytes) → beq s s ≡ true
beq_refl [] = refl
beq_refl (c ∷ s) = ground (arith, beq_refl s)

pub eq→beq : (s t : Bytes) → s ≡ t → beq s t ≡ true
eq→beq s t e = rw e (beq_refl t)

pub beq_iff : (s t : Bytes) → (beq s t ≡ true) ↔ (s ≡ t)
beq_iff s t = (beq→eq s t, eq→beq s t)

pub equal_fold_refl : (s : Bytes) → equal_fold s s ≡ true
equal_fold_refl [] = refl
equal_fold_refl (c ∷ s) = rw (==-refl (fold_byte c)) (equal_fold_refl s)

-- No byte of the text is `b`.
abbrev pub Lacks : ℕ → Bytes → Type 0
Lacks b = All (λ c. c ≢ b)

pub split_of_Lacks : (sep : ℕ) (s : Bytes) → Lacks sep s → split sep s ≡ s ∷ []
split_of_Lacks sep [] h = refl
split_of_Lacks sep (c ∷ s) (hc, hs) = ground (arith, split_of_Lacks sep s hs)

-- The separator between two texts, of which the first lacks it, cuts the first off.
pub split-append :
    (sep : ℕ) (s t : Bytes) → Lacks sep s → split sep (s ++ (sep ∷ t)) ≡ s ∷ split sep t
split-append sep [] t h = ground arith
split-append sep (c ∷ s) t (hc, hs) = ground (arith, split-append sep s t hs)
