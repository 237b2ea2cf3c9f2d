-- ===== src/Common/Splitting.antt =====
-- `split`, `join`, `includes` and the ends of a text.
use Prim.Native.Nat.{ℕ, zero, suc}
use mathlib.Core.Bool.{Bool, false, ◌||◌}
use mathlib.Core.List.{List, [], ◌∷◌, ◌++◌}
use jsrproxy.Common.Tests.{◌==◌, if◌then◌else◌, nat_eq}
use jsrproxy.Common.Texts.{Text, text_eq}

-- A part that begins with `c`.
abbrev pub put_first : ℕ → List Text → List Text
put_first c [] = (c ∷ []) ∷ []
put_first c (part ∷ parts) = (c ∷ part) ∷ parts

-- `s.split(c)`, for a separator of one unit.
unfoldable pub split : ℕ → Text → List Text
split c [] = [] ∷ []
split c (d ∷ s) = let parts = split c s in if d == c then [] ∷ parts else put_first d parts

-- `parts.join(c)`
unfoldable pub join : ℕ → List Text → Text
join c [] = []
join c (part ∷ []) = part
join c (part ∷ next ∷ parts) = part ++ c ∷ join c (next ∷ parts)

-- `s.includes(c)`
unfoldable pub includes : ℕ → Text → Bool
includes c [] = false
includes c (d ∷ s) = (d == c) || includes c s

-- `s.endsWith(end)`
unfoldable pub ends_with : Text → Text → Bool
ends_with end [] = [] == end
ends_with end (c ∷ s) = (c ∷ s) == end || ends_with end s

-- `parts.slice(n)`
unfoldable pub drop {ℓ} : {A : Type ℓ} → ℕ → List A → List A
drop n [] = []
drop zero (x ∷ xs) = x ∷ xs
drop (suc n) (x ∷ xs) = drop n xs

-- `parts.slice(0, n)`
unfoldable pub take {ℓ} : {A : Type ℓ} → ℕ → List A → List A
take n [] = []
take zero (x ∷ xs) = []
take (suc n) (x ∷ xs) = x ∷ take n xs
