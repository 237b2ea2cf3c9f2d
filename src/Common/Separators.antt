-- ===== src/Common/Separators.antt =====
-- Texts that are joined by a separator, and what can be read back from them.
use mathlib.Core.List.{[], ◌∷◌, ◌++◌}
use mathlib.Core.Path.{◌≡◌, refl, subst}
use mathlib.Core.Logic.{◌≢◌}
use Prim.Native.Nat.{ℕ}
use jsrproxy.Common.Lists.{All}
use jsrproxy.Common.Texts.{Text}

-- No unit of the text is `c`.
abbrev pub Without : ℕ → Text → Type 0
Without c = All (λ x. x ≢ c)

Without-append_right : (c : ℕ) (s t : Text) → Without c (s ++ t) → Without c t
Without-append_right c [] t h = h
Without-append_right c (x ∷ s) t h = Without-append_right c s t h.1

-- The first separator ends the first part.
pub append_first_inj :
    (c : ℕ) (s t u v : Text)
    → Without c s
    → Without c t
    → s ++ c ∷ u ≡ t ++ c ∷ v
    → (s ≡ t) × (u ≡ v)
append_first_inj c [] [] u v hs ht e = (refl, cc)
append_first_inj c [] (y ∷ t) u v hs ht e = absurd (ht.0 (cc))
append_first_inj c (x ∷ s) [] u v hs ht e = absurd (hs.0 (cc))
append_first_inj c (x ∷ s) (y ∷ t) u v hs ht e =
    let (p, q) = append_first_inj c s t u v hs.1 ht.1 (cc) in
    let r : x ≡ y = cc in ((λ i. r i ∷ p i), q)

-- The last separator begins the last part.
pub append_last_inj :
    (c : ℕ) (s t u v : Text)
    → Without c u
    → Without c v
    → s ++ c ∷ u ≡ t ++ c ∷ v
    → (s ≡ t) × (u ≡ v)
append_last_inj c [] [] u v hu hv e = (refl, cc)
append_last_inj c [] (y ∷ t) u v hu hv e =
    let rest : u ≡ t ++ c ∷ v = cc in
    absurd ((Without-append_right c t (c ∷ v) (subst (Without c) rest hu)).0 refl)
append_last_inj c (x ∷ s) [] u v hu hv e =
    let rest : v ≡ s ++ c ∷ u = cc in
    absurd ((Without-append_right c s (c ∷ u) (subst (Without c) rest hv)).0 refl)
append_last_inj c (x ∷ s) (y ∷ t) u v hu hv e =
    let (p, q) = append_last_inj c s t u v hu hv (cc) in let r : x ≡ y = cc in ((λ i. r i ∷ p i), q)
