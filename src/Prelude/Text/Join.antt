-- ===== src/Prelude/Text/Join.antt =====
-- Texts without a separator can be told apart in a text that joins them.
use mathlib.Core.Path.{◌≡◌, refl}
use mathlib.Core.Logic.{◌≢◌}
use mathlib.Core.List.{[], ◌∷◌, ◌++◌}
use Prim.Native.Nat.{ℕ}
use native.Mathlib.Omega.{arith}
use flowfi.Prelude.Lists.{All}
use flowfi.Prelude.Text.{Text}

-- The character `sep` does not stand in the text.
abbrev pub Lacks : ℕ → Text → Type 0
Lacks sep s = All (λ c. c ≢ sep) s

-- Two joined texts that agree have the same first part and the same rest.
pub join_cancel :
    (sep : ℕ) (a b r s : Text)
    → Lacks sep a
    → Lacks sep b
    → a ++ sep ∷ r ≡ b ++ sep ∷ s
    → (a ≡ b) × (r ≡ s)
join_cancel sep [] [] r s ha hb e = (refl, cc)
join_cancel sep [] (d ∷ b) r s ha (p, hb) e = absurd (p (ground arith))
join_cancel sep (c ∷ a) [] r s (p, ha) hb e = absurd (p (ground arith))
join_cancel sep (c ∷ a) (d ∷ b) r s (p, ha) (q, hb) e =
    let ih = join_cancel sep a b r s ha hb (ground arith) in
    let first : c ≡ d = ground arith in ground (arith, ih.0, ih.1)

-- A text without the separator is no joined text.
pub join-ne-Lacks : (sep : ℕ) (a b r : Text) → Lacks sep b → ¬ (a ++ sep ∷ r ≡ b)
join-ne-Lacks sep [] [] r hb e = cc
join-ne-Lacks sep [] (d ∷ b) r (p, hb) e = p (ground arith)
join-ne-Lacks sep (c ∷ a) [] r hb e = cc
join-ne-Lacks sep (c ∷ a) (d ∷ b) r (p, hb) e = join-ne-Lacks sep a b r hb (ground arith)
