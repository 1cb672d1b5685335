-- ===== src/Sse/Registry.antt =====
-- How many clients of a `Map` pass a test, as the map changes.
use flowfi.Prelude.{
  ℕ, ◌+◌, ◌≡◌, refl, Bool, true, false, none, some, [], ◌∷◌, arith, if◌then◌else◌, Bool-cases, inl,
  inr,
}
use flowfi.Prelude.Text.{Text, text_eq, text_eq_iff}
use flowfi.Prelude.JsMap.{JsMap, lookup, insert, erase, erase_of_none, HasDistinctKeys}
use flowfi.Sse.{Client}

abbrev pub bit : Bool → ℕ
bit true = 1
bit false = 0

abbrev pub number : (Client → Bool) → JsMap Client → ℕ
number p [] = 0
number p ((id, c) ∷ m) = bit (p c) + number p m

pub number-insert-none :
    (p : Client → Bool) (id : Text) (c : Client) (m : JsMap Client)
    → lookup id m ≡ none
    → number p (insert id c m) ≡ number p m + bit (p c)
unfolding lookup insert
number-insert-none p id c [] h = omega arith
number-insert-none p id c ((j, d) ∷ m) h = elim (Bool-cases (text_eq j id)) [
  | inl same ↦ absurd (ground (arith, same))
  | inr other ↦
      rw (other, insert) (omega (arith, number-insert-none p id c m (ground (arith, other))))
]

pub number-insert-some :
    (p : Client → Bool) (id : Text) (c d : Client) (m : JsMap Client)
    → lookup id m ≡ some d
    → p c ≡ p d
    → number p (insert id c m) ≡ number p m
unfolding lookup insert
number-insert-some p id c d [] h same = cc
number-insert-some p id c d ((j, x) ∷ m) h same = elim (Bool-cases (text_eq j id)) [
  | inl here ↦ let e : x ≡ d = ground (arith, here) in rw (here, insert, same, e) refl
  | inr there ↦
      rw (there, insert) (omega (arith, number-insert-some p id c d m (ground (arith, there)) same))
]

pub number-erase :
    (p : Client → Bool) (id : Text) (c : Client) (m : JsMap Client)
    → HasDistinctKeys m
    → lookup id m ≡ some c
    → number p m ≡ number p (erase id m) + bit (p c)
unfolding lookup erase
number-erase p id c [] d h = cc
number-erase p id c ((j, x) ∷ m) (q, d) h = elim (Bool-cases (text_eq j id)) [
  | inl here ↦
      let e : x ≡ c = ground (arith, here) in
      let key : j ≡ id = (text_eq_iff j id).0 here in
      let gone : erase id m ≡ m = erase_of_none id m (ground (arith, key, q)) in
      rw (here, erase, gone, e) (omega arith)
  | inr there ↦ rw (there, erase) (omega (arith, number-erase p id c m d (ground (arith, there))))
]

-- A property of either branch is one of the conditional.
pub if_cases :
    {A : Type 0} (P : A → Type 0) (b : Bool) {x y : A}
    → (b ≡ true → P x)
    → (b ≡ false → P y)
    → P (if b then x else y)
if_cases P true p q = p refl
if_cases P false p q = q refl
