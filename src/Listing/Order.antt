-- ===== src/Listing/Order.antt =====
-- What the database may make of the rows of a query with an `orderBy`, in
-- backend/src/repositories/stream.repository.ts.
use flowfi.Prelude.{suc, Bool, true, false, List, [], ◌∷◌, ◌≡◌, refl, ap, sym, length, arith, All}
use mathlib.Core.Path.{subst}
use flowfi.Indexer.Tables.{Stream}

-- A list with one element more, at some place.
pub data Inserts (s : Stream) : List Stream → List Stream → Type 0 where
  here : {l : List Stream} → Inserts s l (s ∷ l)
  there : {x : Stream} {l m : List Stream} → Inserts s l m → Inserts s (x ∷ l) (x ∷ m)

-- The second list has the elements of the first, in some order.
pub data Permutes : List Stream → List Stream → Type 0 where
  nothing : Permutes [] []
  placed : {s : Stream} {l m n : List Stream} → Permutes l m → Inserts s m n → Permutes (s ∷ l) n

-- Each element comes before all that follow it; two that are tied cannot both be there.
abbrev pub IsSorted : (Stream → Stream → Bool) → List Stream → Type 0
IsSorted before [] = Unit
IsSorted before (s ∷ l) = All (λ x. before s x ≡ true) l × IsSorted before l

abbrev pub IsAsymmetric : (Stream → Stream → Bool) → Type 0
IsAsymmetric before = (a b : Stream) → before a b ≡ true → before b a ≡ false

length-Inserts : {s : Stream} {l m : List Stream} → Inserts s l m → length m ≡ suc (length l)
length-Inserts here = refl
length-Inserts (there i) = omega (arith, length-Inserts i)

pub length-Permutes : {l m : List Stream} → Permutes l m → length m ≡ length l
length-Permutes nothing = refl
length-Permutes (placed p i) = omega (arith, length-Inserts i, length-Permutes p)

module _ (before : Stream → Stream → Bool) where
  Inserts-All :
      {s : Stream} {l m : List Stream} (x : Stream)
      → Inserts s l m
      → All (λ y. before x y ≡ true) m
      → (before x s ≡ true) × All (λ y. before x y ≡ true) l
  Inserts-All x here h = h
  Inserts-All x (there i) (p, h) = let (first, rest) = Inserts-All x i h in (first, (p, rest))

  Inserts-IsSorted :
      {s : Stream} {l m : List Stream} → Inserts s l m → IsSorted before m → IsSorted before l
  Inserts-IsSorted here (h, k) = k
  Inserts-IsSorted (there {x} i) (h, k) = ((Inserts-All x i h).1, Inserts-IsSorted i k)

  true_ne_false : (b : Bool) → b ≡ true → ¬ (b ≡ false)
  true_ne_false b h k = cc

  -- There is one place only at which an element keeps a list sorted.
  Inserts-once :
      {s : Stream} {l m n : List Stream}
      → IsAsymmetric before
      → Inserts s l m
      → Inserts s l n
      → IsSorted before m
      → IsSorted before n
      → m ≡ n
  Inserts-once asym here here h k = refl
  Inserts-once {s} asym here (there {x} i) ((first, more), rest) (k, tail) =
      absurd (true_ne_false (before x s) (Inserts-All x i k).0 (asym s x first))
  Inserts-once {s} asym (there {x} i) here (k, tail) ((first, more), rest) =
      absurd (true_ne_false (before x s) (Inserts-All x i k).0 (asym s x first))
  Inserts-once asym (there {x} i) (there j) (h, hs) (k, ks) =
      ap (λ l. x ∷ l) (Inserts-once asym i j hs ks)

  -- Without ties there is one sorted order.
  pub Permutes-once :
      {l m n : List Stream}
      → IsAsymmetric before
      → Permutes l m
      → Permutes l n
      → IsSorted before m
      → IsSorted before n
      → m ≡ n
  Permutes-once asym nothing nothing h k = refl
  Permutes-once {n = n} asym (placed {s} p i) (placed q j) h k =
      let same = Permutes-once asym p q (Inserts-IsSorted i h) (Inserts-IsSorted j k) in
      Inserts-once asym i (subst (λ l. Inserts s l n) (sym same) j) h k
