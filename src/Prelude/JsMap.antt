-- ===== src/Prelude/JsMap.antt =====
-- JavaScript's `Map` with text keys, in insertion order: an overwrite keeps the key's place.
use mathlib.Core.Path.{◌≡◌, refl}
use mathlib.Core.Option.{Option, none, some}
use mathlib.Core.List.{List, [], ◌∷◌, ◌++◌}
use Prim.Native.Nat.{ℕ, suc, ◌≤◌}
use native.Mathlib.Omega.{arith}
use flowfi.Prelude.Tests.{if◌then◌else◌}
use flowfi.Prelude.Lists.{length}
use flowfi.Prelude.Text.{Text, text_eq, text_eq_iff}

abbrev pub JsMap {ℓ} : Type ℓ → Type ℓ
JsMap V = List (Text × V)

module _ {ℓ} {V : Type ℓ} where
  -- `map.get(key)`
  unfoldable pub lookup : Text → JsMap V → Option V
  lookup k [] = none
  lookup k ((j, v) ∷ m) = if text_eq j k then some v else lookup k m

  -- `map.set(key, value)`
  unfoldable pub insert : Text → V → JsMap V → JsMap V
  insert k v [] = (k, v) ∷ []
  insert k v ((j, w) ∷ m) = if text_eq j k then (k, v) ∷ m else (j, w) ∷ insert k v m

  -- `map.delete(key)`
  unfoldable pub erase : Text → JsMap V → JsMap V
  erase k [] = []
  erase k ((j, w) ∷ m) = if text_eq j k then erase k m else (j, w) ∷ erase k m

  -- `map.size`
  abbrev pub size : JsMap V → ℕ
  size m = length m

  pub lookup-insert :
      (j k : Text) (v : V) (m : JsMap V)
      → lookup j (insert k v m) ≡ (if text_eq k j then some v else lookup j m)
  unfolding lookup insert
  lookup-insert j k v [] = refl
  lookup-insert j k v ((i, w) ∷ m) =
      ground (arith, text_eq_iff k j, text_eq_iff i k, text_eq_iff i j, lookup-insert j k v m)

  pub lookup-erase :
      (j k : Text) (m : JsMap V) → lookup j (erase k m) ≡ (if text_eq k j then none else lookup j m)
  unfolding lookup erase
  lookup-erase j k [] = ground arith
  lookup-erase j k ((i, w) ∷ m) =
      ground (arith, text_eq_iff k j, text_eq_iff i k, text_eq_iff i j, lookup-erase j k m)

  pub size-erase-le : (k : Text) (m : JsMap V) → size (erase k m) ≤ size m
  unfolding erase
  size-erase-le k [] = omega arith
  size-erase-le k ((j, w) ∷ m) = ground (arith, size-erase-le k m)

  pub erase_of_none : (k : Text) (m : JsMap V) → lookup k m ≡ none → erase k m ≡ m
  unfolding lookup erase
  erase_of_none k [] e = refl
  erase_of_none k ((j, w) ∷ m) e = ground (arith, erase_of_none k m)

  pub insert_of_none :
      (k : Text) (v : V) (m : JsMap V) → lookup k m ≡ none → insert k v m ≡ m ++ (k, v) ∷ []
  unfolding lookup insert
  insert_of_none k v [] e = refl
  insert_of_none k v ((j, w) ∷ m) e = ground (arith, insert_of_none k v m)

  -- The keys of a `Map` are distinct.
  abbrev pub HasDistinctKeys : JsMap V → Type ℓ
  HasDistinctKeys [] = Unit
  HasDistinctKeys ((k, v) ∷ m) = (lookup k m ≡ none) × HasDistinctKeys m

  pub insert-HasDistinctKeys :
      (k : Text) (v : V) (m : JsMap V) → HasDistinctKeys m → HasDistinctKeys (insert k v m)
  unfolding insert lookup
  insert-HasDistinctKeys k v [] h = (refl, tt)
  insert-HasDistinctKeys k v ((j, w) ∷ m) (p, h) = ground (
    arith,
    text_eq_iff j k,
    text_eq_iff k j,
    insert-HasDistinctKeys k v m h,
    lookup-insert j k v m,
  )

  pub erase-HasDistinctKeys :
      (k : Text) (m : JsMap V) → HasDistinctKeys m → HasDistinctKeys (erase k m)
  unfolding erase
  erase-HasDistinctKeys k [] h = tt
  erase-HasDistinctKeys k ((j, w) ∷ m) (p, h) =
      ground (arith, text_eq_iff k j, erase-HasDistinctKeys k m h, lookup-erase j k m)

  pub size-erase :
      (k : Text) {v : V} (m : JsMap V)
      → HasDistinctKeys m
      → lookup k m ≡ some v
      → size m ≡ suc (size (erase k m))
  unfolding lookup erase
  size-erase k [] h e = cc
  size-erase k {v} ((j, w) ∷ m) (p, h) e =
      ground (arith, text_eq_iff j k, size-erase k {v = v} m h, erase_of_none k m)

module _ {ℓ κ} {V : Type ℓ} (P : Text → V → Type κ) where
  -- A statement of every entry.
  abbrev pub Entries : JsMap V → Type κ
  Entries [] = Unit
  Entries ((k, v) ∷ m) = P k v × Entries m

  pub Entries-append : (m n : JsMap V) → Entries m → Entries n → Entries (m ++ n)
  Entries-append [] n _ h = h
  Entries-append ((k, v) ∷ m) n (p, h) h' = (p, Entries-append m n h h')

  pub Entries-erase : (k : Text) (m : JsMap V) → Entries m → Entries (erase k m)
  unfolding erase
  Entries-erase k [] h = tt
  Entries-erase k ((j, w) ∷ m) (p, h) = ground (arith, Entries-erase k m h)

  pub Entries-insert : (k : Text) (v : V) (m : JsMap V) → P k v → Entries m → Entries (insert k v m)
  unfolding insert
  Entries-insert k v [] q h = (q, tt)
  Entries-insert k v ((j, w) ∷ m) q (p, h) = ground (arith, Entries-insert k v m q h)

  pub Entries-lookup : (k : Text) (v : V) (m : JsMap V) → Entries m → lookup k m ≡ some v → P k v
  unfolding lookup
  Entries-lookup k v [] h e = cc
  Entries-lookup k v ((j, w) ∷ m) (p, h) e = ground (arith, text_eq_iff j k, Entries-lookup k v m h)
