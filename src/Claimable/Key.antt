-- ===== src/Claimable/Key.antt =====
-- The cache key of backend/src/services/claimable.service.ts determines the stream's state and the
-- five seconds in which the request falls.
use flowfi.Prelude.{
  ◌≡◌, refl, sym, ap, Bool, true, false, Option, none, some, List, [], ◌∷◌, arith, ℤ, pos, negsuc,
  ◌*ℤ◌, floor_div, All,
}
use flowfi.Prelude.Text.{Text, codes, to_string}
use flowfi.Prelude.Text.Digits.{IsPlain, to_string-IsPlain, to_string_injective}
use flowfi.Prelude.Text.Join.{Lacks, join_cancel, join-ne-Lacks}
use flowfi.Claimable.{StreamState, join, flag, paused_text, updated_parts, bucket, cache_key}

join_injective :
    (a b : Text) (xs ys : List Text)
    → All (Lacks b':') (a ∷ xs)
    → All (Lacks b':') (b ∷ ys)
    → join a xs ≡ join b ys
    → (a ≡ b) × (xs ≡ ys)
unfolding join
join_injective a b [] [] h k e = (e, refl)
join_injective a b [] (y ∷ ys) (h, _) (k, _) e =
    absurd (join-ne-Lacks b':' b a (join y ys) h (sym e))
join_injective a b (x ∷ xs) [] (h, _) (k, _) e = absurd (join-ne-Lacks b':' a b (join x xs) k e)
join_injective a b (x ∷ xs) (y ∷ ys) (h, hs) (k, ks) e =
    let here = join_cancel b':' a b (join x xs) (join y ys) h k e in
    let there = join_injective x y xs ys hs ks here.1 in (here.0, cc (there.0, there.1))

IsPlain-Lacks : (s : Text) → All IsPlain s → Lacks b':' s
IsPlain-Lacks [] h = tt
IsPlain-Lacks (c ∷ s) (p, h) = (omega arith, IsPlain-Lacks s h)

pub to_string-Lacks : (z : ℤ) → Lacks b':' (to_string z)
to_string-Lacks z = IsPlain-Lacks (to_string z) (to_string-IsPlain z)

flag-Lacks : (b : Bool) → Lacks b':' (flag b)
flag-Lacks true = (omega arith, tt)
flag-Lacks false = (omega arith, tt)

paused_text-Lacks : (o : Option ℤ) → Lacks b':' (paused_text o)
paused_text-Lacks none = omega arith
paused_text-Lacks (some z) = to_string-Lacks z

flag_injective : (a b : Bool) → flag a ≡ flag b → a ≡ b
flag_injective a b e = ground arith

null-ne-to_string : (z : ℤ) → ¬ (codes "null" ≡ to_string z)
null-ne-to_string z e = go (to_string z) (to_string-IsPlain z) e
  where
    go : (t : Text) → All IsPlain t → ¬ (codes "null" ≡ t)
    go [] h e = cc
    go (c ∷ t) ((_, p), h) e = let q : b'n' ≡ c = ground arith in omega arith

paused_text_injective : (a b : Option ℤ) → paused_text a ≡ paused_text b → a ≡ b
paused_text_injective none none e = refl
paused_text_injective none (some y) e = absurd (null-ne-to_string y e)
paused_text_injective (some x) none e = absurd (null-ne-to_string x (sym e))
paused_text_injective (some x) (some y) e = ap some (to_string_injective x y e)

updated_parts_injective :
    (a b : Option ℤ) (x y : ℤ)
    → updated_parts a (to_string x ∷ []) ≡ updated_parts b (to_string y ∷ [])
    → (a ≡ b) × (x ≡ y)
updated_parts_injective none none x y e = (refl, to_string_injective x y (ground arith))
updated_parts_injective none (some v) x y e = cc
updated_parts_injective (some u) none x y e = cc
updated_parts_injective (some u) (some v) x y e =
    (ap some (to_string_injective u v (ground arith)), to_string_injective x y (ground arith))

bucket_injective : (t u : ℤ) → bucket t ≡ bucket u → floor_div t 5 ≡ floor_div u 5
unfolding ◌*ℤ◌
bucket_injective (pos m) (pos n) e = ground arith
bucket_injective (pos m) (negsuc n) e = ground arith
bucket_injective (negsuc m) (pos n) e = ground arith
bucket_injective (negsuc m) (negsuc n) e = ground arith

-- The three amounts hold no colon, as no text of digits does.
pub record HasPlainTexts (s : StreamState) : Type 0 where
  pub rate : Lacks b':' s.rate_per_second
  pub deposited : Lacks b':' s.deposited_amount
  pub withdrawn : Lacks b':' s.withdrawn_amount

abbrev parts : StreamState → ℤ → List Text
parts s t =
    to_string s.stream_id
    ∷ s.rate_per_second
    ∷ s.deposited_amount
    ∷ s.withdrawn_amount
    ∷ to_string s.start_time
    ∷ to_string s.last_update_time
    ∷ flag s.is_active
    ∷ flag s.is_paused
    ∷ paused_text s.paused_at
    ∷ to_string s.total_paused_duration
    ∷ updated_parts s.updated_at (to_string (bucket t) ∷ [])

updated_parts-Lacks : (o : Option ℤ) (x : ℤ) → All (Lacks b':') (updated_parts o (to_string x ∷ []))
updated_parts-Lacks none x = (to_string-Lacks x, tt)
updated_parts-Lacks (some u) x = (to_string-Lacks u, (to_string-Lacks x, tt))

parts-Lacks : (s : StreamState) (t : ℤ) → HasPlainTexts s → All (Lacks b':') (parts s t)
parts-Lacks s t h = (
  to_string-Lacks s.stream_id,
  (
    h.rate,
    (
      h.deposited,
      (
        h.withdrawn,
        (
          to_string-Lacks s.start_time,
          (
            to_string-Lacks s.last_update_time,
            (
              flag-Lacks s.is_active,
              (
                flag-Lacks s.is_paused,
                (
                  paused_text-Lacks s.paused_at,
                  (
                    to_string-Lacks s.total_paused_duration,
                    updated_parts-Lacks s.updated_at (bucket t),
                  ),
                ),
              ),
            ),
          ),
        ),
      ),
    ),
  ),
)

-- If no amount text holds a colon, two requests share a cache key only if every field of the
-- stream's state agrees and the two times fall into the same five seconds.
pub cache_key_injective :
    (s s' : StreamState) (t t' : ℤ)
    → HasPlainTexts s
    → HasPlainTexts s'
    → cache_key s t ≡ cache_key s' t'
    → (s ≡ s') × (floor_div t 5 ≡ floor_div t' 5)
unfolding cache_key
cache_key_injective s s' t t' h h' e =
    let lacks : Lacks b':' (codes "claimable") = omega arith in
    let same =
      (join_injective (codes "claimable") (codes "claimable") (parts s t) (parts s' t')
        (lacks, parts-Lacks s t h) (lacks, parts-Lacks s' t' h') e).1 in
    let id = to_string_injective s.stream_id s'.stream_id (cc) in
    let rate : s.rate_per_second ≡ s'.rate_per_second = cc in
    let deposited : s.deposited_amount ≡ s'.deposited_amount = cc in
    let withdrawn : s.withdrawn_amount ≡ s'.withdrawn_amount = cc in
    let start = to_string_injective s.start_time s'.start_time (cc) in
    let last = to_string_injective s.last_update_time s'.last_update_time (cc) in
    let active = flag_injective s.is_active s'.is_active (cc) in
    let paused = flag_injective s.is_paused s'.is_paused (cc) in
    let at = paused_text_injective s.paused_at s'.paused_at (cc) in
    let total = to_string_injective s.total_paused_duration s'.total_paused_duration (cc) in
    let last_parts =
      updated_parts_injective s.updated_at s'.updated_at (bucket t) (bucket t') (cc) in
    (
      λ i. record {
        stream_id = id i;
        rate_per_second = rate i;
        deposited_amount = deposited i;
        withdrawn_amount = withdrawn i;
        start_time = start i;
        last_update_time = last i;
        is_active = active i;
        is_paused = paused i;
        paused_at = at i;
        total_paused_duration = total i;
        updated_at = last_parts.0 i;
      },
      bucket_injective t t' last_parts.1,
    )
