-- ===== src/Indexer/Xdr.antt =====
-- The XDR decoding helpers of backend/src/workers/soroban-event-worker.ts. A value of the SDK is
-- given by the fields that the helpers read; a cast to another kind reads `undefined`, on which
-- `toString` throws. The encodings of keys are the SDK's, and are parameters.
use Prim.Native.Nat.{◌^◌}
use flowfi.Prelude.{
  ◌⊎◌, inl, inr, refl, ℕ, ◌-◌, ◌%◌, ◌≡◌, Option, none, some, [], if◌then◌else◌, ltb, ℤ, pos, negsuc,
  sub_ℕ, ◌+ℤ◌, ◌*ℤ◌,
}
use flowfi.Prelude.Text.{Text, to_string}
use flowfi.Prelude.JsMap.{JsMap, insert}

-- What a handler throws.
pub data Error : Type 0 where
  type_error missing_fields bad_integer not_found foreign_key : Error

pub data Outcome (A : Type 0) : Type 0 where
  ok : A → Outcome A
  err : Error → Outcome A

abbrev pub or_throw : {A : Type 0} → Option A → Error → Outcome A
or_throw (some value) error = ok value
or_throw none error = err error

-- A throw ends the handler.
infixl 5 ◌>>=◌
abbrev pub ◌>>=◌ : {A B : Type 0} (m : Outcome A) (next : A → Outcome B) → Outcome B
err error >>= next = err error
ok value >>= next = next value

pub Outcome-cases :
    {A : Type 0} (o : Outcome A) → ((a : A) × (o ≡ ok a)) ⊎ ((e : Error) × (o ≡ err e))
Outcome-cases (ok a) = inl (a, refl)
Outcome-cases (err e) = inr (e, refl)

-- An address is an account's key or a contract's hash, as bytes.
pub data Address : Type 0 where
  account contract : Text → Address

mutual
  pub data ScVal : Type 0 where
    sym : Text → ScVal
    u64 : ℕ → ScVal
    u32 : ℕ → ScVal
    i128 : ℤ → ℤ → ScVal
    address : Address → ScVal
    map : Entries → ScVal
    other : ScVal

  pub data Entries : Type 0 where
    nil : Entries
    entry : ScVal → ScVal → Entries → Entries

unfoldable pub decode_symbol : ScVal → Outcome Text
decode_symbol (sym s) = ok s
decode_symbol (u64 _) = err type_error
decode_symbol _ = err type_error

unfoldable pub decode_u64 : ScVal → Outcome ℕ
decode_u64 (u64 n) = ok n
decode_u64 (sym _) = err type_error
decode_u64 _ = err type_error

-- Reading the field of another kind gives `undefined`, and throws nothing.
unfoldable pub decode_u32 : ScVal → Option ℕ
decode_u32 (u32 n) = some n
decode_u32 (sym _) = none
decode_u32 _ = none

-- `BigInt.asUintN(bits, z)`
unfoldable pub as_uint_n : ℕ → ℤ → ℕ
as_uint_n bits (pos n) = n % 2 ^ bits
as_uint_n bits (negsuc n) = 2 ^ bits - 1 - n % 2 ^ bits

-- `BigInt.asIntN(64, z)`
unfoldable pub as_int_64 : ℤ → ℤ
unfolding as_uint_n
as_int_64 z = let u = as_uint_n 64 z in if ltb u (2 ^ 63) then pos u else sub_ℕ u (2 ^ 64)

-- `(hi << 64n) | lo`: the low 64 bits of the shifted number are zero, so the bits of `lo` add up.
unfoldable pub join_halves : ℤ → ℤ → ℤ
unfolding as_int_64
join_halves hi lo = as_int_64 hi *ℤ pos (2 ^ 64) +ℤ pos (as_uint_n 64 lo)

unfoldable pub decode_i128 : ScVal → Outcome Text
unfolding join_halves
decode_i128 (i128 hi lo) = ok (to_string (join_halves hi lo))
decode_i128 (sym _) = err type_error
decode_i128 _ = err type_error

-- The SDK's text encodings of an account's key and of a contract's hash.
pub record StrKey : Type 0 where
  pub encode_ed25519_public_key : Text → Text
  pub encode_contract : Text → Text

unfoldable pub decode_address : StrKey → ScVal → Outcome Text
decode_address str_key (address (account key)) = ok (str_key.encode_ed25519_public_key key)
decode_address str_key (address (contract hash)) = ok (str_key.encode_contract hash)
decode_address str_key (sym _) = err type_error
decode_address str_key _ = err type_error

-- The loop of `decodeMap`: a later entry of a name replaces an earlier one.
unfoldable pub decode_entries : JsMap ScVal → Entries → Outcome (JsMap ScVal)
unfolding decode_symbol
decode_entries result nil = ok result
decode_entries result (entry key val rest) = elim (decode_symbol key) [
  | ok name ↦ decode_entries (insert name val result) rest
  | err e ↦ err e
]

unfoldable pub decode_map : ScVal → Outcome (JsMap ScVal)
unfolding decode_entries
decode_map (map entries) = decode_entries [] entries
decode_map (sym _) = ok []
decode_map _ = ok []
