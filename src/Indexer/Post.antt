-- ===== src/Indexer/Post.antt =====
-- What holds of the value of an outcome, if it has one.
use flowfi.Indexer.Xdr.{Outcome, ok, err, ◌>>=◌}

abbrev pub Post : {A : Type 0} → Outcome A → (A → Type 0) → Type 0
Post (ok a) P = P a
Post (err e) P = Unit

module _ {A B : Type 0} (P : B → Type 0) where
  pub then_post :
      {Q : A → Type 0} (m : Outcome A) (f : A → Outcome B)
      → Post m Q
      → ((a : A) → Q a → Post (f a) P)
      → Post (m >>= f) P
  then_post (ok a) f q h = h a q
  then_post (err e) f q h = tt

  pub then_any : (m : Outcome A) (f : A → Outcome B) → ((a : A) → Post (f a) P) → Post (m >>= f) P
  then_any (ok a) f h = h a
  then_any (err e) f h = tt
