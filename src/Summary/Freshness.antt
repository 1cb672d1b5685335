-- ===== src/Summary/Freshness.antt =====
-- What the cache of `getUserStreamSummary` in backend/src/controllers/stream.controller.ts holds,
-- and so how old an answer may be.
use flowfi.Prelude.{
  ℕ, ◌+◌, ◌<◌, ◌≤◌, Option, none, some, [], ◌∷◌, ◌≡◌, refl, ap, ltb, ltb→lt, leb, arith, Bool-cases,
  Option-cases, inl, inr,
}
use flowfi.Prelude.Text.{Text, trim}
use flowfi.Prelude.JsMap.{JsMap, lookup, Entries, Entries-insert, Entries-lookup}
use flowfi.MemoryCache.{MemoryCache}
use flowfi.Claimable.{Value}
use flowfi.Indexer.Tables.{Db}
use flowfi.Streams.{Reply, sent, refused}
use flowfi.Summary.{
  UserStreamSummary, UserSummaryCacheEntry, SummaryState, SummaryEnv, prune_user_summary_cache,
  user_summary, keep_summary, make_summary, summary_of_address, get_user_stream_summary,
}

-- A summary was made for an address at a time, from the tables of then.
pub record IsMade (Was : ℕ → Db → Type 0) (address : Text) (value : UserStreamSummary) (at : ℕ)
    : Type 0 where
  pub env : SummaryEnv
  pub db : Db
  pub cache : MemoryCache Value
  pub was : Was at db
  pub made : (user_summary env at address db cache).1 ≡ some value

module _ (Was : ℕ → Db → Type 0) where
  -- Every summary that is kept was made for its key, thirty seconds before it expires.
  abbrev pub IsKept : ℕ → Text → UserSummaryCacheEntry → Type 0
  IsKept now key entry =
      (at : ℕ) × IsMade Was key entry.value at × (at ≤ now) × (entry.expires_at_ms ≡ at + 30000)

  abbrev pub HasMade : ℕ → SummaryState → Type 0
  HasMade now state = Entries (λ key entry. IsKept now key entry) state.user_summary_cache

  -- An answer is a summary made for an address less than thirty seconds before.
  abbrev pub IsFresh : ℕ → Text → Reply UserStreamSummary → Type 0
  IsFresh now address (sent status value) =
      (status ≡ 200) × ((at : ℕ) × IsMade Was address value at × (at ≤ now) × (now < at + 30000))
  IsFresh now address (refused status code) = Unit

  IsKept-later :
      (before now : ℕ) (m : JsMap UserSummaryCacheEntry)
      → before ≤ now
      → Entries (λ key entry. IsKept before key entry) m
      → Entries (λ key entry. IsKept now key entry) m
  IsKept-later before now [] le h = tt
  IsKept-later before now ((key, entry) ∷ m) le ((at, made, early, ends), h) =
      ((at, made, omega (arith, early, le), ends), IsKept-later before now m le h)

  prune-Entries :
      (now t : ℕ) (m : JsMap UserSummaryCacheEntry)
      → Entries (λ key entry. IsKept t key entry) m
      → Entries (λ key entry. IsKept t key entry) (prune_user_summary_cache now m)
  unfolding prune_user_summary_cache
  prune-Entries now t [] h = tt
  prune-Entries now t ((key, entry) ∷ m) (p, h) = elim (Bool-cases (leb entry.expires_at_ms now)) [
    | inl over ↦ rw over (prune-Entries now t m h)
    | inr still ↦ rw still (p, prune-Entries now t m h)
  ]

  abbrev Answers : ℕ → Text → Reply UserStreamSummary × SummaryState → Type 0
  Answers now address (reply, state) = IsFresh now address reply × HasMade now state

  make_summary-Answers :
      (env : SummaryEnv) (now : ℕ) (address : Text) (db : Db) (state : SummaryState)
      → Was now db
      → HasMade now state
      → Answers now address (make_summary env now address db state)
  make_summary-Answers env now address db state was h =
      go (user_summary env now address db state.claimable_cache) refl
    where
      kept : JsMap UserSummaryCacheEntry
      kept = prune_user_summary_cache now state.user_summary_cache

      go :
          (p : MemoryCache Value × Option UserStreamSummary)
          → user_summary env now address db state.claimable_cache ≡ p
          → Answers now address (keep_summary env now address kept p)
      go (cache, none) e = (tt, prune-Entries now now state.user_summary_cache h)
      go (cache, some value) e =
          let here : IsMade Was address value now = record {
            env = env;
            db = db;
            cache = state.claimable_cache;
            was = was;
            made = ap (λ p. p.1) e;
          } in
          (
            (refl, (now, here, omega arith, omega arith)),
            Entries-insert (λ key entry. IsKept now key entry) address
                (record { value = value; expires_at_ms = now + 30000 }) kept
                (now, here, omega arith, refl) (prune-Entries now now state.user_summary_cache h),
          )

  summary_of_address-Answers :
      (env : SummaryEnv) (now : ℕ) (address : Text) (db : Db) (state : SummaryState)
      → Was now db
      → HasMade now state
      → Answers now address (summary_of_address env now address db state)
  unfolding summary_of_address
  summary_of_address-Answers env now [] db state was h = (tt, h)
  summary_of_address-Answers env now (c ∷ key) db state was h =
      elim (Option-cases (lookup (c ∷ key) state.user_summary_cache)) [
        | inl absent ↦
            rw (absent, summary_of_address) (make_summary-Answers env now (c ∷ key) db state was h)
        | inr (entry, found) ↦ elim (Bool-cases (ltb now entry.expires_at_ms)) [
          | inr over ↦
              rw (found, over, summary_of_address)
                (make_summary-Answers env now (c ∷ key) db state was h)
          | inl fresh ↦
              let (at, made, early, ends) =
                Entries-lookup (λ k e. IsKept now k e) (c ∷ key) entry state.user_summary_cache h
                  found in
              rw (found, fresh, summary_of_address)
                (
                  (
                    refl,
                    (at, made, early, omega (arith, ltb→lt now entry.expires_at_ms fresh, ends)),
                  ),
                  h,
                )
        ]
      ]

-- From a cache in which every summary was made for its key, from the tables of then, and thirty
-- seconds before it expires, an answer at a later time is a summary that was made so for the
-- trimmed address less than thirty seconds ago, and the cache stays so.
pub get_user_stream_summary-IsFresh :
    (Was : ℕ → Db → Type 0) (env : SummaryEnv) (before now : ℕ) (raw : Text) (db : Db)
    (state : SummaryState)
    → Was now db
    → before ≤ now
    → HasMade Was before state
    → IsFresh Was now (trim raw) (get_user_stream_summary env now raw db state).0
      × HasMade Was now (get_user_stream_summary env now raw db state).1
unfolding get_user_stream_summary
get_user_stream_summary-IsFresh Was env before now raw db state was le h =
    summary_of_address-Answers Was env now (trim raw) db state was
      (IsKept-later Was before now state.user_summary_cache le h)
