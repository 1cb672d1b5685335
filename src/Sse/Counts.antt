-- ===== src/Sse/Counts.antt =====
-- The counts by address and by user of backend/src/services/sse.service.ts against its clients.
use flowfi.Prelude.{
  ℕ, zero, suc, ◌+◌, ◌-◌, ◌≤◌, ◌≡◌, refl, ap, sym, Bool, true, false, Option, none, some, List,
  arith, leb, Bool-cases, Option-cases, inl, inr,
}
use flowfi.Prelude.Text.{Text, text_eq, text_eq_iff}
use flowfi.Prelude.JsMap.{
  JsMap, lookup, erase, lookup-insert, lookup-erase, HasDistinctKeys, insert-HasDistinctKeys,
  erase-HasDistinctKeys, Entries, Entries-insert, Entries-erase,
}
use flowfi.Sse.{
  Client, Service, or_no_connections, count_of, user_of, add_count, add_user_count, add_client,
  drop_count, drop_user_count, remove_client, set_paused,
}
use flowfi.Sse.Registry.{bit, number, number-insert-none, number-insert-some, number-erase}

-- No entry stands for no connections.
abbrev pub tally : ℕ → Option ℕ
tally zero = none
tally (suc n) = some (suc n)

abbrev pub from_ip : Text → Client → Bool
from_ip ip c = text_eq c.ip ip

abbrev pub is_user : Option Text → Text → Bool
is_user none id = false
is_user (some user) id = text_eq user id

abbrev pub of_user : Text → Client → Bool
of_user id c = is_user (user_of c.user_id) id

-- The clients are stored under their ids, and the two maps hold the numbers of clients of each
-- address and of each user.
pub record IsValid (s : Service) : Type 0 where
  pub distinct : HasDistinctKeys s.clients
  pub named : Entries (λ id c. c.id ≡ id) s.clients
  pub by_ip : (ip : Text) → lookup ip s.ip_connection_counts ≡ tally (number (from_ip ip) s.clients)
  pub by_user :
      (user : Text) → lookup user s.user_connection_counts ≡ tally (number (of_user user) s.clients)

pub or_no_connections-tally : (n : ℕ) → or_no_connections (tally n) ≡ n
or_no_connections-tally zero = refl
or_no_connections-tally (suc n) = refl

tally_last : (n : ℕ) → leb n 1 ≡ true → tally (n - 1) ≡ none
tally_last zero h = refl
tally_last (suc zero) h = refl
tally_last (suc (suc n)) h = absurd (ground arith)

tally_positive : (n : ℕ) → 1 ≤ n → tally n ≡ some n
tally_positive zero h = absurd (omega arith)
tally_positive (suc n) h = refl

tally_more : (n : ℕ) → leb n 1 ≡ false → tally (n - 1) ≡ some (n - 1)
tally_more n h = tally_positive (n - 1) (ground arith)

module _ (total : Text → ℕ) (counts : JsMap ℕ)
    (h : (k : Text) → lookup k counts ≡ tally (total k)) where
  pub count_of-tally : (key : Text) → count_of key counts ≡ total key
  count_of-tally key = rw (h key) (or_no_connections-tally (total key))

  lookup-add_count :
      (key k : Text) → lookup k (add_count key counts) ≡ tally (total k + bit (text_eq key k))
  lookup-add_count key k = elim (Bool-cases (text_eq key k)) [
    | inl same ↦
        let e : key ≡ k = (text_eq_iff key k).0 same in
        rw (lookup-insert k key (count_of key counts + 1) counts, same, count_of-tally key, e)
          (ground arith)
    | inr other ↦
        rw (lookup-insert k key (count_of key counts + 1) counts, other, h k) (ground arith)
  ]

  lookup-drop_count :
      (key k : Text) → lookup k (drop_count key counts) ≡ tally (total k - bit (text_eq key k))
  lookup-drop_count key k =
      let here = count_of-tally key in
      elim (Bool-cases (text_eq key k)) [
        | inl same ↦
            let e : key ≡ k = (text_eq_iff key k).0 same in
            elim (Bool-cases (leb (total key) 1)) [
              | inl last ↦
                  rw (here, last, lookup-erase k key counts, same)
                    (sym (rw⁻¹ e (tally_last (total key) last)))
              | inr more ↦
                  rw (here, more, lookup-insert k key (total key - 1) counts, same)
                    (sym (rw⁻¹ e (tally_more (total key) more)))
            ]
        | inr other ↦ elim (Bool-cases (leb (total key) 1)) [
          | inl last ↦
              rw (here, last, lookup-erase k key counts, other, h k) (ap tally (omega arith))
          | inr more ↦
              rw (here, more, lookup-insert k key (total key - 1) counts, other, h k)
                (ap tally (omega arith))
        ]
      ]

  lookup-add_user_count :
      (user : Option Text) (k : Text)
      → lookup k (add_user_count user counts) ≡ tally (total k + bit (is_user user k))
  lookup-add_user_count none k = rw (h k) (ap tally (omega arith))
  lookup-add_user_count (some user) k = lookup-add_count user k

  lookup-drop_user_count :
      (user : Option Text) (k : Text)
      → lookup k (drop_user_count user counts) ≡ tally (total k - bit (is_user user k))
  lookup-drop_user_count none k = rw (h k) (ap tally (omega arith))
  lookup-drop_user_count (some user) k = lookup-drop_count user k

pub add_client-IsValid :
    (id : Text) (subscriptions : List Text) (ip : Text) (user : Option Text) (s : Service)
    → lookup id s.clients ≡ none
    → IsValid s
    → IsValid (add_client id subscriptions ip user s)
unfolding add_client
add_client-IsValid id subscriptions ip user s fresh h =
    let c : Client = record {
      id = id;
      subscriptions = subscriptions;
      paused = false;
      ip = ip;
      user_id = user;
    } in
    record {
      distinct = insert-HasDistinctKeys id c s.clients h.distinct;
      named = Entries-insert _ id c s.clients refl h.named;
      by_ip = λ k. rw (number-insert-none (from_ip k) id c s.clients fresh) (
          lookup-add_count (λ j. number (from_ip j) s.clients) s.ip_connection_counts h.by_ip ip k);
      by_user = λ k. rw (number-insert-none (of_user k) id c s.clients fresh) (
          lookup-add_user_count (λ j. number (of_user j) s.clients) s.user_connection_counts
            h.by_user (user_of user) k);
    }

erased :
    (p : Client → Bool) (id : Text) (c : Client) (m : JsMap Client)
    → HasDistinctKeys m
    → lookup id m ≡ some c
    → number p m - bit (p c) ≡ number p (erase id m)
erased p id c m d found = let e = number-erase p id c m d found in omega arith

pub remove_client-IsValid : (id : Text) (s : Service) → IsValid s → IsValid (remove_client id s)
unfolding remove_client
remove_client-IsValid id s h = elim (Option-cases (lookup id s.clients)) [
  | inl absent ↦ rw (absent, remove_client) h
  | inr (c, found) ↦
      rw (found, remove_client)
        (record {
          distinct = erase-HasDistinctKeys id s.clients h.distinct;
          named = Entries-erase _ id s.clients h.named;
          by_ip = λ k. rw⁻¹ (erased (from_ip k) id c s.clients h.distinct found) (
              lookup-drop_count (λ j. number (from_ip j) s.clients) s.ip_connection_counts h.by_ip
                c.ip k);
          by_user = λ k. rw⁻¹ (erased (of_user k) id c s.clients h.distinct found) (
              lookup-drop_user_count (λ j. number (of_user j) s.clients) s.user_connection_counts
                h.by_user (user_of c.user_id) k);
        })
]

pub set_paused-IsValid :
    (paused : Bool) (c : Client) (s : Service)
    → lookup c.id s.clients ≡ some c
    → IsValid s
    → IsValid (set_paused paused c s)
set_paused-IsValid paused c s found h =
    let c' = record c { paused = paused } in
    record {
      distinct = insert-HasDistinctKeys c.id c' s.clients h.distinct;
      named = Entries-insert _ c.id c' s.clients refl h.named;
      by_ip = λ k. rw (number-insert-some (from_ip k) c.id c' c s.clients found refl) (h.by_ip k);
      by_user =
          λ k. rw (number-insert-some (of_user k) c.id c' c s.clients found refl) (h.by_user k);
    }
