-- ===== src/Sse/Operations.antt =====
-- Every operation of backend/src/services/sse.service.ts but the opening of a connection: the
-- counts stay right, and no client is added.
use flowfi.Prelude.{
  ℕ, ◌+◌, ◌≤◌, ◌≡◌, refl, ◌∙◌, ap, Bool, true, false, some, List, [], ◌∷◌, arith, leb, Bool-cases,
  Option-cases, inl, inr,
}
use flowfi.Prelude.Text.{Text, codes}
use flowfi.Prelude.JsMap.{lookup, Entries-lookup}
use flowfi.Sse.{
  Client, Service, remove_client, drop_slow_client, max_writable_buffer, Write, accepted, held_back,
  thrown, Network, record_written, set_paused, drop_if_slow, after_write, write_to_client,
  write_to_all, ids_of, broadcast, send_heartbeat, drain, send_reconnect_to_all,
}
use flowfi.Sse.Registry.{if_cases, number, number-insert-some, number-erase}
use flowfi.Sse.Counts.{IsValid, remove_client-IsValid, set_paused-IsValid}

-- A test that does not ask whether a client is paused.
abbrev pub IgnoresPause : (Client → Bool) → Type 0
IgnoresPause p = (b : Bool) (c : Client) → p (record c { paused = b }) ≡ p c

-- From `s` to `s'` the counts stay right, and no client is added.
pub record Shrinks (s s' : Service) : Type 0 where
  pub valid : IsValid s'
  pub fewer : (p : Client → Bool) → IgnoresPause p → number p s'.clients ≤ number p s.clients
  pub cap : s'.max_connections ≡ s.max_connections

stays : (s : Service) → IsValid s → Shrinks s s
stays s h = record { valid = h; fewer = λ p i. omega arith; cap = refl }

trans-Shrinks : {s s' s'' : Service} → Shrinks s s' → Shrinks s' s'' → Shrinks s s''
trans-Shrinks a b = record {
  valid = b.valid;
  fewer = λ p i. let x = a.fewer p i in let y = b.fewer p i in omega arith;
  cap = b.cap ∙ a.cap;
}

pub remove_client-Shrinks : (id : Text) (s : Service) → IsValid s → Shrinks s (remove_client id s)
unfolding remove_client
remove_client-Shrinks id s h = elim (Option-cases (lookup id s.clients)) [
  | inl absent ↦ rw (absent, remove_client) (stays s h)
  | inr (c, found) ↦ record {
    valid = remove_client-IsValid id s h;
    fewer = λ p i.
        let e = number-erase p id c s.clients h.distinct found in
        rw (found, remove_client) (omega arith);
    cap = rw (found, remove_client) refl;
  }
]

set_paused-Shrinks :
    (b : Bool) (c : Client) (s : Service)
    → lookup c.id s.clients ≡ some c
    → IsValid s
    → Shrinks s (set_paused b c s)
set_paused-Shrinks b c s found h = record {
  valid = set_paused-IsValid b c s found h;
  fewer = λ p i.
      let e = number-insert-some p c.id (record c { paused = b }) c s.clients found (i b c) in
      omega arith;
  cap = refl;
}

-- What the operations do to the fields that the counts are not about.
abbrev with_rest : ℕ → Bool → List (Text × Text) → Service → Service
with_rest dropped down written s = record s {
  slow_clients_dropped = dropped;
  shutting_down = down;
  written = written;
}

with_rest-Shrinks :
    (dropped : ℕ) (down : Bool) (written : List (Text × Text)) (s : Service)
    → IsValid s
    → Shrinks s (with_rest dropped down written s)
with_rest-Shrinks dropped down written s h = record {
  valid = record { distinct = h.distinct; named = h.named; by_ip = h.by_ip; by_user = h.by_user };
  fewer = λ p i. omega arith;
  cap = refl;
}

stored_under_id :
    (id : Text) (c : Client) (s : Service)
    → IsValid s
    → lookup id s.clients ≡ some c
    → lookup c.id s.clients ≡ some c
stored_under_id id c s h found =
    ap (λ k. lookup k s.clients) (Entries-lookup _ id c s.clients h.named found) ∙ found

module _ (net : Network) where
  drop_if_slow-Shrinks : (id : Text) (s : Service) → IsValid s → Shrinks s (drop_if_slow net id s)
  unfolding drop_if_slow drop_slow_client
  drop_if_slow-Shrinks id s h =
      let s1 = with_rest (s.slow_clients_dropped + 1) s.shutting_down s.written s in
      let first = with_rest-Shrinks (s.slow_clients_dropped + 1) s.shutting_down s.written s h in
      elim (Bool-cases (leb max_writable_buffer (net.writable_length id))) [
        | inl slow ↦
            rw (slow, drop_if_slow) (trans-Shrinks first (remove_client-Shrinks id s1 first.valid))
        | inr fine ↦ rw (fine, drop_if_slow) (stays s h)
      ]

  write_outcome :
      (w : Write) (c : Client) (message : Text) (s : Service)
      → lookup c.id s.clients ≡ some c
      → IsValid s
      → Shrinks s (after_write net w c message s)
  unfolding after_write
  write_outcome accepted c message s found h =
      with_rest-Shrinks s.slow_clients_dropped s.shutting_down _ s h
  write_outcome held_back c message s found h =
      let first = with_rest-Shrinks s.slow_clients_dropped s.shutting_down _ s h in
      let second = set_paused-Shrinks true c (record_written c.id message s) found first.valid in
      trans-Shrinks first (trans-Shrinks second (drop_if_slow-Shrinks c.id _ second.valid))
  write_outcome thrown c message s found h = remove_client-Shrinks c.id s h

  write_to_client-Shrinks :
      (c : Client) (message : Text) (s : Service)
      → lookup c.id s.clients ≡ some c
      → IsValid s
      → Shrinks s (write_to_client net c message s)
  unfolding write_to_client
  write_to_client-Shrinks c message s found h =
      if_cases (Shrinks s) c.paused (λ waiting. drop_if_slow-Shrinks c.id s h)
        (λ ready. write_outcome (net.write c.id message) c message s found h)

  pub write_to_all-Shrinks :
      (keep : Client → Bool) (message : Text) (ids : List Text) (s : Service)
      → IsValid s
      → Shrinks s (write_to_all net keep message ids s)
  unfolding write_to_all
  write_to_all-Shrinks keep message [] s h = stays s h
  write_to_all-Shrinks keep message (id ∷ ids) s h = elim (Option-cases (lookup id s.clients)) [
    | inl gone ↦ rw (gone, write_to_all) (write_to_all-Shrinks keep message ids s h)
    | inr (c, found) ↦ elim (Bool-cases (keep c)) [
      | inl kept ↦
          let first = write_to_client-Shrinks c message s (stored_under_id id c s h found) h in
          rw (found, write_to_all, kept)
            (trans-Shrinks first (write_to_all-Shrinks keep message ids _ first.valid))
      | inr other ↦ rw (found, write_to_all, other) (write_to_all-Shrinks keep message ids s h)
    ]
  ]

  pub broadcast-Shrinks :
      (message : Text) (keep : Client → Bool) (s : Service)
      → IsValid s
      → Shrinks s (broadcast net message keep s)
  unfolding broadcast
  broadcast-Shrinks message keep s h = write_to_all-Shrinks keep message (ids_of s.clients) s h

  pub send_heartbeat-Shrinks : (s : Service) → IsValid s → Shrinks s (send_heartbeat net s)
  unfolding send_heartbeat
  send_heartbeat-Shrinks s h =
      write_to_all-Shrinks (λ c. true) (codes ": heartbeat\n\n") (ids_of s.clients) s h

  pub send_reconnect_to_all-Shrinks :
      (s : Service) → IsValid s → Shrinks s (send_reconnect_to_all net s)
  unfolding send_reconnect_to_all
  send_reconnect_to_all-Shrinks s h = with_rest-Shrinks s.slow_clients_dropped true _ s h

pub drain-Shrinks : (id : Text) (s : Service) → IsValid s → Shrinks s (drain id s)
unfolding drain
drain-Shrinks id s h = elim (Option-cases (lookup id s.clients)) [
  | inl gone ↦ rw (gone, drain) (stays s h)
  | inr (c, found) ↦
      rw (found, drain) (set_paused-Shrinks false c s (stored_under_id id c s h found) h)
]
