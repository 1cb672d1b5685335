-- ===== src/Sse/Delivery.antt =====
-- Whom a broadcast of backend/src/services/sse.service.ts reaches.
use mathlib.Core.List.{append-nil, append_assoc}
use flowfi.Prelude.{
  ◌≡◌, refl, sym, ◌∙◌, ap, Bool, true, false, not, ◌&&◌, none, some, List, [], ◌∷◌, ◌++◌, arith,
  if◌then◌else◌, leb, Bool-cases, Option-cases, inl, inr,
}
use flowfi.Prelude.Text.{Text, text_eq, text_eq_iff, text_eq_refl}
use flowfi.Prelude.JsMap.{JsMap, lookup, lookup-insert, lookup-erase, HasDistinctKeys, Entries}
use flowfi.Sse.{
  Client, Service, remove_client, drop_slow_client, max_writable_buffer, Write, accepted, held_back,
  thrown, Network, record_written, set_paused, drop_if_slow, after_write, write_to_client,
  write_to_all, ids_of, broadcast,
}
use flowfi.Sse.Counts.{IsValid}
use flowfi.Sse.Registry.{if_cases}

abbrev pub is_thrown : Write → Bool
is_thrown thrown = true
is_thrown accepted = false
is_thrown held_back = false

remove_client-written : (id : Text) (s : Service) → (remove_client id s).written ≡ s.written
unfolding remove_client
remove_client-written id s = elim (Option-cases (lookup id s.clients)) [
  | inl absent ↦ rw (absent, remove_client) refl
  | inr (c, found) ↦ rw (found, remove_client) refl
]

remove_client-others :
    (id j : Text) (s : Service)
    → text_eq id j ≡ false
    → lookup j (remove_client id s).clients ≡ lookup j s.clients
unfolding remove_client
remove_client-others id j s other = elim (Option-cases (lookup id s.clients)) [
  | inl absent ↦ rw (absent, remove_client) refl
  | inr (c, found) ↦ rw (found, remove_client, lookup-erase j id s.clients, other) refl
]

-- An entry of a map that is found in it, under its client's id.
abbrev pub Found : JsMap Client → Text → Client → Type 0
Found m id c = (lookup id m ≡ some c) × (c.id ≡ id)

later-Found :
    (k : Text) (v : Client) (m n : JsMap Client)
    → lookup k n ≡ none
    → Entries (Found m) n
    → Entries (Found ((k, v) ∷ m)) n
unfolding lookup
later-Found k v m [] fresh h = tt
later-Found k v m ((j, d) ∷ n) fresh ((found, named), h) = elim (Bool-cases (text_eq j k)) [
  | inl same ↦ absurd (ground (arith, same))
  | inr other ↦
      let apart : text_eq k j ≡ false = ground (arith, other, text_eq_iff j k, text_eq_iff k j) in
      ((rw (apart, lookup) found, named), later-Found k v m n (ground (arith, other)) h)
]

self-Found :
    (m : JsMap Client) → HasDistinctKeys m → Entries (λ id c. c.id ≡ id) m → Entries (Found m) m
unfolding lookup
self-Found [] d h = tt
self-Found ((k, c) ∷ m) (q, d) (named, h) =
    ((rw (text_eq_refl k, lookup) refl, named), later-Found k c m m q (self-Found m d h))

module _ (net : Network) where
  drop_if_slow-written : (id : Text) (s : Service) → (drop_if_slow net id s).written ≡ s.written
  unfolding drop_if_slow drop_slow_client
  drop_if_slow-written id s = elim (Bool-cases (leb max_writable_buffer (net.writable_length id))) [
    | inl slow ↦ rw (slow, drop_if_slow) (remove_client-written id _)
    | inr fine ↦ rw (fine, drop_if_slow) refl
  ]

  drop_if_slow-others :
      (id j : Text) (s : Service)
      → text_eq id j ≡ false
      → lookup j (drop_if_slow net id s).clients ≡ lookup j s.clients
  unfolding drop_if_slow drop_slow_client
  drop_if_slow-others id j s other =
      elim (Bool-cases (leb max_writable_buffer (net.writable_length id))) [
        | inl slow ↦ rw (slow, drop_if_slow) (remove_client-others id j _ other)
        | inr fine ↦ rw (fine, drop_if_slow) refl
      ]

  -- The client is not paused, and its response takes the message.
  abbrev pub takes : Text → Client → Bool
  takes message c = not c.paused && not (is_thrown (net.write c.id message))

  abbrev pub taken : Text → Client → List (Text × Text)
  taken message c = if takes message c then (c.id, message) ∷ [] else []

  outcome_written :
      (w : Write) (c : Client) (message : Text) (s : Service)
      → (after_write net w c message s).written
        ≡ s.written ++ (if not (is_thrown w) then (c.id, message) ∷ [] else [])
  unfolding after_write
  outcome_written accepted c message s = refl
  outcome_written held_back c message s =
      drop_if_slow-written c.id (set_paused true c (record_written c.id message s))
  outcome_written thrown c message s = remove_client-written c.id s ∙ sym (append-nil s.written)

  outcome_others :
      (w : Write) (c : Client) (message : Text) (j : Text) (s : Service)
      → text_eq c.id j ≡ false
      → lookup j (after_write net w c message s).clients ≡ lookup j s.clients
  unfolding after_write
  outcome_others accepted c message j s other = refl
  outcome_others held_back c message j s other =
      drop_if_slow-others c.id j (set_paused true c (record_written c.id message s)) other
      ∙ rw (lookup-insert j c.id (record c { paused = true }) s.clients, other) refl
  outcome_others thrown c message j s other = remove_client-others c.id j s other

  write_to_client-written :
      (c : Client) (message : Text) (s : Service)
      → (write_to_client net c message s).written ≡ s.written ++ taken message c
  unfolding write_to_client
  write_to_client-written c message s =
      let shown : Bool → List (Text × Text) = λ b.
        if not b && not (is_thrown (net.write c.id message)) then (c.id, message) ∷ [] else [] in
      if_cases (λ (t : Service). t.written ≡ s.written ++ taken message c) c.paused
        (λ waiting.
          drop_if_slow-written c.id s
          ∙ sym (append-nil s.written)
          ∙ ap (λ b. s.written ++ shown b) (sym waiting))
        (λ ready.
          outcome_written (net.write c.id message) c message s
          ∙ ap (λ b. s.written ++ shown b) (sym ready))

  write_to_client-others :
      (c : Client) (message j : Text) (s : Service)
      → text_eq c.id j ≡ false
      → lookup j (write_to_client net c message s).clients ≡ lookup j s.clients
  unfolding write_to_client
  write_to_client-others c message j s other =
      if_cases (λ (t : Service). lookup j t.clients ≡ lookup j s.clients) c.paused
        (λ waiting. drop_if_slow-others c.id j s other)
        (λ ready. outcome_others (net.write c.id message) c message j s other)

  -- The writes of a broadcast to some of the stored clients.
  abbrev pub deliveries : (Client → Bool) → Text → JsMap Client → List (Text × Text)
  deliveries keep message [] = []
  deliveries keep message ((id, c) ∷ m) =
      (if keep c then taken message c else []) ++ deliveries keep message m

  stored_after :
      (c : Client) (message : Text) (s : Service) (m : JsMap Client)
      → lookup c.id m ≡ none
      → Entries (Found s.clients) m
      → Entries (Found (write_to_client net c message s).clients) m
  unfolding lookup
  stored_after c message s [] fresh h = tt
  stored_after c message s ((j, d) ∷ m) fresh ((found, named), h) =
      elim (Bool-cases (text_eq j c.id)) [
        | inl same ↦ absurd (ground (arith, same))
        | inr other ↦
            let apart : text_eq c.id j ≡ false =
              ground (arith, other, text_eq_iff j c.id, text_eq_iff c.id j) in
            (
              (write_to_client-others c message j s apart ∙ found, named),
              stored_after c message s m (ground (arith, other)) h,
            )
      ]

  write_to_all-written :
      (keep : Client → Bool) (message : Text) (m : JsMap Client) (s : Service)
      → HasDistinctKeys m
      → Entries (Found s.clients) m
      → (write_to_all net keep message (ids_of m) s).written
        ≡ s.written ++ deliveries keep message m
  unfolding write_to_all
  write_to_all-written keep message [] s d h = sym (append-nil s.written)
  write_to_all-written keep message ((id, c) ∷ m) s (q, d) ((found, named), h) =
      elim (Bool-cases (keep c)) [
        | inl kept ↦
            let fresh : lookup c.id m ≡ none = ap (λ k. lookup k m) named ∙ q in
            let next = write_to_client net c message s in
            let rest =
              write_to_all-written keep message m next d (stored_after c message s m fresh h) in
            rw (found, write_to_all, kept)
              (rest
                ∙ ap (λ w. w ++ deliveries keep message m) (write_to_client-written c message s)
                ∙ append_assoc s.written (taken message c) (deliveries keep message m))
        | inr other ↦ rw (found, write_to_all, other) (write_to_all-written keep message m s d h)
      ]

  -- A broadcast from a service whose clients are stored under distinct ids writes its message, in
  -- the order of the clients, to exactly those that the filter keeps, that are not paused and whose
  -- response does not throw, whatever the network does and whoever is dropped on the way.
  pub broadcast-written :
      (message : Text) (keep : Client → Bool) (s : Service)
      → IsValid s
      → (broadcast net message keep s).written ≡ s.written ++ deliveries keep message s.clients
  unfolding broadcast
  broadcast-written message keep s h =
      write_to_all-written keep message s.clients s h.distinct
        (self-Found s.clients h.distinct h.named)
