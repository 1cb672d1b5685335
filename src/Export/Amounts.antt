-- ===== src/Export/Amounts.antt =====
-- The amounts of an exported record, backend/src/services/export.service.ts, against the reader of
-- amounts in frontend/src/utils/amount.ts.
use flowfi.Prelude.{
  ℕ, ◌-◌, ◌*◌, ◌/◌, ◌≤◌, Option, some, if◌then◌else◌, ◌≡◌, refl, ap, arith, ℤ, pos, ◌-ℤ◌, -ℤ_pos,
  *ℤ_pos, trunc_div, Bool-cases, inl, inr,
}
use flowfi.Prelude.Text.{Text, text_eq, big_int, to_string}
use flowfi.Prelude.Text.Digits.{big_int-to_string}
use flowfi.Amount.{parse_amount}
use flowfi.Amount.RoundTrip.{parse_amount-places}
use flowfi.Indexer.Tables.{EventType, withdrawn, type_eq, Stream, StreamEvent}
use flowfi.Export.{
  TransactionRecord, with_decimals, calculate_protocol_fee, amount_or_zero,
  map_event_to_transaction, type_text,
}

-- Half a percent of a withdrawal, rounded down, and nothing of other amounts.
abbrev pub fee_of : EventType → ℕ → ℕ
fee_of type n = if type_eq type withdrawn then n * 5 / 1000 else 0

calculate_protocol_fee_pos :
    (text : Text) (type : EventType) (n : ℕ)
    → big_int text ≡ some (pos n)
    → calculate_protocol_fee text type ≡ some (to_string (pos (fee_of type n)))
unfolding calculate_protocol_fee
calculate_protocol_fee_pos text type n h = elim (Bool-cases (type_eq type withdrawn)) [
  | inl yes_withdrawn ↦
      rw (yes_withdrawn, h) (ap (λ z. some (to_string (trunc_div z (pos 1000)))) (*ℤ_pos n 5))
  | inr other ↦ rw other refl
]

fee_of-le : (type : EventType) (n : ℕ) → fee_of type n ≤ n
fee_of-le type n = elim (Bool-cases (type_eq type withdrawn)) [
  | inl yes_withdrawn ↦ rw yes_withdrawn (omega arith)
  | inr other ↦ rw other (omega arith)
]

-- For an event whose amount is a natural number, none counting as zero, and whose time can be
-- printed, there is a record. Its gross and net amounts, read with seven decimals, are the amount
-- and what the fee leaves of it; the fee is half a percent of a withdrawal, rounded down, and zero
-- for other events, and is at most the amount.
pub map_event_to_transaction-IsBalanced :
    (iso : ℤ → Option Text) (event : StreamEvent) (s : Stream) (user time : Text) (n : ℕ)
    → big_int (amount_or_zero event.amount) ≡ some (pos n)
    → iso event.timestamp ≡ some time
    → (r : TransactionRecord) × (map_event_to_transaction iso event s user ≡ some r)
      × (parse_amount r.gross_amount_formatted 7 ≡ some (pos n))
      × (big_int r.protocol_fee_deducted ≡ some (pos (fee_of event.event_type n)))
      × (parse_amount r.net_amount 7 ≡ some (pos (n - fee_of event.event_type n)))
      × (fee_of event.event_type n ≤ n)
unfolding map_event_to_transaction
map_event_to_transaction-IsBalanced iso event s user time n h at =
    let gross = amount_or_zero event.amount in
    let fee = fee_of event.event_type n in
    let fee_text = calculate_protocol_fee_pos gross event.event_type n h in
    let less = fee_of-le event.event_type n in
    let left : pos n -ℤ pos fee ≡ pos (n - fee) = -ℤ_pos n fee less in
    let sent = text_eq s.sender user in
    (
      record {
        timestamp = time;
        stream_id = to_string (pos s.stream_id);
        transaction_hash = event.transaction_hash;
        event_type = type_text event.event_type;
        is_outgoing = sent;
        counterparty_address = if sent then s.recipient else s.sender;
        token_contract = s.token_address;
        gross_amount_stroops = gross;
        gross_amount_formatted = with_decimals (pos n);
        protocol_fee_deducted = to_string (pos fee);
        net_amount = with_decimals (pos (n - fee));
      },
      rw (fee_text, h, big_int-to_string (pos fee), at, left, big_int-to_string (pos (n - fee)))
          refl,
      parse_amount-places n 6,
      big_int-to_string (pos fee),
      parse_amount-places (n - fee) 6,
      less,
    )
