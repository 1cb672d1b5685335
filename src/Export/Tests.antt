-- ===== src/Export/Tests.antt =====
-- Exports of backend/src/services/export.service.ts.
use flowfi.Prelude.{
  ℕ, ◌≡◌, ◌≤◌, refl, arith, false, Option, none, some, List, [], ◌∷◌, ◌++◌, ℤ, pos, ◌-ℤ◌, ◌*ℤ◌,
}
use flowfi.Prelude.Text.{Text, codes, text_eq, big_int, to_string}
use flowfi.Csv.{join_with}
use flowfi.Amount.{parse_amount}
use flowfi.Indexer.Tables.{Stream, StreamEvent, EventType, created, withdrawn}
use flowfi.Export.{
  Direction, incoming, outgoing, all, Date, at, invalid, ExportOptions, TransactionRecord, Rows,
  map_event_to_transaction,
}
use flowfi.Export.Write.{
  End, closed, left_open, stream_transaction_csv, stream_transaction_json, csv_headers,
}
use flowfi.Export.Pages.{HasKeys}
use flowfi.Export.Records.{exported, csv_export, stream_transaction_csv_once}
use flowfi.Export.Elements.{json_export, as_text, stream_transaction_json_once}
use flowfi.Export.Amounts.{map_event_to_transaction-IsBalanced}

abbrev stream : Stream
stream = record {
  stream_id = 7;
  sender = codes "GS";
  recipient = codes "GR";
  token_address = codes "C";
  rate_per_second = codes "1";
  deposited_amount = codes "100";
  withdrawn_amount = codes "10";
  start_time = pos 1000;
  last_update_time = pos 1000;
  end_time = none;
  is_active = false;
  is_paused = false;
  paused_at = none;
  total_paused_duration = pos 0;
}

abbrev other : Stream
other = record stream { stream_id = 8; sender = codes "GT"; recipient = codes "GS" }

abbrev event : ℕ → EventType → Text → Text → ℕ → StreamEvent
event id type amount hash t = record {
  stream_id = id;
  event_type = type;
  amount = some amount;
  transaction_hash = hash;
  ledger_sequence = 1;
  timestamp = pos t;
  metadata = [];
}

abbrev withdrawal : StreamEvent
withdrawal = event 7 withdrawn (codes "20000001") (codes "bb") 30

-- Events out of order, and one of a stream of others.
abbrev rows : Rows
rows = record {
  streams =
      record { id = codes "k1"; stream = stream } ∷ record { id = codes "k2"; stream = other } ∷ [];
  events =
      withdrawal
      ∷ event 7 created (codes "100") (codes "aa") 10
      ∷ event 8 created [] (codes "c,c") 20
      ∷ [];
}

abbrev options : Direction → Option Date → ExportOptions
options direction start = record {
  direction = direction;
  start_date = start;
  end_date = some (at (pos 30999));
  token_address = none;
}

abbrev iso : ℤ → Option Text
iso t = some (codes "t")

abbrev csv : Direction → Option Date → Rows → End × List Text
unfolding stream_transaction_csv
csv direction start table =
    let (end, e) = stream_transaction_csv iso (codes "GS") (options direction start) table 3 in
    (end, e.written)

abbrev header : Text
header = csv_headers ++ 10 ∷ []

abbrev row_of : Text → Text
row_of s = s ++ 10 ∷ []

csv_runs :
    (csv all none rows ≡ (
      closed,
      header
          ∷ row_of (codes "t,7,aa,CREATED,OUTGOING,GR,C,100,0.0000100,0,0.0000100")
          ∷ row_of (codes "t,7,bb,WITHDRAWN,OUTGOING,GR,C,20000001,2.0000001,100000,1.9900001")
          ∷ row_of (codes "t,8,\"c,c\",CREATED,INCOMING,GT,C,0,0.0000000,0,0.0000000")
          ∷ [],
    ))
    × (csv outgoing (some (at (pos 20000))) rows ≡ (
      closed,
      header
          ∷ row_of (codes "t,7,bb,WITHDRAWN,OUTGOING,GR,C,20000001,2.0000001,100000,1.9900001")
          ∷ [],
    ))
unfolding csv to_string big_int ◌*ℤ◌ ◌-ℤ◌ text_eq join_with
csv_runs = (refl, refl)

-- A bound that is no date leaves a response with a header that is never closed, and so does an
-- amount that is no integer.
never_closed :
    (csv all (some invalid) rows ≡ (left_open, header ∷ []))
    × (csv all none
          (record rows { events = event 8 created (codes "x") (codes "dd") 5 ∷ rows.events })
        ≡ (
          left_open,
          header
              ∷ row_of (codes "t,7,aa,CREATED,OUTGOING,GR,C,100,0.0000100,0,0.0000100")
              ∷ row_of (codes "t,7,bb,WITHDRAWN,OUTGOING,GR,C,20000001,2.0000001,100000,1.9900001")
              ∷ [],
        ))
unfolding csv to_string big_int ◌*ℤ◌ ◌-ℤ◌ text_eq join_with
never_closed = (refl, refl)

rows-HasKeys : HasKeys rows.streams
unfolding text_eq
rows-HasKeys = ((refl, tt), (tt, tt))

stream_transaction_csv_once_example :
    stream_transaction_csv iso (codes "GS") (options all none) rows 3
    ≡ csv_export (exported iso (codes "GS") (options all none) rows none (some (pos 30)))
stream_transaction_csv_once_example =
    stream_transaction_csv_once iso (codes "GS") (options all none) rows 3 none (some (pos 30))
      rows-HasKeys (omega arith) refl refl

stream_transaction_json_once_example :
    as_text (stream_transaction_json iso (codes "GS") (options incoming none) rows (codes "now") 3)
    ≡ json_export
        (codes "GS")
        (codes "now")
        (exported iso (codes "GS") (options incoming none) rows none (some (pos 30)))
stream_transaction_json_once_example =
    stream_transaction_json_once iso (codes "GS") (codes "now") (options incoming none) rows 3 none
      (some (pos 30)) rows-HasKeys (omega arith) refl refl

amount_read : big_int (codes "20000001") ≡ some (pos 20000001)
unfolding big_int
amount_read = refl

map_event_to_transaction-IsBalanced_example :
    (r : TransactionRecord) × (map_event_to_transaction iso withdrawal stream (codes "GS") ≡ some r)
    × (parse_amount r.gross_amount_formatted 7 ≡ some (pos 20000001))
    × (big_int r.protocol_fee_deducted ≡ some (pos 100000))
    × (parse_amount r.net_amount 7 ≡ some (pos 19900001))
    × (100000 ≤ 20000001)
map_event_to_transaction-IsBalanced_example =
    map_event_to_transaction-IsBalanced iso withdrawal stream (codes "GS") (codes "t") 20000001
      amount_read refl
