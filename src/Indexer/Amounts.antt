-- ===== src/Indexer/Amounts.antt =====
-- The amounts that the indexer reads from an event are texts of integers.
use flowfi.Prelude.{refl}
use flowfi.Prelude.Text.{codes}
use flowfi.Indexer.Xdr.{
  ScVal, sym, u64, u32, i128, address, map, other, StrKey, join_halves, decode_u64, decode_i128,
  decode_address, decode_map,
}
use flowfi.Indexer.Bodies.{field, parse_integer}
use flowfi.Indexer.Reads.{read_created, read_topped_up, read_cancelled, read_completed}
use flowfi.Indexer.Post.{Post, then_post, then_any}
use flowfi.Indexer.Validity.{IsInteger}

decode_i128-IsInteger : (v : ScVal) → Post (decode_i128 v) IsInteger
unfolding decode_i128
decode_i128-IsInteger (i128 hi lo) = (join_halves hi lo, refl)
decode_i128-IsInteger (sym s) = tt
decode_i128-IsInteger (u64 n) = tt
decode_i128-IsInteger (u32 n) = tt
decode_i128-IsInteger (address a) = tt
decode_i128-IsInteger (map m) = tt
decode_i128-IsInteger other = tt

module _ (str_key : StrKey) (value topic1 : ScVal) where
  pub read_created-IsInteger :
      Post
        (read_created str_key value topic1)
        (λ b. IsInteger b.rate_per_second × IsInteger b.deposited_amount)
  unfolding read_created
  read_created-IsInteger = then_any _ (decode_u64 topic1) _ (λ id.
      then_any _ (decode_map value) _ (λ body. then_any _ (field body (codes "sender")) _ (λ s.
        then_any _ (field body (codes "recipient")) _ (λ r.
          then_any _ (field body (codes "token_address")) _ (λ t.
            then_any _ (field body (codes "rate_per_second")) _ (λ rate_val.
              then_any _ (field body (codes "deposited_amount")) _ (λ deposited_val.
                then_any _ (field body (codes "start_time")) _ (λ start_val.
                  then_any _ (decode_address str_key s) _ (λ s'.
                    then_any _ (decode_address str_key r) _ (λ r'.
                      then_any _ (decode_address str_key t) _ (λ t'.
                        then_post _ (decode_i128 rate_val) _ (decode_i128-IsInteger rate_val)
                          (λ rate hr.
                            then_post _ (decode_i128 deposited_val) _
                              (decode_i128-IsInteger deposited_val)
                              (λ deposited hd. then_any _ (decode_u64 start_val) _ (λ start.
                                then_any _ (parse_integer rate) _ (λ n.
                                  then_any _ (parse_integer deposited) _
                                    (λ d. (hr, hd)))))))))))))))))

  pub read_topped_up-IsInteger :
      Post (read_topped_up value topic1) (λ b. IsInteger b.new_deposited_amount)
  unfolding read_topped_up
  read_topped_up-IsInteger = then_any _ (decode_u64 topic1) _ (λ id.
      then_any _ (decode_map value) _ (λ body.
        then_any _ (field body (codes "amount")) _ (λ amount_val.
          then_any _ (field body (codes "new_deposited_amount")) _ (λ deposited_val.
            then_any _ (decode_i128 amount_val) _ (λ a.
              then_post _ (decode_i128 deposited_val) _ (decode_i128-IsInteger deposited_val)
                (λ d h. h))))))

  pub read_cancelled-IsInteger :
      Post (read_cancelled value topic1) (λ b. IsInteger b.amount_withdrawn)
  unfolding read_cancelled
  read_cancelled-IsInteger = then_any _ (decode_u64 topic1) _ (λ id.
      then_any _ (decode_map value) _ (λ body.
        then_any _ (field body (codes "amount_withdrawn")) _ (λ withdrawn_val.
          then_any _ (field body (codes "refunded_amount")) _ (λ refunded_val.
            then_post _ (decode_i128 withdrawn_val) _ (decode_i128-IsInteger withdrawn_val)
              (λ w h. then_any _ (decode_i128 refunded_val) _ (λ r. h))))))

  pub read_completed-IsInteger :
      Post (read_completed str_key value topic1) (λ b. IsInteger b.total_withdrawn)
  unfolding read_completed
  read_completed-IsInteger = then_any _ (decode_u64 topic1) _ (λ id.
      then_any _ (decode_map value) _ (λ body.
        then_any _ (field body (codes "recipient")) _ (λ recipient_val.
          then_any _ (field body (codes "total_withdrawn")) _ (λ total_val.
            then_any _ (decode_address str_key recipient_val) _ (λ r.
              then_post _ (decode_i128 total_val) _ (decode_i128-IsInteger total_val)
                (λ t h. h))))))
