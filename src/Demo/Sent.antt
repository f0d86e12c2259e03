-- ===== src/Demo/Sent.antt =====
-- The messages that pqdemo.cc has sent when it ends.
use sqlitewrite.Base.{
  ℕ, zero, suc, ◌+◌, ◌≡◌, ◌∙◌, true, false, List, [], ◌∷◌, ◌++◌, ◌==◌, if◌then◌else◌, append_assoc,
  append-nil, refl, sym, ap, arith,
}
use sqlitewrite.Base.Int.{pos}
use sqlitewrite.Base.Exec.{ok, ◌>>=◌}
use sqlitewrite.Base.Lists.{length, length-append}
use sqlitewrite.Text.{Text, codes, text_eq, text_dec}
use sqlitewrite.PsqlWriter.Message.{Var, Message, message}
use sqlitewrite.PsqlWriter.Grouping.{for_table}
use sqlitewrite.PsqlWriter.Delivery.{for_table-append}
use sqlitewrite.PsqlWriter.Pipe.{
  PsqlWriter, unopened, open_pipe, add_value_to, send_values, write_message, close_pipe,
}
use sqlitewrite.Demo.Messages.{
  first_values, vals_values, last_values, send_loop, pqdemo_main, pqdemo_body,
}

-- The messages with the values of `count` rounds from round `n` on.
unfoldable pub messages : (ℕ → List (Text × Var)) → Text → ℕ → ℕ → List Message
messages values table zero n = []
messages values table (suc count) n = message table (values n) ∷ messages values table count (n + 1)

length-messages :
    (values : ℕ → List (Text × Var)) (table : Text) (count n : ℕ)
    → length (messages values table count n) ≡ count
unfolding messages
length-messages values table zero n = refl
length-messages values table (suc count) n = ap suc (length-messages values table count (n + 1))

for_table-messages :
    (values : ℕ → List (Text × Var)) (t table : Text) (count n : ℕ)
    → for_table t (messages values table count n)
      ≡ (if t == table then messages values table count n else [])
unfolding messages message
for_table-messages values t table zero n = ground arith
for_table-messages values t table (suc count) n =
    ground (arith, for_table-messages values t table count (n + 1))

length-parts :
    (m : Message) (a b c : List Message)
    → length ((((m ∷ []) ++ a) ++ b) ++ c) ≡ 1 + length a + length b + length c
length-parts m a b c =
    omega (arith, length-append (((m ∷ []) ++ a) ++ b) c, length-append ((m ∷ []) ++ a) b)

for_table-parts :
    (t : Text) (m : Message) (a b c : List Message)
    → for_table t ((((m ∷ []) ++ a) ++ b) ++ c)
      ≡ ((for_table t (m ∷ []) ++ for_table t a) ++ for_table t b) ++ for_table t c
for_table-parts t m a b c =
    for_table-append t (((m ∷ []) ++ a) ++ b) c
    ∙ ap (λ ms. ms ++ for_table t c)
        (for_table-append t ((m ∷ []) ++ a) b
          ∙ ap (λ ms. ms ++ for_table t b) (for_table-append t (m ∷ []) a))

module _ (times : ℕ → ℕ → ℕ) where
  send_loop-sent :
      (values : ℕ → List (Text × Var)) (table : Text) (count n : ℕ) (w : PsqlWriter)
      → send_loop times values table count n w
        ≡ (ok tt, record w { sent = w.sent ++ messages values table count n })
  unfolding send_loop messages ◌>>=◌ add_value_to send_values write_message
  send_loop-sent values table zero n w =
      ap (λ sent. (ok tt, record w { sent = sent })) (sym (append-nil w.sent))
  send_loop-sent values table (suc count) n w =
      send_loop-sent values table count (n + 1) _
      ∙ ap (λ sent. (ok tt, record w { sent = sent }))
          (append_assoc w.sent (message table (values n) ∷ [])
            (messages values table count (n + 1)))

  abbrev pub first_sent : Message
  first_sent = message (codes "data") ((codes "test", Var.int32 (pos 0)) ∷ [])

  abbrev pub sent_one : List Message
  sent_one = messages first_values (codes "data") 50000 0

  abbrev pub sent_two : List Message
  sent_two = messages (vals_values times) (codes "vals") 5000 0

  abbrev pub sent_three : List Message
  sent_three = messages last_values (codes "data") 50000 0

  -- All that the program sends, in order.
  abbrev all_sent : List Message
  all_sent = (((first_sent ∷ []) ++ sent_one) ++ sent_two) ++ sent_three

  pqdemo_main-sent :
      pqdemo_main times (ok tt) unopened
      ≡ (ok 0, record { sent = all_sent; write_end = false; thread = false })
  unfolding pqdemo_main pqdemo_body open_pipe close_pipe add_value_to send_values write_message
      ◌>>=◌
  pqdemo_main-sent =
      rw
        (
          send_loop-sent first_values (codes "data") 50000 0,
          send_loop-sent (vals_values times) (codes "vals") 5000 0,
          send_loop-sent last_values (codes "data") 50000 0,
        )
        refl

  same_table : (t : Text) → (t == t) ≡ true
  same_table t = ground arith

  data_is_not_vals : (codes "data" == codes "vals") ≡ false
  unfolding codes text_dec
  data_is_not_vals = refl

  vals_is_not_data : (codes "vals" == codes "data") ≡ false
  unfolding codes text_dec
  vals_is_not_data = refl

  abbrev pub sent_by_main : List Message
  sent_by_main = ((pqdemo_main times (ok tt) unopened).1).sent

  length-all_sent : length all_sent ≡ 105001
  length-all_sent = omega (
    arith,
    length-parts first_sent sent_one sent_two sent_three,
    length-messages first_values (codes "data") 50000 0,
    length-messages (vals_values times) (codes "vals") 5000 0,
    length-messages last_values (codes "data") 50000 0,
  )

  sent_to :
      (t : Text)
      → for_table t all_sent
        ≡ ((for_table t (first_sent ∷ []) ++ (if t == codes "data" then sent_one else []))
            ++ (if t == codes "vals" then sent_two else []))
          ++ (if t == codes "data" then sent_three else [])
  sent_to t =
      for_table-parts t first_sent sent_one sent_two sent_three
      ∙ rw
          (
            for_table-messages first_values t (codes "data") 50000 0,
            for_table-messages (vals_values times) t (codes "vals") 5000 0,
            for_table-messages last_values t (codes "data") 50000 0,
          )
          refl

  vals_sent : for_table (codes "vals") all_sent ≡ sent_two
  unfolding message
  vals_sent =
      sent_to (codes "vals")
      ∙ rw (vals_is_not_data, same_table (codes "vals")) (append-nil sent_two)

  data_sent : for_table (codes "data") all_sent ≡ first_sent ∷ (sent_one ++ sent_three)
  unfolding message
  data_sent =
      sent_to (codes "data")
      ∙ rw (data_is_not_vals, same_table (codes "data"))
          (ap (λ ms. first_sent ∷ (ms ++ sent_three)) (append-nil sent_one))

  -- Where the commit thread does not throw, the program returns 0, has closed the pipe, and has sent
  -- 105001 messages. For the table `vals` they are those of the second loop, for the table `data` the
  -- first message and those of the first and the third loop, in this order.
  pub pqdemo_main_lem :
      ((pqdemo_main times (ok tt) unopened).0 ≡ ok 0)
      × (((pqdemo_main times (ok tt) unopened).1).write_end ≡ false)
      × (length sent_by_main ≡ 105001)
      × (for_table (codes "vals") sent_by_main ≡ sent_two)
      × (for_table (codes "data") sent_by_main ≡ first_sent ∷ (sent_one ++ sent_three))
  pqdemo_main_lem =
      let e : sent_by_main ≡ all_sent = ap (λ r. (r.1).sent) pqdemo_main-sent in
      (
        ap (λ r. r.0) pqdemo_main-sent,
        ap (λ r. (r.1).write_end) pqdemo_main-sent,
        ap length e ∙ length-all_sent,
        ap (for_table (codes "vals")) e ∙ vals_sent,
        ap (for_table (codes "data")) e ∙ data_sent,
      )
