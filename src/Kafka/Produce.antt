-- ===== src/Kafka/Produce.antt =====
-- `tm_kafka_produce` and `tm_kafka_produce_on_partition` of src/tm_kafka.c: a call of librdkafka is
-- repeated while its queue is full.
use tracemate.Base.{
  ℕ, zero, suc, Bool, true, false, List, [], ◌∷◌, Option, none, some, ◌≡◌, ◌↔◌, refl, sym, ◌∙◌, ap,
  arith,
}

-- What a call of rd_kafka_produce answers: 0, or -1 with the error RD_KAFKA_RESP_ERR__QUEUE_FULL or
-- with another.
pub data Produced : Type 0 where
  enqueued queue_full failed : Produced

-- The answer, how often Kafka was polled, and the answers that were not asked for.
pub record Outcome : Type 0 where
  pub sent : Bool
  pub polls : ℕ
  pub unasked : List Produced

abbrev polled : Option Outcome → Option Outcome
polled none = none
polled (some o) = some (record o { polls = suc o.polls })

-- On the answers to come; `none` where the queue is still full behind the last of them.
unfoldable pub tm_kafka_produce : List Produced → Option Outcome
tm_kafka_produce [] = none
tm_kafka_produce (enqueued ∷ answers) = some (record { sent = true; polls = 0; unasked = answers })
tm_kafka_produce (failed ∷ answers) = some (record { sent = false; polls = 0; unasked = answers })
tm_kafka_produce (queue_full ∷ answers) = polled (tm_kafka_produce answers)

abbrev pub full : ℕ → List Produced → List Produced
full zero answers = answers
full (suc n) answers = queue_full ∷ full n answers

-- The last answer that was asked for.
abbrev pub last_answer : Bool → Produced
last_answer true = enqueued
last_answer false = failed

polled-inv :
    (o : Option Outcome) (r : Outcome)
    → polled o ≡ some r
    → (p : Outcome) × (o ≡ some p) × (r ≡ record p { polls = suc p.polls })
polled-inv none r e = absurd (cc)
polled-inv (some p) r e = (p, refl, ground arith)

asked :
    (answers : List Produced) (o : Outcome)
    → tm_kafka_produce answers ≡ some o
    → answers ≡ full o.polls (last_answer o.sent ∷ o.unasked)
unfolding tm_kafka_produce
asked [] o e = cc
asked (enqueued ∷ answers) o e = ground arith
asked (failed ∷ answers) o e = ground arith
asked (queue_full ∷ answers) o e =
    let (p, returns, more) = polled-inv (tm_kafka_produce answers) o e in
    ap (◌∷◌ queue_full) (asked answers p returns)
    ∙ ap (λ (x : Outcome). full x.polls (last_answer x.sent ∷ x.unasked)) (sym more)

returned :
    (sent : Bool) (polls : ℕ) (unasked : List Produced)
    → tm_kafka_produce (full polls (last_answer sent ∷ unasked))
      ≡ some (record { sent = sent; polls = polls; unasked = unasked })
unfolding tm_kafka_produce
returned true zero unasked = refl
returned false zero unasked = refl
returned sent (suc polls) unasked = ap polled (returned sent polls unasked)

-- The call returns exactly where Kafka, after some answers that its queue is full, takes the
-- message or fails otherwise; it has polled once for each answer before that and asks for no other,
-- and it returns true where the message was taken and false where it failed.
pub tm_kafka_produce_iff :
    (answers : List Produced) (o : Outcome)
    → (tm_kafka_produce answers ≡ some o)
      ↔ (answers ≡ full o.polls (last_answer o.sent ∷ o.unasked))
tm_kafka_produce_iff answers o =
    (asked answers o, λ e. ap tm_kafka_produce e ∙ returned o.sent o.polls o.unasked)
