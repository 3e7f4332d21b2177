-- ===== src/Queue/Delivery.antt =====
-- One delivery end to end: the consumer (pkg/queue/consumer.go) over the Redis driver
-- (pkg/queue/redis_driver.go) and its scripts, as a step of the channel's state.
use async_queue_go.Prelude.{
  ℕ, String, ◌≡◌, ap, ◌∙◌, Bool, false, Option, none, some, List, if◌then◌else◌, str_eq,
}
use async_queue_go.Prelude.Tests.{by_test}
use async_queue_go.Prelude.Int.{ℤ, pos, ◌+ℤ◌, leb_ℤ, ltb_ℤ, int64}
use async_queue_go.Redis.Server.{Server}
use async_queue_go.Redis.Agreement.{IsRedis}
use async_queue_go.Core.Message.{Message, normalise, done, dropped, encode}
use async_queue_go.Core.Outcome.{Result}
use async_queue_go.Queue.Keys.{new_keys, message}
use async_queue_go.Queue.Cjson.{Cjson}
use async_queue_go.Queue.Lua.Commit.{Mode, to_waiting, to_delayed}
use async_queue_go.Queue.State.{Channel, observe}
use async_queue_go.Queue.State.Commit.{commit_spec, fail_spec, requeue_spec, commits_refine}
use async_queue_go.Queue.State.Retry.{retry_spec, retry_refines}
use async_queue_go.Queue.RedisDriver.{
  Reply, ok, err, Error, Libraries, retried_message, load_message,
}
use async_queue_go.Queue.RedisDriver
use async_queue_go.Queue.Lua.Manage
use async_queue_go.Queue.RedisDriver.Replies.{IsConnected}
use async_queue_go.Queue.RedisDriver.Loading.{after_get, observe-after_get, message_loaded}
use async_queue_go.Queue.Consumer.{
  Driver, Retried, answered, retry_error, Consumer, Hook, Handled, result, error, panic, Run,
  handle_one,
}
use async_queue_go.Queue.Consumer.Commits.{
  Commit, acks, requeues, drops, fails, retries, act, retry_or_fail, expected, handle_one-acts,
}

abbrev answer : {D : Type 0} → (Error → ℕ) → Reply (Unit {0}) × D → Option ℕ × D
answer number (ok _, d) = (none, d)
answer number (err e, d) = (some (number e), d)

abbrev retry_answer : {D : Type 0} → (Error → ℕ) → Reply Bool × D → Retried × D
retry_answer number (ok found, d) = (answered found, d)
retry_answer number (err e, d) = (retry_error (number e), d)

-- The driver that a consumer of a channel calls; `number` tells the errors apart.
abbrev pub redis_driver : (s : Server) → Libraries s → ℤ → String → (Error → ℕ) → Driver s.Db
redis_driver s l now channel number = record {
  ack = λ id d. answer number (RedisDriver.ack s l now channel id d);
  requeue = λ id d. answer number (RedisDriver.requeue s l now channel id d);
  drop = λ id d. answer number (RedisDriver.drop s l now channel id d);
  fail = λ id d. answer number (RedisDriver.fail s l now channel id d);
  retry = λ id delay d. retry_answer number (RedisDriver.retry s l now channel id delay d);
}

-- What a commit does to the channel; a retry stores a new text for the message.
abbrev pub outcome : Cjson → ℤ → (ℤ → String) → Commit → Channel → Channel
outcome c now text (acks id) o = commit_spec c done now id o
outcome c now text (drops id) o = commit_spec c dropped now id o
outcome c now text (requeues id) o = requeue_spec c now id o
outcome c now text (fails id) o = fail_spec c now id o
outcome c now text (retries id delay) o =
    (retry_spec (if leb_ℤ delay (pos 0) then to_waiting else to_delayed) (int64 (now +ℤ delay)) id
      (text delay) o).1

module _ (s : Server) (r : IsRedis s) (l : Libraries s) (now : ℤ) (channel : String)
    (number : Error → ℕ) (up : IsConnected l.client) where
  abbrev b : Driver s.Db
  b = redis_driver s l now channel number

  -- `m` is the message as it is stored, and `text` its texts after a retry.
  module _ (id raw : String) (m : Message) (text : ℤ → String) (db : s.Db)
      (named : str_eq id "" ≡ false) (stored : (observe channel (r.view db)).entity id ≡ some raw)
      (read : l.json.unmarshal raw ≡ some m)
      (written : (delay : ℤ)
        → l.json.marshal (retried_message delay now (normalise now m)) ≡ some (text delay)) where
    -- The commit has the effect that its specification gives.
    Refines : Commit → Type 0
    Refines x =
        observe channel (r.view (act b x db))
        ≡ outcome l.cjson now text x (observe channel (r.view db))

    acks-Refines : Refines (acks id)
    unfolding RedisDriver.ack Refines
    acks-Refines =
        ap (λ p. observe channel (r.view (answer number p).1)) (up Unit _ db)
        ∙ (commits_refine s r l.cjson channel id now db).0

    drops-Refines : Refines (drops id)
    unfolding RedisDriver.drop Refines
    drops-Refines =
        ap (λ p. observe channel (r.view (answer number p).1)) (up Unit _ db)
        ∙ (commits_refine s r l.cjson channel id now db).1

    fails-Refines : Refines (fails id)
    unfolding RedisDriver.fail Refines
    fails-Refines =
        ap (λ p. observe channel (r.view (answer number p).1)) (up Unit _ db)
        ∙ (commits_refine s r l.cjson channel id now db).2

    requeues-Refines : Refines (requeues id)
    unfolding RedisDriver.requeue Refines
    requeues-Refines =
        ap (λ p. observe channel (r.view (answer number p).1)) (up Unit _ db)
        ∙ (commits_refine s r l.cjson channel id now db).3

    abbrev mode : ℤ → Mode
    mode delay = if leb_ℤ delay (pos 0) then to_waiting else to_delayed

    retry_sent :
        (delay : ℤ)
        → RedisDriver.retry s l now channel id delay db ≡ (
            let k = new_keys channel in
            let p =
              Manage.retry_by_id s k
                (message k id)
                id
                (int64 (now +ℤ delay))
                (text delay)
                (mode delay)
                (after_get s r channel id db) in
            (ok p.0, p.1))
    unfolding RedisDriver.retry encode
    retry_sent delay = rw named (
        rw (message_loaded s r channel id db l now raw m up stored read)
          (rw (written delay) (up Bool _ (after_get s r channel id db))))

    retries-Refines : (delay : ℤ) → Refines (retries id delay)
    unfolding Refines
    retries-Refines delay =
        ap (λ p. observe channel (r.view (retry_answer number p).1)) (retry_sent delay)
        ∙ ap (λ p. p.1)
            (retry_refines s r channel id (text delay) (mode delay) _ (after_get s r channel id db))
        ∙ ap (λ o. (retry_spec (mode delay) (int64 (now +ℤ delay)) id (text delay) o).1)
            (observe-after_get s r channel id db)

    retry_or_fail-Refines : (delays : List ℤ) (m' : Message) → Refines (retry_or_fail delays id m')
    retry_or_fail-Refines delays m' =
        by_test Refines (ltb_ℤ m'.attempts m'.max_attempts) _ _ (λ more. retries-Refines _)
          (λ spent. fails-Refines)

    expected-Refines : (delays : List ℤ) (h : Handled × Message) → Refines (expected delays id h)
    expected-Refines delays (result Result.requeue, m') = requeues-Refines
    expected-Refines delays (result Result.drop, m') = drops-Refines
    expected-Refines delays (result Result.retry, m') = retry_or_fail-Refines delays m'
    expected-Refines delays (result _, m') = acks-Refines
    expected-Refines delays (error, m') = retry_or_fail-Refines delays m'
    expected-Refines delays (panic, m') = retry_or_fail-Refines delays m'

    -- On a server that behaves as documented and is reachable, a consumer over the Redis driver, while
    -- no hook panics, moves the message as the guide says for what its handler did: out of reserved,
    -- to failed, or back to waiting or delayed, with the new status; a retry stores the message as
    -- it was stored, with one attempt more within the limit. This is so also after an error or a panic
    -- of the handler, and nothing else of the channel changes. The id is not empty, and the stored
    -- text can be read, and written again.
    pub delivery_refines :
        (c : Consumer) (run : Run s.Db)
        → ((h : Hook) (m' : Message) → c.hook_panics h m' ≡ false)
        → run.driver ≡ db
        → observe channel (r.view (handle_one b c id now run).1.driver)
          ≡ outcome l.cjson now text
              (expected c.retry_delays id (c.handler run.message))
              (observe channel (r.view db))
    delivery_refines c run quiet at =
        ap (λ d. observe channel (r.view d))
          (handle_one-acts b c id now quiet run
            ∙ ap (act b (expected c.retry_delays id (c.handler run.message))) at)
        ∙ unfold Refines in expected-Refines c.retry_delays (c.handler run.message)
