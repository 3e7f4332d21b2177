-- ===== src/Queue/RedisDriver/Claiming.antt =====
-- `Pop` of pkg/queue/redis_driver.go: the script that claims a message, and the text that is read
-- after it.
use async_queue_go.Prelude.{ℕ, String, ◌≡◌, refl, ap, ◌∙◌, Bool, false, Option, some, str_eq}
use async_queue_go.Prelude.Int.{ℤ}
use async_queue_go.Redis.Server.{Server}
use async_queue_go.Redis.Agreement.{IsRedis}
use async_queue_go.Core.Message.{Message, normalise}
use async_queue_go.Queue.Keys.{new_keys}
use async_queue_go.Queue.Lua.Move
use async_queue_go.Queue.State.{Channel, observe}
use async_queue_go.Queue.State.Claim.{pop_spec, pop_refines}
use async_queue_go.Queue.RedisDriver.{ok, Libraries, pop, take, deadline}
use async_queue_go.Queue.RedisDriver.Replies.{IsConnected}
use async_queue_go.Queue.RedisDriver.Loading.{after_get, observe-after_get, message_loaded}

module _ (s : Server) (r : IsRedis s) (l : Libraries s) (now : ℤ) (channel : String) (fraction : ℕ)
    (handle_timeout : ℤ) (db : s.Db) (up : IsConnected l.client) where
  abbrev script : Option String × s.Db
  script =
      let k = new_keys channel in
      Move.pop s l.cjson k.waiting k.reserved k.message_prefix now
        (deadline s l now channel fraction handle_timeout) db

  -- A message that the script claims is handed out, as its stored text is read.
  pub pop-message :
      (cancelled : Bool) (id raw : String) (m : Message) (o : Channel)
      → pop_spec l.cjson now
          (deadline s l now channel fraction handle_timeout)
          (observe channel (r.view db))
        ≡ (some id, o)
      → str_eq id "" ≡ false
      → o.entity id ≡ some raw
      → l.json.unmarshal raw ≡ some m
      → (db' : s.Db) × (pop s l now channel fraction handle_timeout cancelled db
          ≡ (ok (some (id, normalise now m)), db'))
        × (observe channel (r.view db') ≡ o)
  unfolding pop take
  pop-message cancelled id raw m o claims named stored read =
      let refined =
        pop_refines s r l.cjson channel now (deadline s l now channel fraction handle_timeout) db
        ∙ claims in
      let left = ap (λ p. p.1) refined in
      (
        after_get s r channel id script.1,
        rw up (
            rw (ap (λ p. p.0) refined) (
              rw named (
                rw
                  (message_loaded s r channel id script.1 l now raw m up
                    (ap (λ (c : Channel). c.entity id) left ∙ stored) read)
                  refl))),
        observe-after_get s r channel id script.1 ∙ left,
      )
