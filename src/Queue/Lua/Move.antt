-- ===== src/Queue/Lua/Move.antt =====
-- The scripts that claim and forward messages: `popScript`, `moveScript` and `moveTimeoutScript` of
-- pkg/queue/lua.go. `now` and deadlines are Unix seconds.
use Prim.Native.String.{◌++◌}
use async_queue_go.Prelude.{
  ℕ, zero, suc, ◌+◌, String, Option, none, some, List, [], ◌∷◌, length, if◌then◌else◌,
}
use async_queue_go.Prelude.Int.{ℤ}
use async_queue_go.Redis.Program.{Program, pure, ◌>>=◌, ◌>>◌, on}
use async_queue_go.Redis.Server.{Server}
use async_queue_go.Core.Message.{Status, reserved}
use async_queue_go.Queue.Cjson.{Cjson, stamped}
use async_queue_go.Queue.Lua.Commit.{rewrite}

module _ (s : Server) where
  module _ (c : Cjson) where
    -- `while true`: each round takes one element, so one round more than the list has is enough.
    unfoldable pub pop_loop : ℕ → String → String → String → ℤ → ℤ → Program s.Db (Option String)
    pop_loop zero waiting_key reserved_key prefix now deadline = pure none
    pop_loop (suc rounds) waiting_key reserved_key prefix now deadline =
        let again = pop_loop rounds waiting_key reserved_key prefix now deadline in
        s.rpop waiting_key >>= λ popped. on popped (pure none) λ id. s.get (prefix ++ id) >>= λ raw.
        on raw again λ text. on (c.decode text) (s.del (prefix ++ id) >> again) λ msg. do
          rewrite s (prefix ++ id) (stamped c reserved now msg)
          s.zadd reserved_key deadline id
          pure (some id)

    -- The length is read only to bound the rounds.
    unfoldable pub pop : String → String → String → ℤ → ℤ → Program s.Db (Option String)
    pop waiting_key reserved_key prefix now deadline = do
      n ← s.llen waiting_key
      pop_loop (suc n) waiting_key reserved_key prefix now deadline

    -- One round of the loop of `moveScript`.
    unfoldable pub move_one :
        String → String → String → ℤ → Status → String → Program s.Db (Unit {0})
    move_one from to prefix now status id =
        s.zrem from id
        >> (s.get (prefix ++ id) >>= λ raw. on raw (s.lrem to id >> pure tt) λ text.
            on (c.decode text) (s.del (prefix ++ id))
              λ msg. do rewrite s (prefix ++ id) (stamped c status now msg); s.lpush to id)

    unfoldable pub move_each :
        String → String → String → ℤ → Status → List String → Program s.Db (Unit {0})
    move_each from to prefix now status [] = pure tt
    move_each from to prefix now status (id ∷ ids) =
        move_one from to prefix now status id >> move_each from to prefix now status ids

    -- Returns the number of due members, which the early return for none makes 0 too.
    unfoldable pub move : String → String → String → ℤ → Status → Program s.Db ℕ
    move from to prefix now status = do
      ids ← s.zrangebyscore from now 100
      move_each from to prefix now status ids
      pure (length ids)

  unfoldable pub move_timeout_each : String → String → String → ℕ → List String → Program s.Db ℕ
  move_timeout_each from to prefix moved [] = pure moved
  move_timeout_each from to prefix moved (id ∷ ids) = do
    s.zrem from id
    found ← s.exists (prefix ++ id)
    if found then s.lpush to id else pure tt
    move_timeout_each from to prefix (if found then moved + 1 else moved) ids

  unfoldable pub move_timeout : String → String → String → ℤ → Program s.Db ℕ
  move_timeout from to prefix now = do
    ids ← s.zrangebyscore from now 100
    move_timeout_each from to prefix 0 ids
