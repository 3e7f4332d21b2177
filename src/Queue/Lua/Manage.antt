-- ===== src/Queue/Lua/Manage.antt =====
-- The scripts behind the management operations: `retryByIDScript`, `cancelByIDScript` and
-- `reloadScript` of pkg/queue/lua.go.
use Prim.Native.String.{◌++◌}
use async_queue_go.Prelude.{
  ℕ, zero, suc, ◌+◌, String, Bool, true, false, ◌&&◌, Option, some, ltb, ◌==◌, if◌then◌else◌,
}
use async_queue_go.Prelude.Int.{ℤ, pos, negsuc, ltb_ℤ}
use async_queue_go.Redis.Keyspace.{is_some}
use async_queue_go.Redis.Program.{Program, pure, ◌>>=◌, ◌>>◌, when, on, to_lua, not_nil}
use async_queue_go.Redis.Server.{Server}
use async_queue_go.Core.Message.{Status, canceled, waiting}
use async_queue_go.Queue.Keys.{Keys}
use async_queue_go.Queue.Cjson.{Cjson, stamped}
use async_queue_go.Queue.Lua.Commit.{Mode, rewrite, enqueue}

-- Messages that a reload of `timeout` leaves out.
abbrev pub is_stale : Option Status → Bool
is_stale (some Status.done) = true
is_stale (some Status.dropped) = true
is_stale (some Status.canceled) = true
is_stale _ = false

module _ (s : Server) where
  -- The end of both paths of `retryByIDScript`.
  unfoldable pub reschedule : Keys → String → String → ℤ → String → Mode → Program s.Db Bool
  reschedule k msg_key id score msg_raw mode = do
    rewrite s msg_key msg_raw
    enqueue s k.waiting k.delayed mode score id
    pure true

  -- `true` is the script's result 1. The keys are those of one channel.
  unfoldable pub retry_by_id : Keys → String → String → ℤ → String → Mode → Program s.Db Bool
  retry_by_id k msg_key id score msg_raw mode = s.zrem k.reserved id >>= λ removed_reserved.
      if ltb 0 removed_reserved then reschedule k msg_key id score msg_raw mode else (do
        from_waiting ← s.lrem k.waiting id
        from_delayed ← s.zrem k.delayed id
        from_timeout ← s.lrem k.timeout id
        from_failed ← s.lrem k.failed id
        if from_waiting + from_delayed + from_timeout + from_failed == 0
            then pure false
            else reschedule k msg_key id score msg_raw mode)

  module _ (c : Cjson) where
    -- The entity of a canceled message; its time to live is kept in milliseconds.
    unfoldable pub mark_canceled : String → ℤ → Program s.Db (Unit {0})
    mark_canceled msg_key now = s.get msg_key >>= λ raw. on raw (pure tt) λ text.
        on (c.decode text) (s.del msg_key) λ msg. do
          pttl ← s.pttl msg_key
          s.set msg_key (stamped c canceled now msg)
          when (ltb_ℤ (pos 0) pttl) (s.pexpire msg_key pttl)

    unfoldable pub cancel_by_id : String → String → String → String → String → ℤ → Program s.Db ℤ
    cancel_by_id waiting_key reserved_key delayed_key msg_key id now =
        s.zrem delayed_key id >>= λ removed.
        if ltb 0 removed then (mark_canceled msg_key now >> pure (pos 1)) else (do
          claimed ← s.zscore reserved_key id
          if is_some claimed then pure (negsuc 1) else (do
            position ← s.lpos waiting_key id
            if not_nil (to_lua position) then pure (negsuc 0) else pure (pos 0)))

    -- What `reloadScript` does with the element that RPOPLPUSH moved; 1 if it stays in waiting.
    unfoldable pub reload_one : String → String → ℤ → Bool → String → Program s.Db ℕ
    reload_one waiting_key prefix now skip_stale id =
        let discard = s.lrem waiting_key id >> pure 0 in
        s.get (prefix ++ id) >>= λ raw. on raw discard λ text. on (c.decode text) discard λ msg.
          if skip_stale && is_stale (c.status msg)
          then discard
          else (do rewrite s (prefix ++ id) (stamped c waiting now msg); pure 1)

    -- `for i=1,100`, with the rounds that are left and the count so far.
    unfoldable pub reload_loop : ℕ → String → String → String → ℤ → Bool → ℕ → Program s.Db ℕ
    reload_loop zero source waiting_key prefix now skip_stale count = pure count
    reload_loop (suc rounds) source waiting_key prefix now skip_stale count =
        let rest = reload_loop rounds source waiting_key prefix now skip_stale in
        s.rpoplpush source waiting_key >>= λ moved.
        on moved (pure count)
          λ id. reload_one waiting_key prefix now skip_stale id >>= λ n. rest (count + n)

    unfoldable pub reload : String → String → String → ℤ → Bool → Program s.Db ℕ
    reload source waiting_key prefix now skip_stale =
        reload_loop 100 source waiting_key prefix now skip_stale 0
