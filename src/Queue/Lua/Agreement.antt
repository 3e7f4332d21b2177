-- ===== src/Queue/Lua/Agreement.antt =====
-- Each script, run on a server that behaves as documented, answers and leaves what it does on the
-- reference keyspace.
use Prim.Native.String.{◌++◌}
use async_queue_go.Prelude.{none, ℕ, zero, suc, String, Bool, List, [], ◌∷◌}
use async_queue_go.Prelude.Int.{ℤ}
use async_queue_go.Redis.Server.{Server, keyspace}
use async_queue_go.Redis.Agreement.{
  Agrees, IsRedis, agree_rules, Agrees-bind, Agrees-on, Agrees-pure,
}
use async_queue_go.Core.Message.{Status}
use async_queue_go.Queue.Keys.{Keys}
use async_queue_go.Queue.Cjson.{Cjson}
use async_queue_go.Queue.Lua.Commit.{
  Mode, to_waiting, to_delayed, enqueue, rewrite, push, mark, ack, fail, drop, requeue,
}
use async_queue_go.Queue.Lua.Move.{
  pop_loop, pop, move_one, move_each, move, move_timeout_each, move_timeout,
}
use async_queue_go.Queue.Lua.Manage.{
  reschedule, retry_by_id, mark_canceled, cancel_by_id, reload_one, reload_loop, reload,
}
use async_queue_go.Queue.Lua.Sequence.{read_epoch, next_seq}

module _ (s : Server) (r : IsRedis s) where
  open r use {view}

  enqueue-Agrees :
      (w d : String) (m : Mode) (n : ℤ) (id : String)
      → Agrees view (enqueue s w d m n id) (enqueue keyspace w d m n id)
  enqueue-Agrees w d to_waiting n id = r.lpush w id
  enqueue-Agrees w d to_delayed n id = r.zadd d n id

  rewrite-Agrees : (k v : String) → Agrees view (rewrite s k v) (rewrite keyspace k v)
  unfolding rewrite
  rewrite-Agrees k v = search (agree_rules, r.ttl, r.set, r.expire)

  pub push-Agrees :
      (w d k id raw : String) (m : Mode) (n t : ℤ)
      → Agrees view (push s w d k id raw m n t) (push keyspace w d k id raw m n t)
  unfolding push
  push-Agrees w d k id raw m n t = search (agree_rules, r.set, r.expire, enqueue-Agrees)

  module _ (c : Cjson) where
    mark-Agrees :
        (t : Status) (n : ℤ) (k : String) → Agrees view (mark s c t n k) (mark keyspace c t n k)
    unfolding mark
    mark-Agrees t n k = search (agree_rules, r.get, rewrite-Agrees) depth 8

    pub ack-Agrees :
        (z k id : String) (n : ℤ) → Agrees view (ack s c z k id n) (ack keyspace c z k id n)
    unfolding ack
    ack-Agrees z k id n = search (agree_rules, r.zrem, mark-Agrees)

    pub fail-Agrees :
        (z f k id : String) (n : ℤ) → Agrees view (fail s c z f k id n) (fail keyspace c z f k id n)
    unfolding fail
    fail-Agrees z f k id n = search (agree_rules, r.zrem, r.lpush, mark-Agrees)

    pub drop-Agrees :
        (z k id : String) (n : ℤ) → Agrees view (drop s c z k id n) (drop keyspace c z k id n)
    unfolding drop
    drop-Agrees z k id n = search (agree_rules, r.zrem, mark-Agrees)

    pub requeue-Agrees :
        (z w k id : String) (n : ℤ)
        → Agrees view (requeue s c z w k id n) (requeue keyspace c z w k id n)
    unfolding requeue
    requeue-Agrees z w k id n = search (agree_rules, r.zrem, r.lpush, mark-Agrees)

    pop_loop-Agrees :
        (i : ℕ) (w z p : String) (n d : ℤ)
        → Agrees view (pop_loop s c i w z p n d) (pop_loop keyspace c i w z p n d)
    unfolding pop_loop
    pop_loop-Agrees zero w z p n d = search agree_rules
    pop_loop-Agrees (suc i) w z p n d =
        let again = pop_loop-Agrees i w z p n d in
        Agrees-bind (r.rpop w) λ popped. Agrees-on popped (Agrees-pure none) λ id.
          Agrees-bind (r.get (p ++ id)) λ raw. Agrees-on raw again λ text.
            Agrees-on (c.decode text) (Agrees-bind (r.del (p ++ id)) λ _. again)
              λ msg. search (agree_rules, rewrite-Agrees, r.zadd)

    pub pop-Agrees :
        (w z p : String) (n d : ℤ) → Agrees view (pop s c w z p n d) (pop keyspace c w z p n d)
    unfolding pop
    pop-Agrees w z p n d = search (agree_rules, r.llen, pop_loop-Agrees)

    move_one-Agrees :
        (f t p : String) (n : ℤ) (u : Status) (id : String)
        → Agrees view (move_one s c f t p n u id) (move_one keyspace c f t p n u id)
    unfolding move_one
    move_one-Agrees f t p n u id =
        search (agree_rules, r.zrem, r.get, r.lrem, r.del, r.lpush, rewrite-Agrees) depth 12

    move_each-Agrees :
        (f t p : String) (n : ℤ) (u : Status) (ids : List String)
        → Agrees view (move_each s c f t p n u ids) (move_each keyspace c f t p n u ids)
    unfolding move_each
    move_each-Agrees f t p n u [] = search agree_rules
    move_each-Agrees f t p n u (id ∷ ids) =
        Agrees-bind (move_one-Agrees f t p n u id) λ _. move_each-Agrees f t p n u ids

    pub move-Agrees :
        (f t p : String) (n : ℤ) (u : Status)
        → Agrees view (move s c f t p n u) (move keyspace c f t p n u)
    unfolding move
    move-Agrees f t p n u = search (agree_rules, r.zrangebyscore, move_each-Agrees)

    mark_canceled-Agrees :
        (k : String) (n : ℤ) → Agrees view (mark_canceled s c k n) (mark_canceled keyspace c k n)
    unfolding mark_canceled
    mark_canceled-Agrees k n = search (agree_rules, r.get, r.del, r.pttl, r.set, r.pexpire) depth 12

    pub cancel_by_id-Agrees :
        (w z d k id : String) (n : ℤ)
        → Agrees view (cancel_by_id s c w z d k id n) (cancel_by_id keyspace c w z d k id n)
    unfolding cancel_by_id
    cancel_by_id-Agrees w z d k id n =
        search (agree_rules, r.zrem, r.zscore, r.lpos, mark_canceled-Agrees) depth 12

    reload_one-Agrees :
        (w p : String) (n : ℤ) (b : Bool) (id : String)
        → Agrees view (reload_one s c w p n b id) (reload_one keyspace c w p n b id)
    unfolding reload_one
    reload_one-Agrees w p n b id = search (agree_rules, r.get, r.lrem, rewrite-Agrees) depth 12

    reload_loop-Agrees :
        (i : ℕ) (f w p : String) (n : ℤ) (b : Bool) (count : ℕ)
        → Agrees view (reload_loop s c i f w p n b count) (reload_loop keyspace c i f w p n b count)
    unfolding reload_loop
    reload_loop-Agrees zero f w p n b count = search agree_rules
    reload_loop-Agrees (suc i) f w p n b count =
        search (agree_rules, r.rpoplpush, reload_one-Agrees, reload_loop-Agrees i f w p n b) depth
          12

    pub reload-Agrees :
        (f w p : String) (n : ℤ) (b : Bool)
        → Agrees view (reload s c f w p n b) (reload keyspace c f w p n b)
    unfolding reload
    reload-Agrees f w p n b = reload_loop-Agrees 100 f w p n b 0

  move_timeout_each-Agrees :
      (f t p : String) (moved : ℕ) (ids : List String)
      → Agrees view
          (move_timeout_each s f t p moved ids)
          (move_timeout_each keyspace f t p moved ids)
  unfolding move_timeout_each
  move_timeout_each-Agrees f t p moved [] = search agree_rules
  move_timeout_each-Agrees f t p moved (id ∷ ids) =
      search
        (agree_rules, r.zrem, r.exists, r.lpush, λ (m : ℕ). move_timeout_each-Agrees f t p m ids)
        depth 12

  pub move_timeout-Agrees :
      (f t p : String) (n : ℤ)
      → Agrees view (move_timeout s f t p n) (move_timeout keyspace f t p n)
  unfolding move_timeout
  move_timeout-Agrees f t p n = search (agree_rules, r.zrangebyscore, move_timeout_each-Agrees)

  reschedule-Agrees :
      (k : Keys) (key id : String) (n : ℤ) (raw : String) (m : Mode)
      → Agrees view (reschedule s k key id n raw m) (reschedule keyspace k key id n raw m)
  unfolding reschedule
  reschedule-Agrees k key id n raw m = search (agree_rules, rewrite-Agrees, enqueue-Agrees)

  pub retry_by_id-Agrees :
      (k : Keys) (key id : String) (n : ℤ) (raw : String) (m : Mode)
      → Agrees view (retry_by_id s k key id n raw m) (retry_by_id keyspace k key id n raw m)
  unfolding retry_by_id
  retry_by_id-Agrees k key id n raw m =
      search (agree_rules, r.zrem, r.lrem, reschedule-Agrees) depth 14

  read_epoch-Agrees : (k : String) → Agrees view (read_epoch s k) (read_epoch keyspace k)
  unfolding read_epoch
  read_epoch-Agrees k = search (agree_rules, r.get_counter, r.set_counter) depth 8

  pub next_seq-Agrees :
      (q e : String) (m : ℕ) → Agrees view (next_seq s q e m) (next_seq keyspace q e m)
  unfolding next_seq
  next_seq-Agrees q e m = search (agree_rules, r.incr, r.set_counter, read_epoch-Agrees) depth 10
