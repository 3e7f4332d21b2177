-- ===== src/Queue/State/Statuses.antt =====
-- The status that a message is left with, read back from its stored text, after the scripts of
-- pkg/queue/lua.go that commit a result.
use mathlib.Core.Path.{subst}
use async_queue_go.Prelude.{String, ◌≡◌, sym, ◌∙◌, Option, some, arith, eq_iff, refl}
use async_queue_go.Prelude.Int.{ℤ}
use async_queue_go.Redis.Server.{Server}
use async_queue_go.Redis.Agreement.{IsRedis}
use async_queue_go.Core.Message.{Status, done, failed, dropped, waiting}
use async_queue_go.Queue.Keys.{new_keys, message}
use async_queue_go.Queue.Cjson.{Cjson, IsCjson, IsNamed, stamped}
use async_queue_go.Queue.Lua.Commit.{ack, fail, drop, requeue}
use async_queue_go.Queue.State.{Channel, observe, mark_entity}
use async_queue_go.Queue.State.Commit.{commit_spec, fail_spec, requeue_spec, commits_refine}

-- The stored text of a message decodes to a table with this status.
pub record HasStatus (c : Cjson) (st : Status) (raw : Option String) : Type 0 where
  pub text : String
  pub found : raw ≡ some text
  pub table : c.Table
  pub decoded : c.decode text ≡ some table
  pub status : c.status table ≡ some st

module _ (c : Cjson) (j : IsCjson c) (now : ℤ) where
  stamped-HasStatus :
      (st : Status) (t : c.Table) → IsNamed st → HasStatus c st (some (stamped c st now t))
  unfolding stamped
  stamped-HasStatus st t n =
      let (t', again, same) = j.reread (c.set_updated_at now (c.set_status st t)) in
      record {
        text = stamped c st now t;
        found = refl;
        table = t';
        decoded = again;
        status = same ∙ j.status-set_updated_at now (c.set_status st t) ∙ j.status-set st t n;
      }

  marked-HasStatus :
      (st : Status) (id raw : String) (t : c.Table) (entity : String → Option String)
      → entity id ≡ some raw
      → c.decode raw ≡ some t
      → IsNamed st
      → HasStatus c st (mark_entity c st now id entity id)
  marked-HasStatus st id raw t entity found parsed n =
      subst (HasStatus c st) (ground (arith, eq_iff id id)) (stamped-HasStatus st t n)

-- On a server and with a JSON library that behave as documented, a commit of a message whose text
-- can be read leaves a text that can be read again, with the status that belongs to the commit:
-- done, dropped, failed or waiting.
pub commits-HasStatus :
    (s : Server) (r : IsRedis s) (c : Cjson) (j : IsCjson c) (name id raw : String) (now : ℤ)
    (db : s.Db) (t : c.Table)
    → (observe name (r.view db)).entity id ≡ some raw
    → c.decode raw ≡ some t
    → let k = new_keys name in
      HasStatus c done
        ((observe name (r.view (ack s c k.reserved (message k id) id now db).1)).entity id)
      × HasStatus c dropped
          ((observe name (r.view (drop s c k.reserved (message k id) id now db).1)).entity id)
      × HasStatus c failed (
          (observe name (r.view (fail s c k.reserved k.failed (message k id) id now db).1)).entity
            id)
      × HasStatus c waiting (
          (observe name
              (r.view (requeue s c k.reserved k.waiting (message k id) id now db).1)).entity
            id)
unfolding commit_spec fail_spec requeue_spec
commits-HasStatus s r c j name id raw now db t found parsed =
    let (a, d, f, q) = commits_refine s r c name id now db in
    let marked = λ (st : Status) (n : IsNamed st).
      marked-HasStatus c j now st id raw t (observe name (r.view db)).entity found parsed n in
    (
      subst (λ (x : Channel). HasStatus c done (x.entity id)) (sym a) (marked done tt),
      subst (λ (x : Channel). HasStatus c dropped (x.entity id)) (sym d) (marked dropped tt),
      subst (λ (x : Channel). HasStatus c failed (x.entity id)) (sym f) (marked failed tt),
      subst (λ (x : Channel). HasStatus c waiting (x.entity id)) (sym q) (marked waiting tt),
    )
