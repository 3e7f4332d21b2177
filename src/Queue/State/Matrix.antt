-- ===== src/Queue/State/Matrix.antt =====
-- Between which buckets a run of a script of pkg/queue/lua.go takes a message: the state transition
-- matrix of docs/guide.md.
use mathlib.Core.List.{reverse}
use mathlib.Core.Path.{subst}
use async_queue_go.Prelude.{◌≤◌, String, ◌≡◌, sym, ap, Bool, true, arith, take, List}
use async_queue_go.Prelude.Int.{ℤ}
use async_queue_go.Redis.Keyspace.{count, zcount, due, is_some}
use async_queue_go.Redis.Server.{Server}
use async_queue_go.Redis.Agreement.{IsRedis}
use async_queue_go.Core.Message.{Status}
use async_queue_go.Queue.Cjson.{Cjson}
use async_queue_go.Queue.State.{Channel, is_readable}
use async_queue_go.Queue.State.Commit.{commits_refine}
use async_queue_go.Queue.State.Enqueue.{push_refines}
use async_queue_go.Queue.State.Retry.{retry_refines}
use async_queue_go.Queue.State.Claim.{pop_spec, pop_refines}
use async_queue_go.Queue.State.Forward.{forward_spec, forward_refines, expire_spec, expire_refines}
use async_queue_go.Queue.State.Cancel.{cancel_refines}
use async_queue_go.Queue.State.Reload.{Source, source_list, reload_spec, reload_refines}
use async_queue_go.Queue.State.Counts.{total, IsExclusive, count-due, count-take, count-reverse}
use async_queue_go.Queue.State.Alive.{is_live}
use async_queue_go.Queue.State.Exclusive.{
  at, Step, pushed, popped, acked, dropped, failed, requeued, retried, forwarded, expired, canceled,
  reloaded, Step-IsExclusive,
}
use async_queue_go.Queue.State.Place.{
  Place, Moved, bucket_of, own, commit_spec-Moved, fail_spec-Moved, requeue_spec-Moved,
  cancel_spec-Moved, push_spec-Moved, retry_spec-Moved,
}
use async_queue_go.Queue.State.Place.Rounds.{forward_each-Moved, claim_from-Moved}
use async_queue_go.Queue.State.Place.Timeouts.{expire_each-Moved}
use async_queue_go.Queue.State.Place.Reloads.{place_source, reload_from-Moved}

module _ (c : Cjson) (now : ℤ) (j : String) (o : Channel) where
  due_once : (z : List (String × ℤ)) → count j (take 100 (due now z)) ≤ zcount j z
  due_once z = omega (arith, count-take j 100 (due now z), count-due j now z)

  pop_spec-Moved :
      (deadline : ℤ)
      → total j o ≤ 1
      → is_readable c (o.entity j) ≡ true
      → Moved j (Place.waiting, Place.reserved) o (pop_spec c now deadline o).1
  unfolding pop_spec
  pop_spec-Moved deadline =
      claim_from-Moved j c now deadline (reverse o.waiting) o (sym (count-reverse j o.waiting))

  forward_spec-Moved :
      total j o ≤ 1
      → is_readable c (o.entity j) ≡ true
      → Moved j (Place.delayed, Place.waiting) o (forward_spec c now o).1
  unfolding forward_spec
  forward_spec-Moved =
      forward_each-Moved j c now (take 100 (due now o.delayed)) o (due_once o.delayed)

  expire_spec-Moved :
      total j o ≤ 1
      → is_some (o.entity j) ≡ true
      → Moved j (Place.reserved, Place.timeout) o (expire_spec now o).1
  unfolding expire_spec
  expire_spec-Moved = expire_each-Moved j 0 (take 100 (due now o.reserved)) o (due_once o.reserved)

  reload_spec-Moved :
      (skip_stale : Bool) (src : Source)
      → total j o ≤ 1
      → is_live c (o.entity j) ≡ true
      → Moved j (place_source src, Place.waiting) o (reload_spec c now skip_stale src o).1
  unfolding reload_spec
  reload_spec-Moved skip_stale src =
      reload_from-Moved c now skip_stale src j 100 (reverse (source_list src o)) 0 o
        (sym (count-reverse j (source_list src o)))

module _ (s : Server) (c : Cjson) (r : IsRedis s) (name j : String) where
  abbrev pub seen : s.Db → Channel
  seen = at s c r name

  -- Whence and whither a run may take a message.
  abbrev pub row : {db db' : s.Db} → Step s c r name db db' → Place × Place
  row (pushed mode score ttl id raw new e) = own j id (Place.nowhere, bucket_of mode)
  row (popped now deadline e) = (Place.waiting, Place.reserved)
  row (acked id now e) = own j id (Place.reserved, Place.nowhere)
  row (dropped id now e) = own j id (Place.reserved, Place.nowhere)
  row (failed id now held e) = own j id (Place.reserved, Place.failed)
  row (requeued id now held e) = own j id (Place.reserved, Place.waiting)
  row (retried mode score id raw e) = own j id (Place.reserved, bucket_of mode)
  row (forwarded now e) = (Place.delayed, Place.waiting)
  row (expired now e) = (Place.reserved, Place.timeout)
  row (canceled id now e) = own j id (Place.delayed, Place.nowhere)
  row (reloaded src skip_stale now e) = (place_source src, Place.waiting)

  -- What is failed or requeued has a readable text, what is retried is reserved, and where a script
  -- reads the text of message `j`, that text is there: to be claimed or forwarded it is readable,
  -- to be reloaded it is also not of a message that is done, dropped or canceled.
  abbrev pub IsSound : {db db' : s.Db} → Step s c r name db db' → Type 0
  IsSound {db} (popped now deadline e) = is_readable c ((seen db).entity j) ≡ true
  IsSound {db} (failed id now held e) = is_readable c ((seen db).entity id) ≡ true
  IsSound {db} (requeued id now held e) = is_readable c ((seen db).entity id) ≡ true
  IsSound {db} (retried mode score id raw e) = 1 ≤ zcount id (seen db).reserved
  IsSound {db} (forwarded now e) = is_readable c ((seen db).entity j) ≡ true
  IsSound {db} (expired now e) = is_some ((seen db).entity j) ≡ true
  IsSound {db} (reloaded src skip_stale now e) = is_live c ((seen db).entity j) ≡ true
  IsSound _ = Unit {0}

  after :
      (row : Place × Place) (o : Channel) (db' d : s.Db) (o' : Channel)
      → db' ≡ d
      → seen d ≡ o'
      → Moved j row o o'
      → Moved j row o (seen db')
  after row o db' d o' e f h =
      subst (λ x. Moved j row o (seen x)) (sym e) (subst (λ x. Moved j row o x) (sym f) h)

  Step-Moved :
      {db db' : s.Db} (step : Step s c r name db db')
      → IsSound step
      → IsExclusive (seen db)
      → Moved j (row step) (seen db) (seen db')
  Step-Moved {db} {db'} (pushed mode score ttl id raw new e) p h =
      after _ (seen db) db' _ _ e (push_refines s r name id raw mode score ttl db)
        (push_spec-Moved j mode score id raw (seen db) (h j) new)
  Step-Moved {db} {db'} (popped now deadline e) read h =
      after _ (seen db) db' _ _ e (ap (λ p. p.1) (pop_refines s r c name now deadline db))
        (pop_spec-Moved c now j (seen db) deadline (h j) read)
  Step-Moved {db} {db'} (acked id now e) p h =
      after _ (seen db) db' _ _ e (commits_refine s r c name id now db).0
        (commit_spec-Moved c now j Status.done id (seen db) (h j))
  Step-Moved {db} {db'} (dropped id now e) p h =
      after _ (seen db) db' _ _ e (commits_refine s r c name id now db).1
        (commit_spec-Moved c now j Status.dropped id (seen db) (h j))
  Step-Moved {db} {db'} (failed id now held e) read h =
      after _ (seen db) db' _ _ e (commits_refine s r c name id now db).2
        (fail_spec-Moved c now j id (seen db) (h j) held read)
  Step-Moved {db} {db'} (requeued id now held e) read h =
      after _ (seen db) db' _ _ e (commits_refine s r c name id now db).3
        (requeue_spec-Moved c now j id (seen db) (h j) held read)
  Step-Moved {db} {db'} (retried mode score id raw e) held h =
      after _ (seen db) db' _ _ e (ap (λ p. p.1) (retry_refines s r name id raw mode score db))
        (retry_spec-Moved j mode score id raw (seen db) (h j) held)
  Step-Moved {db} {db'} (forwarded now e) read h =
      after _ (seen db) db' _ _ e (ap (λ p. p.1) (forward_refines s r c name now db))
        (forward_spec-Moved c now j (seen db) (h j) read)
  Step-Moved {db} {db'} (expired now e) there h =
      after _ (seen db) db' _ _ e (ap (λ p. p.1) (expire_refines s r name now db))
        (expire_spec-Moved c now j (seen db) (h j) there)
  Step-Moved {db} {db'} (canceled id now e) p h =
      after _ (seen db) db' _ _ e (ap (λ p. p.1) (cancel_refines s r c name now id db))
        (cancel_spec-Moved c now j id (seen db) (h j))
  Step-Moved {db} {db'} (reloaded src skip_stale now e) live h =
      after _ (seen db) db' _ _ e (ap (λ p. p.1) (reload_refines s r c name now skip_stale src db))
        (reload_spec-Moved c now j (seen db) skip_stale src (h j) live)

  -- The state transition matrix: in a channel whose messages stand in one place at most, each
  -- still does after a run of a script, and stays where it is, or goes from and to the places
  -- that the script's row names: a push from nowhere to waiting or delayed, a pop from waiting to
  -- reserved, an acknowledgement or a drop from reserved to nowhere, a failure from reserved to
  -- failed, a requeue from reserved to waiting, a retry from reserved to waiting or delayed, the
  -- forwarder's scripts from delayed to waiting and from reserved to timeout, a cancel from
  -- delayed to nowhere, and a reload from timeout or failed to waiting. A script that is given an
  -- id moves no other message. The server behaves as documented, only new ids are pushed, what is
  -- failed, requeued or retried is reserved, what is failed or requeued has a readable text, and
  -- the message's text is readable when a pop or a forward is run, there when timeouts are looked
  -- for, and readable and not of a message that is done, dropped or canceled when a reload is
  -- run.
  pub moves_along_matrix :
      {db db' : s.Db} (step : Step s c r name db db')
      → IsSound step
      → IsExclusive (seen db)
      → Moved j (row step) (seen db) (seen db') × IsExclusive (seen db')
  moves_along_matrix step sound once =
      (Step-Moved step sound once, Step-IsExclusive s c r name step once)
