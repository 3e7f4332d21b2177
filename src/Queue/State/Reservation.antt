-- ===== src/Queue/State/Reservation.antt =====
-- A message that a consumer has claimed with `popScript` of pkg/queue/lua.go is its own until the
-- deadline of the claim.
use mathlib.Core.Path.{subst}
use async_queue_go.Prelude.{String, ◌≡◌, ◌≢◌, refl, sym, ap, ◌∙◌, true, false, some, str_eq, arith}
use async_queue_go.Prelude.Int.{ℤ, ltb_ℤ}
use async_queue_go.Redis.Keyspace.{due}
use async_queue_go.Redis.Server.{Server}
use async_queue_go.Redis.Agreement.{IsRedis}
use async_queue_go.Core.Message.{Status}
use async_queue_go.Queue.Keys.{new_keys}
use async_queue_go.Queue.Cjson.{Cjson}
use async_queue_go.Queue.Lua.Move.{pop}
use async_queue_go.Queue.State.{Channel}
use async_queue_go.Queue.State.Commit.{commits_refine}
use async_queue_go.Queue.State.Enqueue.{push_refines}
use async_queue_go.Queue.State.Retry.{retry_refines}
use async_queue_go.Queue.State.Claim.{pop_refines}
use async_queue_go.Queue.State.Forward.{forward_spec, forward_refines, expire_spec, expire_refines}
use async_queue_go.Queue.State.Cancel.{cancel_refines}
use async_queue_go.Queue.State.Reload.{reload_spec, reload_refines}
use async_queue_go.Queue.State.Counts.{IsExclusive, count-take}
use async_queue_go.Queue.State.Exclusive.{
  at, Step, pushed, popped, acked, dropped, failed, requeued, retried, forwarded, expired, canceled,
  reloaded, Reaches, here, next, Reaches-IsExclusive,
}
use async_queue_go.Queue.State.Lease.{IsLeased, alone, not_due, pop_spec_leases}
use async_queue_go.Queue.State.Lease.Kept.{
  commit_spec-Leased, fail_spec-Leased, requeue_spec-Leased, cancel_spec-Leased, pop_spec-Leased,
  forward_each-Leased, reload_from-Leased, push_spec-Leased, retry_spec-Leased, expire_each-Leased,
}

module _ (s : Server) (c : Cjson) (r : IsRedis s) (name j : String) (until : ℤ) where
  abbrev Held : s.Db → Type 0
  Held db = IsLeased j until (at s c r name db)

  -- No commit and no retry of the message, and the forwarder's clock is before the deadline.
  abbrev pub Respects : {db db' : s.Db} → Step s c r name db db' → Type 0
  Respects (acked id now e) = str_eq id j ≡ false
  Respects (dropped id now e) = str_eq id j ≡ false
  Respects (failed id now held e) = str_eq id j ≡ false
  Respects (requeued id now held e) = str_eq id j ≡ false
  Respects (retried mode score id raw e) = str_eq id j ≡ false
  Respects (expired now e) = ltb_ℤ now until ≡ true
  Respects _ = Unit {0}

  abbrev pub AllRespect : {db db' : s.Db} → Reaches s c r name db db' → Type 0
  AllRespect here = Unit {0}
  AllRespect (next steps step) = AllRespect steps × Respects step

  after :
      (db' d : s.Db) (o : Channel) → db' ≡ d → at s c r name d ≡ o → IsLeased j until o → Held db'
  after db' d o e f h =
      subst (λ x. Held x) (sym e) (subst (λ (x : Channel). IsLeased j until x) (sym f) h)

  Step-Held :
      {db db' : s.Db} (step : Step s c r name db db')
      → Respects step
      → IsExclusive (at s c r name db)
      → Held db
      → Held db'
  unfolding forward_spec expire_spec reload_spec
  Step-Held {db} {db'} (pushed mode score ttl id raw new e) p once h =
      after db' _ _ e (push_refines s r name id raw mode score ttl db)
        (push_spec-Leased j until mode score id raw _ h)
  Step-Held {db} {db'} (popped now deadline e) p once h =
      after db' _ _ e (ap (λ p. p.1) (pop_refines s r c name now deadline db))
        (pop_spec-Leased j until c now deadline _ (once j) h).1
  Step-Held {db} {db'} (acked id now e) other once h =
      after db' _ _ e (commits_refine s r c name id now db).0
        (commit_spec-Leased j until c now Status.done id _ other h)
  Step-Held {db} {db'} (dropped id now e) other once h =
      after db' _ _ e (commits_refine s r c name id now db).1
        (commit_spec-Leased j until c now Status.dropped id _ other h)
  Step-Held {db} {db'} (failed id now held e) other once h =
      after db' _ _ e (commits_refine s r c name id now db).2
        (fail_spec-Leased j until c now id _ other h)
  Step-Held {db} {db'} (requeued id now held e) other once h =
      after db' _ _ e (commits_refine s r c name id now db).3
        (requeue_spec-Leased j until c now id _ other h)
  Step-Held {db} {db'} (retried mode score id raw e) other once h =
      after db' _ _ e (ap (λ p. p.1) (retry_refines s r name id raw mode score db))
        (retry_spec-Leased j until mode score id raw _ other h)
  Step-Held {db} {db'} (forwarded now e) p once h =
      after db' _ _ e (ap (λ p. p.1) (forward_refines s r c name now db))
        (forward_each-Leased j until c now _ _ h)
  Step-Held {db} {db'} (expired now e) early once h =
      let o = at s c r name db in
      let (gone, single) = alone j until o (once j) h in
      let later = not_due j now until o.reserved h (omega (arith, single)) early in
      after db' _ _ e (ap (λ p. p.1) (expire_refines s r name now db)) (
        expire_each-Leased j until 0 _ o
          (omega (arith, count-take j 100 (due now o.reserved), later)) h)
  Step-Held {db} {db'} (canceled id now e) p once h =
      after db' _ _ e (ap (λ p. p.1) (cancel_refines s r c name now id db))
        (cancel_spec-Leased j until c now id _ h)
  Step-Held {db} {db'} (reloaded src skip_stale now e) p once h =
      after db' _ _ e (ap (λ p. p.1) (reload_refines s r c name now skip_stale src db))
        (reload_from-Leased j until c now skip_stale src 100 _ 0 _ h)

  Reaches-Held :
      {db db' : s.Db}
      → IsExclusive (at s c r name db)
      → Held db
      → (steps : Reaches s c r name db db') → AllRespect steps
      → Held db'
  Reaches-Held once h here p = h
  Reaches-Held once h (next steps step) (p, last) =
      Step-Held step last (Reaches-IsExclusive s c r name once steps) (Reaches-Held once h steps p)

-- On a server that behaves as documented: what a claim has handed out stays in reserved, at its
-- deadline, and no other claim hands it out, whatever scripts are run meanwhile, by any clients and
-- in any order, for as long as it is not committed or retried, and the forwarder's clock has not reached
-- the deadline. The message stood in one place at most before, only new ids are pushed, and a
-- message is failed or requeued only while it is reserved.
pub claim_lasts :
    (s : Server) (c : Cjson) (r : IsRedis s) (name j : String) (now deadline : ℤ) (db : s.Db)
    {db' : s.Db}
    → let k = new_keys name in
      let claim = λ (now deadline : ℤ) (db : s.Db).
        pop s c k.waiting k.reserved k.message_prefix now deadline db in
      IsExclusive (at s c r name db)
      → (claim now deadline db).0 ≡ some j
      → (steps : Reaches s c r name (claim now deadline db).1 db')
      → AllRespect s c r name j deadline steps
      → (now' deadline' : ℤ)
      → IsLeased j deadline (at s c r name db') × ((claim now' deadline' db').0 ≢ some j)
claim_lasts s c r name j now deadline db {db'} once claimed steps p now' deadline' =
    let first = pop_refines s r c name now deadline db in
    let held =
      subst (λ q. IsLeased j deadline q.1) (sym first)
        (pop_spec_leases c now deadline j (at s c r name db)
          (sym (ap (λ q. q.0) first) ∙ claimed)) in
    let once1 = Reaches-IsExclusive s c r name once (next here (popped now deadline refl)) in
    let last = Reaches-Held s c r name j deadline once1 held steps p in
    let once2 = Reaches-IsExclusive s c r name once1 steps in
    (
      last,
      λ e.
          (pop_spec-Leased j deadline c now' deadline' (at s c r name db') (once2 j) last).0
            (sym (ap (λ q. q.0) (pop_refines s r c name now' deadline' db')) ∙ e),
    )
