-- ===== src/Queue/State/Retry.antt =====
-- The specification of `retryByIDScript` of pkg/queue/lua.go on a channel's state.
use async_queue_go.Prelude.{
  ℕ, ◌+◌, String, ◌≡◌, refl, ap, ◌∙◌, Bool, true, false, some, ltb, ◌==◌, if◌then◌else◌, Bool-cases,
  inl, inr,
}
use async_queue_go.Prelude.Int.{ℤ}
use async_queue_go.Redis.Keyspace.{Keyspace, remove, count, zremove, zcount}
use async_queue_go.Redis.Program.{pure, ◌>>=◌}
use async_queue_go.Redis.Server.{Server, keyspace}
use async_queue_go.Redis.Agreement.{IsRedis}
use async_queue_go.Queue.Keys.{new_keys, message, bucket}
use async_queue_go.Queue.Keys.Distinct.{key_laws}
use async_queue_go.Queue.Lua.Commit.{Mode}
use async_queue_go.Queue.Lua.Manage.{reschedule, retry_by_id}
use async_queue_go.Queue.Lua.Agreement.{retry_by_id-Agrees}
use async_queue_go.Queue.State.{Channel, observe}
use async_queue_go.Queue.State.Marking.{rewrite-Wrote}
use async_queue_go.Queue.State.Commit.{observe-Wrote, observe-zrem_reserved}
use async_queue_go.Queue.State.Enqueue.{push_spec, observe-enqueue, enqueue_spec}

-- How often the id stands outside reserved.
abbrev pub places : String → Channel → ℕ
places id o = count id o.waiting + zcount id o.delayed + count id o.timeout + count id o.failed

abbrev pub withdrawn : String → Channel → Channel
withdrawn id o = record o {
  waiting = remove id o.waiting;
  delayed = zremove id o.delayed;
  timeout = remove id o.timeout;
  failed = remove id o.failed;
}

-- A reserved message is taken from there, another one from the other buckets; then the new text is
-- stored and the id enqueued, unless it was in no bucket.
unfoldable pub retry_spec : Mode → ℤ → String → String → Channel → Bool × Channel
retry_spec mode score id raw o =
    let freed = record o { reserved = zremove id o.reserved } in
    if ltb 0 (zcount id o.reserved)
    then (true, push_spec mode score id raw freed)
    else if places id o == 0
    then (false, withdrawn id freed)
    else (true, push_spec mode score id raw (withdrawn id freed))

module _ (name : String) where
  observe-reschedule :
      (mode : Mode) (score : ℤ) (id raw : String) (d : Keyspace)
      → observe name
          (reschedule keyspace (new_keys name) (message (new_keys name) id) id score raw mode d).1
        ≡ push_spec mode score id raw (observe name d)
  unfolding reschedule ◌>>=◌ pure push_spec
  observe-reschedule mode score id raw d =
      observe-enqueue name mode score id _
      ∙ ap (enqueue_spec mode score id)
          (observe-Wrote name id (some raw) d _ (rewrite-Wrote (message (new_keys name) id) raw d))

  -- The four removals.
  abbrev pulled : String → Keyspace → Keyspace
  pulled id d =
      let k = new_keys name in
      (keyspace.lrem k.failed id
        (keyspace.lrem k.timeout id
          (keyspace.zrem k.delayed id (keyspace.lrem k.waiting id d).1).1).1).1

  observe-pulled :
      (id : String) (d : Keyspace) → observe name (pulled id d) ≡ withdrawn id (observe name d)
  unfolding observe new_keys
  observe-pulled id d = simp key_laws

  abbrev freed : String → Keyspace → Keyspace
  freed id d = (keyspace.zrem (new_keys name).reserved id d).1

  -- What the script computes, with its counts read off the state that they are about.
  outcome : Mode → ℤ → String → String → Keyspace → Bool × Keyspace
  outcome mode score id raw d =
      let again =
        reschedule keyspace (new_keys name) (message (new_keys name) id) id score raw mode in
      if ltb 0 (zcount id (observe name d).reserved)
      then again (freed id d)
      else if places id (observe name d) == 0
      then (false, pulled id (freed id d))
      else again (pulled id (freed id d))

  retry-outcome :
      (mode : Mode) (score : ℤ) (id raw : String) (d : Keyspace)
      → retry_by_id keyspace (new_keys name) (message (new_keys name) id) id score raw mode d
        ≡ outcome mode score id raw d
  unfolding retry_by_id ◌>>=◌ pure outcome observe new_keys
  retry-outcome mode score id raw d =
      elim (Bool-cases (ltb 0 (zcount id (d.zsets (bucket name "reserved"))))) [
        | inl h ↦ rw h refl
        | inr h ↦ elim (Bool-cases (places id (observe name d) == 0)) [
          | inl g ↦ simp (key_laws, h, g)
          | inr g ↦ simp (key_laws, h, g)
        ]
      ]

  -- What a caller sees of a reply and the state after it.
  abbrev seen : Bool × Keyspace → Bool × Channel
  seen p = (p.0, observe name p.1)

  reschedule-true :
      (mode : Mode) (score : ℤ) (id raw : String) (d : Keyspace)
      → (reschedule keyspace (new_keys name) (message (new_keys name) id) id score raw mode d).0
        ≡ true
  unfolding reschedule ◌>>=◌ pure
  reschedule-true mode score id raw d = refl

  seen-reschedule :
      (mode : Mode) (score : ℤ) (id raw : String) (d : Keyspace)
      → seen (reschedule keyspace (new_keys name) (message (new_keys name) id) id score raw mode d)
        ≡ (true, push_spec mode score id raw (observe name d))
  seen-reschedule mode score id raw d =
      λ i. (reschedule-true mode score id raw d i, observe-reschedule mode score id raw d i)

  seen-outcome :
      (mode : Mode) (score : ℤ) (id raw : String) (d : Keyspace)
      → seen (outcome mode score id raw d) ≡ retry_spec mode score id raw (observe name d)
  unfolding outcome retry_spec
  seen-outcome mode score id raw d =
      elim (Bool-cases (ltb 0 (zcount id (observe name d).reserved))) [
        | inl h ↦ rw h (
            seen-reschedule mode score id raw (freed id d)
            ∙ rw (observe-zrem_reserved name id d) refl)
        | inr h ↦ elim (Bool-cases (places id (observe name d) == 0)) [
          | inl g ↦
              rw h
                (rw g (rw (observe-pulled id (freed id d), observe-zrem_reserved name id d) refl))
          | inr g ↦ rw h (
              rw g (
                seen-reschedule mode score id raw (pulled id (freed id d))
                ∙ rw (observe-pulled id (freed id d), observe-zrem_reserved name id d) refl))
        ]
      ]

-- On a server that behaves as documented, the retry script takes a reserved message out of reserved
-- alone, and any other one out of the other four buckets; it then stores the new text and enqueues
-- the id by the mode. It answers false, and enqueues nothing, exactly when no bucket had the id.
pub retry_refines :
    (s : Server) (r : IsRedis s) (name id raw : String) (mode : Mode) (score : ℤ) (db : s.Db)
    → let (found, db') =
        retry_by_id s (new_keys name) (message (new_keys name) id) id score raw mode db in
      (found, observe name (r.view db')) ≡ retry_spec mode score id raw (observe name (r.view db))
retry_refines s r name id raw mode score db =
    ap (seen name) ((retry_by_id-Agrees s r (new_keys name) _ id score raw mode).at db)
    ∙ ap (seen name) (retry-outcome name mode score id raw (r.view db))
    ∙ seen-outcome name mode score id raw (r.view db)
