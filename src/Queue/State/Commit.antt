-- ===== src/Queue/State/Commit.antt =====
-- The specification of the scripts that enqueue a message and commit a result: their rows of the
-- transition matrix in docs/guide.md, as functions on a channel's state.
use async_queue_go.Prelude.{
  String, ◌≡◌, refl, ap, ◌∙◌, Bool, true, false, ◌∷◌, Option, arith, if◌then◌else◌, str_eq,
}
use async_queue_go.Prelude.Int.{ℤ}
use async_queue_go.Redis.Keyspace.{Keyspace, zremove}
use async_queue_go.Redis.Program.{Program, pure, ◌>>=◌, when}
use async_queue_go.Redis.Server.{Server, keyspace}
use async_queue_go.Redis.Agreement.{IsRedis}
use async_queue_go.Core.Message.{Status, done, failed, dropped, waiting}
use async_queue_go.Queue.Keys.{Keys, new_keys, message, bucket}
use async_queue_go.Queue.Keys.Distinct.{key_laws}
use async_queue_go.Queue.Cjson.{Cjson}
use async_queue_go.Queue.Lua.Commit.{ack, fail, drop, requeue, mark}
use async_queue_go.Queue.Lua.Agreement.{ack-Agrees, fail-Agrees, drop-Agrees, requeue-Agrees}
use async_queue_go.Queue.State.{Channel, observe, is_readable, restamp, mark_entity}
use async_queue_go.Queue.State.Marking.{Wrote, mark-Wrote, mark_lem}

pub channel_ext :
    (a b : Channel)
    → a.waiting ≡ b.waiting
    → a.reserved ≡ b.reserved
    → a.delayed ≡ b.delayed
    → a.timeout ≡ b.timeout
    → a.failed ≡ b.failed
    → ((id : String) → a.entity id ≡ b.entity id)
    → a ≡ b
channel_ext a b w r d t f e = λ i. record {
  waiting = w i;
  reserved = r i;
  delayed = d i;
  timeout = t i;
  failed = f i;
  entity = λ id. e id i;
}

-- reserved -> (removed)
unfoldable pub commit_spec : Cjson → Status → ℤ → String → Channel → Channel
commit_spec c status now id s = record s {
  reserved = zremove id s.reserved;
  entity = mark_entity c status now id s.entity;
}

-- reserved -> failed
unfoldable pub fail_spec : Cjson → ℤ → String → Channel → Channel
fail_spec c now id s = record s {
  reserved = zremove id s.reserved;
  failed = if is_readable c (s.entity id) then id ∷ s.failed else s.failed;
  entity = mark_entity c failed now id s.entity;
}

-- reserved -> waiting
unfoldable pub requeue_spec : Cjson → ℤ → String → Channel → Channel
requeue_spec c now id s = record s {
  reserved = zremove id s.reserved;
  waiting = if is_readable c (s.entity id) then id ∷ s.waiting else s.waiting;
  entity = mark_entity c waiting now id s.entity;
}

module _ (name : String) where
  abbrev key : Keys
  key = new_keys name

  -- Reading the state after one message was written.
  pub observe-Wrote :
      (id : String) (v : Option String) (d d' : Keyspace)
      → Wrote (message (new_keys name) id) v d d'
      → observe name d' ≡ record (observe name d) {
        entity = λ j. if str_eq id j then v else (observe name d).entity j;
      }
  unfolding observe new_keys
  observe-Wrote id v d d' w =
      channel_ext _ _ (at_list "waiting") (at_zset "reserved") (at_zset "delayed")
        (at_list "timeout") (at_list "failed")
        (λ j. w.texts (message (new_keys name) j) ∙ simp key_laws)
    where
      at_list : (b : String) → d'.lists (bucket name b) ≡ d.lists (bucket name b)
      at_list b = ap (λ f. f (bucket name b)) w.lists

      at_zset : (b : String) → d'.zsets (bucket name b) ≡ d.zsets (bucket name b)
      at_zset b = ap (λ f. f (bucket name b)) w.zsets

  pub observe-zrem_reserved :
      (id : String) (d : Keyspace)
      → observe name (keyspace.zrem (new_keys name).reserved id d).1
        ≡ record (observe name d) { reserved = zremove id (observe name d).reserved }
  unfolding observe new_keys
  observe-zrem_reserved id d = simp key_laws

  pub observe-lpush_waiting :
      (id : String) (d : Keyspace)
      → observe name (keyspace.lpush (new_keys name).waiting id d).1
        ≡ record (observe name d) { waiting = id ∷ (observe name d).waiting }
  unfolding observe new_keys
  observe-lpush_waiting id d = simp key_laws

  pub observe-lpush_failed :
      (id : String) (d : Keyspace)
      → observe name (keyspace.lpush (new_keys name).failed id d).1
        ≡ record (observe name d) { failed = id ∷ (observe name d).failed }
  unfolding observe new_keys
  observe-lpush_failed id d = simp key_laws

  module _ (c : Cjson) (status : Status) (id : String) (now : ℤ) where
    -- ZREM from reserved, and the mark: the common beginning of the commit scripts.
    released : Keyspace → Bool × Keyspace
    released d =
        mark keyspace c status now (message (new_keys name) id)
          (keyspace.zrem (new_keys name).reserved id d).1

    released-commit :
        (d : Keyspace) → observe name (released d).1 ≡ commit_spec c status now id (observe name d)
    unfolding released commit_spec
    released-commit d =
        observe-Wrote id _ _ _ (mark-Wrote c status now (message (new_keys name) id) _)
        ∙ ap
            (λ (o : Channel). record o {
              entity = λ j.
                  if str_eq id j
                  then restamp c status now (d.texts (message (new_keys name) id))
                  else o.entity j;
            })
            (observe-zrem_reserved id d)
        ∙ unfold observe in refl

    -- The program goes on as the specification says, whether or not the message could be read.
    observe-when :
        (found : Bool) (d' : Keyspace) (m : Program Keyspace (Unit {0})) (f : Channel → Channel)
        → observe name (m d').1 ≡ f (observe name d')
        → observe name (when found m d').1
          ≡ (if found then f (observe name d') else observe name d')
    unfolding pure
    observe-when true d' m f e = e
    observe-when false d' m f e = refl

    released_lem : (d : Keyspace) → (released d).0 ≡ is_readable c ((observe name d).entity id)
    unfolding released observe
    released_lem d = mark_lem c status now (message (new_keys name) id) _

    released_then :
        (d : Keyspace) (m : Program Keyspace (Unit {0})) (f : Channel → Channel)
        → observe name (m (released d).1).1 ≡ f (observe name (released d).1)
        → observe name (when (released d).0 m (released d).1).1 ≡ (
            if is_readable c ((observe name d).entity id)
            then f (commit_spec c status now id (observe name d))
            else commit_spec c status now id (observe name d))
    released_then d m f e =
        observe-when (released d).0 (released d).1 m f e ∙ rw (released_lem d, released-commit d)

  module _ (c : Cjson) (id : String) (now : ℤ) (d : Keyspace) where
    ack_lem :
        observe name
          (ack keyspace c (new_keys name).reserved (message (new_keys name) id) id now d).1
        ≡ commit_spec c done now id (observe name d)
    unfolding ack ◌>>=◌ pure
    ack_lem = unfold released in released-commit c done id now d

    drop_lem :
        observe name
          (drop keyspace c (new_keys name).reserved (message (new_keys name) id) id now d).1
        ≡ commit_spec c dropped now id (observe name d)
    unfolding drop ◌>>=◌ pure
    drop_lem = unfold released in released-commit c dropped id now d

    fail_lem :
        observe name
          (fail keyspace c
            (new_keys name).reserved
            (new_keys name).failed
            (message (new_keys name) id)
            id
            now
            d).1
        ≡ fail_spec c now id (observe name d)
    unfolding fail ◌>>=◌ fail_spec
    fail_lem =
        unfold released in
        released_then c failed id now d (keyspace.lpush (new_keys name).failed id)
          (λ o. record o { failed = id ∷ o.failed }) (observe-lpush_failed id _)
        ∙ unfold commit_spec in ground arith

    requeue_lem :
        observe name
          (requeue keyspace c
            (new_keys name).reserved
            (new_keys name).waiting
            (message (new_keys name) id)
            id
            now
            d).1
        ≡ requeue_spec c now id (observe name d)
    unfolding requeue ◌>>=◌ requeue_spec
    requeue_lem =
        unfold released in
        released_then c waiting id now d (keyspace.lpush (new_keys name).waiting id)
          (λ o. record o { waiting = id ∷ o.waiting }) (observe-lpush_waiting id _)
        ∙ unfold commit_spec in ground arith

-- On a server that behaves as documented, each of the four commit scripts takes the message out of
-- reserved and sets its status; `failScript` and `requeueScript` also put its id on the left of the
-- failed or waiting list, if its stored text is readable; nothing else of the channel changes.
pub commits_refine :
    (s : Server) (r : IsRedis s) (c : Cjson) (name id : String) (now : ℤ) (db : s.Db)
    → let k = new_keys name in
      let before = observe name (r.view db) in
      (observe name (r.view (ack s c k.reserved (message k id) id now db).1)
        ≡ commit_spec c done now id before)
      × (observe name (r.view (drop s c k.reserved (message k id) id now db).1)
          ≡ commit_spec c dropped now id before)
      × (observe name (r.view (fail s c k.reserved k.failed (message k id) id now db).1)
          ≡ fail_spec c now id before)
      × (observe name (r.view (requeue s c k.reserved k.waiting (message k id) id now db).1)
          ≡ requeue_spec c now id before)
commits_refine s r c name id now db = (
  ap (λ p. observe name p.1) ((ack-Agrees s r c _ _ id now).at db)
      ∙ ack_lem name c id now (r.view db),
  ap (λ p. observe name p.1) ((drop-Agrees s r c _ _ id now).at db)
      ∙ drop_lem name c id now (r.view db),
  ap (λ p. observe name p.1) ((fail-Agrees s r c _ _ _ id now).at db)
      ∙ fail_lem name c id now (r.view db),
  ap (λ p. observe name p.1) ((requeue-Agrees s r c _ _ _ id now).at db)
      ∙ requeue_lem name c id now (r.view db),
)
