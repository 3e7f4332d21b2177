-- ===== src/Queue/State/Observe.antt =====
-- How single commands on a channel's keys show in its state.
use mathlib.Core.List.{reverse, reverse-append}
use async_queue_go.Prelude.{
  [], ◌++◌, String, ◌≡◌, refl, sym, ap, ◌∙◌, Option, none, some, ◌∷◌, List, if◌then◌else◌, str_eq,
}
use async_queue_go.Prelude.Int.{ℤ}
use async_queue_go.Redis.Keyspace.{Keyspace, unsnoc, remove, zremove, zinsert}
use async_queue_go.Redis.Server.{keyspace}
use async_queue_go.Queue.Keys.{new_keys, message}
use async_queue_go.Queue.Keys.Distinct.{key_laws}
use async_queue_go.Core.Message.{Status}
use async_queue_go.Queue.Cjson.{Cjson, stamped}
use async_queue_go.Queue.Lua.Commit.{rewrite}
use async_queue_go.Queue.State.{Channel, observe, restamp, mark_entity}
use async_queue_go.Queue.State.Marking.{rewrite-Wrote}
use async_queue_go.Queue.State.Commit.{observe-Wrote}

abbrev pub forget : String → (String → Option String) → String → Option String
forget id entity j = if str_eq id j then none else entity j

unsnoc_append : (l : List String) (x : String) → unsnoc (l ++ (x ∷ [])) ≡ some (l, x)
unfolding unsnoc
unsnoc_append [] x = refl
unsnoc_append (y ∷ l) x = rw (unsnoc_append l x) refl

pub unsnoc-reverse : (l : List String) (x : String) → unsnoc (reverse (x ∷ l)) ≡ some (reverse l, x)
unsnoc-reverse l x = ap unsnoc (reverse-append (x ∷ []) l) ∙ unsnoc_append (reverse l) x

module _ (name : String) where
  -- What a caller sees of a reply and the state after it.
  abbrev pub seen : {A : Type 0} → A × Keyspace → A × Channel
  seen p = (p.0, observe name p.1)

  pub observe-del :
      (id : String) (d : Keyspace)
      → observe name (keyspace.del (message (new_keys name) id) d).1
        ≡ record (observe name d) { entity = forget id (observe name d).entity }
  unfolding observe new_keys
  observe-del id d = simp key_laws

  pub observe-zadd_reserved :
      (score : ℤ) (id : String) (d : Keyspace)
      → observe name (keyspace.zadd (new_keys name).reserved score id d).1
        ≡ record (observe name d) {
          reserved = zinsert id score (zremove id (observe name d).reserved);
        }
  unfolding observe new_keys
  observe-zadd_reserved score id d = simp key_laws

  pub texts-observe :
      (id : String) (d : Keyspace)
      → d.texts (message (new_keys name) id) ≡ (observe name d).entity id
  unfolding observe
  texts-observe id d = refl

  pub observe-zrem_delayed :
      (id : String) (d : Keyspace)
      → observe name (keyspace.zrem (new_keys name).delayed id d).1
        ≡ record (observe name d) { delayed = zremove id (observe name d).delayed }
  unfolding observe new_keys
  observe-zrem_delayed id d = simp key_laws

  pub observe-lrem_waiting :
      (id : String) (d : Keyspace)
      → observe name (keyspace.lrem (new_keys name).waiting id d).1
        ≡ record (observe name d) { waiting = remove id (observe name d).waiting }
  unfolding observe new_keys
  observe-lrem_waiting id d = simp key_laws

  pub observe-lpush_timeout :
      (id : String) (d : Keyspace)
      → observe name (keyspace.lpush (new_keys name).timeout id d).1
        ≡ record (observe name d) { timeout = id ∷ (observe name d).timeout }
  unfolding observe new_keys
  observe-lpush_timeout id d = simp key_laws

  -- A message that can be read is rewritten with another status.
  module _ (c : Cjson) (status : Status) (now : ℤ) where
    restamp-readable :
        (raw : Option String) (text : String) (msg : c.Table)
        → raw ≡ some text
        → c.decode text ≡ some msg
        → restamp c status now raw ≡ some (stamped c status now msg)
    restamp-readable raw text msg e g = rw e (rw g refl)

    pub observe-restamped :
        (id text : String) (msg : c.Table) (d : Keyspace)
        → (observe name d).entity id ≡ some text
        → c.decode text ≡ some msg
        → observe name
            (rewrite keyspace (message (new_keys name) id) (stamped c status now msg) d).1
          ≡ record (observe name d) { entity = mark_entity c status now id (observe name d).entity }
    observe-restamped id text msg d e g =
        observe-Wrote name id (some (stamped c status now msg)) d _
          (rewrite-Wrote (message (new_keys name) id) (stamped c status now msg) d)
        ∙ ap
            (λ (v : Option String). record (observe name d) {
              entity = λ j. if str_eq id j then v else (observe name d).entity j;
            })
            (sym (restamp-readable ((observe name d).entity id) text msg e g))
