-- ===== src/Redis/Server.antt =====
-- The commands that pkg/queue sends, their reference meaning on a `Keyspace`, and the assumption
-- on a server: after each command a client observes what the reference meaning says.
use async_queue_go.Prelude.{
  ℕ, suc, ◌+◌, ◌*◌, String, Bool, List, [], ◌∷◌, Option, none, some, length, if◌then◌else◌, take,
}
use async_queue_go.Prelude.Int.{ℤ, pos, negsuc}
use async_queue_go.Redis.Keyspace.{
  Keyspace, update, remove, count, index, unsnoc, zremove, zcount, score, zinsert, due, is_some,
  seconds,
}
use async_queue_go.Redis.Program.{Program}

pub record Server : Type 1 where
  pub Db : Type 0
  pub lpush : String → String → Program Db (Unit {0})
  pub rpop : String → Program Db (Option String)
  pub rpoplpush : String → String → Program Db (Option String)
  pub lrem : String → String → Program Db ℕ
  pub llen : String → Program Db ℕ
  pub lpos : String → String → Program Db (Option ℕ)
  pub zadd : String → ℤ → String → Program Db (Unit {0})
  pub zrem : String → String → Program Db ℕ
  pub zcard : String → Program Db ℕ
  pub zscore : String → String → Program Db (Option ℤ)
  -- ZRANGEBYSCORE key -inf max LIMIT 0 n
  pub zrangebyscore : String → ℤ → ℕ → Program Db (List String)
  pub get : String → Program Db (Option String)
  pub set : String → String → Program Db (Unit {0})
  pub exists : String → Program Db Bool
  pub del : String → Program Db (Unit {0})
  pub ttl : String → Program Db ℤ
  pub pttl : String → Program Db ℤ
  pub expire : String → ℤ → Program Db (Unit {0})
  pub pexpire : String → ℤ → Program Db (Unit {0})
  pub incr : String → Program Db ℕ
  pub get_counter : String → Program Db (Option ℕ)
  pub set_counter : String → ℕ → Program Db (Unit {0})

-- RPOP, and RPOPLPUSH, by cases on the last element.
abbrev popped : String → Keyspace → Option (List String × String) → Option String × Keyspace
popped k d none = (none, d)
popped k d (some (rest, x)) = (some x, record d { lists = update d.lists k rest })

abbrev moved : String → String → Keyspace → Option (List String × String) → Option String × Keyspace
moved k j d none = (none, d)
moved k j d (some (rest, x)) =
    let taken = update d.lists k rest in (some x, record d { lists = update taken j (x ∷ taken j) })

abbrev left : (ℕ → ℕ) → Option String → Option ℕ → ℤ
left unit none e = negsuc 1
left unit (some v) none = negsuc 0
left unit (some v) (some ms) = pos (unit ms)

-- A time to live that is not positive deletes the key.
abbrev pub expired_in : ℕ → String → ℤ → Keyspace → Keyspace
expired_in unit k (pos (suc n)) d = record d {
  expiry = update d.expiry k (if is_some (d.texts k) then some (unit * suc n) else none);
}
expired_in unit k _ d = record d { texts = update d.texts k none; expiry = update d.expiry k none }

abbrev pub next_count : Option ℕ → ℕ
next_count none = 1
next_count (some n) = n + 1

abbrev pub keyspace : Server
keyspace = record {
  Db = Keyspace;
  lpush = λ k x d. (tt, record d { lists = update d.lists k (x ∷ d.lists k) });
  rpop = λ k d. popped k d (unsnoc (d.lists k));
  rpoplpush = λ k j d. moved k j d (unsnoc (d.lists k));
  lrem =
      λ k x d. (count x (d.lists k), record d { lists = update d.lists k (remove x (d.lists k)) });
  llen = λ k d. (length (d.lists k), d);
  lpos = λ k x d. (index x (d.lists k), d);
  zadd =
      λ k s x d. (tt, record d { zsets = update d.zsets k (zinsert x s (zremove x (d.zsets k))) });
  zrem = λ k x d.
      (zcount x (d.zsets k), record d { zsets = update d.zsets k (zremove x (d.zsets k)) });
  zcard = λ k d. (length (d.zsets k), d);
  zscore = λ k x d. (score x (d.zsets k), d);
  zrangebyscore = λ k m n d. (take n (due m (d.zsets k)), d);
  get = λ k d. (d.texts k, d);
  set = λ k v d.
      (tt, record d { texts = update d.texts k (some v); expiry = update d.expiry k none });
  exists = λ k d. (is_some (d.texts k), d);
  del = λ k d. (
    tt,
    record {
      lists = update d.lists k [];
      zsets = update d.zsets k [];
      texts = update d.texts k none;
      counters = update d.counters k none;
      expiry = update d.expiry k none;
    },
  );
  ttl = λ k d. (left seconds (d.texts k) (d.expiry k), d);
  pttl = λ k d. (left (λ ms. ms) (d.texts k) (d.expiry k), d);
  expire = λ k s d. (tt, expired_in 1000 k s d);
  pexpire = λ k s d. (tt, expired_in 1 k s d);
  incr = λ k d. (
    next_count (d.counters k),
    record d { counters = update d.counters k (some (next_count (d.counters k))) },
  );
  get_counter = λ k d. (d.counters k, d);
  set_counter = λ k n d. (tt, record d { counters = update d.counters k (some n) });
}
