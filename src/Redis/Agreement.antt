-- ===== src/Redis/Agreement.antt =====
-- The assumption on a server, and the rules that carry it from commands to programs.
use async_queue_go.Prelude.{
  ℕ, String, ◌≡◌, refl, ap, ◌∙◌, Bool, true, false, Option, none, some, if◌then◌else◌,
}
use async_queue_go.Prelude.Int.{ℤ}
use async_queue_go.Redis.Keyspace.{Keyspace}
use async_queue_go.Redis.Program.{Program, pure, ◌>>=◌, on}
use async_queue_go.Redis.Server.{Server, keyspace}

-- The same answer, and the same observations afterwards.
pub record Agrees {D A : Type 0} (view : D → Keyspace) (m : Program D A) (n : Program Keyspace A)
    : Type 0 where
  pub at : (d : D) → ◌≡◌ {A = A × Keyspace} ((m d).0, view (m d).1) (n (view d))

pub record IsRedis (s : Server) : Type 0 where
  pub view : s.Db → Keyspace
  pub lpush : (k x : String) → Agrees view (s.lpush k x) (keyspace.lpush k x)
  pub rpop : (k : String) → Agrees view (s.rpop k) (keyspace.rpop k)
  pub rpoplpush : (k j : String) → Agrees view (s.rpoplpush k j) (keyspace.rpoplpush k j)
  pub lrem : (k x : String) → Agrees view (s.lrem k x) (keyspace.lrem k x)
  pub llen : (k : String) → Agrees view (s.llen k) (keyspace.llen k)
  pub lpos : (k x : String) → Agrees view (s.lpos k x) (keyspace.lpos k x)
  pub zadd : (k : String) (n : ℤ) (x : String) → Agrees view (s.zadd k n x) (keyspace.zadd k n x)
  pub zrem : (k x : String) → Agrees view (s.zrem k x) (keyspace.zrem k x)
  pub zcard : (k : String) → Agrees view (s.zcard k) (keyspace.zcard k)
  pub zscore : (k x : String) → Agrees view (s.zscore k x) (keyspace.zscore k x)
  pub zrangebyscore :
      (k : String) (m : ℤ) (n : ℕ)
      → Agrees view (s.zrangebyscore k m n) (keyspace.zrangebyscore k m n)
  pub get : (k : String) → Agrees view (s.get k) (keyspace.get k)
  pub set : (k v : String) → Agrees view (s.set k v) (keyspace.set k v)
  pub exists : (k : String) → Agrees view (s.exists k) (keyspace.exists k)
  pub del : (k : String) → Agrees view (s.del k) (keyspace.del k)
  pub ttl : (k : String) → Agrees view (s.ttl k) (keyspace.ttl k)
  pub pttl : (k : String) → Agrees view (s.pttl k) (keyspace.pttl k)
  pub expire : (k : String) (n : ℤ) → Agrees view (s.expire k n) (keyspace.expire k n)
  pub pexpire : (k : String) (n : ℤ) → Agrees view (s.pexpire k n) (keyspace.pexpire k n)
  pub incr : (k : String) → Agrees view (s.incr k) (keyspace.incr k)
  pub get_counter : (k : String) → Agrees view (s.get_counter k) (keyspace.get_counter k)
  pub set_counter :
      (k : String) (n : ℕ) → Agrees view (s.set_counter k n) (keyspace.set_counter k n)

module _ {D A : Type 0} {view : D → Keyspace} where
  pub Agrees-pure : (a : A) → Agrees view (pure a) (pure a)
  unfolding pure
  Agrees-pure a = record { at = λ d. refl }

  pub Agrees-if :
      (b : Bool) {m m' : Program D A} {n n' : Program Keyspace A}
      → Agrees view m n
      → Agrees view m' n'
      → Agrees view (if b then m else m') (if b then n else n')
  Agrees-if true h k = h
  Agrees-if false h k = k

module _ {D A B : Type 0} {view : D → Keyspace} where
  pub Agrees-bind :
      {m : Program D A} {n : Program Keyspace A} {f : A → Program D B} {g : A → Program Keyspace B}
      → Agrees view m n
      → ((a : A) → Agrees view (f a) (g a))
      → Agrees view (m >>= f) (n >>= g)
  unfolding ◌>>=◌
  Agrees-bind {m} {n} {f} {g} h k = record {
    at = λ d. (k (m d).0).at (m d).1 ∙ ap (λ (p : A × Keyspace). g p.0 p.1) (h.at d);
  }

  pub Agrees-on :
      (o : Option A) {m : Program D B} {n : Program Keyspace B} {f : A → Program D B}
      {g : A → Program Keyspace B}
      → Agrees view m n
      → ((a : A) → Agrees view (f a) (g a))
      → Agrees view (on o m f) (on o n g)
  Agrees-on none h k = h
  Agrees-on (some a) h k = k a

pub ruleset agree_rules = (Agrees-pure, Agrees-if, Agrees-bind, Agrees-on)

pub itself : {A : Type 0} {m : Program Keyspace A} → Agrees (λ d. d) m m
itself = record { at = λ d. refl }

-- The reference server is one.
abbrev pub IsRedis-keyspace : IsRedis keyspace
IsRedis-keyspace = record {
  view = λ d. d;
  lpush = λ a b. itself;
  rpop = λ a. itself;
  rpoplpush = λ a b. itself;
  lrem = λ a b. itself;
  llen = λ a. itself;
  lpos = λ a b. itself;
  zadd = λ a b c. itself;
  zrem = λ a b. itself;
  zcard = λ a. itself;
  zscore = λ a b. itself;
  zrangebyscore = λ a b c. itself;
  get = λ a. itself;
  set = λ a b. itself;
  exists = λ a. itself;
  del = λ a. itself;
  ttl = λ a. itself;
  pttl = λ a. itself;
  expire = λ a b. itself;
  pexpire = λ a b. itself;
  incr = λ a. itself;
  get_counter = λ a. itself;
  set_counter = λ a b. itself;
}
