-- ===== src/Queue/State/Numbering.antt =====
-- The numbers from which message ids are made: `nextSeqScript` counts through all pairs of an epoch
-- and a sequence number, one after the other.
use mathlib.Core.Path.{subst}
use async_queue_go.Prelude.{
  sym, ap, ◌∙◌, refl, ℕ, suc, ◌+◌, ◌*◌, ◌≤◌, String, ◌≡◌, true, false, str_eq, Option, none, some,
  arith, Bool-cases, Option-cases, inl, inr, ltb,
}
use async_queue_go.Prelude.Tests.{by_test}
use async_queue_go.Redis.Keyspace.{Keyspace}
use async_queue_go.Redis.Program.{Program, on, pure, ◌>>=◌}
use async_queue_go.Redis.Server.{Server, keyspace, next_count}
use async_queue_go.Redis.Agreement.{IsRedis}
use async_queue_go.Queue.Keys.{new_keys}
use async_queue_go.Queue.State.{observe}
use async_queue_go.Queue.Keys.Distinct.{key_laws}
use async_queue_go.Queue.Lua.Sequence.{read_epoch, next_seq}
use async_queue_go.Queue.Lua.Agreement.{next_seq-Agrees}

-- A counter that is not there counts as 0.
abbrev pub number : Option ℕ → ℕ
number none = 0
number (some n) = n

-- The sequence number and the epoch that a channel has reached.
unfoldable pub reached : String → Keyspace → ℕ × ℕ
reached name d = (
  number (d.counters (new_keys name).sequence_key),
  number (d.counters (new_keys name).sequence_epoch),
)

-- The place of a pair in the order in which they are handed out.
abbrev pub ordinal : ℕ → ℕ × ℕ → ℕ
ordinal max (seq, epoch) = epoch * suc max + seq

pub record Advances (max : ℕ) (from : ℕ × ℕ) (given : ℕ × ℕ) (to : ℕ × ℕ) : Type 0 where
  pub next : ordinal max given ≡ suc (ordinal max from)
  pub kept : to ≡ given
  pub small : given.0 ≤ max

abbrev at : String → String → Keyspace → ℕ × ℕ
at a b d = (number (d.counters a), number (d.counters b))

numbers-Advances :
    (a b : String) (max : ℕ) (d : Keyspace)
    → str_eq a a ≡ true
    → str_eq b b ≡ true
    → str_eq a b ≡ false
    → str_eq b a ≡ false
    → (at a b d).0 ≤ max
    → let (given, d') = next_seq keyspace a b max d in Advances max (at a b d) given (at a b d')
unfolding next_seq read_epoch ◌>>=◌ pure
numbers-Advances a b max d aa bb ab ba h = elim (Bool-cases (ltb max (next_count (d.counters a)))) [
  | inl over ↦ elim (Option-cases (d.counters b)) [
    | inl e ↦ simp (ab, ba, aa, bb, e, over) (grind arith)
    | inr (n, e) ↦ simp (ab, ba, aa, bb, e, over) (grind arith)
  ]
  | inr below ↦ elim (Option-cases (d.counters b)) [
    | inl e ↦ simp (ab, ba, aa, bb, e, below) (grind arith)
    | inr (n, e) ↦ simp (ab, ba, aa, bb, e, below) (grind arith)
  ]
]

reached-Advances :
    (name : String) (max : ℕ) (d : Keyspace)
    → (reached name d).0 ≤ max
    → let k = new_keys name in
      let (given, d') = next_seq keyspace k.sequence_key k.sequence_epoch max d in
      Advances max (reached name d) given (reached name d')
unfolding reached new_keys
reached-Advances name max d h =
    numbers-Advances _ _ max d (simp key_laws) (simp key_laws) (simp key_laws) (simp key_laws) h

-- On a server that behaves as documented, and while the sequence number is within its limit, each
-- run of the script hands out the pair that follows the pair reached in the order of epochs and
-- then sequence numbers, stores it, and keeps the sequence number within the limit.
pub next_seq-Advances :
    (s : Server) (r : IsRedis s) (name : String) (max : ℕ) (db : s.Db)
    → (reached name (r.view db)).0 ≤ max
    → let k = new_keys name in
      let (given, db') = next_seq s k.sequence_key k.sequence_epoch max db in
      Advances max (reached name (r.view db)) given (reached name (r.view db'))
next_seq-Advances s r name max db h =
    subst
      (λ (p : (ℕ × ℕ) × Keyspace). Advances max (reached name (r.view db)) p.0 (reached name p.1))
      (sym (
        (next_seq-Agrees s r (new_keys name).sequence_key (new_keys name).sequence_epoch max).at
          db))
      (reached-Advances name max (r.view db) h)

-- The numbering of ids touches no bucket and no stored message.
module _ (name : String) where
  abbrev Keeps : {A : Type 0} → Program Keyspace A → Type 0
  Keeps m = (d : Keyspace) → observe name (m d).1 ≡ observe name d

  bind-Keeps :
      {A B : Type 0} (m : Program Keyspace A) (f : A → Program Keyspace B)
      → Keeps m
      → ((a : A) → Keeps (f a))
      → Keeps (m >>= f)
  unfolding ◌>>=◌
  bind-Keeps m f h k d = k (m d).0 (m d).1 ∙ h d

  on-Keeps :
      {A B : Type 0} (o : Option A) (m : Program Keyspace B) (f : A → Program Keyspace B)
      → Keeps m
      → ((a : A) → Keeps (f a))
      → Keeps (on o m f)
  on-Keeps none m f h k = h
  on-Keeps (some a) m f h k = k a

  read_epoch-Keeps : (b : String) → Keeps (read_epoch keyspace b)
  unfolding read_epoch observe pure
  read_epoch-Keeps b =
      bind-Keeps (keyspace.get_counter b) _ (λ d. refl)
        λ found.
          on-Keeps found _ _ (bind-Keeps (keyspace.set_counter b 0) _ (λ d. refl) λ u d. refl)
            λ n d. refl

  next_seq-Keeps : (a b : String) (max : ℕ) → Keeps (next_seq keyspace a b max)
  unfolding next_seq observe pure
  next_seq-Keeps a b max =
      bind-Keeps (keyspace.incr a) _ (λ d. refl)
        λ seq. bind-Keeps (read_epoch keyspace b) _ (read_epoch-Keeps b) λ epoch.
          by_test Keeps (ltb max seq) _ _
            (λ over.
              bind-Keeps (keyspace.set_counter a 0) _ (λ d. refl)
                λ u. bind-Keeps (keyspace.incr b) _ (λ d. refl) λ n d. refl)
            (λ below d. refl)

pub observe-next_seq :
    (s : Server) (r : IsRedis s) (name : String) (max : ℕ) (db : s.Db)
    → let k = new_keys name in
      observe name (r.view (next_seq s k.sequence_key k.sequence_epoch max db).1)
      ≡ observe name (r.view db)
observe-next_seq s r name max db =
    ap (λ p. observe name p.1) ((next_seq-Agrees s r _ _ max).at db)
    ∙ next_seq-Keeps name _ _ max (r.view db)
