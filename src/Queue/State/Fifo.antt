-- ===== src/Queue/State/Fifo.antt =====
-- In which order, and how soon, repeated runs of `popScript` of pkg/queue/lua.go claim the waiting
-- messages of a channel.
use mathlib.Core.List.{reverse, reverse-reverse}
use mathlib.Core.Path.{subst}
use async_queue_go.Prelude.{
  ℕ, suc, ◌≤◌, ◌<◌, String, ◌≡◌, refl, sym, true, false, List, [], ◌∷◌, ◌++◌, Option, some, arith,
  str_eq, length, Bool-cases, inl, inr, ◌⊎◌,
}
use async_queue_go.Prelude.Int.{ℤ}
use async_queue_go.Redis.Keyspace.{count}
use async_queue_go.Redis.Program.{Program}
use async_queue_go.Redis.Server.{Server}
use async_queue_go.Redis.Agreement.{IsRedis}
use async_queue_go.Queue.Keys.{new_keys}
use async_queue_go.Queue.Cjson.{Cjson}
use async_queue_go.Queue.Lua.Move.{pop}
use async_queue_go.Queue.State.{Channel, observe, is_readable}
use async_queue_go.Queue.State.Claim.{claim_from, pop_spec, pop_refines}

module _ (c : Cjson) (id : String) (behind : List String) where
  -- The id waits, with `ahead` before it, oldest first.
  pub record Waits (ahead : List String) (o : Channel) : Type 0 where
    pub queue : reverse o.waiting ≡ ahead ++ (id ∷ behind)
    pub readable : is_readable c (o.entity id) ≡ true
    pub apart : count id ahead ≡ 0

  -- What one claim comes to: the id itself, or fewer ids are before it.
  abbrev Served : ℕ → Option String × Channel → Type 0
  Served n (claimed, o) =
      (claimed ≡ some id) ⊎ ((ahead : List String) × (suc (length ahead) ≤ n) × Waits ahead o)

  differs :
      (x : String) (ahead : List String)
      → count id (x ∷ ahead) ≡ 0
      → (str_eq x id ≡ false) × (count id ahead ≡ 0)
  unfolding count
  differs x ahead h = ground arith

  serve :
      (now deadline : ℤ) (ahead : List String) (o : Channel)
      → is_readable c (o.entity id) ≡ true
      → count id ahead ≡ 0
      → Served (length ahead) (claim_from c now deadline (ahead ++ (id ∷ behind)) o)
  unfolding claim_from
  serve now deadline [] o r n = rw r (inl refl)
  serve now deadline (x ∷ ahead) o r n =
      let (other, apart) = differs x ahead n in
      elim (Bool-cases (is_readable c (o.entity x))) [
        | inl e ↦ rw e (
            inr (
              ahead,
              omega arith,
              record {
                queue = reverse-reverse (ahead ++ (id ∷ behind));
                readable = rw other r;
                apart = apart;
              },
            ))
        | inr e ↦ rw e (later (length ahead) _ (serve now deadline ahead _ (rw other r) apart))
      ]
    where
      later : (n : ℕ) (p : Option String × Channel) → Served n p → Served (suc n) p
      later n p (inl now') = inl now'
      later n p (inr (ahead', fewer, w)) = inr (ahead', omega arith, w)

  serve_waiting :
      (now deadline : ℤ) (ahead : List String) (o : Channel)
      → Waits ahead o
      → Served (length ahead) (pop_spec c now deadline o)
  unfolding pop_spec
  serve_waiting now deadline ahead o w =
      subst (λ q. Served (length ahead) (claim_from c now deadline q o)) (sym w.queue)
        (serve now deadline ahead o w.readable w.apart)

-- One of the replies is this one.
abbrev pub Among : Option String → List (Option String) → Type 0
Among r [] = ⊥
Among r (x ∷ xs) = (x ≡ r) ⊎ Among r xs

module _ (s : Server) (c : Cjson) (name : String) where
  -- Claims one after the other, each at its time and with its deadline, and the ids they return.
  unfoldable pub pops : List (ℤ × ℤ) → Program s.Db (List (Option String))
  pops [] db = ([], db)
  pops ((now, deadline) ∷ times) db =
      let k = new_keys name in
      let (claimed, db1) = pop s c k.waiting k.reserved k.message_prefix now deadline db in
      let (rest, db2) = pops times db1 in (claimed ∷ rest, db2)

-- On a server that behaves as documented, a readable message with n other messages waiting before it
-- is claimed by one of the next n + 1 claims, at whatever times and with whatever deadlines they are
-- made, and whether or not the messages before it can be read.
pub claimed_in_turn :
    (s : Server) (r : IsRedis s) (c : Cjson) (name id : String) (ahead behind : List String)
    (times : List (ℤ × ℤ)) (db : s.Db)
    → Waits c id behind ahead (observe name (r.view db))
    → length ahead < length times
    → Among (some id) (pops s c name times db).0
unfolding pops
claimed_in_turn s r c name id ahead behind [] db w h = elim h [ ]
claimed_in_turn s r c name id ahead behind ((now, deadline) ∷ times) db w h =
    elim (subst (Served c id behind (length ahead)) (sym (pop_refines s r c name now deadline db))
      (serve_waiting c id behind now deadline ahead (observe name (r.view db)) w)) [
        | inl claimed ↦ inl claimed
        | inr (ahead', fewer, w') ↦
            inr (claimed_in_turn s r c name id ahead' behind times _ w' (omega arith))
      ]
