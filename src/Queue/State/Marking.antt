-- ===== src/Queue/State/Marking.antt =====
-- What a script's rewriting of a message does to the keyspace.
use async_queue_go.Prelude.{
  ℕ, zero, suc, String, ◌≡◌, refl, sym, ap, ◌∙◌, Option-cases, Bool, true, false, Option, none,
  some, arith, if◌then◌else◌, str_eq, eq_iff, Bool-cases, inl, inr,
}
use async_queue_go.Prelude.Int.{ℤ, pos, negsuc, ltb_ℤ}
use async_queue_go.Redis.Keyspace.{Keyspace, update}
use async_queue_go.Redis.Program.{pure, ◌>>=◌, on, when}
use async_queue_go.Redis.Server.{keyspace, expired_in}
use async_queue_go.Core.Message.{Status}
use async_queue_go.Queue.Cjson.{Cjson, stamped}
use async_queue_go.Queue.Lua.Commit.{rewrite, mark}
use async_queue_go.Queue.State.{is_readable, restamp}

-- Lists, sorted sets and counters are as before, and one text has changed.
pub record Wrote (k : String) (v : Option String) (d d' : Keyspace) : Type 0 where
  pub lists : d'.lists ≡ d.lists
  pub zsets : d'.zsets ≡ d.zsets
  pub texts : (j : String) → d'.texts j ≡ (if str_eq k j then v else d.texts j)

abbrev pub stored : String → String → Keyspace → Keyspace
stored k v d = record d { texts = update d.texts k (some v); expiry = update d.expiry k none }

-- A positive time to live touches no text.
expired_in-Wrote :
    (unit : ℕ) (k v : String) (t : ℤ) (d : Keyspace)
    → ltb_ℤ (pos 0) t ≡ true
    → Wrote k (some v) d (expired_in unit k t (stored k v d))
expired_in-Wrote unit k v (pos zero) d h = absurd (ground arith)
expired_in-Wrote unit k v (pos (suc n)) d h = record {
  lists = refl;
  zsets = refl;
  texts = λ j. refl;
}
expired_in-Wrote unit k v (negsuc n) d h = absurd (ground arith)

-- EXPIRE or PEXPIRE, when the time to live is positive.
pub when-Wrote :
    (unit : ℕ) (b : Bool) (k v : String) (t : ℤ) (d : Keyspace)
    → b ≡ ltb_ℤ (pos 0) t
    → Wrote k (some v) d (when b (λ e. (tt, expired_in unit k t e)) (stored k v d)).1
unfolding pure
when-Wrote unit true k v t d h = expired_in-Wrote unit k v t d (sym h)
when-Wrote unit false k v t d h = record { lists = refl; zsets = refl; texts = λ j. refl }

pub rewrite-Wrote : (k v : String) (d : Keyspace) → Wrote k (some v) d (rewrite keyspace k v d).1
unfolding rewrite ◌>>=◌
rewrite-Wrote k v d = when-Wrote 1000 _ k v (keyspace.ttl k d).0 d refl

unchanged-Wrote : (k : String) (v : Option String) (d : Keyspace) → d.texts k ≡ v → Wrote k v d d
unchanged-Wrote k v d e = record {
  lists = refl;
  zsets = refl;
  texts = λ j. elim (Bool-cases (str_eq k j)) [
    | inl h ↦ rw h (ap d.texts (sym ((eq_iff k j).0 h)) ∙ e)
    | inr h ↦ rw h
  ];
}

module _ (c : Cjson) (s : Status) (now : ℤ) where
  pub mark-Wrote :
      (k : String) (d : Keyspace)
      → Wrote k (restamp c s now (d.texts k)) d (mark keyspace c s now k d).1
  unfolding mark ◌>>=◌ pure
  mark-Wrote k d = elim (Option-cases (d.texts k)) [
    | inl e ↦ rw (e, on) (unchanged-Wrote k none d e)
    | inr (text, e) ↦ elim (Option-cases (c.decode text)) [
      | inl f ↦ rw (e, on) (rw (f, on) (unchanged-Wrote k (some text) d e))
      | inr (t, f) ↦ rw (e, on) (rw (f, on) (rewrite-Wrote k (stamped c s now t) d))
    ]
  ]

  pub mark_lem :
      (k : String) (d : Keyspace) → (mark keyspace c s now k d).0 ≡ is_readable c (d.texts k)
  unfolding mark ◌>>=◌ pure
  mark_lem k d = ground arith
