-- ===== src/Service/DefaultServer.antt =====
-- asyncqueue/defaultserver.go, and `Stop` and `Queue` of asyncqueue/server.go. A server is a number, and
-- the default one is kept in an atomic pointer. `Server.Stop` clears the pointer if it holds that
-- server.
use async_queue_go.Prelude.{
  ℕ, String, ◌≡◌, refl, Bool, true, false, Option, none, some, List, ◌==◌, if◌then◌else◌,
  Bool-cases, inl, inr,
}
use mathlib.Core.Path.{subst}
use async_queue_go.Prelude.Tests.{IfSome}
use async_queue_go.Prelude.Int.{ℤ}
use async_queue_go.Core.Message.{Message}
use async_queue_go.Queue.RedisDriver.{Reply}
use async_queue_go.Service.Facade.{Backend, Outcome, push_task, push_message}
use async_queue_go.Service.Manager.{Manager, Queue, Process, get_queue}
use async_queue_go.Service.Manager.Lifecycle.{Event}
use async_queue_go.Service.Manager.Running.{Result, stop}

pub record Servers (H D : Type 0) : Type 0 where
  pub default_server : Option ℕ
  pub manager : ℕ → Manager H D

pub data Lookup (A : Type 0) : Type 0 where
  no_default_server : Lookup A
  queue_not_found : String → Lookup A
  found : A → Lookup A

-- `CompareAndSwap` with no server.
abbrev cleared : ℕ → Option ℕ → Option ℕ
cleared i none = none
cleared i (some j) = if i == j then none else some j

abbrev looked_up : {A : Type 0} → String → Option A → Lookup A
looked_up name none = queue_not_found name
looked_up name (some q) = found q

module _ {H D : Type 0} where
  unfoldable pub set_default_server : Option ℕ → Servers H D → Servers H D
  set_default_server i s = record s { default_server = i }

  -- The end of `NewServer`; the flag is the warning that another default is overwritten.
  unfoldable pub set_default_with_warn : ℕ → Servers H D → Bool × Servers H D
  set_default_with_warn i s = (
    elim s.default_server [ none ↦ false | some old ↦ true ],
    record s { default_server = some i },
  )

  abbrev with_manager : ℕ → Manager H D → Servers H D → Servers H D
  with_manager i m s = record s { manager = λ j. if i == j then m else s.manager j }

  abbrev stopped :
      ℕ → Servers H D → Option (Result × Manager H D × Manager H D) → Option (Result × Servers H D)
  stopped i s none = none
  stopped i s (some (r, x, m)) =
      some (r, record (with_manager i m s) { default_server = cleared i s.default_server })

  -- `Server.Stop`, whether or not the manager's stop succeeds.
  unfoldable pub stop_server :
      (ℤ → String) → Bool → List (Event × Process) → ℕ → Servers H D → Option (Result × Servers H D)
  stop_server decimal in_time es i s = stopped i s (stop decimal in_time es (s.manager i))

  -- `Server.Queue`
  unfoldable pub queue : ℕ → String → Servers H D → Lookup (Queue D)
  queue i name s = looked_up name (get_queue name (s.manager i))

  abbrev queue_of : Option ℕ → String → Servers H D → Lookup (Queue D)
  queue_of none name s = no_default_server
  queue_of (some i) name s = queue i name s

  -- `GetQueue`
  unfoldable pub default_queue : String → Servers H D → Lookup (Queue D)
  default_queue name s = queue_of s.default_server name s

  module _ {W : Type 0} (backend_of : D → String → Backend W) where
    -- `PushTask` and `PushMessage` on the default server, with the time and the state of the backends.
    unfoldable pub push_task_default :
        String → ℤ → Option String → ℤ → Servers H D → W → Lookup (Outcome String) × W
    push_task_default name now task delay s w = elim (default_queue name s) [
      | no_default_server ↦ (no_default_server, w)
      | queue_not_found n ↦ (queue_not_found n, w)
      | found q ↦
          let (o, w') = push_task (backend_of q.driver q.channel) q.options now task delay w in
          (found o, w')
    ]

    unfoldable pub push_message_default :
        String → ℤ → Message → ℤ → Servers H D → W → Lookup (Reply String) × W
    push_message_default name now m delay s w = elim (default_queue name s) [
      | no_default_server ↦ (no_default_server, w)
      | queue_not_found n ↦ (queue_not_found n, w)
      | found q ↦
          let (o, w') = push_message (backend_of q.driver q.channel) q.options now m delay w in
          (found o, w')
    ]

module _ {H D : Type 0} (name : String) (i : ℕ) where
  -- What a lookup finds once server `i` was stopped.
  abbrev pub without : Option ℕ → Servers H D → Lookup (Queue D)
  without none s = no_default_server
  without (some j) s = if i == j then no_default_server else queue j name s

  queue_of-cleared :
      (o : Option ℕ) (m : Manager H D) (s : Servers H D)
      → queue_of (cleared i o) name (record (with_manager i m s) { default_server = cleared i o })
        ≡ without o s
  unfolding queue
  queue_of-cleared none m s = refl
  queue_of-cleared (some j) m s = elim (Bool-cases (i == j)) [
    | inl e ↦ rw e refl
    | inr e ↦ rw e (rw e refl)
  ]

  stopped-without :
      (s : Servers H D) (o : Option (Result × Manager H D × Manager H D))
      → IfSome (λ p. default_queue name p.1 ≡ without s.default_server s) (stopped i s o)
  unfolding default_queue
  stopped-without s none = tt
  stopped-without s (some (r, x, m)) = queue_of-cleared s.default_server m s

  -- After a stop of a server, in time or not, the package functions find no default server if it was
  -- that one, and the same queues as before if it was another one.
  pub default_queue-stop_server :
      (decimal : ℤ → String) (in_time : Bool) (es : List (Event × Process)) (s t : Servers H D)
      (r : Result)
      → stop_server decimal in_time es i s ≡ some (r, t)
      → default_queue name t ≡ without s.default_server s
  unfolding stop_server
  default_queue-stop_server decimal in_time es s t r h =
      subst (IfSome (λ p. default_queue name p.1 ≡ without s.default_server s)) h
        (stopped-without s (stop decimal in_time es (s.manager i)))
