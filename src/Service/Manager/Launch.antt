-- ===== src/Service/Manager/Launch.antt =====
-- What `StartWorker` leaves of a manager (asyncqueue/manager.go), by its result.
use async_queue_go.Prelude.{
  ℕ, zero, suc, ◌+◌, ◌≤◌, String, ◌≡◌, refl, Bool, true, false, Option, none, some, List, [], ◌∷◌,
  arith, if◌then◌else◌, str_eq, eq_iff, ◌++◌, ◌&&◌, ◌∙◌, ap, length,
}
use async_queue_go.Prelude.Int.{ℤ, pos, negsuc, pos_part, ltb_ℤ}
use native.Mathlib.Nat.{zero-add}
use async_queue_go.Service.Facade.{Backend, Outcome, done, refused}
use async_queue_go.Service.Startup.{
  QueueConfig, get, handle, get-handle, StartError, check_start_worker_options,
}
use async_queue_go.Service.Manager.{Queue, Process, Manager, begin_stop}
use async_queue_go.Prelude.Tests.{by_test}
use async_queue_go.Service.Manager.Start.{
  Started, ready, already_started, panicked, refused_start, create_failed, consumers, with_queue,
  start_each, start_worker, open_queue, add_consumers, add_queue, add_workers, forwarder, fresh,
  when_checked,
}

-- The consumers of a queue, numbered from 0, and the rest of its goroutines.
abbrev numbered : String → Bool → ℕ → List Process
numbered name restarting zero = []
numbered name restarting (suc n) =
    numbered name restarting n
    ++ (record { queue = name; number = pos n; restarting = restarting } ∷ [])

-- The goroutines of a configuration, on top of those that ran before: for each enabled queue a
-- forwarder, with the number -1, and its consumers, which are restarted if the queue says so and has
-- a positive limit of messages.
abbrev pub launched : List (String × QueueConfig) → List Process → List Process
launched [] before = before
launched ((name, cfg) ∷ rest) before = launched rest (
    if cfg.enabled
    then numbered name (cfg.auto_restart && ltb_ℤ (pos 0) cfg.max_messages) (pos_part cfg.processes)
      ++ (record { queue = name; number = negsuc 0; restarting = false } ∷ before)
    else before)

abbrev pub is_open {ℓ} : {A : Type ℓ} → String → List (String × A) → Bool
is_open name l = elim (get name l) [ none ↦ false | some q ↦ true ]

abbrev pub AllOpen {ℓ} : {A : Type ℓ} → List (String × QueueConfig) → List (String × A) → Type 0
AllOpen [] l = Unit {0}
AllOpen ((name, cfg) ∷ rest) l =
    ((if cfg.enabled then is_open name l else true) ≡ true) × AllOpen rest l

abbrev Keeps {ℓ} : {A : Type ℓ} → List (String × A) → List (String × A) → Type 0
Keeps l l' = (name : String) → is_open name l ≡ true → is_open name l' ≡ true

is_open-handle {ℓ} :
    {A : Type ℓ} (name other : String) (a : A) (l : List (String × A))
    → is_open other (handle name a l) ≡ (if str_eq name other then true else is_open other l)
is_open-handle name other a l = ground (arith, get-handle name other a l)

consumers-snoc :
    (name : String) (r : Bool) (i n : ℕ)
    → consumers name r i (suc n)
      ≡ consumers name r i n ++ (record { queue = name; number = pos (i + n); restarting = r } ∷ [])
unfolding consumers
consumers-snoc name r i zero =
    ap (λ k. record { queue = name; number = pos k; restarting = r } ∷ []) (omega arith)
consumers-snoc name r i (suc n) =
    ap (λ ps. record { queue = name; number = pos i; restarting = r } ∷ ps)
      (consumers-snoc name r (suc i) n
        ∙ ap
            (λ k.
              consumers name r (suc i) n
              ++ (record { queue = name; number = pos k; restarting = r } ∷ []))
            (omega arith))

consumers-numbered : (name : String) (r : Bool) (n : ℕ) → consumers name r 0 n ≡ numbered name r n
consumers-numbered name r zero = unfold consumers in refl
consumers-numbered name r (suc n) = consumers-snoc name r 0 n ∙ (λ i.
    consumers-numbered name r n i
    ++ (record { queue = name; number = pos (zero-add n i); restarting = r } ∷ []))

module _ {H D : Type 0} where
  -- The loop over the queues that are left, by its result.
  abbrev After : List (String × QueueConfig) → Manager H D → Started → Manager H D → Type 0
  After configs m ready m' =
      (m'.started ≡ true)
      × AllOpen configs m'.queues
      × (m'.running ≡ launched configs m.running)
      × (m'.errors ≡ m.errors)
      × (m'.canceled ≡ m.canceled)
      × (m'.config ≡ m.config)
      × Keeps m.queues m'.queues
  After configs m (create_failed name e) m' =
      (m'.started ≡ m.started) × (m'.errors ≡ m.errors) × (m'.canceled ≡ true)
  After configs m panicked m' =
      (m'.started ≡ m.started) × (1 ≤ length m'.running) × (m'.canceled ≡ m.canceled)
  After configs m _ m' = ⊥

  -- The two ways through a round that goes on to the next one.
  added-After :
      (name : String) (cfg : QueueConfig) (configs : List (String × QueueConfig)) (q : Queue D)
      (n : ℕ) (m : Manager H D) (s : Started) (m' : Manager H D)
      → cfg.processes ≡ pos n
      → cfg.enabled ≡ true
      → let r = cfg.auto_restart && ltb_ℤ (pos 0) cfg.max_messages in
        After configs (add_workers name (consumers name r 0 n) (add_queue name q m)) s m'
        → After ((name, cfg) ∷ configs) m s m'
  added-After name cfg configs q n m ready m' e on h =
      let (st, opens, runs, errs, ctx, conf, keep) = h in
      let r = cfg.auto_restart && ltb_ℤ (pos 0) cfg.max_messages in
      (
        st,
        (
          rw on (keep name (ground (arith, is_open-handle name name q m.queues, eq_iff name name))),
          opens,
        ),
        rw (on, e)
            (runs
              ∙ ap (λ ps. launched configs (ps ++ (forwarder name ∷ m.running)))
                  (consumers-numbered name r n)),
        errs,
        ctx,
        conf,
        λ other o. keep other (ground (arith, is_open-handle name other q m.queues)),
      )
  added-After name cfg configs q n m already_started m' e on h = absurd h
  added-After name cfg configs q n m (refused_start x) m' e on h = absurd h
  added-After name cfg configs q n m (create_failed name' e') m' e on h = h
  added-After name cfg configs q n m panicked m' e on h = h

  skipped-After :
      (name : String) (cfg : QueueConfig) (configs : List (String × QueueConfig)) (m : Manager H D)
      (s : Started) (m' : Manager H D)
      → cfg.enabled ≡ false
      → After configs m s m'
      → After ((name, cfg) ∷ configs) m s m'
  skipped-After name cfg configs m ready m' off h =
      let (st, opens, runs, errs, ctx, conf, keep) = h in
      (st, (rw off refl, opens), rw off runs, errs, ctx, conf, keep)
  skipped-After name cfg configs m already_started m' off h = absurd h
  skipped-After name cfg configs m (refused_start x) m' off h = absurd h
  skipped-After name cfg configs m (create_failed name' e') m' off h = h
  skipped-After name cfg configs m panicked m' off h = h

  module _ {W : Type 0} (backend_of : D → String → Backend W) where
    add_consumers-After :
        (name : String) (cfg : QueueConfig) (configs : List (String × QueueConfig)) (q : Queue D)
        (w : W) (m : Manager H D) (z : ℤ)
        → cfg.processes ≡ z
        → cfg.enabled ≡ true
        → ((m1 : Manager H D) (w1 : W)
            → let p = start_each backend_of configs m1 w1 in After configs m1 p.0 p.1)
        → let p =
            add_consumers backend_of name cfg z
              (start_each backend_of configs)
              (add_queue name q m)
              w in
          After ((name, cfg) ∷ configs) m p.0 p.1
    add_consumers-After name cfg configs q w m (negsuc n) e on rest = (refl, omega arith, refl)
    add_consumers-After name cfg configs q w m (pos n) e on rest =
        added-After name cfg configs q n m _ _ e on (rest _ w)

    with_queue-After :
        (name : String) (cfg : QueueConfig) (configs : List (String × QueueConfig))
        (out : Outcome (Queue D) × W) (m : Manager H D)
        → cfg.enabled ≡ true
        → ((m1 : Manager H D) (w1 : W)
            → let p = start_each backend_of configs m1 w1 in After configs m1 p.0 p.1)
        → let p = with_queue backend_of name cfg (start_each backend_of configs) out m in
          After ((name, cfg) ∷ configs) m p.0 p.1
    with_queue-After name cfg configs (done q, w) m on rest =
        add_consumers-After name cfg configs q w m cfg.processes refl on rest
    with_queue-After name cfg configs (refused e, w) m on rest = (refl, refl, refl)

    start_each-After :
        (configs : List (String × QueueConfig)) (m : Manager H D) (w : W)
        → let p = start_each backend_of configs m w in After configs m p.0 p.1
    unfolding start_each
    start_each-After [] m w = (refl, tt, refl, refl, refl, refl, λ name h. h)
    start_each-After ((name, cfg) ∷ configs) m w =
        by_test {A = Started × Manager H D × W} (λ p. After ((name, cfg) ∷ configs) m p.0 p.1)
          cfg.enabled _ _
          (λ on.
            with_queue-After name cfg configs
              (open_queue backend_of (get cfg.driver m.drivers) name cfg w) m on
              (start_each-After configs))
          (λ off. skipped-After name cfg configs m _ _ off (start_each-After configs m w))

  -- By the result: what a start leaves of the manager.
  abbrev pub Leaves : Manager H D → Started → Manager H D → Type 0
  Leaves m ready m' =
      (m.started ≡ false)
      × (m'.started ≡ true)
      × AllOpen m.config m'.queues
      × (m'.running ≡ launched m.config m.running)
      × (m'.errors ≡ some [])
      × (m'.canceled ≡ false)
      × (m'.config ≡ m.config)
  Leaves m already_started m' = (m.started ≡ true) × (m' ≡ m)
  Leaves m (refused_start e) m' = (m.started ≡ false) × (m' ≡ m)
  Leaves m (create_failed name e) m' =
      (m'.started ≡ false) × (m'.errors ≡ some []) × (m'.canceled ≡ true)
  Leaves m panicked m' =
      (m'.started ≡ false)
      × (1 ≤ length m'.running)
      × (m'.canceled ≡ false)
      × (begin_stop m' ≡ none)

  Leaves-fresh :
      (m : Manager H D) (s : Started) (m' : Manager H D)
      → m.started ≡ false
      → After m.config (fresh m) s m'
      → Leaves m s m'
  unfolding begin_stop
  Leaves-fresh m ready m' off h = ground (arith, h)
  Leaves-fresh m already_started m' off h = absurd h
  Leaves-fresh m (refused_start e) m' off h = absurd h
  Leaves-fresh m (create_failed name e) m' off h = ground (arith, h)
  Leaves-fresh m panicked m' off h = ground (arith, h)

  module _ {W : Type 0} (backend_of : D → String → Backend W) where
    when_checked-Leaves :
        (o : Option StartError) (m : Manager H D) (w : W)
        → m.started ≡ false
        → let p = when_checked backend_of o m w in Leaves m p.0 p.1
    when_checked-Leaves (some e) m w off = (off, refl)
    when_checked-Leaves none m w off =
        Leaves-fresh m _ _ off (start_each-After backend_of m.config (fresh m) w)

    -- What a start leaves, by its result. A second start and a failed check change nothing. A success
    -- marks the manager started with no errors, has a queue for each enabled name, and has launched,
    -- beside what ran before, exactly a forwarder and the configured consumers for each of them,
    -- under the name of the queue, numbered from 0, and restarted if the queue says so and has a
    -- positive limit of messages. A queue that cannot be made leaves the manager not started, with a
    -- canceled context. A start that panics leaves goroutines behind that are not canceled, and
    -- `Stop` refuses.
    pub start_worker-Leaves :
        (m : Manager H D) (w : W) → let p = start_worker backend_of m w in Leaves m p.0 p.1
    unfolding start_worker
    start_worker-Leaves m w =
        by_test {A = Started × Manager H D × W} (λ p. Leaves m p.0 p.1) m.started _ _
          (λ on. (on, refl))
          (λ off.
            when_checked-Leaves (check_start_worker_options m.handlers m.drivers m.config) m w off)
