-- ===== src/Service/Startup.antt =====
-- asyncqueue/servemux.go, the checks of `Manager.StartWorker` (manager.go), and `shutdownTimeout`
-- (server.go). A map is the list of its entries, in the order in which a range visits them.
use async_queue_go.Prelude.{
  String, ◌≡◌, refl, Bool, true, false, ◌&&◌, Option, none, some, List, [], ◌∷◌, arith,
  if◌then◌else◌, str_eq, eq_iff, Bool-cases, inl, inr, ◌⊎◌, ◌↔◌,
}
use async_queue_go.Prelude.Int.{ℤ, pos, ◌≤ℤ◌, ltb_ℤ}

-- `QueueConfig`, without its name, which nothing reads.
pub record QueueConfig : Type 0 where
  pub driver : String
  pub channel : String
  pub enabled : Bool
  pub pop_timeout : ℤ
  pub handle_timeout : ℤ
  pub retry_seconds : List ℤ
  pub message_ttl : ℤ
  pub max_attempts : ℤ
  pub processes : ℤ
  pub concurrent : ℤ
  pub auto_restart : Bool
  pub max_messages : ℤ
  pub shutdown_timeout : ℤ

module _ {ℓ} {A : Type ℓ} where
  -- `Get` of the registry of handlers, and a lookup in the map of drivers.
  unfoldable pub get : String → List (String × A) → Option A
  get name [] = none
  get name ((j, a) ∷ l) = if str_eq j name then some a else get name l

  -- `Handle`, which replaces an earlier binding.
  unfoldable pub handle : String → A → List (String × A) → List (String × A)
  handle name a [] = (name, a) ∷ []
  handle name a ((j, b) ∷ l) = if str_eq j name then (name, a) ∷ l else (j, b) ∷ handle name a l

  -- The registry returns the handler that was bound last, and other bindings stay as they were.
  pub get-handle :
      (name other : String) (a : A) (l : List (String × A))
      → get other (handle name a l) ≡ (if str_eq name other then some a else get other l)
  unfolding get handle
  get-handle name other a [] = refl
  get-handle name other a ((j, b) ∷ l) =
      ground (arith, eq_iff j name, eq_iff name other, eq_iff j other, get-handle name other a l)

pub data StartError : Type 0 where
  handler_missing driver_empty driver_missing : String → StartError

module _ {H D : Type 0} (handlers : List (String × H)) (drivers : List (String × D)) where
  abbrev missing : {A : Type 0} → Option A → Bool
  missing none = true
  missing (some a) = false

  -- One round of the loop; a registered driver is never nil.
  abbrev check : String → QueueConfig → Option StartError
  check name cfg =
      if cfg.enabled
      then (if missing (get name handlers)
          then some (handler_missing name)
          else if str_eq cfg.driver ""
          then some (driver_empty name)
          else if missing (get cfg.driver drivers)
          then some (driver_missing name)
          else none)
      else none

  abbrev first : Option StartError → Option StartError → Option StartError
  first none rest = rest
  first (some e) rest = some e

  unfoldable pub check_start_worker_options : List (String × QueueConfig) → Option StartError
  check_start_worker_options [] = none
  check_start_worker_options ((name, cfg) ∷ rest) =
      first (check name cfg) (check_start_worker_options rest)

unfoldable pub max_timeout : ℤ → List (String × QueueConfig) → ℤ
max_timeout best [] = best
max_timeout best ((name, cfg) ∷ rest) =
    max_timeout
      (if cfg.enabled && ltb_ℤ best cfg.shutdown_timeout then cfg.shutdown_timeout else best) rest

-- `shutdownTimeout`, in seconds.
unfoldable pub shutdown_timeout : List (String × QueueConfig) → ℤ
shutdown_timeout queues = max_timeout (pos 30) queues

-- A bound on the timeouts of all enabled queues.
abbrev pub Bounds : ℤ → List (String × QueueConfig) → Type 0
Bounds t [] = Unit {0}
Bounds t ((name, cfg) ∷ rest) = ((cfg.enabled ≡ true) → cfg.shutdown_timeout ≤ℤ t) × Bounds t rest

-- The timeout of an enabled queue.
abbrev pub Attained : ℤ → List (String × QueueConfig) → Type 0
Attained t [] = ⊥
Attained t ((name, cfg) ∷ rest) =
    ((cfg.enabled ≡ true) × (t ≡ cfg.shutdown_timeout)) ⊎ Attained t rest

max_timeout_grows : (best : ℤ) (qs : List (String × QueueConfig)) → best ≤ℤ max_timeout best qs
unfolding max_timeout
max_timeout_grows best [] = omega arith
max_timeout_grows best ((name, cfg) ∷ rest) = ground (
  arith,
  max_timeout_grows
      (if cfg.enabled && ltb_ℤ best cfg.shutdown_timeout then cfg.shutdown_timeout else best) rest,
)

max_timeout-Bounds : (best : ℤ) (qs : List (String × QueueConfig)) → Bounds (max_timeout best qs) qs
unfolding max_timeout
max_timeout-Bounds best [] = tt
max_timeout-Bounds best ((name, cfg) ∷ rest) =
    let best' =
      if cfg.enabled && ltb_ℤ best cfg.shutdown_timeout then cfg.shutdown_timeout else best in
    (λ on. ground (arith, max_timeout_grows best' rest), max_timeout-Bounds best' rest)

max_timeout-Attained :
    (best : ℤ) (qs : List (String × QueueConfig))
    → (max_timeout best qs ≡ best) ⊎ Attained (max_timeout best qs) qs
unfolding max_timeout
max_timeout-Attained best [] = inl refl
max_timeout-Attained best ((name, cfg) ∷ rest) =
    let best' =
      if cfg.enabled && ltb_ℤ best cfg.shutdown_timeout then cfg.shutdown_timeout else best in
    elim (max_timeout-Attained best' rest) [
      | inl e ↦ elim (Bool-cases (cfg.enabled && ltb_ℤ best cfg.shutdown_timeout)) [
        | inl on ↦ inr (inl (ground arith, ground arith))
        | inr off ↦ inl (ground arith)
      ]
      | inr later ↦ inr (inr later)
    ]

-- The server's shutdown timeout is the largest of thirty seconds and the timeouts of the enabled
-- queues, in whatever order the map is visited: no smaller than any of them, and equal to one.
pub shutdown_timeout-max :
    (qs : List (String × QueueConfig))
    → (pos 30 ≤ℤ shutdown_timeout qs)
      × Bounds (shutdown_timeout qs) qs
      × ((shutdown_timeout qs ≡ pos 30) ⊎ Attained (shutdown_timeout qs) qs)
unfolding shutdown_timeout
shutdown_timeout-max qs = (
  max_timeout_grows (pos 30) qs,
  max_timeout-Bounds (pos 30) qs,
  max_timeout-Attained (pos 30) qs,
)

module _ {H D : Type 0} (handlers : List (String × H)) (drivers : List (String × D)) where
  -- Every enabled queue has a handler and names a registered driver.
  abbrev pub AllReady : List (String × QueueConfig) → Type 0
  AllReady [] = Unit {0}
  AllReady ((name, cfg) ∷ rest) =
      ((cfg.enabled ≡ true)
        → ((h : H) × (get name handlers ≡ some h))
          × (str_eq cfg.driver "" ≡ false)
          × ((d : D) × (get cfg.driver drivers ≡ some d)))
      × AllReady rest

  check_start_worker_options-AllReady :
      (qs : List (String × QueueConfig))
      → check_start_worker_options handlers drivers qs ≡ none
      → AllReady qs
  unfolding check_start_worker_options
  check_start_worker_options-AllReady [] h = tt
  check_start_worker_options-AllReady ((name, cfg) ∷ rest) h = (
    λ on. (ground arith, ground arith, ground arith),
    check_start_worker_options-AllReady rest (ground arith),
  )

  AllReady-check_start_worker_options :
      (qs : List (String × QueueConfig))
      → AllReady qs
      → check_start_worker_options handlers drivers qs ≡ none
  unfolding check_start_worker_options
  AllReady-check_start_worker_options [] h = refl
  AllReady-check_start_worker_options ((name, cfg) ∷ rest) h = elim (Bool-cases cfg.enabled) [
    | inl on ↦
        let ((f, bound), named, (g, driven)) = h.0 on in
        ground (arith, AllReady-check_start_worker_options rest h.1)
    | inr off ↦ rw off (AllReady-check_start_worker_options rest h.1)
  ]

  -- The checks before a start pass exactly when every enabled queue is bound to a handler and names
  -- a registered driver.
  pub check_start_worker_options_iff :
      (qs : List (String × QueueConfig))
      → (check_start_worker_options handlers drivers qs ≡ none) ↔ AllReady qs
  check_start_worker_options_iff qs =
      (check_start_worker_options-AllReady qs, AllReady-check_start_worker_options qs)
