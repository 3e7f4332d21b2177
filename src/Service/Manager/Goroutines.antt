-- ===== src/Service/Manager/Goroutines.antt =====
-- asyncqueue/manager.go: the steps of the goroutines of a manager, the map of errors, and the automatic
-- restart.
use Prim.Native.String.{◌++◌}
use async_queue_go.Prelude.{
  ℕ, String, Bool, ◌&&◌, Option, none, some, List, [], ◌∷◌, if◌then◌else◌, str_eq,
}
use async_queue_go.Prelude.Int.{ℤ, pos, leb_ℤ, ltb_ℤ}
use async_queue_go.Service.Startup.{handle}
use async_queue_go.Service.Manager.{
  Process, Failure, forwarder_start, forwarder_wait, start, wait, restart_stopped, restart_ended,
  Manager,
}

abbrev pub same : Process → Process → Bool
same p q = str_eq p.queue q.queue && (leb_ℤ p.number q.number && leb_ℤ q.number p.number)

abbrev pub without : Process → List Process → List Process
without p [] = []
without p (q ∷ l) = let rest = without p l in if same p q then l else q ∷ rest

abbrev pub key : (ℤ → String) → Process → String
key decimal p = p.queue ++ (":" ++ decimal p.number)

module _ {H D : Type 0} where
  -- `wg.Done`
  abbrev pub leave : Process → Manager H D → Manager H D
  leave p m = record m { running = without p m.running }

  module _ (decimal : ℤ → String) where
    -- `none` is the panic of an entry added to a nil map.
    unfoldable pub record_error : Process → Failure → Manager H D → Option (Manager H D)
    record_error p e m = elim m.errors [
      | none ↦ none
      | some l ↦ some (record m { errors = some (handle (key decimal p) e l) })
    ]

    abbrev pub exits : Process → Failure → Manager H D → Option (Manager H D)
    exits p e m = elim (record_error p e m) [ none ↦ none | some m' ↦ some (leave p m') ]

    -- The goroutine of a forwarder or of a consumer in normal mode: the start or the wait has failed,
    -- or the wait has ended.
    unfoldable pub start_fails : Process → ℕ → Manager H D → Option (Manager H D)
    start_fails p e m = exits p (if ltb_ℤ p.number (pos 0) then forwarder_start e else start e) m

    unfoldable pub wait_ends : Process → Option ℕ → Manager H D → Option (Manager H D)
    wait_ends p none m = some (leave p m)
    wait_ends p (some e) m = exits p (if ltb_ℤ p.number (pos 0) then forwarder_wait e else wait e) m

    -- The head of the loop of `runWorkerWithAutoRestart`, up to the wait, and its rest.
    unfoldable pub restart_head : Process → Option ℕ → Manager H D → Option (Manager H D)
    restart_head p none m = if m.canceled then some (leave p m) else some m
    restart_head p (some e) m = if m.canceled then some (leave p m) else exits p (wait e) m

    unfoldable pub restart_tail : Process → Option ℕ → Manager H D → Option (Manager H D)
    restart_tail p none m = if m.canceled then some (leave p m) else some m
    restart_tail p (some e) m =
        if m.canceled then exits p (restart_stopped e) m else record_error p (restart_ended e) m
