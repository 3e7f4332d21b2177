-- ===== src/Examples/Order/Settlement.antt =====
-- How an order of examples/demo/order/main.go is settled by the deliveries of its job.
use mathlib.Core.Path.{subst}
use native.Mathlib.Decide.{dec_lt}
use async_queue_go.Prelude.{
  ℕ, suc, ◌-◌, ◌≤◌, ◌<◌, String, ◌≡◌, refl, sym, ap, ◌∙◌, Bool, true, false, List, [], ◌∷◌, length,
  Option, none, some, arith, inl, inr, ◌⊎◌, eq_iff,
}
use async_queue_go.Prelude.Int.{ℤ}
use async_queue_go.Core.Message.{Status}
use async_queue_go.Core.Outcome.{Result, ack, retry}
use async_queue_go.Examples.Order.{
  OrderStatus, unpaid, paid, canceled, Order, OrderStore, save, get, query, finish, handle,
}
use async_queue_go.Examples.Order.Deliveries.{
  Job, IsAbout, deliver, deliver_all, deliver-delivered, delivered-ack, delivered-retry,
}
use async_queue_go.Examples.Order.Deliveries

-- What an order ends as: paid, unless it is canceled.
abbrev settled_status : OrderStatus → OrderStatus
settled_status unpaid = paid
settled_status paid = paid
settled_status canceled = canceled

abbrev pub settled : Order → Order
settled order = record order { status = settled_status order.status }

module _ (job : String → Option String) (delays : List ℤ) (id : String) (now : ℤ)
    (order : Order) where
  abbrev once : Bool → Job → Job
  once = deliver job delays id now

  abbrev handled : Bool → Job → Result × OrderStore
  handled drawn j = handle job drawn j.message j.orders

  abbrev delivered : Bool → Job → Result × OrderStore → Job
  delivered = Deliveries.delivered job delays id now order

  -- It was acknowledged, and the order is settled.
  abbrev pub IsSettled : Job → Type 0
  IsSettled j = (j.ended ≡ some Status.done) × (j.orders order.order_no ≡ some (settled order))

  handle-paid :
      (drawn : Bool) (a m : ℕ) (j : Job)
      → IsAbout job order a m j
      → order.status ≡ unpaid
      → (drawn ≡ true) ⊎ (m ≤ a)
      → handled drawn j ≡ (ack, save (settled order) j.orders)
  unfolding handle query finish get
  handle-paid drawn a m j h s last = rw h.names (
      rw h.stored (
        rw s
          (elim last [ inl e ↦ rw e refl | inr le ↦ ground (arith, h.max_attempts, h.attempts) ])))

  handle-asks :
      (a m : ℕ) (j : Job)
      → IsAbout job order a m j
      → order.status ≡ unpaid
      → a < m
      → handled false j ≡ (retry, save order j.orders)
  unfolding handle query finish get
  handle-asks a m j h s lt =
      rw h.names (rw h.stored (rw s (ground (arith, h.max_attempts, h.attempts))))

  stored_again :
      (o : Order) (s : OrderStore)
      → o.order_no ≡ order.order_no
      → (save o s) order.order_no ≡ some o
  unfolding save
  stored_again o s e = ground (arith, e, eq_iff o.order_no order.order_no)

  same_status :
      (st : OrderStatus) → order.status ≡ st → settled_status st ≡ st → settled order ≡ order
  same_status st e f =
      ap (λ x. record order { status = settled_status x }) e
      ∙ ap (λ x. record order { status = x }) (f ∙ sym e)

  -- An order that is no longer unpaid.
  handle-settled :
      (drawn : Bool) (a m : ℕ) (j : Job)
      → IsAbout job order a m j
      → (order.status ≡ paid) ⊎ (order.status ≡ canceled)
      → (handled drawn j ≡ (ack, j.orders)) × (settled order ≡ order)
  unfolding handle query finish get
  handle-settled drawn a m j h (inl e) =
      (rw h.names (rw h.stored (rw e refl)), same_status paid e refl)
  handle-settled drawn a m j h (inr e) =
      (rw h.names (rw h.stored (rw e refl)), same_status canceled e refl)

  step_done :
      (drawn : Bool) (draws : List Bool) (j : Job) (s : OrderStore)
      → handled drawn j ≡ (ack, s)
      → deliver_all job delays id now (drawn ∷ draws) j
        ≡ record j { orders = s; ended = some Status.done }
  unfolding deliver_all
  step_done drawn draws j s h =
      let next : once drawn j ≡ record j { orders = s; ended = some Status.done } =
        deliver-delivered job delays id now order drawn j
        ∙ ap (delivered drawn j) h
        ∙ delivered-ack job delays id now order drawn j s in
      rw next refl

  step_more :
      (drawn : Bool) (draws : List Bool) (j : Job)
      → (once drawn j).ended ≡ none
      → deliver_all job delays id now (drawn ∷ draws) j
        ≡ deliver_all job delays id now draws (once drawn j)
  unfolding deliver_all
  step_more drawn draws j h = rw h refl

  -- Deliveries by which an order is settled, from a delivery that ends the job.
  ended_now :
      (drawn : Bool) (draws : List Bool) (j : Job) (s : OrderStore)
      → handled drawn j ≡ (ack, s)
      → s order.order_no ≡ some (settled order)
      → IsSettled (deliver_all job delays id now (drawn ∷ draws) j)
  ended_now drawn draws j s h kept =
      subst IsSettled (sym (step_done drawn draws j s h)) (refl, kept)

  status_cases : (st : OrderStatus) → (st ≡ unpaid) ⊎ ((st ≡ paid) ⊎ (st ≡ canceled))
  status_cases unpaid = inl refl
  status_cases paid = inr (inl refl)
  status_cases canceled = inr (inr refl)

  no_longer_unpaid :
      (drawn : Bool) (draws : List Bool) (j : Job) (a m : ℕ)
      → IsAbout job order a m j
      → (order.status ≡ paid) ⊎ (order.status ≡ canceled)
      → IsSettled (deliver_all job delays id now (drawn ∷ draws) j)
  no_longer_unpaid drawn draws j a m h s =
      let (e, f) = handle-settled drawn a m j h s in
      ended_now drawn draws j j.orders e (h.stored ∙ ap some (sym f))

  -- A delivery that pays the order, or finds it settled.
  pays_now :
      (drawn : Bool) (draws : List Bool) (j : Job) (a m : ℕ)
      → IsAbout job order a m j
      → (drawn ≡ true) ⊎ (m ≤ a)
      → IsSettled (deliver_all job delays id now (drawn ∷ draws) j)
  pays_now drawn draws j a m h last = elim (status_cases order.status) [
    | inl s ↦
        ended_now drawn draws j _ (handle-paid drawn a m j h s last)
          (stored_again (settled order) j.orders refl)
    | inr s ↦ no_longer_unpaid drawn draws j a m h s
  ]

  asks_again :
      (j : Job) (a m : ℕ)
      → IsAbout job order a m j
      → order.status ≡ unpaid
      → a < m
      → m < 0x8000000000000000
      → IsAbout job order (suc a) m (once false j)
  asks_again j a m h s lt range =
      subst (IsAbout job order (suc a) m)
        (sym (
          deliver-delivered job delays id now order false j
          ∙ ap (delivered false j) (handle-asks a m j h s lt)))
        (delivered-retry job delays id now order false a m j (save order j.orders) h lt range
          (stored_again order j.orders refl))

  -- The job of the demo never ends in failed: an order that is unpaid when its job is delivered is paid
  -- after at most m - a + 1 deliveries, where a attempts are behind the job, within a 64-bit limit of
  -- m, whatever is drawn; one that is paid or canceled stays so; and the job is acknowledged. The order
  -- is stored under its number, which the job's payload names, nobody else writes it meanwhile, and
  -- the commits of the driver succeed.
  pub deliver_all-IsSettled :
      (draws : List Bool) (j : Job) (a m : ℕ)
      → IsAbout job order a m j
      → a ≤ m
      → m < 0x8000000000000000
      → m - a < length draws
      → IsSettled (deliver_all job delays id now draws j)
  deliver_all-IsSettled [] j a m h le range enough = absurd (omega arith)
  deliver_all-IsSettled (true ∷ draws) j a m h le range enough =
      pays_now true draws j a m h (inl refl)
  deliver_all-IsSettled (false ∷ draws) j a m h le range enough = elim (dec_lt a m) [
    | no ge ↦ pays_now false draws j a m h (inr (omega arith))
    | yes lt ↦ elim (status_cases order.status) [
      | inr s ↦ no_longer_unpaid false draws j a m h s
      | inl s ↦
          let next = asks_again j a m h s lt range in
          subst IsSettled (sym (step_more false draws j next.going))
            (deliver_all-IsSettled draws (once false j) (suc a) m next lt range (omega arith))
    ]
  ]
