-- ===== src/Examples/Order/Overlap.antt =====
-- Payments of examples/demo/order/main.go: the callback, and a query of the same order meanwhile.
use Prim.Native.String.{◌++◌}
use async_queue_go.Prelude.{
  String, inr, ◌≡◌, refl, ◌⊎◌, true, false, Option, some, eq_iff, arith, if◌then◌else◌, str_eq,
}
use async_queue_go.Prelude.Int.{ℤ, ltb_ℤ, pos}
use async_queue_go.Core.Message.{Message}
use async_queue_go.Core.Outcome.{retry}
use async_queue_go.Service.Options.{QueueOptions}
use async_queue_go.Service.Facade.{Backend, push_task, done, Refusal}
use async_queue_go.Service.Facade
use async_queue_go.Examples.Order.{
  unpaid, paid, Order, OrderStore, save, get, query, finish, order_json, saves, pays, payment, pay,
  payment_callback, order_create,
}

abbrev pub as_paid : Order → Order
as_paid order = record order { status = paid }

get-save : (o : Order) (s : OrderStore) → get o.order_no (save o s) ≡ some o
unfolding get save
get-save o s = ground (arith, eq_iff o.order_no o.order_no)

query_asks :
    (job : String → Option String) (m : Message) (order : Order) (s : OrderStore)
    → get order.order_no s ≡ some order
    → order.status ≡ unpaid
    → job m.payload ≡ some order.order_no
    → ltb_ℤ m.attempts m.max_attempts ≡ true
    → query job false m s ≡ saves order retry
unfolding query
query_asks job m order s stored due names left =
    rw names (rw stored (rw due (ground (arith, left))))

payment_pays :
    (order : Order) (s : OrderStore)
    → get order.order_no s ≡ some order
    → order.status ≡ unpaid
    → payment (some order.order_no) s ≡ pays (as_paid order)
unfolding payment
payment_pays order s stored due = rw stored (rw due refl)

-- A payment can be undone: if the callback pays an order after a query of it has read the order and
-- before the query saves it, the callback answers with the paid order, and the order is unpaid again
-- once the query has saved what it read, and asks for a retry. The order is stored under its number,
-- which the job names, and unpaid; the job has attempts left, and nothing is drawn that pays it.
pub late_save_undoes_payment :
    {D : Type 0} (b : Backend D) (queue : String ⊎ QueueOptions) (job : String → Option String)
    (m : Message) (order : Order) (s : OrderStore) (d : D)
    → get order.order_no s ≡ some order
    → order.status ≡ unpaid
    → job m.payload ≡ some order.order_no
    → ltb_ℤ m.attempts m.max_attempts ≡ true
    → let begun = query job false m s in
      let (response, s1, d1) = payment_callback b queue (some order.order_no) s d in
      let (answer, s2) = finish begun s1 in
      (response ≡ order_json (as_paid order))
      × (get order.order_no s1 ≡ some (as_paid order))
      × (answer ≡ retry)
      × (get order.order_no s2 ≡ some order)
unfolding finish payment_callback pay
late_save_undoes_payment b queue job m order s d stored due names left =
    rw (query_asks job m order s stored due names left) (
      rw (payment_pays order s stored due)
        (refl, get-save (as_paid order) s, refl, get-save order (save (as_paid order) s)))

created-pays :
    (o : Order) (s : OrderStore)
    → o.status ≡ unpaid
    → payment (some o.order_no) (save o s) ≡ pays (as_paid o)
created-pays o s due = payment_pays o (save o s) (get-save o s) due

-- An order that has been created can be paid: if the push of its job succeeds, the creation answers
-- with the unpaid order, and the callback for it then answers with the paid order, stores it so, and
-- cancels the job under the id that the push returned, whatever the driver does.
pub order_create-payment_callback :
    {D : Type 0} (b : Backend D) (o : QueueOptions) (now : ℤ) (fresh req id : String)
    (task : String → Option String) (show : Refusal → String) (s : OrderStore) (d d' : D)
    → let order_no = if str_eq req "" then "ORD-" ++ fresh else req in
      push_task b o now (task order_no) (pos 30) d ≡ (done id, d')
      → let order : Order = record { order_no = order_no; status = unpaid; job_id = id } in
        let (response, s1, d1) = order_create b (inr o) now fresh task show (some req) s d in
        let (response', s2, d2) = payment_callback b (inr o) (some order_no) s1 d1 in
        (response ≡ order_json order)
        × (response' ≡ order_json (as_paid order))
        × (get order_no s2 ≡ some (as_paid order))
        × (d2 ≡ (Facade.cancel b id d').1)
unfolding order_create payment_callback pay
order_create-payment_callback b o now fresh req id task show s d d' pushed =
    let order_no = if str_eq req "" then "ORD-" ++ fresh else req in
    let order : Order = record { order_no = order_no; status = unpaid; job_id = id } in
    rw pushed
      (rw (created-pays order s refl) (refl, refl, get-save (as_paid order) (save order s), refl))
