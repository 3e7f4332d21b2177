-- ===== src/Service/Server.antt =====
-- asyncqueue/server.go: a server made by `NewServer`, whose registry of handlers is its manager's, and
-- the merge of handlers at the head of `Run`.
pub mod Running
use mathlib.Core.Path.{subst, ap, ◌∙◌}
use async_queue_go.Prelude.{
  String, ◌≡◌, refl, sym, false, Option, none, some, List, [], ◌∷◌, arith, if◌then◌else◌, str_eq,
  eq_iff, Bool-cases, inl, inr,
}
use async_queue_go.Service.Startup.{
  QueueConfig, get, handle, get-handle, check_start_worker_options, AllReady,
  check_start_worker_options_iff,
}
use async_queue_go.Service.Manager.{Manager, new_manager, register_driver}
use async_queue_go.Prelude.Tests.{by_test}

-- The loop of `Run` over the handlers that it is given.
unfoldable pub merge {ℓ} : {A : Type ℓ} → List (String × A) → List (String × A) → List (String × A)
merge [] own = own
merge ((name, h) ∷ given) own = merge given (handle name h own)

unfoldable pub with_driver {ℓ} : {A : Type ℓ} → String → A → List (String × A) → List (String × A)
with_driver name d drivers = if str_eq name "" then drivers else handle name d drivers

unfoldable pub with_drivers {ℓ} :
    {A : Type ℓ} → List (String × A) → List (String × A) → List (String × A)
with_drivers [] drivers = drivers
with_drivers ((name, d) ∷ options) drivers = with_drivers options (with_driver name d drivers)

module _ {H D : Type 0} where
  unfoldable pub register_all : List (String × D) → Manager H D → Manager H D
  register_all [] m = m
  register_all ((name, d) ∷ drivers) m = register_all drivers (register_driver name d m)

  -- With the options `WithDriver`, in order.
  unfoldable pub new_server : List (String × QueueConfig) → List (String × D) → Manager H D
  new_server config options = register_all (with_drivers options []) (new_manager config [])

  -- `Handle` and `Bind`
  unfoldable pub bind : String → H → Manager H D → Manager H D
  bind name h m = record m { handlers = handle name h m.handlers }

  -- The manager at the call of its `Run`.
  unfoldable pub before_run : List (String × H) → Manager H D → Manager H D
  before_run given m = record m { handlers = merge given m.handlers }

abbrev or_else {ℓ} : {A : Type ℓ} → Option A → Option A → Option A
or_else none o = o
or_else (some a) o = some a

-- No name has two entries.
abbrev pub IsMap {ℓ} : {A : Type ℓ} → List (String × A) → Type ℓ
IsMap [] = Unit
IsMap ((name, a) ∷ l) = (get name l ≡ none) × IsMap l

get-cons {ℓ} :
    {A : Type ℓ} (name n : String) (a : A) (l : List (String × A)) (own : Option A)
    → get n l ≡ none
    → or_else (get name l) (if str_eq n name then some a else own)
      ≡ or_else (get name ((n, a) ∷ l)) own
unfolding get
get-cons name n a l own h = elim (Bool-cases (str_eq n name)) [
  | inl e ↦
      rw e (subst (λ x. or_else (get x l) (some a) ≡ some a) ((eq_iff n name).0 e) (rw h refl))
  | inr e ↦ rw e refl
]

module _ {A : Type 0} where
  get-merge :
      (name : String) (given own : List (String × A))
      → IsMap given
      → get name (merge given own) ≡ or_else (get name given) (get name own)
  unfolding merge get
  get-merge name [] own h = refl
  get-merge name ((n, a) ∷ given) own h =
      get-merge name given (handle n a own) h.1
      ∙ ap (or_else (get name given)) (get-handle n name a own)
      ∙ get-cons name n a given (get name own) h.0

  handle-IsMap : (n : String) (a : A) (l : List (String × A)) → IsMap l → IsMap (handle n a l)
  unfolding handle get
  handle-IsMap n a [] h = (refl, tt)
  handle-IsMap n a ((j, b) ∷ l) h =
      by_test {A = List (String × A)} (λ x. IsMap x) (str_eq j n) _ _
        (λ e. (subst (λ x. get x l ≡ none) ((eq_iff j n).0 e) h.0, h.1))
        (λ e. (
          get-handle n j a l ∙ ground (arith, eq_iff n j, eq_iff j n, h.0),
          handle-IsMap n a l h.1,
        ))

  with_drivers-IsMap : (options l : List (String × A)) → IsMap l → IsMap (with_drivers options l)
  unfolding with_drivers with_driver
  with_drivers-IsMap [] l h = h
  with_drivers-IsMap ((n, d) ∷ options) l h = with_drivers-IsMap options _ (
      by_test {A = List (String × A)} (λ x. IsMap x) (str_eq n "") _ _ (λ e. h)
        (λ e. handle-IsMap n d l h))

module _ {H D : Type 0} where
  config-register_driver :
      (n : String) (d : D) (m : Manager H D) → (register_driver n d m).config ≡ m.config
  unfolding register_driver
  config-register_driver n d m =
      by_test {A = Manager H D} (λ x. x.config ≡ m.config) (str_eq n "") _ _ (λ e. refl) (λ e. refl)

  config-register_all :
      (l : List (String × D)) (m : Manager H D) → (register_all l m).config ≡ m.config
  unfolding register_all
  config-register_all [] m = refl
  config-register_all ((n, d) ∷ l) m =
      config-register_all l (register_driver n d m) ∙ config-register_driver n d m

  get-register_driver :
      (name n : String) (d : D) (m : Manager H D)
      → str_eq name "" ≡ false
      → get name (register_driver n d m).drivers
        ≡ (if str_eq n name then some d else get name m.drivers)
  unfolding register_driver
  get-register_driver name n d m ne =
      by_test {A = Manager H D}
        (λ x. get name x.drivers ≡ (if str_eq n name then some d else get name m.drivers))
        (str_eq n "") _ _ (λ e. ground (arith, e, ne, eq_iff n "", eq_iff n name, eq_iff name ""))
        (λ e. get-handle n name d m.drivers)

  get-register_all :
      (name : String) (l : List (String × D)) (m : Manager H D)
      → str_eq name "" ≡ false
      → IsMap l
      → get name (register_all l m).drivers ≡ or_else (get name l) (get name m.drivers)
  unfolding register_all get
  get-register_all name [] m ne h = refl
  get-register_all name ((n, d) ∷ l) m ne h =
      get-register_all name l (register_driver n d m) ne h.1
      ∙ ap (or_else (get name l)) (get-register_driver name n d m ne)
      ∙ get-cons name n d l (get name m.drivers) h.0

  AllReady-mono :
      (hs hs' : List (String × H)) (ds ds' : List (String × D))
      (config : List (String × QueueConfig))
      → ((name : String) (h : H) → get name hs ≡ some h → get name hs' ≡ some h)
      → ((name : String) (d : D)
          → str_eq name "" ≡ false
          → get name ds ≡ some d
          → get name ds' ≡ some d)
      → AllReady hs ds config
      → AllReady hs' ds' config
  AllReady-mono hs hs' ds ds' [] fh fd r = tt
  AllReady-mono hs hs' ds ds' ((name, cfg) ∷ config) fh fd r = (
    λ on.
        let ((h, bound), named, (d, driven)) = r.0 on in
        ((h, fh name h bound), named, (d, fd cfg.driver d named driven)),
    AllReady-mono hs hs' ds ds' config fh fd r.1,
  )

  -- If each enabled queue has a handler among those given to `Run`, and names a driver that the
  -- options register, then a new server passes the checks of the start that `Run` makes, whatever
  -- handlers were bound before.
  pub server_checks_pass :
      (config : List (String × QueueConfig)) (options : List (String × D))
      (given own : List (String × H))
      → IsMap given
      → AllReady given (with_drivers options []) config
      → let m = before_run given (record (new_server config options) { handlers = own }) in
        check_start_worker_options m.handlers m.drivers m.config ≡ none
  unfolding before_run new_server new_manager
  server_checks_pass config options given own h ready =
      let new = new_manager config [] in
      let drivers = with_drivers options [] in
      let m = register_all drivers new in
      subst (λ c. check_start_worker_options (merge given own) m.drivers c ≡ none)
        (sym (config-register_all drivers new))
        ((check_start_worker_options_iff (merge given own) m.drivers config).1 (
          AllReady-mono given (merge given own) drivers m.drivers config
            (λ name f e. get-merge name given own h ∙ rw e refl)
            (λ name d ne e.
              get-register_all name drivers new ne (with_drivers-IsMap options [] tt) ∙ rw e refl)
            ready))
