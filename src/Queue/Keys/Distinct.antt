-- ===== src/Queue/Keys/Distinct.antt =====
-- Different parts of a channel have different keys.
use Prim.Native.String.{◌++◌, ◌∷◌}
use Prim.Native.Char.{Char, code}
use text.Mathlib.TextLemmas.{append_cancel_left, append_assoc, cons-append, head-eq_of_cons-eq}
use text.Mathlib.TextPositions.{eq_refl}
use async_queue_go.Prelude.{
  String, ◌≡◌, ap, sym, ◌∙◌, Bool, true, false, arith, str_eq, eq_iff, Bool-cases, inl, inr, ◌≢◌,
}
use async_queue_go.Queue.Keys.{Keys, bucket, message, new_keys}

-- Two tests agree when each implies the other.
Bool_ext : (a b : Bool) → (a ≡ true → b ≡ true) → (b ≡ true → a ≡ true) → a ≡ b
Bool_ext true b f g = ground (arith, f)
Bool_ext false b f g = ground (arith, g)

pub str_eq-append : (p s t : String) → str_eq (p ++ s) (p ++ t) ≡ str_eq s t
str_eq-append p s t =
    Bool_ext (str_eq (p ++ s) (p ++ t)) (str_eq s t)
      (λ h. (eq_iff s t).1 (append_cancel_left p s t ((eq_iff (p ++ s) (p ++ t)).0 h)))
      (λ h. (eq_iff (p ++ s) (p ++ t)).1 (ap (λ x. p ++ x) ((eq_iff s t).0 h)))

pub str_eq-bucket : (c s t : String) → str_eq (bucket c s) (bucket c t) ≡ str_eq s t
unfolding bucket
str_eq-bucket c s t = rw (str_eq-append, str_eq-append, str_eq-append)

-- The keys of two messages differ when their ids do.
pub str_eq-message : (k : Keys) (i j : String) → str_eq (message k i) (message k j) ≡ str_eq i j
unfolding message
str_eq-message k i j = str_eq-append k.message_prefix i j

-- The key of a message is none of the buckets: their names begin otherwise.
abbrev letter_m : Char
letter_m = "m"

message_differs :
    (c : Char) (t id : String) → code letter_m ≢ code c → str_eq ("message:" ++ id) (c ∷ t) ≡ false
message_differs c t id ne = elim (Bool-cases (str_eq ("message:" ++ id) (c ∷ t))) [
  | inl h ↦ absurd (
      ne (
        ap code (
          head-eq_of_cons-eq
            (sym (cons-append letter_m "essage:" id) ∙ (eq_iff ("message:" ++ id) (c ∷ t)).0 h))))
  | inr h ↦ h
]

str_eq-message_bucket :
    (name id b : String)
    → str_eq ("message:" ++ id) b ≡ false
    → str_eq (message (new_keys name) id) (bucket name b) ≡ false
unfolding message new_keys bucket
str_eq-message_bucket name id b h =
    ap (λ x. str_eq x (bucket name b)) (spread ("}:" ++ "message:"))
    ∙ str_eq-append "{" _ _
    ∙ str_eq-append name _ _
    ∙ ap (λ x. str_eq x ("}:" ++ b)) (append_assoc "}:" "message:" id)
    ∙ str_eq-append "}:" _ _
    ∙ h
  where
    spread : (t : String) → ("{" ++ (name ++ t)) ++ id ≡ "{" ++ (name ++ (t ++ id))
    spread t = append_assoc "{" (name ++ t) id ∙ ap (λ x. "{" ++ x) (append_assoc name t id)

module _ (name id : String) where
  pub waiting_apart : str_eq (message (new_keys name) id) (bucket name "waiting") ≡ false
  waiting_apart =
      str_eq-message_bucket name id "waiting"
        (message_differs "w" "aiting" id (λ e. absurd (omega arith)))

  pub reserved_apart : str_eq (message (new_keys name) id) (bucket name "reserved") ≡ false
  reserved_apart =
      str_eq-message_bucket name id "reserved"
        (message_differs "r" "eserved" id (λ e. absurd (omega arith)))

  pub delayed_apart : str_eq (message (new_keys name) id) (bucket name "delayed") ≡ false
  delayed_apart =
      str_eq-message_bucket name id "delayed"
        (message_differs "d" "elayed" id (λ e. absurd (omega arith)))

  pub timeout_apart : str_eq (message (new_keys name) id) (bucket name "timeout") ≡ false
  timeout_apart =
      str_eq-message_bucket name id "timeout"
        (message_differs "t" "imeout" id (λ e. absurd (omega arith)))

  pub failed_apart : str_eq (message (new_keys name) id) (bucket name "failed") ≡ false
  failed_apart =
      str_eq-message_bucket name id "failed"
        (message_differs "f" "ailed" id (λ e. absurd (omega arith)))

pub ruleset key_laws = (
  str_eq-bucket, str_eq-message, eq_refl, waiting_apart, reserved_apart, delayed_apart,
  timeout_apart, failed_apart,
)
