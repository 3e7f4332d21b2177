-- ===== src/Queue/Consumer/PopErrors.antt =====
-- Which errors of `Pop` a consumer retries: `isRetryablePopError` and `normalizeRedisError` of
-- pkg/queue/consumer.go.
use Prim.Native.String.{◌++◌, slice, len}
use text.Mathlib.Text.{starts_with, find?}
use text.Mathlib.TextPositions.{starts_with-append, slice-append_right, len-append}
use async_queue_go.Prelude.{
  String, ◌≡◌, refl, ap, ◌∙◌, Bool, true, false, ◌||◌, Option, List, [], ◌∷◌, if◌then◌else◌, str_eq,
}
use async_queue_go.Redis.Keyspace.{is_some}
use async_queue_go.Queue.Consumer.Loop.{Poll, failed}

-- `strings.TrimSpace` and `strings.ToUpper`, which follow Unicode.
pub record Texts : Type 0 where
  pub trim_space : String → String
  pub to_upper : String → String

-- What `errors.Is` and `errors.As` find in the chain of an error, and its text.
pub record PopError : Type 0 where
  pub canceled : Bool
  pub deadline_exceeded : Bool
  pub eof : Bool
  pub unexpected_eof : Bool
  -- what the method `Timeout` of an error in the chain answers, if there is one
  pub timeout : Option Bool
  pub text : String

-- `strings.TrimPrefix`
abbrev pub trim_prefix : String → String → String
trim_prefix prefix s = if starts_with s prefix then slice s (len prefix) (len s) else s

abbrev begins_with_any : String → List String → Bool
begins_with_any s [] = false
begins_with_any s (p ∷ ps) = starts_with s p || begins_with_any s ps

-- `strings.Contains`
abbrev contains_any : String → List String → Bool
contains_any s [] = false
contains_any s (p ∷ ps) = is_some (find? s p) || contains_any s ps

abbrev transient_replies : List String
transient_replies =
    "LOADING " ∷ "READONLY " ∷ "CLUSTERDOWN " ∷ "TRYAGAIN " ∷ "MASTERDOWN " ∷ "BUSY "
    ∷ "CLIENT PAUSED " ∷ []

abbrev transient_texts : List String
transient_texts =
    "CONNECTION REFUSED" ∷ "CONNECTION RESET" ∷ "BROKEN PIPE" ∷ "I/O TIMEOUT" ∷ "NO ROUTE TO HOST"
    ∷ "NETWORK IS UNREACHABLE" ∷ "USE OF CLOSED NETWORK CONNECTION" ∷ "EOF" ∷ []

trim_prefix-append : (p s : String) → trim_prefix p (p ++ s) ≡ s
trim_prefix-append p s = rw (starts_with-append p s) (rw (len-append p s) (slice-append_right p s))

-- The tests, with the normalised text.
abbrev classify : PopError → String → Bool
classify e msg =
    if e.canceled || e.deadline_exceeded
    then false
    else if e.eof || e.unexpected_eof
    then true
    else if is_some e.timeout
    then true
    else (str_eq msg "MAX NUMBER OF CLIENTS REACHED"
        || (begins_with_any msg transient_replies || contains_any msg transient_texts))

module _ (t : Texts) where
  unfoldable pub normalize_redis_error : PopError → String
  normalize_redis_error e = t.to_upper (trim_prefix "ERR " (t.trim_space e.text))

  -- The error is there.
  unfoldable pub is_retryable_pop_error : PopError → Bool
  is_retryable_pop_error e = classify e (normalize_redis_error e)

  -- The answer of `Pop` that the loop of `Run` meets.
  abbrev pub failed_with : PopError → Bool → Bool → Poll
  failed_with e ended stopped = failed ended (is_retryable_pop_error e) stopped

  -- An error reply is classified alike with the word ERR before it and without.
  pub err_prefix_ignored :
      (e : PopError) (plain prefixed : String)
      → t.trim_space prefixed ≡ "ERR " ++ t.trim_space plain
      → starts_with (t.trim_space plain) "ERR " ≡ false
      → is_retryable_pop_error (record e { text = prefixed })
        ≡ is_retryable_pop_error (record e { text = plain })
  unfolding is_retryable_pop_error normalize_redis_error
  err_prefix_ignored e plain prefixed h other =
      ap (λ s. classify e (t.to_upper s))
        (ap (trim_prefix "ERR ") h ∙ trim_prefix-append "ERR " (t.trim_space plain) ∙ rw other refl)
