-- ===== src/Structured/Repair/Retried.antt =====
-- internal/gateway/copilot_http.go: when retryTransientChat has an answer.
use ghcp_pool_go.Base.{
  ℕ, zero, suc, ◌+◌, ◌≡◌, refl, ◌∙◌, ◌↔◌, ◌⊎◌, inl, inr, true, Bool-cases, if◌then◌else◌,
}
use ghcp_pool_go.Errors.{BackendError, is_transient_overload_error}
use ghcp_pool_go.Json.{Fields}
use ghcp_pool_go.Json.Tools.{request_has_web_search_tool}
use ghcp_pool_go.Results.{ChatResult, Reply, answers, fails}
use ghcp_pool_go.Structured.Repair.{
  Calls, retry_from, retry_transient_chat, transient_retry_attempts,
}

-- The i-th call reports an overload, and the wait after it ends.
pub record Overloaded (c : Calls) (i : ℕ) : Type 0 where
  pub cause : BackendError
  pub failed : c.attempt i ≡ fails cause
  pub transient : is_transient_overload_error cause ≡ true
  pub waited : c.waits i ≡ true

-- One of the calls from the i-th on, at most `more` after it, answers, and each one before it
-- reported an overload.
abbrev pub Answered : Calls → ChatResult → ℕ → ℕ → Type 0
Answered c r i zero = c.attempt i ≡ answers r
Answered c r i (suc more) = (c.attempt i ≡ answers r) ⊎ (Overloaded c i × Answered c r (i + 1) more)

Reply-cases :
    (r : Reply)
    → ((result : ChatResult) × (r ≡ answers result)) ⊎ ((e : BackendError) × (r ≡ fails e))
Reply-cases (answers result) = inl (result, refl)
Reply-cases (fails e) = inr (e, refl)

fails_ne_answers : (e : BackendError) (r : ChatResult) → fails e ≡ answers r → ⊥
fails_ne_answers e r h = cc

retry_from-answers :
    (c : Calls) (r : ChatResult) (i more : ℕ)
    → retry_from c i more ≡ answers r
    → Answered c r i more
unfolding retry_from
retry_from-answers c r i zero h = h
retry_from-answers c r i (suc more) h = elim (Reply-cases (c.attempt i)) [
  | inl (result, e) ↦ inl (e ∙ (rw (retry_from, e) at h))
  | inr (e, q) ↦ elim (Bool-cases (is_transient_overload_error e)) [
    | inr f ↦ absurd (fails_ne_answers e r (rw f at (rw (retry_from, q) at h)))
    | inl t ↦ elim (Bool-cases (c.waits i)) [
      | inr f ↦ absurd (fails_ne_answers c.ended r (rw f at (rw t at (rw (retry_from, q) at h))))
      | inl w ↦ inr (
        record { cause = e; failed = q; transient = t; waited = w },
        retry_from-answers c r (i + 1) more (rw w at (rw t at (rw (retry_from, q) at h))),
      )
    ]
  ]
]

answers-retry_from :
    (c : Calls) (r : ChatResult) (i more : ℕ)
    → Answered c r i more
    → retry_from c i more ≡ answers r
unfolding retry_from
answers-retry_from c r i zero h = h
answers-retry_from c r i (suc more) (inl e) = rw (retry_from, e) refl
answers-retry_from c r i (suc more) (inr (o, h)) =
    rw (retry_from, o.failed) (rw o.transient (rw o.waited (answers-retry_from c r (i + 1) more h)))

-- retryTransientChat has an answer exactly where one of the calls it may make (two with a tool for
-- the search of the web, else three) gives it, each one before reported an overload, and the wait
-- after each of these ended by its timer.
pub retry_transient_chat_iff :
    (c : Calls) (params : Fields) (r : ChatResult)
    → (retry_transient_chat c params ≡ answers r)
      ↔ Answered c r 0 (if request_has_web_search_tool params then 1 else 2)
unfolding retry_transient_chat transient_retry_attempts
retry_transient_chat_iff c params r = elim (Bool-cases (request_has_web_search_tool params)) [
  | inl y ↦ rw (retry_transient_chat, y) (retry_from-answers c r 0 1, answers-retry_from c r 0 1)
  | inr f ↦ rw (retry_transient_chat, f) (retry_from-answers c r 0 2, answers-retry_from c r 0 2)
]
