-- ===== src/Remote/Outcomes.antt =====
-- What the client of the worker hands on, and when it reports that it is ready.
use curator_agent.Prelude.{
  ℕ, String, true, false, some, ◌==◌, ◌≡◌, ◌⊎◌, refl, ◌∙◌, inl, inr, arith, eqb, Bool-cases, ok,
  raise, eq_iff,
}
use curator_agent.Value.{Value, Fields, null, bool, int, float, str, list, dict}
use curator_agent.Value.Dict.{get, get-set}
use curator_agent.Schema.{is_object}
use curator_agent.Sandbox.Container.{Call}
use curator_agent.Sandbox.Fallback.{get_or_none}
use curator_agent.Enforcing.{is_success}
use curator_agent.Remote.{RemoteSandboxExecutor, Network, Exchange, answered, unreachable}
use curator_agent.Remote.Execution.{
  Answer, attribute_error, failure, refused, accept_result, on_success_status, on_exchange,
  execution_exchange, execute,
}

-- The result is the client's own failure.
pub record IsRejection (r : Fields) : Type 0 where
  pub status : get "execution_status" r ≡ some (str "rejected_remote_worker_unavailable")
  pub fallback_used : get "fallback_used" r ≡ some (bool false)

-- The result is the one in the worker's response, with the two entries that the client sets.
pub record IsFromWorker (e : Exchange) (r : Fields) : Type 0 where
  pub response : Fields
  pub result : Fields
  pub answered_200 : e ≡ answered 200 (dict response)
  pub success : is_success (get_or_none "status" response) ≡ true
  pub carried : get_or_none "data" response ≡ dict result
  pub backend : get "execution_backend" r ≡ some (str "remote_worker")
  pub fallback_used : get "fallback_used" r ≡ some (bool false)
  pub kept :
      (k : String)
      → (k == "execution_backend") ≡ false
      → (k == "fallback_used") ≡ false
      → get k r ≡ get k result

-- The three ways in which a call ends.
abbrev pub Outcome : Exchange → Answer → Type 0
Outcome e a =
    ((r : Fields) × (a ≡ ok r) × (IsRejection r ⊎ IsFromWorker e r))
    ⊎ ((v : Value) × (e ≡ answered 200 v) × (is_object v ≡ false) × (a ≡ raise attribute_error))

failure-IsRejection : (skill_id code details : String) → IsRejection (failure skill_id code details)
unfolding failure get
failure-IsRejection skill_id code details = elim (Bool-cases (details == "")) [
  | inl empty ↦ rw empty (record { status = refl; fallback_used = refl })
  | inr given ↦ rw given (record {
    status = get-set "details" "execution_status" _ _;
    fallback_used = get-set "details" "fallback_used" _ _;
  })
]

other_key : (k j : String) → (k == j) ≡ false → (j == k) ≡ false
other_key k j h = ground (arith, eq_iff k j, eq_iff j k)

module _ (str_value : Value → String) (str_nat : ℕ → String) (call : Call) where
  refused-IsRejection : (n : ℕ) (v : Value) → IsRejection (refused str_value str_nat call n v)
  unfolding refused
  refused-IsRejection n v = failure-IsRejection _ _ _

  invalid-IsRejection : IsRejection (failure call.skill_id "invalid_sandbox_worker_response" "")
  invalid-IsRejection = failure-IsRejection _ _ _

  abbrev Accepted : Fields → Value → Type 0
  Accepted response content =
      IsRejection (accept_result str_value str_nat call content)
      ⊎ IsFromWorker (answered 200 (dict response)) (accept_result str_value str_nat call content)

  result_outcome :
      (response : Fields) (content : Value)
      → is_success (get_or_none "status" response) ≡ true
      → get_or_none "data" response ≡ content
      → Accepted response content
  unfolding accept_result
  result_outcome response (dict result) fine carried = inr (record {
    response = response;
    result = result;
    answered_200 = refl;
    success = fine;
    carried = carried;
    backend =
        get-set "fallback_used" "execution_backend" _ _
        ∙ get-set "execution_backend" "execution_backend" _ result;
    fallback_used = get-set "fallback_used" "fallback_used" _ _;
    kept = λ k not_backend not_fallback.
        get-set "fallback_used" k _ _
        ∙ rw (other_key k "fallback_used" not_fallback) (
            get-set "execution_backend" k _ result
            ∙ rw (other_key k "execution_backend" not_backend) refl);
  })
  result_outcome response null fine carried = inl (invalid-IsRejection)
  result_outcome response (bool _) fine carried = inl (invalid-IsRejection)
  result_outcome response (int _) fine carried = inl (invalid-IsRejection)
  result_outcome response (float _) fine carried = inl (invalid-IsRejection)
  result_outcome response (str _) fine carried = inl (invalid-IsRejection)
  result_outcome response (list _) fine carried = inl (invalid-IsRejection)

  success_outcome :
      (v : Value) → Outcome (answered 200 v) (on_success_status str_value str_nat call v)
  unfolding on_success_status
  success_outcome (dict response) = elim (Bool-cases (is_success (get_or_none "status" response))) [
    | inl fine ↦ inl (_, rw fine refl, result_outcome response _ fine refl)
    | inr bad ↦ inl (_, rw bad refl, inl (refused-IsRejection 200 (dict response)))
  ]
  success_outcome null = inr (null, refl, refl, refl)
  success_outcome (bool b) = inr (bool b, refl, refl, refl)
  success_outcome (int n) = inr (int n, refl, refl, refl)
  success_outcome (float x) = inr (float x, refl, refl, refl)
  success_outcome (str s) = inr (str s, refl, refl, refl)
  success_outcome (list xs) = inr (list xs, refl, refl, refl)

  exchange_outcome : (e : Exchange) → Outcome e (on_exchange str_value str_nat call e)
  unfolding on_exchange
  exchange_outcome (unreachable details) = inl (_, refl, inl (failure-IsRejection _ _ details))
  exchange_outcome (answered n v) = elim (Bool-cases (eqb n 200)) [
    | inl fine ↦ let same : n ≡ 200 = ground arith in rw (same) (success_outcome v)
    | inr other ↦ inl (_, rw other refl, inl (refused-IsRejection n v))
  ]

-- A call ends in one of three ways: with a failure of the client's own; with the result in the worker's
-- response of status 200 and "success", all of whose other entries are kept; or, for a response of
-- status 200 that is no dictionary, with an exception. No result uses a fallback.
pub remote_outcome :
    (network : Network) (str_value : Value → String) (seconds : ℕ → Value)
    (self : RemoteSandboxExecutor) (call : Call)
    → Outcome
        (execution_exchange network seconds self call)
        (execute network str_value seconds self call)
unfolding execute
remote_outcome network str_value seconds self call =
    exchange_outcome str_value network.str_nat call (execution_exchange network seconds self call)
