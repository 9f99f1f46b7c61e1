-- ===== src/Worker/Service/Concurrency.antt =====
-- How many calls the worker of app/sandbox_worker.py runs at once.
use curator_agent.Prelude.{
  ℕ, ◌+◌, ◌≤◌, some, List, [], ◌∷◌, ◌++◌, ◌≡◌, ◌⊎◌, inl, inr, refl, arith, length, length-append,
  ap,
}
use curator_agent.Sandbox.Container.{Call}
use curator_agent.Worker.Protocol.Config.{SandboxWorkerLimits}
use curator_agent.Worker.Service.{
  Slots, semaphore, acquire, release, Step, start, refuse, finish, Reach, here, next,
}

-- No slot is lost or made.
abbrev IsBalanced : SandboxWorkerLimits → Slots → Type 0
IsBalanced limits p = p.free + length p.running ≡ limits.max_concurrency

acquire-IsBalanced :
    (limits : SandboxWorkerLimits) (p q : Slots) (call : Call)
    → acquire call p ≡ some q
    → IsBalanced limits p
    → IsBalanced limits q
unfolding acquire
acquire-IsBalanced limits p q call h b = ground (arith, h, b, length-append p.running (call ∷ []))

release-IsBalanced :
    (limits : SandboxWorkerLimits) (p q : Slots) (before after : List Call) (call : Call)
    → p.running ≡ before ++ call ∷ after
    → release limits p ≡ some q
    → IsBalanced limits p
    → IsBalanced limits (record q { running = before ++ after })
unfolding release
release-IsBalanced limits p q before after call e h b =
    ground
      (arith, h, b, ap length e, length-append before (call ∷ after), length-append before after)

Step-IsBalanced :
    {limits : SandboxWorkerLimits} {p q : Slots}
    → Step limits p q
    → IsBalanced limits p
    → IsBalanced limits q
Step-IsBalanced {limits} (start p q call h) b = acquire-IsBalanced limits p q call h b
Step-IsBalanced (refuse p call h) b = b
Step-IsBalanced {limits} (finish p q before after call e h) b =
    release-IsBalanced limits p q before after call e h b

Reach-IsBalanced : {limits : SandboxWorkerLimits} {p : Slots} → Reach limits p → IsBalanced limits p
unfolding semaphore
Reach-IsBalanced here = omega arith
Reach-IsBalanced (next r step) = Step-IsBalanced step (Reach-IsBalanced r)

List-cases : (calls : List Call) → (calls ≡ []) ⊎ ((n : ℕ) × (length calls ≡ n + 1))
List-cases [] = inl refl
List-cases (call ∷ calls) = inr (length calls, omega arith)

-- In every state that the worker reaches, at most `max_concurrency` calls run, and if one runs, the
-- release of its slot raises no exception.
pub running-IsBounded :
    (limits : SandboxWorkerLimits) (p : Slots)
    → Reach limits p
    → (length p.running ≤ limits.max_concurrency)
      × ((p.running ≡ []) ⊎ ((q : Slots) × (release limits p ≡ some q)))
unfolding release
running-IsBounded limits p r =
    let b = Reach-IsBalanced r in
    (
      omega (arith, b),
      elim (List-cases p.running) [
        | inl idle ↦ inl idle
        | inr (n, many) ↦ inr (record p { free = p.free + 1 }, ground (arith, b, many))
      ],
    )
