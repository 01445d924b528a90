-- ===== src/Tests/Bridge.antt =====
-- A bridge with one question, from its start to its end.
use db_version_control.Prelude.{
  ℕ, true, false, Option, none, some, List, [], ◌∷◌, ◌≡◌, refl, inl, inr, Option-cases, subst,
}
use mathlib.Core.Option.{some-injective}
use db_version_control.Prelude.Errors.{ok}
use db_version_control.Web.Bridge.{
  Call, finished, asks, ended, idle, waiting, System, work, work_at, Move, poll, go, submit, act,
  act_at, by_worker, by_request, Reachable, start, then_step, started_system,
}
use db_version_control.Web.Bridge.Invariant.{at_state}
use db_version_control.Web.Bridge.Faithful.{IsResult, done-IsResult, CanFinish, Reachable-CanFinish}

abbrev State : Type 0
State = System ℕ ℕ ℕ

abbrev target : Call ℕ ℕ ℕ
target = asks 7 (λ a. finished (ok a))

-- A schedule: `none` is a step of the worker.
abbrev step : Option (Move ℕ ℕ ℕ) → State → Option State
step none s = work ℕ ℕ ℕ s
step (some move) s = act ℕ ℕ ℕ move s

abbrev run : List (Option (Move ℕ ℕ ℕ)) → State → Option State
run [] s = some s
run (m ∷ ms) s = elim (step m s) [ none ↦ none | some s' ↦ run ms s' ]

step-Reachable :
    (m : Option (Move ℕ ℕ ℕ)) (s s' : State)
    → Reachable ℕ ℕ ℕ target s
    → step m s ≡ some s'
    → Reachable ℕ ℕ ℕ target s'
step-Reachable none s s' r q = then_step r (by_worker q)
step-Reachable (some move) s s' r q = then_step r (by_request move q)

run-Reachable :
    (ms : List (Option (Move ℕ ℕ ℕ))) (s s' : State)
    → Reachable ℕ ℕ ℕ target s
    → run ms s ≡ some s'
    → Reachable ℕ ℕ ℕ target s'
run-Reachable [] s s' r q = subst (Reachable ℕ ℕ ℕ target) (some-injective _ _ q) r
run-Reachable (m ∷ ms) s s' r q = elim (Option-cases (step m s)) [
  | inl p ↦ let no : none ≡ some s' = rw (p, run) at q in cc
  | inr (t, p) ↦ run-Reachable ms t s' (step-Reachable m s t r p) (rw (p, run) at q)
]

abbrev up_to_question : List (Option (Move ℕ ℕ ℕ))
up_to_question = none ∷ none ∷ none ∷ none ∷ []

abbrev open_state : State
open_state =
    at_state true false false (some 7) none none (waiting 7 (λ a. finished (ok a))) idle [] []

open_state-Reachable : Reachable ℕ ℕ ℕ target open_state
unfolding work work_at
open_state-Reachable =
    run-Reachable up_to_question (started_system ℕ ℕ ℕ target) open_state start refl

Reachable-CanFinish_example : CanFinish (λ q. q) open_state
Reachable-CanFinish_example = Reachable-CanFinish (λ q. q) target open_state open_state-Reachable

abbrev to_the_end : List (Option (Move ℕ ℕ ℕ))
to_the_end =
    some poll
    ∷ some go
    ∷ some go
    ∷ some (submit 5)
    ∷ some go
    ∷ some go
    ∷ some go
    ∷ none
    ∷ none
    ∷ none
    ∷ none
    ∷ none
    ∷ none
    ∷ none
    ∷ []

abbrev end_state : State
end_state =
    at_state true true true (some 7) (some 5) (some (ok 5)) ended idle ((7, 5) ∷ []) ((7, 5) ∷ [])

end_state-Reachable : Reachable ℕ ℕ ℕ target end_state
unfolding work work_at act act_at
end_state-Reachable = run-Reachable to_the_end open_state end_state open_state-Reachable refl

done-IsResult_example : IsResult target end_state
done-IsResult_example = done-IsResult target end_state end_state-Reachable refl
