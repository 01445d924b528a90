-- ===== src/Web/Bridge/Faithful.antt =====
-- The bridge gives the result of the blocking call, and can always be brought to its end.
use db_version_control.Prelude.{
  Bool, true, false, Option, none, some, List, [], ◌∷◌, ◌++◌, ◌≡◌, refl,
}
use db_version_control.Prelude.Errors.{Result}
use db_version_control.Web.Bridge.{
  Call, finished, asks, running, setting_question, clearing_answer, announcing, waiting, returning,
  storing, setting_done, ended, Request, idle, fired, holding, writing, setting, System, work,
  work_at, poll, go, submit, act, act_at, Reachable,
}
use db_version_control.Web.Bridge.Invariant.{
  Runs, IsReader, reads_idle, reads_fired, reads_reading, reads_holding, at_state, Inv, computing,
  asking, asking_stale, asking_clear, asked, answering, answer_written, question_cleared, answered,
  woken, returned, ending, stored, finishing, over, Reachable-Inv,
}

module _ {Q A R : Type 0} where
  -- `result` of a bridge that is done: what the call comes to with the answers that were sent.
  pub record IsResult (target : Call Q A R) (s : System Q A R) : Type 0 where
    pub value : Result R
    pub has_result : s.bridge.result ≡ some value
    pub runs : Runs target s.sent (finished value)

  finish_value :
      (target : Call Q A R) (s : System Q A R)
      → Inv target s
      → s.bridge.done ≡ true
      → IsResult target s
  finish_value target s (computing h) d = cc
  finish_value target s (asking h) d = cc
  finish_value target s (asking_stale h) d = cc
  finish_value target s (asking_clear h) d = cc
  finish_value target s (asked h r) d = cc
  finish_value target s (answering a h) d = cc
  finish_value target s (answer_written a h) d = cc
  finish_value target s (question_cleared a h) d = cc
  finish_value target s (answered a h) d = cc
  finish_value target s (woken a h) d = cc
  finish_value target s (returned a h) d = cc
  finish_value target s (ending h) d = cc
  finish_value target s (stored h) d = cc
  finish_value target s (finishing h) d = record { value = _; has_result = refl; runs = h }
  finish_value target s (over h l) d = record { value = _; has_result = refl; runs = h }

  -- Where one request is served at a time: whatever the interleaving of the worker's and the request's
  -- statements, a bridge that is done holds the value or the error that the call comes to when
  -- each of its questions, in turn, is answered by what was submitted for that very question.
  pub done-IsResult :
      (target : Call Q A R) (s : System Q A R)
      → Reachable Q A R target s
      → s.bridge.done ≡ true
      → IsResult target s
  done-IsResult target s r d = finish_value target s (Reachable-Inv target s r) d

  module _ (answer : Q → A) where
    -- Steps of the worker, and of requests that poll and answer a question only by `answer`, lead
    -- to the end of the worker, with `done` set. No request leaves without an answer.
    pub data CanFinish : System Q A R → Type 0 where
      at_end : {s : System Q A R} → s.worker ≡ ended → s.bridge.done ≡ true → CanFinish s
      works : {s s' : System Q A R} → work Q A R s ≡ some s' → CanFinish s' → CanFinish s
      polls : {s s' : System Q A R} → act Q A R poll s ≡ some s' → CanFinish s' → CanFinish s
      goes : {s s' : System Q A R} → act Q A R go s ≡ some s' → CanFinish s' → CanFinish s
      submits :
          {s s' : System Q A R} (q : Q)
          → s.request ≡ holding q
          → act Q A R (submit (answer q)) s ≡ some s'
          → CanFinish s'
          → CanFinish s

    module _ {ar : Bool} {qn : Option Q} {an : Option A} {delivered sent : List (Q × A)} where
      from_setting_done :
          (r : Result R)
          → CanFinish (at_state false ar false qn an (some r) setting_done idle delivered sent)
      unfolding work work_at
      from_setting_done r = works refl (works refl (at_end refl refl))

      from_storing :
          (r : Result R)
          → CanFinish (at_state false ar false qn an none (storing r) idle delivered sent)
      unfolding work work_at
      from_storing r = works refl (from_setting_done r)

    -- The open question, once the call can be finished from every answer to it.
    module _ (x : Q) (k : A → Call Q A R) (a : A) (log : List (Q × A))
        (continue : (ar : Bool) (qn : Option Q) (an : Option A) (log : List (Q × A))
          → CanFinish (at_state false ar false qn an none (running (k a)) idle log log)) where
      from_returning : CanFinish (
          at_state false true false
            (some x)
            (some a)
            none
            (returning x k)
            idle
            log
            (log ++ (x, a) ∷ []))
      unfolding work work_at
      from_returning = works refl (continue _ _ _ _)

      from_answered : CanFinish (
          at_state false true false
            (some x)
            (some a)
            none
            (waiting x k)
            idle
            log
            (log ++ (x, a) ∷ []))
      unfolding work work_at
      from_answered = works refl (works refl from_returning)

      from_setting :
          CanFinish
            (at_state false false false (some x) (some a) none (waiting x k) (setting x a) log log)
      unfolding act act_at
      from_setting = goes refl from_answered

      from_writing :
          (an : Option A)
          → CanFinish
              (at_state true false false (some x) an none (waiting x k) (writing x a) log log)
      unfolding act act_at
      from_writing an = goes refl (goes refl from_setting)

    -- The open question before its answer is chosen.
    module _ (x : Q) (k : A → Call Q A R) (log : List (Q × A))
        (continue : (ar : Bool) (qn : Option Q) (an : Option A) (log : List (Q × A))
          → CanFinish
              (at_state false ar false qn an none (running (k (answer x))) idle log log)) where
      from_holding :
          (an : Option A)
          → CanFinish (at_state true false false (some x) an none (waiting x k) (holding x) log log)
      unfolding act act_at
      from_holding an = submits x refl refl (from_writing x k (answer x) log continue an)

      from_fired :
          (an : Option A)
          → CanFinish (at_state true false false (some x) an none (waiting x k) fired log log)
      unfolding act act_at
      from_fired an = goes refl (goes refl (from_holding an))

      from_idle :
          (an : Option A)
          → CanFinish (at_state true false false (some x) an none (waiting x k) idle log log)
      unfolding act act_at
      from_idle an = polls refl (from_fired an)

      from_asked :
          (an : Option A) {request : Request Q A R}
          → IsReader x request
          → CanFinish (at_state true false false (some x) an none (waiting x k) request log log)
      unfolding act act_at
      from_asked an reads_idle = from_idle an
      from_asked an reads_fired = from_fired an
      from_asked an reads_reading = goes refl (from_holding an)
      from_asked an reads_holding = from_holding an

      from_announcing :
          (an : Option A)
          → CanFinish (at_state false false false (some x) an none (announcing x k) idle log log)
      unfolding work work_at
      from_announcing an = works refl (from_idle an)

      from_clearing_answer :
          (ar : Bool) (an : Option A)
          → CanFinish (at_state false ar false (some x) an none (clearing_answer x k) idle log log)
      unfolding work work_at
      from_clearing_answer ar an = works refl (from_announcing an)

      from_setting_question :
          (ar : Bool) (qn : Option Q) (an : Option A)
          → CanFinish (at_state false ar false qn an none (setting_question x k) idle log log)
      unfolding work work_at
      from_setting_question ar qn an = works refl (from_clearing_answer ar an)

    from_running :
        (rest : Call Q A R) (ar : Bool) (qn : Option Q) (an : Option A) (log : List (Q × A))
        → CanFinish (at_state false ar false qn an none (running rest) idle log log)
    unfolding work work_at
    from_running (finished r) ar qn an log = works refl (from_storing r)
    from_running (asks x k) ar qn an log = works refl (
        from_setting_question x k log (λ ar qn an log. from_running (k (answer x)) ar qn an log) ar
          qn an)

    from_Inv : (target : Call Q A R) (s : System Q A R) → Inv target s → CanFinish s
    unfolding work work_at act act_at
    from_Inv target s (computing {ar} {qn} {an} {rest} {log} h) = from_running rest ar qn an log
    from_Inv target s (asking {ar} {qn} {an} {q} {k} {log} h) =
        from_setting_question q k log (from_running (k (answer q))) ar qn an
    from_Inv target s (asking_stale {ar} {an} {q} {k} {log} h) =
        from_clearing_answer q k log (from_running (k (answer q))) ar an
    from_Inv target s (asking_clear {an} {q} {k} {log} h) =
        from_announcing q k log (from_running (k (answer q))) an
    from_Inv target s (asked {an} {q} {k} {log} h r) =
        from_asked q k log (from_running (k (answer q))) an r
    from_Inv target s (answering {an} {q} {k} {log} a h) =
        from_writing q k a log (from_running (k a)) an
    from_Inv target s (answer_written {q} {k} {log} a h) =
        goes refl (from_setting q k a log (from_running (k a)))
    from_Inv target s (question_cleared {q} {k} {log} a h) =
        from_setting q k a log (from_running (k a))
    from_Inv target s (answered {q} {k} {log} a h) = from_answered q k a log (from_running (k a))
    from_Inv target s (woken {q} {k} {log} a h) =
        works refl (from_returning q k a log (from_running (k a)))
    from_Inv target s (returned {q} {k} {log} a h) = from_returning q k a log (from_running (k a))
    from_Inv target s (ending {r = r} h) = from_storing r
    from_Inv target s (stored {r = r} h) = from_setting_done r
    from_Inv target s (finishing h) = works refl (at_end refl refl)
    from_Inv target s (over h l) = at_end refl refl

    -- Where one request is served at a time, a bridge never blocks for good: from every state, steps
    -- of the worker and of requests that poll and give the answers of `answer` lead to the end.
    pub Reachable-CanFinish :
        (target : Call Q A R) (s : System Q A R) → Reachable Q A R target s → CanFinish s
    Reachable-CanFinish target s r = from_Inv target s (Reachable-Inv target s r)
