-- ===== src/Web/Bridge/Invariant.antt =====
-- What holds between the worker and the request in every state of a bridge.
use db_version_control.Prelude.{
  Bool, true, false, Option, none, some, List, [], ◌∷◌, ◌++◌, ◌≡◌, subst,
}
use mathlib.Core.Option.{some-injective}
use db_version_control.Prelude.Errors.{Result}
use db_version_control.Web.Bridge.{
  Call, finished, asks, Worker, running, setting_question, clearing_answer, announcing, waiting,
  clearing_question, returning, storing, setting_done, waking, ended, Request, idle, fired, reading,
  holding, writing, clearing, setting, System, work, work_at, Move, poll, leave, go, submit, act,
  act_at, by_worker, by_request, Reachable, start, then_step,
}

module _ {Q A R : Type 0} where
  -- `Runs target log rest`: with the answers of the log, in turn, the call has come to `rest`.
  pub data Runs (target : Call Q A R) : List (Q × A) → Call Q A R → Type 0 where
    begun : Runs target [] target
    told :
        {log : List (Q × A)} {q : Q} {k : A → Call Q A R} (a : A)
        → Runs target log (asks q k)
        → Runs target (log ++ (q, a) ∷ []) (k a)

  -- A request that has not begun to submit, and a question that it may hold.
  pub data IsReader (q : Q) : Request Q A R → Type 0 where
    reads_idle : IsReader q idle
    reads_fired : IsReader q fired
    reads_reading : IsReader q reading
    reads_holding : IsReader q (holding q)

  -- A request that comes after the end.
  pub data IsLate : Request Q A R → Type 0 where
    late_idle : IsLate idle
    late_fired : IsLate fired

  abbrev pub at_state :
      (question_ready answer_ready done : Bool) (question : Option Q) (answer : Option A)
      (result : Option (Result R))
      → Worker Q A R
      → Request Q A R
      → List (Q × A)
      → List (Q × A)
      → System Q A R
  at_state question_ready answer_ready done question answer result worker request delivered sent =
      record {
        bridge = record {
          question_ready = question_ready;
          answer_ready = answer_ready;
          done = done;
          started = true;
          question = question;
          answer = answer;
          result = result;
        };
        worker = worker;
        request = request;
        delivered = delivered;
        sent = sent;
      }

  -- Before, while and after a question is open; at the end of the call; and after it.
  pub data Inv (target : Call Q A R) : System Q A R → Type 0 where
    computing :
        {ar : Bool} {qn : Option Q} {an : Option A} {rest : Call Q A R} {log : List (Q × A)}
        → Runs target log rest
        → Inv target (at_state false ar false qn an none (running rest) idle log log)
    asking :
        {ar : Bool} {qn : Option Q} {an : Option A} {q : Q} {k : A → Call Q A R}
        {log : List (Q × A)}
        → Runs target log (asks q k)
        → Inv target (at_state false ar false qn an none (setting_question q k) idle log log)
    asking_stale :
        {ar : Bool} {an : Option A} {q : Q} {k : A → Call Q A R} {log : List (Q × A)}
        → Runs target log (asks q k)
        → Inv target (at_state false ar false (some q) an none (clearing_answer q k) idle log log)
    asking_clear :
        {an : Option A} {q : Q} {k : A → Call Q A R} {log : List (Q × A)}
        → Runs target log (asks q k)
        → Inv target (at_state false false false (some q) an none (announcing q k) idle log log)
    asked :
        {an : Option A} {q : Q} {k : A → Call Q A R} {log : List (Q × A)} {request : Request Q A R}
        → Runs target log (asks q k)
        → IsReader q request
        → Inv target (at_state true false false (some q) an none (waiting q k) request log log)
    answering :
        {an : Option A} {q : Q} {k : A → Call Q A R} {log : List (Q × A)} (a : A)
        → Runs target log (asks q k)
        → Inv target
            (at_state true false false (some q) an none (waiting q k) (writing q a) log log)
    answer_written :
        {q : Q} {k : A → Call Q A R} {log : List (Q × A)} (a : A)
        → Runs target log (asks q k)
        → Inv target
            (at_state true false false (some q) (some a) none (waiting q k) (clearing q a) log log)
    question_cleared :
        {q : Q} {k : A → Call Q A R} {log : List (Q × A)} (a : A)
        → Runs target log (asks q k)
        → Inv target
            (at_state false false false (some q) (some a) none (waiting q k) (setting q a) log log)
    answered :
        {q : Q} {k : A → Call Q A R} {log : List (Q × A)} (a : A)
        → Runs target log (asks q k)
        → Inv target (
            at_state false true false
              (some q)
              (some a)
              none
              (waiting q k)
              idle
              log
              (log ++ (q, a) ∷ []))
    woken :
        {q : Q} {k : A → Call Q A R} {log : List (Q × A)} (a : A)
        → Runs target log (asks q k)
        → Inv target (
            at_state false true false
              (some q)
              (some a)
              none
              (clearing_question q k)
              idle
              log
              (log ++ (q, a) ∷ []))
    returned :
        {q : Q} {k : A → Call Q A R} {log : List (Q × A)} (a : A)
        → Runs target log (asks q k)
        → Inv target (
            at_state false true false
              (some q)
              (some a)
              none
              (returning q k)
              idle
              log
              (log ++ (q, a) ∷ []))
    ending :
        {ar : Bool} {qn : Option Q} {an : Option A} {r : Result R} {log : List (Q × A)}
        → Runs target log (finished r)
        → Inv target (at_state false ar false qn an none (storing r) idle log log)
    stored :
        {ar : Bool} {qn : Option Q} {an : Option A} {r : Result R} {log : List (Q × A)}
        → Runs target log (finished r)
        → Inv target (at_state false ar false qn an (some r) setting_done idle log log)
    finishing :
        {ar : Bool} {qn : Option Q} {an : Option A} {r : Result R} {log : List (Q × A)}
        → Runs target log (finished r)
        → Inv target (at_state false ar true qn an (some r) waking idle log log)
    over :
        {ar : Bool} {qn : Option Q} {an : Option A} {r : Result R} {log : List (Q × A)}
        {request : Request Q A R}
        → Runs target log (finished r)
        → IsLate request
        → Inv target (at_state true ar true qn an (some r) ended request log log)

  module _ (target : Call Q A R) where
    -- The state that a step has computed.
    next : {s s' : System Q A R} → some s ≡ some s' → Inv target s → Inv target s'
    next q h = subst (Inv target) (some-injective _ _ q) h

    work-Inv : (s s' : System Q A R) → Inv target s → work Q A R s ≡ some s' → Inv target s'
    unfolding work work_at
    work-Inv s s' (computing {rest = finished r} h) q = next q (ending h)
    work-Inv s s' (computing {rest = asks x k} h) q = next q (asking h)
    work-Inv s s' (asking h) q = next q (asking_stale h)
    work-Inv s s' (asking_stale h) q = next q (asking_clear h)
    work-Inv s s' (asking_clear h) q = next q (asked h reads_idle)
    work-Inv s s' (asked h r) q = cc
    work-Inv s s' (answering a h) q = cc
    work-Inv s s' (answer_written a h) q = cc
    work-Inv s s' (question_cleared a h) q = cc
    work-Inv s s' (answered a h) q = next q (woken a h)
    work-Inv s s' (woken a h) q = next q (returned a h)
    work-Inv s s' (returned a h) q = next q (computing (told a h))
    work-Inv s s' (ending h) q = next q (stored h)
    work-Inv s s' (stored h) q = next q (finishing h)
    work-Inv s s' (finishing h) q = next q (over h late_idle)
    work-Inv s s' (over h l) q = cc

    -- Where no question is ready, a poll finds none.
    idle_stays :
        {ar d : Bool} {qn : Option Q} {an : Option A} {rs : Option (Result R)} {w : Worker Q A R}
        {delivered sent : List (Q × A)} (move : Move Q A R) (s' : System Q A R)
        → Inv target (at_state false ar d qn an rs w idle delivered sent)
        → act Q A R move (at_state false ar d qn an rs w idle delivered sent) ≡ some s'
        → Inv target s'
    unfolding act act_at
    idle_stays poll s' h q = next q h
    idle_stays leave s' h q = cc
    idle_stays go s' h q = cc
    idle_stays (submit a) s' h q = cc

    asked-Inv :
        (an : Option A) {x : Q} (k : A → Call Q A R) {log : List (Q × A)} {request : Request Q A R}
        (move : Move Q A R) (s' : System Q A R)
        → Runs target log (asks x k)
        → IsReader x request
        → act Q A R move (at_state true false false (some x) an none (waiting x k) request log log)
          ≡ some s'
        → Inv target s'
    unfolding act act_at
    asked-Inv an k poll s' h reads_idle q = next q (asked h reads_fired)
    asked-Inv an k go s' h reads_fired q = next q (asked h reads_reading)
    asked-Inv an k go s' h reads_reading q = next q (asked h reads_holding)
    asked-Inv an k leave s' h reads_holding q = next q (asked h reads_idle)
    asked-Inv an k (submit a) s' h reads_holding q = next q (answering a h)
    asked-Inv an k leave s' h reads_idle q = cc
    asked-Inv an k go s' h reads_idle q = cc
    asked-Inv an k (submit a) s' h reads_idle q = cc
    asked-Inv an k poll s' h reads_fired q = cc
    asked-Inv an k leave s' h reads_fired q = cc
    asked-Inv an k (submit a) s' h reads_fired q = cc
    asked-Inv an k poll s' h reads_reading q = cc
    asked-Inv an k leave s' h reads_reading q = cc
    asked-Inv an k (submit a) s' h reads_reading q = cc
    asked-Inv an k poll s' h reads_holding q = cc
    asked-Inv an k go s' h reads_holding q = cc

    act-Inv :
        (move : Move Q A R) (s s' : System Q A R)
        → Inv target s
        → act Q A R move s ≡ some s'
        → Inv target s'
    unfolding act act_at
    act-Inv move s s' (computing h) q = idle_stays move s' (computing h) q
    act-Inv move s s' (asking h) q = idle_stays move s' (asking h) q
    act-Inv move s s' (asking_stale h) q = idle_stays move s' (asking_stale h) q
    act-Inv move s s' (asking_clear h) q = idle_stays move s' (asking_clear h) q
    act-Inv move s s' (asked {an} {q = x} {k} h r) q = asked-Inv an k move s' h r q
    act-Inv go s s' (answering a h) q = next q (answer_written a h)
    act-Inv go s s' (answer_written a h) q = next q (question_cleared a h)
    act-Inv go s s' (question_cleared a h) q = next q (answered a h)
    act-Inv poll s s' (answering a h) q = cc
    act-Inv leave s s' (answering a h) q = cc
    act-Inv (submit b) s s' (answering a h) q = cc
    act-Inv poll s s' (answer_written a h) q = cc
    act-Inv leave s s' (answer_written a h) q = cc
    act-Inv (submit b) s s' (answer_written a h) q = cc
    act-Inv poll s s' (question_cleared a h) q = cc
    act-Inv leave s s' (question_cleared a h) q = cc
    act-Inv (submit b) s s' (question_cleared a h) q = cc
    act-Inv move s s' (answered a h) q = idle_stays move s' (answered a h) q
    act-Inv move s s' (woken a h) q = idle_stays move s' (woken a h) q
    act-Inv move s s' (returned a h) q = idle_stays move s' (returned a h) q
    act-Inv move s s' (ending h) q = idle_stays move s' (ending h) q
    act-Inv move s s' (stored h) q = idle_stays move s' (stored h) q
    act-Inv move s s' (finishing h) q = idle_stays move s' (finishing h) q
    act-Inv poll s s' (over h late_idle) q = next q (over h late_fired)
    act-Inv leave s s' (over h late_idle) q = cc
    act-Inv go s s' (over h late_idle) q = cc
    act-Inv (submit a) s s' (over h late_idle) q = cc
    act-Inv poll s s' (over h late_fired) q = cc
    act-Inv leave s s' (over h late_fired) q = cc
    act-Inv go s s' (over h late_fired) q = next q (over h late_idle)
    act-Inv (submit a) s s' (over h late_fired) q = cc

  pub Reachable-Inv :
      (target : Call Q A R) (s : System Q A R) → Reachable Q A R target s → Inv target s
  Reachable-Inv target s start = computing begun
  Reachable-Inv target s (then_step r (by_worker q)) =
      work-Inv target _ _ (Reachable-Inv target _ r) q
  Reachable-Inv target s (then_step r (by_request move q)) =
      act-Inv target move _ _ (Reachable-Inv target _ r) q
