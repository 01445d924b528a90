-- ===== src/Web/Bridge.antt =====
-- src/schemavcs_web/bridge.py: a blocking `confirm` on a worker thread, answered from web requests.
-- Each statement that touches what the threads share is one step; a thread that waits has none.
pub mod Invariant
pub mod Faithful
use db_version_control.Prelude.{
  String, Bool, true, false, not, Option, none, some, List, [], ◌∷◌, ◌++◌, ◌≡◌, if◌then◌else◌,
}
use db_version_control.Prelude.Errors.{Error, Result, ok, err, bridge_error, assertion_error}

module _ (Q A R : Type 0) where
  -- The call on the worker thread: it returns or raises, or asks and goes on with the answer.
  pub data Call : Type 0 where
    finished : Result R → Call
    asks : Q → (A → Call) → Call

  -- The fields of WebConfirmBridge; `result` is `_result` or `_error`.
  pub record WebConfirmBridge : Type 0 where
    pub question_ready : Bool
    pub answer_ready : Bool
    pub done : Bool
    pub started : Bool
    pub question : Option Q
    pub answer : Option A
    pub result : Option (Result R)

  abbrev pub new_bridge : WebConfirmBridge
  new_bridge = record {
    question_ready = false;
    answer_ready = false;
    done = false;
    started = false;
    question = none;
    answer = none;
    result = none;
  }

  -- Where the worker is: outside `ask`, before one of its statements, or in `_run` after the call.
  pub data Worker : Type 0 where
    unstarted setting_done waking ended : Worker
    running : Call → Worker
    setting_question clearing_answer announcing waiting clearing_question returning :
        Q → (A → Call) → Worker
    storing : Result R → Worker

  -- Where the request is: in `poll_question`, after it with the question that it returned, or in
  -- `submit_answer` with that question's answer.
  pub data Request : Type 0 where
    idle fired reading : Request
    holding : Q → Request
    writing clearing setting : Q → A → Request

  -- `delivered` is what `ask` returned to each question so far, `sent` what was submitted to the
  -- question that the request had polled.
  pub record System : Type 0 where
    pub bridge : WebConfirmBridge
    pub worker : Worker
    pub request : Request
    pub delivered : List (Q × A)
    pub sent : List (Q × A)

  unfoldable pub run_in_background : Call → System → Result System
  run_in_background target s =
      if s.bridge.started
      then err bridge_error
      else ok (record s { bridge = record s.bridge { started = true }; worker = running target })

  unfoldable pub work_at : Worker → System → Option System
  work_at unstarted s = none
  work_at (running (finished r)) s = some (record s { worker = storing r })
  work_at (running (asks q k)) s = some (record s { worker = setting_question q k })
  work_at (setting_question q k) s =
      some
        (record s { bridge = record s.bridge { question = some q }; worker = clearing_answer q k })
  work_at (clearing_answer q k) s =
      some (record s { bridge = record s.bridge { answer_ready = false }; worker = announcing q k })
  work_at (announcing q k) s =
      some (record s { bridge = record s.bridge { question_ready = true }; worker = waiting q k })
  work_at (waiting q k) s =
      if s.bridge.answer_ready then some (record s { worker = clearing_question q k }) else none
  work_at (clearing_question q k) s =
      some
        (record s { bridge = record s.bridge { question_ready = false }; worker = returning q k })
  work_at (returning q k) s = elim s.bridge.answer [
    | none ↦ some (record s { worker = storing (err assertion_error) })
    | some a ↦ some (record s { worker = running (k a); delivered = s.delivered ++ (q, a) ∷ [] })
  ]
  work_at (storing r) s =
      some (record s { bridge = record s.bridge { result = some r }; worker = setting_done })
  work_at setting_done s =
      some (record s { bridge = record s.bridge { done = true }; worker = waking })
  work_at waking s =
      some (record s { bridge = record s.bridge { question_ready = true }; worker = ended })
  work_at ended s = none

  -- One step of the worker thread.
  unfoldable pub work : System → Option System
  work s = work_at s.worker s

  -- A request polls, submits an answer to what it polled, leaves without one, or goes on.
  pub data Move : Type 0 where
    poll leave go : Move
    submit : A → Move

  unfoldable pub act_at : Request → Move → System → Option System
  act_at idle poll s =
      if s.bridge.question_ready then some (record s { request = fired }) else some s
  act_at fired go s =
      if s.bridge.done
      then some (record s { request = idle })
      else some (record s { request = reading })
  act_at reading go s = elim s.bridge.question [
    | none ↦ some (record s { request = idle })
    | some q ↦ some (record s { request = holding q })
  ]
  act_at (holding q) leave s = some (record s { request = idle })
  act_at (holding q) (submit a) s =
      if s.bridge.done
      then some (record s { request = idle })
      else some (record s { request = writing q a })
  act_at (writing q a) go s =
      some (record s { bridge = record s.bridge { answer = some a }; request = clearing q a })
  act_at (clearing q a) go s =
      some (record s { bridge = record s.bridge { question_ready = false }; request = setting q a })
  act_at (setting q a) go s = some (record s {
    bridge = record s.bridge { answer_ready = true };
    request = idle;
    sent = s.sent ++ (q, a) ∷ [];
  })
  act_at request move s = none

  -- One step of the request that is being served.
  unfoldable pub act : Move → System → Option System
  act move s = act_at s.request move s

  pub data Step (s s' : System) : Type 0 where
    by_worker : work s ≡ some s' → Step s s'
    by_request : (move : Move) → act move s ≡ some s' → Step s s'

  abbrev pub started_system : Call → System
  started_system target = record {
    bridge = record new_bridge { started = true };
    worker = running target;
    request = idle;
    delivered = [];
    sent = [];
  }

  -- The states that a bridge can be in once it runs `target`, with one request served at a time.
  pub data Reachable (target : Call) : System → Type 0 where
    start : Reachable target (started_system target)
    then_step : {s s' : System} → Reachable target s → Step s s' → Reachable target s'
