-- ===== src/Gateway/Stream/Flow.antt =====
-- `_stream_impl` of backend/app/gateway/service.py: one deployment's stream, the loop over the
-- deployments, and what comes before it. What the code yields to the client and does to the quota,
-- the cooldowns and the upstream generator is listed as actions, in order. `cost` is the price of
-- a usage in millionths of a dollar.
use agent_studio.Base.{
  ℕ, zero, suc, Bool, true, false, Option, none, some, List, [], ◌∷◌, ◌++◌, map, length,
  if◌then◌else◌,
}
use agent_studio.Base.Eq.{Eq, elem, unseen}
use agent_studio.Base.Text.{Text}
use agent_studio.Gateway.Chain.{FailureClass, general, LastError, universe}
use agent_studio.Gateway.Stream.Events.{
  Usage, ProviderEvent, ClientEvent, StreamState, fresh_state, Json, Handled, raised, kept, handle,
  ToolCall, finalize_tool_calls,
}

-- Where a stream that is at its end is cancelled, or left by its consumer: while the success is
-- recorded, while the reservation is reconciled, in `_after_success`, or where `usage` is yielded.
pub data Leave : Type 0 where
  recording reconciling storing at_usage : Leave

-- How an upstream generator stops after its events: at its end, by an exception of some class, or
-- because the request is cancelled or the consumer closes the stream, before its end or after it.
pub data End : Type 0 where
  finished : End
  broke : FailureClass → End
  cut : End
  left : Leave → End

-- What a deployment gives: no adapter, by an exception, or a stream.
pub data Upstream : Type 0 where
  no_adapter : Upstream
  feed : List ProviderEvent → End → Upstream

pub data Stop : Type 0 where
  ended : Stop
  failed : FailureClass → Stop
  aborted : Stop
  left_at : Leave → Stop

-- The events that one deployment's stream yields, the variables after it, and how it stopped.
pub record Run {ℓ} (J : Type 0) (D : Type ℓ) : Type ℓ where
  pub events : List (ClientEvent J D)
  pub state : StreamState
  pub stop : Stop

stop_of : End → Stop
stop_of finished = ended
stop_of (broke c) = failed c
stop_of cut = aborted
stop_of (left l) = left_at l

module _ {ℓ} {J : Type 0} {D : Type ℓ} where
  abbrev yielding : ClientEvent J D → Run J D → Run J D
  yielding e r = record r { events = e ∷ r.events }

  abbrev pub resume : StreamState → Handled J D → (StreamState → Run J D) → Run J D
  resume s (raised c) rest = record { events = []; state = s; stop = failed c }
  resume s (kept s' none) rest = rest s'
  resume s (kept s' (some e)) rest = yielding e (rest s')

module _ {ℓ} {J : Type 0} {D : Type ℓ} (json : Json J) where
  unfoldable pub run_events : StreamState → List ProviderEvent → End → Run J D
  unfolding stop_of
  run_events s [] end = record { events = []; state = s; stop = stop_of end }
  run_events s (e ∷ es) end = resume s (handle json s e) (λ s'. run_events s' es end)

  -- The first event is awaited on its own, and a stream without any is a failure:
  -- `StopAsyncIteration`, whose text is empty.
  unfoldable pub run_stream : List ProviderEvent → End → Run J D
  unfolding run_events
  run_stream [] finished = record { events = []; state = fresh_state; stop = failed general }
  run_stream [] (left l) = record { events = []; state = fresh_state; stop = failed general }
  run_stream es end = run_events fresh_state es end

-- `GatewayResult`
pub record StreamResult {ℓ} (J : Type 0) (D : Type ℓ) : Type ℓ where
  pub content : Text
  pub deployment : D
  pub usage : Usage
  pub finish_reason : Option Text
  pub tool_calls : Option (List (ToolCall J))
  pub attempts : ℕ

-- `"".join(parts)`
abbrev pub join : List Text → Text
join [] = []
join (t ∷ ts) = t ++ join ts

pub data Action {ℓ} (J : Type 0) (D : Type ℓ) : Type ℓ where
  emit : ClientEvent J D → Action J D
  record_success record_failure : D → Action J D
  reconcile : ℕ → Action J D
  release close_upstream : Action J D

-- How a stream ends. `crashed` is an exception that is neither of the gateway's nor of a stream's;
-- `out_of_fuel` is no ending of the code.
pub data Ending {ℓ} (J : Type 0) (D : Type ℓ) : Type ℓ where
  completed : StreamResult J D → Ending J D
  -- left with a result, once the reconciliation has begun
  abandoned : StreamResult J D → Leave → Ending J D
  broken : D → FailureClass → Ending J D
  exhausted : LastError D → ℕ → Ending J D
  interrupted quota_exceeded unconfigured crashed out_of_fuel : Ending J D

pub record StreamTrace {ℓ} (J : Type 0) (D : Type ℓ) : Type ℓ where
  pub ending : Ending J D
  pub tried : List D
  pub actions : List (Action J D)

-- the class of the last failure, `general` if there was none
abbrev pub class_of {ℓ} : {D : Type ℓ} → LastError D → FailureClass
class_of none = general
class_of (some (d, c)) = c

module _ {ℓ} {J : Type 0} {D : Type ℓ} where
  -- `_release`, which does nothing once `finalized` is set
  abbrev pub release_once : Bool → List (Action J D)
  release_once finalized = if finalized then [] else Action.release ∷ []

  -- the handlers of a cancellation: the one around the stream, and then the outer one
  abbrev abort : Bool → List (Action J D)
  abort finalized = Action.close_upstream ∷ release_once finalized

  abbrev pub interruption : List (Action J D)
  interruption = abort false ++ abort true

  abbrev pub closing : Ending J D → ClientEvent J D → List D → StreamTrace J D
  closing o e tried = record {
    ending = o;
    tried = tried;
    actions = release_once false ++ (Action.emit e ∷ []);
  }

  -- what follows the loop
  abbrev pub give_up : LastError D → ℕ → StreamTrace J D
  give_up last n = closing (Ending.exhausted last n) (ClientEvent.error (class_of last) none) []

  abbrev pub stuck : StreamTrace J D
  stuck = record { ending = Ending.out_of_fuel; tried = []; actions = [] }

  -- a deployment and what its stream yielded, in front of a trace
  abbrev pub preceded : D → List (ClientEvent J D) → StreamTrace J D → StreamTrace J D
  preceded d es t = record t { tried = d ∷ t.tried; actions = map Action.emit es ++ t.actions }

  abbrev pub failing : D → StreamTrace J D → StreamTrace J D
  failing d t = record t { actions = Action.record_failure d ∷ t.actions }

  -- a failure after the first byte
  abbrev pub break_off : D → FailureClass → StreamTrace J D
  break_off d c = record {
    ending = Ending.broken d c;
    tried = [];
    actions = Action.emit (ClientEvent.error c (some d)) ∷ release_once false;
  }

module _ {ℓ} {J : Type 0} {D : Type ℓ} ⦃e : Eq D⦄ (json : Json J) (cost : D → Usage → ℕ) where
  abbrev pub result_of : ℕ → D → StreamState → StreamResult J D
  result_of attempts d s = record {
    content = join s.parts;
    deployment = d;
    usage = s.usage;
    finish_reason = s.finish_reason;
    tool_calls = finalize_tool_calls json s.tool_acc;
    attempts = attempts;
  }

  abbrev pub succeed : ℕ → D → StreamState → StreamTrace J D
  succeed attempts d s = record {
    ending = Ending.completed (result_of attempts d s);
    tried = [];
    actions =
        Action.record_success d
        ∷ Action.reconcile (cost d s.usage)
        ∷ Action.emit (ClientEvent.usage s.usage d)
        ∷ Action.emit (ClientEvent.done s.finish_reason s.usage d)
        ∷ [];
  }

  -- The handler of the request's own cancellation, around the loop.
  abbrev pub withdraw : Bool → List (Action J D)
  withdraw finalized = Action.close_upstream ∷ release_once finalized

  -- A stream that is left after its end. `finalized` is set when the reconciliation is over.
  abbrev pub leave : ℕ → D → StreamState → Leave → StreamTrace J D
  leave attempts d s recording = record {
    ending = Ending.interrupted;
    tried = [];
    actions = withdraw false;
  }
  leave attempts d s reconciling = record {
    ending = Ending.abandoned (result_of attempts d s) reconciling;
    tried = [];
    actions = Action.record_success d ∷ Action.reconcile (cost d s.usage) ∷ withdraw false;
  }
  leave attempts d s storing = record {
    ending = Ending.abandoned (result_of attempts d s) storing;
    tried = [];
    actions = Action.record_success d ∷ Action.reconcile (cost d s.usage) ∷ withdraw true;
  }
  leave attempts d s at_usage = record {
    ending = Ending.abandoned (result_of attempts d s) at_usage;
    tried = [];
    actions =
        Action.record_success d
        ∷ Action.reconcile (cost d s.usage)
        ∷ Action.emit (ClientEvent.usage s.usage d)
        ∷ withdraw true;
  }

  -- What follows the stream of a deployment; `rest` goes on with the targets of a failure's class.
  abbrev pub after_stop :
      ℕ → D → StreamState → Stop → (FailureClass → StreamTrace J D) → StreamTrace J D
  after_stop attempts d s ended rest = succeed attempts d s
  after_stop attempts d s (failed c) rest = failing d (if s.emitted then break_off d c else rest c)
  after_stop attempts d s (left_at l) rest = leave attempts d s l
  after_stop attempts d s aborted rest = record {
    ending = Ending.interrupted;
    tried = [];
    actions = interruption;
  }

  abbrev after_run : ℕ → D → Run J D → (FailureClass → StreamTrace J D) → StreamTrace J D
  after_run attempts d r rest = preceded d r.events (after_stop attempts d r.state r.stop rest)

  -- One round of the loop. An attempt begins with `emitted` false: the loop goes on only then.
  abbrev pub stream_at : ℕ → D → Upstream → (FailureClass → StreamTrace J D) → StreamTrace J D
  stream_at attempts d no_adapter rest =
      closing Ending.crashed (ClientEvent.error general none) (d ∷ [])
  stream_at attempts d (feed es end) rest = after_run attempts d (run_stream json es end) rest

  module _ (targets : FailureClass → List D) (upstream : D → Upstream) where
    -- The `while targets` loop; the fuel bounds the attempts.
    unfoldable pub stream_loop : ℕ → List D → List D → LastError D → StreamTrace J D
    stream_loop fuel seen [] last = give_up last (length seen)
    stream_loop zero seen (d ∷ ds) last =
        let skip = stream_loop zero seen ds last in if elem d seen then skip else stuck
    stream_loop (suc fuel) seen (d ∷ ds) last =
        let skip = stream_loop (suc fuel) seen ds last in
        let go =
          stream_at (suc (length seen)) d (upstream d)
            (λ c. stream_loop fuel (d ∷ seen) (unseen (d ∷ seen) (targets c)) (some (d, c))) in
        if elem d seen then skip else go

    unfoldable pub stream_chain : D → StreamTrace J D
    unfolding stream_loop
    stream_chain first = stream_loop (length (universe targets first)) [] (first ∷ []) none

-- What comes before the loop: the reservation, the key and the choice of the first deployment.
-- `key_missing` is `GatewayConfigurationError`, `setup_failed` any other exception.
pub data Setup {ℓ} (D : Type ℓ) : Type ℓ where
  reserve_refused key_missing setup_failed setup_cancelled : Setup D
  ready : D → Setup D

unfoldable pub stream_impl {ℓ} :
    {J : Type 0} {D : Type ℓ} ⦃e : Eq D⦄ (json : Json J) (cost : D → Usage → ℕ)
    (targets : FailureClass → List D) (upstream : D → Upstream)
    → Setup D
    → StreamTrace J D
unfolding stream_chain
stream_impl json cost targets upstream reserve_refused =
    closing Ending.quota_exceeded ClientEvent.refused []
stream_impl json cost targets upstream key_missing =
    closing Ending.unconfigured ClientEvent.misconfigured []
stream_impl json cost targets upstream setup_failed =
    closing Ending.crashed (ClientEvent.error general none) []
stream_impl json cost targets upstream setup_cancelled = record {
  ending = Ending.interrupted;
  tried = [];
  actions = Action.release ∷ [];
}
stream_impl json cost targets upstream (ready first) = stream_chain json cost targets upstream first
