-- ===== src/Gateway/Stream/Reports.antt =====
-- What the terminal event of a stream of backend/app/gateway/service.py tells, against what the
-- providers sent.
use agent_studio.Base.{ℕ, ◌≡◌, ◌⊎◌, Option, none, some, List, [], ◌∷◌}
use agent_studio.Base.Eq.{Eq}
use agent_studio.Base.Text.{Text, codes}
use agent_studio.Gateway.Chain.{FailureClass, general, LastError}
use agent_studio.Gateway.Fallback.{classify_failure}
use agent_studio.Gateway.Stream.Events.{Usage, ProviderEvent, StreamState, Json}
use agent_studio.Gateway.Stream.Flow.{
  End, finished, broke, cut, left, Upstream, no_adapter, feed, Stop, ended, failed, aborted,
  left_at, Run, Ending, StreamResult, StreamTrace, Setup, reserve_refused, key_missing,
  setup_failed,
}

abbrev pub last_or {ℓ} : {A : Type ℓ} → A → List A → A
last_or x [] = x
last_or x (y ∷ ys) = last_or y ys

-- The reasons of the `done` events.
abbrev pub reasons : List ProviderEvent → List (Option Text)
reasons [] = []
reasons (ProviderEvent.done reason u ∷ es) = reason ∷ reasons es
reasons (_ ∷ es) = reasons es

-- The usages, of the events of both kinds that have one which is not empty.
abbrev pub usages : List ProviderEvent → List Usage
usages [] = []
usages (ProviderEvent.usage (some (u ∷ us)) ∷ es) = (u ∷ us) ∷ usages es
usages (ProviderEvent.done reason (some (u ∷ us)) ∷ es) = (u ∷ us) ∷ usages es
usages (_ ∷ es) = usages es

-- The message of the first error event.
abbrev message_of : Text → Text
message_of [] = codes "stream error"
message_of (c ∷ message) = c ∷ message

abbrev pub error_of : List ProviderEvent → Option Text
error_of [] = none
error_of (ProviderEvent.error message ∷ es) = some (message_of message)
error_of (_ ∷ es) = error_of es

-- The class is that of the error event, or of the exception when there is none.
abbrev pub FailsWith : Option Text → End → FailureClass → Type 0
FailsWith e end c =
    ((message : Text) × (e ≡ some message) × (c ≡ classify_failure message))
    ⊎ ((e ≡ none) × (end ≡ broke c))

-- How a stream with this error, usage and reason stops.
abbrev RanAs : Option Text → Usage → Option Text → End → StreamState → Stop → Type 0
RanAs e u reason end s ended =
    (end ≡ finished) × (e ≡ none) × (s.usage ≡ u) × (s.finish_reason ≡ reason)
RanAs e u reason end s (left_at l) =
    (end ≡ left l) × (e ≡ none) × (s.usage ≡ u) × (s.finish_reason ≡ reason)
RanAs e u reason end s (failed c) = FailsWith e end c
RanAs e u reason end s aborted = end ≡ cut

module _ {ℓ} {J : Type 0} {D : Type ℓ} where
  abbrev Ran : StreamState → List ProviderEvent → End → Run J D → Type 0
  Ran s es end r =
      RanAs (error_of es) (last_or s.usage (usages es)) (last_or s.finish_reason (reasons es)) end
        r.state r.stop

-- A deployment's stream fails: so do an error event, an exception, and a stream without any event.
abbrev pub IsFailure : List ProviderEvent → End → FailureClass → Type 0
IsFailure es end c = FailsWith (error_of es) end c ⊎ ((es ≡ []) × (c ≡ general))

-- The deployment's stream came to its end without an error, and the result has its last usage and
-- reason.
abbrev pub Succeeded : {J D : Type 0} → (D → Upstream) → StreamResult J D → End → Type 0
Succeeded upstream r end =
    (es : List ProviderEvent) × (upstream r.deployment ≡ feed es end)
    × (error_of es ≡ none)
    × (r.usage ≡ last_or [] (usages es))
    × (r.finish_reason ≡ last_or none (reasons es))

module _ {D : Type 0} (upstream : D → Upstream) where
  abbrev pub Failed : D → FailureClass → Type 0
  Failed d c =
      (es : List ProviderEvent) × (end : End) × (upstream d ≡ feed es end) × IsFailure es end c

  abbrev pub LastFailed : LastError D → Type 0
  LastFailed none = Unit
  LastFailed (some (d, c)) = Failed d c

-- What an ending says is so.
abbrev pub IsTrue : {J D : Type 0} → (D → Upstream) → Setup D → Ending J D → Type 0
IsTrue upstream setup (Ending.completed r) = Succeeded upstream r finished
IsTrue upstream setup (Ending.abandoned r l) = Succeeded upstream r (left l)
IsTrue upstream setup (Ending.broken d c) = Failed upstream d c
IsTrue upstream setup (Ending.exhausted last n) = LastFailed upstream last
IsTrue upstream setup Ending.quota_exceeded = setup ≡ reserve_refused
IsTrue upstream setup Ending.unconfigured = setup ≡ key_missing
IsTrue upstream setup Ending.crashed =
    (setup ≡ setup_failed) ⊎ ((d : _) × (upstream d ≡ no_adapter))
IsTrue upstream setup _ = Unit

module _ {J D : Type 0} ⦃e : Eq D⦄ (json : Json J) (cost : D → Usage → ℕ)
    (targets : FailureClass → List D) (upstream : D → Upstream) (setup : Setup D) where
  abbrev IsTold : StreamTrace J D → Type 0
  IsTold t = IsTrue upstream setup t.ending

  -- What stopped a stream is true of what its deployment sent.
  abbrev Stopped : D → StreamState → Stop → Type 0
  Stopped d s ended =
      (es : List ProviderEvent) × (upstream d ≡ feed es finished)
      × (error_of es ≡ none)
      × (s.usage ≡ last_or [] (usages es))
      × (s.finish_reason ≡ last_or none (reasons es))
  Stopped d s (left_at l) =
      (es : List ProviderEvent) × (upstream d ≡ feed es (left l))
      × (error_of es ≡ none)
      × (s.usage ≡ last_or [] (usages es))
      × (s.finish_reason ≡ last_or none (reasons es))
  Stopped d s (failed c) = Failed upstream d c
  Stopped d s aborted = Unit
