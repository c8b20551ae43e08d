-- ===== src/Gateway/Stream/Tests.antt =====
-- Streams of three deployments, numbered: the first breaks before its first byte, the second is
-- refused by a policy after a fragment of a tool call, and the third answers.
use agent_studio.Base.{ℕ, zero, suc, ◌+◌, ◌≡◌, refl, true, none, some, List, [], ◌∷◌}
use agent_studio.Base.Dict.{Dict}
use agent_studio.Base.Eq.{elem, unseen, nat_eq}
use agent_studio.Base.Text.{codes}
use agent_studio.Gateway.Chain.{FailureClass, content_policy}
use agent_studio.Gateway.Stream.Events.{Usage, ProviderEvent, ClientEvent, Json, ToolEntry, handle}
use agent_studio.Gateway.Stream.Flow.{
  finished, broke, Upstream, no_adapter, feed, Action, ready, stream_impl, run_stream,
}
use agent_studio.Gateway.Stream.Terminal.{output}
use agent_studio.Gateway.Stream.Bytes.{bytes, text_of}
use agent_studio.Gateway.Stream.Failover.{bytes_of_last, bytes-stream_impl}

abbrev json : Json ℕ
json = record { loads = λ raw. some 7; is_dict = λ j. true; empty_dict = 0 }

abbrev cost : ℕ → Usage → ℕ
cost d u = 100 + d

abbrev targets : FailureClass → List ℕ
targets c = 1 ∷ 2 ∷ 3 ∷ []

abbrev upstream : ℕ → Upstream
upstream zero = no_adapter
upstream (suc zero) = feed [] finished
upstream (suc (suc zero)) =
    feed (ProviderEvent.tool_use_delta none [] [] (codes "{") ∷ ProviderEvent.other ∷ [])
      (broke content_policy)
upstream (suc (suc (suc n))) =
    feed
      (ProviderEvent.delta (codes "a")
        ∷ ProviderEvent.delta (codes "b")
        ∷ ProviderEvent.done (some (codes "stop")) none
        ∷ [])
      finished

-- The fragment of a tool call of the second deployment is yielded, and the third one is called
-- all the same.
falls_over :
    (stream_impl json cost targets upstream (ready 1)).actions
    ≡ Action.record_failure 1
      ∷ Action.emit (ClientEvent.tool_use_delta none [] (codes "{"))
      ∷ Action.record_failure 2
      ∷ Action.emit (ClientEvent.delta (codes "a"))
      ∷ Action.emit (ClientEvent.delta (codes "b"))
      ∷ Action.record_success 3
      ∷ Action.reconcile 103
      ∷ Action.emit (ClientEvent.usage [] 3)
      ∷ Action.emit (ClientEvent.done (some (codes "stop")) [] 3)
      ∷ []
unfolding stream_impl elem unseen run_stream handle
falls_over = refl

bytes-stream_impl_example :
    (bytes (output (stream_impl json cost targets upstream (ready 1)).actions)
      ≡ ClientEvent.delta (codes "a") ∷ ClientEvent.delta (codes "b") ∷ [])
    × (text_of (output (stream_impl json cost targets upstream (ready 1)).actions) ≡ codes "ab")
unfolding stream_impl elem unseen run_stream handle bytes_of_last
bytes-stream_impl_example = bytes-stream_impl json cost targets upstream (ready 1)

abbrev entries : Dict ℕ ToolEntry
entries =
    (1, record { id = codes "t1"; name = codes "search"; args = [] })
    ∷ (0, record { id = codes "t0"; name = codes "lookup"; args = codes "{}" })
    ∷ []
