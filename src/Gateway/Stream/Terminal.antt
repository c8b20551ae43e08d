-- ===== src/Gateway/Stream/Terminal.antt =====
-- How the streams of backend/app/gateway/service.py settle their reservations, and with which event
-- they end.
use agent_studio.Base.{
  ℕ, suc, ◌≡◌, refl, Bool, true, false, inl, inr, Option, none, some, List, [], ◌∷◌, ◌++◌, length,
  map, All, All-append, append_assoc, Bool-cases,
}
use agent_studio.Base.Eq.{Eq}
use agent_studio.Base.Text.{Text}
use agent_studio.Gateway.Chain.{FailureClass, general, LastError}
use agent_studio.Gateway.Stream.Events.{
  Usage, ProviderEvent, ClientEvent, StreamState, fresh_state, Json, handle, end_entry, ToolEntry,
}
use agent_studio.Gateway.Stream.Flow.{
  End, finished, broke, cut, Upstream, no_adapter, feed, Stop, ended, failed, aborted, left_at,
  recording, reconciling, storing, at_usage, left, Run, resume, run_events, run_stream, Action,
  Ending, StreamTrace, give_up, preceded, after_stop, stream_at, stream_chain, Setup,
  reserve_refused, key_missing, setup_failed, setup_cancelled, ready, stream_impl,
}
use agent_studio.Gateway.Stream.Loop.{Rules, chain_induction}

module _ {ℓ} {J : Type 0} {D : Type ℓ} where
  -- The calls of the quota among the actions.
  abbrev pub settlements : List (Action J D) → List (Action J D)
  settlements [] = []
  settlements (Action.reconcile usd ∷ acts) = Action.reconcile usd ∷ settlements acts
  settlements (Action.release ∷ acts) = Action.release ∷ settlements acts
  settlements (_ ∷ acts) = settlements acts

  -- What the client receives.
  abbrev pub output : List (Action J D) → List (ClientEvent J D)
  output [] = []
  output (Action.emit e ∷ acts) = e ∷ output acts
  output (_ ∷ acts) = output acts

  -- `done` and `error` tell the client that the stream is over.
  abbrev is_terminal : ClientEvent J D → Bool
  is_terminal (ClientEvent.done reason u d) = true
  is_terminal (ClientEvent.error c d) = true
  is_terminal ClientEvent.refused = true
  is_terminal ClientEvent.misconfigured = true
  is_terminal _ = false

  abbrev pub AllQuiet : List (ClientEvent J D) → Type 0
  AllQuiet = All (λ e. is_terminal e ≡ false)

  -- The event that an ending owes to the client; a cancelled stream has nobody to tell.
  abbrev pub verdict : Ending J D → List (ClientEvent J D)
  verdict (Ending.completed r) = ClientEvent.done r.finish_reason r.usage r.deployment ∷ []
  verdict (Ending.abandoned r l) = []
  verdict (Ending.broken d c) = ClientEvent.error c (some d) ∷ []
  verdict (Ending.exhausted none n) = ClientEvent.error general none ∷ []
  verdict (Ending.exhausted (some (d, c)) n) = ClientEvent.error c none ∷ []
  verdict Ending.interrupted = []
  verdict Ending.quota_exceeded = ClientEvent.refused ∷ []
  verdict Ending.unconfigured = ClientEvent.misconfigured ∷ []
  verdict Ending.crashed = ClientEvent.error general none ∷ []
  verdict Ending.out_of_fuel = []

  -- The output is events that are not terminal, and then what the ending owes.
  pub record Concludes (t : StreamTrace J D) : Type ℓ where
    pub before : List (ClientEvent J D)
    pub quiet : AllQuiet before
    pub whole : output t.actions ≡ before ++ verdict t.ending

  pub output-emits :
      (es : List (ClientEvent J D)) (acts : List (Action J D))
      → output (map Action.emit es ++ acts) ≡ es ++ output acts
  output-emits [] acts = refl
  output-emits (e ∷ es) acts = rw (output-emits es acts)

  settlements-emits :
      (es : List (ClientEvent J D)) (acts : List (Action J D))
      → settlements (map Action.emit es ++ acts) ≡ settlements acts
  settlements-emits [] acts = refl
  settlements-emits (e ∷ es) acts = settlements-emits es acts

  preceded-Concludes :
      (d : D) (es : List (ClientEvent J D)) (t : StreamTrace J D)
      → AllQuiet es
      → Concludes t
      → Concludes (preceded d es t)
  preceded-Concludes d es t q c = record {
    before = es ++ c.before;
    quiet = All-append (λ e. is_terminal e ≡ false) es c.before q c.quiet;
    whole = rw (output-emits, c.whole, append_assoc);
  }

module _ {ℓ} {J : Type 0} {D : Type ℓ} (json : Json J) where
  end_entry_quiet :
      (s : StreamState) (index : Option ℕ) (id name : Text) (old : Option ToolEntry)
      (rest : StreamState → Run J D)
      → ((s' : StreamState) → AllQuiet (rest s').events)
      → AllQuiet (resume s (end_entry json s index id name old) rest).events
  end_entry_quiet s index id name none rest h = (refl, h _)
  end_entry_quiet s index id name (some e) rest h = (refl, h _)

  resume_quiet :
      (s : StreamState) (e : ProviderEvent) (rest : StreamState → Run J D)
      → ((s' : StreamState) → AllQuiet (rest s').events)
      → AllQuiet (resume s (handle json s e) rest).events
  unfolding handle
  resume_quiet s (ProviderEvent.delta []) rest h = h _
  resume_quiet s (ProviderEvent.delta (c ∷ text)) rest h = (refl, h _)
  resume_quiet s (ProviderEvent.tool_use_start index id name) rest h = (refl, h _)
  resume_quiet s (ProviderEvent.tool_use_delta index id name args) rest h = (refl, h _)
  resume_quiet s (ProviderEvent.tool_use_end index id name) rest h =
      end_entry_quiet s index id name _ rest h
  resume_quiet s (ProviderEvent.usage u) rest h = h _
  resume_quiet s (ProviderEvent.done reason u) rest h = h _
  resume_quiet s (ProviderEvent.error message) rest h = tt
  resume_quiet s ProviderEvent.other rest h = h _

module _ {ℓ} {J : Type 0} (D : Type ℓ) (json : Json J) where
  run_events_quiet :
      (s : StreamState) (es : List ProviderEvent) (end : End)
      → AllQuiet {D = D} (run_events json s es end).events
  unfolding run_events
  run_events_quiet s [] end = tt
  run_events_quiet s (e ∷ es) end =
      resume_quiet json s e (λ s'. run_events json s' es end) (λ s'. run_events_quiet s' es end)

  run_stream_quiet :
      (es : List ProviderEvent) (end : End) → AllQuiet {D = D} (run_stream json es end).events
  unfolding run_stream
  run_stream_quiet [] finished = tt
  run_stream_quiet [] (broke c) = tt
  run_stream_quiet [] cut = tt
  run_stream_quiet [] (left l) = tt
  run_stream_quiet (e ∷ es) end = run_events_quiet fresh_state (e ∷ es) end

module _ {ℓ} {J : Type 0} {D : Type ℓ} ⦃e : Eq D⦄ (json : Json J) (cost : D → Usage → ℕ) where
  -- What an ending owes to the quota.
  abbrev pub owed : Ending J D → List (Action J D)
  owed (Ending.completed r) = Action.reconcile (cost r.deployment r.usage) ∷ []
  owed (Ending.abandoned r reconciling) =
      Action.reconcile (cost r.deployment r.usage) ∷ Action.release ∷ []
  owed (Ending.abandoned r l) = Action.reconcile (cost r.deployment r.usage) ∷ []
  owed Ending.out_of_fuel = []
  owed _ = Action.release ∷ []

  abbrev IsSettled : StreamTrace J D → Type ℓ
  IsSettled t = settlements t.actions ≡ owed t.ending

  abbrev IsRight : StreamTrace J D → Type ℓ
  IsRight t = IsSettled t × Concludes t

  give_up-IsRight : (last : LastError D) (n : ℕ) → IsRight (give_up last n)
  give_up-IsRight none n = (refl, record { before = []; quiet = tt; whole = refl })
  give_up-IsRight (some (d, c)) n = (refl, record { before = []; quiet = tt; whole = refl })

  stop-IsRight :
      (n : ℕ) (d : D) (s : StreamState) (stop : Stop) (rest : FailureClass → StreamTrace J D)
      → ((c : FailureClass) → IsRight (rest c))
      → IsRight (after_stop json cost n d s stop rest)
  stop-IsRight n d s ended rest h =
      (refl, record { before = ClientEvent.usage s.usage d ∷ []; quiet = (refl, tt); whole = refl })
  stop-IsRight n d s (left_at recording) rest h =
      (refl, record { before = []; quiet = tt; whole = refl })
  stop-IsRight n d s (left_at reconciling) rest h =
      (refl, record { before = []; quiet = tt; whole = refl })
  stop-IsRight n d s (left_at storing) rest h =
      (refl, record { before = []; quiet = tt; whole = refl })
  stop-IsRight n d s (left_at at_usage) rest h =
      (refl, record { before = ClientEvent.usage s.usage d ∷ []; quiet = (refl, tt); whole = refl })
  stop-IsRight n d s (failed c) rest h = elim (Bool-cases s.emitted) [
    | inl p ↦ rw p (refl, record { before = []; quiet = tt; whole = refl })
    | inr p ↦
        rw p
          (let (a, b) = h c in (a, record { before = b.before; quiet = b.quiet; whole = b.whole }))
  ]
  stop-IsRight n d s aborted rest h = (refl, record { before = []; quiet = tt; whole = refl })

  preceded-IsRight :
      (d : D) (es : List (ClientEvent J D)) (t : StreamTrace J D)
      → AllQuiet es
      → IsRight t
      → IsRight (preceded d es t)
  preceded-IsRight d es t q (a, b) = (rw (settlements-emits, a), preceded-Concludes d es t q b)

  round-IsRight :
      (n : ℕ) (d : D) (u : Upstream) (rest : FailureClass → StreamTrace J D)
      → ((c : FailureClass) → IsRight (rest c))
      → IsRight (stream_at json cost n d u rest)
  round-IsRight n d no_adapter rest h = (refl, record { before = []; quiet = tt; whole = refl })
  round-IsRight n d (feed es end) rest h =
      let r = run_stream json es end in
      preceded-IsRight d r.events (after_stop json cost n d r.state r.stop rest)
        (run_stream_quiet D json es end) (stop-IsRight n d r.state r.stop rest h)

  module _ (targets : FailureClass → List D) (upstream : D → Upstream) where
    IsRight-rules : Rules json cost targets upstream (λ fuel seen ds last t. IsRight t)
    IsRight-rules = record {
      at_end = λ fuel seen last. give_up-IsRight last (length seen);
      at_stuck = λ seen d ds last new. (refl, record { before = []; quiet = tt; whole = refl });
      at_seen = λ fuel seen d ds last t old ih. ih;
      at_new = λ fuel seen d ds last rest new ih.
          round-IsRight (suc (length seen)) d (upstream d) rest ih;
    }

    stream_chain-IsRight : (first : D) → IsRight (stream_chain json cost targets upstream first)
    stream_chain-IsRight first =
        chain_induction json cost targets upstream (λ fuel seen ds last t. IsRight t) IsRight-rules
          first

    -- The client receives events that are not terminal, and then exactly one terminal event, which
    -- tells the ending: `done` with the reason and the usage of the deployment that completed, or
    -- `error` with the class of the failure. A cancelled stream has no terminal event.
    pub stream_impl-Concludes :
        (setup : Setup D) → Concludes (stream_impl json cost targets upstream setup)
    unfolding stream_impl
    stream_impl-Concludes reserve_refused = record { before = []; quiet = tt; whole = refl }
    stream_impl-Concludes key_missing = record { before = []; quiet = tt; whole = refl }
    stream_impl-Concludes setup_failed = record { before = []; quiet = tt; whole = refl }
    stream_impl-Concludes setup_cancelled = record { before = []; quiet = tt; whole = refl }
    stream_impl-Concludes (ready first) = (stream_chain-IsRight first).1
