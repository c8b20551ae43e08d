-- ===== src/Gateway/Stream/Failover.antt =====
-- Fallback is transparent: the client sees the text and the tool calls of one deployment, the last
-- one that was tried, and the text that it sees is the content of the result.
use agent_studio.Base.{
  ℕ, suc, ◌≡◌, ◌∙◌, sym, ap, refl, false, inl, inr, none, some, List, [], ◌∷◌, ◌++◌, length,
  append-nil, Bool-cases,
}
use agent_studio.Base.Eq.{Eq}
use agent_studio.Base.Text.{Text}
use agent_studio.Gateway.Chain.{FailureClass, LastError}
use agent_studio.Gateway.Stream.Events.{Usage, ClientEvent, fresh_state, Json}
use agent_studio.Gateway.Stream.Flow.{
  Upstream, no_adapter, feed, Stop, ended, failed, aborted, left_at, recording, reconciling,
  storing, at_usage, Run, run_stream, Ending, StreamTrace, give_up, preceded, failing, break_off,
  after_stop, stream_at, Setup, reserve_refused, key_missing, setup_failed, setup_cancelled, ready,
  stream_impl,
}
use agent_studio.Gateway.Stream.Bytes.{
  bytes, text_of, bytes-append, text_of-append, text_of-bytes, no_bytes, Records,
  run_stream-Records,
}
use agent_studio.Gateway.Stream.Loop.{Rules, chain_induction}
use agent_studio.Gateway.Stream.Terminal.{output, output-emits}

module _ {ℓ} {J : Type 0} {D : Type ℓ} ⦃e : Eq D⦄ (json : Json J) (cost : D → Usage → ℕ)
    (targets : FailureClass → List D) (upstream : D → Upstream) where
  bytes_from : Upstream → List (ClientEvent J D)
  bytes_from no_adapter = []
  bytes_from (feed es end) = bytes (run_stream json es end).events

  -- The first bytes of the stream of the last of some deployments.
  unfoldable pub bytes_of_last : List D → List (ClientEvent J D)
  unfolding bytes_from
  bytes_of_last [] = []
  bytes_of_last (d ∷ []) = bytes_from (upstream d)
  bytes_of_last (d ∷ x ∷ xs) = bytes_of_last (x ∷ xs)

  abbrev HasContent : Ending J D → Text → Type 0
  HasContent (Ending.completed r) text = text ≡ r.content
  HasContent _ text = Unit

  abbrev IsTransparent : StreamTrace J D → Type ℓ
  IsTransparent t =
      (bytes (output t.actions) ≡ bytes_of_last t.tried)
      × HasContent t.ending (text_of (output t.actions))

  give_up-IsTransparent : (last : LastError D) (n : ℕ) → IsTransparent (give_up last n)
  unfolding bytes_of_last
  give_up-IsTransparent none n = (refl, tt)
  give_up-IsTransparent (some (d, c)) n = (refl, tt)

  last_after :
      (d : D) (xs : List D)
      → bytes_from (upstream d) ≡ []
      → bytes_of_last (d ∷ xs) ≡ bytes_of_last xs
  unfolding bytes_of_last
  last_after d [] h = h
  last_after d (x ∷ xs) h = refl

  HasContent-text : (o : Ending J D) (t u : Text) → HasContent o t → u ≡ t → HasContent o u
  HasContent-text o t u h p = rw p h

  bytes-preceded :
      (d : D) (es : List (ClientEvent J D)) (t : StreamTrace J D)
      → bytes (output (preceded d es t).actions) ≡ bytes es ++ bytes (output t.actions)
  bytes-preceded d es t = rw (output-emits, bytes-append)

  text_of-preceded :
      (d : D) (es : List (ClientEvent J D)) (t : StreamTrace J D)
      → text_of (output (preceded d es t).actions) ≡ text_of es ++ text_of (output t.actions)
  text_of-preceded d es t = rw (output-emits, text_of-append)

  alone_last : (d : D) (xs : List D) → xs ≡ [] → bytes_of_last (d ∷ xs) ≡ bytes_from (upstream d)
  unfolding bytes_of_last
  alone_last d [] h = refl
  alone_last d (x ∷ xs) h = cc

  -- The trace ends with this deployment.
  at_last :
      (d : D) (es : List (ClientEvent J D)) (t : StreamTrace J D)
      → bytes_from (upstream d) ≡ bytes es
      → t.tried ≡ []
      → bytes (output t.actions) ≡ []
      → bytes (output (preceded d es t).actions) ≡ bytes_of_last (preceded d es t).tried
  at_last d es t h alone none_left =
      bytes-preceded d es t
      ∙ ap (λ x. bytes es ++ x) none_left
      ∙ append-nil (bytes es)
      ∙ sym h
      ∙ sym (alone_last d t.tried alone)

  text_of-unseen : (es : List (ClientEvent J D)) → bytes es ≡ [] → text_of es ≡ []
  text_of-unseen es h = sym (text_of-bytes es) ∙ ap text_of h

  -- The trace goes on after a deployment of which the client saw no byte.
  passed_over :
      (d : D) (r : Run J D) (t : StreamTrace J D)
      → bytes_from (upstream d) ≡ bytes r.events
      → Records fresh_state r
      → r.state.emitted ≡ false
      → IsTransparent t
      → IsTransparent (preceded d r.events t)
  passed_over d r t h (m, w) quiet (b, c) =
      let nothing = no_bytes r.events (sym m ∙ quiet) in
      (
        bytes-preceded d r.events t
            ∙ ap (λ x. x ++ bytes (output t.actions)) nothing
            ∙ b
            ∙ sym (last_after d t.tried (h ∙ nothing)),
        HasContent-text t.ending (text_of (output t.actions)) _ c (
            text_of-preceded d r.events t
            ∙ ap (λ x. x ++ text_of (output t.actions)) (text_of-unseen r.events nothing)),
      )

  stop-IsTransparent :
      (n : ℕ) (d : D) (r : Run J D) (stop : Stop) (rest : FailureClass → StreamTrace J D)
      → bytes_from (upstream d) ≡ bytes r.events
      → Records fresh_state r
      → ((c : FailureClass) → IsTransparent (rest c))
      → IsTransparent (preceded d r.events (after_stop json cost n d r.state stop rest))
  stop-IsTransparent n d r ended rest h (m, w) ih = (
    at_last d r.events (after_stop json cost n d r.state ended rest) h refl refl,
    text_of-preceded d r.events (after_stop json cost n d r.state ended rest)
        ∙ append-nil (text_of r.events)
        ∙ sym w,
  )
  stop-IsTransparent n d r (left_at recording) rest h (m, w) ih = (
    at_last d r.events (after_stop json cost n d r.state (left_at recording) rest) h refl refl,
    tt,
  )
  stop-IsTransparent n d r (left_at reconciling) rest h (m, w) ih = (
    at_last d r.events (after_stop json cost n d r.state (left_at reconciling) rest) h refl refl,
    tt,
  )
  stop-IsTransparent n d r (left_at storing) rest h (m, w) ih =
      (at_last d r.events (after_stop json cost n d r.state (left_at storing) rest) h refl refl, tt)
  stop-IsTransparent n d r (left_at at_usage) rest h (m, w) ih = (
    at_last d r.events (after_stop json cost n d r.state (left_at at_usage) rest) h refl refl,
    tt,
  )
  stop-IsTransparent n d r (failed c) rest h (m, w) ih = elim (Bool-cases r.state.emitted) [
    | inl p ↦ rw p (at_last d r.events (failing d (break_off d c)) h refl refl, tt)
    | inr p ↦ rw p (passed_over d r (failing d (rest c)) h (m, w) p (ih c))
  ]
  stop-IsTransparent n d r aborted rest h (m, w) ih =
      (at_last d r.events (after_stop json cost n d r.state aborted rest) h refl refl, tt)

  round-IsTransparent :
      (n : ℕ) (d : D) (u : Upstream) (rest : FailureClass → StreamTrace J D)
      → upstream d ≡ u
      → ((c : FailureClass) → IsTransparent (rest c))
      → IsTransparent (stream_at json cost n d u rest)
  unfolding bytes_from bytes_of_last
  round-IsTransparent n d no_adapter rest h ih = (rw h refl, tt)
  round-IsTransparent n d (feed es end) rest h ih =
      let r = run_stream json es end in
      stop-IsTransparent n d r r.stop rest (rw h refl) (run_stream-Records D json es end) ih

  IsTransparent-rules : Rules json cost targets upstream (λ fuel seen ds last t. IsTransparent t)
  unfolding bytes_of_last
  IsTransparent-rules = record {
    at_end = λ fuel seen last. give_up-IsTransparent last (length seen);
    at_stuck = λ seen d ds last new. (refl, tt);
    at_seen = λ fuel seen d ds last t old ih. ih;
    at_new = λ fuel seen d ds last rest new ih.
        round-IsTransparent (suc (length seen)) d (upstream d) rest refl ih;
  }

  -- Fallback is transparent. The first bytes that the client sees, the text and the openings of
  -- tool calls, are those of one deployment, the last one that was tried, as its own stream yields
  -- them: what failed before it showed none. If the stream completes, the text that the client saw
  -- is the content of the result.
  pub bytes-stream_impl :
      (setup : Setup D)
      → let t = stream_impl json cost targets upstream setup in
        let shown = output t.actions in
        (bytes shown ≡ bytes_of_last t.tried) × HasContent t.ending (text_of shown)
  unfolding stream_impl bytes_of_last
  bytes-stream_impl reserve_refused = (refl, tt)
  bytes-stream_impl key_missing = (refl, tt)
  bytes-stream_impl setup_failed = (refl, tt)
  bytes-stream_impl setup_cancelled = (refl, tt)
  bytes-stream_impl (ready first) =
      chain_induction json cost targets upstream (λ fuel seen ds last t. IsTransparent t)
        IsTransparent-rules first
