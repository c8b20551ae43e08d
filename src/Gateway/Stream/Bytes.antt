-- ===== src/Gateway/Stream/Bytes.antt =====
-- The first bytes and the text among the events of a stream, and that `_handle` records them in
-- `emitted` and `parts`.
use agent_studio.Base.{
  ℕ, ◌≡◌, ◌∙◌, sym, ap, refl, Bool, true, false, ◌||◌, Option, none, some, List, [], ◌∷◌, ◌++◌,
  append_assoc, append-nil,
}
use agent_studio.Base.Text.{Text}
use agent_studio.Gateway.Stream.Events.{
  ProviderEvent, ClientEvent, StreamState, fresh_state, Json, handle, end_entry, ToolEntry,
}
use agent_studio.Gateway.Stream.Flow.{
  End, finished, broke, cut, left, Run, resume, run_events, run_stream, join,
}

module _ {ℓ} {J : Type 0} {D : Type ℓ} where
  -- The first bytes of an answer: text, and the openings of tool calls.
  abbrev pub bytes : List (ClientEvent J D) → List (ClientEvent J D)
  bytes [] = []
  bytes (ClientEvent.delta text ∷ es) = ClientEvent.delta text ∷ bytes es
  bytes (ClientEvent.tool_use_start index id name ∷ es) =
      ClientEvent.tool_use_start index id name ∷ bytes es
  bytes (_ ∷ es) = bytes es

  abbrev pub any_event : List (ClientEvent J D) → Bool
  any_event [] = false
  any_event (e ∷ es) = true

  -- The text that the client reads.
  abbrev pub text_of : List (ClientEvent J D) → Text
  text_of [] = []
  text_of (ClientEvent.delta text ∷ es) = text ++ text_of es
  text_of (_ ∷ es) = text_of es

  pub bytes-append : (es fs : List (ClientEvent J D)) → bytes (es ++ fs) ≡ bytes es ++ bytes fs
  bytes-append [] fs = refl
  bytes-append (ClientEvent.delta text ∷ es) fs = rw (bytes-append es fs)
  bytes-append (ClientEvent.tool_use_start index id name ∷ es) fs = rw (bytes-append es fs)
  bytes-append (ClientEvent.tool_use_delta index id args ∷ es) fs = bytes-append es fs
  bytes-append (ClientEvent.tool_use_end index id name j ∷ es) fs = bytes-append es fs
  bytes-append (ClientEvent.usage u d ∷ es) fs = bytes-append es fs
  bytes-append (ClientEvent.done reason u d ∷ es) fs = bytes-append es fs
  bytes-append (ClientEvent.error c d ∷ es) fs = bytes-append es fs
  bytes-append (ClientEvent.refused ∷ es) fs = bytes-append es fs
  bytes-append (ClientEvent.misconfigured ∷ es) fs = bytes-append es fs

  pub text_of-append :
      (es fs : List (ClientEvent J D)) → text_of (es ++ fs) ≡ text_of es ++ text_of fs
  text_of-append [] fs = refl
  text_of-append (ClientEvent.delta text ∷ es) fs =
      ap (λ r. text ++ r) (text_of-append es fs) ∙ sym (append_assoc text (text_of es) (text_of fs))
  text_of-append (ClientEvent.tool_use_start index id name ∷ es) fs = text_of-append es fs
  text_of-append (ClientEvent.tool_use_delta index id args ∷ es) fs = text_of-append es fs
  text_of-append (ClientEvent.tool_use_end index id name j ∷ es) fs = text_of-append es fs
  text_of-append (ClientEvent.usage u d ∷ es) fs = text_of-append es fs
  text_of-append (ClientEvent.done reason u d ∷ es) fs = text_of-append es fs
  text_of-append (ClientEvent.error c d ∷ es) fs = text_of-append es fs
  text_of-append (ClientEvent.refused ∷ es) fs = text_of-append es fs
  text_of-append (ClientEvent.misconfigured ∷ es) fs = text_of-append es fs

  pub text_of-bytes : (es : List (ClientEvent J D)) → text_of (bytes es) ≡ text_of es
  text_of-bytes [] = refl
  text_of-bytes (ClientEvent.delta text ∷ es) = rw (text_of-bytes es)
  text_of-bytes (ClientEvent.tool_use_start index id name ∷ es) = text_of-bytes es
  text_of-bytes (ClientEvent.tool_use_delta index id args ∷ es) = text_of-bytes es
  text_of-bytes (ClientEvent.tool_use_end index id name j ∷ es) = text_of-bytes es
  text_of-bytes (ClientEvent.usage u d ∷ es) = text_of-bytes es
  text_of-bytes (ClientEvent.done reason u d ∷ es) = text_of-bytes es
  text_of-bytes (ClientEvent.error c d ∷ es) = text_of-bytes es
  text_of-bytes (ClientEvent.refused ∷ es) = text_of-bytes es
  text_of-bytes (ClientEvent.misconfigured ∷ es) = text_of-bytes es

  pub no_bytes : (es : List (ClientEvent J D)) → any_event (bytes es) ≡ false → bytes es ≡ []
  no_bytes es h = none_any (bytes es) h
    where
      none_any : (fs : List (ClientEvent J D)) → any_event fs ≡ false → fs ≡ []
      none_any [] h = refl
      none_any (f ∷ fs) h = cc

  -- `emitted` says whether a first byte was yielded.
  abbrev pub IsMarked : StreamState → Run J D → Type 0
  IsMarked s r = r.state.emitted ≡ (s.emitted || any_event (bytes r.events))

  -- The parts are those before and the text that was yielded.
  abbrev pub IsWritten : StreamState → Run J D → Type 0
  IsWritten s r = join r.state.parts ≡ join s.parts ++ text_of r.events

  abbrev pub Records : StreamState → Run J D → Type 0
  Records s r = IsMarked s r × IsWritten s r

join-snoc : (ts : List Text) (t u : Text) → join (ts ++ (t ∷ [])) ++ u ≡ join ts ++ (t ++ u)
join-snoc [] t u = rw (append-nil t)
join-snoc (v ∷ ts) t u =
    append_assoc v (join (ts ++ (t ∷ []))) u
    ∙ ap (λ r. v ++ r) (join-snoc ts t u)
    ∙ sym (append_assoc v (join ts) (t ++ u))

or_true : (b x : Bool) → x ≡ true → x ≡ (b || true)
or_true true x h = h
or_true false x h = h

or_false : (b : Bool) → b ≡ (b || false)
or_false true = refl
or_false false = refl

unchanged {ℓ} : {J : Type 0} {D : Type ℓ} (r : Run J D) → r.events ≡ [] → Records r.state r
unchanged r h = rw h (or_false r.state.emitted, sym (append-nil (join r.state.parts)))

module _ {ℓ} {J : Type 0} {D : Type ℓ} (json : Json J) where
  end_entry-Records :
      (s : StreamState) (index : Option ℕ) (id name : Text) (old : Option ToolEntry)
      (rest : StreamState → Run J D)
      → ((s' : StreamState) → Records s' (rest s'))
      → Records s (resume s (end_entry json s index id name old) rest)
  end_entry-Records s index id name none rest h = h _
  end_entry-Records s index id name (some e) rest h = h _

  resume-Records :
      (s : StreamState) (e : ProviderEvent) (rest : StreamState → Run J D)
      → ((s' : StreamState) → Records s' (rest s'))
      → Records s (resume s (handle json s e) rest)
  unfolding handle
  resume-Records s (ProviderEvent.delta []) rest h = h _
  resume-Records s (ProviderEvent.delta (c ∷ text)) rest h =
      (or_true s.emitted _ (h _).0, (h _).1 ∙ join-snoc s.parts (c ∷ text) _)
  resume-Records s (ProviderEvent.tool_use_start index id name) rest h =
      (or_true s.emitted _ (h _).0, (h _).1)
  resume-Records s (ProviderEvent.tool_use_delta index id name args) rest h = h _
  resume-Records s (ProviderEvent.tool_use_end index id name) rest h =
      end_entry-Records s index id name _ rest h
  resume-Records s (ProviderEvent.usage u) rest h = h _
  resume-Records s (ProviderEvent.done reason u) rest h = h _
  resume-Records s (ProviderEvent.error message) rest h =
      unchanged (resume s (handle json s (ProviderEvent.error message)) rest) refl
  resume-Records s ProviderEvent.other rest h = h _

module _ {ℓ} {J : Type 0} (D : Type ℓ) (json : Json J) where
  run_events-Records :
      (s : StreamState) (es : List ProviderEvent) (end : End)
      → Records {D = D} s (run_events json s es end)
  unfolding run_events
  run_events-Records s [] end = unchanged {D = D} (run_events json s [] end) refl
  run_events-Records s (e ∷ es) end =
      resume-Records json s e (λ s'. run_events json s' es end) (λ s'. run_events-Records s' es end)

  pub run_stream-Records :
      (es : List ProviderEvent) (end : End) → Records {D = D} fresh_state (run_stream json es end)
  unfolding run_stream
  run_stream-Records [] finished = unchanged {D = D} (run_stream json [] finished) refl
  run_stream-Records [] (broke c) = run_events-Records fresh_state [] (broke c)
  run_stream-Records [] (left l) = unchanged {D = D} (run_stream json [] (left l)) refl
  run_stream-Records [] cut = run_events-Records fresh_state [] cut
  run_stream-Records (e ∷ es) end = run_events-Records fresh_state (e ∷ es) end
