-- ===== src/Gateway/Stream/Events.antt =====
-- The events of a stream and `_handle`, `_decode_args` and `_finalize_tool_calls` of
-- backend/app/gateway/service.py. Usage is a dictionary of counts; the decoder of JSON is a
-- parameter.
use agent_studio.Base.{
  ℕ, Bool, true, false, ◌||◌, Option, none, some, List, [], ◌∷◌, ◌++◌, leb, if◌then◌else◌,
}
use agent_studio.Base.Dict.{Dict, lookup, insert}
use agent_studio.Base.Eq.{nat_eq}
use agent_studio.Base.Text.{Text, codes}
use agent_studio.Base.Sort.{sort_by}
use agent_studio.Gateway.Chain.{FailureClass}
use agent_studio.Gateway.Fallback.{classify_failure}

abbrev pub Usage : Type 0
Usage = Dict Text ℕ

-- `LLMStreamEvent`, with the fields that each type carries
pub data ProviderEvent : Type 0 where
  delta : (content : Text) → ProviderEvent
  tool_use_start : (index : Option ℕ) (id name : Text) → ProviderEvent
  tool_use_delta : (index : Option ℕ) (id name arguments : Text) → ProviderEvent
  tool_use_end : (index : Option ℕ) (id name : Text) → ProviderEvent
  usage : Option Usage → ProviderEvent
  done : (finish_reason : Option Text) → Option Usage → ProviderEvent
  error : (message : Text) → ProviderEvent
  other : ProviderEvent

-- `GatewayStreamEvent`; `J` is what JSON decodes to, `D` the deployments
pub data ClientEvent {ℓ} (J : Type 0) (D : Type ℓ) : Type ℓ where
  delta : (content : Text) → ClientEvent J D
  tool_use_start : (index : Option ℕ) (id name : Text) → ClientEvent J D
  tool_use_delta : (index : Option ℕ) (id args : Text) → ClientEvent J D
  tool_use_end : (index : Option ℕ) (id name : Option Text) (arguments : Option J) → ClientEvent J D
  usage : Usage → D → ClientEvent J D
  done : (finish_reason : Option Text) → Usage → D → ClientEvent J D
  error : (failure_class : FailureClass) → Option D → ClientEvent J D
  refused : ClientEvent J D
  misconfigured : ClientEvent J D

-- One entry of `tool_acc`.
pub record ToolEntry : Type 0 where
  pub id : Text
  pub name : Text
  pub args : Text

abbrev new_entry : ToolEntry
new_entry = record { id = []; name = []; args = [] }

-- The variables that `_handle` changes.
pub record StreamState : Type 0 where
  pub emitted : Bool
  pub usage : Usage
  pub finish_reason : Option Text
  pub parts : List Text
  pub tool_acc : Dict ℕ ToolEntry

abbrev pub fresh_state : StreamState
fresh_state = record {
  emitted = false;
  usage = [];
  finish_reason = none;
  parts = [];
  tool_acc = [];
}

-- `json.loads`, which can raise, and `isinstance(decoded, dict)`
pub record Json (J : Type 0) : Type 0 where
  pub loads : Text → Option J
  pub is_dict : J → Bool
  pub empty_dict : J

-- `a or b` on texts
abbrev or_text : Text → Text → Text
or_text [] b = b
or_text (c ∷ a) b = c ∷ a

abbrev pub is_empty : Text → Bool
is_empty [] = true
is_empty (c ∷ s) = false

-- `index or 0`
abbrev slot : Option ℕ → ℕ
slot none = 0
slot (some n) = n

-- `tool_acc.setdefault(index, ...)`, with the identifier and the name of the event if it has them
abbrev opened : Dict ℕ ToolEntry → ℕ → ToolEntry
opened acc i = elim (lookup i acc) [ none ↦ new_entry | some e ↦ e ]

abbrev labelled : ToolEntry → Text → Text → ToolEntry
labelled e id name = record e { id = or_text id e.id; name = or_text name e.name }

-- `text` if it is not empty, else what the entry has, `None` in a missing entry
abbrev or_none : Text → Option Text
or_none [] = none
or_none (c ∷ s) = some (c ∷ s)

-- an empty usage counts as none
abbrev taken : Option Usage → Usage → Usage
taken (some (u ∷ us)) old = u ∷ us
taken _ old = old

-- What `_handle` does: it raises a provider error, or changes the state and may yield an event.
pub data Handled {ℓ} (J : Type 0) (D : Type ℓ) : Type ℓ where
  raised : FailureClass → Handled J D
  kept : StreamState → Option (ClientEvent J D) → Handled J D

-- `{"id": ..., "name": ..., "arguments": ...}`
pub record ToolCall (J : Type 0) : Type 0 where
  pub id : Text
  pub name : Text
  pub arguments : J

module _ {J : Type 0} (json : Json J) where
  decode_dict : Option J → Option J
  decode_dict none = none
  decode_dict (some j) = if json.is_dict j then some j else none

  unfoldable pub decode_args : Text → Option J
  unfolding decode_dict
  decode_args [] = some json.empty_dict
  decode_args (c ∷ raw) = decode_dict (json.loads (c ∷ raw))

  module _ {ℓ} {D : Type ℓ} where
    -- An entry that is missing is not added.
    abbrev pub end_entry : StreamState → Option ℕ → Text → Text → Option ToolEntry → Handled J D
    end_entry s index id name none =
        kept s (some (ClientEvent.tool_use_end index (or_none id) (or_none name) (decode_args [])))
    end_entry s index id name (some old) =
        let e = labelled old id name in
        kept (record s { tool_acc = insert (slot index) e s.tool_acc })
          (some (ClientEvent.tool_use_end index (some e.id) (some e.name) (decode_args e.args)))

    unfoldable pub handle : StreamState → ProviderEvent → Handled J D
    unfolding lookup insert
    handle s (ProviderEvent.delta []) = kept s none
    handle s (ProviderEvent.delta (c ∷ text)) =
        kept (record s { emitted = true; parts = s.parts ++ ((c ∷ text) ∷ []) })
          (some (ClientEvent.delta (c ∷ text)))
    handle s (ProviderEvent.tool_use_start index id name) =
        let e = labelled (opened s.tool_acc (slot index)) id name in
        kept (record s { emitted = true; tool_acc = insert (slot index) e s.tool_acc })
          (some (ClientEvent.tool_use_start index e.id e.name))
    handle s (ProviderEvent.tool_use_delta index id name arguments) =
        let e = labelled (opened s.tool_acc (slot index)) id name in
        kept
          (record s {
            tool_acc = insert (slot index) (record e { args = e.args ++ arguments }) s.tool_acc;
          })
          (some (ClientEvent.tool_use_delta index e.id arguments))
    handle s (ProviderEvent.tool_use_end index id name) =
        end_entry s index id name (lookup (slot index) s.tool_acc)
    handle s (ProviderEvent.usage u) = kept (record s { usage = taken u s.usage }) none
    handle s (ProviderEvent.done reason u) =
        kept (record s { finish_reason = reason; usage = taken u s.usage }) none
    handle s (ProviderEvent.error message) =
        raised (classify_failure (or_text message (codes "stream error")))
    handle s ProviderEvent.other = kept s none

  abbrev pub index_le : ℕ × ToolEntry → ℕ × ToolEntry → Bool
  index_le (i, _) (j, _) = leb i j

  abbrev pub prepend_call :
      ToolEntry → Option J → Option (List (ToolCall J)) → Option (List (ToolCall J))
  prepend_call e (some a) (some calls) =
      some (record { id = e.id; name = e.name; arguments = a } ∷ calls)
  prepend_call e _ _ = none

  -- the loop over the sorted indices, which returns at the first entry that is incomplete
  unfoldable pub collect_calls : Dict ℕ ToolEntry → Option (List (ToolCall J))
  unfolding decode_args
  collect_calls [] = some []
  collect_calls ((_, e) ∷ acc) =
      let rest = collect_calls acc in
      if is_empty e.id || is_empty e.name then none else prepend_call e (decode_args e.args) rest

  abbrev pub or_no_calls : Option (List (ToolCall J)) → Option (List (ToolCall J))
  or_no_calls (some (c ∷ calls)) = some (c ∷ calls)
  or_no_calls _ = none

  unfoldable pub finalize_tool_calls : Dict ℕ ToolEntry → Option (List (ToolCall J))
  unfolding collect_calls sort_by
  finalize_tool_calls acc = or_no_calls (collect_calls (sort_by index_le acc))
