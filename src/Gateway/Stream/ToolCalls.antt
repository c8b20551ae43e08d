-- ===== src/Gateway/Stream/ToolCalls.antt =====
-- The tool calls of a streamed answer, against a direct description of them.
use agent_studio.Base.{
  ℕ, ◌≡◌, ◌∙◌, ap, refl, Bool, true, false, ◌||◌, not, inl, inr, Option, none, some, List, [], ◌∷◌,
  map, arith, Bool-cases, is_some, if◌then◌else◌,
}
use agent_studio.Base.Dict.{Dict}
use agent_studio.Base.Eq.{any_of}
use agent_studio.Base.Sort.{insert_sorted, sort_by}
use agent_studio.Gateway.Stream.Events.{
  ToolEntry, Json, ToolCall, decode_args, is_empty, index_le, prepend_call, or_no_calls,
  collect_calls, finalize_tool_calls,
}

module _ {J : Type 0} (json : Json J) where
  -- An entry that lacks its identifier or its name, or whose arguments are no object of JSON.
  unfoldable pub incomplete : ℕ × ToolEntry → Bool
  incomplete (_, e) = is_empty e.id || is_empty e.name || not (is_some (decode_args json e.args))

  abbrev arguments_of : Option J → J
  arguments_of none = json.empty_dict
  arguments_of (some j) = j

  unfoldable pub call_of : ℕ × ToolEntry → ToolCall J
  call_of (_, e) = record {
    id = e.id;
    name = e.name;
    arguments = arguments_of (decode_args json e.args);
  }

  abbrev is_nil : {A : Type 0} → List A → Bool
  is_nil [] = true
  is_nil (x ∷ xs) = false

  any_of-insert :
      (p : ℕ × ToolEntry → Bool) (x : ℕ × ToolEntry) (acc : Dict ℕ ToolEntry)
      → any_of p (insert_sorted (index_le json) x acc) ≡ (p x || any_of p acc)
  unfolding insert_sorted any_of
  any_of-insert p x [] = refl
  any_of-insert p x (y ∷ acc) = ground (arith, any_of-insert p x acc)

  any_of-sort :
      (p : ℕ × ToolEntry → Bool) (acc : Dict ℕ ToolEntry)
      → any_of p (sort_by (index_le json) acc) ≡ any_of p acc
  unfolding sort_by any_of
  any_of-sort p [] = refl
  any_of-sort p (x ∷ acc) =
      any_of-insert p x (sort_by (index_le json) acc) ∙ ap (λ b. p x || b) (any_of-sort p acc)

  collect_step :
      (e : ToolEntry) (i : ℕ) (a : Option J) (any : Bool) (calls : List (ToolCall J))
      → decode_args json e.args ≡ a
      → (if is_empty e.id || is_empty e.name
          then none
          else prepend_call json e a (if any then none else some calls))
        ≡ (if incomplete (i, e) || any then none else some (call_of (i, e) ∷ calls))
  unfolding incomplete call_of
  collect_step e i none any calls h = ground (arith, h)
  collect_step e i (some j) any calls h = ground (arith, h)

  collect-incomplete :
      (acc : Dict ℕ ToolEntry)
      → collect_calls json acc ≡ (if any_of incomplete acc then none else some (map call_of acc))
  unfolding collect_calls any_of
  collect-incomplete [] = refl
  collect-incomplete ((i, e) ∷ acc) =
      rw (collect-incomplete acc)
        (collect_step e i (decode_args json e.args) (any_of incomplete acc) (map call_of acc) refl)

  -- The tool calls of an answer are the entries in the order of their indices, with their arguments
  -- decoded, if there is an entry and none is incomplete; otherwise there are no tool calls at all.
  pub finalize_tool_calls_lem :
      (acc : Dict ℕ ToolEntry)
      → finalize_tool_calls json acc ≡ (
          if any_of incomplete acc
          then none
          else or_no_calls json (some (map call_of (sort_by (index_le json) acc))))
  unfolding finalize_tool_calls
  finalize_tool_calls_lem acc =
      rw (collect-incomplete, any_of-sort)
        (elim (Bool-cases (any_of incomplete acc)) [ inl p ↦ rw p refl | inr p ↦ rw p refl ])
