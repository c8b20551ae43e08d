-- ===== src/Gateway/Stream/Loop.antt =====
-- The rule for the loop of a stream over its deployments, and that the loop ends.
use agent_studio.Base.{
  ℕ, zero, suc, ◌≤◌, ◌≡◌, ◌≢◌, true, false, inl, inr, none, some, List, [], ◌∷◌, ◌++◌, length,
  arith, Bool-cases,
}
use agent_studio.Base.Eq.{
  Eq, elem, unseen, Subset, length-unseen_cons, elem-cons_self, elem-cons_of, length-unseen-le,
}
use agent_studio.Gateway.Chain.{
  FailureClass, general, content_policy, context_window, LastError, universe,
}
use agent_studio.Gateway.Chain.Universe.{targets-Subset, no_room, unseen-Subset, first_Subset}
use agent_studio.Gateway.Stream.Events.{Usage, StreamState, Json}
use agent_studio.Gateway.Stream.Flow.{
  Upstream, no_adapter, feed, Stop, ended, failed, aborted, left_at, recording, reconciling,
  storing, at_usage, Ending, StreamTrace, give_up, stuck, after_stop, stream_at, stream_loop,
  stream_chain, run_stream,
}

module _ {ℓ} {J : Type 0} {D : Type ℓ} ⦃e : Eq D⦄ (json : Json J) (cost : D → Usage → ℕ)
    (targets : FailureClass → List D) (upstream : D → Upstream) where
  -- The rule: a property of traces that holds at the loop's ends and is kept by its rounds.
  module _ {κ} (P : ℕ → List D → List D → LastError D → StreamTrace J D → Type κ) where
    pub record Rules : Type (ℓ ⊔ κ) where
      pub at_end :
          (fuel : ℕ) (seen : List D) (last : LastError D)
          → P fuel seen [] last (give_up last (length seen))
      pub at_stuck :
          (seen : List D) (d : D) (ds : List D) (last : LastError D)
          → elem d seen ≡ false
          → P zero seen (d ∷ ds) last stuck
      pub at_seen :
          (fuel : ℕ) (seen : List D) (d : D) (ds : List D) (last : LastError D)
          (t : StreamTrace J D)
          → elem d seen ≡ true
          → P fuel seen ds last t
          → P fuel seen (d ∷ ds) last t
      pub at_new :
          (fuel : ℕ) (seen : List D) (d : D) (ds : List D) (last : LastError D)
          (rest : FailureClass → StreamTrace J D)
          → elem d seen ≡ false
          → ((c : FailureClass)
              → P fuel (d ∷ seen) (unseen (d ∷ seen) (targets c)) (some (d, c)) (rest c))
          → P
              (suc fuel)
              seen
              (d ∷ ds)
              last
              (stream_at json cost (suc (length seen)) d (upstream d) rest)

    pub loop_induction :
        Rules
        → (fuel : ℕ) (seen ds : List D) (last : LastError D)
        → P fuel seen ds last (stream_loop json cost targets upstream fuel seen ds last)
    unfolding stream_loop
    loop_induction r fuel seen [] last = r.at_end fuel seen last
    loop_induction r zero seen (d ∷ ds) last = elim (Bool-cases (elem d seen)) [
      | inl h ↦ rw h (r.at_seen zero seen d ds last _ h (loop_induction r zero seen ds last))
      | inr h ↦ rw h (r.at_stuck seen d ds last h)
    ]
    loop_induction r (suc fuel) seen (d ∷ ds) last = elim (Bool-cases (elem d seen)) [
      | inl h ↦
          rw h (r.at_seen (suc fuel) seen d ds last _ h (loop_induction r (suc fuel) seen ds last))
      | inr h ↦ rw h (
          r.at_new fuel seen d ds last _ h
            (λ c. loop_induction r fuel (d ∷ seen) (unseen (d ∷ seen) (targets c)) (some (d, c))))
    ]

    pub chain_induction :
        Rules
        → (first : D)
        → P
            (length (universe targets first))
            []
            (first ∷ [])
            none
            (stream_chain json cost targets upstream first)
    unfolding stream_chain
    chain_induction r first =
        loop_induction r (length (universe targets first)) [] (first ∷ []) none

  abbrev IsFueled : D → ℕ → List D → List D → LastError D → StreamTrace J D → Type ℓ
  IsFueled first fuel seen ds last t =
      Subset ds (universe targets first)
      → length (unseen seen (universe targets first)) ≤ fuel
      → t.ending ≢ Ending.out_of_fuel

  stop_ends :
      (n : ℕ) (d : D) (s : StreamState) (stop : Stop) (rest : FailureClass → StreamTrace J D)
      → ((c : FailureClass) → (rest c).ending ≢ Ending.out_of_fuel)
      → (after_stop json cost n d s stop rest).ending ≢ Ending.out_of_fuel
  stop_ends n d s ended rest h = λ p. cc
  stop_ends n d s (left_at recording) rest h = λ p. cc
  stop_ends n d s (left_at reconciling) rest h = λ p. cc
  stop_ends n d s (left_at storing) rest h = λ p. cc
  stop_ends n d s (left_at at_usage) rest h = λ p. cc
  stop_ends n d s (failed c) rest h = elim (Bool-cases s.emitted) [
    | inl p ↦ rw p (λ q. cc)
    | inr p ↦ rw p (h c)
  ]
  stop_ends n d s aborted rest h = λ p. cc

  round_ends :
      (n : ℕ) (d : D) (u : Upstream) (rest : FailureClass → StreamTrace J D)
      → ((c : FailureClass) → (rest c).ending ≢ Ending.out_of_fuel)
      → (stream_at json cost n d u rest).ending ≢ Ending.out_of_fuel
  round_ends n d no_adapter rest h = λ p. cc
  round_ends n d (feed es end) rest h =
      let r = run_stream json es end in stop_ends n d r.state r.stop rest h

  IsFueled-rules : (first : D) → Rules (IsFueled first)
  IsFueled-rules first = record {
    at_end = λ fuel seen last sub room p. cc;
    at_stuck = λ seen d ds last new sub room.
        absurd (
          omega (arith, no_room seen (universe targets first) d new (sub d (elem-cons_self d ds))));
    at_seen =
        λ fuel seen d ds last t old ih sub room. ih (λ x h. sub x (elem-cons_of x d ds h)) room;
    at_new = λ fuel seen d ds last rest new ih sub room.
        round_ends (suc (length seen)) d (upstream d) rest λ c.
          ih c
            (unseen-Subset (d ∷ seen) (targets c) (universe targets first)
              (targets-Subset targets first c))
            (omega (
              arith,
              length-unseen_cons d seen (universe targets first) (sub d (elem-cons_self d ds)) new,
            ));
  }

  pub stream_chain-ends :
      (first : D) → (stream_chain json cost targets upstream first).ending ≢ Ending.out_of_fuel
  stream_chain-ends first =
      chain_induction (IsFueled first) (IsFueled-rules first) first
        (first_Subset first (targets general ++ targets content_policy ++ targets context_window))
        (length-unseen-le [] (universe targets first))
