-- ===== src/Validation/Streaming/Driver.antt =====
-- What the generator of a streamed answer in backend/app/api/routes/conversations.py sends while it
-- takes the items of its queue, up to the result frame. `seq n` is the number that the stream buffer
-- gives to the n-th delta. The marks in the buffer, the webhooks and the metrics are left out.
use agent_studio.Base.{ℕ, suc, Option, none, some, List, [], ◌∷◌, if◌then◌else◌}
use agent_studio.Base.Text.{Text, nonempty}
use agent_studio.Validation.Streaming.{WindowRelease, Config, Window, new_window, push, finish}

-- What the queue says last: an error or a result of the agent, the end of its stream without any,
-- or an exception of the producer.
pub data End : Type 0 where
  error : (message : Text) → End
  result done exception : End

pub data Item : Type 0 where
  heartbeat : Item
  delta : (content : Text) → Item
  over : End → Item

pub data Frame (V : Type 0) : Type 0 where
  heartbeat : Frame V
  delta : (content : Text) (event_id : ℕ) → Frame V
  error : (message : Text) → Frame V
  redaction : (violations : List V) → Frame V
  retraction : (violations : List V) (retract_from_event_id : Option ℕ) → Frame V

-- How it goes on: with the result frame, not at all, by an exception, or it waits for the queue.
pub data Next : Type 0 where
  answers returns raises waits : Next

pub record Delivery (V : Type 0) : Type 0 where
  pub frames : List (Frame V)
  pub next : Next

module _ {V : Type 0} where
  abbrev pub send : Frame V → Delivery V → Delivery V
  send f d = record d { frames = f ∷ d.frames }

  abbrev pub stop : Next → Delivery V
  stop next = record { frames = []; next = next }

  -- Output moderation has blocked a window.
  abbrev pub retract : List V → Option ℕ → Delivery V
  retract violations last_released_event_id =
      send (Frame.redaction violations)
        (send (Frame.retraction violations last_released_event_id) (stop returns))

  module _ (seq : ℕ → ℕ) where
    abbrev pub send_tail : ℕ → Option ℕ → Option (WindowRelease V) → Delivery V
    send_tail n last none = stop answers
    send_tail n last (some tail) =
        if tail.truncated
        then retract tail.violations last
        else if nonempty tail.text
        then send (Frame.delta tail.text (seq n)) (stop answers)
        else stop answers

    abbrev pub conclude : Config V → ℕ → Option ℕ → Window → End → Delivery V
    conclude cfg n last w (End.error message) = send (Frame.error message) (stop returns)
    conclude cfg n last w End.result = send_tail n last (finish cfg w).0
    conclude cfg n last w End.done = stop returns
    conclude cfg n last w End.exception = stop raises

    -- What is done with the answer of `push`; `rest` goes on with the queue.
    abbrev pub send_release :
        ℕ → Option ℕ → Option (WindowRelease V) → (ℕ → Option ℕ → Delivery V) → Delivery V
    send_release n last none rest = rest n last
    send_release n last (some release) rest =
        if release.truncated
        then retract release.violations last
        else send (Frame.delta release.text (seq n)) (rest (suc n) (some (seq n)))

    -- `n` deltas have been sent, and `last` is `last_released_event_id`.
    unfoldable pub deliver_from : Config V → ℕ → Option ℕ → Window → List Item → Delivery V
    unfolding push finish
    deliver_from cfg n last w [] = stop waits
    deliver_from cfg n last w (Item.heartbeat ∷ items) =
        send Frame.heartbeat (deliver_from cfg n last w items)
    deliver_from cfg n last w (Item.delta content ∷ items) =
        let (release, w') = push cfg content w in
        send_release n last release (λ n' last'. deliver_from cfg n' last' w' items)
    deliver_from cfg n last w (Item.over end ∷ items) = conclude cfg n last w end

    unfoldable pub deliver : Config V → List Item → Delivery V
    unfolding deliver_from
    deliver cfg items = deliver_from cfg 0 none new_window items
