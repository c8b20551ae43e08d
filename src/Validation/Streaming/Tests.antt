-- ===== src/Validation/Streaming/Tests.antt =====
-- A window of four characters and a validator that redacts secrets and blocks curses.
use agent_studio.Base.{suc, ◌≡◌, refl, none, some, List, [], ◌∷◌, if◌then◌else◌}
use agent_studio.Base.Text.{Text, codes, contains}
use agent_studio.Validation.Streaming.{Verdict, allowed, blocked, Config}
use agent_studio.Validation.Streaming.Driver.{End, Item, Frame, answers, returns, deliver}
use agent_studio.Validation.Streaming.Windows.{
  cut, chunks_of, end_of, content_of, judged_in_order, join, IsCut, deliver_lem,
}

abbrev validate : Text → Verdict Text
validate text =
    if contains (codes "curse") text
    then blocked (codes "profanity" ∷ [])
    else if contains (codes "key") text
    then allowed (some (codes "[key]"))
    else allowed none

abbrev config : (Text → Verdict Text) → Config Text
config v = record { validator = some v; window_size = 4; fallback_text = codes "[withheld]" }

abbrev stream : List Item
stream =
    Item.delta (codes "he")
    ∷ Item.heartbeat
    ∷ Item.delta (codes "llo")
    ∷ Item.delta (codes "a key")
    ∷ Item.delta (codes "curse")
    ∷ Item.delta (codes "tail")
    ∷ Item.over End.result
    ∷ []

-- The fallback text is not sent, and neither is anything after the blocked window.
retracted : deliver suc (config validate) stream ≡ record {
  frames =
      Frame.heartbeat
      ∷ Frame.delta (codes "hello") 1
      ∷ Frame.delta (codes "[key]") 2
      ∷ Frame.redaction (codes "profanity" ∷ [])
      ∷ Frame.retraction (codes "profanity" ∷ []) (some 2)
      ∷ [];
  next = returns;
}
unfolding deliver contains
retracted = refl

-- The rest is sent before a result, and dropped at an error.
rest_sent :
    deliver suc (config validate) (Item.delta (codes "ab") ∷ Item.over End.result ∷ [])
    ≡ record { frames = Frame.delta (codes "ab") 1 ∷ []; next = answers }
unfolding deliver contains
rest_sent = refl

rest_dropped :
    deliver suc
      (config validate)
      (Item.delta (codes "ab") ∷ Item.over (End.error (codes "no")) ∷ [])
    ≡ record { frames = Frame.error (codes "no") ∷ []; next = returns }
unfolding deliver contains
rest_dropped = refl

deliver_lem_example :
    (content_of (deliver suc (config validate) stream)
      ≡ judged_in_order validate suc 0
          (cut 4 [] (chunks_of stream)).0
          (cut 4 [] (chunks_of stream)).1
          (end_of stream))
    × IsCut 4
        (join (chunks_of stream))
        (cut 4 [] (chunks_of stream)).0
        (cut 4 [] (chunks_of stream)).1
deliver_lem_example = deliver_lem (config validate) validate suc stream refl
