-- ===== src/Vst3/EventList/Laws.antt =====
-- What the event list of src/common/serialization/vst3/event-list.cpp hands out of the events it was filled
-- from, and what it writes back.
use wasivst.Prelude.{
  ℕ, zero, suc, ◌+◌, ◌≡◌, refl, sym, ap, ◌∙◌, Option, none, some, List, [], ◌∷◌, ◌++◌, map, arith,
  length, get_elem?, All, append_assoc, append-nil,
}
use wasivst.Prelude.Int.{pos}
use wasivst.Vst3.Event.{Event, YaEvent, ya_event, get}
use wasivst.Vst3.Event.Laws.{IsWhole, FitsEvent, visible, visible-get, ya_event-get}
use wasivst.Vst3.EventList.{
  YaEventList, IeventList, collect, repopulate, write_back_events, write_back_outputs,
  get_event_count, get_event, add_event, own_output,
}

-- The list of the other side holds these events.
pub record Holds {T : Type 0} (input : IeventList T) (host : T) (es : List Event) : Type 0 where
  pub count : input.event_count host ≡ length es
  pub element : (i : ℕ) (e : Event) → get_elem? es i ≡ some e → input.event_at host i ≡ e

unfoldable pub IsWholeEvent : Event → Type 0
IsWholeEvent e = IsWhole e.event_member

-- What is visible of an event, where there is one.
unfoldable pub visible_found : Option Event → Option Event
visible_found none = none
visible_found (some e) = some (visible e)

collect_lem :
    {T : Type 0}
    → (input : IeventList T) (host : T) (i : ℕ) (es : List Event)
    → ((j : ℕ) (e : Event) → get_elem? es j ≡ some e → input.event_at host (i + j) ≡ e)
    → collect input host (length es) i ≡ map ya_event es
unfolding collect
collect_lem input host i [] h = refl
collect_lem input host i (e ∷ es) h =
    let first : input.event_at host i ≡ e = ap (input.event_at host) (omega arith) ∙ h 0 e refl in
    rw
      (
        first,
        collect_lem input host (suc i) es
            (λ j e' at. ap (input.event_at host) (omega arith) ∙ h (suc j) e' at),
      )
      refl

found_lem :
    (es : List Event) (i : ℕ)
    → All IsWholeEvent es
    → visible_found (get_event (record { events = map ya_event es }) (pos i))
      ≡ visible_found (get_elem? es i)
unfolding get_event visible_found IsWholeEvent
found_lem [] i h = refl
found_lem (e ∷ es) zero (h, _) = ap some (visible-get e h)
found_lem (e ∷ es) (suc i) (_, hs) = found_lem es i hs

length-map_event : (es : List Event) → length (map ya_event es) ≡ length es
length-map_event [] = refl
length-map_event (e ∷ es) = ap suc (length-map_event es)

-- Filled from a list of events of known types, whose texts and data are as long as they say and fit
-- their fields, the event list tells their number and hands out at each index what can be seen of
-- the event there, and nothing behind them, whatever it held before.
pub repopulate_events :
    {T : Type 0}
    → (input : IeventList T) (host : T) (es : List Event) (old : YaEventList) → Holds input host es
    → All IsWholeEvent es
    → let l = repopulate input host old in
      (get_event_count l ≡ length es)
      × ((i : ℕ) → visible_found (get_event l (pos i)) ≡ visible_found (get_elem? es i))
unfolding repopulate get_event_count
repopulate_events input host es old h ws =
    let all : collect input host (input.event_count host) 0 ≡ map ya_event es =
      ap (λ n. collect input host n 0) h.count
      ∙ collect_lem input host 0 es
          (λ j e at. ap (input.event_at host) (omega arith) ∙ h.element j e at) in
    rw all (length-map_event es, λ i. found_lem es i ws)

-- Written back to a list of the same kind, stored events whose texts and data fit the fields for
-- their lengths stand unchanged behind those that are there.
pub write_back_events_appends :
    (l into : YaEventList)
    → All (λ y. FitsEvent y.payload) l.events
    → write_back_outputs own_output l into ≡ record { events = into.events ++ l.events }
unfolding write_back_outputs add_event
write_back_events_appends l into h = go l.events into h
  where
    go :
        (ys : List YaEvent) (into : YaEventList)
        → All (λ y. FitsEvent y.payload) ys
        → write_back_events own_output ys into ≡ record { events = into.events ++ ys }
    go [] into h = ap (λ es. record { events = es }) (sym (append-nil into.events))
    go (y ∷ ys) into (h, hs) =
        go ys (record { events = into.events ++ ya_event (get y) ∷ [] }) hs
        ∙ rw (ya_event-get y h, append_assoc into.events (y ∷ []) ys) refl
