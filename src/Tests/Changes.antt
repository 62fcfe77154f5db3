-- ===== src/Tests/Changes.antt =====
-- The parameter changes and the events of a VST3 block at concrete inputs.
use mathlib.Core.Option.{some-injective}
use wasivst.Prelude.{
  ℕ, zero, suc, ◌≡◌, refl, some, List, [], ◌∷◌, ◌++◌, arith, length, get_elem?, All,
}
use wasivst.Prelude.Int.{pos}
use wasivst.Vst3.ParameterChanges.{
  YaParamValueQueue, YaParameterChanges, repopulate, write_back_outputs, own_changes, own_output,
}
use wasivst.Vst3.ParameterChanges.Laws.{
  repopulate_copies, own_changes-IsChanges, write_back_appends,
}
use wasivst.Vst3.Event.{Event, YaEvent, Member, data_event, scale, ya_data}
use wasivst.Vst3.Event.Laws.{IsWhole, FitsEvent}
use wasivst.Vst3.EventList
use wasivst.Vst3.EventList.{YaEventList, IeventList, get_event_count, get_event}
use wasivst.Vst3.EventList.Laws.{
  IsWholeEvent, visible_found, repopulate_events, write_back_events_appends,
}

abbrev ramp : YaParamValueQueue
ramp = record {
  parameter_id = 7;
  queue =
      record { sample_offset = pos 0; value = 1 }
      ∷ record { sample_offset = pos 16; value = 2 }
      ∷ [];
}

abbrev changes : YaParameterChanges
changes = record { queues = ramp ∷ record { parameter_id = 9; queue = [] } ∷ [] }

abbrev stale : YaParameterChanges
stale = record {
  queues =
      record { parameter_id = 1; queue = record { sample_offset = pos 3; value = 4 } ∷ [] } ∷ [];
}

repopulate_copies_example : repopulate own_changes changes stale ≡ some changes
repopulate_copies_example =
    repopulate_copies own_changes changes (changes.queues) stale (own_changes-IsChanges changes)

write_back_appends_example :
    write_back_outputs own_output changes.queues stale
    ≡ record { queues = stale.queues ++ changes.queues }
write_back_appends_example = write_back_appends changes.queues stale

abbrev event_of : Member → Event
event_of m = record {
  event_bus_index = 0;
  event_sample_offset = 5;
  event_ppq_position = 0;
  event_flags = 1;
  event_member = m;
}

-- Four bytes, of which three belong to the event.
abbrev sysex : Event
sysex =
    event_of (data_event (record { size = 3; data_type = 0; bytes = 0xf0 ∷ 1 ∷ 0xf7 ∷ 99 ∷ [] }))

abbrev named : Event
named = event_of (
    scale (record {
      scale_root = 60;
      scale_mask = 5;
      scale_text_len = 2;
      scale_text = 65 ∷ 66 ∷ 0 ∷ [];
    }))

abbrev at : List Event → ℕ → Event
at [] i = sysex
at (e ∷ es) zero = e
at (e ∷ es) (suc i) = at es i

at_lem : (es : List Event) (i : ℕ) (e : Event) → get_elem? es i ≡ some e → at es i ≡ e
at_lem [] i e h = absurd (cc h)
at_lem (e' ∷ es) zero e h = some-injective e' e h
at_lem (e' ∷ es) (suc i) e h = at_lem es i e h

abbrev listed : IeventList (List Event)
listed = record { event_count = λ es. length es; event_at = at }

both_whole : All IsWholeEvent (sysex ∷ named ∷ [])
unfolding IsWholeEvent IsWhole
both_whole = ((omega arith, omega arith), ((omega arith, omega arith), tt))

repopulate_events_example :
    let l = EventList.repopulate listed (sysex ∷ named ∷ []) (record { events = [] }) in
    (get_event_count l ≡ 2)
    × ((i : ℕ)
        → visible_found (get_event l (pos i)) ≡ visible_found (get_elem? (sysex ∷ named ∷ []) i))
repopulate_events_example =
    repopulate_events listed (sysex ∷ named ∷ []) (sysex ∷ named ∷ []) (record { events = [] })
      (record { count = refl; element = at_lem (sysex ∷ named ∷ []) }) both_whole

abbrev stored_sysex : YaEvent
stored_sysex = record {
  bus_index = 0;
  sample_offset = 5;
  ppq_position = 0;
  flags = 1;
  payload = ya_data (record { ya_type = 0; buffer = 0xf0 ∷ 0xf7 ∷ [] });
}

stored-Fits : All (λ y. FitsEvent y.payload) (stored_sysex ∷ [])
unfolding FitsEvent
stored-Fits = (omega arith, tt)

write_back_events_appends_example :
    EventList.write_back_outputs EventList.own_output
      (record { events = stored_sysex ∷ [] })
      (record { events = stored_sysex ∷ [] })
    ≡ record { events = stored_sysex ∷ stored_sysex ∷ [] }
write_back_events_appends_example =
    write_back_events_appends (record { events = stored_sysex ∷ [] })
      (record { events = stored_sysex ∷ [] }) stored-Fits
