-- ===== src/Vst3/EventList.antt =====
-- src/common/serialization/vst3/event-list.{h,cpp}: the list of a block's events.
pub mod Laws
use wasivst.Prelude.{ℕ, zero, suc, Option, none, some, List, [], ◌∷◌, ◌++◌, length, get_elem?}
use wasivst.Prelude.Int.{ℤ, pos, negsuc}
use wasivst.Vst3.Event.{Event, YaEvent, ya_event, get}

pub record YaEventList : Type 0 where
  pub events : List YaEvent

-- The calls of `IEventList` that the bridge makes on the other side's list. `event_at` is what the
-- local variable holds after `getEvent`, whose result is not looked at.
pub record IeventList (T : Type 0) : Type 0 where
  pub event_count : T → ℕ
  pub event_at : T → ℕ → Event

pub record OutputEvents (T : Type 0) : Type 0 where
  pub new_event : Event → T → T

unfoldable pub clear : YaEventList → YaEventList
clear l = record { events = [] }

module _ {T : Type 0} (input : IeventList T) where
  -- The loop, for `count` events from the index `i` on.
  unfoldable pub collect : T → (count i : ℕ) → List YaEvent
  unfolding ya_event
  collect host zero i = []
  collect host (suc k) i = ya_event (input.event_at host i) ∷ collect host k (suc i)

  unfoldable pub repopulate : T → YaEventList → YaEventList
  unfolding collect
  repopulate host l = record { events = collect host (input.event_count host) 0 }

module _ {T : Type 0} (output : OutputEvents T) where
  write_back_events : List YaEvent → T → T
  unfolding get
  write_back_events [] host = host
  write_back_events (y ∷ ys) host = write_back_events ys (output.new_event (get y) host)

  unfoldable pub write_back_outputs : YaEventList → T → T
  unfolding write_back_events
  write_back_outputs l host = write_back_events l.events host

unfoldable pub get_event_count : YaEventList → ℕ
get_event_count l = length l.events

-- `getEvent`; `none` is an invalid argument.
unfoldable pub get_event : YaEventList → ℤ → Option Event
unfolding get
get_event l (pos i) = elim (get_elem? l.events i) [ none ↦ none | some y ↦ some (get y) ]
get_event l (negsuc i) = none

unfoldable pub add_event : Event → YaEventList → YaEventList
unfolding ya_event
add_event e l = record { events = l.events ++ ya_event e ∷ [] }

abbrev pub own_output : OutputEvents YaEventList
own_output = record { new_event = add_event }
