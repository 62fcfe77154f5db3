-- ===== src/Clap/Events/Laws.antt =====
-- What the event lists of src/common/serialization/clap/events.cpp carry from a host to a plugin and
-- back: the events of the core space, but for SysEx events and unknown types.
use wasivst.Prelude.{
  ℕ, zero, suc, ◌+◌, ◌≡◌, refl, sym, ap, ◌∙◌, Bool, true, false, ◌&&◌, Option, none, some, List, [],
  ◌∷◌, ◌++◌, arith, length, length-map, get_elem?, map, append-nil, append_assoc, if◌then◌else◌,
}
use wasivst.Clap.Events.{
  filled, SpaceId, clap_core_event_space_id, other_space, EventType, clap_event_note_on,
  clap_event_note_off, clap_event_note_choke, clap_event_note_end, clap_event_note_expression,
  clap_event_param_value, clap_event_param_mod, clap_event_param_gesture_begin,
  clap_event_param_gesture_end, clap_event_transport, clap_event_midi, clap_event_midi_sysex,
  clap_event_midi2, other_type, ClapEvent, Payload, parse, parse_core, parse_space, get, EventList,
  filled, InputEvents, OutputEvents, keep, collect, clear, repopulate, write_back_outputs,
  write_back_events, in_size, in_get, out_try_push, append_parsed, input_events, output_events,
}

is_core : SpaceId → Bool
is_core clap_core_event_space_id = true
is_core (other_space n) = false

has_payload : EventType → Bool
has_payload clap_event_midi_sysex = false
has_payload (other_type n) = false
has_payload _ = true

-- The events that reach the other side.
unfoldable pub is_carried : ClapEvent → Bool
unfolding is_core has_payload
is_carried e = is_core e.header.space_id && has_payload e.header.event_type

unfoldable pub carried : List ClapEvent → List ClapEvent
carried [] = []
carried (e ∷ es) = if is_carried e then e ∷ carried es else carried es

-- What parsing makes of an event: an event that is carried whole, or nothing.
data Outcome (e : ClapEvent) : Option Payload → Bool → Type 0 where
  whole : (p : Payload) → get p ≡ e → Outcome e (some p) true
  dropped : Outcome e none false

parse_core_lem : (e : ClapEvent) (t : EventType) → Outcome e (parse_core t e) (has_payload t)
unfolding parse_core has_payload get
parse_core_lem e clap_event_note_on = whole _ refl
parse_core_lem e clap_event_note_off = whole _ refl
parse_core_lem e clap_event_note_choke = whole _ refl
parse_core_lem e clap_event_note_end = whole _ refl
parse_core_lem e clap_event_note_expression = whole _ refl
parse_core_lem e clap_event_param_value = whole _ refl
parse_core_lem e clap_event_param_mod = whole _ refl
parse_core_lem e clap_event_param_gesture_begin = whole _ refl
parse_core_lem e clap_event_param_gesture_end = whole _ refl
parse_core_lem e clap_event_transport = whole _ refl
parse_core_lem e clap_event_midi = whole _ refl
parse_core_lem e clap_event_midi_sysex = dropped
parse_core_lem e clap_event_midi2 = whole _ refl
parse_core_lem e (other_type n) = dropped

parse_space_lem :
    (e : ClapEvent) (space : SpaceId)
    → Outcome e (parse_space space e) (is_core space && has_payload e.header.event_type)
unfolding parse_space is_core
parse_space_lem e clap_core_event_space_id = parse_core_lem e e.header.event_type
parse_space_lem e (other_space n) = dropped

parse_lem : (e : ClapEvent) → Outcome e (parse e) (is_carried e)
unfolding parse is_carried
parse_lem e = parse_space_lem e e.header.space_id

-- The events that a list hands out, in order.
unfoldable pub contents : EventList → List ClapEvent
contents l = map get l.events

-- A source answers as the list of the host's events does.
pub record Enumerates {T : Type 0} (input : InputEvents T) (host : T) (es : List ClapEvent)
    : Type 0 where
  pub count : input.input_size host ≡ length es
  pub element : (i : ℕ) → input.input_get host i ≡ get_elem? es i

keep_lem :
    {o : Option Payload}
    → {b : Bool} → (e : ClapEvent) (ps : List Payload) → Outcome e o b
    → map get (keep o ps) ≡ (if b then e ∷ map get ps else map get ps)
unfolding keep
keep_lem e ps (whole p h) = ap (λ x. x ∷ map get ps) h
keep_lem e ps dropped = refl

collect_lem :
    (get_at : ℕ → Option ClapEvent) (es : List ClapEvent) (i : ℕ)
    → ((j : ℕ) → get_at (i + j) ≡ get_elem? es j)
    → (ps : List Payload) × (collect get_at (length es) i ≡ some ps) × (map get ps ≡ carried es)
unfolding collect carried
collect_lem get_at [] i h = ([], refl, refl)
collect_lem get_at (e ∷ es) i h =
    let first : get_at i ≡ some e = ap get_at (omega arith) ∙ h 0 in
    let (ps, found, same) =
      collect_lem get_at es (suc i) (λ j. ap get_at (omega arith) ∙ h (suc j)) in
    (keep (parse e) ps, rw (first, found) refl, rw (keep_lem e ps (parse_lem e), same) refl)

-- Filled from a source that answers as a list of events does, whatever it held before, the event list
-- gets through and hands out the carried events of that list in order, at each index, none behind them,
-- and it tells their number.
pub repopulate_lem :
    {T : Type 0}
    → (input : InputEvents T) (host : T) (es : List ClapEvent) (old : EventList)
    → Enumerates input host es
    → (l : EventList) × (repopulate input host old ≡ some l)
      × Enumerates input_events l (carried es)
unfolding repopulate filled in_size in_get
repopulate_lem input host es old h =
    let (ps, found, same) =
      collect_lem (input.input_get host) es 0
        (λ j. ap (input.input_get host) (omega arith) ∙ h.element j) in
    (
      record { events = ps },
      rw (h.count, found) refl,
      record {
        count = sym (length-map ps get) ∙ ap length same;
        element = λ i. get_elem?-map ps i ∙ ap (λ es. get_elem? es i) same;
      },
    )
  where
    get_elem?-map :
        (ps : List Payload) (i : ℕ) → in_get (record { events = ps }) i ≡ get_elem? (map get ps) i
    get_elem?-map [] i = refl
    get_elem?-map (p ∷ ps) zero = refl
    get_elem?-map (p ∷ ps) (suc i) = get_elem?-map ps i

-- The calls of `try_push` that offer a list of events in order.
unfoldable pub push_all : {T : Type 0} → OutputEvents T → List ClapEvent → T → T
push_all output [] host = host
push_all output (e ∷ es) host = push_all output es (output.try_push e host).1

append_parsed_lem :
    {o : Option Payload}
    → {b : Bool} → (e : ClapEvent) (l : EventList) → Outcome e o b
    → contents (append_parsed o l) ≡ (if b then contents l ++ e ∷ [] else contents l)
unfolding append_parsed contents
append_parsed_lem e l (whole p h) = map_append l.events ∙ ap (λ x. map get l.events ++ x ∷ []) h
  where
    map_append : (ps : List Payload) → map get (ps ++ p ∷ []) ≡ map get ps ++ get p ∷ []
    map_append [] = refl
    map_append (q ∷ ps) = ap (λ es. get q ∷ es) (map_append ps)
append_parsed_lem e l dropped = refl

contents-push_all :
    (es : List ClapEvent) (l : EventList)
    → contents (push_all output_events es l) ≡ contents l ++ carried es
unfolding push_all carried out_try_push
contents-push_all [] l = sym (append-nil (contents l))
contents-push_all (e ∷ es) l =
    contents-push_all es _ ∙ rw (append_parsed_lem e l (parse_lem e)) (by_case (is_carried e))
  where
    by_case :
        (b : Bool)
        → (if b then contents l ++ e ∷ [] else contents l) ++ carried es
          ≡ contents l ++ (if b then e ∷ carried es else carried es)
    by_case true = append_assoc (contents l) (e ∷ []) (carried es)
    by_case false = refl

write_back_outputs_lem :
    {T : Type 0}
    → (output : OutputEvents T) (l : EventList) (host : T)
    → write_back_outputs output l host ≡ push_all output (contents l) host
unfolding write_back_outputs contents push_all
write_back_outputs_lem {T = T} output l host = go l.events host
  where
    go :
        (ps : List Payload) (host : T)
        → write_back_events output ps host ≡ push_all output (map get ps) host
    go [] host = refl
    go (p ∷ ps) host = go ps (output.try_push (get p) host).1

-- What a plugin pushes into a cleared list is offered to the host, in order and whole, when the list
-- is written back, but for the events that are not carried.
pub write_back_outputs-push_all :
    {T : Type 0}
    → (output : OutputEvents T) (host : T) (es : List ClapEvent) (old : EventList)
    → write_back_outputs output (push_all output_events es (clear old)) host
      ≡ push_all output (carried es) host
unfolding clear contents
write_back_outputs-push_all output host es old =
    write_back_outputs_lem output (push_all output_events es (clear old)) host
    ∙ ap (λ es. push_all output es host) (contents-push_all es (clear old))
