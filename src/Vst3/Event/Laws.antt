-- ===== src/Vst3/Event/Laws.antt =====
-- What crosses the bridge of an event (src/common/serialization/vst3/event-list.cpp): all that a reader
-- of it can see, for an event of a known type.
use wasivst.Prelude.{
  ℕ, ◌≤◌, ◌<◌, ◌%◌, ◌^◌, ◌≡◌, refl, ap, ◌∙◌, List, [], ◌∷◌, ◌++◌, arith, length, take, length-take,
  take-append_length,
}
use wasivst.Vst3.Event.{
  Member, note_on, note_off, data_event, poly_pressure, note_expression_value, note_expression_text,
  chord, scale, midi_cc_out, unknown, Event, Payload, ya_note_on, ya_note_off, ya_data,
  ya_poly_pressure, ya_note_expression_value, ya_note_expression_text, ya_chord, ya_scale,
  ya_midi_cc_out, YaEvent, payload_of, member_of, ya_event, get, get_data, get_note_expression_text,
  get_chord, get_scale,
}

-- The event with the memory behind its pointer cut to what its length says.
unfoldable pub own_part : Member → Member
own_part (data_event e) = data_event (record e { bytes = take e.size e.bytes })
own_part (note_expression_text e) =
    note_expression_text (record e { text = take e.text_len e.text })
own_part (chord e) = chord (record e { chord_text = take e.chord_text_len e.chord_text })
own_part (scale e) = scale (record e { scale_text = take e.scale_text_len e.scale_text })
own_part m = m

-- An event of a known type, whose memory is as long as it says, which fits its field.
unfoldable pub IsWhole : Member → Type 0
IsWhole (data_event e) = (e.size ≤ length e.bytes) × (e.size < 2 ^ 32)
IsWhole (note_expression_text e) = (e.text_len ≤ length e.text) × (e.text_len < 2 ^ 32)
IsWhole (chord e) = (e.chord_text_len ≤ length e.chord_text) × (e.chord_text_len < 2 ^ 16)
IsWhole (scale e) = (e.scale_text_len ≤ length e.scale_text) × (e.scale_text_len < 2 ^ 16)
IsWhole (unknown t) = ⊥
IsWhole _ = Unit {0}

-- A stored event whose bytes or text fit the field for their length.
unfoldable pub FitsEvent : Payload → Type 0
FitsEvent (ya_data y) = length y.buffer < 2 ^ 32
FitsEvent (ya_note_expression_text y) = length y.ya_text < 2 ^ 32
FitsEvent (ya_chord y) = length y.ya_chord_text < 2 ^ 16
FitsEvent (ya_scale y) = length y.ya_scale_text < 2 ^ 16
FitsEvent _ = Unit {0}

taken_back : (s : List ℕ) (n : ℕ) → n ≡ length s → take n (s ++ 0 ∷ []) ≡ s
taken_back s n h = ap (λ n. take n (s ++ 0 ∷ [])) h ∙ take-append_length s (0 ∷ [])

payload_of-member_of : (p : Payload) → FitsEvent p → payload_of (member_of p) ≡ p
unfolding payload_of member_of FitsEvent get_data get_note_expression_text get_chord get_scale
payload_of-member_of (ya_note_on e) h = refl
payload_of-member_of (ya_note_off e) h = refl
payload_of-member_of (ya_data y) h =
    rw (taken_back y.buffer (length y.buffer % 2 ^ 32) (omega (arith, h))) refl
payload_of-member_of (ya_poly_pressure e) h = refl
payload_of-member_of (ya_note_expression_value e) h = refl
payload_of-member_of (ya_note_expression_text y) h =
    rw (taken_back y.ya_text (length y.ya_text % 2 ^ 32) (omega (arith, h))) refl
payload_of-member_of (ya_chord y) h =
    rw (taken_back y.ya_chord_text (length y.ya_chord_text % 2 ^ 16) (omega (arith, h))) refl
payload_of-member_of (ya_scale y) h =
    rw (taken_back y.ya_scale_text (length y.ya_scale_text % 2 ^ 16) (omega (arith, h))) refl
payload_of-member_of (ya_midi_cc_out e) h = refl

pub ya_event-get : (y : YaEvent) → FitsEvent y.payload → ya_event (get y) ≡ y
unfolding ya_event get
ya_event-get y h = ap (λ p. record y { payload = p }) (payload_of-member_of y.payload h)

-- The length that is written for the `n` elements read from a memory, in a field of 32 or 16 bits, and
-- what a reader takes from the memory written.
module _ (n : ℕ) (memory : List ℕ) (long : n ≤ length memory) where
  length_32 : n < 2 ^ 32 → length (take n memory) % 2 ^ 32 ≡ n
  length_32 h = omega (arith, length-take n memory)

  length_16 : n < 2 ^ 16 → length (take n memory) % 2 ^ 16 ≡ n
  length_16 h = omega (arith, length-take n memory)

  read_again : take n (take n memory ++ 0 ∷ []) ≡ take n memory
  read_again = taken_back (take n memory) n (omega (arith, length-take n memory))

own_part-member_of : (m : Member) → IsWhole m → own_part (member_of (payload_of m)) ≡ own_part m
unfolding own_part IsWhole payload_of member_of get_data get_note_expression_text get_chord
    get_scale
own_part-member_of (note_on e) h = refl
own_part-member_of (note_off e) h = refl
own_part-member_of (data_event e) (long, fits) =
    rw (length_32 e.size e.bytes long fits, read_again e.size e.bytes long) refl
own_part-member_of (poly_pressure e) h = refl
own_part-member_of (note_expression_value e) h = refl
own_part-member_of (note_expression_text e) (long, fits) =
    rw (length_32 e.text_len e.text long fits, read_again e.text_len e.text long) refl
own_part-member_of (chord e) (long, fits) =
    rw
      (
        length_16 e.chord_text_len e.chord_text long fits,
        read_again e.chord_text_len e.chord_text long,
      )
      refl
own_part-member_of (scale e) (long, fits) =
    rw
      (
        length_16 e.scale_text_len e.scale_text long fits,
        read_again e.scale_text_len e.scale_text long,
      )
      refl
own_part-member_of (midi_cc_out e) h = refl
own_part-member_of (unknown t) h = absurd h

-- What a reader of an event can see of it.
unfoldable pub visible : Event → Event
unfolding own_part
visible e = record e { event_member = own_part e.event_member }

pub visible-get : (e : Event) → IsWhole e.event_member → visible (get (ya_event e)) ≡ visible e
unfolding visible ya_event get
visible-get e h = ap (λ m. record e { event_member = m }) (own_part-member_of e.event_member h)
