-- ===== src/Vst2/Events/RoundTrip.antt =====
-- The events of a caller arrive at the plugin, as src/common/serialization/vst2.cpp takes them apart and puts
-- them together.
use mathlib.Core.Path.{subst}
use wasivst.Prelude.{
  ℕ, suc, ◌+◌, ◌*◌, ◌^◌, ◌≡◌, ◌≤◌, ◌<◌, refl, sym, ap, ◌∙◌, Bool, true, false, some, List, [], ◌∷◌,
  ◌++◌, map, length, take, ◌==◌, if◌then◌else◌, arith, inl, inr, Bool-cases, append_assoc, le→leb,
  length-append, length-take, take_all, length-map,
}
use wasivst.Prelude.Bytes.{le_bytes, le_value, length-le_bytes, le_value-le_bytes}
use wasivst.Prelude.Vector.{copy_at, length-copy_at, copy_at-append_add, copy_at-append_le}
use wasivst.Prelude.Region.{region, region-copy_at, region-copy-Beside, region-element}
use wasivst.Prelude.Wrap.{size_wrap}
use wasivst.Vst2.Events.{
  CEvent, Platform, event_size, k_vst_sys_ex_type, type_of, byte_size_of, sysex_entries, with_entry,
  dynamic_vst_events, flat, set_pointers, events_buffer_size, event_pointers, as_c_events, c_events,
  CEvents,
}

abbrev is_sysex : List ℕ → Bool
is_sysex dump = type_of dump == k_vst_sys_ex_type

-- What an event says: all of its bytes, or what is in front of the pointer and the bytes behind it.
pub data Message : Type 0 where
  midi : List ℕ → Message
  sysex : (front payload : List ℕ) → Message

-- Where `leads_to` tells what the pointer of an event leads to.
unfoldable pub message : Platform → (leads_to : List ℕ) → List ℕ → Message
unfolding type_of byte_size_of
message p leads_to dump =
    if is_sysex dump
    then sysex (take p.dump_offset dump) (take (byte_size_of dump) leads_to)
    else midi dump

-- The messages of the caller, and those that a plugin reads, to which `heap` tells what lies at an
-- address.
unfoldable pub sent_messages : Platform → List CEvent → List Message
unfolding message
sent_messages p es = map (λ (e : CEvent). message p e.sysex_dump e.dump) es

read_message : Platform → (heap : ℕ → List ℕ) → List ℕ → Message
unfolding message
read_message p heap dump =
    message p (heap (le_value (region p.dump_offset p.pointer_size dump))) dump

unfoldable pub seen_messages : Platform → (heap : ℕ → List ℕ) → CEvents → List Message
unfolding read_message
seen_messages p heap c = map (λ at. read_message p heap (region at event_size c.memory)) c.pointers

-- The pointer lies within the event, behind its type and size.
pub record IsRoomy (p : Platform) : Type 0 where
  pub behind_size : 8 ≤ p.dump_offset
  pub inside : p.dump_offset + p.pointer_size ≤ event_size

abbrev pub AreSized : List CEvent → Type 0
AreSized [] = Unit
AreSized (e ∷ es) = (length e.dump ≡ event_size) × AreSized es

-- The data of the entries from the `k`-th on lie where their addresses say.
abbrev pub Holds :
    Platform → (heap : ℕ → List ℕ) → (address : ℕ → ℕ) → ℕ → List (ℕ × List ℕ) → Type 0
Holds p heap address k [] = Unit
Holds p heap address k (entry ∷ entries) =
    (address k < 256 ^ p.pointer_size)
    × (heap (address k) ≡ entry.1)
    × Holds p heap address (suc k) entries

-- The events with their pointers set.
with_pointer : Platform → ℕ → List ℕ → List ℕ
with_pointer p a dump = copy_at p.dump_offset (le_bytes p.pointer_size a) dump

patched : Platform → (address : ℕ → ℕ) → ℕ → List CEvent → List (List ℕ)
patched p address k [] = []
patched p address k (e ∷ es) =
    let set = with_pointer p (address k) e.dump ∷ patched p address (suc k) es in
    let kept = e.dump ∷ patched p address k es in if is_sysex e.dump then set else kept

dumps : List CEvent → List (List ℕ)
dumps es = map (λ (e : CEvent). e.dump) es

module _ (p : Platform) (roomy : IsRoomy p) (heap : ℕ → List ℕ) (address : ℕ → ℕ) where
  pointer_length : (a : ℕ) → length (le_bytes p.pointer_size a) ≡ p.pointer_size
  pointer_length a = length-le_bytes p.pointer_size a

  length-with_pointer :
      (a : ℕ) (d : List ℕ) → length d ≡ event_size → length (with_pointer p a d) ≡ event_size
  unfolding with_pointer
  length-with_pointer a d h =
      length-copy_at p.dump_offset (le_bytes p.pointer_size a) d
        (omega (arith, h, pointer_length a, roomy.inside))
      ∙ h

  copy-with_pointer :
      (a i : ℕ) (before d rest : List ℕ)
      → length before ≡ i * event_size
      → length d ≡ event_size
      → copy_at (i * event_size + p.dump_offset) (le_bytes p.pointer_size a) (before ++ (d ++ rest))
        ≡ before ++ (with_pointer p a d ++ rest)
  unfolding with_pointer
  copy-with_pointer a i before d rest e h =
      let b = le_bytes p.pointer_size a in
      ap (λ n. copy_at (n + p.dump_offset) b (before ++ (d ++ rest))) (sym e)
      ∙ (copy_at-append_add p.dump_offset b before (d ++ rest)
          ∙ ap (λ xs. before ++ xs)
              (copy_at-append_le p.dump_offset b d rest
                (omega (arith, h, pointer_length a, roomy.inside))))

  -- Another event in front of those that are still looked at.
  length-before :
      (i : ℕ) (before d : List ℕ)
      → length before ≡ i * event_size
      → length d ≡ event_size
      → length (before ++ d) ≡ suc i * event_size
  length-before i before d e h = omega (arith, length-append before d, e, h)

  set_pointers_lem :
      (k i : ℕ) (before : List ℕ) (es : List CEvent)
      → length before ≡ i * event_size
      → AreSized es
      → set_pointers p address k (sysex_entries i es) (before ++ flat (dumps es))
        ≡ some (before ++ flat (patched p address k es))
  unfolding set_pointers sysex_entries with_entry flat patched dumps
  set_pointers_lem k i before [] e h = refl
  set_pointers_lem k i before (c ∷ cs) e (h, hs) = elim (Bool-cases (is_sysex c.dump)) [
    | inl is ↦
        let d' = with_pointer p (address k) c.dump in
        let rest = flat (dumps cs) in
        let room : i * event_size + p.dump_offset + p.pointer_size
            ≤ length (before ++ (c.dump ++ rest)) =
          omega (
            arith,
            e,
            h,
            roomy.inside,
            length-append before (c.dump ++ rest),
            length-append c.dump rest,
          ) in
        let ih =
          set_pointers_lem (suc k) (suc i) (before ++ d') cs
            (length-before i before d' e (length-with_pointer (address k) c.dump h)) hs in
        rw
          (
            is,
            set_pointers,
            le→leb _ _ room,
            copy-with_pointer (address k) i before c.dump rest e h,
            ← (append_assoc before d' rest),
            ih,
            append_assoc before d' (flat (patched p address (suc k) cs)),
          )
          refl
    | inr other ↦
        let ih =
          set_pointers_lem k (suc i) (before ++ c.dump) cs (length-before i before c.dump e h) hs in
        rw
          (
            other,
            ← (append_assoc before c.dump (flat (dumps cs))),
            ih,
            append_assoc before c.dump (flat (patched p address k cs)),
          )
          refl
  ]

  region-with_pointer :
      (a at n : ℕ) (d : List ℕ)
      → length d ≡ event_size
      → at + n ≤ p.dump_offset
      → region at n (with_pointer p a d) ≡ region at n d
  unfolding with_pointer
  region-with_pointer a at n d h before =
      region-copy-Beside at n p.dump_offset (le_bytes p.pointer_size a) d
        (omega (arith, h, pointer_length a, roomy.inside)) (inl before)

  pointer-with_pointer :
      (a : ℕ) (d : List ℕ)
      → length d ≡ event_size
      → a < 256 ^ p.pointer_size
      → le_value (region p.dump_offset p.pointer_size (with_pointer p a d)) ≡ a
  unfolding with_pointer
  pointer-with_pointer a d h small =
      let b = le_bytes p.pointer_size a in
      ap (λ n. le_value (region p.dump_offset n (copy_at p.dump_offset b d)))
        (sym (pointer_length a))
      ∙ (ap le_value
            (region-copy_at p.dump_offset b d (omega (arith, h, pointer_length a, roomy.inside)))
          ∙ le_value-le_bytes p.pointer_size a small)

  read_sysex :
      (a : ℕ) (e : CEvent)
      → length e.dump ≡ event_size
      → is_sysex e.dump ≡ true
      → a < 256 ^ p.pointer_size
      → heap a ≡ take (byte_size_of e.dump) e.sysex_dump
      → read_message p heap (with_pointer p a e.dump) ≡ message p e.sysex_dump e.dump
  unfolding read_message message byte_size_of type_of
  read_sysex a e h is small found =
      let n = byte_size_of e.dump in
      let bound = roomy.behind_size in
      let payload : take n (take n e.sysex_dump) ≡ take n e.sysex_dump =
        take_all n (take n e.sysex_dump) (omega (arith, length-take n e.sysex_dump)) in
      rw
        (
          pointer-with_pointer a e.dump h small,
          region-with_pointer a 0 4 e.dump h (omega (arith, bound)),
          region-with_pointer a 4 4 e.dump h (omega (arith, bound)),
          region-with_pointer a 0 p.dump_offset e.dump h (omega arith),
          is,
          found,
          payload,
        )
        refl

  read_midi :
      (e : CEvent)
      → is_sysex e.dump ≡ false
      → read_message p heap e.dump ≡ message p e.sysex_dump e.dump
  unfolding read_message message type_of
  read_midi e other = rw (other) refl

  -- The messages that are read at the places of some events, in a memory that has them behind others.
  abbrev at_places : List ℕ → ℕ → List CEvent → List Message
  at_places memory i es =
      map (λ at. read_message p heap (region at event_size memory)) (event_pointers i (length es))

  at_places_step :
      (k i : ℕ) (before d : List ℕ) (e : CEvent) (es : List CEvent) (rest : List ℕ)
      → length before ≡ i * event_size
      → length d ≡ event_size
      → read_message p heap d ≡ message p e.sysex_dump e.dump
      → at_places ((before ++ d) ++ rest) (suc i) es ≡ sent_messages p es
      → at_places (before ++ (d ++ rest)) i (e ∷ es) ≡ sent_messages p (e ∷ es)
  unfolding event_pointers sent_messages
  at_places_step k i before d e es rest b h first others =
      rw (region-element (i * event_size) event_size before d rest b h, first)
        (ap (λ ms. message p e.sysex_dump e.dump ∷ ms)
          (ap (λ m. at_places m (suc i) es) (sym (append_assoc before d rest)) ∙ others))

  at_places_lem :
      (k i : ℕ) (before : List ℕ) (es : List CEvent)
      → length before ≡ i * event_size
      → AreSized es
      → Holds p heap address k (sysex_entries i es)
      → at_places (before ++ flat (patched p address k es)) i es ≡ sent_messages p es
  unfolding event_pointers sent_messages sysex_entries with_entry patched flat
  at_places_lem k i before [] b h holds = refl
  at_places_lem k i before (e ∷ es) b (h, hs) holds = elim (Bool-cases (is_sysex e.dump)) [
    | inl is ↦
        let d = with_pointer p (address k) e.dump in
        let size = length-with_pointer (address k) e.dump h in
        let entries : sysex_entries i (e ∷ es)
            ≡ (i, take (byte_size_of e.dump) e.sysex_dump) ∷ sysex_entries (suc i) es =
          rw (is) refl in
        let (small, found, holds') = subst (Holds p heap address k) entries holds in
        let set : patched p address k (e ∷ es) ≡ d ∷ patched p address (suc k) es = rw (is) refl in
        ap (λ ds. at_places (before ++ flat ds) i (e ∷ es)) set
        ∙ at_places_step k i before d e es (flat (patched p address (suc k) es)) b size
            (read_sysex (address k) e h is small found)
            (at_places_lem (suc k) (suc i) (before ++ d) es (length-before i before d b size) hs
              holds')
    | inr other ↦
        let entries : sysex_entries i (e ∷ es) ≡ sysex_entries (suc i) es = rw (other) refl in
        let kept : patched p address k (e ∷ es) ≡ e.dump ∷ patched p address k es =
          rw (other) refl in
        ap (λ ds. at_places (before ++ flat ds) i (e ∷ es)) kept
        ∙ at_places_step k i before e.dump e es (flat (patched p address k es)) b h
            (read_midi e other)
            (at_places_lem k (suc i) (before ++ e.dump) es (length-before i before e.dump b h) hs
              (subst (Holds p heap address k) entries holds))
  ]

events_buffer_size_lem :
    (p : Platform) (n : ℕ)
    → 2 * p.pointer_size + n * p.pointer_size < 2 ^ (8 * p.pointer_size)
    → events_buffer_size p n ≡ 2 * p.pointer_size + n * p.pointer_size
unfolding events_buffer_size
events_buffer_size_lem p n h =
    let w = p.pointer_size in
    size_wrap (2 ^ (8 * w)) w (3 * w) n 1 (omega (arith, h)) (omega arith) (omega (arith, h))
    ∙ omega arith

-- Events of a caller, each of the size of a `VstEvent`; a platform where the pointer in a SysEx event lies
-- within that size and behind the type and the number of bytes; a memory that is large enough for the
-- pointers to the events, and in which the data of the SysEx events lie at their addresses. Taken apart
-- and put together again, they are a `VstEvents` with as many events, no access goes outside of the
-- vectors, also for no events at all, and from its pointers a plugin reads the messages of the caller
-- in order: each event that is not SysEx byte by byte, and each that is with the bytes of its data.
pub seen_messages-as_c_events :
    (p : Platform)
    → IsRoomy p
    → (heap : ℕ → List ℕ) (address : ℕ → ℕ) (es : List CEvent)
    → 2 * p.pointer_size + length es * p.pointer_size < 2 ^ (8 * p.pointer_size)
    → AreSized es
    → Holds p heap address 0 (dynamic_vst_events es).sysex_data
    → (c : CEvents) × (as_c_events p address (dynamic_vst_events es) ≡ some c)
      × (c.num_events ≡ length es)
      × (seen_messages p heap c ≡ sent_messages p es)
unfolding as_c_events dynamic_vst_events c_events seen_messages dumps
seen_messages-as_c_events p roomy heap address es fits sized holds =
    let n = length es in
    let size = 2 * p.pointer_size + n * p.pointer_size in
    let memory = flat (patched p address 0 es) in
    let same : length (dumps es) ≡ n = length-map es (λ (e : CEvent). e.dump) in
    let set = set_pointers_lem p roomy heap address 0 0 [] es refl sized in
    (
      record { num_events = n; pointers = event_pointers 0 n; memory = memory },
      rw (set, as_c_events, same, events_buffer_size_lem p n fits, le→leb size size (omega arith))
          refl,
      refl,
      at_places_lem p roomy heap address 0 0 [] es refl sized holds,
    )
