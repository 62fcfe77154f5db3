-- ===== src/Vst2/Events.antt =====
-- `DynamicVstEvents` (src/common/serialization/vst2.{h,cpp}): MIDI and SysEx events. What an event of the
-- caller has behind its pointer are the bytes of a `VstEvent` and, where its type says SysEx, those that
-- the pointer in it leads to. `none` is an access outside of a vector.
pub mod Overrun
pub mod RoundTrip
use wasivst.Prelude.{
  ℕ, zero, suc, ◌+◌, ◌*◌, ◌-◌, ◌^◌, ◌%◌, Option, none, some, List, [], ◌∷◌, ◌++◌, map, length, take,
  leb, ◌==◌, if◌then◌else◌,
}
use wasivst.Prelude.Bytes.{le_bytes, le_value}
use wasivst.Prelude.Vector.{copy_at}
use wasivst.Prelude.Region.{region}

pub record CEvent : Type 0 where
  pub dump : List ℕ
  pub sysex_dump : List ℕ

-- `sizeof(VstEvent)`, which is that of a `VstMidiEvent`.
abbrev pub event_size : ℕ
event_size = 32

-- `kVstSysExType`
abbrev pub k_vst_sys_ex_type : ℕ
k_vst_sys_ex_type = 6

-- What depends on the compiler: the size of a pointer, and the place of `sysexDump` in a
-- `VstMidiSysExEvent`, behind five numbers and a pointer.
pub record Platform : Type 0 where
  pub pointer_size : ℕ
  pub dump_offset : ℕ

abbrev pub bits32 : Platform
bits32 = record { pointer_size = 4; dump_offset = 24 }

abbrev pub bits64 : Platform
bits64 = record { pointer_size = 8; dump_offset = 32 }

-- The fields `type` and `byteSize`.
unfoldable pub type_of : List ℕ → ℕ
type_of event = le_value (region 0 4 event)

unfoldable pub byte_size_of : List ℕ → ℕ
byte_size_of event = le_value (region 4 4 event)

pub record DynamicVstEvents : Type 0 where
  pub events : List (List ℕ)
  pub sysex_data : List (ℕ × List ℕ)

-- The entry of the event with this index, in front of those that follow.
unfoldable pub with_entry : ℕ → CEvent → List (ℕ × List ℕ) → List (ℕ × List ℕ)
unfolding type_of byte_size_of
with_entry i e rest =
    if type_of e.dump == k_vst_sys_ex_type
    then (i, take (byte_size_of e.dump) e.sysex_dump) ∷ rest
    else rest

unfoldable pub sysex_entries : ℕ → List CEvent → List (ℕ × List ℕ)
unfolding with_entry
sysex_entries i [] = []
sysex_entries i (e ∷ es) = with_entry i e (sysex_entries (suc i) es)

-- The constructor.
unfoldable pub dynamic_vst_events : List CEvent → DynamicVstEvents
unfolding sysex_entries
dynamic_vst_events es = record {
  events = map (λ (e : CEvent). e.dump) es;
  sysex_data = sysex_entries 0 es;
}

-- The events as they lie one behind the other in the vector.
unfoldable pub flat : List (List ℕ) → List ℕ
flat [] = []
flat (d ∷ ds) = d ++ flat ds

-- The loop that sets the pointers; `address` tells where the data of each entry lies.
unfoldable pub set_pointers :
    Platform → (address : ℕ → ℕ) → (k : ℕ) → List (ℕ × List ℕ) → List ℕ → Option (List ℕ)
unfolding copy_at
set_pointers p address k [] memory = some memory
set_pointers p address k (entry ∷ entries) memory =
    let at = entry.0 * event_size + p.dump_offset in
    let rest =
      set_pointers p address (suc k) entries
        (copy_at at (le_bytes p.pointer_size (address k)) memory) in
    if leb (at + p.pointer_size) (length memory) then rest else none

-- `buffer_size`, computed with the numbers of a `size_t`: a `VstEvents` has a number, a pointer and one
-- pointer to an event, and the subtraction may wrap.
unfoldable pub events_buffer_size : Platform → ℕ → ℕ
events_buffer_size p n =
    let w = p.pointer_size in
    let modulus = 2 ^ (8 * w) in (3 * w + ((n + (modulus - 1)) % modulus) * w) % modulus

-- Where the events from an index on lie in the vector, `count` of them.
unfoldable pub event_pointers : (i count : ℕ) → List ℕ
event_pointers i zero = []
event_pointers i (suc k) = i * event_size ∷ event_pointers (suc i) k

-- A `VstEvents` with what its pointers lead to: their places in `memory`.
pub record CEvents : Type 0 where
  pub num_events : ℕ
  pub pointers : List ℕ
  pub memory : List ℕ

c_events : Platform → ℕ → List ℕ → Option CEvents
unfolding events_buffer_size event_pointers
c_events p n memory =
    if leb (2 * p.pointer_size + n * p.pointer_size) (events_buffer_size p n)
    then some (record { num_events = n; pointers = event_pointers 0 n; memory = memory })
    else none

unfoldable pub as_c_events : Platform → (address : ℕ → ℕ) → DynamicVstEvents → Option CEvents
unfolding set_pointers c_events flat
as_c_events p address d = elim (set_pointers p address 0 d.sysex_data (flat d.events)) [
  | none ↦ none
  | some memory ↦ c_events p (length d.events) memory
]
