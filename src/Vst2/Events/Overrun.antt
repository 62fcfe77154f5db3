-- ===== src/Vst2/Events/Overrun.antt =====
-- Where the pointer of a SysEx event does not lie within the size of a `VstEvent`, as on a platform with
-- pointers of eight bytes (src/common/serialization/vst2.cpp, src/include/vestige/aeffectx.h).
use wasivst.Prelude.{
  ℕ, suc, ◌+◌, ◌*◌, ◌≡◌, ◌<◌, refl, ap, true, none, List, [], ◌∷◌, ◌++◌, map, length, ◌==◌, arith,
  inl, inr, Bool-cases, leb, leb→le, length-append, take,
}
use wasivst.Prelude.Bytes.{le_bytes, length-le_bytes}
use wasivst.Prelude.Vector.{copy_at, length-copy_at}
use wasivst.Vst2.Events.{
  CEvent, Platform, event_size, k_vst_sys_ex_type, type_of, byte_size_of, sysex_entries, with_entry,
  dynamic_vst_events, flat, set_pointers, as_c_events,
}
use wasivst.Vst2.Events.RoundTrip.{AreSized}

sysex_entries-append :
    (i : ℕ) (es : List CEvent) (e : CEvent)
    → type_of e.dump == k_vst_sys_ex_type ≡ true
    → sysex_entries i (es ++ e ∷ [])
      ≡ sysex_entries i es ++ (i + length es, take (byte_size_of e.dump) e.sysex_dump) ∷ []
unfolding sysex_entries with_entry
sysex_entries-append i [] e h =
    rw (h) (ap (λ j. (j, take (byte_size_of e.dump) e.sysex_dump) ∷ []) (omega arith))
sysex_entries-append i (c ∷ cs) e h =
    let ih = sysex_entries-append (suc i) cs e h in
    let j : suc i + length cs ≡ i + suc (length cs) = omega arith in
    elim (Bool-cases (type_of c.dump == k_vst_sys_ex_type)) [
      | inl is ↦ rw (is, ih, j) refl
      | inr other ↦ rw (other, ih, j) refl
    ]

set_pointers_overrun :
    (p : Platform) (address : ℕ → ℕ) (k : ℕ) (entries : List (ℕ × List ℕ)) (last : ℕ × List ℕ)
    (memory : List ℕ)
    → length memory < last.0 * event_size + p.dump_offset + p.pointer_size
    → set_pointers p address k (entries ++ last ∷ []) memory ≡ none
unfolding set_pointers
set_pointers_overrun p address k [] last memory h = ground arith
set_pointers_overrun p address k (entry ∷ entries) last memory h =
    let at = entry.0 * event_size + p.dump_offset in
    let b = le_bytes p.pointer_size (address k) in
    let w = length-le_bytes p.pointer_size (address k) in
    elim (Bool-cases (leb (at + p.pointer_size) (length memory))) [
      | inl inside ↦ rw (inside) (
          set_pointers_overrun p address (suc k) entries last (copy_at at b memory)
            (omega (arith, h, length-copy_at at b memory (omega (arith, w, leb→le _ _ inside)))))
      | inr outside ↦ rw (outside) refl
    ]

length-flat :
    (es : List CEvent)
    → AreSized es
    → length (flat (map (λ (e : CEvent). e.dump) es)) ≡ length es * event_size
unfolding flat
length-flat [] h = refl
length-flat (e ∷ es) (h, hs) =
    omega
      (arith, length-append e.dump (flat (map (λ (e : CEvent). e.dump) es)), h, length-flat es hs)

AreSized-append :
    (es : List CEvent) (e : CEvent)
    → AreSized es
    → length e.dump ≡ event_size
    → AreSized (es ++ e ∷ [])
AreSized-append [] e hs h = (h, tt)
AreSized-append (c ∷ cs) e (h', hs) h = (h', AreSized-append cs e hs h)

-- Where the pointer in a SysEx event ends behind the size of a `VstEvent`: of events of that size of
-- which the last is SysEx, putting them together writes outside of the vector of the events.
pub as_c_events_overrun :
    (p : Platform) (address : ℕ → ℕ) (es : List CEvent) (e : CEvent)
    → event_size < p.dump_offset + p.pointer_size
    → AreSized es
    → length e.dump ≡ event_size
    → type_of e.dump ≡ k_vst_sys_ex_type
    → as_c_events p address (dynamic_vst_events (es ++ e ∷ [])) ≡ none
unfolding as_c_events dynamic_vst_events
as_c_events_overrun p address es e h sized size is =
    let all = map (λ (c : CEvent). c.dump) (es ++ e ∷ []) in
    let n : length (es ++ e ∷ []) ≡ suc (length es) = omega (arith, length-append es (e ∷ [])) in
    let total = length-flat (es ++ e ∷ []) (AreSized-append es e sized size) in
    rw
      (
        sysex_entries-append 0 es e (ground arith),
        as_c_events,
        set_pointers_overrun p address 0 (sysex_entries 0 es)
            (0 + length es, take (byte_size_of e.dump) e.sysex_dump) (flat all)
            (omega (arith, h, total, n)),
      )
      refl
