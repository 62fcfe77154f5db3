-- ===== src/Vst3/Bstream/Laws.antt =====
-- What src/common/serialization/vst3/bstream.cpp promises of its operations.
use Prim.Native.Nat.{max}
use wasivst.Prelude.{
  ℕ, zero, suc, ◌+◌, ◌-◌, ◌≤◌, ◌<◌, ◌≡◌, refl, ap, ◌∙◌, Bool, true, false, Option, none, some, List,
  [], ◌∷◌, ◌++◌, arith, ltb, length, take, drop, replicate, length-append, length-take, length-drop,
  length-replicate, take_all, drop_all, take-append_length, drop-append_length, min, Bool-cases,
  inl, inr, lt→ltb, le→not_ltb, ltb→lt, take-append_le, take-min,
}
use wasivst.Prelude.Vector.{resize, copy_at, length-resize}
use wasivst.Prelude.Int.{ℤ, pos, negsuc, sub_ℕ, add_offset, clamp}
use wasivst.Vst3.Bstream.{
  result_ok, result_false, YaBstream, size, grow, read_count, read, write, SeekMode, seek_set,
  seek_cur, seek_end, other_mode, seek_target, seek, set_stream_size,
}

-- The position lies within the buffer.
pub record InBounds (s : YaBstream) : Type 0 where
  pub within : s.seek_position ≤ size s

pub length-grow : (end : ℕ) (xs : List ℕ) → length (grow end xs) ≡ max end (length xs)
unfolding grow
length-grow end xs = elim (Bool-cases (ltb (length xs) end)) [
  | inl short ↦ rw short (omega (arith, length-resize end xs, ltb→lt _ _ short))
  | inr long ↦ rw long (ground arith)
]

-- What a stream holds after a read of at most `m` bytes, where so many are left.
read_count-pos :
    (m : ℕ) (s : YaBstream)
    → let (r, s') = read_count (pos m) s in
      (r.copied ≡ take m (drop s.seek_position s.buffer))
      × (s' ≡ record s { seek_position = s.seek_position + m })
      × (r.count ≡ some (pos m))
unfolding read_count
read_count-pos zero s = (refl, ap (λ p. record s { seek_position = p }) (omega arith), refl)
read_count-pos (suc m) s = (refl, refl, refl)

-- A read within the buffer copies the bytes from the position on, as many as there are of those
-- asked for, moves behind them and changes nothing else.
pub read_lem :
    (n : ℕ) (s : YaBstream)
    → InBounds s
    → let (r, s') = read true (pos n) s in
      let m = min n (size s - s.seek_position) in
      (r.copied ≡ take n (drop s.seek_position s.buffer))
      × (s' ≡ record s { seek_position = s.seek_position + m })
      × (r.count ≡ some (pos m))
unfolding read
read_lem n s h =
    let m = min n (size s - s.seek_position) in
    let left : sub_ℕ (size s) s.seek_position ≡ pos (size s - s.seek_position) =
      rw (le→not_ltb (size s) s.seek_position h.within) refl in
    let short : take m (drop s.seek_position s.buffer) ≡ take n (drop s.seek_position s.buffer) =
      rw length-drop at (take-min n (drop s.seek_position s.buffer)) in
    let (copied, state, count) = read_count-pos m s in rw left (copied ∙ short, state, count)

-- A write within the buffer, or up to any place behind its end, replaces the bytes at the position
-- by those written; the bytes before and behind them stay, and the position is behind them.
pub write_lem :
    (bytes : List ℕ) (s : YaBstream)
    → InBounds s
    → write (some bytes) s ≡ (
      result_ok,
      record s {
        buffer =
            take s.seek_position s.buffer
            ++ (bytes ++ drop (s.seek_position + length bytes) s.buffer);
        seek_position = s.seek_position + length bytes;
      },
    )
unfolding write copy_at grow resize
write_lem bytes s h =
    let end = s.seek_position + length bytes in
    elim (Bool-cases (ltb (size s) end)) [
      | inl short ↦
          let lt = ltb→lt _ _ short in
          let whole : take end s.buffer ≡ s.buffer = take_all end s.buffer (omega arith) in
          let none_left : drop end s.buffer ≡ [] = drop_all end s.buffer (omega arith) in
          let front =
            take-append_le s.seek_position s.buffer (replicate (end - size s) 0) h.within in
          let back = drop_all end (s.buffer ++ replicate (end - size s) 0) (
            omega (
              arith,
              length-append s.buffer (replicate (end - size s) 0),
              length-replicate {A = ℕ} (end - size s) 0,
            )) in
          rw (short, whole, front, back, none_left) refl
      | inr long ↦ rw long refl
    ]

clamp-le : (target : ℤ) (n : ℕ) → clamp target n ≤ n
clamp-le (pos t) n = omega arith
clamp-le (negsuc t) n = omega arith

-- One call of `read`, `write` or `seek`, with whatever arguments.
pub data Call : Type 0 where
  reads : Bool → ℤ → Call
  writes : Option (List ℕ) → Call
  seeks : ℤ → SeekMode → Call

unfoldable pub call : Call → YaBstream → YaBstream
call (reads has_buffer n) s = (read has_buffer n s).1
call (writes bytes) s = (write bytes s).1
call (seeks offset mode) s = (seek offset mode s).1

unfoldable pub calls : List Call → YaBstream → YaBstream
unfolding call
calls [] s = s
calls (c ∷ cs) s = calls cs (call c s)

read-InBounds :
    (has_buffer : Bool) (n : ℤ) (s : YaBstream) → InBounds s → InBounds (read has_buffer n s).1
read-InBounds false n s h = unfold read in h
read-InBounds true (negsuc n) s h = unfold read in h
read-InBounds true (pos n) s h = rw (read_lem n s h).1 (record { within = h' })
  where
    h' : s.seek_position + min n (size s - s.seek_position) ≤ size s
    h' = omega (arith, h.within)

write-InBounds : (bytes : Option (List ℕ)) (s : YaBstream) → InBounds s → InBounds (write bytes s).1
write-InBounds none s h = unfold write in h
write-InBounds (some bytes) s h = rw (write_lem bytes s h) (record {
  within = omega (
    arith,
    h.within,
    length-append (take s.seek_position s.buffer)
        (bytes ++ drop (s.seek_position + length bytes) s.buffer),
    length-append bytes (drop (s.seek_position + length bytes) s.buffer),
    length-take s.seek_position s.buffer,
  );
})

seek-InBounds :
    (offset : ℤ) (mode : SeekMode) (s : YaBstream) → InBounds s → InBounds (seek offset mode s).1
unfolding seek seek_target
seek-InBounds offset seek_set s h = record { within = clamp-le offset (size s) }
seek-InBounds offset seek_cur s h = record {
  within = clamp-le (add_offset s.seek_position offset) (size s);
}
seek-InBounds offset seek_end s h = record {
  within = clamp-le (add_offset (size s) offset) (size s);
}
seek-InBounds offset (other_mode m) s h = h

-- Whatever reads, writes and seeks are made, also with invalid arguments, a position within the
-- buffer stays within the buffer.
pub calls-InBounds : (cs : List Call) (s : YaBstream) → InBounds s → InBounds (calls cs s)
unfolding calls call
calls-InBounds [] s h = h
calls-InBounds (reads b n ∷ cs) s h = calls-InBounds cs _ (read-InBounds b n s h)
calls-InBounds (writes bytes ∷ cs) s h = calls-InBounds cs _ (write-InBounds bytes s h)
calls-InBounds (seeks offset mode ∷ cs) s h = calls-InBounds cs _ (seek-InBounds offset mode s h)

-- A seek to a place within the buffer goes there.
pub seek_within :
    (p : ℕ) (s : YaBstream)
    → p ≤ size s
    → seek (pos p) seek_set s ≡ ((result_ok, some p), record s { seek_position = p })
unfolding seek seek_target
seek_within p s h = let e : min p (size s) ≡ p = omega arith in rw e refl

-- What was written is read back, after a seek to the place where it was written, and the position is
-- then behind it again.
pub write-seek-read :
    (bytes : List ℕ) (s : YaBstream)
    → InBounds s
    → let written = (write (some bytes) s).1 in
      let there = (seek (pos s.seek_position) seek_set written).1 in
      let (r, after) = read true (pos (length bytes)) there in
      (r.copied ≡ bytes) × (after ≡ written)
write-seek-read bytes s h =
    let p = s.seek_position in
    let rest = drop (p + length bytes) s.buffer in
    let front : length (take p s.buffer) ≡ p = omega (arith, length-take p s.buffer, h.within) in
    let len : length (take p s.buffer ++ (bytes ++ rest)) ≡ p + (length bytes + length rest) =
      omega
        (arith, front, length-append (take p s.buffer) (bytes ++ rest), length-append bytes rest) in
    let there : YaBstream = record s { buffer = take p s.buffer ++ (bytes ++ rest) } in
    let back : drop p there.buffer ≡ bytes ++ rest =
      rw front at (drop-append_length (take p s.buffer) (bytes ++ rest)) in
    let fits : p ≤ size there = omega (arith, len) in
    let all : min (length bytes) (size there - p) ≡ length bytes = omega (arith, len) in
    let (copied, after, count) = read_lem (length bytes) there (record { within = fits }) in
    rw (write_lem bytes s h, seek_within p (record there { seek_position = p + length bytes }) fits)
      (
        copied ∙ rw back (take-append_length bytes rest),
        after ∙ ap (λ m. record there { seek_position = p + m }) all,
      )

-- `setStreamSize` does not move the position: once it lies behind the end, a read copies nothing and
-- reports a negative number of bytes, how far it lies behind the end.
pub read_behind_end :
    (n k : ℕ) (s : YaBstream)
    → n < s.seek_position
    → (read true (pos k) (set_stream_size n s).1).0 ≡ record {
      result = result_false;
      copied = [];
      count = some (negsuc (s.seek_position - n - 1));
    }
unfolding read read_count set_stream_size
read_behind_end n k s h = rw length-resize (rw (lt→ltb n s.seek_position h) refl)
