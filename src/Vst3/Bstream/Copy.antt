-- ===== src/Vst3/Bstream/Copy.antt =====
-- The constructor from a stream and `write_back` (src/common/serialization/vst3/bstream.cpp), on a
-- stream that is a `YaBStream` itself.
use wasivst.Prelude.{
  ℕ, zero, suc, ◌+◌, ◌-◌, ◌≡◌, refl, sym, ap, ◌∙◌, none, some, List, [], arith, length, take, drop,
  replicate, take_all, drop_all, take-append-drop, append-nil, length-drop, length-replicate, min,
  le→not_ltb,
}
use wasivst.Prelude.Vector.{copy_at}
use wasivst.Prelude.Int.{pos, sub_ℕ}
use wasivst.Vst3.Bstream.{
  YaBstream, size, write, seek, seek_end, seek_target, tell, result_ok, as_stream, copy_rest,
  copy_found, copy_stream, write_back,
}
use wasivst.Vst3.Bstream.Laws.{InBounds, read_lem, write_lem, seek_within}

abbrev at_end : YaBstream → YaBstream
at_end s = record s { seek_position = size s }

seek-end : (s : YaBstream) → seek (pos 0) seek_end s ≡ ((result_ok, some (size s)), at_end s)
unfolding seek seek_target
seek-end s = let e : min (size s + 0) (size s) ≡ size s = omega arith in rw e refl

copy_at_whole : (xs : List ℕ) (n : ℕ) → length xs ≡ n → copy_at 0 xs (replicate n 0) ≡ xs
unfolding copy_at
copy_at_whole xs n h =
    rw
      (drop_all {A = ℕ} (0 + length xs) (replicate n 0)
        (omega (arith, length-replicate {A = ℕ} n 0)))
      (append-nil xs)

copy_rest_lem :
    (s : YaBstream) (m : ℕ)
    → InBounds s
    → size s - s.seek_position ≡ m
    → copy_rest as_stream s.seek_position (pos m) (at_end s)
      ≡ (drop s.seek_position s.buffer, at_end s)
unfolding copy_rest
copy_rest_lem s zero h e =
    ap (λ xs. (xs, at_end s)) (sym (drop_all s.seek_position s.buffer (omega arith)))
copy_rest_lem s (suc k) h e =
    let left = drop s.seek_position s.buffer in
    let count : length left ≡ suc k = omega (arith, length-drop s.seek_position s.buffer) in
    let (copied, after, _) = read_lem (suc k) s h in
    let whole : take (suc k) left ≡ left = take_all (suc k) left (omega arith) in
    let end : s.seek_position + min (suc k) (size s - s.seek_position) ≡ size s =
      omega (arith, h.within) in
    rw
      (
        seek_within s.seek_position (at_end s) h.within,
        copied ∙ whole,
        after,
        end,
        copy_at_whole left (suc k) count,
      )
      refl

-- The copy of a stream that stands within its buffer holds the bytes from there on and stands at its
-- own start; the stream that was copied is left as it was.
pub copy_stream_lem :
    (s : YaBstream)
    → InBounds s
    → copy_stream as_stream s
      ≡ (record { buffer = drop s.seek_position s.buffer; seek_position = 0; file_name = none }, s)
unfolding copy_stream copy_found tell
copy_stream_lem s h =
    let left : sub_ℕ (size s) s.seek_position ≡ pos (size s - s.seek_position) =
      rw (le→not_ltb (size s) s.seek_position h.within) refl in
    rw (seek-end s, left, copy_rest_lem s _ h refl, seek_within s.seek_position (at_end s) h.within)
      refl

-- Written back to the stream that it was copied from, a copy changes nothing but that the stream then
-- stands at its end.
pub copy-write_back :
    (s : YaBstream)
    → InBounds s
    → let (copy, host) = copy_stream as_stream s in
      write_back as_stream copy host ≡ record s { seek_position = size s }
unfolding write_back
copy-write_back s h =
    let left = drop s.seek_position s.buffer in
    let count = length-drop s.seek_position s.buffer in
    let behind : drop (s.seek_position + length left) s.buffer ≡ [] =
      drop_all (s.seek_position + length left) s.buffer (omega (arith, count)) in
    let end : s.seek_position + length left ≡ size s = omega (arith, count, h.within) in
    let written : (write (some left) s).1 ≡ record s { seek_position = size s } =
      rw
        (
          write_lem left s h,
          behind,
          end,
          append-nil left,
          take-append-drop s.seek_position s.buffer,
        )
        refl in
    rw (copy_stream_lem s h) written
