-- ===== src/Vst3/Bstream.antt =====
-- src/common/serialization/vst3/bstream.{h,cpp}: a byte stream over a vector. `seek_position_` is
-- signed in the source, and never negative: it is only set by a clamp at 0 and by adding a count
-- that is not. A null pointer is a flag. Offsets are exact integers.
pub mod Laws
pub mod Copy
use wasivst.Prelude.{
  ℕ, zero, suc, ◌+◌, ◌-◌, Bool, true, false, Option, none, some, List, [], ◌∷◌, ◌++◌, ltb,
  if◌then◌else◌, length, take, drop, replicate,
}
use wasivst.Prelude.Vector.{resize, copy_at}
use wasivst.Prelude.Int.{ℤ, pos, negsuc, sub_ℕ, add_offset, min_ℤ, clamp}

-- The `tresult`s that the stream returns.
pub data TResult : Type 0 where
  result_ok result_false invalid_argument : TResult

-- `buffer_` and `seek_position_`, and the name of the stream.
pub record YaBstream : Type 0 where
  pub buffer : List ℕ
  pub seek_position : ℕ
  pub file_name : Option (List ℕ)

abbrev pub size : YaBstream → ℕ
size s = length s.buffer

-- `if (end > buffer_.size()) buffer_.resize(end)`
unfoldable pub grow : ℕ → List ℕ → List ℕ
unfolding resize
grow end xs = if ltb (length xs) end then resize end xs else xs

-- What `read` returns: its result, the bytes copied, and `numBytesRead` where it is set.
pub record Read : Type 0 where
  pub result : TResult
  pub copied : List ℕ
  pub count : Option ℤ

-- The bytes of a positive count; otherwise nothing moves.
unfoldable pub read_count : ℤ → YaBstream → Read × YaBstream
read_count (pos (suc k)) s =
    let n = suc k in
    (
      record {
        result = result_ok;
        copied = take n (drop s.seek_position s.buffer);
        count = some (pos n);
      },
      record s { seek_position = s.seek_position + n },
    )
read_count n s = (record { result = result_false; copied = []; count = some n }, s)

unfoldable pub read : Bool → ℤ → YaBstream → Read × YaBstream
unfolding read_count
read true (pos n) s = read_count (min_ℤ (pos n) (sub_ℕ (size s) s.seek_position)) s
read _ n s = (record { result = invalid_argument; copied = []; count = none }, s)

-- `numBytes` is the length of the bytes; a null buffer or a negative count is `none`.
unfoldable pub write : Option (List ℕ) → YaBstream → TResult × YaBstream
unfolding grow copy_at
write none s = (invalid_argument, s)
write (some bytes) s =
    let end = s.seek_position + length bytes in
    (
      result_ok,
      record s { buffer = copy_at s.seek_position bytes (grow end s.buffer); seek_position = end },
    )

pub data SeekMode : Type 0 where
  seek_set seek_cur seek_end : SeekMode
  other_mode : ℕ → SeekMode

-- The position before it is clamped; the sum is one of integers, where the code adds 64 bits.
unfoldable pub seek_target : ℤ → SeekMode → YaBstream → Option ℤ
seek_target offset seek_set s = some offset
seek_target offset seek_cur s = some (add_offset s.seek_position offset)
seek_target offset seek_end s = some (add_offset (size s) offset)
seek_target offset (other_mode m) s = none

-- The second component is `*result`.
unfoldable pub seek : ℤ → SeekMode → YaBstream → (TResult × Option ℕ) × YaBstream
unfolding seek_target
seek offset mode s = elim (seek_target offset mode s) [
  | none ↦ ((invalid_argument, none), s)
  | some target ↦
      let p = clamp target (size s) in ((result_ok, some p), record s { seek_position = p })
]

unfoldable pub tell : YaBstream → ℕ
tell s = s.seek_position

unfoldable pub get_stream_size : YaBstream → TResult × ℕ
get_stream_size s = (result_ok, size s)

unfoldable pub set_stream_size : ℕ → YaBstream → TResult × YaBstream
unfolding resize
set_stream_size n s = (result_ok, record s { buffer = resize n s.buffer })

-- `getFileName`, with the characters up to and with the terminating 0.
unfoldable pub get_file_name : Bool → YaBstream → TResult × List ℕ
get_file_name true s = elim s.file_name [
  | none ↦ (result_false, [])
  | some name ↦ (result_ok, name ++ 0 ∷ [])
]
get_file_name false s = (result_false, [])

-- The calls of `IBStream` that the bridge makes on a host's stream, whose state is `T`.
pub record IbStream (T : Type 0) : Type 0 where
  pub tell_ : T → ℕ
  pub seek_ : ℤ → SeekMode → T → TResult × T
  pub read_ : ℕ → T → List ℕ × T
  pub write_ : List ℕ → T → TResult × T

-- A `YaBStream` is such a stream itself: the other side of the bridge is given one.
abbrev pub as_stream : IbStream YaBstream
as_stream = record {
  tell_ = tell;
  seek_ = λ offset mode s. let (r, s') = seek offset mode s in (r.0, s');
  read_ = λ n s. let (r, s') = read true (pos n) s in (r.copied, s');
  write_ = λ bytes s. write (some bytes) s;
}

module _ {T : Type 0} (stream : IbStream T) where
  -- The contents from the old position on, once the stream stands at its end.
  unfoldable pub copy_rest : ℕ → ℤ → T → List ℕ × T
  unfolding copy_at
  copy_rest old (pos (suc k)) host =
      let (result, at_old) = stream.seek_ (pos old) seek_set host in
      let (copied, after) = stream.read_ (suc k) at_old in
      (copy_at 0 copied (replicate (suc k) 0), after)
  copy_rest old _ host = ([], host)

  -- The `if` around the copy.
  unfoldable pub copy_found : ℕ → TResult × T → List ℕ × T
  unfolding copy_rest
  copy_found old (result_ok, at_end) = copy_rest old (sub_ℕ (stream.tell_ at_end) old) at_end
  copy_found old (_, at_end) = ([], at_end)

  -- `YaBStream::YaBStream(IBStream*)`, and the stream that it leaves.
  unfoldable pub copy_stream : T → YaBstream × T
  unfolding copy_found
  copy_stream host =
      let old = stream.tell_ host in
      let (contents, after) = copy_found old (stream.seek_ (pos 0) seek_end host) in
      let (result, restored) = stream.seek_ (pos old) seek_set after in
      (record { buffer = contents; seek_position = 0; file_name = none }, restored)

  -- `YaBStream::write_back`: the whole buffer goes to the position where the stream stands.
  unfoldable pub write_back : YaBstream → T → T
  write_back s host = (stream.write_ s.buffer host).1
