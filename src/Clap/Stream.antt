-- ===== src/Clap/Stream.antt =====
-- src/common/serialization/clap/stream.{h,cpp}: a plugin's state as a vector of bytes, read from a
-- stream of the host or the plugin, and written to one. The two loops run on fuel; `none` is a loop
-- that has not ended, and in `write_to_stream` also its failed assertion.
pub mod Laws
pub mod Write
use wasivst.Prelude.{
  ℕ, zero, suc, ◌+◌, ◌-◌, ◌^◌, Option, none, some, List, [], ◌++◌, length, take, drop, min, ltb,
  if◌then◌else◌, true, false,
}
use wasivst.Prelude.Int.{ℤ, pos, negsuc}
use wasivst.Prelude.Vector.{resize, copy_at}

abbrev pub read_chunk_size : ℕ
read_chunk_size = 2 ^ 20

-- `buffer_` and `read_pos_`.
pub record Stream : Type 0 where
  pub buffer : List ℕ
  pub read_pos : ℕ

-- What a call of `read` returns, stores, and leaves of a stream with state `T`.
pub record Taken (T : Type 0) : Type 0 where
  pub count : ℤ
  pub bytes : List ℕ
  pub next : T

-- `clap_istream_t::read` and `clap_ostream_t::write` of the other side.
pub record Istream (T : Type 0) : Type 0 where
  pub read : T → ℕ → Taken T

pub record Ostream (T : Type 0) : Type 0 where
  pub write : T → List ℕ → ℤ × T

module _ {T : Type 0} (input : Istream T) where
  -- The loop of the constructor, with `stream_length` and `buffer_`.
  unfoldable pub read_all : (fuel : ℕ) → T → ℕ → List ℕ → Option (Stream × T)
  unfolding resize copy_at
  read_all zero host stream_length buffer = none
  read_all (suc fuel) host stream_length buffer =
      let taken = input.read host read_chunk_size in
      let filled =
        copy_at stream_length taken.bytes (resize (stream_length + read_chunk_size) buffer) in
      elim taken.count [
        | pos (suc n) ↦ read_all fuel taken.next (stream_length + suc n) filled
        | _ ↦ some (record { buffer = resize stream_length filled; read_pos = 0 }, taken.next)
      ]

  -- `Stream::Stream(const clap_istream_t&)`
  unfoldable pub stream : (fuel : ℕ) → T → Option (Stream × T)
  unfolding read_all
  stream fuel host = read_all fuel host 0 []

module _ {T : Type 0} (output : Ostream T) where
  unfoldable pub write_rest : (fuel : ℕ) → List ℕ → ℕ → T → Option T
  write_rest zero buffer num_bytes_written host =
      if ltb num_bytes_written (length buffer) then none else some host
  write_rest (suc fuel) buffer num_bytes_written host =
      elim (ltb num_bytes_written (length buffer)) [
        | true ↦
            let (actual, next) = output.write host (drop num_bytes_written buffer) in
            elim actual [
              | pos (suc n) ↦ write_rest fuel buffer (num_bytes_written + suc n) next
              | _ ↦ none
            ]
        | false ↦ some host
      ]

  unfoldable pub write_to_stream : (fuel : ℕ) → Stream → T → Option T
  unfolding write_rest
  write_to_stream fuel s host = write_rest fuel s.buffer 0 host

unfoldable pub ostream_write : Stream → List ℕ → ℤ × Stream
unfolding resize copy_at
ostream_write s bytes =
    let start_pos = length s.buffer in
    let resized = resize (start_pos + length bytes) s.buffer in
    (pos (length bytes), record s { buffer = copy_at start_pos bytes resized })

-- The position is never behind the end, where the difference would wrap around: it only grows by counts
-- that stay within the buffer, and the buffer does not shrink.
unfoldable pub istream_read : Stream → ℕ → Taken Stream
istream_read s n =
    let num_bytes_read = min n (length s.buffer - s.read_pos) in
    record {
      count = pos num_bytes_read;
      bytes = take num_bytes_read (drop s.read_pos s.buffer);
      next = record s { read_pos = s.read_pos + num_bytes_read };
    }

-- The vtables that `istream` and `ostream` fill in.
abbrev pub istream : Istream Stream
istream = record { read = istream_read }

abbrev pub ostream : Ostream Stream
ostream = record { write = ostream_write }
