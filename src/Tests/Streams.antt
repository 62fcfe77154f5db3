-- ===== src/Tests/Streams.antt =====
-- The VST3 byte stream at concrete inputs: five bytes, of which two lie before the position.
use wasivst.Prelude.{◌≡◌, true, none, some, [], ◌∷◌, arith, List}
use wasivst.Prelude.Int.{pos, negsuc}
use wasivst.Vst3.Bstream.{YaBstream, read, write, seek, seek_set, seek_cur, seek_end, other_mode}
use wasivst.Vst3.Bstream.Laws.{
  InBounds, reads, writes, seeks, Call, calls, calls-InBounds, write-seek-read,
}

abbrev five : YaBstream
five = record { buffer = 10 ∷ 11 ∷ 12 ∷ 13 ∷ 14 ∷ []; seek_position = 2; file_name = none }

five-InBounds : InBounds five
five-InBounds = record { within = omega arith }

abbrev some_calls : List Call
some_calls =
    seeks (negsuc 8) seek_cur
    ∷ writes (some (7 ∷ 7 ∷ []))
    ∷ seeks (pos 9) seek_end
    ∷ reads true (negsuc 0)
    ∷ seeks (pos 1) (other_mode 3)
    ∷ reads true (pos 4)
    ∷ []

calls-InBounds_example : InBounds (calls some_calls five)
calls-InBounds_example = calls-InBounds some_calls five five-InBounds

write-seek-read_example :
    let written = (write (some (1 ∷ 2 ∷ [])) five).1 in
    let there = (seek (pos 2) seek_set written).1 in
    let (r, after) = read true (pos 2) there in (r.copied ≡ 1 ∷ 2 ∷ []) × (after ≡ written)
write-seek-read_example = write-seek-read (1 ∷ 2 ∷ []) five five-InBounds
