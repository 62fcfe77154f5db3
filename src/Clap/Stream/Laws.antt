-- ===== src/Clap/Stream/Laws.antt =====
-- What the constructor of `Stream` and `write_to_stream` carry (src/common/serialization/clap/stream.cpp),
-- into however many pieces the other side cuts the bytes.
use wasivst.Prelude.{
  drop-drop, ℕ, zero, suc, ◌+◌, ◌-◌, ◌≤◌, ◌<◌, ◌≡◌, refl, sym, ap, ◌∙◌, some, List, [], ◌∷◌, ◌++◌,
  arith, length, take, drop, min, append_assoc, length-append, length-take, length-drop, drop_all,
  take-append-drop,
}
use wasivst.Prelude.Int.{pos}
use wasivst.Prelude.Vector.{
  resize, copy_at, length-resize, length-copy_at, take-resize, resize-shrink, take-copy_at,
}
use wasivst.Clap.Stream.{read_chunk_size, Istream, read_all, stream, istream_read, istream}

-- What CLAP says of `read`: it returns the number of bytes that it has stored, at most as many as were
-- asked for, and 0 only at the end.
pub record IsServing {T : Type 0} (input : Istream T) (left : T → List ℕ) : Type 0 where
  pub counted :
      (host : T) (n : ℕ) → (input.read host n).count ≡ pos (length (input.read host n).bytes)
  pub fits : (host : T) (n : ℕ) → length (input.read host n).bytes ≤ n
  pub served :
      (host : T) (n : ℕ) → left host ≡ (input.read host n).bytes ++ left (input.read host n).next
  pub ends :
      (host : T) (n : ℕ)
      → 0 < n
      → (input.read host n).bytes ≡ []
      → left (input.read host n).next ≡ []

abbrev filled : (got bytes buffer : List ℕ) → List ℕ
filled got bytes buffer = copy_at (length got) bytes (resize (length got + read_chunk_size) buffer)

-- One round puts the bytes behind those that were read before.
filled_lem :
    (got bytes buffer : List ℕ)
    → length bytes ≤ read_chunk_size
    → length got ≤ length buffer
    → take (length got) buffer ≡ got
    → (take (length got + length bytes) (filled got bytes buffer) ≡ got ++ bytes)
      × (length got + length bytes ≤ length (filled got bytes buffer))
filled_lem got bytes buffer small fits kept =
    let size = length-resize (length got + read_chunk_size) buffer in
    let grown = resize (length got + read_chunk_size) buffer in
    (
      take-copy_at (length got) bytes grown (omega (arith, size))
          ∙ ap (λ xs. xs ++ bytes)
              (take-resize (length got) (length got + read_chunk_size) buffer (omega arith) fits
                ∙ kept),
      omega (arith, size, length-copy_at (length got) bytes grown (omega (arith, size))),
    )

module _ {T : Type 0} (input : Istream T) (left : T → List ℕ) (serving : IsServing input left) where
  -- What the loop's test of the count leads to.
  read_all_end :
      (fuel : ℕ) (host : T) (len : ℕ) (buffer : List ℕ)
      → (input.read host read_chunk_size).bytes ≡ []
      → read_all input (suc fuel) host len buffer
        ≡ some (
          record {
            buffer = resize len (copy_at len [] (resize (len + read_chunk_size) buffer));
            read_pos = 0;
          },
          (input.read host read_chunk_size).next,
        )
  unfolding read_all
  read_all_end fuel host len buffer e =
      let c = serving.counted host read_chunk_size ∙ ap (λ xs. pos (length xs)) e in
      rw (c, e, read_all) refl

  read_all_more :
      (fuel : ℕ) (host : T) (len x : ℕ) (xs buffer : List ℕ)
      → (input.read host read_chunk_size).bytes ≡ x ∷ xs
      → read_all input (suc fuel) host len buffer
        ≡ read_all input fuel
            (input.read host read_chunk_size).next
            (len + suc (length xs))
            (copy_at len (x ∷ xs) (resize (len + read_chunk_size) buffer))
  unfolding read_all
  read_all_more fuel host len x xs buffer e =
      let c = serving.counted host read_chunk_size ∙ ap (λ xs. pos (length xs)) e in
      rw (c, e, read_all) refl

  -- Reading ends with everything that was left, behind what was read before.
  read_all_lem :
      (fuel : ℕ) (host : T) (buffer got : List ℕ)
      → length (left host) < fuel
      → length got ≤ length buffer
      → take (length got) buffer ≡ got
      → (after : T) × (read_all input fuel host (length got) buffer
          ≡ some (record { buffer = got ++ left host; read_pos = 0 }, after))
  read_all_lem zero host buffer got h _ _ = absurd (omega arith)
  read_all_lem (suc fuel) host buffer got h fits kept =
      go (read_all_lem fuel) (input.read host read_chunk_size).bytes refl
    where
      next : T
      next = (input.read host read_chunk_size).next

      split : left host ≡ (input.read host read_chunk_size).bytes ++ left next
      split = serving.served host read_chunk_size

      Ends : ℕ → T → List ℕ → List ℕ → Type 0
      Ends fuel host buffer got =
          (after : T) × (read_all input fuel host (length got) buffer
            ≡ some (record { buffer = got ++ left host; read_pos = 0 }, after))

      go :
          ((host : T) (buffer got : List ℕ)
            → length (left host) < fuel
            → length got ≤ length buffer
            → take (length got) buffer ≡ got
            → Ends fuel host buffer got)
          → (bytes : List ℕ) → (input.read host read_chunk_size).bytes ≡ bytes
          → Ends (suc fuel) host buffer got
      go again [] e =
          let (front, long) = filled_lem got [] buffer (omega arith) fits kept in
          let all : left host ≡ [] =
            split ∙ rw e (serving.ends host read_chunk_size (omega arith) e) in
          let end : take (length got) (filled got [] buffer) ≡ got ++ [] =
            ap (λ n. take n (filled got [] buffer)) (omega arith) ∙ front in
          (
            next,
            read_all_end fuel host (length got) buffer e
                ∙ rw
                    (
                      all,
                      resize-shrink (length got) (filled got [] buffer) (omega (arith, long)),
                      end,
                    )
                    refl,
          )
      go again (x ∷ xs) e =
          let bytes = x ∷ xs in
          let small : length bytes ≤ read_chunk_size =
            omega (arith, ap length e, serving.fits host read_chunk_size) in
          let (front, long) = filled_lem got bytes buffer small fits kept in
          let len = length-append got bytes in
          let all : left host ≡ bytes ++ left next = split ∙ rw e refl in
          let shorter : length (left next) < fuel =
            omega (arith, h, ap length all, length-append bytes (left next)) in
          let (after, done) =
            again next (filled got bytes buffer) (got ++ bytes) shorter (omega (arith, len, long))
              (ap (λ n. take n (filled got bytes buffer)) len ∙ front) in
          (
            after,
            read_all_more fuel host (length got) x xs buffer e
                ∙ ap (λ n. read_all input fuel next n (filled got bytes buffer)) (sym len)
                ∙ done
                ∙ rw (all, append_assoc got bytes (left next)) refl,
          )

  -- Where the other side serves its bytes as CLAP says, in pieces of any size up to the chunk's, one
  -- round more than it has bytes is enough for the constructor to end, with exactly those bytes and at
  -- their start.
  pub stream_lem :
      (host : T) (fuel : ℕ)
      → length (left host) < fuel
      → (after : T) × (stream input fuel host
          ≡ some (record { buffer = left host; read_pos = 0 }, after))
  unfolding stream
  stream_lem host fuel h = read_all_lem fuel host [] [] h (omega arith) refl

-- A `Stream` is such a source itself, with the bytes from its position on.
pub istream-IsServing : IsServing istream (λ s. drop s.read_pos s.buffer)
unfolding istream_read
istream-IsServing = record {
  counted = λ s n. ap pos (
      omega (
        arith,
        length-take (min n (length s.buffer - s.read_pos)) (drop s.read_pos s.buffer),
        length-drop s.read_pos s.buffer,
      ));
  fits = λ s n.
      omega (arith, length-take (min n (length s.buffer - s.read_pos)) (drop s.read_pos s.buffer));
  served = λ s n.
      let m = min n (length s.buffer - s.read_pos) in
      sym (take-append-drop m (drop s.read_pos s.buffer))
      ∙ ap (λ xs. take m (drop s.read_pos s.buffer) ++ xs) (drop-drop s.read_pos m s.buffer);
  ends = λ s n h e.
      let m = min n (length s.buffer - s.read_pos) in
      drop_all (s.read_pos + m) s.buffer (
        omega (
          arith,
          ap length e,
          length-take m (drop s.read_pos s.buffer),
          length-drop s.read_pos s.buffer,
        ));
}
