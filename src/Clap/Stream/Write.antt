-- ===== src/Clap/Stream/Write.antt =====
-- What `write_to_stream` hands to the other side (src/common/serialization/clap/stream.cpp), into however
-- many pieces that cuts the bytes.
use wasivst.Prelude.{
  ℕ, zero, suc, ◌+◌, ◌-◌, ◌≤◌, ◌<◌, ◌≡◌, refl, sym, ap, ◌∙◌, true, false, some, List, [], ◌++◌,
  arith, length, take, drop, ltb, append_assoc, append-nil, length-drop, take_all, drop_all,
  drop-drop, take-append-drop, le→not_ltb, ltb→lt, Bool-cases, inl, inr,
}
use wasivst.Prelude.Int.{pos}
use wasivst.Prelude.Vector.{
  resize, copy_at, length-resize, length-copy_at, take-resize, take-copy_at,
}
use wasivst.Clap.Stream.{Stream, Ostream, write_rest, write_to_stream, ostream_write, ostream}

-- What one call of `write` does with some bytes: it takes a part from their front, not none of it.
pub record Takes {T : Type 0} (output : Ostream T) (content : T → List ℕ) (host : T)
    (bytes : List ℕ) : Type 0 where
  pub more : ℕ
  pub returns : (output.write host bytes).0 ≡ pos (suc more)
  pub within : suc more ≤ length bytes
  pub appends : content (output.write host bytes).1 ≡ content host ++ take (suc more) bytes

-- What CLAP says of `write`, where the other side reports no error.
pub record IsTaking {T : Type 0} (output : Ostream T) (content : T → List ℕ) : Type 0 where
  pub takes : (host : T) (bytes : List ℕ) → 0 < length bytes → Takes output content host bytes

module _ {T : Type 0} (output : Ostream T) (content : T → List ℕ)
    (taking : IsTaking output content) where
  write_rest_done :
      (fuel : ℕ) (buffer : List ℕ) (n : ℕ) (host : T)
      → ltb n (length buffer) ≡ false
      → write_rest output fuel buffer n host ≡ some host
  unfolding write_rest
  write_rest_done zero buffer n host e = rw (e, write_rest) refl
  write_rest_done (suc fuel) buffer n host e = rw (e, write_rest) refl

  write_rest_more :
      (fuel : ℕ) (buffer : List ℕ) (n k : ℕ) (host : T)
      → ltb n (length buffer) ≡ true
      → (output.write host (drop n buffer)).0 ≡ pos (suc k)
      → write_rest output (suc fuel) buffer n host
        ≡ write_rest output fuel buffer (n + suc k) (output.write host (drop n buffer)).1
  unfolding write_rest
  write_rest_more fuel buffer n k host less e = rw (less, e, write_rest) refl

  write_rest_lem :
      (fuel : ℕ) (buffer : List ℕ) (n : ℕ) (host : T)
      → length buffer - n ≤ fuel
      → (after : T) × (write_rest output fuel buffer n host ≡ some after)
        × (content after ≡ content host ++ drop n buffer)
  unfolding write_rest
  write_rest_lem zero buffer n host h =
      let done : drop n buffer ≡ [] = drop_all n buffer (omega arith) in
      (
        host,
        write_rest_done zero buffer n host (le→not_ltb n (length buffer) (omega arith)),
        rw done (sym (append-nil (content host))),
      )
  write_rest_lem (suc fuel) buffer n host h = elim (Bool-cases (ltb n (length buffer))) [
    | inr over ↦
        let done : drop n buffer ≡ [] = drop_all n buffer (ground arith) in
        (
          host,
          write_rest_done (suc fuel) buffer n host over,
          rw done (sym (append-nil (content host))),
        )
    | inl less ↦
        let left = drop n buffer in
        let some_left : 0 < length left = omega (arith, length-drop n buffer, ltb→lt _ _ less) in
        let taken = taking.takes host left some_left in
        let k = taken.more in
        let next = (output.write host left).1 in
        let (after, written, whole) =
          write_rest_lem fuel buffer (n + suc k) next
            (omega (arith, h, some_left, length-drop n buffer)) in
        let rest : take (suc k) left ++ drop (n + suc k) buffer ≡ left =
          ap (λ xs. take (suc k) left ++ xs) (sym (drop-drop n (suc k) buffer))
          ∙ take-append-drop (suc k) left in
        (
          after,
          write_rest_more fuel buffer n k host less taken.returns ∙ written,
          whole
              ∙ (rw taken.appends (append_assoc (content host) (take (suc k) left) _)
                  ∙ ap (λ xs. content host ++ xs) rest),
        )
  ]

  -- Where the other side takes the bytes as CLAP says, in pieces of any size, as many rounds as there
  -- are bytes are enough for `write_to_stream` to end without its assertion failing, and it has then
  -- appended the whole buffer to what the other side had.
  pub write_to_stream_lem :
      (s : Stream) (host : T) (fuel : ℕ)
      → length s.buffer ≤ fuel
      → (after : T) × (write_to_stream output fuel s host ≡ some after)
        × (content after ≡ content host ++ s.buffer)
  unfolding write_to_stream
  write_to_stream_lem s host fuel h = write_rest_lem fuel s.buffer 0 host (omega arith)

ostream_write_lem :
    (s : Stream) (bytes : List ℕ)
    → (ostream_write s bytes).1 ≡ record s { buffer = s.buffer ++ bytes }
unfolding ostream_write
ostream_write_lem s bytes =
    let n = length s.buffer in
    let size = length-resize (n + length bytes) s.buffer in
    let grown = resize (n + length bytes) s.buffer in
    let all =
      take_all (n + length bytes) (copy_at n bytes grown)
        (omega (arith, size, length-copy_at n bytes grown (omega (arith, size)))) in
    let front : take n grown ≡ s.buffer =
      take-resize n (n + length bytes) s.buffer (omega arith) (omega arith)
      ∙ take_all n s.buffer (omega arith) in
    ap (λ xs. record s { buffer = xs })
      (sym all ∙ (take-copy_at n bytes grown (omega (arith, size)) ∙ ap (λ xs. xs ++ bytes) front))

-- A `Stream` is such a sink itself.
pub ostream-IsTaking : IsTaking ostream (λ s. s.buffer)
unfolding ostream_write
ostream-IsTaking = record {
  takes = λ s bytes h.
      let m = length bytes - 1 in
      let whole : suc m ≡ length bytes = omega arith in
      record {
        more = m;
        returns = ap pos (sym whole);
        within = omega arith;
        appends =
            ap (λ s. s.buffer) (ostream_write_lem s bytes)
            ∙ ap (λ xs. s.buffer ++ xs) (sym (take_all (suc m) bytes (omega arith)));
      };
}
