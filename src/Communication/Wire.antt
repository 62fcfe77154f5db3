-- ===== src/Communication/Wire.antt =====
-- What is written by `write_object` is what `read_object` reads (src/common/communication/common.h).
use wasivst.Prelude.{
  ℕ, ◌+◌, ◌≤◌, ◌<◌, ◌^◌, ◌%◌, ◌≡◌, refl, sym, ap, ◌∙◌, some, List, ◌++◌, arith, length, take,
  append_assoc, length-append, take-append_length, drop-append_length, take_all, le→not_ltb, lt→ltb,
  ltb→lt, ltb, Bool-cases, inl, inr, ◌-◌, length-take,
}
use wasivst.Prelude.Bytes.{le_bytes, le_value, length-le_bytes, le_value-le_bytes8}
use wasivst.Prelude.Vector.{take-append_add}
use wasivst.Communication.{
  Codec, IsCodec, received, system_error, read_exactly, write_object, read_object, read_sized,
  read_body, deserialized,
}

pub read_exactly-append :
    (n : ℕ) (xs rest : List ℕ) → n ≡ length xs → read_exactly n (xs ++ rest) ≡ received xs rest
unfolding read_exactly
read_exactly-append n xs rest e =
    rw
      (
        e,
        le→not_ltb (length (xs ++ rest)) (length xs) (omega (arith, length-append xs rest)),
        take-append_length xs rest,
        drop-append_length xs rest,
      )
      refl

pub read_exactly_short : (n : ℕ) (xs : List ℕ) → length xs < n → read_exactly n xs ≡ system_error
unfolding read_exactly
read_exactly_short n xs h = rw (lt→ltb (length xs) n h) refl

-- What is relied on for one object.
pub record Carried {A : Type 0} (codec : Codec A) (a : A) : Type 0 where
  pub undone_at : codec.decode (codec.encode a) ≡ some a
  pub sized_at : length (codec.encode a) < 2 ^ 64

module _ {A : Type 0} (codec : Codec A) where
  frame : A → List ℕ
  frame a = le_bytes 8 (length (codec.encode a)) ++ codec.encode a

  write_object_lem : (a : A) → length (codec.encode a) < 2 ^ 64 → write_object codec a ≡ frame a
  unfolding write_object frame
  write_object_lem a sized =
      let n = length (codec.encode a) in
      let small : n % 2 ^ 64 ≡ n = omega (arith, sized) in
      rw (small, take_all n (codec.encode a) (omega arith)) refl

  pub read_object-write_object_at :
      (a : A) (rest : List ℕ)
      → Carried codec a
      → read_object codec (write_object codec a ++ rest) ≡ received a rest
  unfolding read_object read_sized read_body deserialized frame
  read_object-write_object_at a rest h =
      let n = length (codec.encode a) in
      let size : le_value (le_bytes 8 n) ≡ n = le_value-le_bytes8 n h.sized_at in
      ap (λ bytes. read_object codec (bytes ++ rest)) (write_object_lem a h.sized_at)
      ∙ ap (read_object codec) (append_assoc (le_bytes 8 n) (codec.encode a) rest)
      ∙ rw
          (
            read_exactly-append 8 (le_bytes 8 n) (codec.encode a ++ rest)
                (sym (length-le_bytes 8 n)),
            size,
            read_exactly-append n (codec.encode a) rest refl,
            h.undone_at,
          )
          refl

module _ {A : Type 0} (codec : Codec A) (lawful : IsCodec codec) where
  carried : (a : A) → Carried codec a
  carried a = record { undone_at = lawful.undone a; sized_at = lawful.sized a }

  pub read_object-write_object :
      (a : A) (rest : List ℕ) → read_object codec (write_object codec a ++ rest) ≡ received a rest
  read_object-write_object a rest = read_object-write_object_at codec a rest (carried a)

  -- Of an object that is cut off before its end, nothing is read.
  pub read_object-take :
      (a : A) (k : ℕ)
      → k < length (write_object codec a)
      → read_object codec (take k (write_object codec a)) ≡ system_error
  unfolding read_object read_sized read_body frame
  read_object-take a k h =
      let n = length (codec.encode a) in
      let head = le_bytes 8 n in
      let eight = length-le_bytes 8 n in
      let whole : length (frame codec a) ≡ 8 + n =
        omega (arith, eight, length-append head (codec.encode a)) in
      let short : k < 8 + n =
        omega (arith, h, ap length (write_object_lem codec a (lawful.sized a)), whole) in
      ap (λ bytes. read_object codec (take k bytes)) (write_object_lem codec a (lawful.sized a))
      ∙ elim (Bool-cases (ltb k 8)) [
        | inl in_length ↦
            rw
              (read_exactly_short 8 (take k (frame codec a))
                (omega (arith, ltb→lt _ _ in_length, length-take k (frame codec a))))
              refl
        | inr in_body ↦
            let at_least : 8 ≤ k = ground arith in
            let j = k - 8 in
            let size : le_value head ≡ n = le_value-le_bytes8 n (lawful.sized a) in
            let cut : take k (frame codec a) ≡ head ++ take j (codec.encode a) =
              ap (λ i. take i (frame codec a)) (omega (arith, eight))
              ∙ take-append_add head (codec.encode a) j in
            ap (read_object codec) cut
            ∙ rw
                (
                  read_exactly-append 8 head (take j (codec.encode a)) (sym eight),
                  size,
                  read_exactly_short n (take j (codec.encode a))
                      (omega (arith, length-take j (codec.encode a))),
                )
                refl
      ]
