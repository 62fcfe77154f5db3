-- ===== src/Communication/Loop.antt =====
-- The loop of `SocketHandler::receive_multi` (src/common/communication/common.h) on what the other side
-- has sent.
use wasivst.Prelude.{
  ℕ, zero, suc, ◌<◌, ◌≡◌, ◌≢◌, sym, refl, ap, ◌∙◌, List, [], ◌∷◌, ◌++◌, arith, length, take,
  append_assoc,
}
use wasivst.Communication.{
  Codec, IsCodec, received, write_object, read_object, closed, escaped, running, Ending,
  CallbackEnd, returns, throws_system_error, throws_other, receive_multi,
}
use wasivst.Communication.Wire.{read_object-write_object, read_object-take}

-- The bytes of some objects, sent one after the other.
unfoldable pub sent : {A : Type 0} → Codec A → List A → List ℕ
sent codec [] = []
sent codec (a ∷ others) = write_object codec a ++ sent codec others

-- The loop goes on where the callback returns; it ends by its exceptions.
unfoldable pub proceed : {S : Type 0} → CallbackEnd × S → (rest : S → Ending × S) → Ending × S
proceed (returns, s) rest = rest s
proceed (throws_system_error, s) rest = (closed, s)
proceed (throws_other, s) rest = (escaped, s)

-- What the callback makes of objects in their order, up to the first for which it throws.
unfoldable pub handled :
    {A S : Type 0} → (callback : A → S → CallbackEnd × S) → List A → S → Ending × S
unfolding proceed
handled callback [] s = (closed, s)
handled callback (a ∷ others) s = proceed (callback a s) (handled callback others)

handled_ends :
    {A S : Type 0} (callback : A → S → CallbackEnd × S) (objects : List A) (s : S)
    → (handled callback objects s).0 ≢ running
unfolding handled proceed
handled_ends callback [] s e = ground arith
handled_ends {A} {S} callback (a ∷ others) s e = go (handled_ends callback others) (callback a s) e
  where
    go :
        (ih : (s' : S) → (handled callback others s').0 ≢ running) (o : CallbackEnd × S)
        → (proceed o (handled callback others)).0 ≢ running
    go ih (returns, s') e = ih s' e
    go ih (throws_system_error, s') e = ground arith
    go ih (throws_other, s') e = ground arith

module _ {A S : Type 0} (codec : Codec A) (lawful : IsCodec codec)
    (callback : A → S → CallbackEnd × S) where
  receive_multi-handled :
      (fuel : ℕ) (objects : List A) (unsent : A) (k : ℕ) (s : S)
      → length objects < fuel
      → k < length (write_object codec unsent)
      → receive_multi codec fuel callback
          (sent codec objects ++ take k (write_object codec unsent))
          s
        ≡ handled callback objects s
  unfolding sent handled receive_multi proceed
  receive_multi-handled zero objects unsent k s h cut = absurd (omega arith)
  receive_multi-handled (suc fuel) [] unsent k s h cut =
      rw (read_object-take codec lawful unsent k cut, receive_multi) refl
  receive_multi-handled (suc fuel) (a ∷ others) unsent k s h cut =
      let rest = take k (write_object codec unsent) in
      let here : read_object codec ((write_object codec a ++ sent codec others) ++ rest)
          ≡ received a (sent codec others ++ rest) =
        ap (read_object codec) (append_assoc (write_object codec a) (sent codec others) rest)
        ∙ read_object-write_object codec lawful a (sent codec others ++ rest) in
      rw (here, receive_multi)
        (go (λ s'. receive_multi-handled fuel others unsent k s' (omega arith) cut) (callback a s))
    where
      go :
          (ih : (s' : S)
            → receive_multi codec fuel callback
                (sent codec others ++ take k (write_object codec unsent))
                s'
              ≡ handled callback others s')
          (o : CallbackEnd × S)
          → (let (how, s') = o in
              elim how as (λ _. Ending × S) [
                | returns ↦
                    receive_multi codec fuel callback
                      (sent codec others ++ take k (write_object codec unsent))
                      s'
                | throws_system_error ↦ (closed, s')
                | throws_other ↦ (escaped, s')
              ])
            ≡ proceed o (handled callback others)
      go ih (returns, s') = ih s'
      go ih (throws_system_error, s') = refl
      go ih (throws_other, s') = refl

  -- The other side has sent some objects and closed the socket, maybe within another object, of which
  -- some bytes are sent: the loop has ended once it has made one round more than there are whole
  -- objects. The callback was called with the whole objects in the order in which they were sent, up to
  -- the first for which it throws; the loop ended by the exception that it catches, where the callback
  -- throws none or a `std::system_error` first, and by another exception of the callback otherwise.
  pub receive_multi_lem :
      (fuel : ℕ) (objects : List A) (unsent : A) (k : ℕ) (s : S)
      → length objects < fuel
      → k < length (write_object codec unsent)
      → let socket = sent codec objects ++ take k (write_object codec unsent) in
        let result = receive_multi codec fuel callback socket s in
        (result ≡ handled callback objects s) × (result.0 ≢ running)
  receive_multi_lem fuel objects unsent k s h cut =
      let same = receive_multi-handled fuel objects unsent k s h cut in
      (same, λ e. handled_ends callback objects s (sym (ap (λ r. r.0) same) ∙ e))
