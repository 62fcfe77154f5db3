-- ===== src/Communication/Calls.antt =====
-- Requests that are sent to the other side of a connection (src/common/communication/common.h) are
-- answered as local calls of its callback are.
use wasivst.Prelude.{◌≡◌, refl, sym, ap, ◌∙◌, Option, none, some, List, [], ◌∷◌, append-nil}
use wasivst.Communication.{
  Codec, IsCodec, received, write_object, read_object, Connection, process_message, respond,
  respond_to_caller, wait_for, receive_into,
}
use wasivst.Communication.Wire.{read_object-write_object}

-- A connection on which nothing is under way.
abbrev pub quiet : Connection
quiet = record { to_receiver = []; to_sender = [] }

module _ {R : Type 0} {Response : R → Type 0} {S : Type 0} (requests : Codec R)
    (responses : (r : R) → Codec (Response r)) (callback : (r : R) → S → Response r × S) where
  -- A request with its response.
  abbrev pub Answered : Type 0
  Answered = (r : R) × Response r

  -- The calls made directly.
  unfoldable pub local_calls : List R → S → List Answered × S
  local_calls [] s = ([], s)
  local_calls (r ∷ rs) s =
      let (response, s') = callback r s in
      let (others, s'') = local_calls rs s' in ((r, response) ∷ others, s'')

  with_others :
      (r : R)
      → Response r
      → Option (List Answered × Connection × S)
      → Option (List Answered × Connection × S)
  with_others r response none = none
  with_others r response (some (others, c, s)) = some ((r, response) ∷ others, c, s)

  -- The calls made over the connection, one after the other.
  unfoldable pub remote_calls : List R → Connection → S → Option (List Answered × Connection × S)
  unfolding with_others
  remote_calls [] c s = some ([], c, s)
  remote_calls (r ∷ rs) c s = elim (receive_into requests responses callback r c s) [
    | none ↦ none
    | some (response, c', s') ↦ with_others r response (remote_calls rs c' s')
  ]

  module _ (lawful : IsCodec requests) (lawful_responses : (r : R) → IsCodec (responses r)) where
    receive_into_lem :
        (r : R) (s : S)
        → receive_into requests responses callback r quiet s
          ≡ some ((callback r s).0, quiet, (callback r s).1)
    unfolding receive_into process_message respond respond_to_caller wait_for
    receive_into_lem r s =
        let request : read_object requests (write_object requests r) ≡ received r [] =
          ap (read_object requests) (sym (append-nil (write_object requests r)))
          ∙ read_object-write_object requests lawful r [] in
        let response = (callback r s).0 in
        let answer : read_object (responses r) (write_object (responses r) response)
            ≡ received response [] =
          ap (read_object (responses r)) (sym (append-nil (write_object (responses r) response)))
          ∙ read_object-write_object (responses r) (lawful_responses r) response [] in
        rw (request, answer) refl

    -- Requests sent one after the other over a connection on which nothing is under way, by lawful
    -- serializations of the requests and of each one's response, are all answered, with the
    -- responses and the state that calls of the callback in the same order give, and nothing is
    -- under way afterwards.
    pub remote_calls-local_calls :
        (rs : List R) (s : S)
        → remote_calls rs quiet s ≡ some ((local_calls rs s).0, quiet, (local_calls rs s).1)
    unfolding local_calls remote_calls
    remote_calls-local_calls [] s = refl
    remote_calls-local_calls (r ∷ rs) s = step (remote_calls-local_calls rs (callback r s).1)
      where
        step :
            remote_calls rs quiet (callback r s).1
              ≡ some
                  ((local_calls rs (callback r s).1).0, quiet, (local_calls rs (callback r s).1).1)
            → remote_calls (r ∷ rs) quiet s
              ≡ some ((local_calls (r ∷ rs) s).0, quiet, (local_calls (r ∷ rs) s).1)
        step ih = rw (receive_into_lem r s, ih, remote_calls) refl
