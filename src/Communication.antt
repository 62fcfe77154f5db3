-- ===== src/Communication.antt =====
-- src/common/communication/common.h: objects sent over sockets with their length in front. What a
-- serialization library makes of an object is a parameter. A socket delivers the bytes that were
-- written to it in order; a read of more bytes than will ever come throws a `std::system_error`.
pub mod Wire
pub mod Loop
pub mod Calls
pub mod Accept
pub mod AdHoc
pub mod Endpoint
use wasivst.Prelude.{
  ℕ, zero, suc, ◌≡◌, ◌<◌, ◌^◌, ◌%◌, Option, none, some, List, [], ◌∷◌, ◌++◌, length, take, drop,
  ltb, if◌then◌else◌,
}
use wasivst.Prelude.Bytes.{le_bytes, le_value}

-- `quickSerialization` and `quickDeserialization`; `none` where the latter is not successful.
pub record Codec (A : Type 0) : Type 0 where
  pub encode : A → List ℕ
  pub decode : List ℕ → Option A

-- What the code relies on: the one undoes the other. Sizes have 64 bits.
pub record IsCodec {A : Type 0} (codec : Codec A) : Type 0 where
  pub undone : (a : A) → codec.decode (codec.encode a) ≡ some a
  pub sized : (a : A) → length (codec.encode a) < 2 ^ 64

-- What reading from a socket ends with: a value and the bytes left, or an exception.
pub data Received (A : Type 0) : Type 0 where
  received : A → List ℕ → Received A
  system_error runtime_error : Received A

-- `asio::read` with `transfer_exactly(n)`.
unfoldable pub read_exactly : ℕ → List ℕ → Received (List ℕ)
read_exactly n socket =
    if ltb (length socket) n then system_error else received (take n socket) (drop n socket)

-- How the loop of `receive_multi` has ended: by the exception that it catches, or by one that leaves it; a
-- loop that has not ended when the fuel is used up is `running`.
pub data Ending : Type 0 where
  closed escaped running : Ending

pub data CallbackEnd : Type 0 where
  returns throws_system_error throws_other : CallbackEnd

module _ {A : Type 0} (codec : Codec A) where
  -- The bytes that `write_object` sends.
  unfoldable pub write_object : A → List ℕ
  write_object object =
      let buffer = codec.encode object in
      let size = length buffer in le_bytes 8 (size % 2 ^ 64) ++ take size buffer

  deserialized : Option A → List ℕ → Received A
  deserialized none rest = runtime_error
  deserialized (some object) rest = received object rest

  read_body : Received (List ℕ) → Received A
  unfolding deserialized
  read_body (received buffer rest) = deserialized (codec.decode buffer) rest
  read_body system_error = system_error
  read_body runtime_error = runtime_error

  read_sized : Received (List ℕ) → Received A
  unfolding read_exactly read_body
  read_sized (received message_length rest) =
      read_body (read_exactly (le_value message_length) rest)
  read_sized system_error = system_error
  read_sized runtime_error = runtime_error

  unfoldable pub read_object : List ℕ → Received A
  unfolding read_exactly read_sized
  read_object socket = read_sized (read_exactly 8 socket)

  -- `SocketHandler::receive_multi`, whose callback changes a state, and may throw when it has. The first
  -- component says how the loop has ended.
  unfoldable pub receive_multi :
      {S : Type 0} → (fuel : ℕ) (callback : A → S → CallbackEnd × S) → List ℕ → S → Ending × S
  unfolding read_object
  receive_multi zero callback socket s = (running, s)
  receive_multi (suc fuel) callback socket s = elim (read_object socket) [
    | received object rest ↦
        let (how, s') = callback object s in
        elim how [
          | returns ↦ receive_multi fuel callback rest s'
          | throws_system_error ↦ (closed, s')
          | throws_other ↦ (escaped, s')
        ]
    | system_error ↦ (closed, s)
    | runtime_error ↦ (escaped, s)
  ]

-- The two directions of a connection between a sender of requests and a receiver.
pub record Connection : Type 0 where
  pub to_receiver : List ℕ
  pub to_sender : List ℕ

module _ {R : Type 0} {Response : R → Type 0} (requests : Codec R)
    (responses : (r : R) → Codec (Response r)) where
  -- The visitor: the callback's response to the request that was read.
  respond :
      {S : Type 0}
      → (callback : (r : R) → S → Response r × S) → Received R
      → Connection
      → S
      → Option (Connection × S)
  unfolding write_object
  respond callback (received request rest) c s =
      let (response, s') = callback request s in
      some (
        record {
          to_receiver = rest;
          to_sender = c.to_sender ++ write_object (responses request) response;
        },
        s',
      )
  respond callback system_error c s = none
  respond callback runtime_error c s = none

  -- `process_message` in `TypedMessageHandler::receive_messages`; `none` is an exception.
  unfoldable pub process_message :
      {S : Type 0}
      → (callback : (r : R) → S → Response r × S) → Connection
      → S
      → Option (Connection × S)
  unfolding read_object respond
  process_message callback c s = respond callback (read_object requests c.to_receiver) c s

  -- The end of `receive_into`, with the response that was read.
  respond_to_caller :
      {S : Type 0}
      → (object : R) → Received (Response object)
      → Connection
      → S
      → Option (Response object × Connection × S)
  respond_to_caller object (received response rest) c s =
      some (response, record c { to_sender = rest }, s)
  respond_to_caller object system_error c s = none
  respond_to_caller object runtime_error c s = none

  -- The caller waits for the response while the receiver processes what it was sent.
  wait_for :
      {S : Type 0}
      → (object : R) → Option (Connection × S)
      → Option (Response object × Connection × S)
  unfolding read_object respond_to_caller
  wait_for object none = none
  wait_for object (some (c, s)) =
      respond_to_caller object (read_object (responses object) c.to_sender) c s

  -- `TypedMessageHandler::receive_into`, together with the receiver's part.
  unfoldable pub receive_into :
      {S : Type 0}
      → (callback : (r : R) → S → Response r × S) → (object : R) → Connection
      → S
      → Option (Response object × Connection × S)
  unfolding write_object process_message wait_for
  receive_into callback object c s = wait_for object (
      process_message callback
        (record c { to_receiver = c.to_receiver ++ write_object requests object }) s)
