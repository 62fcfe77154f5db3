-- ===== src/Tests/Communication.antt =====
-- Messages over sockets (src/common/communication/common.h) at concrete inputs.
use wasivst.Prelude.Text.{codes, text_eq}
use wasivst.Process.Laws.{starts_with-append}
use wasivst.Communication.Endpoint.{candidate, generate_endpoint_base, destroy_sockets, removed}
use wasivst.Communication.Endpoint.Lifetime.{IsAppend, generate-destroy}
use wasivst.Prelude.{
  ◌≢◌, length, ℕ, ◌≡◌, refl, ◌+◌, ◌<◌, ◌^◌, Bool, true, false, Option, none, some, List, [], ◌∷◌,
  ◌++◌, arith, take,
}
use wasivst.Prelude.Bytes.{le_bytes}
use wasivst.Communication.{
  Codec, IsCodec, write_object, closed, running, CallbackEnd, returns, throws_system_error,
  receive_multi,
}
use wasivst.Communication.Loop.{sent, handled, proceed, receive_multi_lem}
use wasivst.Communication.Calls.{quiet, local_calls, remote_calls, remote_calls-local_calls}

encode_flag : Bool → List ℕ
encode_flag true = 1 ∷ []
encode_flag false = 0 ∷ 0 ∷ []

decode_flag : List ℕ → Option Bool
decode_flag [] = none
decode_flag (_ ∷ []) = some true
decode_flag (_ ∷ _ ∷ _) = some false

-- Two objects, of different sizes.
abbrev flags : Codec Bool
flags = record { encode = encode_flag; decode = decode_flag }

flag_undone : (b : Bool) → decode_flag (encode_flag b) ≡ some b
unfolding encode_flag decode_flag
flag_undone true = refl
flag_undone false = refl

flag_sized : (b : Bool) → length (encode_flag b) < 2 ^ 64
unfolding encode_flag
flag_sized true = omega arith
flag_sized false = omega arith

flags-IsCodec : IsCodec flags
unfolding encode_flag decode_flag
flags-IsCodec = record { undone = flag_undone; sized = flag_sized }

-- Counts the calls, and answers whether it is the first one.
abbrev count : Bool → ℕ → Bool × ℕ
count true n = (false, n + 10)
count false n = (true, n + 1)

-- The reply to `false` throws, so that the third object is not handled.
abbrev counting : Bool → ℕ → CallbackEnd × ℕ
counting true n = (returns, n + 10)
counting false n = (throws_system_error, n + 1)

receive_multi_lem_example :
    let socket = sent flags (true ∷ false ∷ true ∷ []) ++ take 9 (write_object flags false) in
    let result = receive_multi flags 4 counting socket 0 in
    (result ≡ (closed, 11)) × (result.0 ≢ running)
unfolding write_object encode_flag le_bytes handled proceed
receive_multi_lem_example =
    receive_multi_lem flags flags-IsCodec counting 4 (true ∷ false ∷ true ∷ []) false 9 0
      (omega arith) (omega arith)

remote_calls-local_calls_example :
    remote_calls flags (λ _. flags) count (true ∷ false ∷ []) quiet 0
    ≡ some (((true, false) ∷ (false, true) ∷ []), quiet, 11)
unfolding local_calls
remote_calls-local_calls_example =
    remote_calls-local_calls flags (λ _. flags) count flags-IsCodec (λ _. flags-IsCodec)
      (true ∷ false ∷ []) 0

-- A disk on which the path with the first identifier is taken.
abbrev join_path : List ℕ → List ℕ → List ℕ
join_path path relative = path ++ 47 ∷ relative

join_path-IsAppend : IsAppend join_path
join_path-IsAppend path relative h = starts_with-append path (47 ∷ relative)

abbrev tmp : List ℕ
tmp = codes "/tmp"

abbrev sample : ℕ → List ℕ
sample i = (65 + i) ∷ []

abbrev is_taken : List ℕ → List ℕ → Bool
is_taken path disk = text_eq path disk

abbrev taken_path : List ℕ
taken_path = codes "/tmp/yabridge-x-A"

generate-destroy_example :
    (path : List ℕ) × (generate_endpoint_base join_path is_taken sample 2 tmp (codes "x") taken_path
      ≡ some path)
    × (is_taken path taken_path ≡ false)
    × ((remove_all : List ℕ → List ℕ → Option (List ℕ)) (used after : List ℕ)
        → remove_all path used ≡ some after
        → destroy_sockets remove_all path tmp used ≡ removed after)
unfolding candidate text_eq
generate-destroy_example =
    generate-destroy join_path join_path-IsAppend is_taken sample tmp (codes "x") 2 1 taken_path
      (omega arith) refl
