-- ===== src/Vst3/AttributeList.antt =====
-- `YaAttributeList` (src/common/serialization/vst3/attribute-list.{h,cpp}). A map is a list of keys with
-- their values, whose order stands for the unspecified one of the code; an integer and a double are bit
-- patterns, a key is the text of its identifier. The keys that the SDK defines are parameters.

pub mod Laws
use wasivst.Prelude.{
  ℕ, ◌+◌, ◌-◌, ◌/◌, ◌%◌, ◌^◌, ◌≡◌, Bool, true, false, Option, none, some, List, [], ◌∷◌, ◌++◌,
  length, take, replicate, min, leb, if◌then◌else◌,
}
use wasivst.Prelude.Text.{text_eq}
use wasivst.Prelude.Vector.{copy_at}
use wasivst.Utils.Copy.{c_string}
use wasivst.Vst3.Event.{u16string_to_tchar_pointer}

abbrev pub Key : Type 0
Key = List ℕ

-- `operator[]` and an assignment.
unfoldable pub put : {A : Type 0} → Key → A → List (Key × A) → List (Key × A)
put k a [] = (k, a) ∷ []
put k a ((j, b) ∷ m) = if text_eq k j then (j, a) ∷ m else (j, b) ∷ put k a m

unfoldable pub find : {A : Type 0} → Key → List (Key × A) → Option A
find k [] = none
find k ((j, b) ∷ m) = if text_eq k j then some b else find k m

pub record YaAttributeList : Type 0 where
  pub attrs_int : List (Key × ℕ)
  pub attrs_float : List (Key × ℕ)
  pub attrs_string : List (Key × List ℕ)
  pub attrs_binary : List (Key × List ℕ)

abbrev pub no_attributes : YaAttributeList
no_attributes = record { attrs_int = []; attrs_float = []; attrs_string = []; attrs_binary = [] }

unfoldable pub set_int : Key → ℕ → YaAttributeList → YaAttributeList
set_int id value l = record l { attrs_int = put id value l.attrs_int }

unfoldable pub get_int : Key → YaAttributeList → Option ℕ
get_int id l = find id l.attrs_int

unfoldable pub set_float : Key → ℕ → YaAttributeList → YaAttributeList
set_float id value l = record l { attrs_float = put id value l.attrs_float }

unfoldable pub get_float : Key → YaAttributeList → Option ℕ
get_float id l = find id l.attrs_float

-- Of what a pointer to text leads to, up to its 0.
unfoldable pub set_string : Key → List ℕ → YaAttributeList → YaAttributeList
set_string id string l = record l { attrs_string = put id (c_string string) l.attrs_string }

-- What the string that was found leaves in the caller's memory; `none` is a write behind its end. The
-- subtraction is one of 64-bit numbers.
unfoldable pub copy_string : List ℕ → (size_in_bytes : ℕ) → List ℕ → Option (List ℕ)
unfolding copy_at
copy_string value size_in_bytes memory =
    let copy_characters = min ((size_in_bytes / 2 + (2 ^ 64 - 1)) % 2 ^ 64) (length value) in
    if leb (copy_characters + 1) (length memory)
    then some (copy_at 0 (take copy_characters value ++ 0 ∷ []) memory)
    else none

-- Not found, or found with what is left in the memory.
pub data GotString : Type 0 where
  result_false : GotString
  result_ok : Option (List ℕ) → GotString

got : (size_in_bytes : ℕ) → List ℕ → Option (List ℕ) → GotString
unfolding copy_string
got size memory none = result_false
got size memory (some value) = result_ok (copy_string value size memory)

unfoldable pub get_string : Key → (size_in_bytes : ℕ) → List ℕ → YaAttributeList → GotString
unfolding got
get_string id size memory l = got size memory (find id l.attrs_string)

unfoldable pub set_binary :
    Key → (bytes : List ℕ) (size_in_bytes : ℕ) → YaAttributeList → YaAttributeList
set_binary id bytes size l = record l { attrs_binary = put id (take size bytes) l.attrs_binary }

unfoldable pub get_binary : Key → YaAttributeList → Option (List ℕ)
get_binary id l = find id l.attrs_binary

-- The calls of `IAttributeList` that the bridge makes on the other side's list.
pub record IattributeList (T : Type 0) : Type 0 where
  pub new_int : Key → ℕ → T → T
  pub new_float : Key → ℕ → T → T
  pub new_string : Key → List ℕ → T → T
  pub new_binary : Key → List ℕ → ℕ → T → T
  pub int_of : T → Key → Option ℕ
  pub string_of : T → Key → Option (List ℕ)  -- the memory, of 256 bytes
  pub binary_of : T → Key → Option (List ℕ × ℕ)

module _ {T : Type 0} (stream : IattributeList T) where
  -- A loop over a map.
  unfoldable pub each : {A : Type 0} → (Key → A → T → T) → List (Key × A) → T → T
  each set [] host = host
  each set ((k, a) ∷ m) host = each set m (set k a host)

  unfoldable pub write_back : YaAttributeList → T → T
  unfolding each
  write_back l host =
      each (λ k v. stream.new_binary k v (length v)) l.attrs_binary
        (each (λ k v. stream.new_string k (u16string_to_tchar_pointer v)) l.attrs_string
          (each stream.new_float l.attrs_float (each stream.new_int l.attrs_int host)))

  -- The loops over the keys that are known.
  unfoldable pub read_strings : List Key → T → YaAttributeList → YaAttributeList
  unfolding set_string
  read_strings [] host l = l
  read_strings (k ∷ ks) host l = elim (stream.string_of host k) [
    | none ↦ read_strings ks host l
    | some memory ↦ read_strings ks host (set_string k memory l)
  ]

  unfoldable pub read_integers : List Key → T → YaAttributeList → YaAttributeList
  unfolding set_int
  read_integers [] host l = l
  read_integers (k ∷ ks) host l = elim (stream.int_of host k) [
    | none ↦ read_integers ks host l
    | some value ↦ read_integers ks host (set_int k value l)
  ]

  unfoldable pub read_binaries : List Key → T → YaAttributeList → YaAttributeList
  unfolding set_binary
  read_binaries [] host l = l
  read_binaries (k ∷ ks) host l = elim (stream.binary_of host k) [
    | none ↦ read_binaries ks host l
    | some (bytes, size) ↦ read_binaries ks host (set_binary k bytes size l)
  ]

  unfoldable pub read_channel_context :
      (string_keys integer_keys binary_keys : List Key) → T → YaAttributeList
  unfolding read_strings read_integers read_binaries
  read_channel_context string_keys integer_keys binary_keys context =
      read_binaries binary_keys context
        (read_integers integer_keys context (read_strings string_keys context no_attributes))

  unfoldable pub read_stream_attributes : (string_keys : List Key) → T → YaAttributeList
  unfolding read_strings
  read_stream_attributes string_keys stream_attributes =
      read_strings string_keys stream_attributes no_attributes

-- `some`, unless the list that is written to is missing, which is an invalid argument.
unfoldable pub write_back_to :
    {T : Type 0} → IattributeList T → YaAttributeList → Option T → Option T
unfolding write_back
write_back_to stream l none = none
write_back_to stream l (some host) = some (write_back stream l host)

unfoldable pub filled : GotString → Option (List ℕ)
filled result_false = none
filled (result_ok memory) = memory

-- A list of the same kind.
abbrev pub own_attributes : IattributeList YaAttributeList
own_attributes = record {
  new_int = set_int;
  new_float = set_float;
  new_string = set_string;
  new_binary = set_binary;
  int_of = λ l k. get_int k l;
  string_of = λ l k. filled (get_string k 256 (replicate 128 0) l);
  binary_of = λ l k. elim (get_binary k l) [ none ↦ none | some b ↦ some (b, length b) ];
}
