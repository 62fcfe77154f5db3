-- ===== src/Clap/Descriptors.antt =====
-- src/common/serialization/clap/{plugin,host}.{h,cpp} and version.h: the descriptors of a plugin and of a
-- host, copied out of their C structs, and a plugin's handed out again. A pointer to a text is `none` or the
-- bytes it leads to; `none` of a function is a failed assertion or a text or an array without its end.
pub mod RoundTrip
use wasivst.Prelude.{
  ℕ, zero, suc, Option, none, some, List, [], ◌∷◌, ◌++◌, ltb, ◌==◌, if◌then◌else◌,
}
use wasivst.Vst2.Passthrough.{c_string}

infixl 10 ◌>>=◌
abbrev ◌>>=◌ : {A B : Type 0} → Option A → (A → Option B) → Option B
none >>= f = none
some a >>= f = f a

-- `clap_version_t`
pub record Version : Type 0 where
  pub major : ℕ
  pub minor : ℕ
  pub revision : ℕ

-- `supported` is `CLAP_VERSION`.
unfoldable pub clamp_clap_version : (supported version : Version) → Version
clamp_clap_version supported version =
    if ltb supported.major version.major
    then supported
    else if version.major == supported.major
    then if ltb supported.minor version.minor
      then supported
      else if version.minor == supported.minor
      then if ltb supported.revision version.revision then supported else version
      else version
    else version

abbrev pub CText : Type 0
CText = Option (List ℕ)

-- `clap_plugin_descriptor_t`, with the slots of the features' array.
pub record PluginDescriptor : Type 0 where
  pub c_version : Version
  pub c_id : CText
  pub c_name : CText
  pub c_vendor : CText
  pub c_url : CText
  pub c_manual_url : CText
  pub c_support_url : CText
  pub c_plugin_version : CText
  pub c_description : CText
  pub c_features : Option (List CText)

pub record Descriptor : Type 0 where
  pub clap_version : Version
  pub id : List ℕ
  pub name : List ℕ
  pub vendor : Option (List ℕ)
  pub url : Option (List ℕ)
  pub manual_url : Option (List ℕ)
  pub support_url : Option (List ℕ)
  pub version : Option (List ℕ)
  pub description : Option (List ℕ)
  pub features : List (List ℕ)

unfoldable pub asserted_text : CText → Option (List ℕ)
asserted_text none = none
asserted_text (some bytes) = c_string bytes

unfoldable pub optional_text : CText → Option (Option (List ℕ))
optional_text none = some none
optional_text (some bytes) = do text ← c_string bytes; some (some text)

-- The loop over the features, up to the null pointer.
unfoldable pub read_features : List CText → Option (List (List ℕ))
read_features [] = none
read_features (none ∷ slots) = some []
read_features (some bytes ∷ slots) = do
  text ← c_string bytes
  rest ← read_features slots
  some (text ∷ rest)

unfoldable pub features_of : Option (List CText) → Option (List (List ℕ))
features_of none = some []
features_of (some slots) = read_features slots

-- The constructor from the plugin's struct.
unfoldable pub descriptor : PluginDescriptor → Option Descriptor
descriptor original = do
  id ← asserted_text original.c_id
  name ← asserted_text original.c_name
  vendor ← optional_text original.c_vendor
  url ← optional_text original.c_url
  manual_url ← optional_text original.c_manual_url
  support_url ← optional_text original.c_support_url
  version ← optional_text original.c_plugin_version
  description ← optional_text original.c_description
  features ← features_of original.c_features
  some (record {
    clap_version = original.c_version;
    id = id;
    name = name;
    vendor = vendor;
    url = url;
    manual_url = manual_url;
    support_url = support_url;
    version = version;
    description = description;
    features = features;
  })

-- `c_str()`: the characters and the terminator.
unfoldable pub c_str : List ℕ → List ℕ
c_str text = text ++ 0 ∷ []

unfoldable pub pointer_or_null : Option (List ℕ) → CText
pointer_or_null none = none
pointer_or_null (some text) = some (c_str text)

-- `features_ptrs`
unfoldable pub features_ptrs : List (List ℕ) → List CText
features_ptrs [] = none ∷ []
features_ptrs (f ∷ fs) = some (c_str f) ∷ features_ptrs fs

-- `Descriptor::get`
unfoldable pub get_descriptor : (supported : Version) → Descriptor → PluginDescriptor
get_descriptor supported d = record {
  c_version = clamp_clap_version supported d.clap_version;
  c_id = some (c_str d.id);
  c_name = some (c_str d.name);
  c_vendor = pointer_or_null d.vendor;
  c_url = pointer_or_null d.url;
  c_manual_url = pointer_or_null d.manual_url;
  c_support_url = pointer_or_null d.support_url;
  c_plugin_version = pointer_or_null d.version;
  c_description = pointer_or_null d.description;
  c_features = some (features_ptrs d.features);
}

-- `clap_host_t`, without its functions.
pub record ClapHost : Type 0 where
  pub c_host_version : Version
  pub c_host_name : CText
  pub c_host_vendor : CText
  pub c_host_url : CText
  pub c_host_release : CText

pub record Host : Type 0 where
  pub host_version : Version
  pub host_name : List ℕ
  pub host_vendor : Option (List ℕ)
  pub host_url : Option (List ℕ)
  pub host_release : List ℕ

-- The constructor from the host's struct.
unfoldable pub host_descriptor : ClapHost → Option Host
host_descriptor original = do
  name ← asserted_text original.c_host_name
  vendor ← optional_text original.c_host_vendor
  url ← optional_text original.c_host_url
  release ← asserted_text original.c_host_release
  some (record {
    host_version = original.c_host_version;
    host_name = name;
    host_vendor = vendor;
    host_url = url;
    host_release = release;
  })
