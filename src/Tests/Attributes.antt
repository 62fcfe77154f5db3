-- ===== src/Tests/Attributes.antt =====
-- Attributes of VST3 objects (src/common/serialization/vst3/attribute-list.cpp) at concrete inputs.
use wasivst.Prelude.{◌≡◌, refl, some, none, [], ◌∷◌}
use wasivst.Prelude.Text.{codes}
use wasivst.Prelude.Vector.{copy_at}
use wasivst.Vst3.AttributeList.{Key, YaAttributeList, no_attributes, copy_string}

abbrev name : Key
name = codes "Name"

abbrev preset : YaAttributeList
preset = record {
  attrs_int = (codes "Index", 3) ∷ [];
  attrs_float = [];
  attrs_string = (name, 72 ∷ 105 ∷ []) ∷ (codes "Style", []) ∷ [];
  attrs_binary = (codes "Image", 1 ∷ 0 ∷ 2 ∷ []) ∷ [];
}

abbrev older : YaAttributeList
older = record no_attributes {
  attrs_string = (name, 79 ∷ []) ∷ [];
  attrs_int = (codes "Color", 1) ∷ [];
}

-- A text is cut to the caller's memory, if it has room for one character at least.
text_cut : copy_string (72 ∷ 105 ∷ 33 ∷ []) 4 (9 ∷ 9 ∷ []) ≡ some (72 ∷ 0 ∷ [])
unfolding copy_string copy_at
text_cut = refl

-- With a size of 0 the whole text is copied, beyond the memory.
no_room : copy_string (72 ∷ 105 ∷ 33 ∷ []) 0 [] ≡ none
unfolding copy_string
no_room = refl
