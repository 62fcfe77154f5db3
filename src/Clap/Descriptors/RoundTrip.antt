-- ===== src/Clap/Descriptors/RoundTrip.antt =====
-- src/common/serialization/clap/plugin.cpp: what a descriptor hands out, read in again.
use wasivst.Prelude.{
  ◌<◌, ◌≤◌, ◌≡◌, refl, sym, arith, ◌⊎◌, inl, inr, Bool-cases, ltb, ltb→lt, ◌==◌, ==_iff, ℕ, zero,
  suc, ◌≡◌, ◌≢◌, refl, Option, none, some, List, [], ◌∷◌, All,
}
use wasivst.Vst2.Passthrough.{c_string}
use wasivst.Clap.Descriptors.{
  Version, Descriptor, asserted_text, optional_text, read_features, features_of, descriptor, c_str,
  pointer_or_null, features_ptrs, get_descriptor, clamp_clap_version,
}

-- A `std::string` without a 0 inside.
abbrev pub IsText : List ℕ → Type 0
IsText = All (λ c. c ≢ 0)

unfoldable pub IsTextOrNone : Option (List ℕ) → Type 0
IsTextOrNone none = Unit
IsTextOrNone (some text) = IsText text

c_string-c_str : (s : List ℕ) → IsText s → c_string (c_str s) ≡ some s
unfolding c_string c_str
c_string-c_str [] h = refl
c_string-c_str (zero ∷ s) (h, hs) = absurd (h refl)
c_string-c_str (suc c ∷ s) (h, hs) = rw (c_string-c_str s hs) refl

optional_text-pointer_or_null :
    (s : Option (List ℕ)) → IsTextOrNone s → optional_text (pointer_or_null s) ≡ some s
unfolding optional_text pointer_or_null IsTextOrNone
optional_text-pointer_or_null none h = refl
optional_text-pointer_or_null (some s) h = rw (c_string-c_str s h) refl

read_features-features_ptrs :
    (fs : List (List ℕ)) → All IsText fs → read_features (features_ptrs fs) ≡ some fs
unfolding read_features features_ptrs
read_features-features_ptrs [] h = refl
read_features-features_ptrs (f ∷ fs) (h, hs) =
    rw (c_string-c_str f h, read_features-features_ptrs fs hs) refl

-- The texts of a descriptor hold no 0.
pub record HasTexts (d : Descriptor) : Type 0 where
  pub id_text : IsText d.id
  pub name_text : IsText d.name
  pub vendor_text : IsTextOrNone d.vendor
  pub url_text : IsTextOrNone d.url
  pub manual_url_text : IsTextOrNone d.manual_url
  pub support_url_text : IsTextOrNone d.support_url
  pub version_text : IsTextOrNone d.version
  pub description_text : IsTextOrNone d.description
  pub features_text : All IsText d.features

-- The order of versions: by the major number, then the minor one, then the revision.
abbrev pub AtMost : Version → Version → Type 0
AtMost v w =
    (v.major < w.major)
    ⊎ ((v.major ≡ w.major)
        × ((v.minor < w.minor) ⊎ ((v.minor ≡ w.minor) × (v.revision ≤ w.revision))))

-- The lesser of two versions.
abbrev pub IsMinimum : (v w least : Version) → Type 0
IsMinimum v w least = AtMost least v × AtMost least w × ((least ≡ v) ⊎ (least ≡ w))

AtMost-refl : (v : Version) → AtMost v v
AtMost-refl v = inr (refl, inr (refl, omega arith))

clamp_clap_version-IsMinimum :
    (supported version : Version)
    → IsMinimum supported version (clamp_clap_version supported version)
unfolding clamp_clap_version
clamp_clap_version-IsMinimum supported version =
    elim (Bool-cases (ltb supported.major version.major)) [
      | inl lt ↦
          rw lt (AtMost-refl supported, inl (ltb→lt supported.major version.major lt), inl refl)
      | inr ge ↦ elim (Bool-cases (version.major == supported.major)) [
        | inr ne ↦ rw (ge, ne) (inl (ground arith), AtMost-refl version, inr refl)
        | inl eq ↦
            let same = (==_iff version.major supported.major).0 eq in
            elim (Bool-cases (ltb supported.minor version.minor)) [
              | inl lt ↦
                  rw (ge, eq, lt)
                    (
                      AtMost-refl supported,
                      inr (sym same, inl (ltb→lt supported.minor version.minor lt)),
                      inl refl,
                    )
              | inr ge' ↦ elim (Bool-cases (version.minor == supported.minor)) [
                | inr ne ↦
                    rw (ge, eq, ge', ne)
                      (inr (same, inl (ground arith)), AtMost-refl version, inr refl)
                | inl eq' ↦
                    let same' = (==_iff version.minor supported.minor).0 eq' in
                    elim (Bool-cases (ltb supported.revision version.revision)) [
                      | inl lt ↦
                          rw (ge, eq, ge', eq', lt)
                            (
                              AtMost-refl supported,
                              inr (
                                sym same,
                                inr (
                                  sym same',
                                  omega (arith, ltb→lt supported.revision version.revision lt),
                                ),
                              ),
                              inl refl,
                            )
                      | inr ge'' ↦
                          rw (ge, eq, ge', eq', ge'')
                            (inr (same, inr (same', ground arith)), AtMost-refl version, inr refl)
                    ]
              ]
            ]
      ]
    ]

-- A descriptor whose texts hold no 0, handed out as the C struct and read in again, is the descriptor with
-- the lesser of its version and the supported one: each missing text stays missing and each feature keeps
-- its place.
pub descriptor-get_descriptor :
    (supported : Version) (d : Descriptor)
    → HasTexts d
    → (v : Version) × (descriptor (get_descriptor supported d)
        ≡ some (record d { clap_version = v }))
      × IsMinimum supported d.clap_version v
unfolding descriptor get_descriptor asserted_text features_of
descriptor-get_descriptor supported d h = (
  clamp_clap_version supported d.clap_version,
  rw
      (
        c_string-c_str d.id h.id_text,
        c_string-c_str d.name h.name_text,
        optional_text-pointer_or_null d.vendor h.vendor_text,
        optional_text-pointer_or_null d.url h.url_text,
        optional_text-pointer_or_null d.manual_url h.manual_url_text,
        optional_text-pointer_or_null d.support_url h.support_url_text,
        optional_text-pointer_or_null d.version h.version_text,
        optional_text-pointer_or_null d.description h.description_text,
        read_features-features_ptrs d.features h.features_text,
      )
      refl,
  clamp_clap_version-IsMinimum supported d.clap_version,
)
