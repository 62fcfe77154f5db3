-- ===== src/Utils/Escape.antt =====
-- The escapes of src/common/utils.cpp are undone by readers of XML text and of URLs.
use wasivst.Prelude.{
  ℕ, ◌+◌, ◌-◌, ◌*◌, ◌≡◌, ◌≢◌, refl, sym, ap, ◌∙◌, true, false, List, [], ◌∷◌, ◌++◌, arith, All,
  ◌==◌, leb, if◌then◌else◌, Bool-cases, inl, inr, ==_iff,
}
use wasivst.Prelude.Text.{codes, text_eq}
use wasivst.Utils.{Case, replacement, escaped, xml_cases, xml_escape, url_cases, url_encode_path}

-- For a reader of text that reads what each case appends as the case's character.
module _ (read : List ℕ → List ℕ) where
  abbrev Undoes : Case → Type 0
  Undoes k = (rest : List ℕ) → read (k.appended ++ rest) ≡ k.character ∷ read rest

  -- What the default appends is read as it is.
  abbrev Plain : ℕ → Type 0
  Plain c = (rest : List ℕ) → read (c ∷ rest) ≡ c ∷ read rest

  read-replacement :
      (ks : List Case) (c : ℕ)
      → All Undoes ks
      → (All (λ k. c ≢ k.character) ks → Plain c)
      → (rest : List ℕ) → read (replacement ks c ++ rest) ≡ c ∷ read rest
  unfolding replacement
  read-replacement [] c h plain rest = plain tt rest
  read-replacement (k ∷ ks) c (h, hs) plain rest = elim (Bool-cases (c == k.character)) [
    | inl same ↦ rw same (h rest ∙ ap (λ d. d ∷ read rest) (sym ((==_iff c k.character).0 same)))
    | inr other ↦ rw other (read-replacement ks c hs (λ fs. plain (distinct other, fs)) rest)
  ]
    where
      distinct : (c == k.character) ≡ false → c ≢ k.character
      distinct e = λ same. absurd (cc ((==_iff c k.character).1 same, e))

  read-escaped :
      (ks : List Case) (s : List ℕ)
      → All Undoes ks
      → ((c : ℕ) → All (λ k. c ≢ k.character) ks → Plain c)
      → read [] ≡ []
      → read (escaped ks s) ≡ s
  unfolding escaped
  read-escaped ks [] h plain end = end
  read-escaped ks (c ∷ s) h plain end =
      read-replacement ks c h (plain c) (escaped ks s)
      ∙ ap (λ t. c ∷ t) (read-escaped ks s h plain end)

-- The character that an entity of XML stands for; another name stands for nothing.
entity : List ℕ → List ℕ
unfolding text_eq
entity name =
    if text_eq name (codes "amp")
    then b'&' ∷ []
    else if text_eq name (codes "quot")
    then b'"' ∷ []
    else if text_eq name (codes "apos")
    then 39 ∷ []
    else if text_eq name (codes "lt")
    then b'<' ∷ []
    else if text_eq name (codes "gt")
    then b'>' ∷ []
    else []

-- The part of an entity's name that is read, if the text stands within an entity.
pub data Within : Type 0 where
  outside : Within
  name_so_far : List ℕ → Within

unfoldable pub xml_text_from : Within → List ℕ → List ℕ
unfolding entity
xml_text_from w [] = []
xml_text_from outside (c ∷ cs) = elim (c == b'&') [
  | true ↦ xml_text_from (name_so_far []) cs
  | false ↦ c ∷ xml_text_from outside cs
]
xml_text_from (name_so_far name) (c ∷ cs) = elim (c == b';') [
  | true ↦ entity name ++ xml_text_from outside cs
  | false ↦ xml_text_from (name_so_far (name ++ c ∷ [])) cs
]

-- The text that XML character data stands for.
unfoldable pub xml_text : List ℕ → List ℕ
unfolding xml_text_from
xml_text s = xml_text_from outside s

xml_undone : All (Undoes xml_text) xml_cases
unfolding xml_text xml_text_from
xml_undone = (λ rest. refl, (λ rest. refl, (λ rest. refl, (λ rest. refl, (λ rest. refl, tt)))))

xml-Plain : (c : ℕ) → All (λ k. c ≢ k.character) xml_cases → Plain xml_text c
unfolding xml_text xml_text_from
xml-Plain c (h, hs) rest = let e : (c == b'&') ≡ false = ground arith in rw (e, xml_text_from) refl

-- Escaped text is read as the text that it was made from.
pub xml_text-xml_escape : (s : List ℕ) → xml_text (xml_escape s) ≡ s
unfolding xml_escape xml_text xml_text_from
xml_text-xml_escape s = read-escaped xml_text xml_cases s xml_undone xml-Plain refl

hex_digit : ℕ → ℕ
hex_digit c = if leb c b'9' then c - b'0' else c - b'A' + 10

-- The part of a percent escape that is read, if the path stands within one.
pub data Percent : Type 0 where
  no_percent : Percent
  percent : Percent
  high_digit : ℕ → Percent

unfoldable pub url_path_from : Percent → List ℕ → List ℕ
unfolding hex_digit
url_path_from w [] = []
url_path_from no_percent (c ∷ cs) = elim (c == b'%') [
  | true ↦ url_path_from percent cs
  | false ↦ c ∷ url_path_from no_percent cs
]
url_path_from percent (c ∷ cs) = url_path_from (high_digit (hex_digit c)) cs
url_path_from (high_digit d) (c ∷ cs) = (16 * d + hex_digit c) ∷ url_path_from no_percent cs

-- The path that a percent-encoded path stands for.
unfoldable pub url_path : List ℕ → List ℕ
unfolding url_path_from
url_path s = url_path_from no_percent s

url_undone : All (Undoes url_path) url_cases
unfolding url_path url_path_from
url_undone = (
  λ r. refl,
  (
    λ r. refl,
    (
      λ r. refl,
      (
        λ r. refl,
        (
          λ r. refl,
          (
            λ r. refl,
            (
              λ r. refl,
              (
                λ r. refl,
                (
                  λ r. refl,
                  (
                    λ r. refl,
                    (
                      λ r. refl,
                      (
                        λ r. refl,
                        (
                          λ r. refl,
                          (
                            λ r. refl,
                            (λ r. refl, (λ r. refl, (λ r. refl, (λ r. refl, (λ r. refl, tt))))),
                          ),
                        ),
                      ),
                    ),
                  ),
                ),
              ),
            ),
          ),
        ),
      ),
    ),
  ),
)

url-Plain : (c : ℕ) → All (λ k. c ≢ k.character) url_cases → Plain url_path c
unfolding url_path url_path_from
url-Plain c (_, (_, (_, (_, (h, hs))))) rest =
    let e : (c == b'%') ≡ false = ground arith in rw (e, url_path_from) refl

-- An encoded path is decoded to the path that it was made from.
pub url_path-url_encode_path : (s : List ℕ) → url_path (url_encode_path s) ≡ s
unfolding url_encode_path url_path url_path_from
url_path-url_encode_path s = read-escaped url_path url_cases s url_undone url-Plain refl
