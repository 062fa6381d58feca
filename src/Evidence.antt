-- ===== src/Evidence.antt =====
-- growth_os/evidence/diff.py: the changes between two pieces of evidence of growth_os/evidence/on_page.py.
-- The tests of the arguments' types hold by typing.
pub mod Replay
mod Tests
use growth_os.Prelude.{
  ℕ, Bool, true, false, not, ◌&&◌, Option, none, some, List, [], ◌∷◌, if◌then◌else◌, Result, ok,
  raise_if, ◌>>=◌, ◌>>◌,
}
use growth_os.Text.{Text, text_eq}

pub record OnPageEvidence : Type 0 where
  pub source_url : Text
  pub title : Option Text
  pub meta_description : Option Text
  pub canonical_url : Option Text
  pub robots : Option Text
  pub html_lang : Option Text
  pub h1_texts : List Text

pub data OnPageEvidenceField : Type 0 where
  title meta_description canonical_url robots html_lang h1_texts : OnPageEvidenceField

pub data EvidenceValue : Type 0 where
  text_value : Option Text → EvidenceValue
  texts_value : List Text → EvidenceValue

pub record OnPageEvidenceChange : Type 0 where
  pub field : OnPageEvidenceField
  pub before : EvidenceValue
  pub after : EvidenceValue

pub record OnPageEvidenceDiff : Type 0 where
  pub source_url : Text
  pub changes : List OnPageEvidenceChange

-- `raise ValueError`
pub data DiffRaised : Type 0 where
  value_error : DiffRaised

-- `_FIELD_ORDER`
abbrev pub field_order : List OnPageEvidenceField
field_order =
    OnPageEvidenceField.title ∷ OnPageEvidenceField.meta_description
    ∷ OnPageEvidenceField.canonical_url ∷ OnPageEvidenceField.robots ∷ OnPageEvidenceField.html_lang
    ∷ OnPageEvidenceField.h1_texts ∷ []

-- `getattr(evidence, field.value)`
abbrev pub get_field : OnPageEvidence → OnPageEvidenceField → EvidenceValue
get_field e OnPageEvidenceField.title = text_value e.title
get_field e OnPageEvidenceField.meta_description = text_value e.meta_description
get_field e OnPageEvidenceField.canonical_url = text_value e.canonical_url
get_field e OnPageEvidenceField.robots = text_value e.robots
get_field e OnPageEvidenceField.html_lang = text_value e.html_lang
get_field e OnPageEvidenceField.h1_texts = texts_value e.h1_texts

unfoldable pub option_eq : Option Text → Option Text → Bool
option_eq none none = true
option_eq (some s) (some t) = text_eq s t
option_eq none (some t) = false
option_eq (some s) none = false

unfoldable pub texts_eq : List Text → List Text → Bool
texts_eq [] [] = true
texts_eq (s ∷ ss) (t ∷ ts) = text_eq s t && texts_eq ss ts
texts_eq [] (t ∷ ts) = false
texts_eq (s ∷ ss) [] = false

unfoldable pub value_eq : EvidenceValue → EvidenceValue → Bool
value_eq (text_value a) (text_value b) = option_eq a b
value_eq (texts_value a) (texts_value b) = texts_eq a b
value_eq (text_value a) (texts_value b) = false
value_eq (texts_value a) (text_value b) = false

-- The loop over the fields.
unfoldable pub changes_of :
    OnPageEvidence → OnPageEvidence → List OnPageEvidenceField → List OnPageEvidenceChange
changes_of previous current [] = []
changes_of previous current (f ∷ fs) =
    let rest = changes_of previous current fs in
    if not (value_eq (get_field previous f) (get_field current f))
    then record { field = f; before = get_field previous f; after = get_field current f } ∷ rest
    else rest

unfoldable pub diff_on_page_evidence :
    OnPageEvidence → OnPageEvidence → Result DiffRaised OnPageEvidenceDiff
diff_on_page_evidence previous current = do
  raise_if (not (text_eq previous.source_url current.source_url)) value_error
  ok (record {
    source_url = previous.source_url;
    changes = changes_of previous current field_order;
  })
