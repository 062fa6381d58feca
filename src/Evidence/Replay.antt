-- ===== src/Evidence/Replay.antt =====
-- What the changes of `diff_on_page_evidence` in growth_os/evidence/diff.py say.
use growth_os.Prelude.{
  ◌≡◌, refl, sym, ap, ◌∙◌, inl, inr, true, false, Option, none, some, List, [], ◌∷◌, Bool-cases, ok,
}
use growth_os.Text.{Text, text_eq}
use growth_os.Text.Equality.{text_eq_sound}
use growth_os.Evidence.{
  OnPageEvidence, OnPageEvidenceField, EvidenceValue, text_value, texts_value, OnPageEvidenceChange,
  OnPageEvidenceDiff, field_order, get_field, option_eq, texts_eq, value_eq, changes_of,
  diff_on_page_evidence,
}

option_eq_sound : (a b : Option Text) → option_eq a b ≡ true → a ≡ b
unfolding option_eq
option_eq_sound none none h = refl
option_eq_sound (some s) (some t) h = ap some (text_eq_sound s t h)
option_eq_sound none (some t) h = cc
option_eq_sound (some s) none h = cc

texts_eq_sound : (a b : List Text) → texts_eq a b ≡ true → a ≡ b
unfolding texts_eq
texts_eq_sound [] [] h = refl
texts_eq_sound (s ∷ ss) (t ∷ ts) h = elim (Bool-cases (text_eq s t)) [
  | inl same ↦
      let first = text_eq_sound s t same in let rest = texts_eq_sound ss ts (rw same at h) in cc
  | inr differs ↦ cc (rw differs at h)
]
texts_eq_sound [] (t ∷ ts) h = cc
texts_eq_sound (s ∷ ss) [] h = cc

value_eq_sound : (a b : EvidenceValue) → value_eq a b ≡ true → a ≡ b
unfolding value_eq
value_eq_sound (text_value a) (text_value b) h = ap text_value (option_eq_sound a b h)
value_eq_sound (texts_value a) (texts_value b) h = ap texts_value (texts_eq_sound a b h)
value_eq_sound (text_value a) (texts_value b) h = cc
value_eq_sound (texts_value a) (text_value b) h = cc

-- The evidence with one field replaced; a value of the wrong form changes nothing.
abbrev pub set_field : OnPageEvidence → OnPageEvidenceField → EvidenceValue → OnPageEvidence
set_field e OnPageEvidenceField.title (text_value v) = record e { title = v }
set_field e OnPageEvidenceField.meta_description (text_value v) = record e { meta_description = v }
set_field e OnPageEvidenceField.canonical_url (text_value v) = record e { canonical_url = v }
set_field e OnPageEvidenceField.robots (text_value v) = record e { robots = v }
set_field e OnPageEvidenceField.html_lang (text_value v) = record e { html_lang = v }
set_field e OnPageEvidenceField.h1_texts (texts_value v) = record e { h1_texts = v }
set_field e _ _ = e

-- The changes, made one after another.
unfoldable pub replay : List OnPageEvidenceChange → OnPageEvidence → OnPageEvidence
replay [] e = e
replay (c ∷ cs) e = replay cs (set_field e c.field c.after)

set_field_same : (e : OnPageEvidence) (f : OnPageEvidenceField) → set_field e f (get_field e f) ≡ e
set_field_same e OnPageEvidenceField.title = refl
set_field_same e OnPageEvidenceField.meta_description = refl
set_field_same e OnPageEvidenceField.canonical_url = refl
set_field_same e OnPageEvidenceField.robots = refl
set_field_same e OnPageEvidenceField.html_lang = refl
set_field_same e OnPageEvidenceField.h1_texts = refl

-- Making the changes of a field and of the others sets the field and makes the others.
replay_field :
    (previous current e : OnPageEvidence) (f : OnPageEvidenceField) (fs : List OnPageEvidenceField)
    → get_field e f ≡ get_field previous f
    → replay (changes_of previous current (f ∷ fs)) e
      ≡ replay (changes_of previous current fs) (set_field e f (get_field current f))
unfolding replay changes_of
replay_field previous current e f fs same =
    elim (Bool-cases (value_eq (get_field previous f) (get_field current f))) [
      | inr differs ↦ rw differs
      | inl equal ↦
          let unchanged : set_field e f (get_field current f) ≡ e =
            ap (set_field e f)
              (sym (value_eq_sound (get_field previous f) (get_field current f) equal) ∙ sym same)
            ∙ set_field_same e f in
          rw equal (ap (replay (changes_of previous current fs)) (sym unchanged))
    ]

-- The changes are of unequal values, which the two pieces of evidence have.
abbrev pub Differ : OnPageEvidence → OnPageEvidence → List OnPageEvidenceChange → Type 0
Differ previous current [] = Unit
Differ previous current (c ∷ cs) =
    ((c.before ≡ get_field previous c.field)
      × ((c.after ≡ get_field current c.field) × (value_eq c.before c.after ≡ false)))
    × Differ previous current cs

changes_of-Differ :
    (previous current : OnPageEvidence) (fs : List OnPageEvidenceField)
    → Differ previous current (changes_of previous current fs)
unfolding changes_of
changes_of-Differ previous current [] = tt
changes_of-Differ previous current (f ∷ fs) =
    elim (Bool-cases (value_eq (get_field previous f) (get_field current f))) [
      | inl equal ↦ rw equal (changes_of-Differ previous current fs)
      | inr differs ↦ rw differs ((refl, (refl, differs)), changes_of-Differ previous current fs)
    ]

abbrev with_source : OnPageEvidence → Text → OnPageEvidence
with_source e url = record e { source_url = url }

replay_nothing :
    (previous current e : OnPageEvidence) → replay (changes_of previous current []) e ≡ e
unfolding replay changes_of
replay_nothing previous current e = refl

replay-changes_of :
    (previous current : OnPageEvidence)
    → replay (changes_of previous current field_order) previous
      ≡ record current { source_url = previous.source_url }
replay-changes_of p c =
    let e₁ = set_field p OnPageEvidenceField.title (get_field c OnPageEvidenceField.title) in
    let e₂ =
      set_field e₁ OnPageEvidenceField.meta_description
        (get_field c OnPageEvidenceField.meta_description) in
    let e₃ =
      set_field e₂ OnPageEvidenceField.canonical_url
        (get_field c OnPageEvidenceField.canonical_url) in
    let e₄ = set_field e₃ OnPageEvidenceField.robots (get_field c OnPageEvidenceField.robots) in
    let e₅ =
      set_field e₄ OnPageEvidenceField.html_lang (get_field c OnPageEvidenceField.html_lang) in
    replay_field p c p OnPageEvidenceField.title _ refl
    ∙ replay_field p c e₁ OnPageEvidenceField.meta_description _ refl
    ∙ replay_field p c e₂ OnPageEvidenceField.canonical_url _ refl
    ∙ replay_field p c e₃ OnPageEvidenceField.robots _ refl
    ∙ replay_field p c e₄ OnPageEvidenceField.html_lang _ refl
    ∙ replay_field p c e₅ OnPageEvidenceField.h1_texts [] refl
    ∙ replay_nothing p c (with_source c p.source_url)

-- Two pieces of evidence of one source have a diff; its changes are of values that differ, and
-- made one after another on the previous evidence they give the current one.
pub diff_on_page_evidence-replay :
    (previous current : OnPageEvidence)
    → text_eq previous.source_url current.source_url ≡ true
    → (d : OnPageEvidenceDiff) × ((diff_on_page_evidence previous current ≡ ok d)
        × ((replay d.changes previous ≡ current) × Differ previous current d.changes))
unfolding diff_on_page_evidence
diff_on_page_evidence-replay previous current same = (
  record { source_url = previous.source_url; changes = changes_of previous current field_order },
  (
    rw same,
    (
      replay-changes_of previous current
          ∙ ap (with_source current) (text_eq_sound previous.source_url current.source_url same),
      changes_of-Differ previous current field_order,
    ),
  ),
)
