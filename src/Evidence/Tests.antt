-- ===== src/Evidence/Tests.antt =====
-- A diff of concrete evidence.
use growth_os.Prelude.{◌≡◌, refl, none, some, [], ◌∷◌, ok}
use growth_os.Text.{codes}
use growth_os.Evidence.{OnPageEvidence, OnPageEvidenceDiff, diff_on_page_evidence}
use growth_os.Evidence.Replay.{replay, Differ, diff_on_page_evidence-replay}

abbrev before : OnPageEvidence
before = record {
  source_url = codes "https://a.example/";
  title = some (codes "Old");
  meta_description = none;
  canonical_url = none;
  robots = none;
  html_lang = some (codes "en");
  h1_texts = codes "A" ∷ [];
}

abbrev after : OnPageEvidence
after = record before { title = some (codes "New"); h1_texts = codes "A" ∷ codes "B" ∷ [] }

diff_on_page_evidence-replay_example :
    (d : OnPageEvidenceDiff) × ((diff_on_page_evidence before after ≡ ok d)
      × ((replay d.changes before ≡ after) × Differ before after d.changes))
diff_on_page_evidence-replay_example = diff_on_page_evidence-replay before after refl
