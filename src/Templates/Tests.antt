-- ===== src/Templates/Tests.antt =====
-- The property of the templates at concrete calls: one is created, renamed and created again.
use sendry.Base.{◌≡◌, ◌≢◌, refl, none, some, List, [], ◌∷◌, Text, codes, lookup, text_eq}
use sendry.Queue.Bolt.Sample.{dict_bucket}
use sendry.Templates.{
  EmailTemplate, StoredTemplate, TemplateBuckets, empty_templates, create_template, create_in_tx,
  update_template, update_template_in_tx, reindex, template_by_id, template_by_name,
}
use sendry.Templates.Lookups.{
  TemplateCall, creates, updates, deletes, call_templates, run_templates, run_templates-Found,
}

abbrev buckets : TemplateBuckets
buckets = record { by_id = dict_bucket StoredTemplate; by_name = dict_bucket Text }

abbrev named : Text → Text → EmailTemplate
named id name = record {
  id = id;
  name = name;
  description = [];
  subject = [];
  html = [];
  text = [];
  variables = [];
  version = 0;
  created_at = 0;
  updated_at = 0;
}

abbrev template_calls : List TemplateCall
template_calls =
    creates (codes "1") 3 (named [] (codes "a"))
    ∷ updates 4 (named (codes "1") (codes "b"))
    ∷ creates (codes "2") 5 (named [] (codes "a"))
    ∷ deletes (codes "1")
    ∷ []

run_templates-Found_example :
    let db = run_templates buckets template_calls (empty_templates buckets) in
    ((k : Text) (t : EmailTemplate)
      → template_by_id buckets k db ≡ some (some t)
      → template_by_name buckets t.name db ≡ some (some t))
    × ((n : Text) (t : EmailTemplate)
        → template_by_name buckets n db ≡ some (some t)
        → (t.name ≡ n) × (template_by_id buckets t.id db ≡ some (some t)))
    × ((n : Text) → template_by_name buckets n db ≢ none)
unfolding call_templates create_template create_in_tx update_template update_template_in_tx reindex
    lookup text_eq
run_templates-Found_example =
    run_templates-Found buckets template_calls (refl, (tt, (refl, (tt, tt))))
