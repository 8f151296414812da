-- ===== src/Templates/Names.antt =====
-- The index of the names in internal/template/storage.go.
use sendry.Base.{◌≡◌, some, Text}
use sendry.Templates.{EmailTemplate, as_json, TemplateBuckets, TemplateDb}

module _ (b : TemplateBuckets) where
  open b use {by_id, by_name}

  -- A template stands under its id, and its name in the index gives that id; what the index gives is
  -- the id of a template of that name.
  pub record NamesIndexed (db : TemplateDb b) : Type 0 where
    pub own_id :
        (k : Text) (t : EmailTemplate) → by_id.get db.templates k ≡ some (as_json t) → t.id ≡ k
    pub indexed :
        (k : Text) (t : EmailTemplate)
        → by_id.get db.templates k ≡ some (as_json t)
        → by_name.get db.names t.name ≡ some k
    pub names_one :
        (n k : Text)
        → by_name.get db.names n ≡ some k
        → (t : EmailTemplate) × (by_id.get db.templates k ≡ some (as_json t)) × (t.name ≡ n)
