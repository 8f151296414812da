-- ===== src/Templates.antt =====
-- internal/template/storage.go, over the buckets of Queue.Bolt: the templates by their ids, and the
-- index of their names. A transaction is a function into `Option`, `none` an error. `uuid.New()` and
-- `time.Now()` are arguments.
mod Names
mod Changes
mod Transactions
pub mod Lookups
mod Tests
use sendry.Base.{
  ℕ, suc, ◌+◌, Bool, true, false, not, ◌&&◌, ◌||◌, Option, none, some, List, [], ◌∷◌, Text, text_eq,
  is_empty, to_lower, contains, ltb, leb, length, if◌then◌else◌, ◌>>=◌,
}
use sendry.Queue.Bolt.{BucketApi}

pub record VariableInfo : Type 0 where
  pub name : Text
  pub kind : Text
  pub required : Bool
  pub description : Text
  pub example : Text

pub record EmailTemplate : Type 0 where
  pub id : Text
  pub name : Text
  pub description : Text
  pub subject : Text
  pub html : Text
  pub text : Text
  pub variables : List VariableInfo
  pub version : ℕ
  pub created_at : ℕ
  pub updated_at : ℕ

-- A value of the bucket: JSON, or bytes that do not decode.
pub data StoredTemplate : Type 0 where
  as_json : EmailTemplate → StoredTemplate
  undecodable : StoredTemplate

pub record TemplateFilter : Type 0 where
  pub limit : ℕ
  pub offset : ℕ
  pub search : Text

pub record TemplateBuckets : Type 1 where
  pub by_id : BucketApi StoredTemplate
  pub by_name : BucketApi Text

unfoldable pub matches_search : Text → EmailTemplate → Bool
matches_search search t =
    is_empty search
    || (contains (to_lower search) (to_lower t.name)
        || contains (to_lower search) (to_lower t.description))

-- The templates after `offset` of those that match, until there are `limit` of them, if that is not 0.
unfoldable pub list_templates_loop :
    TemplateFilter → ℕ → ℕ → List (Text × StoredTemplate) → List EmailTemplate
list_templates_loop f skipped count [] = []
list_templates_loop f skipped count ((k, undecodable) ∷ rest) =
    list_templates_loop f skipped count rest
list_templates_loop f skipped count ((k, as_json t) ∷ rest) =
    let skipping = list_templates_loop f (suc skipped) count rest in
    let passing = list_templates_loop f skipped count rest in
    let taking = list_templates_loop f skipped (suc count) rest in
    if not (matches_search f.search t)
    then passing
    else if ltb skipped f.offset
    then skipping
    else if ltb 0 f.limit && leb f.limit (suc count)
    then t ∷ []
    else t ∷ taking

module _ (b : TemplateBuckets) where
  open b use {by_id, by_name}

  pub record TemplateDb : Type 0 where
    pub templates : by_id.Carrier
    pub names : by_name.Carrier

  abbrev pub empty_templates : TemplateDb
  empty_templates = record { templates = by_id.empty; names = by_name.empty }

  -- A transaction that fails is rolled back.
  abbrev pub commit_templates : TemplateDb → Option TemplateDb → Bool × TemplateDb
  commit_templates db none = (false, db)
  commit_templates db (some db') = (true, db')

  unfoldable pub create_in_tx : Text → ℕ → EmailTemplate → TemplateDb → Option TemplateDb
  create_in_tx new_id now t db = elim (by_name.get db.names t.name) [
    | some other ↦ none
    | none ↦
        let made : EmailTemplate = record t {
          id = new_id;
          version = 1;
          created_at = now;
          updated_at = now;
        } in
        by_id.put db.templates new_id (as_json made) >>= λ ts.
        by_name.put db.names t.name new_id >>= λ ns. some (record { templates = ts; names = ns })
  ]

  unfoldable pub create_template : Text → ℕ → EmailTemplate → TemplateDb → Bool × TemplateDb
  create_template new_id now t db =
      if is_empty t.name then (false, db) else commit_templates db (create_in_tx new_id now t db)

  -- No template is `some none`; a value that does not decode is an error, `none`.
  abbrev pub decode_template : Option StoredTemplate → Option (Option EmailTemplate)
  decode_template none = some none
  decode_template (some (as_json t)) = some (some t)
  decode_template (some undecodable) = none

  unfoldable pub template_by_id : Text → TemplateDb → Option (Option EmailTemplate)
  template_by_id id db = decode_template (by_id.get db.templates id)

  unfoldable pub template_by_name : Text → TemplateDb → Option (Option EmailTemplate)
  template_by_name name db = elim (by_name.get db.names name) [
    | none ↦ some none
    | some id ↦ decode_template (by_id.get db.templates id)
  ]

  unfoldable pub list_templates : TemplateFilter → TemplateDb → List EmailTemplate
  list_templates f db = list_templates_loop f 0 0 (by_id.entries db.templates)

  -- The index where the name changes.
  unfoldable pub reindex : Text → Text → Text → by_name.Carrier → Option by_name.Carrier
  reindex old new id ns = if text_eq old new then some ns else elim (by_name.get ns new) [
    | some other ↦ none
    | none ↦ by_name.put (by_name.delete ns old) new id
  ]

  unfoldable pub update_template_in_tx : ℕ → EmailTemplate → TemplateDb → Option TemplateDb
  update_template_in_tx now t db = elim (by_id.get db.templates t.id) [
    | none ↦ none
    | some undecodable ↦ none
    | some (as_json existing) ↦ reindex existing.name t.name t.id db.names >>= λ ns.
        let t' : EmailTemplate = record t {
          version = existing.version + 1;
          created_at = existing.created_at;
          updated_at = now;
        } in
        by_id.put db.templates t.id (as_json t') >>= λ ts.
        some (record { templates = ts; names = ns })
  ]

  unfoldable pub update_template : ℕ → EmailTemplate → TemplateDb → Bool × TemplateDb
  update_template now t db = commit_templates db (update_template_in_tx now t db)

  -- Deleting a template that is not there is no error.
  unfoldable pub delete_template_in_tx : Text → TemplateDb → Option TemplateDb
  delete_template_in_tx id db = elim (by_id.get db.templates id) [
    | none ↦ some db
    | some undecodable ↦ none
    | some (as_json t) ↦ some (record {
      templates = by_id.delete db.templates id;
      names = by_name.delete db.names t.name;
    })
  ]

  unfoldable pub delete_template : Text → TemplateDb → Bool × TemplateDb
  delete_template id db = commit_templates db (delete_template_in_tx id db)

  unfoldable pub count_templates : TemplateDb → ℕ
  count_templates db = length (by_id.entries db.templates)
