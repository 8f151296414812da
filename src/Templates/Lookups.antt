-- ===== src/Templates/Lookups.antt =====
-- A template is found by its name: internal/template/storage.go after any calls.
use mathlib.Core.Path.{subst}
use sendry.Base.{
  ℕ, ◌≡◌, ◌≢◌, refl, ap, ◌∙◌, Option, none, some, List, [], ◌∷◌, Text, ◌⊎◌, inl, inr, Option-cases,
}
use sendry.Templates.{
  EmailTemplate, StoredTemplate, as_json, undecodable, TemplateBuckets, TemplateDb, empty_templates,
  create_template, update_template, delete_template, template_by_id, template_by_name,
  decode_template,
}
use sendry.Templates.Names.{NamesIndexed}
use sendry.Templates.Changes.{empty-NamesIndexed}
use sendry.Templates.Transactions.{
  create_template-NamesIndexed, update_template-NamesIndexed, delete_template-NamesIndexed,
}

-- A call that changes the templates, with the id of uuid.New and the time.
pub data TemplateCall : Type 0 where
  creates : Text → ℕ → EmailTemplate → TemplateCall
  updates : ℕ → EmailTemplate → TemplateCall
  deletes : Text → TemplateCall

module _ (b : TemplateBuckets) where
  open b use {by_id, by_name}

  unfoldable pub call_templates : TemplateCall → TemplateDb b → TemplateDb b
  call_templates (creates new_id now t) db = (create_template b new_id now t db).1
  call_templates (updates now t) db = (update_template b now t db).1
  call_templates (deletes id) db = (delete_template b id db).1

  unfoldable pub run_templates : List TemplateCall → TemplateDb b → TemplateDb b
  run_templates [] db = db
  run_templates (c ∷ cs) db = run_templates cs (call_templates c db)

  -- No template has an id that is given to a new one.
  abbrev pub HasNewId : TemplateCall → TemplateDb b → Type 0
  HasNewId (creates new_id now t) db = by_id.get db.templates new_id ≡ none
  HasNewId (updates now t) db = Unit {0}
  HasNewId (deletes id) db = Unit {0}

  abbrev pub HaveNewIds : List TemplateCall → TemplateDb b → Type 0
  HaveNewIds [] db = Unit {0}
  HaveNewIds (c ∷ cs) db = HasNewId c db × HaveNewIds cs (call_templates c db)

  run_templates-NamesIndexed :
      (cs : List TemplateCall) (db : TemplateDb b)
      → HaveNewIds cs db
      → NamesIndexed b db
      → NamesIndexed b (run_templates cs db)
  unfolding run_templates call_templates
  run_templates-NamesIndexed [] db h s = s
  run_templates-NamesIndexed (creates new_id now t ∷ cs) db h s =
      run_templates-NamesIndexed cs _ h.1 (create_template-NamesIndexed b db s new_id now t h.0)
  run_templates-NamesIndexed (updates now t ∷ cs) db h s =
      run_templates-NamesIndexed cs _ h.1 (update_template-NamesIndexed b db s now t)
  run_templates-NamesIndexed (deletes id ∷ cs) db h s =
      run_templates-NamesIndexed cs _ h.1 (delete_template-NamesIndexed b db s id)

  decode_template-some :
      (o : Option StoredTemplate) (t : EmailTemplate)
      → decode_template b o ≡ some (some t)
      → o ≡ some (as_json t)
  decode_template-some none t h = absurd cc
  decode_template-some (some (as_json u)) t h = cc h
  decode_template-some (some undecodable) t h = absurd cc

  template_by_name-cases :
      (db : TemplateDb b) (n : Text)
      → NamesIndexed b db
      → ((t : EmailTemplate) × (template_by_name b n db ≡ some (some t))
          × (t.name ≡ n)
          × (template_by_id b t.id db ≡ some (some t)))
        ⊎ (template_by_name b n db ≡ some none)
  unfolding template_by_id template_by_name
  template_by_name-cases db n s = elim (Option-cases (by_name.get db.names n)) [
    | inl q ↦ inr (rw (template_by_name, q) refl)
    | inr (k, q) ↦
        let (t, g, same) = s.names_one n k q in
        inl (
          t,
          rw (template_by_name, q, g) refl,
          same,
          ap (λ x. template_by_id b x db) (s.own_id k t g) ∙ ap (decode_template b) g,
        )
  ]

  -- If uuid.New gives new ids, then after any calls, failing ones included, on a new database: a
  -- template that is found by its id is found by its name; one that is found by a name has that name
  -- and is found by its id; and looking a name up is never an error.
  pub run_templates-Found :
      (cs : List TemplateCall)
      → HaveNewIds cs (empty_templates b)
      → let db = run_templates cs (empty_templates b) in
        ((k : Text) (t : EmailTemplate)
          → template_by_id b k db ≡ some (some t)
          → template_by_name b t.name db ≡ some (some t))
        × ((n : Text) (t : EmailTemplate)
            → template_by_name b n db ≡ some (some t)
            → (t.name ≡ n) × (template_by_id b t.id db ≡ some (some t)))
        × ((n : Text) → template_by_name b n db ≢ none)
  unfolding template_by_id template_by_name
  run_templates-Found cs h =
      let db = run_templates cs (empty_templates b) in
      let s = run_templates-NamesIndexed cs (empty_templates b) h (empty-NamesIndexed b) in
      (
        λ k t f.
            let stored = decode_template-some (by_id.get db.templates k) t f in
            rw (template_by_name, s.indexed k t stored) f,
        λ n t f. elim (template_by_name-cases db n s) [
          | inr e ↦ absurd (cc (e, f))
          | inl (u, e, same, i) ↦
              let found : u ≡ t = cc (e, f) in
              subst (λ x. (x.name ≡ n) × (template_by_id b x.id db ≡ some (some x))) found (same, i)
        ],
        λ n f. elim (template_by_name-cases db n s) [
          | inr e ↦ absurd (cc (e, f))
          | inl (u, e, same, i) ↦ absurd (cc (e, f))
        ],
      )
