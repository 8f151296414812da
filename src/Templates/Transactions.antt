-- ===== src/Templates/Transactions.antt =====
-- Each transaction of internal/template/storage.go keeps the index of the names, and a failing one
-- changes nothing.
use sendry.Base.{
  ℕ, ◌+◌, ◌≡◌, refl, ap, ◌∙◌, none, some, Text, text_eq, text_eq_iff, is_empty, Bool-cases,
  Option-cases, inl, inr, arith, ◌⊎◌, if◌then◌else◌,
}
use sendry.Templates.{
  EmailTemplate, as_json, undecodable, TemplateBuckets, TemplateDb, create_in_tx, create_template,
  reindex, update_template_in_tx, update_template, delete_template_in_tx, delete_template,
}
use sendry.Templates.Names.{NamesIndexed}
use sendry.Templates.Changes.{put_new-NamesIndexed, remove-NamesIndexed, replace-NamesIndexed}

module _ (b : TemplateBuckets) (db : TemplateDb b) (s : NamesIndexed b db) where
  open b use {by_id, by_name}

  pub create_template-NamesIndexed :
      (new_id : Text) (now : ℕ) (t : EmailTemplate)
      → by_id.get db.templates new_id ≡ none
      → NamesIndexed b (create_template b new_id now t db).1
  unfolding create_template create_in_tx
  create_template-NamesIndexed new_id now t fresh =
      let made : EmailTemplate = record t {
        id = new_id;
        version = 1;
        created_at = now;
        updated_at = now;
      } in
      elim (Bool-cases (is_empty t.name)) [
        | inl e ↦ rw (create_template, e) s
        | inr e ↦ elim (Option-cases (by_name.get db.names t.name)) [
          | inr (other, q) ↦ rw (create_template, create_in_tx, e, q) s
          | inl q ↦ elim (Option-cases (by_id.put db.templates new_id (as_json made))) [
            | inl p ↦ rw (create_template, create_in_tx, e, q, p) s
            | inr (ts, p) ↦ elim (Option-cases (by_name.put db.names t.name new_id)) [
              | inl r ↦ rw (create_template, create_in_tx, e, q, p, r) s
              | inr (ns, r) ↦
                  rw (create_template, create_in_tx, e, q, p, r)
                    (put_new-NamesIndexed b db made ts ns fresh q p r s)
            ]
          ]
        ]
      ]

  pub delete_template-NamesIndexed : (id : Text) → NamesIndexed b (delete_template b id db).1
  unfolding delete_template delete_template_in_tx
  delete_template-NamesIndexed id = elim (Option-cases (by_id.get db.templates id)) [
    | inl q ↦ rw (delete_template, delete_template_in_tx, q) s
    | inr (undecodable, q) ↦ rw (delete_template, delete_template_in_tx, q) s
    | inr (as_json t, q) ↦
        rw (delete_template, delete_template_in_tx, q) (remove-NamesIndexed b db id t q s)
  ]

  -- What the index gives after `reindex`, and that the new name was free.
  reindex-get :
      (old : EmailTemplate) (new id : Text) (ns : by_name.Carrier)
      → by_id.get db.templates id ≡ some (as_json old)
      → reindex b old.name new id db.names ≡ some ns
      → ((n : Text)
          → by_name.get ns n ≡ (
              if text_eq new n
              then some id
              else if text_eq old.name n
              then none
              else by_name.get db.names n))
        × ((by_name.get db.names new ≡ none) ⊎ (old.name ≡ new))
  unfolding reindex
  reindex-get old new id ns f e = elim (Bool-cases (text_eq old.name new)) [
    | inl y ↦
        let same : ns ≡ db.names = ground (arith, e, y) in
        (
          λ n. ground (
            arith,
            ap (λ x. by_name.get x n) same,
            s.indexed id old f,
            text_eq_iff old.name new,
            text_eq_iff new n,
          ),
          inr ((text_eq_iff old.name new).0 y),
        )
    | inr y ↦ elim (Option-cases (by_name.get db.names new)) [
      | inr (other, q) ↦ absurd (ground (arith, e, y, q))
      | inl q ↦
          let put : by_name.put (by_name.delete db.names old.name) new id ≡ some ns =
            ground (arith, e, y, q) in
          (
            λ n.
                by_name.get-put _ ns new n id put
                ∙ ap (λ x. if text_eq new n then some id else x)
                    (by_name.get-delete db.names old.name n),
            inl q,
          )
    ]
  ]

  pub update_template-NamesIndexed :
      (now : ℕ) (t : EmailTemplate) → NamesIndexed b (update_template b now t db).1
  unfolding update_template update_template_in_tx
  update_template-NamesIndexed now t = elim (Option-cases (by_id.get db.templates t.id)) [
    | inl q ↦ rw (update_template, update_template_in_tx, q) s
    | inr (undecodable, q) ↦ rw (update_template, update_template_in_tx, q) s
    | inr (as_json old, q) ↦ elim (Option-cases (reindex b old.name t.name t.id db.names)) [
      | inl r ↦ rw (update_template, update_template_in_tx, q, r) s
      | inr (ns, r) ↦
          let t' : EmailTemplate = record t {
            version = old.version + 1;
            created_at = old.created_at;
            updated_at = now;
          } in
          elim (Option-cases (by_id.put db.templates t.id (as_json t'))) [
            | inl p ↦ rw (update_template, update_template_in_tx, q, r, p) s
            | inr (ts, p) ↦
                let (names, free) = reindex-get old t.name t.id ns q r in
                rw (update_template, update_template_in_tx, q, r, p)
                  (replace-NamesIndexed b db t.id old t' ts ns q refl
                    (λ k. by_id.get-put db.templates ts t.id k (as_json t') p) names free s)
          ]
    ]
  ]
