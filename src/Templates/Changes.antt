-- ===== src/Templates/Changes.antt =====
-- The transactions of internal/template/storage.go keep the index of the names.
use sendry.Base.{
  ◌≡◌, none, some, Text, text_eq, text_eq_iff, text_eq_refl, Bool-cases, inl, inr, arith, ◌⊎◌,
  if◌then◌else◌,
}
use sendry.Templates.{EmailTemplate, as_json, TemplateBuckets, TemplateDb, empty_templates}
use sendry.Templates.Names.{NamesIndexed}

module _ (b : TemplateBuckets) where
  open b use {by_id, by_name}

  pub empty-NamesIndexed : NamesIndexed b (empty_templates b)
  empty-NamesIndexed = record {
    own_id = λ k t h. absurd (cc (h, by_id.get-empty k));
    indexed = λ k t h. absurd (cc (h, by_id.get-empty k));
    names_one = λ n k h. absurd (cc (h, by_name.get-empty n));
  }

  -- A template under a new id, with its name new in the index.
  pub put_new-NamesIndexed :
      (db : TemplateDb b) (t : EmailTemplate) (ts : by_id.Carrier) (ns : by_name.Carrier)
      → by_id.get db.templates t.id ≡ none
      → by_name.get db.names t.name ≡ none
      → by_id.put db.templates t.id (as_json t) ≡ some ts
      → by_name.put db.names t.name t.id ≡ some ns
      → NamesIndexed b db
      → NamesIndexed b (record { templates = ts; names = ns })
  put_new-NamesIndexed db t ts ns fresh free p q s = record {
    own_id = λ k u h. ground (
      arith,
      by_id.get-put db.templates ts t.id k (as_json t) p,
      text_eq_iff t.id k,
      s.own_id k u,
    );
    indexed = λ k u h. ground (
      arith,
      by_id.get-put db.templates ts t.id k (as_json t) p,
      by_name.get-put db.names ns t.name u.name t.id q,
      text_eq_iff t.id k,
      text_eq_iff t.name u.name,
      s.indexed k u,
    );
    names_one = λ n k h. elim (Bool-cases (text_eq t.name n)) [
      | inl y ↦ (
        t,
        ground (
          arith,
          by_id.get-put db.templates ts t.id k (as_json t) p,
          by_name.get-put db.names ns t.name n t.id q,
          text_eq_iff t.id k,
        ),
        (text_eq_iff t.name n).0 y,
      )
      | inr y ↦
          let old : by_name.get db.names n ≡ some k =
            ground (arith, by_name.get-put db.names ns t.name n t.id q) in
          let (u, g, same) = s.names_one n k old in
          (
            u,
            ground
                (arith, g, by_id.get-put db.templates ts t.id k (as_json t) p, text_eq_iff t.id k),
            same,
          )
    ];
  }

  -- A template is taken away with its name.
  pub remove-NamesIndexed :
      (db : TemplateDb b) (id : Text) (t : EmailTemplate)
      → by_id.get db.templates id ≡ some (as_json t)
      → NamesIndexed b db
      → NamesIndexed b (record {
        templates = by_id.delete db.templates id;
        names = by_name.delete db.names t.name;
      })
  remove-NamesIndexed db id t f s = record {
    own_id = λ k u h. ground (arith, by_id.get-delete db.templates id k, s.own_id k u);
    indexed = λ k u h. ground (
      arith,
      by_id.get-delete db.templates id k,
      by_name.get-delete db.names t.name u.name,
      text_eq_iff id k,
      text_eq_iff t.name u.name,
      s.indexed k u,
      s.indexed id t,
    );
    names_one = λ n k h.
        let old : by_name.get db.names n ≡ some k =
          ground (arith, by_name.get-delete db.names t.name n) in
        let (u, g, same) = s.names_one n k old in
        (
          u,
          ground (
            arith,
            g,
            same,
            by_id.get-delete db.templates id k,
            by_name.get-delete db.names t.name n,
            text_eq_iff id k,
            text_eq_iff t.name n,
          ),
          same,
        );
  }

  -- A template is replaced by another one under its id, whose name is its own or new in the index.
  pub replace-NamesIndexed :
      (db : TemplateDb b) (id : Text) (old t : EmailTemplate) (ts : by_id.Carrier)
      (ns : by_name.Carrier)
      → by_id.get db.templates id ≡ some (as_json old)
      → t.id ≡ id
      → ((k : Text)
          → by_id.get ts k ≡ (if text_eq id k then some (as_json t) else by_id.get db.templates k))
      → ((n : Text)
          → by_name.get ns n ≡ (
              if text_eq t.name n
              then some id
              else if text_eq old.name n
              then none
              else by_name.get db.names n))
      → (by_name.get db.names t.name ≡ none) ⊎ (old.name ≡ t.name)
      → NamesIndexed b db
      → NamesIndexed b (record { templates = ts; names = ns })
  replace-NamesIndexed db id old t ts ns f own put_id put_name free s = record {
    own_id = λ k u h. ground (arith, put_id k, text_eq_iff id k, s.own_id k u);
    indexed = λ k u h. elim (Bool-cases (text_eq id k)) [
      | inl y ↦ ground (arith, put_id k, put_name u.name, text_eq_iff id k, text_eq_refl t.name)
      | inr y ↦
          let before : by_id.get db.templates k ≡ some (as_json u) = ground (arith, put_id k) in
          ground (
            arith,
            put_name u.name,
            text_eq_iff id k,
            text_eq_iff t.name u.name,
            text_eq_iff old.name u.name,
            s.indexed k u before,
            s.indexed id old f,
          )
    ];
    names_one = λ n k h. elim (Bool-cases (text_eq t.name n)) [
      | inl y ↦
          (t, ground (arith, put_id k, put_name n, text_eq_iff id k), (text_eq_iff t.name n).0 y)
      | inr y ↦
          let before : by_name.get db.names n ≡ some k = ground (arith, put_name n) in
          let (u, g, same) = s.names_one n k before in
          (
            u,
            ground (arith, g, same, put_id k, put_name n, text_eq_iff id k, text_eq_iff old.name n),
            same,
          )
    ];
  }
