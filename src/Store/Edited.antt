-- ===== src/Store/Edited.antt =====
-- server/db/sqlite.go: a template that is created and edited is read back.
use ironbird.Base.{
  ℕ, ◌≡◌, refl, inl, inr, String, true, false, Option, some, List, [], ◌∷◌, ◌++◌, arith, str_eq,
  eq_iff, Bool-cases,
}
use ironbird.Base.Action.{ok, pure, raise, gets, modify, ◌>>=◌}
use ironbird.Store.Templates.{
  Template, TemplateRow, has_template, find_template, edit_templates, needs, change_template,
  create_template, update_template, get_template, decode_template,
}

has_template-append :
    (r : TemplateRow) (rows : List TemplateRow)
    → has_template r.template_id (rows ++ (r ∷ [])) ≡ true
unfolding has_template
has_template-append r [] = ground (arith, eq_iff r.template_id r.template_id)
has_template-append r (s ∷ rows) = ground (arith, has_template-append r rows)

module _ (r : TemplateRow) (description config : String) where
  find-edit :
      (rows : List TemplateRow)
      → has_template r.template_id rows ≡ false
      → find_template r.template_id
          (edit_templates r.template_id description config (rows ++ (r ∷ [])))
        ≡ some (record r { description = description; config = config })
  unfolding has_template find_template edit_templates
  find-edit [] h = let same = (eq_iff r.template_id r.template_id).1 refl in rw (same, same) refl
  find-edit (s ∷ rows) h = elim (Bool-cases (str_eq s.template_id r.template_id)) [
    | inl same ↦ ground arith
    | inr other ↦ rw (other, other, find-edit rows (ground arith)) refl
  ]

module _ {Config : Type 0} (config_text : Config → Option String)
    (config_of : String → Option Config) where
  -- A template whose id is free, with configurations that are encoded and decoded, is created and then
  -- edited: both succeed, and reading it yields the new description and configuration with the old
  -- creator and the time of the creation.
  pub update_template-get :
      (now : ℕ) (t u : Template Config) (rows : List TemplateRow) (a b : String)
      → config_text t.config ≡ some a
      → config_text u.config ≡ some b
      → config_of b ≡ some u.config
      → has_template t.id rows ≡ false
      → ((create_template config_text now t rows).0 ≡ ok tt)
        × ((update_template config_text t.id u (create_template config_text now t rows).1).0
            ≡ ok tt)
        × ((get_template config_of t.id
              (update_template config_text t.id u (create_template config_text now t rows).1).1).0
            ≡ ok (record {
              id = t.id;
              description = u.description;
              config = u.config;
              created_at = now;
              created_by = t.created_by;
            }))
  unfolding create_template update_template get_template decode_template change_template needs pure
      raise gets modify ◌>>=◌
  update_template-get now t u rows a b ea eb ed free =
      let r : TemplateRow = record {
        template_id = t.id;
        description = t.description;
        config = a;
        created_at = now;
        created_by = t.created_by;
      } in
      rw (ea, eb, free, has_template-append r rows, find-edit r u.description b rows free, ed)
        (refl, refl, refl)
