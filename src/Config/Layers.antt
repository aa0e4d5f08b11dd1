-- ===== src/Config/Layers.antt =====
-- Which layer a setting comes from.
use generic_text_gateway.Common.{
  if◌then◌else◌, Bool-cases, nat_eq, lookup, lookup-insert, Text, text_beq, text_beq_iff, text_eq,
  ◌≡◌, refl, ap, ◌∙◌, inl, inr, Bool, true, false, not, ◌&&◌, Option, none, some, List, [], ◌∷◌,
  ◌++◌,
}
use generic_text_gateway.Config.{
  Case, Schema, Config, is_some, or_value, is_user, set_item, set_items, from_env, load_config,
}

-- A later entry goes before an earlier one.
layered :
    (later : Option Text) (named : Bool) (value d : Text)
    → or_value later (if named then value else d)
      ≡ or_value (elim later [ some v ↦ some v | none ↦ if named then some value else none ]) d
layered (some v) named value d = refl
layered none true value d = refl
layered none false value d = refl

module _ (py : Case) (schema : Schema) where
  -- The last entry of the file that names a setting.
  unfoldable pub file_value : Text → List (Text × Text) → Option Text
  file_value key [] = none
  file_value key ((name, value) ∷ items) =
      let later = file_value key items in
      elim later [
        | some v ↦ some v
        | none ↦
            if not (is_user py schema name) && text_beq (py.upper name) key
            then some value
            else none
      ]

  -- One entry, for a setting that there is.
  set_item-lookup :
      (key name value : Text) (c : Config) {d : Text}
      → lookup key c.vals ≡ some d
      → lookup key (set_item py schema (name, value) c).vals
        ≡ some (if not (is_user py schema name) && text_beq (py.upper name) key then value else d)
  unfolding set_item
  set_item-lookup key name value c {d} h = elim (Bool-cases (is_user py schema name)) [
    | inl user ↦ rw (user) h
    | inr setting ↦ elim (Bool-cases (text_beq (py.upper name) key)) [
      | inl same ↦
          let there : py.upper name ≡ key = (text_beq_iff (py.upper name) key).0 same in
          let known : is_some (lookup (py.upper name) c.vals) ≡ true =
            ap (λ k. is_some (lookup k c.vals)) there ∙ ap is_some h in
          rw (setting, known, same)
            (lookup-insert (py.upper name) key value c.vals ∙ rw (same) refl)
      | inr other ↦ elim (Bool-cases (is_some (lookup (py.upper name) c.vals))) [
        | inl known ↦
            rw (setting, known, other)
              (lookup-insert (py.upper name) key value c.vals ∙ rw (other) h)
        | inr unknown ↦ rw (setting, unknown, other) h
      ]
    ]
  ]

  set_items-lookup :
      (key : Text) (items : List (Text × Text)) (c : Config) {d : Text}
      → lookup key c.vals ≡ some d
      → lookup key (set_items py schema items c).vals ≡ some (or_value (file_value key items) d)
  unfolding set_items file_value
  set_items-lookup key [] c h = h
  set_items-lookup key ((name, value) ∷ items) c {d} h =
      set_items-lookup key items (set_item py schema (name, value) c)
        (set_item-lookup key name value c h)
      ∙ ap some (
          layered (file_value key items)
            (not (is_user py schema name) && text_beq (py.upper name) key) value d)

  from_env-lookup :
      (key : Text) (env vals : List (Text × Text))
      → lookup key (from_env py schema env vals) ≡ (elim (lookup key vals) [
        | none ↦ none
        | some v ↦ some (or_value (lookup (schema.prefix ++ key) env) v)
      ])
  unfolding from_env lookup
  from_env-lookup key env [] = refl
  from_env-lookup key env ((k, v) ∷ vals) = elim (Bool-cases (text_beq k key)) [
    | inl same ↦ rw (same) (
        ap (λ x. some (or_value (lookup (schema.prefix ++ x) env) v)) ((text_beq_iff k key).0 same))
    | inr other ↦ rw (other) (from_env-lookup key env vals)
  ]

  -- Each setting that has a default has a value, which is that of the environment's variable of its name behind the prefix,
  -- if there is one; else that of the last entry of the file that names it, in any case of letters and not as a
  -- principal, if there is one; else its default.
  pub load_config-lookup :
      (env items : List (Text × Text)) (key : Text) {d : Text}
      → lookup key schema.defaults ≡ some d
      → lookup key (load_config py schema env items).vals
        ≡ some (or_value (lookup (schema.prefix ++ key) env) (or_value (file_value key items) d))
  unfolding load_config
  load_config-lookup env items key {d} h =
      let c : Config = record { vals = schema.defaults; users = [] } in
      rw
        (from_env-lookup key env (set_items py schema items c).vals, set_items-lookup key items c h)
        refl
