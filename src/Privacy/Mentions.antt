-- ===== src/Privacy/Mentions.antt =====
-- internal/privacy/raw.go: containsIdentity over a decoded payload.
use dayz_behaviour.Prelude.{
  ◌≡◌, refl, sym, ap, ◌∙◌, subst, ◌⊎◌, inl, inr, true, false, ◌||◌, none, some, String, arith,
  Bool-cases, Option-cases,
}
use dayz_behaviour.Prelude.Text.{str_eq, eq_iff}
use dayz_behaviour.Json.{
  Json, Items, Fields, null, bool, number, text, array, object, nil, item, end, field, get_field,
}
use dayz_behaviour.Privacy.{
  ScrubLib, raw_durable_id, identity_field_matches, has_key, text_matches, contains_identity,
  contains_in_items, contains_in_fields,
}
use dayz_behaviour.Privacy.Belongs.{Names, Mentions, names, in_field, in_item, IsItem}
use dayz_behaviour.Privacy.Durable.{raw_durable_id-IsDurable, IsDurable-raw_durable_id}

module _ (lib : ScrubLib) (identity : String) where
  open lib use {Number}

  identity_field_matches-Names :
      (key value : String)
      → identity_field_matches lib key value identity ≡ true
      → Names lib identity key value
  unfolding identity_field_matches
  identity_field_matches-Names key value h = ground (
    arith,
    eq_iff (raw_durable_id value) identity,
    eq_iff value identity,
    raw_durable_id-IsDurable value identity,
  )

  Names-identity_field_matches :
      (key value : String)
      → Names lib identity key value
      → identity_field_matches lib key value identity ≡ true
  unfolding identity_field_matches
  Names-identity_field_matches key value h = ground (
    arith,
    h,
    eq_iff (raw_durable_id value) identity,
    eq_iff value identity,
    IsDurable-raw_durable_id value identity,
  )

  -- a field of a map: a text that names the identity, or a value that mentions it
  abbrev FieldNames : String → Json Number → Type 0
  FieldNames key v =
      ((s : String) × (v ≡ text s) × Names lib identity key s) ⊎ Mentions lib identity v

  abbrev FieldMentions : Fields Number → Type 0
  FieldMentions fields =
      (key : String) × (v : Json Number) × (get_field key fields ≡ some v) × FieldNames key v

  text_matches-FieldNames :
      (key : String) (v : Json Number) → text_matches lib key v identity ≡ true → FieldNames key v
  unfolding text_matches
  text_matches-FieldNames key (text s) h = inl (s, refl, identity_field_matches-Names key s h)
  text_matches-FieldNames key null h = absurd (cc (h))
  text_matches-FieldNames key (bool b) h = absurd (cc (h))
  text_matches-FieldNames key (number n) h = absurd (cc (h))
  text_matches-FieldNames key (array items) h = absurd (cc (h))
  text_matches-FieldNames key (object fields) h = absurd (cc (h))

  has_key-get_field :
      (key : String) (fields : Fields Number)
      → has_key lib key fields ≡ false
      → get_field key fields ≡ none
  unfolding has_key get_field
  has_key-get_field key end h = refl
  has_key-get_field key (field k v rest) h =
      let here : str_eq k key ≡ false = ground (arith, h) in
      rw (get_field, has_key-get_field key rest (ground (arith, h)), here) refl

  get_field-has_key :
      (key : String) (fields : Fields Number)
      → get_field key fields ≡ none
      → has_key lib key fields ≡ false
  unfolding has_key get_field
  get_field-has_key key end h = refl
  get_field-has_key key (field k v rest) h = elim (Option-cases (get_field key rest)) [
    | inr (w, there) ↦ absurd (cc (rw (get_field, there) at h))
    | inl missing ↦ elim (Bool-cases (str_eq k key)) [
      | inl here ↦ absurd (cc (rw (get_field, missing, here) at h))
      | inr other ↦ ground (arith, other, get_field-has_key key rest missing)
    ]
  ]

  FieldMentions-object :
      (fields : Fields Number) → FieldMentions fields → Mentions lib identity (object fields)
  FieldMentions-object fields (key, v, there, inr inside) = in_field key v there inside
  FieldMentions-object fields (key, v, there, inl (s, same, named)) =
      names key s (there ∙ ap some same) named

  first-FieldMentions :
      (k : String) (v : Json Number) (rest : Fields Number)
      → has_key lib k rest ≡ false
      → FieldNames k v
      → FieldMentions (field k v rest)
  unfolding get_field
  first-FieldMentions k v rest last here =
      (k, v, rw (get_field, has_key-get_field k rest last, (eq_iff k k).1 refl) refl, here)

  rest-FieldMentions :
      (k : String) (v : Json Number) (rest : Fields Number)
      → FieldMentions rest
      → FieldMentions (field k v rest)
  unfolding get_field
  rest-FieldMentions k v rest (key, w, there, here) = (key, w, rw (get_field, there) refl, here)

  abbrev ItemMentions : Items Number → Type 0
  ItemMentions items = (v : Json Number) × IsItem v items × Mentions lib identity v

  ItemMentions-array :
      (items : Items Number) → ItemMentions items → Mentions lib identity (array items)
  ItemMentions-array items (v, there, inside) = in_item v there inside

  rest-ItemMentions :
      (w : Json Number) (rest : Items Number) → ItemMentions rest → ItemMentions (item w rest)
  rest-ItemMentions w rest (v, there, inside) = (v, inr there, inside)

  mutual
    unfolding contains_identity contains_in_items contains_in_fields

    pub contains_identity-Mentions :
        (v : Json Number) → contains_identity lib v identity ≡ true → Mentions lib identity v
    contains_identity-Mentions (object fields) h =
        FieldMentions-object fields (contains_in_fields-FieldMentions fields h)
    contains_identity-Mentions (array items) h =
        ItemMentions-array items (contains_in_items-ItemMentions items h)
    contains_identity-Mentions null h = absurd (cc (h))
    contains_identity-Mentions (bool b) h = absurd (cc (h))
    contains_identity-Mentions (number n) h = absurd (cc (h))
    contains_identity-Mentions (text s) h = absurd (cc (h))

    contains_in_items-ItemMentions :
        (items : Items Number) → contains_in_items lib items identity ≡ true → ItemMentions items
    contains_in_items-ItemMentions nil h = absurd (cc (h))
    contains_in_items-ItemMentions (item w rest) h =
        elim (Bool-cases (contains_identity lib w identity)) [
          | inl inside ↦ (w, inl refl, contains_identity-Mentions w inside)
          | inr outside ↦
              rest-ItemMentions w rest
                (contains_in_items-ItemMentions rest (ground (arith, h, outside)))
        ]

    contains_in_fields-FieldMentions :
        (fields : Fields Number)
        → contains_in_fields lib fields identity ≡ true
        → FieldMentions fields
    contains_in_fields-FieldMentions end h = absurd (cc (h))
    contains_in_fields-FieldMentions (field k v rest) h =
        elim (Bool-cases (contains_in_fields lib rest identity)) [
          | inl later ↦ rest-FieldMentions k v rest (contains_in_fields-FieldMentions rest later)
          | inr no_more ↦ elim (Bool-cases (text_matches lib k v identity)) [
            | inl named ↦
                first-FieldMentions k v rest (ground (arith, h, no_more))
                  (text_matches-FieldNames k v named)
            | inr plain ↦
                first-FieldMentions k v rest (ground (arith, h, no_more))
                  (inr (contains_identity-Mentions v (ground (arith, h, no_more, plain))))
          ]
        ]

  -- what makes a member count
  abbrev Counts : String → Json Number → Type 0
  Counts key v = (text_matches lib key v identity || contains_identity lib v identity) ≡ true

  get_field-contains :
      (fields : Fields Number) (key : String) (v : Json Number)
      → get_field key fields ≡ some v
      → Counts key v
      → contains_in_fields lib fields identity ≡ true
  unfolding contains_in_fields get_field
  get_field-contains end key v there counts = absurd (cc (there))
  get_field-contains (field k w rest) key v there counts =
      elim (Option-cases (get_field key rest)) [
        | inr (u, later) ↦
            let same : get_field key rest ≡ some v =
              later ∙ sym (rw (get_field, later) refl) ∙ there in
            ground (arith, get_field-contains rest key v same counts)
        | inl last ↦ elim (Bool-cases (str_eq k key)) [
          | inr other ↦ absurd (cc (rw (get_field, last, other) at there))
          | inl here ↦
              let same : w ≡ v = cc (rw (get_field, last, here) at there) in
              let named : k ≡ key = (eq_iff k key).0 here in
              let counts' : Counts k w =
                subst (λ (x : String). Counts x w) (sym named)
                  (subst (Counts key) (sym same) counts) in
              let missing : has_key lib k rest ≡ false =
                subst (λ (x : String). has_key lib x rest ≡ false) (sym named)
                  (get_field-has_key key rest last) in
              ground (arith, counts', missing)
        ]
      ]

  IsItem-contains :
      (items : Items Number) (v : Json Number)
      → IsItem v items
      → contains_identity lib v identity ≡ true
      → contains_in_items lib items identity ≡ true
  unfolding contains_in_items
  IsItem-contains nil v there inside = elim there [ ]
  IsItem-contains (item w rest) v (inl same) inside = rw (same, inside) refl
  IsItem-contains (item w rest) v (inr later) inside =
      let there = IsItem-contains rest v later inside in
      elim (Bool-cases (contains_identity lib w identity)) [
        | inl here ↦ rw (here) refl
        | inr other ↦ rw (other) there
      ]

  pub Mentions-contains_identity :
      (v : Json Number) → Mentions lib identity v → contains_identity lib v identity ≡ true
  unfolding contains_identity text_matches
  Mentions-contains_identity null there = elim there [ ]
  Mentions-contains_identity (bool b) there = elim there [ ]
  Mentions-contains_identity (number n) there = elim there [ ]
  Mentions-contains_identity (text s) there = elim there [ ]
  Mentions-contains_identity (object fields) (names key value there named) =
      get_field-contains fields key (text value) there
        (ground (arith, Names-identity_field_matches key value named))
  Mentions-contains_identity (object fields) (in_field key v there inside) =
      get_field-contains fields key v there (ground (arith, Mentions-contains_identity v inside))
  Mentions-contains_identity (array items) (in_item v there inside) =
      IsItem-contains items v there (Mentions-contains_identity v inside)
