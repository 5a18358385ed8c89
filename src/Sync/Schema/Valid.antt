-- ===== src/Sync/Schema/Valid.antt =====
-- schema.rs, the loop of `SyncSchema::try_new`: what it has checked and collected when it succeeds.
use seafowl.Prelude.{
  ◌≡◌, ◌≢◌, ◌↔◌, ◌⊎◌, inl, inr, refl, sym, ◌∙◌, arith, String, Bool, true, false, ◌||◌, Bool-cases,
  Option-cases, Option, none, some, List, [], ◌∷◌, str_eq_iff,
}
use seafowl.Prelude.Map.{Eq, member, insert_member, member-insert}
use seafowl.Sync.Schema.{
  ColumnRole, old_pk, new_pk, changed, value, try_from, ColumnDescriptor, ok, DataTypes, Field, Key,
  key_eq, has_value, check_changed, check_columns, all_members, same_members,
}

module _ {K : Type 0} ⦃e : Eq K⦄ where
  -- The same elements.
  abbrev pub SameMembers : List K → List K → Type 0
  SameMembers ks js = (k : K) → (member k ks ≡ true) ↔ (member k js ≡ true)

  all_members_sound :
      (ks js : List K)
      → all_members ks js ≡ true
      → (k : K) → member k ks ≡ true
      → member k js ≡ true
  unfolding all_members member
  all_members_sound [] js h k m = cc
  all_members_sound (j ∷ ks) js h k m =
      ground (arith, e.eq_iff k j, all_members_sound ks js (ground arith) k)

  all_members_complete :
      (ks js : List K)
      → ((k : K) → member k ks ≡ true → member k js ≡ true)
      → all_members ks js ≡ true
  unfolding all_members member
  all_members_complete [] js h = refl
  all_members_complete (j ∷ ks) js h =
      let here = h j (ground (arith, e.eq_iff j j)) in
      ground (arith, here, all_members_complete ks js (λ k m. h k (ground arith)))

  pub same_members_iff : (ks js : List K) → (same_members ks js ≡ true) ↔ SameMembers ks js
  unfolding same_members
  same_members_iff ks js = (
    λ h k. (all_members_sound ks js (ground arith) k, all_members_sound js ks (ground arith) k),
    λ h. ground (
      arith,
      all_members_complete ks js (λ k. (h k).0),
      all_members_complete js ks (λ k. (h k).1),
    ),
  )

or_true : (b : Bool) → (b || true) ≡ true
or_true true = refl
or_true false = refl

module _ (types : DataTypes) where
  instance abbrev keys : Eq (Key types)
  keys = key_eq types

  -- Some column has the role and this name and type.
  abbrev pub HasKey : ColumnRole → Key types → List (ColumnDescriptor × Field types) → Type 0
  HasKey r x [] = ⊥
  HasKey r x ((cd, field) ∷ l) =
      ((try_from cd.role ≡ some r) × ((cd.name, field.data_type) ≡ x)) ⊎ HasKey r x l

  -- Some descriptor has this name and the number of the value role.
  abbrev pub HasValue : String → List ColumnDescriptor → Type 0
  HasValue name [] = ⊥
  HasValue name (cd ∷ cds) = ((name ≡ cd.name) × (cd.role ≡ 3)) ⊎ HasValue name cds

  -- A known role; a flag is a boolean that is never null, and names a column with a value.
  abbrev pub IsGood : List ColumnDescriptor → ColumnDescriptor → Field types → Type 0
  IsGood all cd field =
      (try_from cd.role ≢ none)
      × (try_from cd.role ≡ some changed
          → (field.data_type ≡ types.boolean) × (field.is_nullable ≡ false) × HasValue cd.name all)

  abbrev pub AllGood : List ColumnDescriptor → List (ColumnDescriptor × Field types) → Type 0
  AllGood all [] = Unit
  AllGood all ((cd, field) ∷ l) = IsGood all cd field × AllGood all l

  has_value_sound :
      (name : String) (cds : List ColumnDescriptor)
      → has_value types name cds ≡ true
      → HasValue name cds
  unfolding has_value
  has_value_sound name [] h = cc
  has_value_sound name (cd ∷ cds) h =
      ground (arith, str_eq_iff name cd.name, has_value_sound name cds)

  has_value_complete :
      (name : String) (cds : List ColumnDescriptor)
      → HasValue name cds
      → has_value types name cds ≡ true
  unfolding has_value
  has_value_complete name [] h = absurd h
  has_value_complete name (cd ∷ cds) (inl h) = ground (arith, str_eq_iff name cd.name)
  has_value_complete name (cd ∷ cds) (inr h) = ground (arith, has_value_complete name cds h)

  pub check_changed_iff :
      (all : List ColumnDescriptor) (cd : ColumnDescriptor) (field : Field types)
      → (check_changed types all cd field ≡ none)
        ↔ ((field.data_type ≡ types.boolean) × (field.is_nullable ≡ false) × HasValue cd.name all)
  unfolding check_changed
  check_changed_iff all cd field = (
    λ h. (
      ground (arith, types.type_eq.eq_iff field.data_type types.boolean),
      ground arith,
      has_value_sound cd.name all (ground arith),
    ),
    λ (t, n, v). ground (
      arith,
      types.type_eq.eq_iff field.data_type types.boolean,
      has_value_complete cd.name all v,
    ),
  )

  -- The sets of keys after the loop.
  abbrev pub Collects :
      ColumnRole
      → List (ColumnDescriptor × Field types)
      → List (Key types)
      → List (Key types)
      → Type 0
  Collects r l before after =
      (x : Key types) → (member x after ≡ true) ↔ ((member x before ≡ true) ⊎ HasKey r x l)

  abbrev pub Checked :
      List ColumnDescriptor
      → List (ColumnDescriptor × Field types)
      → List (Key types)
      → List (Key types)
      → List (Key types)
      → List (Key types)
      → Type 0
  Checked all l olds news olds' news' =
      AllGood all l × Collects old_pk l olds olds' × Collects new_pk l news news'

  -- One more column; which set it adds a key to depends on its role.
  module _ (all : List ColumnDescriptor) (cd : ColumnDescriptor) (field : Field types)
      (l : List (ColumnDescriptor × Field types)) where
    abbrev key : Key types
    key = (cd.name, field.data_type)

    member_insert_inv :
        (x : Key types) (before : List (Key types))
        → member x (insert_member key before) ≡ true
        → (x ≡ key) ⊎ (member x before ≡ true)
    member_insert_inv x before m = elim (Bool-cases (keys.eq x key)) [
      | inl y ↦ inl ((keys.eq_iff x key).0 y)
      | inr y ↦ inr (let both = sym (member-insert key x before) ∙ m in (rw y at both))
    ]

    member_insert_old :
        (x : Key types) (before : List (Key types))
        → member x before ≡ true
        → member x (insert_member key before) ≡ true
    member_insert_old x before m = rw (member-insert key x before, m) (or_true (keys.eq x key))

    member_insert_key :
        (x : Key types) (before : List (Key types))
        → x ≡ key
        → member x (insert_member key before) ≡ true
    member_insert_key x before same = rw (member-insert key x before, (keys.eq_iff x key).1 same)

    add_key :
        (r : ColumnRole) (before after : List (Key types))
        → try_from cd.role ≡ some r
        → Collects r l (insert_member key before) after
        → Collects r ((cd, field) ∷ l) before after
    add_key r before after p h x = (
      λ m. elim ((h x).0 m) [
        | inl y ↦ elim (member_insert_inv x before y) [
          | inl same ↦ inr (inl (p, sym same))
          | inr old ↦ inl old
        ]
        | inr y ↦ inr (inr y)
      ],
      λ m. elim m [
        | inl y ↦ (h x).1 (inl (member_insert_old x before y))
        | inr (inl (_, same)) ↦ (h x).1 (inl (member_insert_key x before (sym same)))
        | inr (inr y) ↦ (h x).1 (inr y)
      ],
    )

    skip_key :
        (r r' : ColumnRole) (before after : List (Key types))
        → try_from cd.role ≡ some r'
        → r ≢ r'
        → Collects r l before after
        → Collects r ((cd, field) ∷ l) before after
    skip_key r r' before after p n h x = (
      λ m. elim ((h x).0 m) [ inl y ↦ inl y | inr y ↦ inr (inr y) ],
      λ m. elim m [
        | inl y ↦ (h x).1 (inl y)
        | inr (inl (q, _)) ↦ absurd (n (cc))
        | inr (inr y) ↦ (h x).1 (inr y)
      ],
    )

  abbrev IsSound : List ColumnDescriptor → List (ColumnDescriptor × Field types) → Type 0
  IsSound all l =
      (olds news olds' news' : List (Key types))
      → check_columns types all l olds news ≡ ok (olds', news')
      → Checked all l olds news olds' news'

  pub check_columns_sound :
      (all : List ColumnDescriptor) (l : List (ColumnDescriptor × Field types))
      (olds news olds' news' : List (Key types))
      → check_columns types all l olds news ≡ ok (olds', news')
      → Checked all l olds news olds' news'
  unfolding check_columns
  check_columns_sound all [] olds news olds' news' h = (tt, λ x. ground arith, λ x. ground arith)
  check_columns_sound all ((cd, field) ∷ l) olds news olds' news' h =
      go (try_from cd.role) refl (check_columns_sound all l)
    where
      go :
          (r : Option ColumnRole)
          → try_from cd.role ≡ r
          → IsSound all l
          → Checked all ((cd, field) ∷ l) olds news olds' news'
      go none p ih = absurd (let h' = (rw (p, check_columns) at h) in cc)
      go (some value) p ih =
          let (g, o, n) = ih olds news olds' news' (rw (p, check_columns) at h) in
          (
            ((λ z. cc, λ z. absurd (cc)), g),
            skip_key all cd field l old_pk value olds olds' p (λ z. cc) o,
            skip_key all cd field l new_pk value news news' p (λ z. cc) n,
          )
      go (some old_pk) p ih =
          let (g, o, n) =
            ih (insert_member (key all cd field l) olds) news olds' news'
              (rw (p, check_columns) at h) in
          (
            ((λ z. cc, λ z. absurd (cc)), g),
            add_key all cd field l old_pk olds olds' p o,
            skip_key all cd field l new_pk old_pk news news' p (λ z. cc) n,
          )
      go (some new_pk) p ih =
          let (g, o, n) =
            ih olds (insert_member (key all cd field l) news) olds' news'
              (rw (p, check_columns) at h) in
          (
            ((λ z. cc, λ z. absurd (cc)), g),
            skip_key all cd field l old_pk new_pk olds olds' p (λ z. cc) o,
            add_key all cd field l new_pk news news' p n,
          )
      go (some changed) p ih = elim (Option-cases (check_changed types all cd field)) [
        | inl fine ↦
            let (g, o, n) =
              ih olds news olds' news' (let h' = (rw (p, check_columns) at h) in (rw fine at h')) in
            (
              ((λ z. cc, λ z. (check_changed_iff all cd field).0 fine), g),
              skip_key all cd field l old_pk changed olds olds' p (λ z. cc) o,
              skip_key all cd field l new_pk changed news news' p (λ z. cc) n,
            )
        | inr (x, bad) ↦
            absurd (let h' = (rw (p, check_columns) at h) in let h'' = (rw bad at h') in cc)
      ]
