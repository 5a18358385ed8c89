-- ===== src/Options/Keys.antt =====
-- The loops of object_store_factory that fill a map by the texts of known keys, and that parse them.
use seafowl.Prelude.{
  ◌≡◌, refl, ap, sym, ◌∙◌, String, Bool, true, false, Bool-cases, inl, inr, Option, none, some,
  List, [], ◌∷◌, All, if◌then◌else◌, str_eq, str_eq_iff,
}
use seafowl.Prelude.Map.{Eq, string_eq, lookup, insert, Unique, lookup-insert, insert-Unique}
use seafowl.Options.{Map, ok, insert_some, map_options}

module _ {C : Type 0} ⦃e : Eq C⦄ (as_ref : C → String) (from_str : String → Option C)
    (law : (k : C) → from_str (as_ref k) ≡ some k) where
  -- Every key of the map is the text of a known key.
  abbrev pub AllKnown : Map → Type 0
  AllKnown = All (λ p. (k : C) × (p.0 ≡ as_ref k))

  abbrev pub or_else : Option String → Option String → Option String
  or_else none o = o
  or_else (some v) o = some v

  pub as_ref-eq : (a b : C) → str_eq (as_ref a) (as_ref b) ≡ e.eq a b
  as_ref-eq a b = elim (Bool-cases (e.eq a b)) [
    | inl y ↦
        let same : a ≡ b = (e.eq_iff a b).0 y in
        (str_eq_iff (as_ref a) (as_ref b)).1 (ap as_ref same) ∙ sym y
    | inr n ↦ elim (Bool-cases (str_eq (as_ref a) (as_ref b))) [
      | inl y ↦
          let texts = (str_eq_iff (as_ref a) (as_ref b)).0 y in
          let same : a ≡ b = let p = law a in let q = law b in cc in
          absurd (let z = (e.eq_iff a b).1 same in cc)
      | inr x ↦ x ∙ sym n
    ]
  ]

  -- Parsing the keys of a map, each of which is known, keeps what each key is mapped to.
  pub map_options-lookup :
      (l : Map) (acc : List (C × String))
      → Unique l
      → AllKnown l
      → (m : List (C × String)) × (map_options from_str l acc ≡ ok m)
        × ((k : C) → lookup k m ≡ or_else (lookup (as_ref k) l) (lookup k acc))
  unfolding map_options lookup
  map_options-lookup [] acc u h = (acc, refl, λ k. refl)
  map_options-lookup ((key, v) ∷ l) acc (fresh, u) ((c, known), h) =
      let (m, run, found) = map_options-lookup l (insert c v acc) u h in
      (
        m,
        rw known (rw (law c, map_options) run),
        λ k. found k ∙ elim (Bool-cases (e.eq k c)) [
          | inl y ↦
              let same : k ≡ c = (e.eq_iff k c).0 y in
              let gone : lookup (as_ref k) l ≡ none =
                ap (λ q. lookup q l) (ap as_ref same ∙ sym known) ∙ fresh in
              rw (known, as_ref-eq k c, lookup-insert c k v acc, y, gone)
          | inr n ↦ rw (known, as_ref-eq k c, lookup-insert c k v acc, n)
        ],
      )

  pub or_else-none : (o : Option String) → or_else o none ≡ o
  or_else-none none = refl
  or_else-none (some v) = refl

  pub lookup-insert_some :
      (k r : C) (o : Option String) (m : Map)
      → lookup (as_ref k) (insert_some (as_ref r) o m)
        ≡ (if e.eq k r then or_else o (lookup (as_ref k) m) else lookup (as_ref k) m)
  unfolding insert_some
  lookup-insert_some k r none m = if_same (e.eq k r) (lookup (as_ref k) m)
    where
      if_same : (q : Bool) (x : Option String) → x ≡ (if q then x else x)
      if_same true x = refl
      if_same false x = refl
  lookup-insert_some k r (some v) m = rw (lookup-insert (as_ref r) (as_ref k) v m, as_ref-eq k r)

  insert_some-Unique :
      (r : C) (o : Option String) (m : Map) → Unique m → Unique (insert_some (as_ref r) o m)
  unfolding insert_some
  insert_some-Unique r none m u = u
  insert_some-Unique r (some v) m u = insert-Unique (as_ref r) v m u

  insert-AllKnown : (r : C) (v : String) (m : Map) → AllKnown m → AllKnown (insert (as_ref r) v m)
  unfolding insert
  insert-AllKnown r v [] h = ((r, refl), tt)
  insert-AllKnown r v ((j, w) ∷ m) (k, h) = elim (Bool-cases (str_eq (as_ref r) j)) [
    | inl y ↦ rw y ((r, refl), h)
    | inr n ↦ rw n (k, insert-AllKnown r v m h)
  ]

  insert_some-AllKnown :
      (r : C) (o : Option String) (m : Map) → AllKnown m → AllKnown (insert_some (as_ref r) o m)
  unfolding insert_some
  insert_some-AllKnown r none m h = h
  insert_some-AllKnown r (some v) m h = insert-AllKnown r v m h

  -- A map of known keys, without a key twice.
  pub record IsOptions (m : Map) : Type 0 where
    pub unique : Unique m
    pub known : AllKnown m

  pub insert_some-IsOptions :
      (r : C) (o : Option String) (m : Map) → IsOptions m → IsOptions (insert_some (as_ref r) o m)
  insert_some-IsOptions r o m h = record {
    unique = insert_some-Unique r o m h.unique;
    known = insert_some-AllKnown r o m h.known;
  }

  pub insert-IsOptions :
      (r : C) (v : String) (m : Map) → IsOptions m → IsOptions (insert (as_ref r) v m)
  insert-IsOptions r v m h = record {
    unique = insert-Unique (as_ref r) v m h.unique;
    known = insert-AllKnown r v m h.known;
  }
