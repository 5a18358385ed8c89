-- ===== src/Pushdown/Shipped.antt =====
-- filter_pushdown.rs: which expressions are shipped, and how `filter_expr_to_sql` can fail.
use seafowl.Prelude.{◌≡◌, refl, ◌∙◌, ap, Bool, true, false, ◌&&◌, Option, none, some}
use seafowl.Pushdown.{
  Text, Operator, Expr, column, literal, binary_expr, not_expr, negative, is_null, is_not_null,
  is_true, is_false, is_not_true, is_not_false, in_list, unsupported, Exprs, nil, cons,
  not_one_expression, Outcome, ok, err, panic, ◌>>=◌, DataFusion,
}
use seafowl.Pushdown.Visitor.{FilterPushdownConverter, literal_sql, filter_expr_to_sql}
use seafowl.Pushdown.Printer.{print, print_all, op_text}
use seafowl.Pushdown.Walk.{filter_expr_to_sql-print}

abbrev pub is_some : Option Text → Bool
is_some none = false
is_some (some t) = true

abbrev pub is_ok : {A : Type 0} → Outcome A → Bool
is_ok (ok a) = true
is_ok _ = false

-- No panic, and not the error about the number of texts that are left.
abbrev pub IsClean : {A : Type 0} → Outcome A → Type 0
IsClean (ok a) = Unit
IsClean (err (not_one_expression ts)) = ⊥
IsClean (err e) = Unit
IsClean panic = ⊥

IsClean-bind :
    {A B : Type 0} (m : Outcome A) (f : A → Outcome B)
    → IsClean m
    → ((a : A) → IsClean (f a))
    → IsClean (m >>= f)
IsClean-bind (ok a) f h k = k a
IsClean-bind (err (not_one_expression ts)) f h k = h
IsClean-bind (err _) f h k = h
IsClean-bind panic f h k = h

is_ok-bind :
    {A B : Type 0} (m : Outcome A) (f : A → Outcome B) (b : Bool)
    → ((a : A) → is_ok (f a) ≡ b)
    → is_ok (m >>= f) ≡ (is_ok m && b)
is_ok-bind (ok a) f b h = h a
is_ok-bind (err e) f b h = refl
is_ok-bind panic f b h = refl

module _ (df : DataFusion) (source : FilterPushdownConverter) where
  -- Every part is of a kind that is shipped, and the source has a text for each operator and value.
  unfoldable mutual
    pub is_shippable : Expr → Bool
    is_shippable (column c) = true
    is_shippable (literal val) = is_some (source.scalar_value_to_sql val)
    is_shippable (binary_expr l op r) =
        is_some (source.op_to_sql op) && (is_shippable l && is_shippable r)
    is_shippable (not_expr e) = is_shippable e
    is_shippable (negative e) = is_shippable e
    is_shippable (is_null e) = is_shippable e
    is_shippable (is_not_null e) = is_shippable e
    is_shippable (is_true e) = is_shippable e
    is_shippable (is_false e) = is_shippable e
    is_shippable (is_not_true e) = is_shippable e
    is_shippable (is_not_false e) = is_shippable e
    is_shippable (in_list e es negated) = is_shippable e && all_shippable es
    is_shippable (unsupported es) = false

    pub all_shippable : Exprs → Bool
    all_shippable nil = true
    all_shippable (cons e es) = is_shippable e && all_shippable es

  is_ok-op : (op : Operator) (o : Option Text) → is_ok (op_text df source op o) ≡ is_some o
  is_ok-op op none = refl
  is_ok-op op (some t) = refl

  IsClean-op : (op : Operator) (o : Option Text) → IsClean (op_text df source op o)
  IsClean-op op none = tt
  IsClean-op op (some t) = tt

  -- A last step that always succeeds.
  is_ok-map :
      {A B : Type 0} (m : Outcome A) (f : A → B) (b : Bool)
      → is_ok m ≡ b
      → is_ok (m >>= λ a. ok (f a)) ≡ b
  is_ok-map (ok a) f b h = h
  is_ok-map (err e) f b h = h
  is_ok-map panic f b h = h

  -- Two steps, the second independent of the first.
  is_ok-both :
      {A B C : Type 0} (m : Outcome A) (n : Outcome B) (f : A → B → C) (b c : Bool)
      → is_ok m ≡ b
      → is_ok n ≡ c
      → is_ok (m >>= λ x. n >>= λ y. ok (f x y)) ≡ (b && c)
  is_ok-both m n f b c h k = is_ok-bind m _ c (λ x. is_ok-map n (f x) c k) ∙ ap (λ i. i && c) h

  mutual
    unfolding print is_shippable

    is_ok-print : (e : Expr) → is_ok (print df source e) ≡ is_shippable e
    is_ok-print (column c) = refl
    is_ok-print (literal val) = go (source.scalar_value_to_sql val)
      where
        go : (o : Option Text) → is_ok (literal_sql df source val o) ≡ is_some o
        go none = refl
        go (some t) = refl
    is_ok-print (binary_expr l op r) =
        is_ok-bind (op_text df source op (source.op_to_sql op)) _ (is_shippable l && is_shippable r)
          (λ o.
            is_ok-both (print df source l) (print df source r) _ _ _ (is_ok-print l)
              (is_ok-print r))
        ∙ ap (λ i. i && (is_shippable l && is_shippable r)) (is_ok-op op (source.op_to_sql op))
    is_ok-print (not_expr e) = is_ok-map (print df source e) _ _ (is_ok-print e)
    is_ok-print (negative e) = is_ok-map (print df source e) _ _ (is_ok-print e)
    is_ok-print (is_null e) = is_ok-map (print df source e) _ _ (is_ok-print e)
    is_ok-print (is_not_null e) = is_ok-map (print df source e) _ _ (is_ok-print e)
    is_ok-print (is_true e) = is_ok-map (print df source e) _ _ (is_ok-print e)
    is_ok-print (is_false e) = is_ok-map (print df source e) _ _ (is_ok-print e)
    is_ok-print (is_not_true e) = is_ok-map (print df source e) _ _ (is_ok-print e)
    is_ok-print (is_not_false e) = is_ok-map (print df source e) _ _ (is_ok-print e)
    is_ok-print (in_list e es negated) =
        is_ok-both (print df source e) (print_all df source es) _ _ _ (is_ok-print e)
          (is_ok-print_all es)
    is_ok-print (unsupported es) = refl

    is_ok-print_all : (es : Exprs) → is_ok (print_all df source es) ≡ all_shippable es
    is_ok-print_all nil = refl
    is_ok-print_all (cons e es) =
        is_ok-both (print df source e) (print_all df source es) _ _ _ (is_ok-print e)
          (is_ok-print_all es)

  IsClean-map :
      {A B : Type 0} (m : Outcome A) (f : A → B) → IsClean m → IsClean (m >>= λ a. ok (f a))
  IsClean-map m f h = IsClean-bind m _ h (λ a. tt)

  mutual
    unfolding print

    print-IsClean : (e : Expr) → IsClean (print df source e)
    print-IsClean (column c) = tt
    print-IsClean (literal val) = go (source.scalar_value_to_sql val)
      where
        go : (o : Option Text) → IsClean (literal_sql df source val o)
        go none = tt
        go (some t) = tt
    print-IsClean (binary_expr l op r) =
        IsClean-bind _ _ (IsClean-op op (source.op_to_sql op))
          (λ o. IsClean-bind _ _ (print-IsClean l) (λ t. IsClean-map _ _ (print-IsClean r)))
    print-IsClean (not_expr e) = IsClean-map _ _ (print-IsClean e)
    print-IsClean (negative e) = IsClean-map _ _ (print-IsClean e)
    print-IsClean (is_null e) = IsClean-map _ _ (print-IsClean e)
    print-IsClean (is_not_null e) = IsClean-map _ _ (print-IsClean e)
    print-IsClean (is_true e) = IsClean-map _ _ (print-IsClean e)
    print-IsClean (is_false e) = IsClean-map _ _ (print-IsClean e)
    print-IsClean (is_not_true e) = IsClean-map _ _ (print-IsClean e)
    print-IsClean (is_not_false e) = IsClean-map _ _ (print-IsClean e)
    print-IsClean (in_list e es negated) =
        IsClean-bind _ _ (print-IsClean e) (λ t. IsClean-map _ _ (print_all-IsClean es))
    print-IsClean (unsupported es) = tt

    print_all-IsClean : (es : Exprs) → IsClean (print_all df source es)
    print_all-IsClean nil = tt
    print_all-IsClean (cons e es) =
        IsClean-bind _ _ (print-IsClean e) (λ t. IsClean-map _ _ (print_all-IsClean es))

  -- A filter is turned into SQL exactly when all its parts are shippable. Otherwise it is an error,
  -- but never a panic on an empty stack, and never the error about the number of texts left.
  pub filter_expr_to_sql-shippable :
      (e : Expr)
      → (is_ok (filter_expr_to_sql df source e) ≡ is_shippable e)
        × IsClean (filter_expr_to_sql df source e)
  filter_expr_to_sql-shippable e =
      rw (filter_expr_to_sql-print df source e) (is_ok-print e, print-IsClean e)
