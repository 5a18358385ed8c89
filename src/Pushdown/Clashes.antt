-- ===== src/Pushdown/Clashes.antt =====
-- filter_pushdown.rs: expressions with different meanings that are shipped as the same SQL.
use seafowl.Prelude.{◌<◌, ◌≡◌, refl, ap, arith, Option, none, some, ◌++◌, append_assoc}
use seafowl.Pushdown.{
  Text, text, Operator, Expr, binary_expr, not_expr, is_null, Outcome, ok, err, panic, ◌>>=◌,
  DataFusion,
}
use seafowl.Pushdown.Visitor.{FilterPushdownConverter, parenthesize, binary_sql, filter_expr_to_sql}
use seafowl.Pushdown.Printer.{print, op_text}
use seafowl.Pushdown.Walk.{filter_expr_to_sql-print}

module _ (df : DataFusion) (source : FilterPushdownConverter) where
  parenthesize_same :
      (op : Operator) (l r : Expr) (t : Text)
      → 0 < df.precedence op
      → parenthesize df source op (binary_expr l op r) t ≡ t
  unfolding parenthesize
  parenthesize_same op l r t h = ground arith

  module _ (op : Operator) (a b c : Expr) (h : 0 < df.precedence op) where
    same_text :
        (o t u v : Text)
        → binary_sql df source a op (binary_expr b op c) o t (binary_sql df source b op c o u v)
          ≡ binary_sql df source (binary_expr a op b) op c o (binary_sql df source a op b o t u) v
    same_text o t u v =
        rw
          (
            parenthesize_same op b c (binary_sql df source b op c o u v) h,
            parenthesize_same op a b (binary_sql df source a op b o t u) h,
          )
          (simp append_assoc)

    print_regrouped :
        print df source (binary_expr a op (binary_expr b op c))
        ≡ print df source (binary_expr (binary_expr a op b) op c)
    unfolding print
    print_regrouped =
        go (source.op_to_sql op) (print df source a) (print df source b) (print df source c)
      where
        go :
            (o : Option Text) (ma mb mc : Outcome Text)
            → (op_text df source op o >>= λ o'. ma >>= λ t.
                (op_text df source op o >>= λ o''.
                mb >>= λ u. mc >>= λ v. ok (binary_sql df source b op c o'' u v))
                >>= λ w. ok (binary_sql df source a op (binary_expr b op c) o' t w))
              ≡ (op_text df source op o >>= λ o'.
                  (op_text df source op o >>= λ o''.
                  ma >>= λ t. mb >>= λ u. ok (binary_sql df source a op b o'' t u))
                  >>= λ w. mc >>= λ v. ok (binary_sql df source (binary_expr a op b) op c o' w v))
        go none ma mb mc = refl
        go (some o) (ok t) (ok u) (ok v) = ap ok (same_text o t u v)
        go (some o) (ok t) (ok u) (err x) = refl
        go (some o) (ok t) (ok u) panic = refl
        go (some o) (ok t) (err x) mc = refl
        go (some o) (ok t) panic mc = refl
        go (some o) (err x) mb mc = refl
        go (some o) panic mb mc = refl

  -- The operand is not put in parentheses.
  abbrev pub IsBare : Operator → Expr → Type 0
  IsBare op e = (t : Text) → parenthesize df source op e t ≡ t

  module _ (op : Operator) (a b : Expr) where
    print-is_null :
        IsBare op b
        → print df source (is_null (binary_expr a op b))
          ≡ print df source (binary_expr a op (is_null b))
    unfolding print parenthesize
    print-is_null h = go (source.op_to_sql op) (print df source a) (print df source b)
      where
        go :
            (o : Option Text) (ma mb : Outcome Text)
            → ((op_text df source op o >>= λ o'.
                  ma >>= λ t. mb >>= λ u. ok (binary_sql df source a op b o' t u))
                >>= λ w. ok (w ++ text " IS NULL"))
              ≡ (op_text df source op o >>= λ o'. ma >>= λ t.
                  (mb >>= λ u. ok (u ++ text " IS NULL")) >>= λ u.
                  ok (binary_sql df source a op (is_null b) o' t u))
        go none ma mb = refl
        go (some o) (ok t) (ok u) = rw h (simp append_assoc)
        go (some o) (ok t) (err x) = refl
        go (some o) (ok t) panic = refl
        go (some o) (err x) mb = refl
        go (some o) panic mb = refl

    print_not :
        IsBare op a
        → print df source (not_expr (binary_expr a op b))
          ≡ print df source (binary_expr (not_expr a) op b)
    unfolding print parenthesize
    print_not h = go (source.op_to_sql op) (print df source a) (print df source b)
      where
        go :
            (o : Option Text) (ma mb : Outcome Text)
            → ((op_text df source op o >>= λ o'.
                  ma >>= λ t. mb >>= λ u. ok (binary_sql df source a op b o' t u))
                >>= λ w. ok (text "NOT " ++ w))
              ≡ (op_text df source op o >>= λ o'. (ma >>= λ t. ok (text "NOT " ++ t)) >>= λ t.
                  mb >>= λ u. ok (binary_sql df source (not_expr a) op b o' t u))
        go none ma mb = refl
        go (some o) (ok t) (ok u) = rw h (simp append_assoc)
        go (some o) (ok t) (err x) = refl
        go (some o) (ok t) panic = refl
        go (some o) (err x) mb = refl
        go (some o) panic mb = refl

  -- For an operator of positive precedence, and operands `a` and `b` that get no parentheses of
  -- their own beside it: the two groupings `a op (b op c)` and `(a op b) op c` are shipped as
  -- the same SQL, `(a op b) IS NULL` as `a op (b IS NULL)` is, and `NOT (a op b)` as `(NOT a) op
  -- b` is.
  pub filter_expr_to_sql_clashes :
      (op : Operator) (a b c : Expr)
      → 0 < df.precedence op
      → IsBare op a
      → IsBare op b
      → (filter_expr_to_sql df source (binary_expr a op (binary_expr b op c))
          ≡ filter_expr_to_sql df source (binary_expr (binary_expr a op b) op c))
        × (filter_expr_to_sql df source (is_null (binary_expr a op b))
            ≡ filter_expr_to_sql df source (binary_expr a op (is_null b)))
        × (filter_expr_to_sql df source (not_expr (binary_expr a op b))
            ≡ filter_expr_to_sql df source (binary_expr (not_expr a) op b))
  filter_expr_to_sql_clashes op a b c h ha hb = (
    through _ _ (print_regrouped op a b c h),
    through _ _ (print-is_null op a b hb),
    through _ _ (print_not op a b ha),
  )
    where
      through :
          (e f : Expr)
          → print df source e ≡ print df source f
          → filter_expr_to_sql df source e ≡ filter_expr_to_sql df source f
      through e f p =
          cc (p, filter_expr_to_sql-print df source e, filter_expr_to_sql-print df source f)
