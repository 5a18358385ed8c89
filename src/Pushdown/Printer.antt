-- ===== src/Pushdown/Printer.antt =====
-- What filter_pushdown.rs makes of an expression, as a printer that recurs on the expression and has
-- no stack.
use seafowl.Prelude.{Option, none, some, List, [], ◌∷◌, ◌++◌}
use seafowl.Pushdown.{
  Text, text, Operator, Expr, column, literal, binary_expr, not_expr, negative, is_null,
  is_not_null, is_true, is_false, is_not_true, is_not_false, in_list, unsupported, Exprs, nil, cons,
  operator_not_shippable, expression_not_shippable, Outcome, ok, err, ◌>>=◌, DataFusion,
}
use seafowl.Pushdown.Visitor.{FilterPushdownConverter, binary_sql, in_list_sql, literal_sql}

module _ (df : DataFusion) (source : FilterPushdownConverter) where
  -- The text of an operator, if the source has one.
  abbrev pub op_text : Operator → Option Text → Outcome Text
  op_text op none = err (operator_not_shippable op)
  op_text op (some o) = ok o

  -- The text of an expression, its parts from left to right.
  unfoldable mutual
    pub print : Expr → Outcome Text
    print (column c) = ok (source.col_to_sql c)
    print (literal val) = literal_sql df source val (source.scalar_value_to_sql val)
    print (binary_expr l op r) = op_text op (source.op_to_sql op) >>= λ o. print l >>= λ left_sql.
        print r >>= λ right_sql. ok (binary_sql df source l op r o left_sql right_sql)
    print (not_expr e) = print e >>= λ t. ok (text "NOT " ++ t)
    print (negative e) = print e >>= λ t. ok (text "(- " ++ (t ++ text ")"))
    print (is_null e) = print e >>= λ t. ok (t ++ text " IS NULL")
    print (is_not_null e) = print e >>= λ t. ok (t ++ text " IS NOT NULL")
    print (is_true e) = print e >>= λ t. ok (t ++ text " IS TRUE")
    print (is_false e) = print e >>= λ t. ok (t ++ text " IS FALSE")
    print (is_not_true e) = print e >>= λ t. ok (t ++ text " IS NOT TRUE")
    print (is_not_false e) = print e >>= λ t. ok (t ++ text " IS NOT FALSE")
    print (in_list e es negated) =
        print e >>= λ t. print_all es >>= λ ts. ok (in_list_sql df source negated t ts)
    print (unsupported es) = err (expression_not_shippable (unsupported es))

    pub print_all : Exprs → Outcome (List Text)
    print_all nil = ok []
    print_all (cons e es) = print e >>= λ t. print_all es >>= λ ts. ok (t ∷ ts)
