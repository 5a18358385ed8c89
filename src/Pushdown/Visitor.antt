-- ===== src/Pushdown/Visitor.antt =====
-- datafusion_remote_tables/src/filter_pushdown.rs, the converters of the three sources and
-- `FilterPushdownVisitor`. The top of the stack is the head of the list.
use seafowl.Prelude.{
  ℕ, zero, suc, Bool, true, false, ◌||◌, ltb, Option, none, some, List, [], ◌∷◌, ◌++◌, ◌==◌,
  if◌then◌else◌,
}
use seafowl.Pushdown.{
  Text, text, Operator, regex_match, regex_i_match, regex_not_match, regex_not_i_match, bitwise_xor,
  ScalarValue, utf8, large_utf8, date32, date64, timestamp_second, timestamp_millisecond,
  timestamp_microsecond, timestamp_nanosecond, Expr, column, literal, binary_expr, not_expr,
  negative, is_null, is_not_null, is_true, is_false, is_not_true, is_not_false, in_list,
  unsupported, count, operator_not_shippable, expression_not_shippable, scalar_not_shippable,
  operator_not_converted, not_one_expression, Outcome, ok, err, panic, ◌>>=◌, Stack, DataFusion,
  quote, quote_identifier_double_quotes, quote_identifier_backticks,
}

-- `FilterPushdownConverter`.
pub record FilterPushdownConverter : Type 0 where
  pub col_to_sql : Text → Text
  pub scalar_value_to_sql : ScalarValue → Option Text
  pub op_to_sql : Operator → Option Text

module _ (df : DataFusion) where
  -- `format!("'{date}'")`
  abbrev pub in_quotes : Option Text → Option Text
  in_quotes none = none
  in_quotes (some t) = some (b'\'' ∷ (t ++ b'\'' ∷ []))

  -- `scalar_value_to_sql`, which the three sources inherit.
  unfoldable pub scalar_to_sql : ScalarValue → Option Text
  scalar_to_sql (utf8 (some val)) = some (quote b'\'' val)
  scalar_to_sql (large_utf8 (some val)) = some (quote b'\'' val)
  scalar_to_sql (date32 (some days)) = in_quotes (df.date32_to_date days)
  scalar_to_sql (date64 (some t_ms)) = in_quotes (df.timestamp_ms_to_datetime t_ms)
  scalar_to_sql (timestamp_millisecond (some t_ms) none) =
      in_quotes (df.timestamp_ms_to_datetime t_ms)
  scalar_to_sql (timestamp_second (some t_s) none) = in_quotes (df.timestamp_s_to_datetime t_s)
  scalar_to_sql (timestamp_microsecond (some t_us) none) =
      in_quotes (df.timestamp_us_to_datetime t_us)
  scalar_to_sql (timestamp_nanosecond (some t_ns) none) =
      in_quotes (df.timestamp_ns_to_datetime t_ns)
  scalar_to_sql (timestamp_second t (some zone)) = none
  scalar_to_sql (timestamp_millisecond t (some zone)) = none
  scalar_to_sql (timestamp_microsecond t (some zone)) = none
  scalar_to_sql (timestamp_nanosecond t (some zone)) = none
  scalar_to_sql value = some (df.display value)

  abbrev pub postgres_filter_pushdown : FilterPushdownConverter
  postgres_filter_pushdown = record {
    col_to_sql = quote_identifier_double_quotes;
    scalar_value_to_sql = scalar_to_sql;
    op_to_sql = λ op. some (df.to_string op);
  }

  abbrev pub sqlite_op_to_sql : Operator → Option Text
  sqlite_op_to_sql regex_match = none
  sqlite_op_to_sql regex_i_match = none
  sqlite_op_to_sql regex_not_match = none
  sqlite_op_to_sql regex_not_i_match = none
  sqlite_op_to_sql bitwise_xor = none
  sqlite_op_to_sql op = some (df.to_string op)

  abbrev pub sqlite_filter_pushdown : FilterPushdownConverter
  sqlite_filter_pushdown = record {
    col_to_sql = quote_identifier_double_quotes;
    scalar_value_to_sql = scalar_to_sql;
    op_to_sql = sqlite_op_to_sql;
  }

  abbrev pub mysql_op_to_sql : Operator → Option Text
  mysql_op_to_sql regex_i_match = none
  mysql_op_to_sql regex_not_i_match = none
  mysql_op_to_sql regex_match = some (text "RLIKE")
  mysql_op_to_sql regex_not_match = some (text "NOT RLIKE")
  mysql_op_to_sql bitwise_xor = some (text "^")
  mysql_op_to_sql op = some (df.to_string op)

  abbrev pub mysql_filter_pushdown : FilterPushdownConverter
  mysql_filter_pushdown = record {
    col_to_sql = quote_identifier_backticks;
    scalar_value_to_sql = scalar_to_sql;
    op_to_sql = mysql_op_to_sql;
  }

  module _ (source : FilterPushdownConverter) where
    unfoldable pub f_down : Expr → Stack → Outcome Stack
    f_down (binary_expr l op r) st = elim (source.op_to_sql op) [
      | none ↦ err (operator_not_shippable op)
      | some o ↦ ok st
    ]
    f_down (unsupported es) st = err (expression_not_shippable (unsupported es))
    f_down e st = ok st

    -- `pop_sql_expr`, and what is done with the text.
    abbrev pub pop_sql_expr : Stack → (Text → Stack → Outcome Stack) → Outcome Stack
    pop_sql_expr [] next = panic
    pop_sql_expr (t ∷ st) next = next t st

    -- The topmost `n` texts, in the order in which they were pushed; `len() - n` underflows.
    unfoldable pub split_off : ℕ → List Text → Stack → Option (List Text × Stack)
    split_off zero popped st = some (popped, st)
    split_off (suc n) popped [] = none
    split_off (suc n) popped (t ∷ st) = split_off n (t ∷ popped) st

    -- `join(", ")`
    abbrev pub join : List Text → Text
    join [] = []
    join (t ∷ []) = t
    join (t ∷ u ∷ ts) = t ++ (text ", " ++ join (u ∷ ts))

    -- Parentheses for an operand that is a binary expression of lower precedence.
    unfoldable pub parenthesize : Operator → Expr → Text → Text
    parenthesize op (binary_expr l inner r) t =
        let p = df.precedence inner in
        if p == 0 || ltb p (df.precedence op) then text "(" ++ (t ++ text ")") else t
    parenthesize op e t = t

    abbrev pub binary_sql : Expr → Operator → Expr → Text → Text → Text → Text
    binary_sql l op r op_sql left_sql right_sql =
        parenthesize op l left_sql
        ++ (text " " ++ (op_sql ++ (text " " ++ parenthesize op r right_sql)))

    abbrev pub in_list_sql : Bool → Text → List Text → Text
    in_list_sql true expr_sql list_sql =
        expr_sql ++ (text " NOT IN (" ++ (join list_sql ++ text ")"))
    in_list_sql false expr_sql list_sql = expr_sql ++ (text " IN (" ++ (join list_sql ++ text ")"))

    abbrev pub literal_sql : ScalarValue → Option Text → Outcome Text
    literal_sql val none = err (scalar_not_shippable val)
    literal_sql val (some t) = ok t

    unfoldable pub f_up : Expr → Stack → Outcome Stack
    f_up (column c) st = ok (source.col_to_sql c ∷ st)
    f_up (literal val) st = literal_sql val (source.scalar_value_to_sql val) >>= λ t. ok (t ∷ st)
    f_up (binary_expr l op r) st = pop_sql_expr st (λ right_sql st'.
        pop_sql_expr st' (λ left_sql st''. elim (source.op_to_sql op) [
          | none ↦ err (operator_not_converted op)
          | some op_sql ↦ ok (binary_sql l op r op_sql left_sql right_sql ∷ st'')
        ]))
    f_up (not_expr e) st = pop_sql_expr st (λ t st'. ok ((text "NOT " ++ t) ∷ st'))
    f_up (negative e) st = pop_sql_expr st (λ t st'. ok ((text "(- " ++ (t ++ text ")")) ∷ st'))
    f_up (is_null e) st = pop_sql_expr st (λ t st'. ok ((t ++ text " IS NULL") ∷ st'))
    f_up (is_not_null e) st = pop_sql_expr st (λ t st'. ok ((t ++ text " IS NOT NULL") ∷ st'))
    f_up (is_true e) st = pop_sql_expr st (λ t st'. ok ((t ++ text " IS TRUE") ∷ st'))
    f_up (is_false e) st = pop_sql_expr st (λ t st'. ok ((t ++ text " IS FALSE") ∷ st'))
    f_up (is_not_true e) st = pop_sql_expr st (λ t st'. ok ((t ++ text " IS NOT TRUE") ∷ st'))
    f_up (is_not_false e) st = pop_sql_expr st (λ t st'. ok ((t ++ text " IS NOT FALSE") ∷ st'))
    f_up (in_list e es negated) st = elim (split_off (count es) [] st) [
      | none ↦ panic
      | some (list_sql, st') ↦
          pop_sql_expr st' (λ expr_sql st''. ok (in_list_sql negated expr_sql list_sql ∷ st''))
    ]
    f_up (unsupported es) st = ok st

    -- The check that one expression is left.
    abbrev pub only_expr : Stack → Outcome Text
    only_expr (t ∷ []) = ok t
    only_expr st = err (not_one_expression st)

    unfoldable pub filter_expr_to_sql : Expr → Outcome Text
    filter_expr_to_sql filter = df.visit f_down f_up filter [] >>= only_expr
