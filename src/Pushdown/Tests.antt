-- ===== src/Pushdown/Tests.antt =====
-- The theorems about filter_pushdown.rs at concrete expressions, with a simple walk and operators
-- whose text and precedence are their number.
use seafowl.Prelude.{ℕ, ◌≡◌, refl, none, some, [], ◌∷◌, ◌++◌, false, arith}
use seafowl.Pushdown.{
  Text, text, Operator, other_operator, ScalarValue, other_value, utf8, Expr, column, literal,
  binary_expr, not_expr, negative, is_null, is_not_null, is_true, is_false, is_not_true,
  is_not_false, in_list, unsupported, Exprs, nil, cons, children, Outcome, ok, ◌>>=◌, Stack, Visit,
  DataFusion, quote, double,
}
use seafowl.Pushdown.Visitor.{
  f_down, f_up, parenthesize, sqlite_filter_pushdown, postgres_filter_pushdown, filter_expr_to_sql,
  scalar_to_sql,
}
use seafowl.Pushdown.Printer.{print}
use seafowl.Pushdown.Walk.{filter_expr_to_sql-print}
use seafowl.Pushdown.Shipped.{is_ok, IsClean, is_shippable, filter_expr_to_sql-shippable}
use seafowl.Pushdown.Quotes.{
  standard, backslashes, read_quoted, read_quoted-quote, read_quoted-quote_early,
}
use seafowl.Pushdown.Clashes.{filter_expr_to_sql_clashes}

module _ (down up : Visit) where
  mutual
    visit : Expr → Stack → Outcome Stack
    visit (column c) st = down (column c) st >>= λ s. up (column c) s
    visit (literal v) st = down (literal v) st >>= λ s. up (literal v) s
    visit (binary_expr l op r) st = down (binary_expr l op r) st >>= λ s.
        (visit l s >>= λ x. visit r x >>= λ y. ok y) >>= λ z. up (binary_expr l op r) z
    visit (not_expr e) st =
        down (not_expr e) st >>= λ s. (visit e s >>= λ y. ok y) >>= λ z. up (not_expr e) z
    visit (negative e) st =
        down (negative e) st >>= λ s. (visit e s >>= λ y. ok y) >>= λ z. up (negative e) z
    visit (is_null e) st =
        down (is_null e) st >>= λ s. (visit e s >>= λ y. ok y) >>= λ z. up (is_null e) z
    visit (is_not_null e) st =
        down (is_not_null e) st >>= λ s. (visit e s >>= λ y. ok y) >>= λ z. up (is_not_null e) z
    visit (is_true e) st =
        down (is_true e) st >>= λ s. (visit e s >>= λ y. ok y) >>= λ z. up (is_true e) z
    visit (is_false e) st =
        down (is_false e) st >>= λ s. (visit e s >>= λ y. ok y) >>= λ z. up (is_false e) z
    visit (is_not_true e) st =
        down (is_not_true e) st >>= λ s. (visit e s >>= λ y. ok y) >>= λ z. up (is_not_true e) z
    visit (is_not_false e) st =
        down (is_not_false e) st >>= λ s. (visit e s >>= λ y. ok y) >>= λ z. up (is_not_false e) z
    visit (in_list e es n) st = down (in_list e es n) st >>= λ s.
        (visit e s >>= λ y. visit_all es y) >>= λ z. up (in_list e es n) z
    visit (unsupported es) st =
        down (unsupported es) st >>= λ s. visit_all es s >>= λ z. up (unsupported es) z

    visit_all : Exprs → Stack → Outcome Stack
    visit_all nil st = ok st
    visit_all (cons e es) st = visit e st >>= λ y. visit_all es y

  visit_lem :
      (e : Expr) (st : Stack)
      → visit e st ≡ (down e st >>= λ s. visit_all (children e) s >>= λ z. up e z)
  unfolding visit
  visit_lem (column c) st = refl
  visit_lem (literal v) st = refl
  visit_lem _ st = refl

  visit_all-nil : (st : Stack) → visit_all nil st ≡ ok st
  unfolding visit_all
  visit_all-nil st = refl

  visit_all-cons :
      (e : Expr) (es : Exprs) (st : Stack)
      → visit_all (cons e es) st ≡ (visit e st >>= λ y. visit_all es y)
  unfolding visit_all
  visit_all-cons e es st = refl

abbrev to_string : Operator → Text
to_string (other_operator n) = n ∷ []
to_string _ = []

abbrev precedence : Operator → ℕ
precedence (other_operator n) = n
precedence _ = 0

abbrev display : ScalarValue → Text
display (other_value n) = n ∷ []
display _ = text "NULL"

abbrev df : DataFusion
df = record {
  to_string = to_string;
  precedence = precedence;
  display = display;
  date32_to_date = λ t. none;
  timestamp_s_to_datetime = λ t. none;
  timestamp_ms_to_datetime = λ t. none;
  timestamp_us_to_datetime = λ t. none;
  timestamp_ns_to_datetime = λ t. none;
  visit = visit;
  visit_all = visit_all;
  visit_lem = visit_lem;
  visit_all-nil = visit_all-nil;
  visit_all-cons = visit_all-cons;
}

abbrev a : Expr
a = column (text "a")

abbrev minus : Operator
minus = other_operator b'-'

-- a - 'it''s' as SQL
binary_text :
    filter_expr_to_sql df
      (sqlite_filter_pushdown df)
      (binary_expr a minus (literal (utf8 (some (text "it's")))))
    ≡ ok (text "\"a\" - 'it''s'")
unfolding filter_expr_to_sql f_down f_up parenthesize visit scalar_to_sql quote double
binary_text = refl

-- (a - a) IN (1) is an expression without parentheses.
abbrev sample : Expr
sample = in_list (binary_expr a minus (negative a)) (cons (literal (other_value b'1')) nil) false

filter_expr_to_sql-print_example :
    filter_expr_to_sql df (postgres_filter_pushdown df) sample
    ≡ print df (postgres_filter_pushdown df) sample
filter_expr_to_sql-print_example = filter_expr_to_sql-print df (postgres_filter_pushdown df) sample

filter_expr_to_sql-shippable_example :
    (is_ok (filter_expr_to_sql df (postgres_filter_pushdown df) sample)
      ≡ is_shippable df (postgres_filter_pushdown df) sample)
    × IsClean (filter_expr_to_sql df (postgres_filter_pushdown df) sample)
filter_expr_to_sql-shippable_example =
    filter_expr_to_sql-shippable df (postgres_filter_pushdown df) sample

read_quoted-quote_example :
    read_quoted standard b'"' (quote b'"' (text "a\" OR 1") ++ text " = 2")
    ≡ some (text "a\" OR 1", text " = 2")
read_quoted-quote_example =
    read_quoted-quote standard b'"' (text "a\" OR 1") (text " = 2")
      (refl, (refl, (refl, (refl, (refl, (refl, (refl, tt))))))) refl

read_quoted-quote_early_example :
    read_quoted backslashes b'\'' (quote b'\'' (b'\\' ∷ b'\'' ∷ text " OR 1"))
    ≡ some (b'\'' ∷ [], text " OR 1'")
unfolding double
read_quoted-quote_early_example = read_quoted-quote_early b'\'' b' ' (text "OR 1") refl refl

filter_expr_to_sql_clashes_example :
    let sql = filter_expr_to_sql df (postgres_filter_pushdown df) in
    (sql (binary_expr a minus (binary_expr a minus a))
      ≡ sql (binary_expr (binary_expr a minus a) minus a))
    × (sql (is_null (binary_expr a minus a)) ≡ sql (binary_expr a minus (is_null a)))
    × (sql (not_expr (binary_expr a minus a)) ≡ sql (binary_expr (not_expr a) minus a))
unfolding parenthesize
filter_expr_to_sql_clashes_example =
    filter_expr_to_sql_clashes df (postgres_filter_pushdown df) minus a a a (omega arith)
      (λ t. refl) (λ t. refl)
