-- ===== src/Pushdown.antt =====
-- datafusion_remote_tables/src/filter_pushdown.rs: a filter expression as SQL for a remote source.
-- Texts are lists of character codes. Expressions, operators and the walk over an expression are
-- DataFusion's; what they print is an interface.
pub mod Visitor
pub mod Printer
pub mod Walk
pub mod Quotes
pub mod Clashes
pub mod Shipped
mod Tests
use Prim.Native.Char.{code}
use seafowl.Prelude.{
  ℕ, zero, suc, ◌+◌, ◌≡◌, String, Bool, true, false, Option, none, some, List, [], ◌∷◌, ◌++◌, ◌==◌,
  if◌then◌else◌,
}

abbrev pub Text : Type 0
Text = List ℕ

abbrev pub text : String → Text
text String.[] = []
text (String.◌∷◌ c s) = code c ∷ text s

-- The bits of a date or a timestamp.
abbrev pub Ticks : Type 0
Ticks = ℕ

-- `datafusion_expr::Operator`: the operators that the source names, and the others.
pub data Operator : Type 0 where
  regex_match regex_i_match regex_not_match regex_not_i_match bitwise_xor : Operator
  other_operator : ℕ → Operator

-- `ScalarValue`: the kinds that the source names, and the others.
pub data ScalarValue : Type 0 where
  utf8 large_utf8 : Option Text → ScalarValue
  date32 date64 : Option Ticks → ScalarValue
  timestamp_second timestamp_millisecond timestamp_microsecond timestamp_nanosecond :
      Option Ticks → Option Text → ScalarValue
  other_value : ℕ → ScalarValue

-- `datafusion_expr::Expr`: the kinds that the source names, and the others with their children.
mutual
  pub data Expr : Type 0 where
    column : Text → Expr
    literal : ScalarValue → Expr
    binary_expr : Expr → Operator → Expr → Expr
    not_expr negative is_null is_not_null is_true is_false is_not_true is_not_false : Expr → Expr
    in_list : Expr → Exprs → Bool → Expr
    unsupported : Exprs → Expr

  pub data Exprs : Type 0 where
    nil : Exprs
    cons : Expr → Exprs → Exprs

abbrev pub children : Expr → Exprs
children (column c) = nil
children (literal v) = nil
children (binary_expr l op r) = cons l (cons r nil)
children (not_expr e) = cons e nil
children (negative e) = cons e nil
children (is_null e) = cons e nil
children (is_not_null e) = cons e nil
children (is_true e) = cons e nil
children (is_false e) = cons e nil
children (is_not_true e) = cons e nil
children (is_not_false e) = cons e nil
children (in_list e es negated) = cons e es
children (unsupported es) = es

abbrev pub count : Exprs → ℕ
count nil = 0
count (cons e es) = suc (count es)

-- The errors, by their messages, and a panic.
pub data PushdownError : Type 0 where
  operator_not_shippable : Operator → PushdownError
  expression_not_shippable : Expr → PushdownError
  scalar_not_shippable : ScalarValue → PushdownError
  operator_not_converted : Operator → PushdownError
  not_one_expression : List Text → PushdownError

pub data Outcome (A : Type 0) : Type 0 where
  ok : A → Outcome A
  err : PushdownError → Outcome A
  panic : Outcome A

infixl 5 ◌>>=◌
abbrev pub ◌>>=◌ : {A B : Type 0} → Outcome A → (A → Outcome B) → Outcome B
◌>>=◌ (ok a) f = f a
◌>>=◌ (err e) f = err e
◌>>=◌ panic f = panic

abbrev pub Stack : Type 0
Stack = List Text

abbrev pub Visit : Type 0
Visit = Expr → Stack → Outcome Stack

-- What DataFusion gives: the texts of operators, values, dates and timestamps, the precedence of
-- an operator, and `TreeNode::visit`, which goes down into a node, visits its children in order,
-- goes up, and stops at an error.
pub record DataFusion : Type 0 where
  pub to_string : Operator → Text
  pub precedence : Operator → ℕ
  pub display : ScalarValue → Text
  pub date32_to_date : Ticks → Option Text
  pub timestamp_s_to_datetime : Ticks → Option Text
  pub timestamp_ms_to_datetime : Ticks → Option Text
  pub timestamp_us_to_datetime : Ticks → Option Text
  pub timestamp_ns_to_datetime : Ticks → Option Text
  pub visit : Visit → Visit → Expr → Stack → Outcome Stack
  pub visit_all : Visit → Visit → Exprs → Stack → Outcome Stack
  pub visit_lem :
      (down up : Visit) (e : Expr) (st : Stack)
      → visit down up e st
        ≡ (down e st >>= λ entered. visit_all down up (children e) entered >>= λ left. up e left)
  pub visit_all-nil : (down up : Visit) (st : Stack) → visit_all down up nil st ≡ ok st
  pub visit_all-cons :
      (down up : Visit) (e : Expr) (es : Exprs) (st : Stack)
      → visit_all down up (cons e es) st
        ≡ (visit down up e st >>= λ left. visit_all down up es left)

-- `str::replace` of a character by two of it.
unfoldable pub double : ℕ → Text → Text
double q [] = []
double q (c ∷ s) = let rest = double q s in if c == q then q ∷ q ∷ rest else c ∷ rest

-- A text between quotes, with the quotes in it doubled.
unfoldable pub quote : ℕ → Text → Text
quote q s = q ∷ (double q s ++ q ∷ [])

abbrev pub quote_identifier_double_quotes : Text → Text
quote_identifier_double_quotes = quote b'"'

abbrev pub quote_identifier_backticks : Text → Text
quote_identifier_backticks = quote b'`'
