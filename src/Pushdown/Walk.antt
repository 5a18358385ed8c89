-- ===== src/Pushdown/Walk.antt =====
-- filter_pushdown.rs: the stack machine of `FilterPushdownVisitor` against the printer.
use seafowl.Prelude.{
  ℕ, suc, ◌+◌, length, ◌≡◌, refl, ap, ◌∙◌, arith, append-nil, Option-cases, inl, inr, Bool, Option,
  none, some, List, [], ◌∷◌, ◌++◌,
}
use seafowl.Pushdown.{
  Text, Operator, Expr, column, literal, binary_expr, not_expr, negative, is_null, is_not_null,
  is_true, is_false, is_not_true, is_not_false, in_list, unsupported, Exprs, nil, cons, count,
  operator_not_shippable, Outcome, ok, err, panic, ◌>>=◌, Stack, DataFusion,
}
use seafowl.Pushdown.Visitor.{
  FilterPushdownConverter, f_down, f_up, split_off, binary_sql, in_list_sql, literal_sql, only_expr,
  filter_expr_to_sql,
}
use seafowl.Pushdown.Printer.{print, print_all}

module _ (df : DataFusion) (source : FilterPushdownConverter) where
  -- The texts pushed one after the other.
  abbrev push_all : List Text → Stack → Stack
  push_all [] st = st
  push_all (t ∷ ts) st = push_all ts (t ∷ st)

  abbrev pushed : Stack → Outcome Text → Outcome Stack
  pushed st m = m >>= λ t. ok (t ∷ st)

  abbrev pushed_all : Stack → Outcome (List Text) → Outcome Stack
  pushed_all st m = m >>= λ ts. ok (push_all ts st)

  abbrev walk : Expr → Stack → Outcome Stack
  walk = df.visit (f_down df source) (f_up df source)

  abbrev walk_all : Exprs → Stack → Outcome Stack
  walk_all = df.visit_all (f_down df source) (f_up df source)

  split_off-push_all :
      (ts us : List Text) (st : Stack) (n k : ℕ)
      → k ≡ length ts + n
      → split_off df source k us (push_all ts st) ≡ split_off df source n (ts ++ us) st
  split_off-push_all [] us st n k h =
      let e : k ≡ n = omega arith in ap (λ i. split_off df source i us st) e
  split_off-push_all (t ∷ ts) us st n k h =
      split_off-push_all ts us (t ∷ st) (suc n) k (omega arith) ∙ (unfold split_off in refl)

  split_off_all :
      (ts : List Text) (st : Stack) (k : ℕ)
      → length ts ≡ k
      → split_off df source k [] (push_all ts st) ≡ some (ts, st)
  split_off_all ts st k h =
      split_off-push_all ts [] st 0 k (omega arith) ∙ (unfold split_off in rw append-nil)

  walk_last :
      (e : Expr) (st : Stack) (m : Outcome Text)
      → walk e st ≡ pushed st m
      → walk_all (cons e nil) st ≡ pushed st m
  walk_last e st m h = rw (df.visit_all-cons, h) (go m)
    where
      go : (m : Outcome Text) → (pushed st m >>= λ left. walk_all nil left) ≡ pushed st m
      go (ok t) = df.visit_all-nil (f_down df source) (f_up df source) (t ∷ st)
      go (err x) = refl
      go panic = refl

  -- A node with one child prints what it makes of the child's text.
  walk_one :
      (e : Expr) (st : Stack) (m : Outcome Text) (up : Stack → Outcome Stack) (f : Text → Text)
      → walk e st ≡ pushed st m
      → ((t : Text) → up (t ∷ st) ≡ ok (f t ∷ st))
      → (walk_all (cons e nil) st >>= up) ≡ pushed st (m >>= λ t. ok (f t))
  walk_one e st m up f h k = rw (walk_last e st m h) (go m)
    where
      go : (m : Outcome Text) → (pushed st m >>= up) ≡ pushed st (m >>= λ t. ok (f t))
      go (ok t) = k t
      go (err x) = refl
      go panic = refl

  length-print_all :
      (es : Exprs) (ts : List Text) → print_all df source es ≡ ok ts → length ts ≡ count es
  unfolding print
  length-print_all nil ts h = ground arith
  length-print_all (cons e es) ts h =
      go (length-print_all es) (print df source e) (print_all df source es) refl h
    where
      go :
          ((us : List Text) → print_all df source es ≡ ok us → length us ≡ count es)
          → (m : Outcome Text) (ms : Outcome (List Text)) → print_all df source es ≡ ms
          → (m >>= λ t. ms >>= λ ts'. ok (t ∷ ts')) ≡ ok ts
          → length ts ≡ suc (count es)
      go ih (ok t) (ok us) p q = ground (arith, ih us p)
      go ih (ok t) (err x) p q = cc
      go ih (ok t) panic p q = cc
      go ih (err x) ms p q = cc
      go ih panic ms p q = cc

  -- The walks over a first child and over the others.
  walk_both :
      (st : Stack) (m : Outcome Text) (ms : Outcome (List Text)) (w : Stack → Outcome Stack)
      → ((st' : Stack) → w st' ≡ pushed_all st' ms)
      → (pushed st m >>= w) ≡ pushed_all st (m >>= λ t. ms >>= λ ts. ok (t ∷ ts))
  walk_both st (ok t) (ok ts) w h = h (t ∷ st)
  walk_both st (ok t) (err x) w h = h (t ∷ st)
  walk_both st (ok t) panic w h = h (t ∷ st)
  walk_both st (err x) ms w h = refl
  walk_both st panic ms w h = refl

  module _ (l : Expr) (op : Operator) (r : Expr) where
    down_refused :
        (st : Stack)
        → source.op_to_sql op ≡ none
        → f_down df source (binary_expr l op r) st ≡ err (operator_not_shippable op)
    unfolding f_down
    down_refused st e = rw (e, f_down)

    down_shipped :
        (st : Stack) {o : Text}
        → source.op_to_sql op ≡ some o
        → f_down df source (binary_expr l op r) st ≡ ok st
    unfolding f_down
    down_shipped st e = rw (e, f_down)

    print_refused :
        source.op_to_sql op ≡ none
        → print df source (binary_expr l op r) ≡ err (operator_not_shippable op)
    unfolding print
    print_refused e = rw e

    print_shipped :
        {o : Text}
        → source.op_to_sql op ≡ some o
        → print df source (binary_expr l op r) ≡ (
            print df source l >>= λ t.
            print df source r >>= λ u. ok (binary_sql df source l op r o t u))
    unfolding print
    print_shipped e = rw e

    up_shipped :
        (st : Stack) {o : Text} (t u : Text)
        → source.op_to_sql op ≡ some o
        → f_up df source (binary_expr l op r) (u ∷ t ∷ st)
          ≡ ok (binary_sql df source l op r o t u ∷ st)
    unfolding f_up
    up_shipped st t u e = rw (e, f_up)

  -- The walks over two children, and the operator.
  walk_two :
      (st : Stack) (m n : Outcome Text) (w : Stack → Outcome Stack) (up : Stack → Outcome Stack)
      (f : Text → Text → Text)
      → ((st' : Stack) → w st' ≡ pushed st' n)
      → ((t u : Text) → up (u ∷ t ∷ st) ≡ ok (f t u ∷ st))
      → ((pushed st m >>= w) >>= up) ≡ pushed st (m >>= λ t. n >>= λ u. ok (f t u))
  walk_two st (ok t) (ok u) w up f h k = rw (h (t ∷ st)) (k t u)
  walk_two st (ok t) (err x) w up f h k = rw (h (t ∷ st))
  walk_two st (ok t) panic w up f h k = rw (h (t ∷ st))
  walk_two st (err x) n w up f h k = refl
  walk_two st panic n w up f h k = refl

  -- The walks over the parts of an `IN`, and the list taken off the stack.
  walk_list :
      (st : Stack) (m : Outcome Text) (e : Expr) (es : Exprs) (negated : Bool)
      → ((st' : Stack) → walk_all es st' ≡ pushed_all st' (print_all df source es))
      → ((pushed st m >>= walk_all es) >>= f_up df source (in_list e es negated))
        ≡ pushed st
            (m >>= λ t. print_all df source es >>= λ ts. ok (in_list_sql df source negated t ts))
  unfolding f_up
  walk_list st m e es negated h = go m (print_all df source es) refl
    where
      go :
          (m : Outcome Text) (ms : Outcome (List Text))
          → print_all df source es ≡ ms
          → ((pushed st m >>= walk_all es) >>= f_up df source (in_list e es negated))
            ≡ pushed st (
                m >>= λ t. print_all df source es >>= λ ts. ok (in_list_sql df source negated t ts))
      go (ok t) (ok ts) p =
          rw (h (t ∷ st), p)
            (rw (split_off_all ts (t ∷ st) (count es) (length-print_all es ts p), f_up))
      go (ok t) (err x) p = rw (h (t ∷ st), p)
      go (ok t) panic p = rw (h (t ∷ st), p)
      go (err x) ms p = refl
      go panic ms p = refl

  -- A walk pushes the text of the expression, or reports its error.
  mutual
    unfolding print f_down f_up

    walk-print : (e : Expr) (st : Stack) → walk e st ≡ pushed st (print df source e)
    walk-print (column c) st = rw (df.visit_lem, df.visit_all-nil)
    walk-print (literal val) st =
        rw (df.visit_lem, df.visit_all-nil) (go (source.scalar_value_to_sql val))
      where
        go :
            (o : Option Text)
            → (literal_sql df source val o >>= λ t. ok (t ∷ st))
              ≡ pushed st (literal_sql df source val o)
        go none = refl
        go (some t) = refl
    walk-print (binary_expr l op r) st = elim (Option-cases (source.op_to_sql op)) [
      | inl e ↦ rw (df.visit_lem, down_refused l op r st e, print_refused l op r e)
      | inr (o, e) ↦
          rw
            (
              df.visit_lem,
              down_shipped l op r st e,
              print_shipped l op r e,
              df.visit_all-cons,
              walk-print l st,
            )
            (walk_two st (print df source l) (print df source r) _ _ _
              (λ st'. walk_last r st' (print df source r) (walk-print r st'))
              (λ t u. up_shipped l op r st t u e))
    ]
    walk-print (not_expr e) st =
        rw df.visit_lem (walk_one e st (print df source e) _ _ (walk-print e st) (λ t. refl))
    walk-print (negative e) st =
        rw df.visit_lem (walk_one e st (print df source e) _ _ (walk-print e st) (λ t. refl))
    walk-print (is_null e) st =
        rw df.visit_lem (walk_one e st (print df source e) _ _ (walk-print e st) (λ t. refl))
    walk-print (is_not_null e) st =
        rw df.visit_lem (walk_one e st (print df source e) _ _ (walk-print e st) (λ t. refl))
    walk-print (is_true e) st =
        rw df.visit_lem (walk_one e st (print df source e) _ _ (walk-print e st) (λ t. refl))
    walk-print (is_false e) st =
        rw df.visit_lem (walk_one e st (print df source e) _ _ (walk-print e st) (λ t. refl))
    walk-print (is_not_true e) st =
        rw df.visit_lem (walk_one e st (print df source e) _ _ (walk-print e st) (λ t. refl))
    walk-print (is_not_false e) st =
        rw df.visit_lem (walk_one e st (print df source e) _ _ (walk-print e st) (λ t. refl))
    walk-print (in_list e es negated) st =
        rw (df.visit_lem, df.visit_all-cons, walk-print e st)
          (walk_list st (print df source e) e es negated (λ st'. walk_all-print es st'))
    walk-print (unsupported es) st = rw df.visit_lem

    walk_all-print :
        (es : Exprs) (st : Stack) → walk_all es st ≡ pushed_all st (print_all df source es)
    walk_all-print nil st = df.visit_all-nil (f_down df source) (f_up df source) st
    walk_all-print (cons e es) st =
        rw (df.visit_all-cons, walk-print e st)
          (walk_both st (print df source e) (print_all df source es) _ (walk_all-print es))

  -- The stack machine of `filter_expr_to_sql` does what the recursive printer does: it gives the
  -- same text, or the same error.
  pub filter_expr_to_sql-print : (e : Expr) → filter_expr_to_sql df source e ≡ print df source e
  unfolding filter_expr_to_sql
  filter_expr_to_sql-print e = rw (walk-print e []) (go (print df source e))
    where
      go : (m : Outcome Text) → (pushed [] m >>= only_expr df source) ≡ m
      go (ok t) = refl
      go (err x) = refl
      go panic = refl
