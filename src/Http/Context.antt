-- ===== src/Http/Context.antt =====
-- What the handlers use of `SeafowlContext`, and the effects of a request: which plans were handed to
-- the planner of physical plans, which carries out the statements that write, and which files were
-- appended to tables.
use seafowl.Prelude.{ℕ, String, Bool, true, false, Option, none, some, List, [], ◌∷◌, ◌++◌}
use seafowl.Http.Errors.{ApiError}

-- `Statement` of sqlparser: the three that only read, and the others.
pub data Statement : Type 0 where
  query explain show_tables other_statement : ℕ → Statement

pub data DfStatement : Type 0 where
  statement : Statement → DfStatement
  other_df_statement : ℕ → DfStatement

-- `LogicalPlan` by its kind, with the nodes that a visit meets: nothing, or a Delta table with the
-- bytes of its address and those of its version.
pub data PlanKind : Type 0 where
  dml ddl analyze extension copy_to other_plan : PlanKind

abbrev pub Bytes : Type 0
Bytes = List ℕ

pub record LogicalPlan : Type 0 where
  pub kind : PlanKind
  pub visited : List (Option (Bytes × Bytes))

pub data Event : Type 0 where
  planned : LogicalPlan → Event
  appended : String → String → String → String → Event

abbrev pub History : Type 0
History = List Event

-- What a handler returns: `panic` is a failed `unwrap` or `expect` of its own, `callee_panic` a panic
-- inside of the context or of a library that it calls.
pub data Outcome {ℓ} (A : Type ℓ) : Type ℓ where
  ok : A → Outcome A
  err : ApiError → Outcome A
  panic : Outcome A
  callee_panic : Outcome A

-- A failure, which is no panic of the code's own.
abbrev pub Fails {ℓ} : {A : Type ℓ} → Outcome A → Type 0
Fails (ok a) = ⊥
Fails (err e) = Unit
Fails panic = ⊥
Fails callee_panic = Unit

-- A failure that is no panic of the code's own, or an answer of some kind.
abbrev pub Ends {ℓ} : {A : Type ℓ} → Outcome A → (A → Type 0) → Type 0
Ends (ok a) P = P a
Ends (err e) P = Unit
Ends panic P = ⊥
Ends callee_panic P = Unit

pub map-Ends {ℓ} :
    {A : Type ℓ} (r : Outcome A) {P Q : A → Type 0} → ((a : A) → P a → Q a) → Ends r P → Ends r Q
map-Ends (ok a) f e = f a e
map-Ends (err x) f e = tt
map-Ends panic f e = e
map-Ends callee_panic f e = tt

-- A step of a handler, from what happened before.
abbrev pub Run : Type 0 → Type 0
Run A = History → Outcome A × History

abbrev pub bind_outcome : {A B : Type 0} → Outcome A → History → (A → Run B) → Outcome B × History
bind_outcome (ok a) h f = f a h
bind_outcome (err e) h f = (err e, h)
bind_outcome panic h f = (panic, h)
bind_outcome callee_panic h f = (callee_panic, h)

infixl 5 ◌>>=◌ ◌>>◌
abbrev pub ◌>>=◌ : {A B : Type 0} → Run A → (A → Run B) → Run B
◌>>=◌ m f h = let r = m h in bind_outcome r.0 r.1 f

abbrev pub ◌>>◌ : {B : Type 0} → Run (Unit {0}) → Run B → Run B
m >> k = m >>= λ _. k

abbrev pub pure : {A : Type 0} → A → Run A
pure a h = (ok a, h)

abbrev pub lift : {A : Type 0} → Outcome A → Run A
lift r h = (r, h)

-- `if !test { return Err(e) }`
abbrev pub require : Bool → ApiError → Run (Unit {0})
require true e h = (ok tt, h)
require false e h = (err e, h)

-- `expect` and `unwrap`
abbrev pub expect : {A : Type 0} → Option A → Run A
expect none h = (panic, h)
expect (some a) h = (ok a, h)

-- The context and the libraries. Planning may depend on what happened before, and on the catalog that
-- the context is scoped to; each of these may fail or panic.
pub data Answer (A : Type 0) : Type 0 where
  good : A → Answer A
  bad : ApiError → Answer A
  crashes : Answer A

abbrev pub of_answer : {A : Type 0} → Answer A → Outcome A
of_answer (good a) = ok a
of_answer (bad e) = err e
of_answer crashes = callee_panic

pub record SeafowlContext (Plan : Type 0) : Type 0 where
  pub default_catalog : String
  pub parse_query : String → Answer (List DfStatement)
  pub logical_plan : String → History → DfStatement → Answer LogicalPlan
  pub physical_plan : String → History → LogicalPlan → Answer Plan
  pub execute_stream : Plan → Answer (Unit {0})
  pub content_type_with_schema : Plan → String
  pub str_to_hex_hash : String → String
  pub etag_of_bytes : Bytes → String
  pub percent_decode : String → Option String
  pub not_implemented : String → String
  pub file_to_table :
      String → String → String → String → Bytes → Option String → Bool → History → Answer ℕ

module _ {Plan : Type 0} (ctx : SeafowlContext Plan) where
  -- `create_logical_plan_from_statement`, which runs nothing.
  abbrev pub create_logical_plan_from_statement : String → DfStatement → Run LogicalPlan
  create_logical_plan_from_statement db s h = (of_answer (ctx.logical_plan db h s), h)

  abbrev pub create_physical_plan : String → LogicalPlan → Run Plan
  create_physical_plan db plan h = (of_answer (ctx.physical_plan db h plan), h ++ planned plan ∷ [])
