-- ===== src/Model/Schema.antt =====
-- model/types.py, model/schema.py and model/snapshot.py.
use db_version_control.Prelude.{ℕ, String, Bool, Option, List, String-discrete, ℕ_discrete}

abbrev pub Uuid : Type 0
Uuid = ℕ

pub record TypeSpec : Type 0 where
  pub name : String
  pub params : List ℕ

pub record Expr : Type 0 where
  pub raw : String

pub record Column : Type 0 where
  pub id : Uuid
  pub name : String
  pub type : TypeSpec
  pub nullable : Bool
  pub default : Option Expr
  pub position : ℕ

pub record Index : Type 0 where
  pub id : Uuid
  pub name : String
  pub columns : List Uuid
  pub unique : Bool

pub data ConstraintKind : Type 0 where
  unique foreign_key check : ConstraintKind

-- `references` is the target table of a foreign key, `raw_expr` the condition of a check.
pub record Constraint : Type 0 where
  pub id : Uuid
  pub kind : ConstraintKind
  pub columns : List Uuid
  pub references : Option Uuid
  pub raw_expr : Option String

pub record Table : Type 0 where
  pub id : Uuid
  pub name : String
  pub columns : List Column
  pub indexes : List Index
  pub constraints : List Constraint

-- `revision_id` is none only for the empty snapshot before any migration.
pub record Snapshot : Type 0 where
  pub branch : String
  pub revision_id : Option String
  pub tables : List Table

unfoldable pub TypeSpec-discrete : Discrete TypeSpec
unfolding String-discrete ℕ_discrete
TypeSpec-discrete = hlevel (String-discrete, ℕ_discrete)

unfoldable pub Expr-discrete : Discrete Expr
unfolding String-discrete
Expr-discrete = hlevel (String-discrete)

unfoldable pub Column-discrete : Discrete Column
unfolding String-discrete ℕ_discrete
Column-discrete = hlevel (String-discrete, ℕ_discrete)

unfoldable pub Index-discrete : Discrete Index
unfolding String-discrete ℕ_discrete
Index-discrete = hlevel (String-discrete, ℕ_discrete)

unfoldable pub Constraint-discrete : Discrete Constraint
unfolding String-discrete ℕ_discrete
Constraint-discrete = hlevel (String-discrete, ℕ_discrete)

unfoldable pub Table-discrete : Discrete Table
unfolding String-discrete ℕ_discrete
Table-discrete = hlevel (String-discrete, ℕ_discrete)
