-- ===== src/Snapshots/Raw.antt =====
-- dsl/raw.py: tables as they are parsed, without identities.
use db_version_control.Prelude.{ℕ, String, Bool, Option, List}
use db_version_control.Model.Schema.{TypeSpec}

pub record RawColumn : Type 0 where
  pub name : String
  pub type : TypeSpec
  pub nullable : Bool
  pub default : Option String
  pub position : ℕ

pub record RawIndex : Type 0 where
  pub name : String
  pub columns : List String
  pub unique : Bool

pub record RawForeignKey : Type 0 where
  pub columns : List String
  pub references_table : String

pub record RawUnique : Type 0 where
  pub columns : List String

pub record RawCheck : Type 0 where
  pub raw_expr : String

pub record RawTable : Type 0 where
  pub name : String
  pub columns : List RawColumn
  pub indexes : List RawIndex
  pub foreign_keys : List RawForeignKey
  pub uniques : List RawUnique
  pub checks : List RawCheck
