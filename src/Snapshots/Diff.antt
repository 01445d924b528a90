-- ===== src/Snapshots/Diff.antt =====
-- snapshot/diff.py: tables and columns matched by name.
use db_version_control.Prelude.{
  String, Bool, true, false, not, ◌&&◌, Option, none, some, List, [], ◌∷◌, ◌++◌, Eq, ◌==◌,
  string_eq, discrete_eq, if◌then◌else◌, keep, contains, ◌≡◌, ◌↔◌, arith,
}
use db_version_control.Prelude.Dict.{Dict, get, put, has, keys}
use db_version_control.Model.Schema.{TypeSpec, TypeSpec-discrete, Expr, Column, Table, Snapshot}
use db_version_control.Snapshots.Raw.{RawColumn, RawTable}

instance abbrev pub type_spec_eq : Eq TypeSpec
type_spec_eq = discrete_eq TypeSpec-discrete

abbrev flag_beq : Bool → Bool → Bool
flag_beq true b = b
flag_beq false b = not b

pub flag_beq_iff : (a b : Bool) → (flag_beq a b ≡ true) ↔ (a ≡ b)
flag_beq_iff true true = ground arith
flag_beq_iff true false = ground arith
flag_beq_iff false true = ground arith
flag_beq_iff false false = ground arith

instance abbrev pub flag_eq : Eq Bool
flag_eq = record { beq = flag_beq; beq_iff = flag_beq_iff }

pub record ColumnRetype : Type 0 where
  pub column : Column
  pub new_type : RawColumn

pub record MatchedTable : Type 0 where
  pub table : Table
  pub raw : RawTable
  pub unchanged_columns : List Column
  pub retyped_columns : List ColumnRetype
  pub unmatched_old_columns : List Column
  pub unmatched_new_columns : List RawColumn

pub record RawDiff : Type 0 where
  pub matched_tables : List MatchedTable
  pub unmatched_old_tables : List Table
  pub unmatched_new_tables : List RawTable

module _ {A : Type 0} where
  -- {x.name: x for x in xs}
  unfoldable pub by_name : (A → String) → Dict String A → List A → Dict String A
  by_name name d [] = d
  by_name name d (x ∷ xs) = by_name name (put d (name x) x) xs

  -- [x for name, x in d.items() if name not in names]
  unfoldable pub unmatched : Dict String A → List String → List A
  unmatched [] names = []
  unmatched ((name, x) ∷ d) names =
      let rest = unmatched d names in if contains names name then rest else x ∷ rest

-- set(old_by_name) & set(new_by_name), in the order in which Python iterates over it.
unfoldable pub matched_names :
    {A B : Type 0} → (List String → List String) → Dict String A → Dict String B → List String
matched_names set_order old_by_name new_by_name =
    set_order (keep (has new_by_name) (keys old_by_name))

-- (x is None and y is None) or x == y, of two defaults' texts.
unfoldable pub same_text : Option String → Option String → Bool
same_text none none = true
same_text (some a) (some b) = a == b
same_text none (some b) = false
same_text (some a) none = false

-- str(default), for a default that is there.
unfoldable pub default_text : Option Expr → Option String
default_text none = none
default_text (some e) = some e.raw

unfoldable pub same_shape : Column → RawColumn → Bool
same_shape old_column new_column =
    old_column.type == new_column.type
    && (old_column.nullable == new_column.nullable
        && same_text (default_text old_column.default) new_column.default)

unfoldable pub sort_column : MatchedTable → Column → RawColumn → MatchedTable
sort_column matched old_column new_column =
    if same_shape old_column new_column
    then record matched { unchanged_columns = matched.unchanged_columns ++ old_column ∷ [] }
    else record matched {
      retyped_columns =
          matched.retyped_columns ++ record { column = old_column; new_type = new_column } ∷ [];
    }

-- `for name in matched_names`, of names that both dicts have.
unfoldable pub sort_columns :
    Dict String Column → Dict String RawColumn → MatchedTable → List String → MatchedTable
sort_columns old_by_name new_by_name matched [] = matched
sort_columns old_by_name new_by_name matched (name ∷ names) =
    sort_columns old_by_name new_by_name
      (elim (get old_by_name name) [
        | none ↦ matched
        | some old_column ↦ elim (get new_by_name name) [
          | none ↦ matched
          | some new_column ↦ sort_column matched old_column new_column
        ]
      ])
      names

module _ (set_order : List String → List String) where
  unfoldable pub diff_table : Table → RawTable → MatchedTable
  diff_table old_table new_table =
      let old_by_name = by_name (λ (c : Column). c.name) [] old_table.columns in
      let new_by_name = by_name (λ (c : RawColumn). c.name) [] new_table.columns in
      let names = matched_names set_order old_by_name new_by_name in
      sort_columns old_by_name new_by_name
        (record {
          table = old_table;
          raw = new_table;
          unchanged_columns = [];
          retyped_columns = [];
          unmatched_old_columns = unmatched old_by_name names;
          unmatched_new_columns = unmatched new_by_name names;
        })
        names

  unfoldable pub diff_tables :
      Dict String Table → Dict String RawTable → List String → List MatchedTable
  diff_tables old_by_name new_by_name [] = []
  diff_tables old_by_name new_by_name (name ∷ names) =
      elim (get old_by_name name) [
        | none ↦ []
        | some old_table ↦ elim (get new_by_name name) [
          | none ↦ []
          | some new_table ↦ diff_table old_table new_table ∷ []
        ]
      ]
      ++ diff_tables old_by_name new_by_name names

  unfoldable pub diff_snapshot : Snapshot → List RawTable → RawDiff
  diff_snapshot old new_raw =
      let old_by_name = by_name (λ (t : Table). t.name) [] old.tables in
      let new_by_name = by_name (λ (t : RawTable). t.name) [] new_raw in
      let names = matched_names set_order old_by_name new_by_name in
      record {
        matched_tables = diff_tables old_by_name new_by_name names;
        unmatched_old_tables = unmatched old_by_name names;
        unmatched_new_tables = unmatched new_by_name names;
      }
