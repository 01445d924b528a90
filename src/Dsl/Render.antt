-- ===== src/Dsl/Render.antt =====
-- dsl/render.py: the tables of a snapshot as the text of a schema file.
pub mod Resolved
use db_version_control.Prelude.{
  ℕ, String, ◌<>◌, Bool, true, false, Option, none, some, List, [], ◌∷◌, ◌++◌, map, Eq, ◌==◌,
  nat_eq, if◌then◌else◌,
}
use db_version_control.Prelude.Dict.{Dict, get, put}
use db_version_control.Prelude.Strings.{join}
use db_version_control.Prelude.Errors.{Result, ok, err, key_error, ◌>>=◌}
use db_version_control.Model.Schema.{
  Uuid, Expr, Column, Index, Constraint, unique, foreign_key, check, Table, Snapshot,
}
use db_version_control.Dag.Apply.{Tables}
use db_version_control.Ddl.Emitter.{type_text, by_position}

-- [f(x) for x in xs], where f may raise.
unfoldable pub each : {A B : Type 0} → (A → Result B) → List A → Result (List B)
each f [] = ok []
each f (x ∷ xs) = f x >>= λ y. each f xs >>= λ ys. ok (y ∷ ys)

unfoldable pub column_name_in : List Column → Uuid → Result String
column_name_in [] column_id = err key_error
column_name_in (column ∷ columns) column_id =
    let rest = column_name_in columns column_id in
    if column.id == column_id then ok column.name else rest

unfoldable pub column_name : Table → Uuid → Result String
column_name table column_id = column_name_in table.columns column_id

unfoldable pub default_modifier : Option Expr → List String
default_modifier none = []
default_modifier (some default) = ("default=" <> default.raw) ∷ []

unfoldable pub modifier_text : List String → String
modifier_text [] = ""
modifier_text (m ∷ ms) = " " <> join " " (m ∷ ms)

unfoldable pub render_column : (ℕ → String) → Column → String
render_column str column =
    let modifiers =
      (if column.nullable then [] else "not_null" ∷ []) ++ default_modifier column.default in
    "column " <> (column.name <> (": " <> (type_text str column.type <> modifier_text modifiers)))

unfoldable pub render_index : Index → Table → Result String
render_index index table = each (column_name table) index.columns >>= λ column_names. ok (
    "index "
    <> (index.name
        <> (" on ("
            <> (join ", " column_names <> (")" <> (if index.unique then " unique" else ""))))))

-- tables_by_id[constraint.references]
unfoldable pub referenced : Tables → Option Uuid → Result Table
referenced tables_by_id none = err key_error
referenced tables_by_id (some id) = elim (get tables_by_id id) [
  | none ↦ err key_error
  | some table ↦ ok table
]

-- An f-string shows None as a word.
abbrev expression : Option String → String
expression none = "None"
expression (some raw) = raw

-- No constraint is rendered as nothing, so that none is left out.
unfoldable pub render_constraint : Constraint → Table → Tables → Result String
render_constraint constraint table tables_by_id = elim constraint.kind [
  | foreign_key ↦ each (column_name table) constraint.columns >>= λ column_names.
      referenced tables_by_id constraint.references >>= λ ref_table.
      ok ("foreign_key (" <> (join ", " column_names <> (") references " <> ref_table.name)))
  | unique ↦ each (column_name table) constraint.columns >>= λ column_names.
      ok ("unique (" <> (join ", " column_names <> ")"))
  | check ↦ ok ("check " <> expression constraint.raw_expr)
]

unfoldable pub indented : List String → List String
indented [] = []
indented (line ∷ lines) = ("  " <> line) ∷ indented lines

unfoldable pub render_table : (ℕ → String) → Tables → Table → Result String
render_table str tables_by_id table =
    each (λ index. render_index index table) table.indexes >>= λ indexes.
    each (λ constraint. render_constraint constraint table tables_by_id) table.constraints
    >>= λ constraints. ok (
        join "\n" (
          ("table " <> (table.name <> " {"))
          ∷ (indented (map (render_column str) (by_position table.columns))
              ++ (indented indexes ++ (indented constraints ++ "}" ∷ [])))))

-- {t.id: t for t in snapshot.tables}
unfoldable pub by_id : Tables → List Table → Tables
by_id d [] = d
by_id d (t ∷ ts) = by_id (put d t.id t) ts

unfoldable pub render_snapshot : (ℕ → String) → Snapshot → Result String
render_snapshot str snapshot = elim snapshot.tables [
  | [] ↦ ok ""
  | t ∷ ts ↦ each (render_table str (by_id [] (t ∷ ts))) (t ∷ ts) >>= λ texts.
      ok (join "\n\n" texts <> "\n")
]
