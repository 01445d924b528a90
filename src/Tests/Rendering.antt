-- ===== src/Tests/Rendering.antt =====
-- A schema file: a table of users with an index, and one that refers to it.
use db_version_control.Prelude.{true, none, some, List, [], ◌∷◌, nat_eq, ◌≡◌, ◌↔◌, refl}
use db_version_control.Prelude.Strings.{join}
use db_version_control.Prelude.Dict.{get, put}
use db_version_control.Prelude.Errors.{ok, err, key_error, Returns}
use db_version_control.Model.Schema.{Index, Constraint, foreign_key, Table, Snapshot}
use db_version_control.Ddl.Emitter.{type_text, by_position, insert_column}
use db_version_control.Dsl.Render.{
  each, column_name_in, column_name, default_modifier, modifier_text, render_column, render_index,
  referenced, render_constraint, indented, render_table, by_id, render_snapshot,
}
use db_version_control.Dsl.Render.Resolved.{IsResolved, render_snapshot_iff}
use db_version_control.Tests.Samples.{email, users}

abbrev by_email : Index
by_email = record { id = 31; name = "by_email"; columns = 11 ∷ []; unique = true }

abbrev to_users : Constraint
to_users = record {
  id = 32;
  kind = foreign_key;
  columns = 21 ∷ [];
  references = some 1;
  raw_expr = none;
}

abbrev indexed : Table
indexed = record users { indexes = by_email ∷ [] }

abbrev posts : Table
posts = record {
  id = 2;
  name = "posts";
  columns = (record email { id = 21; name = "author" }) ∷ [];
  indexes = [];
  constraints = to_users ∷ [];
}

abbrev of_tables : List Table → Snapshot
of_tables tables = record { branch = "main"; revision_id = none; tables = tables }

rendered :
    render_snapshot (λ n. "80") (of_tables (indexed ∷ posts ∷ []))
    ≡ ok
        "table users {\n  column email: text not_null\n  index by_email on (email) unique\n}\n\ntable posts {\n  column author: text not_null\n  foreign_key (author) references users\n}\n"
unfolding render_snapshot render_table by_id each render_index render_constraint column_name
    column_name_in referenced render_column modifier_text default_modifier indented by_position
    insert_column type_text join get put
rendered = refl

-- The index is still there when its column is dropped.
raises :
    render_snapshot (λ n. "80") (of_tables (record indexed { columns = [] } ∷ [])) ≡ err key_error
unfolding render_snapshot render_table each render_index column_name column_name_in
raises = refl

render_snapshot_iff_example :
    Returns (render_snapshot (λ n. "80") (of_tables (indexed ∷ posts ∷ [])))
    ↔ IsResolved (of_tables (indexed ∷ posts ∷ []))
render_snapshot_iff_example = render_snapshot_iff (λ n. "80") (of_tables (indexed ∷ posts ∷ []))
