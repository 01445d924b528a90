-- ===== src/Merge/NameCollision.antt =====
-- merge/name_collision.py: both branches added a column of one name to one table.
pub mod Kept
use db_version_control.Prelude.{
  ℕ, zero, suc, ◌+◌, String, ◌<>◌, Bool, true, false, Option, none, some, List, [], ◌∷◌, ◌++◌, Eq,
  ◌==◌, ◌≡◌, ◌↔◌, refl, ◌&&◌, arith, eq_iff, nat_beq_iff, nat_eq, string_eq, if◌then◌else◌, leb,
}
use db_version_control.Prelude.Dict.{Dict, get, put}
use db_version_control.Model.Schema.{Uuid, Column}
use db_version_control.Model.Operations.{Operation, add_column, CompoundOperation}
use db_version_control.Merge.Grouping.{flatten}

-- An AddColumn operation.
pub record Addition : Type 0 where
  pub table_id : Uuid
  pub column : Column

pub data Side : Type 0 where
  side_a side_b : Side

pub record NameCollision : Type 0 where
  pub table_id : Uuid
  pub name : String
  pub kept : Addition
  pub dropped : Addition
  pub kept_side : Side

-- The key (table_id, column_name).
abbrev pub Key : Type 0
Key = Uuid × String

abbrev key_beq : Key → Key → Bool
key_beq (t, n) (u, m) = t == u && n == m

pub key_beq_iff : (a b : Key) → (key_beq a b ≡ true) ↔ (a ≡ b)
key_beq_iff (t, n) (u, m) = ground (arith, nat_beq_iff t u, eq_iff n m)

instance abbrev pub key_eq : Eq Key
key_eq = record { beq = key_beq; beq_iff = key_beq_iff }

abbrev pub Additions : Type 0
Additions = Dict Key (List (ℕ × Addition))

abbrev listed : Option (List (ℕ × Addition)) → List (ℕ × Addition)
listed none = []
listed (some l) = l

-- by_key.setdefault(key, []).append((position, op))
unfoldable pub record_addition : Additions → ℕ → Operation → Additions
record_addition by_key position (add_column table_id column) =
    let key : Key = (table_id, column.name) in
    let addition : Addition = record { table_id = table_id; column = column } in
    put by_key key (listed (get by_key key) ++ (position, addition) ∷ [])
record_addition by_key position _ = by_key

unfoldable pub record_all : Additions → ℕ → List Operation → Additions
record_all by_key position [] = by_key
record_all by_key position (op ∷ ops) =
    record_all (record_addition by_key position op) (position + 1) ops

unfoldable pub add_columns_by_table_and_name : List CompoundOperation → Additions
add_columns_by_table_and_name compounds = record_all [] 0 (flatten compounds)

-- The body of the loop in `find_name_collisions`, on the first addition of each side.
unfoldable pub collide :
    Key → List (ℕ × Addition) → Option (List (ℕ × Addition)) → List NameCollision
collide (table_id, name) ((position_a, op_a) ∷ _) (some ((position_b, op_b) ∷ _)) =
    (if leb position_a position_b
      then record {
        table_id = table_id;
        name = name;
        kept = op_a;
        dropped = op_b;
        kept_side = side_a;
      }
      else record {
        table_id = table_id;
        name = name;
        kept = op_b;
        dropped = op_a;
        kept_side = side_b;
      })
    ∷ []
collide _ _ _ = []

unfoldable pub collisions_in : Additions → Additions → List NameCollision
collisions_in by_key_b [] = []
collisions_in by_key_b ((key, adds_a) ∷ rest) =
    collide key adds_a (get by_key_b key) ++ collisions_in by_key_b rest

unfoldable pub find_name_collisions :
    List CompoundOperation → List CompoundOperation → List NameCollision
find_name_collisions ops_a ops_b =
    collisions_in (add_columns_by_table_and_name ops_b) (add_columns_by_table_and_name ops_a)

abbrev letter : Side → String
letter side_a = "a"
letter side_b = "b"

abbrev other_side : Side → Side
other_side side_a = side_b
other_side side_b = side_a

unfoldable pub describe : (String → String) → NameCollision → String
describe repr c =
    "column "
    <> (repr c.name
        <> (" was independently added on both branches -- the one from branch "
            <> (letter c.kept_side
                <> (" was kept, the one from branch "
                    <> (letter (other_side c.kept_side)
                        <> (" was dropped as a duplicate name, review if that's not what you wanted"))))))
