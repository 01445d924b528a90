-- ===== src/Merge/NameCollision/Kept.antt =====
-- Which collisions of names are reported, against a scan of each branch's operations.
use db_version_control.Prelude.{
  ℕ, ◌+◌, Bool, Option, none, some, List, [], ◌∷◌, ◌==◌, nat_eq, string_eq, leb, if◌then◌else◌,
  ◌&&◌,
}
use db_version_control.Prelude.Dict.{get}
use db_version_control.Model.Operations.{Operation, add_column}
use db_version_control.Merge.NameCollision.{
  Addition, side_a, side_b, NameCollision, Key, key_eq, Additions, listed,
}

-- The first operation that adds a column of this name to this table, with its place.
abbrev pub first_added : Key → ℕ → List Operation → Option (ℕ × Addition)
first_added key position [] = none
first_added key position (add_column t c ∷ ops) =
    let later = first_added key (position + 1) ops in
    if key == (t, c.name) then some (position, record { table_id = t; column = c }) else later
first_added key position (_ ∷ ops) = first_added key (position + 1) ops

-- The rule: of the two first additions, the one that stands earlier in its branch is kept, side a's
-- where they stand at the same place.
abbrev pub collision_of : Key → Option (ℕ × Addition) → Option (ℕ × Addition) → List NameCollision
collision_of (t, name) (some (a_place, a)) (some (b_place, b)) =
    (if leb a_place b_place
      then record { table_id = t; name = name; kept = a; dropped = b; kept_side = side_a }
      else record { table_id = t; name = name; kept = b; dropped = a; kept_side = side_b })
    ∷ []
collision_of _ _ _ = []

-- The collision is about this table and name.
abbrev pub about : Key → NameCollision → Bool
about (t, name) c = t == c.table_id && name == c.name

abbrev first_of : List (ℕ × Addition) → Option (ℕ × Addition)
first_of [] = none
first_of (x ∷ xs) = some x

abbrev or_else : Option (ℕ × Addition) → Option (ℕ × Addition) → Option (ℕ × Addition)
or_else (some x) y = some x
or_else none y = y

-- The first addition under a key that has been recorded.
abbrev recorded : Additions → Key → Option (ℕ × Addition)
recorded d key = first_of (listed (get d key))
