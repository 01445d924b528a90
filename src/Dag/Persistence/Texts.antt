-- ===== src/Dag/Persistence/Texts.antt =====
-- The text of a node and of the heads is read back as what was written.
use db_version_control.Prelude.{
  List, [], ◌∷◌, String, string_eq, true, ◌≡◌, refl, ap, ◌∙◌, arith, Distinct,
}
use db_version_control.Prelude.Dict.{Dict, keys}
use db_version_control.Prelude.Errors.{ok, ◌>>=◌}
use db_version_control.Model.Operations.{Migration, RevisionId}
use db_version_control.Model.Serialize.{j_object, to_jsonable, from_jsonable}
use db_version_control.Model.Serialize.RoundTrip.{
  KeysOnce, MembersOnce, once, member_names, from-to_jsonable, to_jsonable-KeysOnce,
}
use db_version_control.Model.Serialize.Nodes.{migration_form}
use db_version_control.Dag.Persistence.{
  Codec, heads_members, items_of, heads_of, dumps_node, loads_node, dumps_heads, loads_heads,
}

names-heads_members :
    (heads : Dict String RevisionId) → member_names (heads_members heads) ≡ keys heads
unfolding heads_members
names-heads_members [] = refl
names-heads_members ((b, r) ∷ heads) = ap (λ names. b ∷ names) (names-heads_members heads)

once-Distinct : (names : List String) → Distinct names → once names ≡ true
once-Distinct [] d = refl
once-Distinct (name ∷ names) d = ground (arith, once-Distinct names d.1)

heads_members-MembersOnce : (heads : Dict String RevisionId) → MembersOnce (heads_members heads)
unfolding heads_members KeysOnce
heads_members-MembersOnce [] = tt
heads_members-MembersOnce ((b, r) ∷ heads) = (tt, heads_members-MembersOnce heads)

items-heads_members : (heads : Dict String RevisionId) → items_of (heads_members heads) ≡ ok heads
unfolding heads_members items_of
items-heads_members [] = refl
items-heads_members ((b, r) ∷ heads) =
    ap (λ x. x >>= λ rest. ok ((b, r) ∷ rest)) (items-heads_members heads)

module _ (codec : Codec) where
  pub loads-dumps_heads :
      (heads : Dict String RevisionId)
      → Distinct (keys heads)
      → loads_heads codec (dumps_heads codec heads) ≡ ok heads
  unfolding loads_heads dumps_heads heads_of KeysOnce
  loads-dumps_heads heads d =
      let written = codec.loads-dumps (j_object (heads_members heads)) (
        ap once (names-heads_members heads) ∙ once-Distinct (keys heads) d,
        heads_members-MembersOnce heads,
      ) in
      ap (λ r. r >>= heads_of) written ∙ items-heads_members heads

  -- Where json.loads gives back what json.dumps wrote for objects that have no key twice, and
  -- UUID(hex=...) what .hex wrote: the text of a node is read back as that node, whatever its
  -- operations are.
  pub loads-dumps_node : (node : Migration) → loads_node codec (dumps_node codec node) ≡ ok node
  unfolding loads_node dumps_node
  loads-dumps_node node =
      let v = migration_form.to_value node in
      let kept = migration_form.kept node in
      ap (λ r. r >>= λ j. from_jsonable codec.uuids j >>= migration_form.of_value)
        (codec.loads-dumps (to_jsonable codec.uuids v) (to_jsonable-KeysOnce codec.uuids v kept))
      ∙ ap (λ r. r >>= migration_form.of_value)
          (from-to_jsonable codec.uuids v kept ∙ ap ok (migration_form.whole node))
      ∙ migration_form.of-to_value node
