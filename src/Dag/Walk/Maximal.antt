-- ===== src/Dag/Walk/Maximal.antt =====
-- The set `maximal` of `merge_base`: the members of a set from which no other member descends.
use db_version_control.Prelude.{
  String, Bool, true, false, List, [], ◌∷◌, ◌==◌, string_eq, eq_iff, ◌≡◌, ◌≢◌, sym, subst, inl, inr,
  arith, contains, Bool-cases, if◌then◌else◌, Distinct,
}
use db_version_control.Prelude.Dict.{Dict, has}
use db_version_control.Prelude.Errors.{Error}
use db_version_control.Model.Operations.{RevisionId}
use db_version_control.Dag.Store.Grown.{Grown}
use db_version_control.Dag.Store.Session.{pure, ◌>>=◌}
use db_version_control.Dag.Walk.{Nodes, ancestors, has_descendant, maximal_of}
use db_version_control.Dag.Walk.Reach.{Reach}
use db_version_control.Dag.Walk.Ancestors.{IsAncestorSet}
use db_version_control.Dag.Walk.Yields.{
  Yields, Yields-bind, Yields-pure, Yields-if, Yields-weaken, ancestors-Yields,
}

abbrev pub Never : Error → Type 0
Never e = ⊥

module _ (nodes : Nodes) (heads : Dict String RevisionId) (grown : Grown [] nodes) where
  -- Another member of `common` descends from `c`.
  pub record Above (common : List RevisionId) (c : RevisionId) : Type 0 where
    pub other : RevisionId
    pub member : contains common other ≡ true
    pub ne : other ≢ c
    pub below : Reach nodes other c

  abbrev Below : List RevisionId → RevisionId → Bool → Type 0
  Below common c true = Above common c
  Below common c false = (o : RevisionId) → contains common o ≡ true → Reach nodes o c → o ≡ c

  Above-cons :
      (o : RevisionId) (common : List RevisionId) (c : RevisionId)
      → Above common c
      → Above (o ∷ common) c
  Above-cons o common c h = record {
    other = h.other;
    member = ground (arith, h.member);
    ne = h.ne;
    below = h.below;
  }

  Below-cons :
      (o : RevisionId) (common : List RevisionId) (c : RevisionId) (b : Bool)
      → (Reach nodes o c → o ≡ c)
      → Below common c b
      → Below (o ∷ common) c b
  Below-cons o common c true only h = Above-cons o common c h
  Below-cons o common c false only h = λ x m w. elim (Bool-cases (x == o)) [
    | inl q ↦
        let e : x ≡ o = (eq_iff x o).0 q in
        subst (λ y. y ≡ c) (sym e) (only (subst (λ y. Reach nodes y c) e w))
    | inr q ↦ h x (ground arith) w
  ]

  has_descendant-Yields :
      (c : RevisionId) (common : List RevisionId)
      → ((x : RevisionId) → contains common x ≡ true → has nodes x ≡ true)
      → Yields nodes heads (Below common c) Never (has_descendant c common)
  unfolding has_descendant
  has_descendant-Yields c [] known = Yields-pure nodes heads (Below [] c) Never false (λ o m. cc)
  has_descendant-Yields c (o ∷ common) known =
      let rest = has_descendant-Yields c common (λ x m. known x (ground arith)) in
      let longer = λ (only : Reach nodes o c → o ≡ c).
        Yields-weaken nodes heads (Below common c) (Below (o ∷ common) c) Never Never
          (has_descendant c common) (λ b h. Below-cons o common c b only h) (λ e h. h) rest in
      Yields-if nodes heads (Below (o ∷ common) c) Never (o == c) (has_descendant c common)
        (ancestors o >>= λ above. if contains above c then pure true else has_descendant c common)
        (λ q. longer (λ _. (eq_iff o c).0 q))
        (λ q.
          Yields-bind nodes heads (IsAncestorSet nodes o) (Below (o ∷ common) c) Never (ancestors o)
            (λ above. if contains above c then pure true else has_descendant c common)
            (ancestors-Yields nodes heads grown Never o (known o (ground (arith, eq_iff o o))))
            λ above is.
              Yields-if nodes heads (Below (o ∷ common) c) Never (contains above c) (pure true)
                (has_descendant c common)
                (λ m. Yields-pure nodes heads (Below (o ∷ common) c) Never true (record {
                  other = o;
                  member = ground (arith, eq_iff o o);
                  ne = λ e. ground (arith, (eq_iff o c).1 e);
                  below = (is.members c).0 m;
                }))
                (λ m. longer (λ w. ground (arith, (is.members c).1 w))))

  -- The elements of `todo` from which no other member of `common` descends.
  pub record IsMaximalOf (common todo ms : List RevisionId) : Type 0 where
    pub from_todo : (x : RevisionId) → contains ms x ≡ true → contains todo x ≡ true
    pub maximal :
        (x o : RevisionId)
        → contains ms x ≡ true
        → contains common o ≡ true
        → Reach nodes o x
        → o ≡ x
    pub left_out :
        (x : RevisionId) → contains todo x ≡ true → contains ms x ≡ false → Above common x
    pub unique : Distinct todo → Distinct ms

  IsMaximalOf-cons :
      (common todo ms : List RevisionId) (c : RevisionId) (b : Bool)
      → Below common c b
      → IsMaximalOf common todo ms
      → IsMaximalOf common (c ∷ todo) (if b then ms else c ∷ ms)
  IsMaximalOf-cons common todo ms c true above h = record {
    from_todo = λ x m. ground (arith, h.from_todo x m);
    maximal = h.maximal;
    left_out = λ x m out. elim (Bool-cases (x == c)) [
      | inl q ↦ subst (Above common) (sym ((eq_iff x c).0 q)) above
      | inr q ↦ h.left_out x (ground arith) out
    ];
    unique = λ d. h.unique d.1;
  }
  IsMaximalOf-cons common todo ms c false none_above h = record {
    from_todo = λ x m. ground (arith, h.from_todo x);
    maximal = λ x o m k w. elim (Bool-cases (x == c)) [
      | inl q ↦
          let e : x ≡ c = (eq_iff x c).0 q in
          subst (λ y. o ≡ y) (sym e) (none_above o k (subst (Reach nodes o) e w))
      | inr q ↦ h.maximal x o (ground arith) k w
    ];
    left_out = λ x m out. h.left_out x (ground arith) (ground arith);
    unique = λ d. (ground (arith, h.from_todo c), h.unique d.1);
  }

  pub maximal_of-Yields :
      (common todo : List RevisionId)
      → ((x : RevisionId) → contains common x ≡ true → has nodes x ≡ true)
      → Yields nodes heads (IsMaximalOf common todo) Never (maximal_of common todo)
  unfolding maximal_of
  maximal_of-Yields common [] known =
      Yields-pure nodes heads (IsMaximalOf common []) Never [] (record {
        from_todo = λ x m. m;
        maximal = λ x o m k w. cc;
        left_out = λ x m out. cc;
        unique = λ d. d;
      })
  maximal_of-Yields common (c ∷ todo) known =
      Yields-bind nodes heads (Below common c) (IsMaximalOf common (c ∷ todo)) Never
        (has_descendant c common)
        (λ below. maximal_of common todo >>= λ rest. pure (if below then rest else c ∷ rest))
        (has_descendant-Yields c common known)
        λ below h.
          Yields-bind nodes heads (IsMaximalOf common todo) (IsMaximalOf common (c ∷ todo)) Never
            (maximal_of common todo) (λ rest. pure (if below then rest else c ∷ rest))
            (maximal_of-Yields common todo known)
            λ rest k.
              Yields-pure nodes heads (IsMaximalOf common (c ∷ todo)) Never
                (if below then rest else c ∷ rest) (IsMaximalOf-cons common todo rest c below h k)
