-- ===== src/Planner/Conditions/Relations.antt =====
-- The relations between inputs that validateInputs of pkg/planner/planner.go checks.
use claim2kernel.Base.{
  ==-true, All, Bool-cases, List, Map, Option, String, [], ap, inl, inr, none, not, not-false, refl,
  some, true, ◌==◌, ◌∷◌, ◌≡◌,
}
use claim2kernel.Contract.Types.{Relation}
use claim2kernel.Contract.Value.{Value}
use claim2kernel.Float64.{Float64}
use claim2kernel.Planner.Checks.{Checks, Checks-id, Checks-iff, Checks-reject_if, Checks-then}
use claim2kernel.Planner.Conditions.{
  Compares, RelationHolds, is_less, is_less_or_same, is_more, is_more_or_same, is_same,
}
use claim2kernel.Planner.Inputs.{check_relation, check_relations, number_at, relation_holds}

Compares-of_test : (op : String) (l r : Float64) → relation_holds op l r ≡ true → Compares op l r
unfolding relation_holds
Compares-of_test op l r h = elim (Bool-cases (op == "<")) [
  | inl is ↦ is_less (==-true op _ is) (rw (is, relation_holds) at h)
  | inr a ↦ elim (Bool-cases (op == "<=")) [
    | inl is ↦ is_less_or_same (==-true op _ is) (rw (a, is, relation_holds) at h)
    | inr b ↦ elim (Bool-cases (op == "=")) [
      | inl is ↦ is_same (==-true op _ is) (rw (a, b, is, relation_holds) at h)
      | inr c ↦ elim (Bool-cases (op == ">=")) [
        | inl is ↦ is_more_or_same (==-true op _ is) (rw (a, b, c, is, relation_holds) at h)
        | inr d ↦ elim (Bool-cases (op == ">")) [
          | inl is ↦ is_more (==-true op _ is) (rw (a, b, c, d, is, relation_holds) at h)
          | inr e ↦ absurd (cc (rw (a, b, c, d, e, relation_holds) at h))
        ]
      ]
    ]
  ]
]

test_of_Compares : (op : String) (l r : Float64) → Compares op l r → relation_holds op l r ≡ true
unfolding relation_holds
test_of_Compares op l r (is_less e h) = rw e h
test_of_Compares op l r (is_less_or_same e h) = rw e h
test_of_Compares op l r (is_same e h) = rw e h
test_of_Compares op l r (is_more_or_same e h) = rw e h
test_of_Compares op l r (is_more e h) = rw e h

-- A relation binds where both of its inputs are numbers.
RelationCondition : String → Option Float64 → Option Float64 → Type 0
RelationCondition op a b = (l r : Float64) → a ≡ some l → b ≡ some r → Compares op l r

Checks-check_relation :
    (op : String) (a b : Option Float64) → Checks (RelationCondition op a b) (check_relation op a b)
unfolding check_relation RelationCondition
Checks-check_relation op (some l) (some r) =
    Checks-iff
      (λ h x y e f.
        let given : relation_holds op l r ≡ true = not-false (relation_holds op l r) h in
        let same_l : l ≡ x = cc (e) in
        let same_r : r ≡ y = cc (f) in Compares-of_test op x y (cc (given, same_l, same_r)))
      (λ c. ap not (test_of_Compares op l r (c l r refl refl)))
      (Checks-reject_if (not (relation_holds op l r)) "RELATION_VIOLATION" "spec.inputs")
Checks-check_relation op (some l) none = Checks-id (λ x y e f. absurd (cc (f)))
Checks-check_relation op none b = Checks-id (λ x y e f. absurd (cc (e)))

pub Checks-check_relations :
    (relations : List Relation) (inputs : Map Value)
    → Checks (All (RelationHolds inputs) relations) (check_relations relations inputs)
unfolding check_relations RelationCondition
Checks-check_relations [] inputs = Checks-id tt
Checks-check_relations (rel ∷ rels) inputs =
    Checks-then
      (Checks-check_relation rel.op (number_at inputs rel.left) (number_at inputs rel.right))
      (Checks-check_relations rels inputs)
