-- ===== src/Examples/Tables.antt =====
-- gobgpd's table of objects as a map, and the order of a map's entries as the order of `range`.
use k8gobgp.Prelude.{String, ◌≡◌, refl, Option, none, some, ◌==◌, string_eq, if◌then◌else◌}
use k8gobgp.Prelude.GoMap.{GoMap, lookup, insert, erase, lookup-insert, lookup-erase}
use k8gobgp.Sync.{RangeOrder, VisitsAll}
use k8gobgp.Sync.Table.{Table}

module _ {V : Type 0} where
  pub left_at : String → Option V → GoMap V → GoMap V
  left_at k none s = erase k s
  left_at k (some p) s = insert k p s

  pub view-left_at :
      (k j : String) (v : Option V) (s : GoMap V)
      → lookup j (left_at k v s) ≡ (if k == j then v else lookup j s)
  unfolding left_at
  view-left_at k j none s = lookup-erase k j s
  view-left_at k j (some p) s = lookup-insert k j p s

  unfoldable pub map_table :
      {C : Type 0} (key_of : C → String) (value_of : C → Option V) → Table key_of value_of (GoMap V)
  unfolding left_at
  map_table key_of value_of = record {
    view = λ s k. lookup k s;
    apply = λ s c. left_at (key_of c) (value_of c) s;
    view-apply = λ s c j. view-left_at (key_of c) j (value_of c) s;
  }

unfoldable pub in_order : RangeOrder
in_order n ks = ks

pub in_order-VisitsAll : VisitsAll in_order
unfolding in_order
in_order-VisitsAll n k ks = refl
