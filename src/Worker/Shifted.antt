-- ===== src/Worker/Shifted.antt =====
-- How the shifts of the stock by the posted events add up.
use smart_warehouse_platform.Prelude.{
  ◌+ℤ◌, int_laws, parts_of_eq, List, [], ◌∷◌, ◌++◌, ◌≡◌, ◌≢◌, refl, ap, ◌∙◌,
}
use smart_warehouse_platform.Domain.Models.{InventoryKey}
use smart_warehouse_platform.Domain.Result.{Action, applied, duplicate, stale, dlq}
use smart_warehouse_platform.Repository.Schema.{Tables}
use smart_warehouse_platform.Inventory.Deltas.{available, reserved}
use smart_warehouse_platform.Repository.Partition.{value_of}
use smart_warehouse_platform.Worker.Postings.{
  Posting, posted_by, posted_available, posted_reserved, AreShifted,
}

pub AreShifted-nothing :
    (t t' : Tables)
    → t'.inventory_by_product_zone ≡ t.inventory_by_product_zone
    → AreShifted t t' []
AreShifted-nothing t t' e k = (
  ap (λ stored. value_of available (stored k.product_id k.zone_id)) e ∙ omega int_laws,
  ap (λ stored. value_of reserved (stored k.product_id k.zone_id)) e ∙ omega int_laws,
)

posted_available-++ :
    (ps qs : List Posting) (k : InventoryKey)
    → posted_available (ps ++ qs) k ≡ posted_available ps k +ℤ posted_available qs k
posted_available-++ [] qs k = omega int_laws
posted_available-++ ((context, t) ∷ ps) qs k =
    omega (int_laws, parts_of_eq (posted_available-++ ps qs k))

posted_reserved-++ :
    (ps qs : List Posting) (k : InventoryKey)
    → posted_reserved (ps ++ qs) k ≡ posted_reserved ps k +ℤ posted_reserved qs k
posted_reserved-++ [] qs k = omega int_laws
posted_reserved-++ ((context, t) ∷ ps) qs k =
    omega (int_laws, parts_of_eq (posted_reserved-++ ps qs k))

pub AreShifted-++ :
    (t t' t'' : Tables) (ps qs : List Posting)
    → AreShifted t t' ps
    → AreShifted t' t'' qs
    → AreShifted t t'' (ps ++ qs)
AreShifted-++ t t' t'' ps qs first then_ k = (
  omega (
    int_laws,
    parts_of_eq (first k).0,
    parts_of_eq (then_ k).0,
    parts_of_eq (posted_available-++ ps qs k),
  ),
  omega (
    int_laws,
    parts_of_eq (first k).1,
    parts_of_eq (then_ k).1,
    parts_of_eq (posted_reserved-++ ps qs k),
  ),
)

pub AreShifted-kept :
    (t t' t'' : Tables) (ps : List Posting)
    → AreShifted t t' ps
    → t''.inventory_by_product_zone ≡ t'.inventory_by_product_zone
    → AreShifted t t'' ps
AreShifted-kept t t' t'' ps first e k = (
  ap (λ stored. value_of available (stored k.product_id k.zone_id)) e ∙ (first k).0,
  ap (λ stored. value_of reserved (stored k.product_id k.zone_id)) e ∙ (first k).1,
)

pub unposted : (a : Action) (p : Posting) → a ≢ applied → posted_by a p ≡ []
unposted applied p other = absurd (other refl)
unposted duplicate p other = refl
unposted stale p other = refl
unposted dlq p other = refl
