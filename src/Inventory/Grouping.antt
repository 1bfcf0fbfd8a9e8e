-- ===== src/Inventory/Grouping.antt =====
-- The dicts that the processor builds from its rows, as sums and filters of the rows.
use smart_warehouse_platform.Prelude.{
  ◌≡◌, refl, List, [], ◌∷◌, ◌++◌, none, some, arith, ◌∙◌, sym, ap, subst, Dict, lookup, insert,
  keys, union, lookup-insert, insert_fresh, union_self,
}
use mathlib.Core.List.{append_assoc, append-nil}
use smart_warehouse_platform.Prelude.Eq.{string_eq}
use smart_warehouse_platform.Domain.Models.{
  InventoryKey, InventoryState, composite_key, key_eq, key_beq_iff,
}
use smart_warehouse_platform.Processor.Rows.{rows_by_key, rows_by_key_from}
use smart_warehouse_platform.Inventory.Changes.{IsFresh}

-- Rows before and after, for the same distinct keys.
abbrev pub Aligned : List InventoryState → List InventoryState → Type 0
Aligned [] [] = Unit
Aligned (c ∷ cs) (u ∷ us) =
    (composite_key u ≡ composite_key c) × IsFresh (composite_key c) us × Aligned cs us
Aligned _ _ = ⊥

abbrev IsUnique : List InventoryState → Type 0
IsUnique [] = Unit
IsUnique (r ∷ rows) = IsFresh (composite_key r) rows × IsUnique rows

abbrev pub row_pairs : List InventoryState → Dict InventoryKey InventoryState
row_pairs [] = []
row_pairs (r ∷ rows) = (composite_key r, r) ∷ row_pairs rows

pub Aligned-IsFresh :
    (k : InventoryKey) (cs us : List InventoryState) → Aligned cs us → IsFresh k us → IsFresh k cs
Aligned-IsFresh k [] [] a f = tt
Aligned-IsFresh k (c ∷ cs) (u ∷ us) a f = ((λ e. f.0 (a.0 ∙ e)), Aligned-IsFresh k cs us a.2 f.1)
Aligned-IsFresh k [] (u ∷ us) a f = absurd a
Aligned-IsFresh k (c ∷ cs) [] a f = absurd a

Aligned-IsUnique_before : (cs us : List InventoryState) → Aligned cs us → IsUnique cs
Aligned-IsUnique_before [] [] a = tt
Aligned-IsUnique_before (c ∷ cs) (u ∷ us) a =
    (Aligned-IsFresh (composite_key c) cs us a.2 a.1, Aligned-IsUnique_before cs us a.2)
Aligned-IsUnique_before [] (u ∷ us) a = absurd a
Aligned-IsUnique_before (c ∷ cs) [] a = absurd a

Aligned-IsUnique_after : (cs us : List InventoryState) → Aligned cs us → IsUnique us
Aligned-IsUnique_after [] [] a = tt
Aligned-IsUnique_after (c ∷ cs) (u ∷ us) a =
    (subst (λ q. IsFresh q us) (sym a.0) a.1, Aligned-IsUnique_after cs us a.2)
Aligned-IsUnique_after [] (u ∷ us) a = absurd a
Aligned-IsUnique_after (c ∷ cs) [] a = absurd a

abbrev IsNew : Dict InventoryKey InventoryState → List InventoryState → Type 0
IsNew d [] = Unit
IsNew d (r ∷ rows) = (lookup (composite_key r) d ≡ none) × IsNew d rows

IsNew-insert :
    (r : InventoryState) (d : Dict InventoryKey InventoryState) (rows : List InventoryState)
    → IsNew d rows
    → IsFresh (composite_key r) rows
    → IsNew (insert (composite_key r) r d) rows
IsNew-insert r d [] n f = tt
IsNew-insert r d (s ∷ rows) n f = (
  ground (
    arith,
    n.0,
    f.0,
    lookup-insert (composite_key r) (composite_key s) r d,
    key_beq_iff (composite_key r) (composite_key s),
  ),
  IsNew-insert r d rows n.1 f.1,
)

rows_by_key_from-append :
    (d : Dict InventoryKey InventoryState) (rows : List InventoryState)
    → IsNew d rows
    → IsUnique rows
    → rows_by_key_from d rows ≡ d ++ row_pairs rows
unfolding rows_by_key_from
rows_by_key_from-append d [] n q = sym (append-nil d)
rows_by_key_from-append d (r ∷ rows) n q =
    rows_by_key_from-append (insert (composite_key r) r d) rows (IsNew-insert r d rows n.1 q.0) q.1
    ∙ (ap (λ (x : Dict InventoryKey InventoryState). x ++ row_pairs rows)
          (insert_fresh (composite_key r) r d n.0)
        ∙ append_assoc d ((composite_key r, r) ∷ []) (row_pairs rows))

IsNew-nil : (rows : List InventoryState) → IsNew [] rows
IsNew-nil [] = tt
IsNew-nil (r ∷ rows) = (refl, IsNew-nil rows)

-- With distinct keys the comprehension `{key: row for row in rows}` lists the rows.
rows_by_key_lem : (rows : List InventoryState) → IsUnique rows → rows_by_key rows ≡ row_pairs rows
unfolding rows_by_key
rows_by_key_lem rows q = rows_by_key_from-append [] rows (IsNew-nil rows) q

pub rows_by_key_before :
    (cs us : List InventoryState) → Aligned cs us → rows_by_key cs ≡ row_pairs cs
rows_by_key_before cs us a = rows_by_key_lem cs (Aligned-IsUnique_before cs us a)

pub rows_by_key_after :
    (cs us : List InventoryState) → Aligned cs us → rows_by_key us ≡ row_pairs us
rows_by_key_after cs us a = rows_by_key_lem us (Aligned-IsUnique_after cs us a)

keys-Aligned :
    (cs us : List InventoryState) → Aligned cs us → keys (row_pairs us) ≡ keys (row_pairs cs)
keys-Aligned [] [] a = refl
keys-Aligned (c ∷ cs) (u ∷ us) a = cc (a.0, keys-Aligned cs us a.2)
keys-Aligned [] (u ∷ us) a = absurd a
keys-Aligned (c ∷ cs) [] a = absurd a

pub union-keys :
    (cs us : List InventoryState)
    → Aligned cs us
    → union (keys (row_pairs cs)) (keys (row_pairs us)) ≡ keys (row_pairs cs)
union-keys cs us a = rw (keys-Aligned cs us a) (union_self (keys (row_pairs cs)))

-- Both rows of every key are found in the dicts.
abbrev pub Found :
    Dict InventoryKey InventoryState
    → Dict InventoryKey InventoryState
    → List InventoryState
    → List InventoryState
    → Type 0
Found d e [] [] = Unit
Found d e (c ∷ cs) (u ∷ us) =
    (lookup (composite_key c) d ≡ some c) × (lookup (composite_key c) e ≡ some u) × Found d e cs us
Found d e _ _ = ⊥

Found-cons :
    (k : InventoryKey) (x y : InventoryState) (d e : Dict InventoryKey InventoryState)
    (cs us : List InventoryState)
    → IsFresh k cs
    → Found d e cs us
    → Found ((k, x) ∷ d) ((k, y) ∷ e) cs us
Found-cons k x y d e [] [] f h = tt
Found-cons k x y d e (c ∷ cs) (u ∷ us) f h = (
  ground (arith, h.0, f.0, key_beq_iff k (composite_key c)),
  ground (arith, h.1, f.0, key_beq_iff k (composite_key c)),
  Found-cons k x y d e cs us f.1 h.2,
)
Found-cons k x y d e [] (u ∷ us) f h = absurd h
Found-cons k x y d e (c ∷ cs) [] f h = absurd h

pub Aligned-Found :
    (cs us : List InventoryState) → Aligned cs us → Found (row_pairs cs) (row_pairs us) cs us
Aligned-Found [] [] a = tt
Aligned-Found (c ∷ cs) (u ∷ us) a = (
  ground (arith, key_beq_iff (composite_key c) (composite_key c)),
  ground (arith, a.0, key_beq_iff (composite_key u) (composite_key c)),
  subst (λ q. Found ((composite_key c, c) ∷ row_pairs cs) ((q, u) ∷ row_pairs us) cs us) (sym a.0)
      (Found-cons (composite_key c) c u (row_pairs cs) (row_pairs us) cs us
        (Aligned-IsFresh (composite_key c) cs us a.2 a.1) (Aligned-Found cs us a.2)),
)
Aligned-Found [] (u ∷ us) a = absurd a
Aligned-Found (c ∷ cs) [] a = absurd a
