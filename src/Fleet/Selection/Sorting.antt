-- ===== src/Fleet/Selection/Sorting.antt =====
-- The sorting of a selection by node id.
use Prim.Native.String
use Prim.Native.Nat.{Ordering}
use mathlib.Core.List.{Memᴰ}
use opl_flow.Base.{◌≡◌, ◌⊎◌, inl, inr, List, [], ◌∷◌}
use opl_flow.Fleet.Selection.{Selected, insert_by_id, sort_by_id}

insert_by_id_mem :
    (x y : Selected) (ys : List Selected) → Memᴰ x (insert_by_id y ys) → (x ≡ y) ⊎ Memᴰ x ys
unfolding insert_by_id
insert_by_id_mem x y [] (Memᴰ.head e) = inl e
insert_by_id_mem x y [] (Memᴰ.tail n) = elim n [ ]
insert_by_id_mem x y (z ∷ zs) m =
    placed (String.compare z.node_id y.node_id) (insert_by_id_mem x y zs) m
  where
    placed :
        (o : Ordering)
        → (Memᴰ x (insert_by_id y zs) → (x ≡ y) ⊎ Memᴰ x zs)
        → Memᴰ x (elim o [ Ordering.lt ↦ z ∷ insert_by_id y zs | _ ↦ y ∷ z ∷ zs ])
        → (x ≡ y) ⊎ Memᴰ x (z ∷ zs)
    placed Ordering.lt deeper (Memᴰ.head e) = inr (Memᴰ.head e)
    placed Ordering.lt deeper (Memᴰ.tail n) = elim (deeper n) [
      | inl e ↦ inl e
      | inr k ↦ inr (Memᴰ.tail k)
    ]
    placed Ordering.eq deeper (Memᴰ.head e) = inl e
    placed Ordering.eq deeper (Memᴰ.tail n) = inr n
    placed Ordering.gt deeper (Memᴰ.head e) = inl e
    placed Ordering.gt deeper (Memᴰ.tail n) = inr n

mem-insert_by_id :
    (x y : Selected) (ys : List Selected) → (x ≡ y) ⊎ Memᴰ x ys → Memᴰ x (insert_by_id y ys)
unfolding insert_by_id
mem-insert_by_id x y [] (inl e) = Memᴰ.head e
mem-insert_by_id x y [] (inr n) = elim n [ ]
mem-insert_by_id x y (z ∷ zs) m =
    placed (String.compare z.node_id y.node_id) (mem-insert_by_id x y zs) m
  where
    placed :
        (o : Ordering)
        → ((x ≡ y) ⊎ Memᴰ x zs → Memᴰ x (insert_by_id y zs))
        → (x ≡ y) ⊎ Memᴰ x (z ∷ zs)
        → Memᴰ x (elim o [ Ordering.lt ↦ z ∷ insert_by_id y zs | _ ↦ y ∷ z ∷ zs ])
    placed Ordering.lt deeper (inl e) = Memᴰ.tail (deeper (inl e))
    placed Ordering.lt deeper (inr (Memᴰ.head e)) = Memᴰ.head e
    placed Ordering.lt deeper (inr (Memᴰ.tail n)) = Memᴰ.tail (deeper (inr n))
    placed Ordering.eq deeper (inl e) = Memᴰ.head e
    placed Ordering.eq deeper (inr n) = Memᴰ.tail n
    placed Ordering.gt deeper (inl e) = Memᴰ.head e
    placed Ordering.gt deeper (inr n) = Memᴰ.tail n

pub sort_by_id_mem : (x : Selected) (xs : List Selected) → Memᴰ x (sort_by_id xs) → Memᴰ x xs
unfolding sort_by_id
sort_by_id_mem x [] m = elim m [ ]
sort_by_id_mem x (y ∷ ys) m = elim (insert_by_id_mem x y (sort_by_id ys) m) [
  | inl e ↦ Memᴰ.head e
  | inr n ↦ Memᴰ.tail (sort_by_id_mem x ys n)
]

pub mem-sort_by_id : (x : Selected) (xs : List Selected) → Memᴰ x xs → Memᴰ x (sort_by_id xs)
unfolding sort_by_id
mem-sort_by_id x [] m = elim m [ ]
mem-sort_by_id x (y ∷ ys) (Memᴰ.head e) = mem-insert_by_id x y (sort_by_id ys) (inl e)
mem-sort_by_id x (y ∷ ys) (Memᴰ.tail n) =
    mem-insert_by_id x y (sort_by_id ys) (inr (mem-sort_by_id x ys n))
