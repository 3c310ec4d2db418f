-- ===== src/Fleet/Selection/Exact.antt =====
-- Which nodes a selection has.
use mathlib.Core.List.{Memᴰ}
use mathlib.Core.List.Memᴰ
use mathlib.Core.Path.{subst}
use opl_flow.Base.{
  eq_refl, ◌↔◌, String, true, false, ◌≡◌, refl, sym, ◌∙◌, inl, inr, none, some, List, [], ◌∷◌,
  arith, subset, is_empty, ok, Result-cases, Option-cases, Bool-cases, eq_iff, ◌⊎◌, ap,
  ok-injective,
}
use opl_flow.Base.Int.{ℤ, pos, ◌≤ℤ◌}
use opl_flow.Base.Dict.{Dict, lookup}
use opl_flow.Fleet.Lease.Data.{Instant, Lease}
use opl_flow.Fleet.Admission.Doctor.{Requirement, gib}
use opl_flow.Fleet.Features.{
  Inventory, CatalogEntry, GpuProfile, inventory_is_fresh, amount, matching_gpus, node_features,
}
use opl_flow.Fleet.Selection.{
  Selected, is_ready, asks_gpu, has_gpu, selected, select_entry, select_entries, sort_by_id,
  select_nodes,
}
use opl_flow.Fleet.Selection.Sorting.{sort_by_id_mem, mem-sort_by_id}

-- The entry may run the job, and `x` is what the selection says of it.
pub record IsEligible (casefold : String → String) (q : Requirement) (max_age_hours : ℤ)
    (now : Instant) (leases : Dict Lease) (entry : CatalogEntry) (x : Selected) : Type 0 where
  pub inventory : Inventory
  pub listed : entry.inventory ≡ some inventory
  pub approved : entry.approved ≡ true
  pub current : entry.receipt_state ≡ some "CURRENT"
  pub fresh : inventory_is_fresh inventory max_age_hours now ≡ true
  pub memory : gib q.min_memory_gb ≤ℤ pos (amount casefold inventory.memory_bytes)
  pub features : subset q.required (node_features casefold entry false) ≡ true
  pub gpu :
      (asks_gpu casefold q ≡ false)
      ⊎ ((gpus : List GpuProfile) × (matching_gpus casefold entry q ≡ ok gpus)
          × (is_empty gpus ≡ false))
  pub free : lookup entry.node_id leases ≡ none
  pub view : x ≡ selected casefold entry inventory

module _ (casefold : String → String) (q : Requirement) (max_age_hours : ℤ)
    (clock : CatalogEntry → Instant) (leases : Dict Lease) where
  has_gpu-matching :
      (entry : CatalogEntry)
      → has_gpu casefold q entry ≡ ok true
      → (asks_gpu casefold q ≡ false)
        ⊎ ((gpus : List GpuProfile) × (matching_gpus casefold entry q ≡ ok gpus)
            × (is_empty gpus ≡ false))
  unfolding has_gpu
  has_gpu-matching entry h = elim (Bool-cases (asks_gpu casefold q)) [
    | inr plain ↦ inl plain
    | inl asks ↦ elim (Result-cases (matching_gpus casefold entry q)) [
      | inl (gpus, e) ↦ inr (gpus, e, ground (arith, asks, e))
      | inr (x, bad) ↦ absurd (ground (arith, asks, bad))
    ]
  ]

  select_entry-IsEligible :
      (entry : CatalogEntry) (now : Instant) (x : Selected)
      → select_entry casefold q max_age_hours now leases entry ≡ ok (some x)
      → IsEligible casefold q max_age_hours now leases entry x
  unfolding select_entry is_ready
  select_entry-IsEligible entry now x h = elim (Option-cases entry.inventory) [
    | inl none_there ↦ absurd (ground (arith, none_there))
    | inr (i, listed) ↦ elim (Bool-cases (is_ready casefold q max_age_hours now entry i)) [
      | inr unready ↦ absurd (ground (arith, listed, unready))
      | inl ready ↦ elim (Result-cases (has_gpu casefold q entry)) [
        | inr (e, bad) ↦ absurd (ground (arith, listed, ready, bad))
        | inl (gpu, found) ↦ record {
          inventory = i;
          listed = listed;
          approved = ground (arith, ready);
          current = elim (Option-cases entry.receipt_state) [
            | inl gone ↦ absurd (ground (arith, ready, gone))
            | inr (s, there) ↦ ground (arith, ready, there, eq_iff s "CURRENT")
          ];
          fresh = ground (arith, ready);
          memory = ground (arith, ready);
          features = ground (arith, ready);
          gpu = has_gpu-matching entry (ground (arith, listed, ready, found));
          free = ground (arith, listed, ready, found);
          view = ground (arith, listed, ready, found);
        }
      ]
    ]
  ]

  -- an entry that is eligible is chosen
  IsEligible-select_entry :
      (entry : CatalogEntry) (now : Instant) (x : Selected)
      → IsEligible casefold q max_age_hours now leases entry x
      → select_entry casefold q max_age_hours now leases entry ≡ ok (some x)
  unfolding select_entry is_ready has_gpu
  IsEligible-select_entry entry now x p =
      let ready : is_ready casefold q max_age_hours now entry p.inventory ≡ true =
        ground (arith, p.approved, p.current, p.fresh, p.memory, p.features, eq_refl "CURRENT") in
      let gpu : has_gpu casefold q entry ≡ ok true = elim p.gpu [
        | inl plain ↦ ground (arith, plain)
        | inr (gpus, found, some_there) ↦ elim (Bool-cases (asks_gpu casefold q)) [
          | inl asks ↦ ground (arith, asks, found, some_there)
          | inr plain ↦ ground (arith, plain)
        ]
      ] in
      ground (arith, p.listed, ready, gpu, p.free, p.view)

  select_entries_mem :
      (nodes : List CatalogEntry) (xs : List Selected) (x : Selected)
      → select_entries casefold q max_age_hours clock leases nodes ≡ ok xs
      → Memᴰ x xs
      → (entry : CatalogEntry) × Memᴰ entry nodes
        × IsEligible casefold q max_age_hours (clock entry) leases entry x
  unfolding select_entries
  select_entries_mem [] xs x h m =
      absurd (elim (subst (λ l. Memᴰ x l) (sym (ok-injective h)) m) [ ])
  select_entries_mem (entry ∷ nodes) xs x h m =
      elim (Result-cases (select_entry casefold q max_age_hours (clock entry) leases entry)) [
        | inr (e, bad) ↦ absurd (ground (arith, bad))
        | inl (chosen, picked) ↦
            elim (Result-cases (select_entries casefold q max_age_hours clock leases nodes)) [
              | inr (e, bad) ↦ absurd (ground (arith, picked, bad))
              | inl (rest, others) ↦ elim (Option-cases chosen) [
                | inl passed ↦
                    let same : rest ≡ xs = ground (arith, picked, others, passed) in
                    let (found, there, p) =
                      select_entries_mem nodes rest x others (subst (λ l. Memᴰ x l) (sym same) m) in
                    (found, Memᴰ.tail there, p)
                | inr (y, is_y) ↦
                    let same : xs ≡ y ∷ rest = ground (arith, picked, others, is_y) in
                    elim (Memᴰ.cases_cons (subst (λ l. Memᴰ x l) same m)) [
                      | inl e ↦ (
                        entry,
                        Memᴰ.head refl,
                        rw e (select_entry-IsEligible entry (clock entry) y (picked ∙ ap ok is_y)),
                      )
                      | inr deeper ↦
                          let (found, there, p) = select_entries_mem nodes rest x others deeper in
                          (found, Memᴰ.tail there, p)
                    ]
              ]
            ]
      ]

  mem-select_entries :
      (nodes : List CatalogEntry) (xs : List Selected) (x : Selected) (entry : CatalogEntry)
      → select_entries casefold q max_age_hours clock leases nodes ≡ ok xs
      → Memᴰ entry nodes
      → IsEligible casefold q max_age_hours (clock entry) leases entry x
      → Memᴰ x xs
  unfolding select_entries
  mem-select_entries [] xs x entry h m p = elim m [ ]
  mem-select_entries (other ∷ nodes) xs x entry h m p =
      elim (Result-cases (select_entry casefold q max_age_hours (clock other) leases other)) [
        | inr (e, bad) ↦ absurd (ground (arith, bad))
        | inl (chosen, picked) ↦
            elim (Result-cases (select_entries casefold q max_age_hours clock leases nodes)) [
              | inr (e, bad) ↦ absurd (ground (arith, picked, bad))
              | inl (rest, others) ↦ elim (Memᴰ.cases_cons m) [
                | inl e ↦
                    let here : chosen ≡ some x = ok-injective (
                      sym picked
                      ∙ ap (λ k. select_entry casefold q max_age_hours (clock k) leases k) (sym e)
                      ∙ IsEligible-select_entry entry (clock entry) x p) in
                    let same : x ∷ rest ≡ xs = ground (arith, picked, others, here) in
                    subst (λ l. Memᴰ x l) same (Memᴰ.head refl)
                | inr deeper ↦
                    let later = mem-select_entries nodes rest x entry others deeper p in
                    elim (Option-cases chosen) [
                      | inl passed ↦
                          let same : rest ≡ xs = ground (arith, picked, others, passed) in
                          subst (λ l. Memᴰ x l) same later
                      | inr (y, is_y) ↦
                          let same : y ∷ rest ≡ xs = ground (arith, picked, others, is_y) in
                          subst (λ l. Memᴰ x l) same (Memᴰ.tail later)
                    ]
              ]
            ]
      ]

  -- A selection that is made has exactly the eligible entries of the catalog: each of its elements
  -- shows an entry that is approved, of a current receipt, with a fresh inventory, enough memory,
  -- the features required and a GPU that meets the requirement where one is asked for, and without a
  -- lease; and each such entry is among them.
  pub select_nodes-IsEligible :
      (nodes : List CatalogEntry) (xs : List Selected) (x : Selected)
      → select_nodes casefold nodes q max_age_hours clock leases ≡ ok xs
      → Memᴰ x xs ↔ (
          (entry : CatalogEntry) × Memᴰ entry nodes
          × IsEligible casefold q max_age_hours (clock entry) leases entry x)
  unfolding select_nodes
  select_nodes-IsEligible nodes xs x h =
      elim (Result-cases (select_entries casefold q max_age_hours clock leases nodes)) [
        | inr (e, bad) ↦ absurd (ground (arith, bad))
        | inl (chosen, made) ↦
            let same : sort_by_id chosen ≡ xs = ground (arith, made) in
            (
              λ m.
                  select_entries_mem nodes chosen x made
                    (sort_by_id_mem x chosen (subst (λ l. Memᴰ x l) (sym same) m)),
              λ (entry, there, p).
                  subst (λ l. Memᴰ x l) same
                    (mem-sort_by_id x chosen
                      (mem-select_entries nodes chosen x entry made there p)),
            )
      ]
