-- ===== src/Leasing/Queries.antt =====
-- leasing/manager.go: GetGroup, ListGroups, Get, List, Held, Locked. A loop over a Go map collects in
-- some order and its result is sorted; here it collects in the order of the association list.
pub mod Listing
use rogojin.Prelude.{
  ℕ, String, List, [], ◌∷◌, ◌++◌, map, Option, none, some, ite, Bool, true, false, if◌then◌else◌,
  str_dec, str_le,
}
use rogojin.Prelude.Map.{Map, lookup}
use rogojin.Leasing.Types.{Model, Group, Assignment}
use rogojin.Leasing.State.{Manager, group_of}

-- Insertion sort by a Boolean order, the result of sort.Slice up to the order of equal elements.
abbrev pub insert_by : {A : Type 0} → (A → A → Bool) → A → List A → List A
insert_by le a [] = a ∷ []
insert_by le a (b ∷ bs) = if le a b then a ∷ b ∷ bs else b ∷ insert_by le a bs

abbrev pub sort_by : {A : Type 0} → (A → A → Bool) → List A → List A
sort_by le [] = []
sort_by le (a ∷ rest) = insert_by le a (sort_by le rest)

-- By task, then by resource.
abbrev pub assignment_le : Assignment → Assignment → Bool
assignment_le a b =
    ite (str_dec a.task_id b.task_id) (str_le a.resource_id b.resource_id)
      (str_le a.task_id b.task_id)

unfoldable pub sort_assignments : List Assignment → List Assignment
sort_assignments found = sort_by assignment_le found

abbrev pub pooled_among : {X : Type 0} → Map (Model X) → List String → List (Model X)
pooled_among pool [] = []
pooled_among pool (id ∷ ids) =
    let rest = pooled_among pool ids in elim (lookup id pool) [ none ↦ rest | some p ↦ p ∷ rest ]

module _ {X C S : Type 0} where
  unfoldable pub get_group : Manager X C S → String → Option Group
  get_group m id = lookup id m.groups

  unfoldable pub list_groups : Manager X C S → List Group
  list_groups m = sort_by (λ a b. str_le a.id b.id) (map (λ r. r.1) m.groups)

  unfoldable pub get : Manager X C S → String → Option (Model X)
  get m id = lookup id m.pool

  unfoldable pub list : Manager X C S → List (Model X)
  list m = pooled_among m.pool m.order

  -- The matching assignments of one resource to some tasks.
  abbrev pub matching :
      Manager X C S → (Model X → Group → Bool) → String → List String → List Assignment
  matching m pred id tasks = elim (lookup id m.pool) [
    | none ↦ []
    | some p ↦
        if pred p (group_of p.group_id m.groups)
        then map (λ t. record { task_id = t; group_id = p.group_id; resource_id = p.id }) tasks
        else []
  ]

  abbrev pub held_by : Manager X C S → (Model X → Group → Bool) → Map (Map ℕ) → List Assignment
  held_by m pred [] = []
  held_by m pred ((id, hs) ∷ rest) = matching m pred id (map (λ h. h.0) hs) ++ held_by m pred rest

  unfoldable pub held : Manager X C S → (Model X → Group → Bool) → List Assignment
  unfolding sort_assignments
  held m pred = sort_assignments (held_by m pred m.holders)

  abbrev pub locked_by : Manager X C S → (Model X → Group → Bool) → Map String → List Assignment
  locked_by m pred [] = []
  locked_by m pred ((t, id) ∷ rest) = matching m pred id (t ∷ []) ++ locked_by m pred rest

  unfoldable pub locked : Manager X C S → (Model X → Group → Bool) → List Assignment
  unfolding sort_assignments
  locked m pred = sort_assignments (locked_by m pred m.bindings)
