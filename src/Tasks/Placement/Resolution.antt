-- ===== src/Tasks/Placement/Resolution.antt =====
-- tasks/manager.go: proofs about resolve and resolveAll.
use rogojin.Prelude.{
  ◌≡◌, refl, ap, String, [], ◌∷◌, none, some, ite, Bool, true, false, ◌||◌, if◌then◌else◌, str_dec,
  arith,
}
use rogojin.Prelude.Map.{Map, lookup, insert, lookup-insert}
use rogojin.Workflows.Base.{Placement}
use rogojin.Tasks.Placement.{
  TaskGroup, Stored, CreateConfig, stored_for, assign, without, resolve, resolve_keys, resolve_all,
}

pub is_named : {V : Type 0} → String → Map V → Bool
is_named kind m = elim (lookup kind m) [ none ↦ false | some v ↦ true ]

resolve_keys-lookup :
    {V : Type 0} (settle : String → Placement) (keys : Map V) (acc : Map Placement) (kind : String)
    → lookup kind (resolve_keys settle keys acc)
      ≡ (if is_named kind keys then some (settle kind) else lookup kind acc)
unfolding is_named lookup
resolve_keys-lookup settle [] acc kind = refl
resolve_keys-lookup settle ((k, v) ∷ rest) acc kind = elim (str_dec k kind) [
  | yes same ↦ ground (
    arith,
    resolve_keys-lookup settle rest (insert k (settle k) acc) kind,
    lookup-insert k kind (settle k) acc,
    ap settle same,
  )
  | no ne ↦ ground (
    arith,
    resolve_keys-lookup settle rest (insert k (settle k) acc) kind,
    lookup-insert k kind (settle k) acc,
  )
]

-- resolveAll names the kinds that the task or its group names, each with its resolved placement.
pub resolve_all-lookup :
    (own : Map Stored) (g : TaskGroup) (kind : String)
    → lookup kind (resolve_all own g) ≡ (
        if is_named kind own || is_named kind g.resource_groups
        then some (resolve (stored_for kind own) g kind)
        else none)
unfolding resolve_all lookup
resolve_all-lookup own g kind =
    let settle : String → Placement = λ k. resolve (stored_for k own) g k in
    ground (
      arith,
      resolve_keys-lookup settle own (resolve_keys settle g.resource_groups []) kind,
      resolve_keys-lookup settle g.resource_groups [] kind,
    )

stored_for-assign :
    (kind other : String) (apply : Stored → Stored) (c : CreateConfig)
    → stored_for other (assign kind apply c).assignments
      ≡ ite
          (str_dec kind other)
          (apply (stored_for kind c.assignments))
          (stored_for other c.assignments)
unfolding stored_for assign
stored_for-assign kind other apply c =
    ground (arith, lookup-insert kind other (apply (stored_for kind c.assignments)) c.assignments)

-- After Without, whatever options came before and whatever the task group assigns, the task leases
-- none of the kind and has no pin of it; every other kind resolves as before.
pub resolve-without :
    (kind other : String) (c : CreateConfig) (g : TaskGroup)
    → resolve (stored_for other (without kind c).assignments) g other
      ≡ ite
          (str_dec kind other)
          (record { group_id = ""; resource_id = "" })
          (resolve (stored_for other c.assignments) g other)
unfolding without resolve
resolve-without kind other c g =
    rw (stored_for-assign kind other (λ a. record { group_id = some ""; resource_id = some "" }) c)
      (decided (str_dec kind other))
  where
    decided :
        (d : Dec (kind ≡ other))
        → resolve
            (ite d
              (record { group_id = some ""; resource_id = some "" })
              (stored_for other c.assignments))
            g
            other
          ≡ ite d
              (record { group_id = ""; resource_id = "" })
              (resolve (stored_for other c.assignments) g other)
    decided (yes same) = refl
    decided (no ne) = refl
