-- ===== src/Tasks/Placement.antt =====
-- tasks/groups.go, and the placement of a task in tasks/manager.go (resolve, resolveAll, groupOf). A
-- kind is its name; a pointer to a string is an optional string.
pub mod Resolution
mod Tests
use rogojin.Prelude.{ℕ, String, List, [], ◌∷◌, Option, none, some, ite, str_dec}
use rogojin.Prelude.Map.{Map, lookup, insert}
use rogojin.Workflows.Base.{Placement}

abbrev pub implicit_group : String
implicit_group = "global"

pub record TaskGroup : Type 0 where
  pub id : String
  pub resource_groups : Map String
  pub created_at : ℕ
  pub updated_at : ℕ

-- The stored assignment of a task for one kind: a field that is unset inherits.
pub record Stored : Type 0 where
  pub group_id : Option String
  pub resource_id : Option String

pub record CreateConfig : Type 0 where
  pub group_id : String
  pub assignments : Map Stored

abbrev pub unset : Stored
unset = record { group_id = none; resource_id = none }

-- `assignments[kind]`, unset when there is none.
unfoldable pub stored_for : String → Map Stored → Stored
stored_for kind stored = elim (lookup kind stored) [ none ↦ unset | some a ↦ a ]

unfoldable pub assign : String → (Stored → Stored) → CreateConfig → CreateConfig
unfolding stored_for
assign kind apply c = record c {
  assignments = insert kind (apply (stored_for kind c.assignments)) c.assignments;
}

unfoldable pub in_task_group : String → CreateConfig → CreateConfig
in_task_group id c = record c { group_id = id }

unfoldable pub with_resource_group : String → String → CreateConfig → CreateConfig
unfolding assign
with_resource_group kind id c = assign kind (λ a. record a { group_id = some id }) c

unfoldable pub with_pin : String → String → CreateConfig → CreateConfig
unfolding assign
with_pin kind id c = assign kind (λ a. record a { resource_id = some id }) c

unfoldable pub without : String → CreateConfig → CreateConfig
unfolding assign
without kind c = assign kind (λ a. record { group_id = some ""; resource_id = some "" }) c

abbrev pub or_else : Option String → String → String
or_else none s = s
or_else (some t) s = t

-- `group.ResourceGroups[kind]`, empty when there is none.
unfoldable pub resource_group : TaskGroup → String → String
resource_group g kind = or_else (lookup kind g.resource_groups) ""

-- One kind's placement: the task's own where it sets a field, the task group's otherwise.
unfoldable pub resolve : Stored → TaskGroup → String → Placement
unfolding resource_group
resolve own g kind = record {
  group_id = or_else own.group_id (resource_group g kind);
  resource_id = or_else own.resource_id "";
}

-- The loop over the keys of one map.
abbrev pub resolve_keys :
    {V : Type 0} → (String → Placement) → Map V → Map Placement → Map Placement
resolve_keys settle [] acc = acc
resolve_keys settle ((kind, v) ∷ rest) acc =
    resolve_keys settle rest (insert kind (settle kind) acc)

unfoldable pub resolve_all : Map Stored → TaskGroup → Map Placement
unfolding resolve stored_for
resolve_all own g =
    resolve_keys (λ kind. resolve (stored_for kind own) g kind) own
      (resolve_keys (λ kind. resolve (stored_for kind own) g kind) g.resource_groups [])

-- groupOf: a blank task group is the global one.
unfoldable pub group_or_global : String → String
group_or_global id = ite (str_dec id "") implicit_group id
