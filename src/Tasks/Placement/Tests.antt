-- ===== src/Tasks/Placement/Tests.antt =====
-- Placements of one task.
use rogojin.Prelude.{◌≡◌, [], ◌∷◌, none, some, ite, ◌||◌, if◌then◌else◌, str_dec}
use rogojin.Prelude.Map.{lookup}
use rogojin.Tasks.Placement.{TaskGroup, CreateConfig, stored_for, resolve, resolve_all, without}
use rogojin.Tasks.Placement.Resolution.{is_named, resolve_all-lookup, resolve-without}

abbrev shop : TaskGroup
shop = record {
  id = "shop";
  resource_groups = ("proxies", "eu") ∷ [];
  created_at = 0;
  updated_at = 0;
}

abbrev placed : CreateConfig
placed = record {
  group_id = "shop";
  assignments = ("accounts", record { group_id = some "vip"; resource_id = none }) ∷ [];
}

resolve_all-lookup_example : lookup "proxies" (resolve_all placed.assignments shop) ≡ (
    if is_named "proxies" placed.assignments || is_named "proxies" shop.resource_groups
    then some (resolve (stored_for "proxies" placed.assignments) shop "proxies")
    else none)
resolve_all-lookup_example = resolve_all-lookup placed.assignments shop "proxies"

resolve-without_example :
    resolve (stored_for "proxies" (without "proxies" placed).assignments) shop "proxies"
    ≡ ite
        (str_dec "proxies" "proxies")
        (record { group_id = ""; resource_id = "" })
        (resolve (stored_for "proxies" placed.assignments) shop "proxies")
resolve-without_example = resolve-without "proxies" "proxies" placed shop
