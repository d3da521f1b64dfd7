-- ===== src/Leasing/Tests.antt =====
-- Runs of the leasing package over an in-memory repository.
use rogojin.Prelude.{
  dec_lt, ℕ, ◌≡◌, ◌⊎◌, refl, String, List, [], ◌∷◌, map, none, some, true, false, pos, str_dec,
  arith, get_elem?, ◌%◌, ◌+◌, length,
}
use rogojin.Prelude.Map.{Map, insert, delete, lookup}
use rogojin.Leasing.Types.{Model, Group, Assignment, Env, round_robin, ok}
use rogojin.Leasing.Inventory.{add}
use rogojin.Leasing.State.{pooled, total, Manager, count_of, holders_of, hold, release}
use rogojin.Leasing.Load.{new_manager}
use rogojin.Leasing.Calls.{step, Call, adds, acquires, unlocks, releases, run, loaded_run-IsValid}
use rogojin.Leasing.Invariant.{IsValid}
use rogojin.Leasing.Wakeups.Calls.{Rings, acquire_pass-run_wakes}
use rogojin.Leasing.Outcomes.{IsBlocked, Outcome, acquire_pass-Outcome}
use rogojin.Leasing.Outcomes.Releasing.{Unlocking, unlock-Unlocking, release-hold}
use rogojin.Leasing.Locks.{unlock}
use rogojin.Leasing.Queries.{list}
use rogojin.Leasing.Queries.Listing.{list-ids}
use rogojin.Leasing.Acquire.{is_candidate, acquire, in_group, check_pin, acquire_pass}
use rogojin.Leasing.Strategy.{select_times}
use rogojin.Leasing.Strategy.Rotation.{select_times-get_elem?}

abbrev Rows : Type 0
Rows = Map (Model (Unit {0})) × Map Group

abbrev memory : Env (Unit {0}) (Unit {0}) Rows
memory = record {
  list = λ s. some (map (λ r. r.1) s.0);
  save = λ p s. (none, (insert p.id p s.0, s.1));
  remove_row = λ id s. (none, (delete id s.0, s.1));
  list_groups = λ s. some (map (λ r. r.1) s.1);
  save_group = λ g s. (none, (s.0, insert g.id g s.1));
  remove_group = λ id s. (none, (s.0, delete id s.1));
  choose = λ c ps. (none, c);
  empty = tt;
}

abbrev the_global : Group
the_global = record {
  id = "global";
  strategy = "roundrobin";
  refs = [];
  created_at = 0;
  updated_at = 0;
}

abbrev opened : Manager (Unit {0}) (Unit {0}) Rows
opened = record {
  store = ([], ("global", the_global) ∷ []);
  factories = ("roundrobin", round_robin 0) ∷ [];
  groups = ("global", the_global) ∷ [];
  strategies = ("global", round_robin 0) ∷ [];
  pool = [];
  order = [];
  holders = [];
  bindings = [];
  broadcasts = 0;
}

opens : new_manager memory 0 [] ([], []) ≡ ok opened
unfolding new_manager lookup str_dec insert
opens = refl

abbrev one : Model (Unit {0})
one = record {
  core = record {
    id = "r1";
    group_id = "";
    owner_id = "";
    max_holders = pos 0;
    created_at = 0;
    updated_at = 0;
  };
  own = tt;
}

abbrev by_task : String → Assignment
by_task t = record { task_id = t; group_id = "global"; resource_id = "" }

abbrev used : List (ℕ × Call (Unit {0}))
used =
    (1, adds one)
    ∷ (2, acquires none (by_task "a") true)
    ∷ (3, acquires none (by_task "b") false)
    ∷ (4, releases "r1" "a")
    ∷ (5, unlocks "a")
    ∷ []

loaded_run-IsValid_example : IsValid (run memory used opened)
loaded_run-IsValid_example = loaded_run-IsValid memory 0 [] ([], []) opened used opens

abbrev stocked : Manager (Unit {0}) (Unit {0}) Rows
stocked = run memory ((1, adds one) ∷ []) opened

stocked-IsValid : IsValid stocked
stocked-IsValid = loaded_run-IsValid memory 0 [] ([], []) opened ((1, adds one) ∷ []) opens

acquire_pass-Outcome_example :
    Outcome stocked (by_task "a") true (acquire_pass memory 2 none (by_task "a") true stocked)
acquire_pass-Outcome_example =
    acquire_pass-Outcome memory 2 stocked (by_task "a") none true stocked-IsValid

abbrev two : List String
two = "a" ∷ "b" ∷ []

select_times-get_elem?_example :
    (x : String) × (get_elem? two ((7 + 3) % length two) ≡ some x)
    × (get_elem? (select_times 5 7 two) 3 ≡ some (ok x))
select_times-get_elem?_example =
    select_times-get_elem? "a" ("b" ∷ []) 5 7 3 (omega arith) (omega arith)

list-ids_example : map (λ (p : Model (Unit {0})). p.id) (list stocked) ≡ stocked.order
list-ids_example = list-ids stocked stocked-IsValid

abbrev locking : List (ℕ × Call (Unit {0}))
locking = (1, adds one) ∷ (2, acquires none (by_task "a") true) ∷ []

locking-IsValid : IsValid (run memory locking opened)
locking-IsValid = loaded_run-IsValid memory 0 [] ([], []) opened locking opens

unlock-Unlocking_example :
    Unlocking memory 3 "a"
      (run memory locking opened)
      (unlock memory 3 "a" (run memory locking opened))
unlock-Unlocking_example = unlock-Unlocking memory 3 (run memory locking opened) "a" locking-IsValid

release-hold_example :
    (count_of "a" (
        holders_of "r1"
          (release "r1" "a" (record stocked { holders = hold "r1" "a" stocked.holders })).holders)
      ≡ count_of "a" (holders_of "r1" stocked.holders))
    × ((release "r1" "a" (record stocked { holders = hold "r1" "a" stocked.holders })).broadcasts
        ≡ stocked.broadcasts + 1)
release-hold_example = release-hold stocked "r1" "a" "r1" "a"

-- A second task waits for the resource that the first has locked.
acquire_pass-run_wakes_example :
    Rings memory
      ((4, releases "r1" "a") ∷ [])
      (acquire_pass memory 3 none (by_task "b") true (run memory locking opened)).0
    ⊎ IsBlocked
        (run memory
          ((4, releases "r1" "a") ∷ [])
          (acquire_pass memory 3 none (by_task "b") true (run memory locking opened)).0)
        (by_task "b")
        true
unfolding run in_group check_pin lookup insert str_dec step acquire add pooled is_candidate dec_lt
    total holders_of acquire_pass
acquire_pass-run_wakes_example =
    acquire_pass-run_wakes memory 3 none (by_task "b") true (run memory locking opened)
      ((4, releases "r1" "a") ∷ []) locking-IsValid (λ e. cc e) refl
