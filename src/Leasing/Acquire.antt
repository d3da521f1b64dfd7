-- ===== src/Leasing/Acquire.antt =====
-- leasing/manager.go: checkPin, CheckAssignment, selectUnlocked and the loop behind Acquire and
-- Lock. `acquire_pass` is one round of the loop, from the time the mutex is taken (or cond.Wait
-- returns) until a result or the next cond.Wait; other calls come between two rounds.
use rogojin.Prelude.{
  ℕ, String, List, [], ◌∷◌, Option, none, some, ite, Bool, true, false, not, ◌&&◌, if◌then◌else◌,
  str_dec, dec_lt, ◌==◌,
}
use rogojin.Prelude.Map.{Map, lookup, insert, delete}
use rogojin.Leasing.Types.{
  Model, Assignment, Env, Selection, Result, ok, err, Error, global_group, resource_not_found,
  resource_not_in_group, resource_locked, group_not_found, no_resources, pin_conflict,
  not_a_candidate, store_failed, cancelled, task_id_required, go_panic,
}
use rogojin.Leasing.Strategy.{select}
use rogojin.Leasing.State.{
  Manager, Lease, effective_cap, has_room, hold, held_count, group_of, pooled, group_has_resources,
}

-- An assignment that names no group means the global one.
unfoldable pub in_group : Assignment → Assignment
in_group a = record a { group_id = ite (str_dec a.group_id "") global_group a.group_id }

abbrev pub pin_error : {X : Type 0} → Assignment → Model X → Option Error
pin_error a p =
    ite (str_dec p.group_id a.group_id)
      (ite (str_dec p.owner_id "") none
        (ite (str_dec p.owner_id a.task_id) none (some resource_locked)))
      (some resource_not_in_group)

-- `a.ResourceID != "" && id != a.ResourceID`
abbrev pub is_pinned_elsewhere : Assignment → String → Bool
is_pinned_elsewhere a id =
    ite (str_dec a.resource_id "") false (ite (str_dec id a.resource_id) false true)

-- `requireIdle && held > 0`
abbrev pub too_busy : Bool → ℕ → Bool
too_busy false held = false
too_busy true held = ite (dec_lt 0 held) true false

-- The tests of the loop of selectUnlocked on one pooled record with so many live leases.
unfoldable pub is_candidate : {X : Type 0} → Assignment → Bool → Model X → ℕ → Bool
unfolding effective_cap has_room
is_candidate a require_idle p held =
    ite (str_dec p.group_id a.group_id)
      (ite (str_dec p.owner_id "")
        (not (is_pinned_elsewhere a p.id)
          && not (too_busy require_idle held)
          && has_room (effective_cap p.core) held)
        false)
      false

module _ {X C S : Type 0} where
  unfoldable pub check_pin : Manager X C S → Assignment → Option Error
  check_pin m a = ite (str_dec a.resource_id "") none (elim (lookup a.resource_id m.pool) [
    | none ↦ some resource_not_found
    | some p ↦ pin_error a p
  ])

  unfoldable pub check_assignment : Manager X C S → Assignment → Option Error
  unfolding check_pin in_group
  check_assignment m a = elim (lookup (in_group a).group_id m.groups) [
    | none ↦ some group_not_found
    | some _ ↦ check_pin m (in_group a)
  ]

-- The candidates by id, as the loop collects them; a later one replaces an earlier of its id.
unfoldable pub eligible : {X : Type 0} → List (Model X) → Map (Model X) → Map (Model X)
eligible [] acc = acc
eligible (p ∷ ps) acc = eligible ps (insert p.id p acc)

-- How one round of the acquire loop ends.
pub data Pass (X : Type 0) : Type 0 where
  failed : Error → Pass X
  leased : Lease X → Pass X
  waiting : Pass X

abbrev pub owned_by : {X : Type 0} → ℕ → String → Model X → Model X
owned_by now t p = record p { core = record (p.core) { owner_id = t; updated_at = now } }

module _ {X C S : Type 0} where
  abbrev pub bind : Model X → String → Manager X C S → Manager X C S
  bind p t m = record m { pool = insert p.id p m.pool; bindings = insert t p.id m.bindings }

module _ {X C S : Type 0} (env : Env X C S) where
  unfoldable pub candidates : Manager X C S → Assignment → Bool → List String → List (Model X)
  candidates m a require_idle [] = []
  candidates m a require_idle (id ∷ ids) =
      let p = pooled env m id in
      let rest = candidates m a require_idle ids in
      if is_candidate a require_idle p (held_count m id) then p ∷ rest else rest

  abbrev pub store_strategy : String → Selection C → Manager X C S → Manager X C S
  store_strategy g sel m = record m { strategies = insert g sel m.strategies }

  -- The pick is looked up among the candidates, not trusted.
  abbrev pub validate_pick : List (Model X) → Result (Model X) → Result (Option (Model X))
  validate_pick cs (err e) = err e
  validate_pick cs (ok q) = elim (lookup q.id (eligible cs [])) [
    | none ↦ err not_a_candidate
    | some live ↦ ok (some live)
  ]

  -- The group's strategy chooses; a group without an instance is a nil call.
  unfoldable pub rotate :
      Manager X C S → Assignment → List (Model X) → Manager X C S × Result (Option (Model X))
  unfolding select eligible
  rotate m a cs = elim (lookup a.group_id m.strategies) [
    | none ↦ (m, err go_panic)
    | some sel ↦
        let (picked, sel') = select env sel cs in
        (store_strategy a.group_id sel' m, validate_pick cs picked)
  ]

  abbrev pub choose_among :
      Manager X C S → Assignment → List (Model X) → Manager X C S × Result (Option (Model X))
  choose_among m a [] = (m, ok none)
  choose_among m a (p ∷ ps) = ite (str_dec a.resource_id "") (rotate m a (p ∷ ps)) (m, ok (some p))

  unfoldable pub select_unlocked :
      Manager X C S → Assignment → Bool → Manager X C S × Result (Option (Model X))
  unfolding candidates rotate
  select_unlocked m a require_idle = choose_among m a (candidates m a require_idle m.order)

  unfoldable pub lease : Manager X C S → Model X → String → Lease X
  unfolding group_of
  lease m p t = record { resource = p; group = group_of p.group_id m.groups; task_id = t }

  -- `m.hold(id, taskID); return m.lease(p, taskID), nil`
  unfoldable pub grant : Manager X C S → Model X → String → Manager X C S × Pass X
  unfolding lease hold
  grant m p t = (record m { holders = hold p.id t m.holders }, leased (lease m p t))

  -- Lock makes the binding durable before it leases.
  unfoldable pub grant_locked : ℕ → Manager X C S → Model X → String → Manager X C S × Pass X
  unfolding grant
  grant_locked now m p t =
      let q = owned_by now t p in
      let (failure, s) = env.save q m.store in
      elim failure [
        | some e ↦ (record m { store = s }, failed (store_failed e))
        | none ↦ grant (bind q t (record m { store = s })) q t
      ]

  abbrev pub deliver :
      ℕ → String → Bool → Manager X C S × Result (Option (Model X)) → Manager X C S × Pass X
  deliver now t lock (m, err e) = (m, failed e)
  deliver now t lock (m, ok none) = (m, waiting)
  deliver now t lock (m, ok (some p)) = if lock then grant_locked now m p t else grant m p t

  unfoldable pub unbound_pass : ℕ → Assignment → Bool → Manager X C S → Manager X C S × Pass X
  unfolding group_has_resources select_unlocked grant grant_locked
  unbound_pass now a lock m = elim (lookup a.group_id m.groups) [
    | none ↦ (m, failed group_not_found)
    | some g ↦
        if group_has_resources env m g.id m.order
        then deliver now a.task_id lock (select_unlocked m a lock)
        else (m, failed no_resources)
  ]

  -- A bound task leases its own resource only, one lease at a time.
  unfoldable pub bound_pass : Assignment → Model X → String → Manager X C S → Manager X C S × Pass X
  unfolding held_count grant
  bound_pass a p id m =
      if is_pinned_elsewhere a id
      then (m, failed pin_conflict)
      else if held_count m id == 0
      then (record m { holders = hold id a.task_id m.holders }, leased (lease m p a.task_id))
      else (m, waiting)

  -- A binding whose resource is gone is dropped, and the task rotates.
  unfoldable pub resolve_binding : Assignment → Manager X C S → ℕ → Bool → Manager X C S × Pass X
  unfolding bound_pass unbound_pass
  resolve_binding a m now lock = elim (lookup a.task_id m.bindings) [
    | none ↦ unbound_pass now a lock m
    | some id ↦ elim (lookup id m.pool) [
      | some p ↦ bound_pass a p id m
      | none ↦ unbound_pass now a lock (record m { bindings = delete a.task_id m.bindings })
    ]
  ]

  -- `done` is what ctx.Err returns at the start of the round.
  unfoldable pub acquire_pass :
      ℕ → Option String → Assignment → Bool → Manager X C S → Manager X C S × Pass X
  unfolding check_pin resolve_binding
  acquire_pass now done a lock m = elim done [
    | some e ↦ (m, failed (cancelled e))
    | none ↦ elim (check_pin m a) [ some e ↦ (m, failed e) | none ↦ resolve_binding a m now lock ]
  ]

  -- The first round of Acquire (`lock` false) or Lock (`lock` true), with the assignment settled.
  unfoldable pub acquire :
      ℕ → Option String → Assignment → Bool → Manager X C S → Manager X C S × Pass X
  unfolding acquire_pass in_group
  acquire now done a lock m =
      ite (str_dec a.task_id "") (m, failed task_id_required)
        (acquire_pass now done (in_group a) lock m)
