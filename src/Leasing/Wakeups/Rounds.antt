-- ===== src/Leasing/Wakeups/Rounds.antt =====
-- leasing/manager.go: proofs about what a round of Acquire or Lock changes for the rounds that
-- wait.
use rogojin.Prelude.{
  ℕ, ◌≤◌, ◌≡◌, ◌≢◌, ◌⊎◌, sym, subst, String, Option, none, some, if_pos, if_neg, Bool, true, false,
  str_dec, arith, inl, inr, Option-cases, Bool-cases, ◌==◌,
}
use rogojin.Prelude.Map.{Map, lookup, insert, lookup-insert}
use rogojin.Leasing.Types.{Model, Assignment, Env, Selection, Result, ok, err}
use rogojin.Leasing.State.{Manager, held_count, hold, total, holders_of, group_has_resources}
use rogojin.Leasing.State.Holds.{total-hold}
use rogojin.Leasing.Acquire.{
  Pass, bind, owned_by, grant, grant_locked, deliver, unbound_pass, bound_pass, resolve_binding,
  acquire_pass, acquire, check_pin, select_unlocked, is_pinned_elsewhere, in_group, candidates,
}
use rogojin.Leasing.Invariant.{IsValid}
use rogojin.Leasing.Invariant.Candidates.{choose_among-state}
use rogojin.Leasing.Wakeups.{Unrelieved, SameLeases-Unrelieved, Alike, Alike-refl}
use rogojin.Leasing.Wakeups.Steps.{same, stored}

module _ {X C S : Type 0} where
  total-hold-le :
      (m : Manager X C S) (id t j : String)
      → total (holders_of j m.holders) ≤ total (holders_of j (hold id t m.holders))
  total-hold-le m id t j = ground (arith, total-hold id t j m.holders)

  hold-Unrelieved :
      (m : Manager X C S) (id t : String)
      → Unrelieved m (record m { holders = hold id t m.holders })
  unfolding held_count
  hold-Unrelieved m id t = record {
    bound = λ u j e. e;
    leases = λ j. total-hold-le m id t j;
    records = λ j q there. inr (q, there, Alike-refl q);
  }

  -- A record locked for a task that had no lock, and leased to it.
  locked-Unrelieved :
      (m : Manager X C S) (s : S) (q : Model X) (t : String)
      → q.owner_id ≢ ""
      → lookup t m.bindings ≡ none
      → Unrelieved m
          (record (bind q t (record m { store = s })) { holders = hold q.id t m.holders })
  unfolding held_count
  locked-Unrelieved m s q t owned fresh = record {
    bound = λ u j e. kept u j e;
    leases = λ j. total-hold-le m q.id t j;
    records = λ j r there. pick j r there;
  }
    where
      kept :
          (u j : String)
          → lookup u m.bindings ≡ some j
          → lookup u (insert t q.id m.bindings) ≡ some j
      kept u j e = ground (arith, lookup-insert t u q.id m.bindings, fresh, e)

      pick :
          (j : String) (r : Model X)
          → lookup j (insert q.id q m.pool) ≡ some r
          → (r.owner_id ≢ "") ⊎ ((p : Model X) × (lookup j m.pool ≡ some p) × Alike p r)
      pick j r there = elim (str_dec q.id j) [
        | yes e ↦ inl (ground (arith, lookup-insert q.id j q m.pool, e, there, owned))
        | no apart ↦
            inr (r, ground (arith, lookup-insert q.id j q m.pool, apart, there), Alike-refl r)
      ]

  Unrelieved-refl : (m : Manager X C S) → Unrelieved m m
  Unrelieved-refl m = SameLeases-Unrelieved m m (same m)

  -- Strategies are not read by a round that waits.
  strategies-Unrelieved :
      (m m' : Manager X C S) (ss : Map (Selection C))
      → Unrelieved (record m { strategies = ss }) m'
      → Unrelieved m m'
  unfolding held_count
  strategies-Unrelieved m m' ss u = record {
    bound = u.bound;
    leases = u.leases;
    records = u.records;
  }

module _ {X C S : Type 0} (env : Env X C S) (now : ℕ) where
  grant_locked-Unrelieved :
      (m : Manager X C S) (p : Model X) (t : String)
      → t ≢ ""
      → lookup t m.bindings ≡ none
      → Unrelieved m (grant_locked env now m p t).0
  unfolding grant_locked grant
  grant_locked-Unrelieved m p t named fresh =
      elim (Option-cases (env.save (owned_by now t p) m.store).0) [
        | inr (e, refused) ↦ rw (refused, grant_locked) (SameLeases-Unrelieved m _ (stored _ m))
        | inl saved ↦
            rw (saved, grant_locked) (locked-Unrelieved m _ (owned_by now t p) t named fresh)
      ]

  deliver-Unrelieved :
      (t : String) (lock : Bool) (m : Manager X C S) (r : Result (Option (Model X)))
      → t ≢ ""
      → lookup t m.bindings ≡ none
      → Unrelieved m (deliver env now t lock (m, r)).0
  unfolding grant
  deliver-Unrelieved t lock m (err e) named fresh = Unrelieved-refl m
  deliver-Unrelieved t lock m (ok none) named fresh = Unrelieved-refl m
  deliver-Unrelieved t true m (ok (some p)) named fresh = grant_locked-Unrelieved m p t named fresh
  deliver-Unrelieved t false m (ok (some p)) named fresh = hold-Unrelieved m p.id t

  unbound_pass-Unrelieved :
      (m : Manager X C S) (a : Assignment) (lock : Bool)
      → a.task_id ≢ ""
      → lookup a.task_id m.bindings ≡ none
      → Unrelieved m (unbound_pass env now a lock m).0
  unfolding unbound_pass select_unlocked
  unbound_pass-Unrelieved m a lock named fresh = elim (Option-cases (lookup a.group_id m.groups)) [
    | inl missing ↦ rw (missing, unbound_pass) (Unrelieved-refl m)
    | inr (g, here) ↦ elim (Bool-cases (group_has_resources env m g.id m.order)) [
      | inr empty ↦ rw (here, empty, unbound_pass) (Unrelieved-refl m)
      | inl members ↦ rw (here, members, unbound_pass) selected
    ]
  ]
    where
      selected : Unrelieved m (deliver env now a.task_id lock (select_unlocked env m a lock)).0
      selected =
          let r = select_unlocked env m a lock in
          let (ss, moved, keep) =
            choose_among-state env m a lock (candidates env m a lock m.order) in
          subst (λ m'. Unrelieved m (deliver env now a.task_id lock (m', r.1)).0) (sym moved)
            (strategies-Unrelieved m _ ss
              (deliver-Unrelieved a.task_id lock (record m { strategies = ss }) r.1 named fresh))

  bound_pass-Unrelieved :
      (m : Manager X C S) (a : Assignment) (p : Model X) (id : String)
      → Unrelieved m (bound_pass env a p id m).0
  unfolding bound_pass
  bound_pass-Unrelieved m a p id = elim (Bool-cases (is_pinned_elsewhere a id)) [
    | inl elsewhere ↦ rw (elsewhere, bound_pass) (Unrelieved-refl m)
    | inr free ↦ elim (Bool-cases (held_count m id == 0)) [
      | inl unheld ↦ rw (free, unheld, bound_pass) (hold-Unrelieved m id a.task_id)
      | inr busy ↦ rw (free, busy, bound_pass) (Unrelieved-refl m)
    ]
  ]

  resolve_binding-Unrelieved :
      (m : Manager X C S) (a : Assignment) (lock : Bool)
      → IsValid m
      → a.task_id ≢ ""
      → Unrelieved m (resolve_binding env a m now lock).0
  unfolding resolve_binding
  resolve_binding-Unrelieved m a lock v named = elim (Option-cases (lookup a.task_id m.bindings)) [
    | inl unbound ↦ rw (unbound, resolve_binding) (unbound_pass-Unrelieved m a lock named unbound)
    | inr (id, e) ↦
        let (p, here, own, _) = v.bound a.task_id id e in
        rw (e, here, resolve_binding) (bound_pass-Unrelieved m a p id)
  ]

  pub acquire_pass-Unrelieved :
      (m : Manager X C S) (done : Option String) (a : Assignment) (lock : Bool)
      → IsValid m
      → a.task_id ≢ ""
      → Unrelieved m (acquire_pass env now done a lock m).0
  unfolding acquire_pass
  acquire_pass-Unrelieved m (some e) a lock v named = Unrelieved-refl m
  acquire_pass-Unrelieved m none a lock v named = elim (Option-cases (check_pin m a)) [
    | inr (e, refused) ↦ rw (refused, acquire_pass) (Unrelieved-refl m)
    | inl fine ↦ rw (fine, acquire_pass) (resolve_binding-Unrelieved m a lock v named)
  ]

  pub acquire-Unrelieved :
      (m : Manager X C S) (done : Option String) (a : Assignment) (lock : Bool)
      → IsValid m
      → Unrelieved m (acquire env now done a lock m).0
  unfolding acquire in_group
  acquire-Unrelieved m done a lock v = elim (str_dec a.task_id "") [
    | yes anonymous ↦
        subst {A = Manager X C S × Pass X} (λ r. Unrelieved m r.0)
          (sym (if_pos (str_dec a.task_id "") anonymous _ _)) (Unrelieved-refl m)
    | no named ↦
        subst {A = Manager X C S × Pass X} (λ r. Unrelieved m r.0)
          (sym (if_neg (str_dec a.task_id "") named _ _))
          (acquire_pass-Unrelieved m done (in_group a) lock v named)
  ]
