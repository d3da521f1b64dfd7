-- ===== src/Leasing/Invariant/LeaseCalls.antt =====
-- leasing/manager.go: the invariant under Acquire, Lock, Unlock and ReleaseStaleLock.
use rogojin.Prelude.{
  ℕ, ◌≡◌, ◌≢◌, refl, sym, subst, String, Option, none, some, if_pos, if_neg, Bool, true, false,
  str_dec, arith, inl, inr, Option-cases, Bool-cases, ◌==◌,
}
use rogojin.Prelude.Map.{lookup, lookup-insert}
use rogojin.Leasing.Types.{Env, Model, Assignment, Result, ok, err}
use rogojin.Leasing.State.{Manager, group_has_resources, total, holders_of, hold, held_count}
use rogojin.Leasing.Locks.{unowned, unlock_bound, unlock, release_stale_lock, fits}
use rogojin.Leasing.Acquire.{
  Pass, bind, owned_by, grant, grant_locked, deliver, unbound_pass, bound_pass, resolve_binding,
  acquire_pass, acquire, check_pin, select_unlocked, is_pinned_elsewhere, in_group, candidates,
}
use rogojin.Leasing.Invariant.Candidates.{
  IsCandidate, is_candidate-needs, select_unlocked-IsCandidate, choose_among-state,
}
use rogojin.Leasing.Invariant.{IsValid}
use rogojin.Leasing.Invariant.Rows.{store-IsValid, broadcast-IsValid}
use rogojin.Leasing.Invariant.Bindings.{bind-IsValid, unbind-IsValid}
use rogojin.Leasing.Invariant.Leases.{hold-IsValid}

module _ {X C S : Type 0} (env : Env X C S) (now : ℕ) (m : Manager X C S) (v : IsValid m) where
  unlock_bound-IsValid :
      (t id : String) → lookup t m.bindings ≡ some id → IsValid (unlock_bound env now t id m).0
  unfolding unlock_bound
  unlock_bound-IsValid t id e =
      let (p, here, own, named) = v.bound t id e in
      elim (Option-cases (env.save (unowned now p) m.store).0) [
        | inl saved ↦
            rw (here, saved, unlock_bound)
              (broadcast-IsValid _ (unbind-IsValid _ (store-IsValid m v _) id p here now t e))
        | inr (x, refused) ↦ rw (here, refused, unlock_bound) (store-IsValid m v _)
      ]

  pub unlock-IsValid : (t : String) → IsValid (unlock env now t m).0
  unfolding unlock
  unlock-IsValid t = elim (Option-cases (lookup t m.bindings)) [
    | inl unbound ↦ rw (unbound, unlock) v
    | inr (id, e) ↦ rw (e, unlock) (unlock_bound-IsValid t id e)
  ]

  pub release_stale_lock-IsValid : (a : Assignment) → IsValid (release_stale_lock env now a m).0
  unfolding release_stale_lock
  release_stale_lock-IsValid a = elim (Option-cases (lookup a.task_id m.bindings)) [
    | inl unbound ↦ rw (unbound, release_stale_lock) v
    | inr (id, e) ↦
        let (p, here, own, named) = v.bound a.task_id id e in
        elim (Bool-cases (fits a p.core)) [
          | inl kept ↦ rw (e, here, kept, release_stale_lock) v
          | inr stale ↦
              rw (e, here, stale, release_stale_lock) (unlock_bound-IsValid a.task_id id e)
        ]
  ]

module _ {X C S : Type 0} (env : Env X C S) (now : ℕ) where
  grant_locked-IsValid :
      (m : Manager X C S) (id : String) (p : Model X) (t : String)
      → IsValid m
      → lookup id m.pool ≡ some p
      → t ≢ ""
      → lookup t m.bindings ≡ none
      → p.owner_id ≡ ""
      → total (holders_of id m.holders) ≡ 0
      → IsValid (grant_locked env now m p t).0
  unfolding grant_locked
  grant_locked-IsValid m id p t v here named fresh free idle =
      elim (Option-cases (env.save (owned_by now t p) m.store).0) [
        | inr (x, refused) ↦ rw (refused, grant_locked) (store-IsValid m v _)
        | inl saved ↦
            rw (saved, grant_locked)
              (hold-IsValid bound bound_valid p.id t (owned_by now t p)
                (ground (arith, lookup-insert p.id p.id (owned_by now t p) m.pool))
                (inr (refl, rw (v.pooled id p here).filed idle)))
      ]
    where
      bound : Manager X C S
      bound =
          bind (owned_by now t p) t (record m { store = (env.save (owned_by now t p) m.store).1 })

      bound_valid : IsValid bound
      bound_valid = bind-IsValid _ (store-IsValid m v _) id p here now t named fresh free idle

  deliver-IsValid :
      (t : String) (lock : Bool) (m : Manager X C S) (a : Assignment)
      (r : Result (Option (Model X)))
      → IsValid m
      → t ≢ ""
      → lookup t m.bindings ≡ none
      → ((p : Model X) → r ≡ ok (some p) → IsCandidate m a lock p)
      → IsValid (deliver env now t lock (m, r)).0
  unfolding held_count grant
  deliver-IsValid t lock m a (err e) v named fresh picked = v
  deliver-IsValid t lock m a (ok none) v named fresh picked = v
  deliver-IsValid t true m a (ok (some p)) v named fresh picked =
      let (id, here, fit) = picked p refl in
      let (grouped, free, room, pinned, idle) = is_candidate-needs a true p _ fit in
      grant_locked-IsValid m id p t v here named fresh free
        (elim idle [ inl never ↦ absurd (cc never) | inr none_held ↦ none_held ])
  deliver-IsValid t false m a (ok (some p)) v named fresh picked =
      let (id, here, fit) = picked p refl in
      let (grouped, free, room, pinned, idle) = is_candidate-needs a false p _ fit in
      subst (λ k. IsValid (record m { holders = hold k t m.holders }))
        (sym (v.pooled id p here).filed) (hold-IsValid m v id t p here (inl (free, room)))

  unbound_pass-IsValid :
      (m : Manager X C S) (a : Assignment) (lock : Bool)
      → IsValid m
      → a.task_id ≢ ""
      → lookup a.task_id m.bindings ≡ none
      → IsValid (unbound_pass env now a lock m).0
  unfolding unbound_pass held_count
  unbound_pass-IsValid m a lock v named fresh = elim (Option-cases (lookup a.group_id m.groups)) [
    | inl missing ↦ rw (missing, unbound_pass) v
    | inr (g, here) ↦ elim (Bool-cases (group_has_resources env m g.id m.order)) [
      | inr empty ↦ rw (here, empty, unbound_pass) v
      | inl some_members ↦ rw (here, some_members, unbound_pass) selected
    ]
  ]
    where
      selected : IsValid (deliver env now a.task_id lock (select_unlocked env m a lock)).0
      selected =
          let r = select_unlocked env m a lock in
          let (ss, same, keep) =
            choose_among-state env m a lock (candidates env m a lock m.order) in
          subst (λ m'. IsValid (deliver env now a.task_id lock (m', r.1)).0) (sym same)
            (deliver-IsValid a.task_id lock (record m { strategies = ss }) a r.1 (keep v) named
              fresh (λ p. select_unlocked-IsCandidate env m a lock p v))

  bound_pass-IsValid :
      (m : Manager X C S) (a : Assignment) (p : Model X) (id : String)
      → IsValid m
      → lookup id m.pool ≡ some p
      → p.owner_id ≡ a.task_id
      → IsValid (bound_pass env a p id m).0
  unfolding bound_pass held_count
  bound_pass-IsValid m a p id v here own = elim (Bool-cases (is_pinned_elsewhere a id)) [
    | inl elsewhere ↦ rw (elsewhere, bound_pass) v
    | inr free ↦ elim (Bool-cases (held_count m id == 0)) [
      | inl idle ↦
          rw (free, idle, bound_pass)
            (hold-IsValid m v id a.task_id p here (inr (own, ground arith)))
      | inr busy ↦ rw (free, busy, bound_pass) v
    ]
  ]

  resolve_binding-IsValid :
      (m : Manager X C S) (a : Assignment) (lock : Bool)
      → IsValid m
      → a.task_id ≢ ""
      → IsValid (resolve_binding env a m now lock).0
  unfolding resolve_binding
  resolve_binding-IsValid m a lock v named = elim (Option-cases (lookup a.task_id m.bindings)) [
    | inl unbound ↦ rw (unbound, resolve_binding) (unbound_pass-IsValid m a lock v named unbound)
    | inr (id, e) ↦
        let (p, here, own, _) = v.bound a.task_id id e in
        rw (e, here, resolve_binding) (bound_pass-IsValid m a p id v here own)
  ]

  -- One round of the acquire loop, in either mode.
  pub acquire_pass-IsValid :
      (m : Manager X C S) (done : Option String) (a : Assignment) (lock : Bool)
      → IsValid m
      → a.task_id ≢ ""
      → IsValid (acquire_pass env now done a lock m).0
  unfolding acquire_pass
  acquire_pass-IsValid m (some e) a lock v named = v
  acquire_pass-IsValid m none a lock v named = elim (Option-cases (check_pin m a)) [
    | inr (e, refused) ↦ rw (refused, acquire_pass) v
    | inl fine ↦ rw (fine, acquire_pass) (resolve_binding-IsValid m a lock v named)
  ]

  pub acquire-IsValid :
      (m : Manager X C S) (done : Option String) (a : Assignment) (lock : Bool)
      → IsValid m
      → IsValid (acquire env now done a lock m).0
  unfolding acquire in_group
  acquire-IsValid m done a lock v = elim (str_dec a.task_id "") [
    | yes anonymous ↦
        subst {A = Manager X C S × Pass X} (λ r. IsValid r.0)
          (sym (if_pos (str_dec a.task_id "") anonymous _ _)) v
    | no named ↦
        subst {A = Manager X C S × Pass X} (λ r. IsValid r.0)
          (sym (if_neg (str_dec a.task_id "") named _ _))
          (acquire_pass-IsValid m done (in_group a) lock v named)
  ]
