-- ===== src/Leasing/Outcomes.antt =====
-- leasing/manager.go: what a round of Acquire or Lock does to the live leases, in each of its results.
pub mod Releasing
use rogojin.Prelude.{
  ℕ, ◌≡◌, ◌≢◌, refl, sym, subst, String, List, [], ◌∷◌, Option, none, some, Bool, true, false,
  str_dec, arith, ◌⊎◌, inl, inr, Option-cases, Bool-cases, ◌==◌,
}
use rogojin.Prelude.Map.{Map, lookup, lookup-insert}
use rogojin.Leasing.Types.{Env, Model, Assignment, Selection, Result, ok, err}
use rogojin.Leasing.Strategy.{select}
use rogojin.Leasing.State.{Manager, Lease, pooled, hold, held_count, group_has_resources}
use rogojin.Leasing.Acquire.{
  Pass, failed, leased, waiting, owned_by, is_candidate, candidates, choose_among, select_unlocked,
  rotate, validate_pick, eligible, lease, grant, grant_locked, deliver, unbound_pass, bound_pass,
  resolve_binding, check_pin, acquire_pass, is_pinned_elsewhere,
}
use rogojin.Leasing.Invariant.{IsValid, contains}
use rogojin.Leasing.Invariant.Candidates.{
  IsCandidate, is_candidate-needs, select_unlocked-IsCandidate, choose_among-state,
}

-- The lease that a round hands out.
pub record IsLeased {X C S : Type 0} (m m' : Manager X C S) (a : Assignment) (lock : Bool)
    (l : Lease X) : Type 0 where
  pub by : l.task_id ≡ a.task_id
  pub recorded : lookup l.resource.id m'.pool ≡ some l.resource
  pub counted : m'.holders ≡ hold l.resource.id a.task_id m.holders
  pub locked : (lock ≡ false) ⊎ (l.resource.owner_id ≡ a.task_id)
  pub pinned : (a.resource_id ≡ "") ⊎ (l.resource.id ≡ a.resource_id)

module _ {X C S : Type 0} where
  -- Nothing that the assignment may lease is free.
  abbrev pub IsBlocked : Manager X C S → Assignment → Bool → Type 0
  IsBlocked m a lock =
      ((id : String) × (lookup a.task_id m.bindings ≡ some id) × (held_count m id ≢ 0))
      ⊎ ((id : String) (p : Model X)
          → lookup id m.pool ≡ some p
          → is_candidate a lock p (held_count m id) ≡ false)

  -- A round's effect on the live leases, by its result.
  abbrev pub Outcome : Manager X C S → Assignment → Bool → Manager X C S × Pass X → Type 0
  Outcome m a lock (m', failed e) = m'.holders ≡ m.holders
  Outcome m a lock (m', leased l) = IsLeased m m' a lock l
  Outcome m a lock (m', waiting) = (m'.holders ≡ m.holders) × IsBlocked m a lock

module _ {X C S : Type 0} (env : Env X C S) (m : Manager X C S) (a : Assignment) (lock : Bool) where
  candidates_complete :
      (ids : List String)
      → candidates env m a lock ids ≡ []
      → (id : String) (p : Model X) → contains id ids ≡ true
      → lookup id m.pool ≡ some p
      → is_candidate a lock p (held_count m id) ≡ false
  unfolding candidates contains pooled held_count
  candidates_complete [] none_fit id p listed here = absurd (cc listed)
  candidates_complete (i ∷ is) none_fit id p listed here =
      elim (Bool-cases (is_candidate a lock (pooled env m i) (held_count m i))) [
        | inl fit ↦ absurd (ground arith)
        | inr unfit ↦ elim (str_dec i id) [
          | yes same ↦ ground arith
          | no ne ↦ candidates_complete is (ground arith) id p (ground arith) here
        ]
      ]

  -- The selection comes back empty only if there was no candidate.
  choose_among-none : (cs : List (Model X)) → (choose_among env m a cs).1 ≡ ok none → cs ≡ []
  unfolding rotate
  choose_among-none [] e = refl
  choose_among-none (c ∷ cs) e = elim (str_dec a.resource_id "") [
    | no pinned ↦ absurd (ground arith)
    | yes free ↦ elim (Option-cases (lookup a.group_id m.strategies)) [
      | inl absent ↦ absurd (ground arith)
      | inr (sel, here) ↦
          absurd (validate_pick-some (c ∷ cs) (select env sel (c ∷ cs)).0 (ground arith))
    ]
  ]
    where
      validate_pick-some :
          (ds : List (Model X)) (r : Result (Model X)) → validate_pick env ds r ≢ ok none
      validate_pick-some ds (err x) h = cc
      validate_pick-some ds (ok q) h = elim (Option-cases (lookup q.id (eligible ds []))) [
        | inl absent ↦ ground arith
        | inr (live, here) ↦ ground arith
      ]

module _ {X C S : Type 0} (env : Env X C S) (now : ℕ) (m : Manager X C S) (a : Assignment) where
  grant_locked-Outcome :
      (ss : Map (Selection C)) (p : Model X)
      → (a.resource_id ≡ "") ⊎ (p.id ≡ a.resource_id)
      → Outcome m a true (grant_locked env now (record m { strategies = ss }) p a.task_id)
  unfolding grant_locked grant lease
  grant_locked-Outcome ss p pin =
      elim (Option-cases (env.save (owned_by now a.task_id p) m.store).0) [
        | inr (x, refused) ↦ rw (refused, grant_locked) refl
        | inl saved ↦
            rw (saved, grant_locked)
              (record {
                by = refl;
                recorded =
                    ground (arith, lookup-insert p.id p.id (owned_by now a.task_id p) m.pool);
                counted = refl;
                locked = inr refl;
                pinned = pin;
              })
      ]

  deliver-Outcome :
      (ss : Map (Selection C)) (lock : Bool) (r : Result (Option (Model X)))
      → IsValid m
      → (r ≡ ok none → IsBlocked m a lock)
      → ((p : Model X) → r ≡ ok (some p) → IsCandidate m a lock p)
      → Outcome m a lock (deliver env now a.task_id lock (record m { strategies = ss }, r))
  unfolding grant lease
  deliver-Outcome ss lock (err e) v blocked picked = refl
  deliver-Outcome ss lock (ok none) v blocked picked = (refl, blocked refl)
  deliver-Outcome ss true (ok (some p)) v blocked picked =
      let (id, here, fit) = picked p refl in
      let (grouped, free, room, pin, idle) = is_candidate-needs a true p _ fit in
      grant_locked-Outcome ss p pin
  deliver-Outcome ss false (ok (some p)) v blocked picked =
      let (id, here, fit) = picked p refl in
      let (grouped, free, room, pin, idle) = is_candidate-needs a false p _ fit in
      record {
        by = refl;
        recorded = subst (λ k. lookup k m.pool ≡ some p) (sym (v.pooled id p here).filed) here;
        counted = refl;
        locked = inl refl;
        pinned = pin;
      }

  unbound_pass-Outcome :
      (lock : Bool) → IsValid m → Outcome m a lock (unbound_pass env now a lock m)
  unfolding unbound_pass select_unlocked
  unbound_pass-Outcome lock v = elim (Option-cases (lookup a.group_id m.groups)) [
    | inl missing ↦ rw (missing, unbound_pass) refl
    | inr (g, here) ↦ elim (Bool-cases (group_has_resources env m g.id m.order)) [
      | inr empty ↦ rw (here, empty, unbound_pass) refl
      | inl some_members ↦ rw (here, some_members, unbound_pass) selected
    ]
  ]
    where
      blocked : (select_unlocked env m a lock).1 ≡ ok none → IsBlocked m a lock
      blocked e = inr (λ id p there.
          candidates_complete env m a lock m.order (choose_among-none env m a lock _ e) id p
            (v.listed id p there) there)

      selected : Outcome m a lock (deliver env now a.task_id lock (select_unlocked env m a lock))
      selected =
          let r = select_unlocked env m a lock in
          let (ss, same, keep) =
            choose_among-state env m a lock (candidates env m a lock m.order) in
          subst (λ m'. Outcome m a lock (deliver env now a.task_id lock (m', r.1))) (sym same)
            (deliver-Outcome ss lock r.1 v blocked
              (λ p. select_unlocked-IsCandidate env m a lock p v))

  bound_pass-Outcome :
      (lock : Bool) (id : String) (p : Model X)
      → IsValid m
      → lookup a.task_id m.bindings ≡ some id
      → lookup id m.pool ≡ some p
      → p.owner_id ≡ a.task_id
      → Outcome m a lock (bound_pass env a p id m)
  unfolding bound_pass lease
  bound_pass-Outcome lock id p v bound here own = elim (Bool-cases (is_pinned_elsewhere a id)) [
    | inl elsewhere ↦ rw (elsewhere, bound_pass) refl
    | inr free ↦ elim (Bool-cases (held_count m id == 0)) [
      | inr busy ↦ rw (free, busy, bound_pass) (refl, inl (id, bound, ground arith))
      | inl idle ↦
          rw (free, idle, bound_pass)
            (record {
              by = refl;
              recorded = subst (λ k. lookup k m.pool ≡ some p) (sym filed) here;
              counted = rw filed refl;
              locked = inr own;
              pinned = pin (ground arith);
            })
    ]
  ]
    where
      filed : p.id ≡ id
      filed = (v.pooled id p here).filed

      pin :
          (a.resource_id ≡ "") ⊎ (id ≡ a.resource_id)
          → (a.resource_id ≡ "") ⊎ (p.id ≡ a.resource_id)
      pin = subst (λ k. (a.resource_id ≡ "") ⊎ (k ≡ a.resource_id)) (sym filed)

  resolve_binding-Outcome :
      (lock : Bool) → IsValid m → Outcome m a lock (resolve_binding env a m now lock)
  unfolding resolve_binding
  resolve_binding-Outcome lock v = elim (Option-cases (lookup a.task_id m.bindings)) [
    | inl unbound ↦ rw (unbound, resolve_binding) (unbound_pass-Outcome lock v)
    | inr (id, e) ↦
        let (p, here, own, _) = v.bound a.task_id id e in
        rw (e, here, resolve_binding) (bound_pass-Outcome lock id p v e here own)
  ]

  -- A round of the acquire loop on a valid manager: a lease goes to the calling task, on a record of
  -- the pool that its pin allows and, under Lock, that the task owns, and is counted once; a failure
  -- counts nothing; and the loop waits only when the task's own resource is in use or no pooled
  -- record passes the tests.
  pub acquire_pass-Outcome :
      (done : Option String) (lock : Bool)
      → IsValid m
      → Outcome m a lock (acquire_pass env now done a lock m)
  unfolding acquire_pass
  acquire_pass-Outcome (some e) lock v = refl
  acquire_pass-Outcome none lock v = elim (Option-cases (check_pin m a)) [
    | inr (e, refused) ↦ rw (refused, acquire_pass) refl
    | inl fine ↦ rw (fine, acquire_pass) (resolve_binding-Outcome lock v)
  ]
