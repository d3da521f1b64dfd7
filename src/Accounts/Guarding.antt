-- ===== src/Accounts/Guarding.antt =====
-- accounts/manager.go with email/manager.go: proofs about what the guard reports and what Delete
-- of an inbox makes of it.
use rogojin.Prelude.{
  ℕ, ◌≡◌, ◌≢◌, refl, sym, subst, ◌∙◌, String, List, [], ◌∷◌, ◌++◌, map, some, if_neg, Bool, true,
  ◌||◌, str_dec, is_one_of, is_one_of-dedup, arith,
}
use rogojin.Prelude.Map.{Map, lookup}
use rogojin.Leasing.Types.{Model, Group, Assignment}
use rogojin.Leasing.State.{Manager, group_of}
use rogojin.Leasing.Queries.{
  insert_by, sort_by, matching, held_by, locked_by, held, locked, sort_assignments, assignment_le,
}
use rogojin.Accounts.{Own, Account, forwarding_email, forwards_to, task_ids_of, delete_guard}

-- Some assignment is the task's.
abbrev names : String → List Assignment → Bool
names t found = is_one_of t (map (λ (a : Assignment). a.task_id) found)

names-insert_by :
    (t : String) (le : Assignment → Assignment → Bool) (a : Assignment) (found : List Assignment)
    → names t (insert_by le a found) ≡ names t (a ∷ found)
unfolding is_one_of
names-insert_by t le a [] = refl
names-insert_by t le a (b ∷ found) = ground (arith, names-insert_by t le a found)

names-sort_by :
    (t : String) (le : Assignment → Assignment → Bool) (found : List Assignment)
    → names t (sort_by le found) ≡ names t found
unfolding is_one_of
names-sort_by t le [] = refl
names-sort_by t le (a ∷ found) =
    ground (arith, names-insert_by t le a (sort_by le found), names-sort_by t le found)

names-append :
    (t : String) (found bs : List Assignment)
    → names t (found ++ bs) ≡ (names t found || names t bs)
unfolding is_one_of
names-append t [] bs = refl
names-append t (a ∷ found) bs = ground (arith, names-append t found bs)

is_one_of-keys :
    {V : Type 0} (t : String) (v : V) (hs : Map V)
    → lookup t hs ≡ some v
    → is_one_of t (map (λ h. h.0) hs) ≡ true
unfolding lookup is_one_of
is_one_of-keys t v [] e = absurd (cc e)
is_one_of-keys t v ((u, w) ∷ hs) e = ground (arith, e, is_one_of-keys t v hs)

-- The task's name among the assignments.
names-of :
    (t g id : String) (tasks : List String)
    → names t (map (λ u. record { task_id = u; group_id = g; resource_id = id }) tasks)
      ≡ is_one_of t tasks
unfolding is_one_of
names-of t g id [] = refl
names-of t g id (u ∷ tasks) = ground (arith, names-of t g id tasks)

module _ {X C S : Type 0} (m : Manager X C S) (pred : Model X → Group → Bool) (t id : String)
    (p : Model X) (here : lookup id m.pool ≡ some p)
    (wanted : pred p (group_of p.group_id m.groups) ≡ true) where
  names-matching :
      (tasks : List String) → is_one_of t tasks ≡ true → names t (matching m pred id tasks) ≡ true
  names-matching tasks there =
      rw (here, wanted, matching) (names-of t p.group_id p.id tasks ∙ there)

  names-held_by :
      (hs : Map ℕ) (n : ℕ) (all : Map (Map ℕ))
      → lookup id all ≡ some hs
      → lookup t hs ≡ some n
      → names t (held_by m pred all) ≡ true
  unfolding lookup
  names-held_by hs n [] e leased = absurd (cc e)
  names-held_by hs n ((j, ks) ∷ all) e leased =
      rw (names-append t (matching m pred j (map (λ h. h.0) ks)) (held_by m pred all))
        (elim (str_dec j id) [
          | yes same ↦ ground (
            arith,
            same,
            e,
            leased,
            is_one_of-keys t n hs,
            names-matching (map (λ (h : String × ℕ). h.0) hs),
          )
          | no other ↦ ground (arith, names-held_by hs n all (ground (arith, e, other)) leased)
        ])

  names-locked_by :
      (all : Map String) → lookup t all ≡ some id → names t (locked_by m pred all) ≡ true
  unfolding lookup is_one_of
  names-locked_by [] e = absurd (cc e)
  names-locked_by ((u, j) ∷ all) e =
      rw (names-append t (matching m pred j (u ∷ [])) (locked_by m pred all)) (elim (str_dec u t) [
        | yes same ↦ ground (arith, same, e, names-matching (u ∷ []) (ground (arith, same)))
        | no other ↦ ground (arith, names-locked_by all (ground (arith, e, other)))
      ])

module _ {C S : Type 0} (m : Manager Own C S) (e t id : String) (p : Account) (named : e ≢ "")
    (here : lookup id m.pool ≡ some p)
    (forwards : forwarding_email p (group_of p.group_id m.groups) ≡ e) where
  wanted : forwards_to e p (group_of p.group_id m.groups) ≡ true
  unfolding forwards_to
  wanted = ground (arith, forwards)

  -- The guard reports every task with a live lease on an account that forwards to the inbox.
  pub delete_guard-held :
      (hs : Map ℕ) (n : ℕ)
      → lookup id m.holders ≡ some hs
      → lookup t hs ≡ some n
      → is_one_of t (delete_guard m e).0 ≡ true
  unfolding delete_guard task_ids_of held sort_assignments is_one_of
  delete_guard-held hs n leased by =
      subst (λ (r : List String × List String). is_one_of t r.0 ≡ true)
        (sym (if_neg (str_dec e "") named _ _))
        (is_one_of-dedup t [] _ refl (
          names-sort_by t assignment_le (held_by m (forwards_to e) m.holders)
          ∙ names-held_by m (forwards_to e) t id p here wanted hs n m.holders leased by))

  -- The guard reports every task with a durable lock on an account that forwards to the inbox.
  pub delete_guard-locked : lookup t m.bindings ≡ some id → is_one_of t (delete_guard m e).1 ≡ true
  unfolding delete_guard task_ids_of locked sort_assignments is_one_of
  delete_guard-locked bound =
      subst (λ (r : List String × List String). is_one_of t r.1 ≡ true)
        (sym (if_neg (str_dec e "") named _ _))
        (is_one_of-dedup t [] _ refl (
          names-sort_by t assignment_le (locked_by m (forwards_to e) m.bindings)
          ∙ names-locked_by m (forwards_to e) t id p here wanted m.bindings bound))
