-- ===== src/Leasing/Invariant/Records.antt =====
-- A record that enters the pool, and one that leaves it with its leases and its owner's binding.
use rogojin.Prelude.{
  zero, suc, ◌≡◌, ◌≢◌, refl, String, List, [], ◌∷◌, ◌++◌, none, some, ite, if_pos, if_neg, true,
  false, str_dec, arith, ℤ, pos, negsuc,
}
use rogojin.Prelude.Map.{Map, lookup, insert, delete, lookup-insert, lookup-delete}
use rogojin.Leasing.Types.{ok, Model}
use rogojin.Leasing.State.{Manager, effective_cap, cap_of, total, count_of, validate_holder_policy}
use rogojin.Leasing.State.Holds.{holders_of-none, holders_of-delete}
use rogojin.Leasing.Inventory.{install_resource, drop_resource, drop_owner, erase_first}
use rogojin.Leasing.Invariant.{IsWithin, IsLeasable, IsValid, Defined, contains, Distinct}

pub contains-append :
    (j id : String) (is : List String)
    → contains j (is ++ id ∷ []) ≡ ite (str_dec id j) true (contains j is)
unfolding contains
contains-append j id [] = ground arith
contains-append j id (i ∷ is) = ground (arith, contains-append j id is)

Distinct-append :
    (id : String) (is : List String)
    → contains id is ≡ false
    → Distinct is
    → Distinct (is ++ id ∷ [])
unfolding contains
Distinct-append id [] e d = (refl, tt)
Distinct-append id (i ∷ is) e d =
    (ground (arith, contains-append i id is), Distinct-append id is (ground arith) d.1)

contains-erase_ne :
    (id j : String) (is : List String) → id ≢ j → contains j (erase_first id is) ≡ contains j is
unfolding contains
contains-erase_ne id j [] ne = refl
contains-erase_ne id j (i ∷ is) ne = ground (arith, contains-erase_ne id j is)

contains-erase_self :
    (id : String) (is : List String) → Distinct is → contains id (erase_first id is) ≡ false
unfolding contains
contains-erase_self id [] d = refl
contains-erase_self id (i ∷ is) d = ground (arith, contains-erase_self id is d.1)

contains-erase_false :
    (id j : String) (is : List String)
    → contains j is ≡ false
    → contains j (erase_first id is) ≡ false
unfolding contains
contains-erase_false id j [] e = refl
contains-erase_false id j (i ∷ is) e = ground (arith, contains-erase_false id j is)

Distinct-erase : (id : String) (is : List String) → Distinct is → Distinct (erase_first id is)
Distinct-erase id [] d = tt
Distinct-erase id (i ∷ is) d = elim (str_dec i id) [
  | yes same ↦ ground arith
  | no ne ↦ ground (arith, contains-erase_false id i is d.0, Distinct-erase id is d.1)
]

cap_of-IsWithin_zero : (n : ℤ) → validate_holder_policy n ≡ ok tt → IsWithin (cap_of n) 0
unfolding validate_holder_policy
cap_of-IsWithin_zero (pos zero) h = omega arith
cap_of-IsWithin_zero (pos (suc n)) h = omega arith
cap_of-IsWithin_zero (negsuc zero) h = tt
cap_of-IsWithin_zero (negsuc (suc k)) h = cc

pub nobody_leases :
    {X : Type 0} (p : Model X) → validate_holder_policy p.max_holders ≡ ok tt → IsLeasable p []
unfolding effective_cap total count_of lookup
nobody_leases p policy = record {
  capacity = cap_of-IsWithin_zero p.max_holders policy;
  exclusive = λ _. omega arith;
  owners = λ _ u _. refl;
}

module _ {X C S : Type 0} (m : Manager X C S) (v : IsValid m) where
  -- A new unlocked record under an id that the pool does not have.
  pub install-IsValid :
      (p : Model X)
      → lookup p.id m.pool ≡ none
      → Defined p.group_id m.groups
      → p.owner_id ≡ ""
      → validate_holder_policy p.max_holders ≡ ok tt
      → IsValid (install_resource p m)
  install-IsValid p fresh grouped free policy = record {
    global = v.global;
    named = v.named;
    running = v.running;
    pooled = λ j q e. elim (str_dec p.id j) [
      | yes same ↦ rw (← at_id j q e same) (record {
        filed = same;
        grouped = grouped;
        policy = policy;
        owned = λ locked. absurd (locked free);
      })
      | no ne ↦ v.pooled j q (away j q e ne)
    ];
    bound = λ t j e.
        let (q, there, own, named) = v.bound t j e in
        (q, ground (arith, lookup-insert p.id j p m.pool), own, named);
    listed = λ j q e.
        ground (arith, contains-append j p.id m.order, lookup-insert p.id j p m.pool, v.listed j q);
    unlisted = λ j e.
        ground (arith, contains-append j p.id m.order, lookup-insert p.id j p m.pool, v.unlisted j);
    distinct = Distinct-append p.id m.order (v.unlisted p.id fresh) v.distinct;
    leasable = λ j q e. elim (str_dec p.id j) [
      | yes same ↦
          rw (← same, ← at_id j q e same, holders_of-none p.id m.holders (v.unheld p.id fresh))
            (nobody_leases p policy)
      | no ne ↦ v.leasable j q (away j q e ne)
    ];
    unheld = λ j e. v.unheld j (ground (arith, lookup-insert p.id j p m.pool));
  }
    where
      at_id :
          (j : String) (r : Model X) → lookup j (insert p.id p m.pool) ≡ some r → p.id ≡ j → p ≡ r
      at_id j r e same = ground (arith, lookup-insert p.id j p m.pool)

      away :
          (j : String) (r : Model X)
          → lookup j (insert p.id p m.pool) ≡ some r
          → p.id ≢ j
          → lookup j m.pool ≡ some r
      away j r e ne = ground (arith, lookup-insert p.id j p m.pool)

  drop_with-IsValid :
      (id : String) (bs : Map String)
      → ((j : String) (r : Model X)
          → id ≢ j
          → lookup j m.pool ≡ some r
          → r.owner_id ≢ ""
          → lookup r.owner_id bs ≡ some j)
      → ((t j : String) → lookup t bs ≡ some j → (id ≢ j) × (lookup t m.bindings ≡ some j))
      → IsValid (record (drop_resource id m) { bindings = bs })
  drop_with-IsValid id bs others back = record {
    global = v.global;
    named = v.named;
    running = v.running;
    pooled = λ j r e.
        let w = v.pooled j r (kept j r e).1 in
        record {
          filed = w.filed;
          grouped = w.grouped;
          policy = w.policy;
          owned = others j r (kept j r e).0 (kept j r e).1;
        };
    bound = λ t j e.
        let (ne, e') = back t j e in
        let (r, there, own, named) = v.bound t j e' in
        (r, ground (arith, lookup-delete id j m.pool), own, named);
    listed =
        λ j r e. rw (contains-erase_ne id j m.order (kept j r e).0) (v.listed j r (kept j r e).1);
    unlisted = λ j e. elim (str_dec id j) [
      | yes same ↦ rw (← same) (contains-erase_self id m.order v.distinct)
      | no ne ↦
          contains-erase_false id j m.order
            (v.unlisted j (ground (arith, lookup-delete id j m.pool)))
    ];
    distinct = Distinct-erase id m.order v.distinct;
    leasable = λ j r e.
        rw (holders_of-delete id j m.holders, if_neg _ (kept j r e).0)
          (v.leasable j r (kept j r e).1);
    unheld =
        λ j e. ground (arith, lookup-delete id j m.pool, lookup-delete id j m.holders, v.unheld j);
  }
    where
      kept :
          (j : String) (r : Model X)
          → lookup j (delete id m.pool) ≡ some r
          → (id ≢ j) × (lookup j m.pool ≡ some r)
      kept j r e = ground (arith, lookup-delete id j m.pool)

  -- A record leaves with its leases, and its owner loses the binding.
  pub drop-IsValid :
      (id : String) (p : Model X)
      → lookup id m.pool ≡ some p
      → IsValid (drop_owner p.owner_id (drop_resource id m))
  drop-IsValid id p here = elim (str_dec p.owner_id "") [
    | yes free ↦ rw (if_pos _ free) (
        drop_with-IsValid id m.bindings (λ j r ne there. (v.pooled j r there).owned)
          λ t j e. (λ same. let (r, there, own, named) = v.bound t j e in ground arith, e))
    | no locked ↦ rw (if_neg _ locked) (
        drop_with-IsValid id (delete p.owner_id m.bindings)
          (λ j r ne there held. ground (
            arith,
            lookup-delete p.owner_id r.owner_id m.bindings,
            (v.pooled j r there).owned held,
            (v.pooled id p here).owned locked,
          ))
          λ t j e. (
            λ same.
                let (r, there, own, named) = v.bound t j (off t j e).1 in
                absurd ((off t j e).0 (ground arith)),
            (off t j e).1,
          ))
  ]
    where
      off :
          (t j : String)
          → lookup t (delete p.owner_id m.bindings) ≡ some j
          → (p.owner_id ≢ t) × (lookup t m.bindings ≡ some j)
      off t j e = ground (arith, lookup-delete p.owner_id t m.bindings)

  -- To drop an id that the pool does not have changes nothing that matters.
  pub drop_absent-IsValid :
      (id : String) → lookup id m.pool ≡ none → IsValid (drop_owner "" (drop_resource id m))
  drop_absent-IsValid id absent = rw (if_pos (str_dec "" "") refl) (
      drop_with-IsValid id m.bindings (λ j r ne there. (v.pooled j r there).owned)
        λ t j e. (λ same. let (r, there, own, named) = v.bound t j e in ground arith, e))
