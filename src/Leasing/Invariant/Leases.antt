-- ===== src/Leasing/Invariant/Leases.antt =====
-- The invariant when a lease is taken or given back.
use rogojin.Prelude.{
  ℕ, zero, suc, ◌+◌, ◌≤◌, ◌≡◌, String, some, true, str_dec, arith, ℤ, pos, negsuc, ◌⊎◌, inl, inr,
}
use rogojin.Prelude.Map.{Map, lookup, insert, lookup-insert}
use rogojin.Leasing.Types.{ok, Model}
use rogojin.Leasing.State.{
  Manager, effective_cap, cap_of, validate_holder_policy, has_room, total, count_of, holders_of,
  hold, unhold, release,
}
use rogojin.Leasing.State.Holds.{
  total-hold_self, holders_of-hold_ne, lookup-unhold-none, count-hold, total-unhold-le,
  count-unhold, count-le-total,
}
use rogojin.Leasing.Invariant.{IsWithin, IsLeasable, IsValid}

IsWithin-mono : (c : ℤ) (m n : ℕ) → m ≤ n → IsWithin c n → IsWithin c m
IsWithin-mono (pos c) m n h w = omega arith
IsWithin-mono (negsuc zero) m n h w = tt
IsWithin-mono (negsuc (suc k)) m n h w = w

has_room-IsWithin : (c : ℤ) (n : ℕ) → has_room c n ≡ true → IsWithin c (n + 1)
unfolding has_room
has_room-IsWithin (pos c) n h = ground arith
has_room-IsWithin (negsuc zero) n h = tt
has_room-IsWithin (negsuc (suc k)) n h = cc

cap_of-IsWithin_one : (n : ℤ) → validate_holder_policy n ≡ ok tt → IsWithin (cap_of n) 1
unfolding validate_holder_policy
cap_of-IsWithin_one (pos zero) h = omega arith
cap_of-IsWithin_one (pos (suc n)) h = omega arith
cap_of-IsWithin_one (negsuc zero) h = tt
cap_of-IsWithin_one (negsuc (suc k)) h = cc

-- When may the task take a lease of the record with so many live leases? An unlocked record with
-- room, or the task's own while it is idle.
abbrev pub MayHold : {X : Type 0} → String → Model X → ℕ → Type 0
MayHold t p held =
    ((p.owner_id ≡ "") × (has_room (effective_cap p.core) held ≡ true))
    ⊎ ((p.owner_id ≡ t) × (held ≡ 0))

hold-IsLeasable :
    {X : Type 0} (t : String) (p : Model X) (id : String) (all : Map (Map ℕ))
    → validate_holder_policy p.max_holders ≡ ok tt
    → IsLeasable p (holders_of id all)
    → MayHold t p (total (holders_of id all))
    → IsLeasable p (holders_of id (hold id t all))
unfolding effective_cap
hold-IsLeasable t p id all policy v (inl (free, room)) = record {
  capacity = rw (total-hold_self id t all) (has_room-IsWithin _ _ room);
  exclusive = λ locked. absurd (locked free);
  owners = λ locked. absurd (locked free);
}
hold-IsLeasable t p id all policy v (inr (own, idle)) = record {
  capacity = rw (total-hold_self id t all, idle) (cap_of-IsWithin_one p.max_holders policy);
  exclusive = λ _. omega (arith, total-hold_self id t all);
  owners = λ locked u other.
      ground (arith, count-hold id t id u all, count-le-total u (holders_of id all));
}

unhold-IsLeasable :
    {X : Type 0} (p : Model X) (id t j : String) (all : Map (Map ℕ))
    → IsLeasable p (holders_of j all)
    → IsLeasable p (holders_of j (unhold id t all))
unhold-IsLeasable p id t j all v = record {
  capacity = IsWithin-mono _ _ _ (total-unhold-le id t j all) v.capacity;
  exclusive = λ locked. omega (arith, total-unhold-le id t j all, v.exclusive locked);
  owners = λ locked u other. ground (arith, count-unhold id t j u all, v.owners locked u other);
}

module _ {X C S : Type 0} (m : Manager X C S) (v : IsValid m) where
  -- A lease that the record allows.
  pub hold-IsValid :
      (id t : String) (p : Model X)
      → lookup id m.pool ≡ some p
      → MayHold t p (total (holders_of id m.holders))
      → IsValid (record m { holders = hold id t m.holders })
  unfolding hold
  hold-IsValid id t p here may = record {
    global = v.global;
    named = v.named;
    running = v.running;
    pooled = v.pooled;
    bound = v.bound;
    listed = v.listed;
    unlisted = v.unlisted;
    distinct = v.distinct;
    leasable = λ j q e. elim (str_dec id j) [
      | yes same ↦ rw (← same) (leased j q e same)
      | no ne ↦ rw (holders_of-hold_ne id t j m.holders ne) (v.leasable j q e)
    ];
    unheld = λ j e. ground (
      arith,
      lookup-insert id j
          (insert t (count_of t (holders_of id m.holders) + 1) (holders_of id m.holders)) m.holders,
      v.unheld j e,
    );
  }
    where
      leased :
          (j : String) (q : Model X)
          → lookup j m.pool ≡ some q
          → id ≡ j
          → IsLeasable q (holders_of id (hold id t m.holders))
      leased j q e same =
          let one : p ≡ q = ground arith in
          rw (← one) (
            hold-IsLeasable t p id m.holders (v.pooled id p here).policy (v.leasable id p here) may)

  -- Any release, also one of a lease that is not there.
  pub release-IsValid : (id t : String) → IsValid (release id t m)
  unfolding release
  release-IsValid id t = record {
    global = v.global;
    named = v.named;
    running = v.running;
    pooled = v.pooled;
    bound = v.bound;
    listed = v.listed;
    unlisted = v.unlisted;
    distinct = v.distinct;
    leasable = λ j q e. unhold-IsLeasable q id t j m.holders (v.leasable j q e);
    unheld = λ j e. lookup-unhold-none id t j m.holders (v.unheld j e);
  }
