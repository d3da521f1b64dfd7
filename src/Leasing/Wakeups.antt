-- ===== src/Leasing/Wakeups.antt =====
-- leasing/manager.go: proofs about the calls that wake the rounds of Acquire and Lock that wait.
pub mod Steps
pub mod Deletions
pub mod Rounds
pub mod Calls
use rogojin.Prelude.{
  ℕ, zero, suc, ◌+◌, ◌≤◌, ◌<◌, ◌≡◌, ◌≢◌, ◌⊎◌, refl, sym, ap, String, List, [], ◌∷◌, Option, none,
  some, ite, Bool, true, false, ◌&&◌, not, str_dec, dec_lt, arith, inl, inr, Option-cases,
  Bool-cases, List-cases, ℤ, pos, negsuc, if◌then◌else◌,
}
use rogojin.Prelude.Map.{Map, lookup, insert, delete, lookup-insert, lookup-delete}
use rogojin.Leasing.Types.{Model, Group, Assignment, Resource}
use rogojin.Leasing.State.{Manager, held_count, has_room, effective_cap}
use rogojin.Leasing.Acquire.{is_candidate, too_busy, is_pinned_elsewhere}
use rogojin.Leasing.Outcomes.{IsBlocked}

has_room_mono : (cap : ℤ) (h h' : ℕ) → h ≤ h' → has_room cap h ≡ false → has_room cap h' ≡ false
unfolding has_room
has_room_mono (pos cap) h h' more full = ground arith
has_room_mono (negsuc (suc n)) h h' more full = refl
has_room_mono (negsuc zero) h h' more full = full

-- More live leases never make a record leasable.
is_candidate_mono :
    {X : Type 0} (a : Assignment) (lock : Bool) (p : Model X) (h h' : ℕ)
    → h ≤ h'
    → is_candidate a lock p h ≡ false
    → is_candidate a lock p h' ≡ false
unfolding is_candidate
is_candidate_mono a lock p h h' more unfit =
    ground (arith, has_room_mono (effective_cap p.core) h h' more, more)

-- A locked record is nobody's candidate.
owned-unfit :
    {X : Type 0} (a : Assignment) (lock : Bool) (p : Model X) (h : ℕ)
    → p.owner_id ≢ ""
    → is_candidate a lock p h ≡ false
unfolding is_candidate
owned-unfit a lock p h owned = ground (arith, owned)

-- The fields that leasing reads of a record.
pub record Alike {X : Type 0} (p q : Model X) : Type 0 where
  pub same_id : q.id ≡ p.id
  pub same_group : q.group_id ≡ p.group_id
  pub same_owner : q.owner_id ≡ p.owner_id
  pub same_cap : effective_cap q.core ≡ effective_cap p.core

Alike-unfit :
    {X : Type 0} (a : Assignment) (lock : Bool) (p q : Model X) (h : ℕ)
    → Alike p q
    → is_candidate a lock p h ≡ false
    → is_candidate a lock q h ≡ false
unfolding is_candidate
Alike-unfit a lock p q h v unfit = rw (v.same_id, v.same_group, v.same_owner, v.same_cap) unfit

-- What may change without a wakeup: bindings and leases may come, and a record may become locked or
-- be edited in the fields that leasing does not read.
pub record Unrelieved {X C S : Type 0} (m m' : Manager X C S) : Type 0 where
  pub bound : (t id : String) → lookup t m.bindings ≡ some id → lookup t m'.bindings ≡ some id
  pub leases : (id : String) → held_count m id ≤ held_count m' id
  pub records :
      (id : String) (q : Model X)
      → lookup id m'.pool ≡ some q
      → (q.owner_id ≢ "") ⊎ ((p : Model X) × (lookup id m.pool ≡ some p) × Alike p q)

pub Unrelieved-IsBlocked :
    {X C S : Type 0} (m m' : Manager X C S) (a : Assignment) (lock : Bool)
    → Unrelieved m m'
    → IsBlocked m a lock
    → IsBlocked m' a lock
Unrelieved-IsBlocked m m' a lock u (inl (id, e, busy)) =
    inl (id, u.bound a.task_id id e, λ idle. busy (omega (arith, u.leases id)))
Unrelieved-IsBlocked m m' a lock u (inr unfit) = inr (λ id q there. elim (u.records id q there) [
  | inl owned ↦ owned-unfit a lock q (held_count m' id) owned
  | inr (p, before, alike) ↦
      is_candidate_mono a lock q (held_count m id) (held_count m' id) (u.leases id)
        (Alike-unfit a lock p q (held_count m id) alike (unfit id p before))
])

-- Nothing that leasing reads has changed.
pub record SameLeases {X C S : Type 0} (m m' : Manager X C S) : Type 0 where
  pub same_pool : m'.pool ≡ m.pool
  pub same_holders : m'.holders ≡ m.holders
  pub same_bindings : m'.bindings ≡ m.bindings

Alike-refl : {X : Type 0} (p : Model X) → Alike p p
Alike-refl p = record { same_id = refl; same_group = refl; same_owner = refl; same_cap = refl }

pub SameLeases-Unrelieved :
    {X C S : Type 0} (m m' : Manager X C S) → SameLeases m m' → Unrelieved m m'
unfolding held_count
SameLeases-Unrelieved m m' v = record {
  bound = λ t id e. rw (v.same_bindings) e;
  leases = λ id. rw (v.same_holders) omega arith;
  records = λ id q there. inr (q, rw (sym v.same_pool) there, Alike-refl q);
}
