-- ===== src/Leasing/Invariant.antt =====
-- What holds of a Manager between two calls.
pub mod Leases
pub mod Bindings
pub mod Records
pub mod Rows
pub mod GroupCalls
pub mod RecordCalls
pub mod GroupDeletion
pub mod Candidates
pub mod LeaseCalls
pub mod LoadedRecords
pub mod Loading
use rogojin.Prelude.{
  ℕ, zero, suc, ◌≤◌, ◌≡◌, ◌≢◌, refl, String, List, [], ◌∷◌, Option, none, some, ite, Bool, true,
  false, str_dec, ℤ, pos, negsuc,
}
use rogojin.Prelude.Map.{Map, lookup}
use rogojin.Leasing.Types.{Resource, Model, Group, Selection, Result, ok, global_group}
use rogojin.Leasing.State.{
  Manager, effective_cap, validate_holder_policy, total, count_of, holders_of,
}

-- So many live leases respect the cap.
abbrev pub IsWithin : ℤ → ℕ → Type 0
IsWithin (pos cap) n = n ≤ cap
IsWithin (negsuc zero) n = Unit {0}
IsWithin (negsuc (suc k)) n = ⊥

abbrev pub Defined {ℓ} : {V : Type ℓ} → String → Map V → Type ℓ
Defined {V = V} k m = (v : V) × (lookup k m ≡ some v)

unfoldable pub contains : String → List String → Bool
contains id [] = false
contains id (i ∷ is) = ite (str_dec i id) true (contains id is)

abbrev pub Distinct : List String → Type 0
Distinct [] = Unit {0}
Distinct (i ∷ is) = (contains i is ≡ false) × Distinct is

-- A record in the pool: filed under its id, in a group that exists, under a legal cap, and bound
-- to its owner if it has one.
pub record IsPooled (id : String) {X : Type 0} (groups : Map Group) (bindings : Map String)
    (p : Model X) : Type 0 where
  pub filed : p.id ≡ id
  pub grouped : Defined p.group_id groups
  pub policy : validate_holder_policy p.max_holders ≡ ok tt
  pub owned : p.owner_id ≢ "" → lookup p.owner_id bindings ≡ some id

-- The live leases of a record: within its cap, and only its owner's, one at most, if it is locked.
pub record IsLeasable {X : Type 0} (p : Model X) (hs : Map ℕ) : Type 0 where
  pub capacity : IsWithin (effective_cap p.core) (total hs)
  pub exclusive : p.owner_id ≢ "" → total hs ≤ 1
  pub owners : p.owner_id ≢ "" → (t : String) → t ≢ p.owner_id → count_of t hs ≡ 0

-- A binding names a pooled record that the task owns.
abbrev pub IsBound : {X : Type 0} → String → String → Map (Model X) → Type 0
IsBound {X = X} t id pool = (p : Model X) × (lookup id pool ≡ some p) × (p.owner_id ≡ t) × (t ≢ "")

pub record IsValid {X C S : Type 0} (m : Manager X C S) : Type 0 where
  pub global : Defined global_group m.groups
  pub named : (g : String) (x : Group) → lookup g m.groups ≡ some x → x.id ≡ g
  pub running : (g : String) (x : Group) → lookup g m.groups ≡ some x → Defined g m.strategies
  pub pooled :
      (id : String) (p : Model X) → lookup id m.pool ≡ some p → IsPooled id m.groups m.bindings p
  pub bound : (t id : String) → lookup t m.bindings ≡ some id → IsBound t id m.pool
  pub listed : (id : String) (p : Model X) → lookup id m.pool ≡ some p → contains id m.order ≡ true
  pub unlisted : (id : String) → lookup id m.pool ≡ none → contains id m.order ≡ false
  pub distinct : Distinct m.order
  pub leasable :
      (id : String) (p : Model X)
      → lookup id m.pool ≡ some p
      → IsLeasable p (holders_of id m.holders)
  pub unheld : (id : String) → lookup id m.pool ≡ none → lookup id m.holders ≡ none
