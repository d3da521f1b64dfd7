-- ===== src/Leasing/State.antt =====
-- leasing/manager.go: the Manager's state, and the bookkeeping of live leases. The methods hold the
-- manager's mutex from end to end, so each is one atomic step from state to state. `store` is what
-- the repository holds, and `broadcasts` counts the calls of cond.Broadcast.
pub mod Holds
use rogojin.Prelude.{
  ℕ, zero, suc, ◌+◌, ◌-◌, String, List, [], ◌∷◌, map, none, some, ite, Bool, true, false, dec_lt,
  ℕ_discrete, str_dec, sort_strings, ℤ, pos, negsuc,
}
use rogojin.Prelude.Map.{Map, lookup, insert, delete}
use rogojin.Leasing.Types.{Resource, Model, Group, Env, Selection, Result, ok, err, invalid_policy}

pub record Manager (X C S : Type 0) : Type 0 where
  pub store : S
  pub factories : Map (Selection C)
  pub groups : Map Group
  pub strategies : Map (Selection C)
  pub pool : Map (Model X)
  pub order : List String
  pub holders : Map (Map ℕ)
  pub bindings : Map String
  pub broadcasts : ℕ

-- A live hold on one resource, with the record and the group as of acquisition.
pub record Lease (X : Type 0) : Type 0 where
  pub resource : Model X
  pub group : Group
  pub task_id : String

-- 0 (the default), UnlimitedHolders (-1), or an explicit cap of at least 1.
unfoldable pub validate_holder_policy : ℤ → Result (Unit {0})
validate_holder_policy (negsuc (suc n)) = err invalid_policy
validate_holder_policy _ = ok tt

-- The resource's own policy, else 1.
abbrev pub cap_of : ℤ → ℤ
cap_of (pos zero) = pos 1
cap_of (pos (suc n)) = pos (suc n)
cap_of (negsuc n) = negsuc n

unfoldable pub effective_cap : Resource → ℤ
effective_cap c = cap_of c.max_holders

-- `cap == UnlimitedHolders || held < cap`
unfoldable pub has_room : ℤ → ℕ → Bool
has_room (pos cap) held = ite (dec_lt held cap) true false
has_room (negsuc zero) held = true
has_room (negsuc (suc n)) held = false

-- The live leases counted over every holder.
unfoldable pub total : Map ℕ → ℕ
total [] = 0
total ((t, n) ∷ hs) = n + total hs

-- `holders[taskID]`, zero when the task holds none.
unfoldable pub count_of : String → Map ℕ → ℕ
count_of t hs = elim (lookup t hs) [ none ↦ 0 | some n ↦ n ]

-- `m.holders[resourceID]`, empty when nobody holds the resource.
unfoldable pub holders_of : String → Map (Map ℕ) → Map ℕ
holders_of id hs = elim (lookup id hs) [ none ↦ [] | some h ↦ h ]

abbrev pub drop_zero : String → Map ℕ → Map ℕ
drop_zero t hs = ite (ℕ_discrete (count_of t hs) 0) (delete t hs) hs

abbrev pub decrement : String → Map ℕ → Map ℕ
decrement t hs = ite (dec_lt 0 (count_of t hs)) (insert t (count_of t hs - 1) hs) hs

abbrev pub store_holders : String → Map ℕ → Map (Map ℕ) → Map (Map ℕ)
store_holders id [] all = delete id all
store_holders id (h ∷ hs) all = insert id (h ∷ hs) all

-- One live lease more of the resource by the task.
unfoldable pub hold : String → String → Map (Map ℕ) → Map (Map ℕ)
hold id t all = insert id (insert t (count_of t (holders_of id all) + 1) (holders_of id all)) all

-- One live lease less, with empty entries pruned.
unfoldable pub unhold : String → String → Map (Map ℕ) → Map (Map ℕ)
unhold id t all = store_holders id (drop_zero t (decrement t (holders_of id all))) all

-- `m.groups[id]`, the zero group when there is none.
unfoldable pub group_of : String → Map Group → Group
group_of id gs = elim (lookup id gs) [
  | none ↦ record { id = ""; strategy = ""; refs = []; created_at = 0; updated_at = 0 }
  | some g ↦ g
]

module _ {X C S : Type 0} where
  unfoldable pub held_count : Manager X C S → String → ℕ
  held_count m id = total (holders_of id m.holders)

  unfoldable pub holder_ids : Manager X C S → String → List String
  holder_ids m id = sort_strings (map (λ h. h.0) (holders_of id m.holders))

  unfoldable pub broadcast : Manager X C S → Manager X C S
  broadcast m = record m { broadcasts = m.broadcasts + 1 }

  -- Manager.release, which a Lease's first Release calls.
  unfoldable pub release : String → String → Manager X C S → Manager X C S
  unfolding broadcast
  release id t m = broadcast (record m { holders = unhold id t m.holders })

module _ {X C S : Type 0} (env : Env X C S) where
  -- `m.pool[id]`, the zero record when the pool has none.
  unfoldable pub pooled : Manager X C S → String → Model X
  pooled m id = elim (lookup id m.pool) [ none ↦ zero_model | some p ↦ p ]
    where
      zero_model : Model X
      zero_model = record {
        core = record {
          id = "";
          group_id = "";
          owner_id = "";
          max_holders = pos 0;
          created_at = 0;
          updated_at = 0;
        };
        own = env.empty;
      }

  -- The ids of the group's resources in the pool's stable order.
  unfoldable pub members : Manager X C S → String → List String → List String
  members m g [] = []
  members m g (id ∷ ids) =
      ite (str_dec (pooled m id).group_id g) (id ∷ members m g ids) (members m g ids)

  unfoldable pub group_has_resources : Manager X C S → String → List String → Bool
  group_has_resources m g [] = false
  group_has_resources m g (id ∷ ids) =
      ite (str_dec (pooled m id).group_id g) true (group_has_resources m g ids)
