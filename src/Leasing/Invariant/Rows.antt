-- ===== src/Leasing/Invariant/Rows.antt =====
-- The invariant when groups, strategies or the store change.
use rogojin.Prelude.{◌≡◌, ◌≢◌, sym, String, some, if_neg, str_dec, arith}
use rogojin.Prelude.Map.{Map, lookup, insert, delete, lookup-insert, lookup-delete}
use rogojin.Leasing.Types.{Model, Group, Selection, global_group}
use rogojin.Leasing.State.{Manager, broadcast}
use rogojin.Leasing.Groups.{install_group}
use rogojin.Leasing.Inventory.{drop_group}
use rogojin.Leasing.Invariant.{IsValid, Defined}

module _ {X C S : Type 0} (m : Manager X C S) (v : IsValid m) where
  -- Groups and strategies change, with every group of a pooled record still there.
  rows-IsValid :
      (gs : Map Group) (ss : Map (Selection C))
      → Defined global_group gs
      → ((g : String) (x : Group) → lookup g gs ≡ some x → (x.id ≡ g) × Defined g ss)
      → ((j : String) (p : Model X) → lookup j m.pool ≡ some p → Defined p.group_id gs)
      → IsValid (record m { groups = gs; strategies = ss })
  rows-IsValid gs ss global rows kept = record {
    global = global;
    named = λ g x e. (rows g x e).0;
    running = λ g x e. (rows g x e).1;
    pooled = λ j p e.
        let w = v.pooled j p e in
        record { filed = w.filed; grouped = kept j p e; policy = w.policy; owned = w.owned };
    bound = v.bound;
    listed = v.listed;
    unlisted = v.unlisted;
    distinct = v.distinct;
    leasable = v.leasable;
    unheld = v.unheld;
  }

  pub store-IsValid : (s : S) → IsValid (record m { store = s })
  store-IsValid s = record {
    global = v.global;
    named = v.named;
    running = v.running;
    pooled = v.pooled;
    bound = v.bound;
    listed = v.listed;
    unlisted = v.unlisted;
    distinct = v.distinct;
    leasable = v.leasable;
    unheld = v.unheld;
  }

  pub broadcast-IsValid : IsValid (broadcast m)
  unfolding broadcast
  broadcast-IsValid = record {
    global = v.global;
    named = v.named;
    running = v.running;
    pooled = v.pooled;
    bound = v.bound;
    listed = v.listed;
    unlisted = v.unlisted;
    distinct = v.distinct;
    leasable = v.leasable;
    unheld = v.unheld;
  }

pub Defined-insert {ℓ} :
    {V : Type ℓ} (k j : String) (w : V) (m : Map V) → Defined j m → Defined j (insert k w m)
Defined-insert k j w m (u, e) = elim (str_dec k j) [
  | yes same ↦ (w, ground (arith, lookup-insert k j w m))
  | no ne ↦ (u, ground (arith, lookup-insert k j w m))
]

pub Defined-insert_self {ℓ} :
    {V : Type ℓ} (k j : String) (w : V) (m : Map V) → k ≡ j → Defined j (insert k w m)
Defined-insert_self k j w m same = (w, ground (arith, lookup-insert k j w m))

module _ {X C S : Type 0} (m : Manager X C S) (v : IsValid m) where
  pub install_group-IsValid : (g : Group) (fresh : Selection C) → IsValid (install_group g fresh m)
  install_group-IsValid g fresh =
      rows-IsValid m v (insert g.id g m.groups) (insert g.id fresh m.strategies)
        (Defined-insert g.id _ g m.groups v.global)
        (λ k x e. (ground (arith, lookup-insert g.id k g m.groups, v.named k x), run k x e))
        (λ j p e. Defined-insert g.id _ g m.groups (v.pooled j p e).grouped)
    where
      run :
          (k : String) (x : Group)
          → lookup k (insert g.id g m.groups) ≡ some x
          → Defined k (insert g.id fresh m.strategies)
      run k x e = elim (str_dec g.id k) [
        | yes same ↦ Defined-insert_self g.id k fresh m.strategies same
        | no ne ↦
            Defined-insert g.id k fresh m.strategies
              (v.running k x (ground (arith, lookup-insert g.id k g m.groups)))
      ]

  pub store_strategy-IsValid :
      (k : String) (s : Selection C) → IsValid (record m { strategies = insert k s m.strategies })
  store_strategy-IsValid k s =
      rows-IsValid m v m.groups (insert k s m.strategies) v.global
        (λ g x e. (v.named g x e, Defined-insert k g s m.strategies (v.running g x e)))
        (λ j p e. (v.pooled j p e).grouped)

  -- A known group is rewritten under its own id, with its strategy kept or started afresh.
  pub rewrite_group-IsValid :
      (id : String) (old g : Group) (ss : Map (Selection C))
      → lookup id m.groups ≡ some old
      → g.id ≡ old.id
      → ((k : String) → Defined k m.strategies → Defined k ss)
      → IsValid (record m { groups = insert id g m.groups; strategies = ss })
  rewrite_group-IsValid id old g ss here same_id keep =
      rows-IsValid m v (insert id g m.groups) ss (Defined-insert id _ g m.groups v.global)
        (λ k x e. (
          ground (arith, lookup-insert id k g m.groups, v.named k x, v.named id old here),
          keep k (run k x e),
        ))
        (λ j p e. Defined-insert id _ g m.groups (v.pooled j p e).grouped)
    where
      run :
          (k : String) (x : Group)
          → lookup k (insert id g m.groups) ≡ some x
          → Defined k m.strategies
      run k x e = elim (str_dec id k) [
        | yes same ↦ rw (← same) (v.running id old here)
        | no ne ↦ v.running k x (ground (arith, lookup-insert id k g m.groups))
      ]

  -- A group without members goes, unless it is the global one.
  pub drop_group-IsValid :
      (id : String)
      → id ≢ global_group
      → ((j : String) (p : Model X) → lookup j m.pool ≡ some p → p.group_id ≢ id)
      → IsValid (drop_group id m)
  drop_group-IsValid id other empty =
      rows-IsValid m v (delete id m.groups) (delete id m.strategies)
        (still global_group v.global other) (λ g x e. (v.named g x (kept g x e).1, running g x e))
        (λ j p e. still p.group_id (v.pooled j p e).grouped (λ same. empty j p e (sym same)))
    where
      kept :
          (g : String) (x : Group)
          → lookup g (delete id m.groups) ≡ some x
          → (id ≢ g) × (lookup g m.groups ≡ some x)
      kept g x e = ground (arith, lookup-delete id g m.groups)

      still : (g : String) → Defined g m.groups → id ≢ g → Defined g (delete id m.groups)
      still g (x, e) ne = (x, ground (arith, lookup-delete id g m.groups))

      running :
          (g : String) (x : Group)
          → lookup g (delete id m.groups) ≡ some x
          → Defined g (delete id m.strategies)
      running g x e =
          let (s, e') = v.running g x (kept g x e).1 in
          (s, rw (lookup-delete id g m.strategies, if_neg _ (kept g x e).0) e')
