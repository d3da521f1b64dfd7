-- ===== src/Leasing/Invariant/Loading.antt =====
-- leasing/manager.go: the invariant of what NewManager builds.
use rogojin.Prelude.{
  ℕ, ◌≡◌, refl, sym, subst, String, List, [], ◌∷◌, some, str_dec, arith, inl, inr, Option-cases,
}
use rogojin.Prelude.Map.{lookup, lookup-insert, not-lookup-nil}
use rogojin.Leasing.Types.{
  Env, Model, Group, Selection, ok, Result-cases, found, store_failed, strategy_round_robin,
  >>=-eq-ok, global_group,
}
use rogojin.Leasing.State.{Manager}
use rogojin.Leasing.Groups.{adopt_group, validate_group, install_group}
use rogojin.Leasing.Load.{fresh_manager, load_groups, ensure_global, new_manager}
use rogojin.Leasing.Invariant.{IsValid, Defined, contains}
use rogojin.Leasing.Invariant.LoadedRecords.{load_records-IsValid}
use rogojin.Leasing.Invariant.Rows.{Defined-insert, Defined-insert_self}

module _ {X C S : Type 0} where
  -- Only groups are loaded yet.
  record HasGroups (m : Manager X C S) : Type 0 where
    named : (g : String) (x : Group) → lookup g m.groups ≡ some x → x.id ≡ g
    running : (g : String) (x : Group) → lookup g m.groups ≡ some x → Defined g m.strategies
    no_pool : m.pool ≡ []
    no_order : m.order ≡ []
    no_holders : m.holders ≡ []
    no_bindings : m.bindings ≡ []

  adopted :
      (g : Group) (m m' : Manager X C S)
      → adopt_group g m ≡ ok m'
      → (fresh : Selection C) × (m' ≡ install_group g fresh m)
  unfolding adopt_group
  adopted g m m' e = elim (Result-cases (validate_group m g)) [
    | inl (x, refused) ↦ absurd (cc (rw (refused, adopt_group) at e))
    | inr (fresh, valid) ↦ (fresh, cc (rw (valid, adopt_group) at e))
  ]

  install-HasGroups :
      (g : Group) (fresh : Selection C) (m : Manager X C S)
      → HasGroups m
      → HasGroups (install_group g fresh m)
  install-HasGroups g fresh m h = record {
    named = λ k x e. ground (arith, lookup-insert g.id k g m.groups, h.named k x);
    running = λ k x e. elim (str_dec g.id k) [
      | yes same ↦ Defined-insert_self g.id k fresh m.strategies same
      | no ne ↦
          Defined-insert g.id k fresh m.strategies
            (h.running k x (ground (arith, lookup-insert g.id k g m.groups)))
    ];
    no_pool = h.no_pool;
    no_order = h.no_order;
    no_holders = h.no_holders;
    no_bindings = h.no_bindings;
  }

  load_groups-HasGroups :
      (gs : List Group) (m m' : Manager X C S)
      → HasGroups m
      → load_groups gs m ≡ ok m'
      → HasGroups m'
  unfolding load_groups
  load_groups-HasGroups [] m m' h e = subst HasGroups (ground arith) h
  load_groups-HasGroups (g ∷ gs) m m' h e = elim (Option-cases (lookup g.id m.groups)) [
    | inr (x, dup) ↦ absurd (cc (rw (dup, load_groups) at e))
    | inl new ↦
        let (m₁, first, rest) =
          >>=-eq-ok (adopt_group g m) (load_groups gs) (rw (new, load_groups) at e) in
        let (fresh, same) = adopted g m m₁ first in
        load_groups-HasGroups gs m₁ m' (subst HasGroups (sym same) (install-HasGroups g fresh m h))
          rest
  ]

  groups_only-IsValid :
      (m : Manager X C S) → HasGroups m → Defined global_group m.groups → IsValid m
  unfolding lookup contains
  groups_only-IsValid m h global = record {
    global = global;
    named = h.named;
    running = h.running;
    pooled = λ j p e. absurd (nowhere j p e);
    bound = λ t j e. absurd (cc (rw h.no_bindings at e));
    listed = λ j p e. absurd (nowhere j p e);
    unlisted = λ j e. rw h.no_order refl;
    distinct = rw h.no_order tt;
    leasable = λ j p e. absurd (nowhere j p e);
    unheld = λ j e. rw h.no_holders refl;
  }
    where
      nowhere : (j : String) (p : Model X) → lookup j m.pool ≡ some p → ⊥
      nowhere j p e = cc (rw h.no_pool at e)

module _ {X C S : Type 0} (env : Env X C S) (now : ℕ) where
  ensure_global-IsValid :
      (m m' : Manager X C S) → HasGroups m → ensure_global env now m ≡ ok m' → IsValid m'
  unfolding ensure_global
  ensure_global-IsValid m m' h e = elim (Option-cases (lookup global_group m.groups)) [
    | inr there ↦
        subst IsValid (cc (rw (there.1, ensure_global) at e)) (groups_only-IsValid m h there)
    | inl missing ↦ elim (Option-cases (env.save_group global m.store).0) [
      | inr (x, refused) ↦ absurd (cc (rw (missing, refused, ensure_global) at e))
      | inl saved ↦ made (rw (missing, saved, ensure_global) at e)
    ]
  ]
    where
      global : Group
      global = record {
        id = global_group;
        strategy = strategy_round_robin;
        refs = [];
        created_at = now;
        updated_at = now;
      }

      stored : Manager X C S
      stored = record m { store = (env.save_group global m.store).1 }

      stored_groups : HasGroups stored
      stored_groups = record {
        named = h.named;
        running = h.running;
        no_pool = h.no_pool;
        no_order = h.no_order;
        no_holders = h.no_holders;
        no_bindings = h.no_bindings;
      }

      made : adopt_group global stored ≡ ok m' → IsValid m'
      made adopted_global =
          let (fresh, same) = adopted global stored m' adopted_global in
          subst IsValid (sym same) (
            groups_only-IsValid (install_group global fresh stored)
              (install-HasGroups global fresh stored stored_groups)
              (Defined-insert_self global_group global_group global stored.groups refl))

  -- Whatever groups and records the repository lists, a manager that NewManager returns is valid.
  pub new_manager-IsValid :
      (opts : List (String × Selection C)) (s : S) (m : Manager X C S)
      → new_manager env now opts s ≡ ok m
      → IsValid m
  unfolding new_manager fresh_manager
  new_manager-IsValid opts s m e =
      let (gs, _, after_list) =
        >>=-eq-ok (found (env.list_groups s) (store_failed "load groups")) _ e in
      let (m₁, grouped, after_groups) =
        >>=-eq-ok (load_groups gs (fresh_manager opts s)) _ after_list in
      let (m₂, global, after_global) = >>=-eq-ok (ensure_global env now m₁) _ after_groups in
      let (ps, _, loaded) =
        >>=-eq-ok (found (env.list m₂.store) (store_failed "load pool")) _ after_global in
      load_records-IsValid ps m₂ m
        (ensure_global-IsValid m₁ m₂ (load_groups-HasGroups gs _ m₁ nothing_yet grouped) global)
        loaded
    where
      nothing_yet : HasGroups {X = X} {C = C} {S = S} (fresh_manager opts s)
      nothing_yet = record {
        named = λ g x none_there. absurd (not-lookup-nil g x none_there);
        running = λ g x none_there. absurd (not-lookup-nil g x none_there);
        no_pool = refl;
        no_order = refl;
        no_holders = refl;
        no_bindings = refl;
      }
