-- ===== src/Leasing/Invariant/LoadedRecords.antt =====
-- leasing/manager.go: the invariant under the records that NewManager loads.
use rogojin.Prelude.{
  ◌≡◌, ◌≢◌, refl, ap, ◌∙◌, subst, String, List, [], ◌∷◌, none, some, str_dec, arith, ◌⊎◌, inl, inr,
  Option-cases,
}
use rogojin.Prelude.Map.{lookup, insert, lookup-insert, insert-insert}
use rogojin.Leasing.Types.{Model, ok, found, found-eq-ok, group_not_found, >>=-eq-ok}
use rogojin.Leasing.State.{Manager, validate_holder_policy}
use rogojin.Leasing.State.Holds.{holders_of-none}
use rogojin.Leasing.Inventory.{install_resource, default_group}
use rogojin.Leasing.Load.{load_binding, load_record, load_records}
use rogojin.Leasing.Invariant.{IsValid, Defined}
use rogojin.Leasing.Invariant.Records.{install-IsValid, nobody_leases}
use rogojin.Leasing.Invariant.Bindings.{rewrite-IsValid}

module _ {X C S : Type 0} where
  install_owned-IsValid :
      (m : Manager X C S) (p : Model X)
      → IsValid m
      → lookup p.id m.pool ≡ none
      → Defined p.group_id m.groups
      → validate_holder_policy p.max_holders ≡ ok tt
      → p.owner_id ≢ ""
      → lookup p.owner_id m.bindings ≡ none
      → IsValid (record (install_resource p m) { bindings = insert p.owner_id p.id m.bindings })
  install_owned-IsValid m p v fresh grouped policy owned unbound =
      subst
        (λ pool. IsValid (record (install_resource p m) {
          pool = pool;
          bindings = insert p.owner_id p.id m.bindings;
        }))
        (insert-insert p.id p free m.pool)
        (rewrite-IsValid installed installed_valid p.id free p (insert p.owner_id p.id m.bindings)
          (ground (arith, lookup-insert p.id p.id free m.pool)) refl refl refl
          (λ _. ground (arith, lookup-insert p.owner_id p.owner_id p.id m.bindings))
          (λ j r ne there locked. ground (
            arith,
            lookup-insert p.owner_id r.owner_id p.id m.bindings,
            (installed_valid.pooled j r there).owned locked,
          ))
          back (rw (holders_of-none p.id m.holders (v.unheld p.id fresh)) (nobody_leases p policy)))
    where
      free : Model X
      free = record p { core = record (p.core) { owner_id = "" } }

      installed : Manager X C S
      installed = install_resource free m

      installed_valid : IsValid installed
      installed_valid = install-IsValid m v free fresh grouped refl policy

      back :
          (t j : String)
          → lookup t (insert p.owner_id p.id m.bindings) ≡ some j
          → ((p.id ≡ j) × (p.owner_id ≡ t) × (t ≢ ""))
            ⊎ ((p.id ≢ j) × (lookup t m.bindings ≡ some j))
      back t j e = elim (str_dec p.owner_id t) [
        | yes same ↦ inl (
          ground (arith, lookup-insert p.owner_id t p.id m.bindings),
          same,
          λ blank. owned (same ∙ blank),
        )
        | no ne ↦
            let kept : lookup t m.bindings ≡ some j =
              ground (arith, lookup-insert p.owner_id t p.id m.bindings) in
            let (r, there, own, named) = v.bound t j kept in
            inr (λ same. cc (fresh, ap (λ k. lookup k m.pool) same, there), kept)
      ]

  load_binding-IsValid :
      (m m' : Manager X C S) (p : Model X)
      → IsValid m
      → lookup p.id m.pool ≡ none
      → Defined p.group_id m.groups
      → validate_holder_policy p.max_holders ≡ ok tt
      → load_binding p (install_resource p m) ≡ ok m'
      → IsValid m'
  unfolding load_binding
  load_binding-IsValid m m' p v fresh grouped policy e = elim (str_dec p.owner_id "") [
    | yes free ↦ subst IsValid (ground arith) (install-IsValid m v p fresh grouped free policy)
    | no owned ↦ elim (Option-cases (lookup p.owner_id m.bindings)) [
      | inr (other, twice) ↦ absurd (ground arith)
      | inl unbound ↦
          subst IsValid (ground arith)
            (install_owned-IsValid m p v fresh grouped policy owned unbound)
    ]
  ]

  load_record-IsValid :
      (m m' : Manager X C S) (p : Model X) → IsValid m → load_record p m ≡ ok m' → IsValid m'
  unfolding load_record
  load_record-IsValid m m' p v e = elim (Option-cases (lookup p.id m.pool)) [
    | inr (q, dup) ↦ absurd (cc (rw (dup, load_record) at e))
    | inl fresh ↦
        let (g, grouped, rest) =
          >>=-eq-ok (found (lookup (default_group p).group_id m.groups) group_not_found) _
            (rw (fresh, load_record) at e) in
        let (_, policy, bound) = >>=-eq-ok (validate_holder_policy p.max_holders) _ rest in
        load_binding-IsValid m m' (default_group p) v fresh (g, found-eq-ok _ _ grouped) policy
          bound
  ]

  pub load_records-IsValid :
      (ps : List (Model X)) (m m' : Manager X C S)
      → IsValid m
      → load_records ps m ≡ ok m'
      → IsValid m'
  unfolding load_records
  load_records-IsValid [] m m' v e = subst IsValid (ground arith) v
  load_records-IsValid (p ∷ ps) m m' v e =
      let (m₁, first, rest) = >>=-eq-ok (load_record p m) (load_records ps) e in
      load_records-IsValid ps m₁ m' (load_record-IsValid m m₁ p v first) rest
