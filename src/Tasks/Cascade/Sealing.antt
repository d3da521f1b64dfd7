-- ===== src/Tasks/Cascade/Sealing.antt =====
-- tasks/manager.go: proofs about sealing the tasks of a group and reopening them.
use rogojin.Prelude.{
  ◌≡◌, refl, ap, String, List, [], ◌∷◌, Option, none, some, false, if◌then◌else◌, Bool-cases,
  Option-cases, inl, inr, arith, is_one_of,
}
use rogojin.Prelude.Map.{Map, lookup, insert, lookup-insert}
use rogojin.Tasks.Engine.{Engine, is_live, seal, unseal}
use rogojin.Tasks.Cascade.{seal_each, unseal_each}

-- Between two calls no registered task is sealed.
abbrev pub IsUnsealed : Map Engine → Type 0
IsUnsealed live = (j : String) (e : Engine) → lookup j live ≡ some e → e.sealed ≡ false

abbrev pub seal_opt : Option Engine → Option Engine
seal_opt none = none
seal_opt (some e) = some (seal e)

abbrev unseal_opt : Option Engine → Option Engine
unseal_opt none = none
unseal_opt (some e) = some (unseal e)

seal_twice : (o : Option Engine) → seal_opt (seal_opt o) ≡ seal_opt o
unfolding seal
seal_twice none = refl
seal_twice (some e) = ground arith

unseal-seal : (e : Engine) → e.sealed ≡ false → unseal (seal e) ≡ e
unfolding seal unseal
unseal-seal e open_ = ground (arith, open_)

pub some-inj : {A : Type 0} {x y : A} → some x ≡ some y → x ≡ y
some-inj {x = x} e = ap (λ o. elim o [ none ↦ x | some z ↦ z ]) e

-- The tasks with those sealed so far.
abbrev pub Sealed : Map Engine → List String → Map Engine → Type 0
Sealed before sealed live =
    (j : String)
    → lookup j live ≡ (if is_one_of j sealed then seal_opt (lookup j before) else lookup j before)

pub one_more-Sealed :
    (id : String) (sealed : List String) (before live : Map Engine) (e : Engine)
    → Sealed before sealed live
    → lookup id live ≡ some e
    → Sealed before (id ∷ sealed) (insert id (seal e) live)
unfolding is_one_of
one_more-Sealed id sealed before live e inv known k =
    ground
      (arith, known, inv id, inv k, seal_twice (lookup id before), lookup-insert id k (seal e) live)

seal_each-Sealed :
    (ids sealed : List String) (before live : Map Engine)
    → Sealed before sealed live
    → Sealed before (seal_each ids sealed live).1 (seal_each ids sealed live).0
unfolding seal_each is_one_of
seal_each-Sealed [] sealed before live inv j = inv j
seal_each-Sealed (id ∷ ids) sealed before live inv j = elim (Option-cases (lookup id live)) [
  | inl unknown ↦ rw (unknown, seal_each) (seal_each-Sealed ids sealed before live inv j)
  | inr (e, known) ↦ elim (Bool-cases (is_live e.state e.detach_done)) [
    | inl runs ↦ rw (known, runs, seal_each) (inv j)
    | inr quiet ↦
        rw (known, quiet, seal_each)
          (seal_each-Sealed ids (id ∷ sealed) before (insert id (seal e) live)
            (one_more-Sealed id sealed before live e inv known) j)
  ]
]

pub seal_each-other :
    (ids sealed : List String) (live : Map Engine) (j : String)
    → is_one_of j ids ≡ false
    → lookup j (seal_each ids sealed live).0 ≡ lookup j live
unfolding seal_each is_one_of
seal_each-other [] sealed live j e = refl
seal_each-other (id ∷ ids) sealed live j e = elim (Option-cases (lookup id live)) [
  | inl unknown ↦ rw (unknown, seal_each) (seal_each-other ids sealed live j (ground (arith, e)))
  | inr (t, known) ↦ elim (Bool-cases (is_live t.state t.detach_done)) [
    | inl runs ↦ rw (known, runs, seal_each) refl
    | inr quiet ↦
        rw (known, quiet, seal_each)
          (ground (
            arith,
            e,
            seal_each-other ids (id ∷ sealed) (insert id (seal t) live) j (ground (arith, e)),
            lookup-insert id j (seal t) live,
          ))
  ]
]

unseal_twice : (o : Option Engine) → unseal_opt (unseal_opt o) ≡ unseal_opt o
unfolding unseal
unseal_twice none = refl
unseal_twice (some e) = refl

unseal_each-lookup :
    (ids : List String) (live : Map Engine) (j : String)
    → lookup j (unseal_each ids live)
      ≡ (if is_one_of j ids then unseal_opt (lookup j live) else lookup j live)
unfolding unseal_each is_one_of
unseal_each-lookup [] live j = refl
unseal_each-lookup (id ∷ ids) live j = elim (Option-cases (lookup id live)) [
  | inl unknown ↦ rw (unknown, unseal_each) (ground (arith, unknown, unseal_each-lookup ids live j))
  | inr (e, known) ↦
      rw (known, unseal_each)
        (ground (
          arith,
          known,
          unseal_each-lookup ids (insert id (unseal e) live) j,
          unseal_twice (lookup id live),
          lookup-insert id j (unseal e) live,
        ))
]

-- Reopening the sealed tasks leaves every task as it was.
pub reopened :
    (ids : List String) (live : Map Engine)
    → IsUnsealed live
    → (j : String)
    → lookup j (unseal_each (seal_each ids [] live).1 (seal_each ids [] live).0) ≡ lookup j live
unfolding is_one_of
reopened ids live open_ j = elim (Option-cases (lookup j live)) [
  | inl unknown ↦ ground (arith, unknown, after, before)
  | inr (e, known) ↦ ground (arith, known, after, before, unseal-seal e (open_ j e known))
]
  where
    before : lookup j (seal_each ids [] live).0 ≡ (
        if is_one_of j (seal_each ids [] live).1 then seal_opt (lookup j live) else lookup j live)
    before = seal_each-Sealed ids [] live live (λ k. refl) j

    after : lookup j (unseal_each (seal_each ids [] live).1 (seal_each ids [] live).0) ≡ (
        if is_one_of j (seal_each ids [] live).1
        then unseal_opt (lookup j (seal_each ids [] live).0)
        else lookup j (seal_each ids [] live).0)
    after = unseal_each-lookup (seal_each ids [] live).1 (seal_each ids [] live).0 j
