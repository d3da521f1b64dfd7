-- ===== src/Leasing/Invariant/Candidates.antt =====
-- leasing/manager.go: what selectUnlocked picks.
use rogojin.Prelude.{
  ℕ, ◌≡◌, refl, subst, String, List, [], ◌∷◌, some, Bool, true, false, str_dec, arith, ◌⊎◌, inl,
  inr, Option-cases, Bool-cases, All,
}
use rogojin.Prelude.Map.{Map, lookup, insert, lookup-insert, not-lookup-nil}
use rogojin.Leasing.Types.{Env, Model, Assignment, Selection, Result, ok, err}
use rogojin.Leasing.State.{Manager, pooled, held_count, has_room, effective_cap}
use rogojin.Leasing.Strategy.{select}
use rogojin.Leasing.Acquire.{
  is_candidate, candidates, eligible, rotate, select_unlocked, choose_among, validate_pick,
}
use rogojin.Leasing.Invariant.{IsValid, Defined, contains}
use rogojin.Leasing.Invariant.Rows.{store_strategy-IsValid}

-- A record of the pool that passes the tests of the loop.
abbrev pub IsCandidate : {X C S : Type 0} → Manager X C S → Assignment → Bool → Model X → Type 0
IsCandidate m a idle p =
    (id : String) × (lookup id m.pool ≡ some p) × (is_candidate a idle p (held_count m id) ≡ true)

pub is_candidate-needs :
    {X : Type 0} (a : Assignment) (idle : Bool) (p : Model X) (held : ℕ)
    → is_candidate a idle p held ≡ true
    → (p.group_id ≡ a.group_id)
      × (p.owner_id ≡ "")
      × (has_room (effective_cap p.core) held ≡ true)
      × ((a.resource_id ≡ "") ⊎ (p.id ≡ a.resource_id))
      × ((idle ≡ false) ⊎ (held ≡ 0))
unfolding is_candidate
is_candidate-needs a idle p held e = ground arith

pub All-listed :
    {V : Type 0} (pool : Map V) (ids : List String)
    → ((j : String) → contains j ids ≡ true → Defined j pool)
    → All (λ id. Defined id pool) ids
unfolding contains
All-listed pool [] h = tt
All-listed pool (i ∷ is) h = (h i (ground arith), All-listed pool is (λ j e. h j (ground arith)))

eligible-All :
    {X : Type 0} (P : Model X → Type 0) (cs : List (Model X)) (acc : Map (Model X)) (k : String)
    (p : Model X)
    → All P cs
    → ((j : String) (q : Model X) → lookup j acc ≡ some q → P q)
    → lookup k (eligible cs acc) ≡ some p
    → P p
unfolding eligible
eligible-All P [] acc k p all base e = base k p e
eligible-All {X} P (c ∷ cs) acc k p all base e =
    eligible-All P cs (insert c.id c acc) k p all.1 inserted e
  where
    inserted : (j : String) (q : Model X) → lookup j (insert c.id c acc) ≡ some q → P q
    inserted j q e' = elim (str_dec c.id j) [
      | yes same ↦ subst P (ground (arith, lookup-insert c.id j c acc)) all.0
      | no ne ↦ base j q (ground (arith, lookup-insert c.id j c acc))
    ]

pooled_here :
    {X C S : Type 0} (env : Env X C S) (m : Manager X C S) (id : String) (p : Model X)
    → lookup id m.pool ≡ some p
    → pooled env m id ≡ p
unfolding pooled
pooled_here env m id p here = ground arith

module _ {X C S : Type 0} (env : Env X C S) (m : Manager X C S) (a : Assignment) (idle : Bool) where
  candidates-All :
      (ids : List String)
      → All (λ id. Defined id m.pool) ids
      → All (IsCandidate m a idle) (candidates env m a idle ids)
  unfolding candidates
  candidates-All [] all = tt
  candidates-All (id ∷ ids) ((p, here), all) =
      elim (Bool-cases (is_candidate a idle p (held_count m id))) [
        | inl fit ↦ rw (pooled_here env m id p here, fit) ((id, here, fit), candidates-All ids all)
        | inr unfit ↦ rw (pooled_here env m id p here, unfit) (candidates-All ids all)
      ]

  -- The pick of the group's strategy is one of the candidates that it was offered.
  validate_pick-candidate :
      (P : Model X → Type 0) (cs : List (Model X)) (r : Result (Model X)) (p : Model X)
      → All P cs
      → validate_pick env cs r ≡ ok (some p)
      → P p
  validate_pick-candidate P cs (err e) p all h = absurd (cc)
  validate_pick-candidate P cs (ok q) p all h = elim (Option-cases (lookup q.id (eligible cs []))) [
    | inl miss ↦ absurd (cc (rw (miss, validate_pick) at h))
    | inr (live, hit) ↦
        eligible-All P cs [] q.id p all (λ j r e. absurd (not-lookup-nil j r e)) (ground arith)
  ]

  choose_among-IsCandidate :
      (P : Model X → Type 0) (cs : List (Model X)) (p : Model X)
      → All P cs
      → (choose_among env m a cs).1 ≡ ok (some p)
      → P p
  unfolding rotate
  choose_among-IsCandidate P [] p all h = absurd (cc)
  choose_among-IsCandidate P (c ∷ cs) p all h = elim (str_dec a.resource_id "") [
    | no pinned ↦ subst P (ground arith) all.0
    | yes free ↦ elim (Option-cases (lookup a.group_id m.strategies)) [
      | inl absent ↦ absurd (ground arith)
      | inr (sel, here) ↦
          validate_pick-candidate P (c ∷ cs) (select env sel (c ∷ cs)).0 p all (ground arith)
    ]
  ]

  -- What selectUnlocked returns is a record of the pool that the assignment may lease.
  pub select_unlocked-IsCandidate :
      (p : Model X)
      → IsValid m
      → (select_unlocked env m a idle).1 ≡ ok (some p)
      → IsCandidate m a idle p
  unfolding select_unlocked
  select_unlocked-IsCandidate p v h =
      choose_among-IsCandidate (IsCandidate m a idle) (candidates env m a idle m.order) p
        (candidates-All m.order (All-listed m.pool m.order listed)) h
    where
      listed : (j : String) → contains j m.order ≡ true → Defined j m.pool
      listed j e = elim (Option-cases (lookup j m.pool)) [
        | inl absent ↦ absurd (cc (v.unlisted j absent))
        | inr there ↦ there
      ]

  -- Nothing but the state of the group's strategy changes.
  pub choose_among-state :
      (cs : List (Model X))
      → (ss : Map (Selection C)) × ((choose_among env m a cs).0 ≡ record m { strategies = ss })
        × (IsValid m → IsValid (record m { strategies = ss }))
  unfolding rotate
  choose_among-state [] = (m.strategies, refl, λ v. v)
  choose_among-state (c ∷ cs) = elim (str_dec a.resource_id "") [
    | no pinned ↦ (m.strategies, ground arith, λ v. v)
    | yes free ↦ elim (Option-cases (lookup a.group_id m.strategies)) [
      | inl absent ↦ (m.strategies, ground arith, λ v. v)
      | inr (sel, here) ↦ (
        insert a.group_id (select env sel (c ∷ cs)).1 m.strategies,
        ground arith,
        λ v. store_strategy-IsValid m v a.group_id (select env sel (c ∷ cs)).1,
      )
    ]
  ]
