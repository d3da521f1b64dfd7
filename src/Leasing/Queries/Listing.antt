-- ===== src/Leasing/Queries/Listing.antt =====
-- leasing/manager.go: proofs about List.
use rogojin.Prelude.{
  ◌≡◌, refl, ap, ◌∙◌, String, List, [], ◌∷◌, map, All, inl, inr, Option-cases, true,
}
use rogojin.Prelude.Map.{lookup}
use rogojin.Leasing.Types.{Model}
use rogojin.Leasing.State.{Manager}
use rogojin.Leasing.Queries.{list, pooled_among}
use rogojin.Leasing.Invariant.{IsValid, Defined, contains}
use rogojin.Leasing.Invariant.Candidates.{All-listed}

module _ {X C S : Type 0} (m : Manager X C S) where
  pooled_among-ids :
      (ids : List String)
      → IsValid m
      → All (λ id. Defined id m.pool) ids
      → map (λ (p : Model X). p.id) (pooled_among m.pool ids) ≡ ids
  pooled_among-ids [] v all = refl
  pooled_among-ids (id ∷ ids) v ((p, here), rest) =
      rw (here, pooled_among)
        (ap (λ i. i ∷ map (λ (q : Model X). q.id) (pooled_among m.pool ids))
            (v.pooled id p here).filed
          ∙ ap (λ is. id ∷ is) (pooled_among-ids ids v rest))

  -- On a valid manager, List returns a record for each id of the pool's order, in that order.
  pub list-ids : IsValid m → map (λ (p : Model X). p.id) (list m) ≡ m.order
  unfolding list
  list-ids v = pooled_among-ids m.order v (All-listed m.pool m.order listed)
    where
      listed : (j : String) → contains j m.order ≡ true → Defined j m.pool
      listed j e = elim (Option-cases (lookup j m.pool)) [
        | inl absent ↦ absurd (cc (v.unlisted j absent))
        | inr there ↦ there
      ]
