-- ===== src/Leasing/Invariant/Bindings.antt =====
-- The invariant when one pooled record is rewritten, with or without its durable lock.
use rogojin.Prelude.{
  ℕ, ◌≡◌, ◌≢◌, refl, sym, ◌∙◌, String, none, some, str_dec, arith, ◌⊎◌, inl, inr, subst,
}
use rogojin.Prelude.Map.{Map, lookup, insert, delete, lookup-insert, lookup-delete}
use rogojin.Leasing.Types.{Model}
use rogojin.Leasing.State.{Manager, effective_cap, total, holders_of}
use rogojin.Leasing.State.Holds.{count-le-total}
use rogojin.Leasing.Acquire.{bind, owned_by}
use rogojin.Leasing.Locks.{unbind, unowned}
use rogojin.Leasing.Invariant.{IsPooled, IsLeasable, IsValid}

module _ {X C S : Type 0} (m : Manager X C S) (v : IsValid m) (id : String) (p q : Model X)
    (bs : Map String) (here : lookup id m.pool ≡ some p) where
  -- The new record keeps its id, group and cap, and the bindings are the owners of the new pool.
  pub rewrite-IsValid :
      q.id ≡ p.id
      → q.group_id ≡ p.group_id
      → q.max_holders ≡ p.max_holders
      → (q.owner_id ≢ "" → lookup q.owner_id bs ≡ some id)
      → ((j : String) (r : Model X)
          → id ≢ j
          → lookup j m.pool ≡ some r
          → r.owner_id ≢ ""
          → lookup r.owner_id bs ≡ some j)
      → ((t j : String)
          → lookup t bs ≡ some j
          → ((id ≡ j) × (q.owner_id ≡ t) × (t ≢ "")) ⊎ ((id ≢ j) × (lookup t m.bindings ≡ some j)))
      → IsLeasable q (holders_of id m.holders)
      → IsValid (record m { pool = insert id q m.pool; bindings = bs })
  rewrite-IsValid same_id same_group same_cap owned others back leasable = record {
    global = v.global;
    named = v.named;
    running = v.running;
    pooled = λ j r e. elim (str_dec id j) [
      | yes same ↦
          rw (← same, ← at_id j r e same)
            (record {
              filed = same_id ∙ old.filed;
              grouped = rw same_group old.grouped;
              policy = rw same_cap old.policy;
              owned = owned;
            })
      | no ne ↦
          let w = v.pooled j r (away j r e ne) in
          record {
            filed = w.filed;
            grouped = w.grouped;
            policy = w.policy;
            owned = others j r ne (away j r e ne);
          }
    ];
    bound = λ t j e. elim (back t j e) [
      | inl (same, own, named) ↦ (q, ground (arith, lookup-insert id j q m.pool), own, named)
      | inr (ne, e') ↦
          let (r, there, own, named) = v.bound t j e' in
          (r, ground (arith, lookup-insert id j q m.pool), own, named)
    ];
    listed = λ j r e. elim (str_dec id j) [
      | yes same ↦ rw (← same) (v.listed id p here)
      | no ne ↦ v.listed j r (away j r e ne)
    ];
    unlisted = λ j e. v.unlisted j (ground (arith, lookup-insert id j q m.pool));
    distinct = v.distinct;
    leasable = λ j r e. elim (str_dec id j) [
      | yes same ↦ rw (← same, ← at_id j r e same) leasable
      | no ne ↦ v.leasable j r (away j r e ne)
    ];
    unheld = λ j e. v.unheld j (ground (arith, lookup-insert id j q m.pool));
  }
    where
      old : IsPooled id m.groups m.bindings p
      old = v.pooled id p here

      at_id : (j : String) (r : Model X) → lookup j (insert id q m.pool) ≡ some r → id ≡ j → q ≡ r
      at_id j r e same = ground (arith, lookup-insert id j q m.pool)

      away :
          (j : String) (r : Model X)
          → lookup j (insert id q m.pool) ≡ some r
          → id ≢ j
          → lookup j m.pool ≡ some r
      away j r e ne = ground (arith, lookup-insert id j q m.pool)

module _ {X C S : Type 0} (m : Manager X C S) (v : IsValid m) (id : String) (p : Model X)
    (here : lookup id m.pool ≡ some p) where
  -- A binding and the owner it names are removed together.
  pub unbind-IsValid :
      (now : ℕ) (t : String)
      → lookup t m.bindings ≡ some id
      → IsValid (unbind t id (unowned now p) m)
  unfolding effective_cap
  unbind-IsValid now t e =
      rewrite-IsValid m v id p (unowned now p) (delete t m.bindings) here refl refl refl
        (λ locked. absurd (locked refl))
        (λ j r ne there locked.
          ground (arith, lookup-delete t r.owner_id m.bindings, (v.pooled j r there).owned locked))
        (λ u j e'. inr (back u j e'))
        (record {
          capacity = (v.leasable id p here).capacity;
          exclusive = λ locked. absurd (locked refl);
          owners = λ locked. absurd (locked refl);
        })
    where
      back :
          (u j : String)
          → lookup u (delete t m.bindings) ≡ some j
          → (id ≢ j) × (lookup u m.bindings ≡ some j)
      back u j e' = ground (arith, lookup-delete t u m.bindings, v.bound t id e, v.bound u j)

  -- A task without a lock binds an idle record that nobody owns.
  pub bind-IsValid :
      (now : ℕ) (t : String)
      → t ≢ ""
      → lookup t m.bindings ≡ none
      → p.owner_id ≡ ""
      → total (holders_of id m.holders) ≡ 0
      → IsValid (bind (owned_by now t p) t m)
  unfolding effective_cap
  bind-IsValid now t named fresh free idle =
      subst
        (λ k. IsValid (record m {
          pool = insert k (owned_by now t p) m.pool;
          bindings = insert t k m.bindings;
        }))
        (sym filed)
        (rewrite-IsValid m v id p (owned_by now t p) (insert t id m.bindings) here refl refl refl
          (λ _. ground (arith, lookup-insert t t id m.bindings))
          (λ j r ne there locked.
            ground
              (arith, lookup-insert t r.owner_id id m.bindings, (v.pooled j r there).owned locked))
          back
          (record {
            capacity = (v.leasable id p here).capacity;
            exclusive = λ _. omega arith;
            owners = λ _ u _. omega (arith, count-le-total u (holders_of id m.holders));
          }))
    where
      filed : p.id ≡ id
      filed = (v.pooled id p here).filed

      back :
          (u j : String)
          → lookup u (insert t id m.bindings) ≡ some j
          → ((id ≡ j) × (t ≡ u) × (u ≢ "")) ⊎ ((id ≢ j) × (lookup u m.bindings ≡ some j))
      back u j e = elim (str_dec t u) [
        | yes same ↦ inl (ground (arith, lookup-insert t u id m.bindings), same, rw (← same) named)
        | no ne ↦ inr (
          ground (arith, lookup-insert t u id m.bindings, v.bound u j),
          ground (arith, lookup-insert t u id m.bindings),
        )
      ]

  -- The model's own fields and the time of the update may change at will.
  pub own-IsValid :
      (q : Model X)
      → q.id ≡ p.id
      → q.group_id ≡ p.group_id
      → q.max_holders ≡ p.max_holders
      → q.owner_id ≡ p.owner_id
      → IsValid (record m { pool = insert id q m.pool })
  unfolding effective_cap
  own-IsValid q same_id same_group same_cap same_owner =
      rewrite-IsValid m v id p q m.bindings here same_id same_group same_cap
        (λ locked. rw same_owner ((v.pooled id p here).owned (λ e. locked (same_owner ∙ e))))
        (λ j r _ there. (v.pooled j r there).owned) back
        (record {
          capacity = rw same_cap (v.leasable id p here).capacity;
          exclusive = λ locked. (v.leasable id p here).exclusive (λ e. locked (same_owner ∙ e));
          owners = λ locked u other.
              (v.leasable id p here).owners (λ e. locked (same_owner ∙ e)) u
                (λ e. other (e ∙ sym same_owner));
        })
    where
      back :
          (u j : String)
          → lookup u m.bindings ≡ some j
          → ((id ≡ j) × (q.owner_id ≡ u) × (u ≢ "")) ⊎ ((id ≢ j) × (lookup u m.bindings ≡ some j))
      back u j e = elim (str_dec id j) [
        | yes same ↦ let (r, there, own, named) = v.bound u j e in inl (same, ground arith, named)
        | no ne ↦ inr (ne, e)
      ]
