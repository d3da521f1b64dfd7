-- ===== src/Email/Cursors/Rows.antt =====
-- email: proofs about what the steps that change the inventory do to the cursor of an inbox.
use rogojin.Prelude.{
  ℕ, ◌≤◌, ◌≡◌, ◌≢◌, ◌⊎◌, refl, sym, ap, ◌∙◌, String, List, [], ◌∷◌, Option, none, some, Bool, false,
  str_dec, Option-cases, List-cases, inl, inr, arith,
}
use rogojin.Prelude.Map.{Map, lookup, insert, delete, lookup-insert, lookup-delete}
use rogojin.Email.Types.{Email, Inbox, Env}
use rogojin.Email.State.{Manager, owns}
use rogojin.Email.Inventory.{
  check_add, add, install, listening, guarded, erased, delete_guarded, delete_email, unloaded,
}
use rogojin.Email.Serving.{moved, advance_cursor, store_cursor}
use rogojin.Email.Wiring.Rows.{owned_inbox-cases}

-- The inbox of this id is still there under its address, and its cursor has not moved back.
abbrev pub Onward : String → Map Email → Map Email → Type 0
Onward id n n' =
    (e : Email) (i : Inbox)
    → lookup id n ≡ some e
    → e.inbox ≡ some i
    → (e' : Email) × (i' : Inbox) × (lookup id n' ≡ some e')
      × (e'.inbox ≡ some i')
      × (e'.address ≡ e.address)
      × (i.last_uid ≤ i'.last_uid)

pub Onward-refl : (id : String) (n n' : Map Email) → n' ≡ n → Onward id n n'
Onward-refl id n n' same e i held inbox = (e, i, rw same held, inbox, refl, omega arith)

insert-Onward : (id j : String) (e' : Email) (n : Map Email) → j ≢ id → Onward id n (insert j e' n)
insert-Onward id j e' n other e i held inbox =
    (e, i, ground (arith, lookup-insert j id e' n, other, held), inbox, refl, omega arith)

delete-Onward : (id j : String) (n : Map Email) → j ≢ id → Onward id n (delete j n)
delete-Onward id j n other e i held inbox =
    (e, i, ground (arith, lookup-delete j id n, other, held), inbox, refl, omega arith)

some-inj : {A : Type 0} {x y : A} → some x ≡ some y → x ≡ y
some-inj {x = x} e = ap (λ o. elim o [ none ↦ x | some z ↦ z ]) e

moved-onward : (validity uid : ℕ) (i : Inbox) → i.last_uid ≤ (moved validity uid false i).last_uid
unfolding moved
moved-onward validity uid i = ground arith

module _ {W E : Type 0} (env : Env W E) (id : String) where
  check_add-new :
      (e : Email) (m : Manager W) → check_add {E = E} e m ≡ none → lookup e.id m.inventory ≡ none
  unfolding check_add
  check_add-new e m fine = elim (Option-cases (lookup e.id m.inventory)) [
    | inl new ↦ new
    | inr (dup, there) ↦ absurd (ground (arith, fine, there))
  ]

  pub add-Onward :
      (e : Email) (m : Manager W) (w : W) → Onward id m.inventory (add env e m w).1.inventory
  unfolding add
  add-Onward e m w = elim (Option-cases (check_add {E = E} e m)) [
    | inr (x, refused) ↦ rw (refused, add) (Onward-refl id _ _ refl)
    | inl fine ↦ rw (fine, add) (put fine (env.repo.save _ w))
  ]
    where
      put :
          check_add {E = E} e m ≡ none
          → (r : Option E × W)
          → Onward id m.inventory
              (install
                (record e { created_at = env.now w; updated_at = env.now w })
                m
                r).1.inventory
      put fine (some x, w') = Onward-refl id _ _ refl
      put fine (none, w') = elim (str_dec e.id id) [
        | no other ↦ insert-Onward id _ _ m.inventory other
        | yes same ↦ λ e0 i0 held0 inbox0. absurd (cc (held0, same, check_add-new e m fine))
      ]

  pub delete_email-Onward :
      (j : String) (m : Manager W) (w : W)
      → j ≢ id
      → Onward id m.inventory (delete_email env j m w).1.inventory
  unfolding delete_email
  delete_email-Onward j m w other = elim (Option-cases (lookup j m.inventory)) [
    | inl missing ↦ rw (missing, delete_email) (dropped (env.repo.delete_row j w))
    | inr (e, there) ↦ elim (List-cases (listening j m)) [
      | inr (t, ts, heard) ↦ rw (there, delete_email, heard) (Onward-refl id _ _ refl)
      | inl unheard ↦ rw (there, delete_email, unheard) (refused (guarded j m w))
    ]
  ]
    where
      dropped : (r : Option E × W) → Onward id m.inventory (unloaded m r).1.inventory
      dropped (some x, w') = Onward-refl id _ _ refl
      dropped (none, w') = Onward-refl id _ _ refl

      gone :
          (ts : List String) (r : Option E × W)
          → Onward id m.inventory (erased j ts m r).1.inventory
      gone ts (some x, w') = Onward-refl id _ _ refl
      gone ts (none, w') = delete-Onward id j m.inventory other

      refused :
          (r : List String × List String)
          → Onward id m.inventory (delete_guarded env j r m w).1.inventory
      refused (t ∷ ts, locked) = Onward-refl id _ _ refl
      refused ([], locked) = gone _ (env.repo.delete_row j w)

  pub advance_cursor-Onward :
      (l validity uid : ℕ) (reset : Bool) (m : Manager W) (w : W)
      → (reset ≡ false) ⊎ ((m.lines l).email_id ≢ id)
      → Onward id m.inventory (advance_cursor env l validity uid reset m w).1.inventory
  unfolding advance_cursor
  advance_cursor-Onward l validity uid reset m w safe =
      elim (owned_inbox-cases (lookup (m.lines l).email_id m.inventory) (owns l m)) [
        | inl lost ↦ rw (lost, advance_cursor) (Onward-refl id _ _ refl)
        | inr (e, i, here, held, own, inbox) ↦
            rw (here, advance_cursor) (put e i held inbox (env.repo.save _ w))
      ]
    where
      onward :
          (e : Email) (i : Inbox)
          → lookup (m.lines l).email_id m.inventory ≡ some e
          → e.inbox ≡ some i
          → (m.lines l).email_id ≡ id
          → (reset ≡ false) ⊎ ((m.lines l).email_id ≢ id)
          → Onward id m.inventory (
              insert
                (m.lines l).email_id
                (record e { inbox = some (moved validity uid reset i); updated_at = env.now w })
                m.inventory)
      onward e i held inbox same (inr other) e0 i0 held0 inbox0 = absurd (other same)
      onward e i held inbox same (inl kept) e0 i0 held0 inbox0 =
          let one : e ≡ e0 = some-inj (sym held ∙ rw same held0) in
          let cursor : i ≡ i0 = some-inj (sym inbox ∙ rw one inbox0) in
          let e' : Email = record e {
            inbox = some (moved validity uid reset i);
            updated_at = env.now w;
          } in
          (
            e',
            moved validity uid reset i,
            ground (arith, same, lookup-insert (m.lines l).email_id id e' m.inventory),
            refl,
            ap (λ (x : Email). x.address) one,
            rw (kept, ← cursor) (moved-onward validity uid i),
          )

      put :
          (e : Email) (i : Inbox)
          → lookup (m.lines l).email_id m.inventory ≡ some e
          → e.inbox ≡ some i
          → (r : Option E × W)
          → Onward id m.inventory
              (store_cursor {E = E}
                (m.lines l).email_id
                (record e { inbox = some (moved validity uid reset i); updated_at = env.now w })
                m
                r).1.inventory
      put e i held inbox (some x, w') = Onward-refl id _ _ refl
      put e i held inbox (none, w') = elim (str_dec (m.lines l).email_id id) [
        | no other ↦ insert-Onward id _ _ m.inventory other
        | yes same ↦ λ e0 i0 held0 inbox0. onward e i held inbox same safe e0 i0 held0 inbox0
      ]
