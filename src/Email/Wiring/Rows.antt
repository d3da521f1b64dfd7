-- ===== src/Email/Wiring/Rows.antt =====
-- email: proofs about the steps that change the inventory: Add, Delete and the cursor's advance.
use rogojin.Prelude.{
  ℕ, ◌≡◌, ◌≢◌, refl, String, List, [], ◌∷◌, Option, none, some, ◌⊎◌, Bool, true, false, inl, inr,
  Option-cases, str_dec, arith, dedup, is_one_of, sort_strings, not-sort_strings-nil,
}
use rogojin.Prelude.Map.{lookup, insert, delete, lookup-insert, lookup-delete}
use rogojin.Email.Types.{Email, Inbox, Env}
use rogojin.Email.State.{Subscription, Manager, owns}
use rogojin.Email.Inventory.{
  check_add, add, task_ids, listening, guarded, delete_guarded, delete_unheard, delete_email,
  install, erased, unloaded,
}
use rogojin.Email.Serving.{owned_inbox, moved, advance_cursor, store_cursor}
use rogojin.Email.Wiring.{IsWired, inventory-IsWired}

not-task_ids-nil : (is : List ℕ) (feeds : ℕ → Subscription) → is ≢ [] → task_ids is feeds ≢ []
unfolding task_ids dedup is_one_of
not-task_ids-nil [] feeds more e = more refl
not-task_ids-nil (i ∷ is) feeds more e = not-sort_strings-nil (feeds i).task_id _ e

-- An owned inbox is the one of a listener's email.
pub owned_inbox-cases :
    (o : Option Email) (own : Bool)
    → (owned_inbox o own ≡ none)
      ⊎ ((e : Email) × (i : Inbox) × (owned_inbox o own ≡ some (e, i))
          × (o ≡ some e)
          × (own ≡ true)
          × (e.inbox ≡ some i))
owned_inbox-cases none own = inl refl
owned_inbox-cases (some e) false = inl refl
owned_inbox-cases (some e) true = elim (Option-cases e.inbox) [
  | inl address_only ↦ inl (rw address_only refl)
  | inr (i, inbox) ↦ inr (e, i, simp inbox refl, refl, refl, inbox)
]

module _ {W : Type 0} where
  pub not-listening-nil :
      (m : Manager W) (id : String) (l : ℕ)
      → lookup id m.listeners ≡ some l
      → IsWired m
      → listening id m ≢ []
  not-listening-nil m id l serving v =
      rw (serving, listening) (not-task_ids-nil (m.lines l).subs m.feeds (v.busy id l serving))

  insert-IsWired :
      (m : Manager W) (id : String) (e : Email)
      → e.id ≡ id
      → IsWired m
      → IsWired (record m { inventory = insert id e m.inventory })
  insert-IsWired m id e named v =
      inventory-IsWired m (insert id e m.inventory)
        (λ j l serving. known j ((v.linked.registered j l serving).known))
        (λ j e' held.
          ground (arith, held, named, lookup-insert id j e m.inventory, v.linked.keyed j e'))
        v
    where
      known :
          (j : String)
          → (e' : Email) × (lookup j m.inventory ≡ some e')
          → (e' : Email) × (lookup j (insert id e m.inventory) ≡ some e')
      known j (e', held) = elim (str_dec id j) [
        | yes same ↦ (e, ground (arith, lookup-insert id j e m.inventory))
        | no other ↦ (e', ground (arith, held, lookup-insert id j e m.inventory))
      ]

  delete-IsWired :
      (m : Manager W) (id : String)
      → lookup id m.listeners ≡ none
      → IsWired m
      → IsWired (record m { inventory = delete id m.inventory })
  delete-IsWired m id idle v =
      inventory-IsWired m (delete id m.inventory)
        (λ j l serving.
          let (e, held) = (v.linked.registered j l serving).known in
          (e, ground (arith, serving, idle, held, lookup-delete id j m.inventory)))
        (λ j e held. v.linked.keyed j e (ground (arith, held, lookup-delete id j m.inventory))) v

module _ {W E : Type 0} (env : Env W E) where
  pub add-IsWired : (e : Email) (m : Manager W) (w : W) → IsWired m → IsWired (add env e m w).1
  unfolding add
  add-IsWired e m w v = elim (Option-cases (check_add {E = E} e m)) [
    | inr (x, refused) ↦ rw (refused, add) v
    | inl fine ↦
        rw (fine, add)
          (installed
            (env.repo.save (record e { created_at = env.now w; updated_at = env.now w }) w))
  ]
    where
      installed :
          (saved : Option E × W)
          → IsWired
              (install (record e { created_at = env.now w; updated_at = env.now w }) m saved).1
      installed (some x, w') = v
      installed (none, w') = insert-IsWired m e.id _ refl v

  pub delete_email-IsWired :
      (id : String) (m : Manager W) (w : W) → IsWired m → IsWired (delete_email env id m w).1
  unfolding delete_email
  delete_email-IsWired id m w v = elim (Option-cases (lookup id m.inventory)) [
    | inl unknown ↦ rw (unknown, delete_email) (same (env.repo.delete_row id w))
    | inr (e, held) ↦ rw (held, delete_email) (unheard (listening id m) refl)
  ]
    where
      same : (r : Option E × W) → IsWired (unloaded m r).1
      same (some x, w') = v
      same (none, w') = v

      gone :
          listening id m ≡ []
          → (stranded : List String) (r : Option E × W) → IsWired (erased id stranded m r).1
      gone quiet stranded (some x, w') = v
      gone quiet stranded (none, w') = elim (Option-cases (lookup id m.listeners)) [
        | inl idle ↦ delete-IsWired m id idle v
        | inr (l, serving) ↦ absurd (not-listening-nil m id l serving v quiet)
      ]

      held_by :
          listening id m ≡ []
          → (g : List String × List String) → IsWired (delete_guarded env id g m w).1
      held_by quiet ([], locked) = gone quiet (sort_strings locked) (env.repo.delete_row id w)
      held_by quiet (t ∷ ts, locked) = v

      unheard : (ts : List String) → listening id m ≡ ts → IsWired (delete_unheard env id ts m w).1
      unheard [] quiet = held_by quiet (guarded id m w)
      unheard (t ∷ ts) e = v

  pub advance_cursor-IsWired :
      (l validity uid : ℕ) (reset : Bool) (m : Manager W) (w : W)
      → IsWired m
      → IsWired (advance_cursor env l validity uid reset m w).1
  unfolding advance_cursor
  advance_cursor-IsWired l validity uid reset m w v =
      elim (owned_inbox-cases (lookup (m.lines l).email_id m.inventory) (owns l m)) [
        | inl lost ↦ rw (lost, advance_cursor) v
        | inr (e, i, here, held, own, inbox) ↦
            rw (here, advance_cursor)
              (stored
                (record e { inbox = some (moved validity uid reset i); updated_at = env.now w })
                (v.linked.keyed (m.lines l).email_id e held) _)
      ]
    where
      stored :
          (e : Email)
          → e.id ≡ (m.lines l).email_id
          → (r : Option E × W) → IsWired (store_cursor (m.lines l).email_id e m r).1
      stored e named (some x, w') = v
      stored e named (none, w') = insert-IsWired m (m.lines l).email_id e named v
