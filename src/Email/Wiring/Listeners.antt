-- ===== src/Email/Wiring/Listeners.antt =====
-- email: proofs about the tasks that a listener reports.
use rogojin.Prelude.{
  ℕ, ◌≡◌, ◌≢◌, refl, sym, ap, ◌∙◌, String, List, [], ◌∷◌, map, some, true, false, ℕ_discrete,
  str_dec, arith, is_one_of, is_one_of-sort_strings, is_one_of-dedup, dedup-is_one_of, Bool-cases,
  Option-cases, inl, inr,
}
use rogojin.Prelude.Map.{Map, lookup}
use rogojin.Prelude.Handles.{occurs}
use rogojin.Email.State.{Subscription, Manager}
use rogojin.Email.Inventory.{task_ids, listening}
use rogojin.Email.Wiring.{IsWired, attachment}

-- The tasks of a listener are those of the subscriptions that it holds.
task_ids-occurs :
    (is : List ℕ) (feeds : ℕ → Subscription) (j : ℕ)
    → occurs j is ≢ 0
    → is_one_of (feeds j).task_id (task_ids is feeds) ≡ true
unfolding task_ids is_one_of occurs
task_ids-occurs is feeds j there =
    is_one_of-sort_strings (feeds j).task_id _
    ∙ is_one_of-dedup (feeds j).task_id [] _ refl (mapped is there)
  where
    mapped :
        (is : List ℕ)
        → occurs j is ≢ 0
        → is_one_of (feeds j).task_id (map (λ k. (feeds k).task_id) is) ≡ true
    mapped [] there = absurd (there refl)
    mapped (k ∷ is) there = elim (ℕ_discrete k j) [
      | yes same ↦ ground (arith, ap (λ x. (feeds x).task_id) same)
      | no other ↦ ground (arith, other, there, mapped is)
    ]

occurs-task_ids :
    (is : List ℕ) (feeds : ℕ → Subscription) (u : String)
    → is_one_of u (task_ids is feeds) ≡ true
    → (j : ℕ) × (occurs j is ≢ 0) × ((feeds j).task_id ≡ u)
unfolding task_ids is_one_of occurs
occurs-task_ids is feeds u there = mapped is (
    dedup-is_one_of u [] (map (λ k. (feeds k).task_id) is)
      (sym (is_one_of-sort_strings u _) ∙ there))
  where
    mapped :
        (is : List ℕ)
        → is_one_of u (map (λ k. (feeds k).task_id) is) ≡ true
        → (j : ℕ) × (occurs j is ≢ 0) × ((feeds j).task_id ≡ u)
    mapped [] e = absurd (cc e)
    mapped (k ∷ is) e = elim (str_dec u (feeds k).task_id) [
      | yes same ↦ (k, λ none_there. ground (arith, none_there), sym same)
      | no other ↦
          let (j, there, named) = mapped is (ground (arith, other, e)) in
          (j, λ none_there. there (ground (arith, none_there)), named)
    ]

attached_when :
    (listeners : Map ℕ) (l : ℕ) (s : Subscription)
    → attachment listeners l s ≢ 0
    → (s.is_closed ≡ false) × (lookup s.email_id listeners ≡ some l)
attached_when listeners l s some_there = elim (Bool-cases s.is_closed) [
  | inl over ↦ absurd (some_there (rw over refl))
  | inr open_ ↦ elim (Option-cases (lookup s.email_id listeners)) [
    | inl none_there ↦ absurd (some_there (rw (open_, none_there) refl))
    | inr (k, there) ↦ elim (ℕ_discrete k l) [
      | yes same ↦ (open_, rw (← same) there)
      | no other ↦ absurd (some_there (ground (arith, open_, there, other)))
    ]
  ]
]

module _ {W : Type 0} (m : Manager W) (id : String) (l : ℕ) (v : IsWired m)
    (serving : lookup id m.listeners ≡ some l) where
  -- Every open subscription to the inbox has its task among those that listen.
  pub open-listening :
      (j : ℕ)
      → (m.feeds j).is_closed ≡ false
      → (m.feeds j).email_id ≡ id
      → is_one_of (m.feeds j).task_id (listening id m) ≡ true
  unfolding is_one_of
  open-listening j open_ same =
      rw (serving, listening)
        (task_ids-occurs (m.lines l).subs m.feeds j
          (λ e. ground (arith, e, v.linked.attached l j, open_, same, serving)))

  -- A task that listens has an open subscription to the inbox.
  pub listening-open :
      (u : String)
      → is_one_of u (listening id m) ≡ true
      → (j : ℕ) × ((m.feeds j).is_closed ≡ false)
        × ((m.feeds j).email_id ≡ id)
        × ((m.feeds j).task_id ≡ u)
  listening-open u there =
      let (j, held, named) =
        occurs-task_ids (m.lines l).subs m.feeds u (rw (serving, listening) at there) in
      let (open_, line) =
        attached_when m.listeners l (m.feeds j) (λ e. held (v.linked.attached l j ∙ e)) in
      (
        j,
        open_,
        sym (v.linked.registered (m.feeds j).email_id l line).named
            ∙ (v.linked.registered id l serving).named,
        named,
      )
