-- ===== src/Email/Cursors/Untouched.antt =====
-- email: proofs that the other steps leave the inventory as it is.
use rogojin.Prelude.{
  ℕ, ◌≡◌, refl, ◌∙◌, String, List, [], ◌∷◌, Option, none, some, str_dec, ite-both, Bool-cases,
  Option-cases, inl, inr,
}
use rogojin.Prelude.Map.{lookup}
use rogojin.Email.Types.{Email, Inbox, Env, Message, Result}
use rogojin.Email.State.{Manager, owns}
use rogojin.Email.Listening.{
  ListenConfig, listen, listen_inbox, line_for, attach, establish, buffer_of, leave, detach, close,
  close_line, close_lines, close_manager, shut,
}
use rogojin.Email.Delivery.{fanout}

module _ {W E : Type 0} (env : Env W E) where
  pub fanout-inventory :
      (l : ℕ) (msgs : List Message) (m : Manager W)
      → (fanout env l msgs m).2.inventory ≡ m.inventory
  unfolding fanout
  fanout-inventory l msgs m = elim (Bool-cases (owns l m)) [
    | inl own ↦ rw own refl
    | inr lost ↦ rw lost refl
  ]

module _ {W : Type 0} where
  leave-inventory :
      (id : String) (l : ℕ) (subs : List ℕ) (m : Manager W)
      → (leave id l subs m).inventory ≡ m.inventory
  unfolding leave
  leave-inventory id l [] m = refl
  leave-inventory id l (i ∷ is) m = refl

  detach-inventory : (i : ℕ) (m : Manager W) → (detach i m).inventory ≡ m.inventory
  unfolding detach
  detach-inventory i m = elim (Option-cases (lookup (m.feeds i).email_id m.listeners)) [
    | inl gone ↦ rw (gone, detach) refl
    | inr (l, here) ↦ rw (here, detach) (leave-inventory (m.feeds i).email_id l _ m)
  ]

  pub close-inventory : (i : ℕ) (m : Manager W) → (close i m).inventory ≡ m.inventory
  unfolding close
  close-inventory i m = detach-inventory i m

  close_lines-inventory :
      (ids : List String) (m : Manager W) → (close_lines ids m).inventory ≡ m.inventory
  unfolding close_lines close_line
  close_lines-inventory [] m = refl
  close_lines-inventory (id ∷ ids) m = elim (Option-cases (lookup id m.listeners)) [
    | inl gone ↦ rw (gone, close_lines) (close_lines-inventory ids m)
    | inr (l, here) ↦ rw (here, close_lines) (close_lines-inventory ids (close_line id l m))
  ]

  pub close_manager-inventory : (m : Manager W) → (close_manager m).inventory ≡ m.inventory
  unfolding close_manager
  close_manager-inventory m =
      close_lines-inventory _ (shut m)
      ∙ elim (Bool-cases m.is_closed) [ inl over ↦ rw over refl | inr open_ ↦ rw open_ refl ]

  pub listen-inventory :
      (E : Type 0) (task id : String) (cfg : ListenConfig) (m : Manager W)
      → (listen {E = E} task id cfg m).1.inventory ≡ m.inventory
  unfolding listen line_for attach establish
  listen-inventory E task id cfg m =
      ite-both (λ (r : Result E ℕ × Manager W). r.1.inventory ≡ m.inventory) (str_dec task "") _ _
        refl
        (elim (Option-cases (buffer_of cfg.buffer)) [
          | inl small ↦ rw small refl
          | inr (n, sized) ↦ elim (Bool-cases m.is_closed) [
            | inl over ↦ simp (sized, over) refl
            | inr open_ ↦ elim (Option-cases (lookup id m.inventory)) [
              | inl unknown ↦ rw (sized, open_, unknown) refl
              | inr (e, held) ↦ rw (sized, open_, held) (inbox n e e.inbox)
            ]
          ]
        ])
    where
      inbox :
          (n : ℕ) (e : Email) (i : Option Inbox)
          → (listen_inbox {E = E} task id cfg.from n e i m).1.inventory ≡ m.inventory
      inbox n e none = refl
      inbox n e (some i) = elim (Option-cases (lookup id m.listeners)) [
        | inr (l, live) ↦ rw (live, line_for) refl
        | inl idle ↦ rw (idle, line_for) refl
      ]
