-- ===== src/Email/Cursors/Monotone.antt =====
-- email: proofs about the cursor of an inbox in every run of the system.
use rogojin.Prelude.{
  ℕ, ◌≡◌, ◌≢◌, ◌⊎◌, refl, ◌∙◌, String, List, [], ◌∷◌, ite, Bool, true, false, ltb, str_dec,
  Bool-cases, inl, inr, arith,
}
use rogojin.Prelude.Map.{Map}
use rogojin.Email.Types.{Email, Env}
use rogojin.Email.State.{Manager, guard_deletes}
use rogojin.Email.Delivery.{backfill}
use rogojin.Email.Serving.{Pc, Answer, Run, resetting, fanning, storing, go_on, proceed, serve}
use rogojin.Email.System.{
  System, Call, adding, deleting, listening_to, closing_feed, closing_all, guarding, receiving,
  backfilling, serving, step, run, receive,
}
use rogojin.Email.Cursors.Rows.{
  Onward, Onward-refl, add-Onward, delete_email-Onward, advance_cursor-Onward,
}
use rogojin.Email.Cursors.Untouched.{
  fanout-inventory, close-inventory, close_manager-inventory, listen-inventory,
}

-- The goroutine is about to reset its cursor.
abbrev pub is_resetting : Pc → Bool
is_resetting (resetting validity last) = true
is_resetting _ = false

module _ {W E : Type 0} (env : Env W E) (id : String) where
  -- The step deletes the inbox, or is one of a listener of it that is about to reset its cursor.
  abbrev pub rewinds : Call W E → System W E → Bool
  rewinds (deleting j) s = ite (str_dec j id) true false
  rewinds (serving l a) s =
      ite (str_dec (s.manager.lines l).email_id id) (is_resetting (s.runs l).pc) false
  rewinds _ s = false

  abbrev pub NeverRewinds : List (Call W E) → System W E → Type 0
  NeverRewinds [] s = Unit {0}
  NeverRewinds (c ∷ cs) s = (rewinds c s ≡ false) × NeverRewinds cs (step env c s)

  proceed-Onward :
      (l : ℕ) (pc : Pc) (r : Run E) (m : Manager W) (w : W)
      → (is_resetting pc ≡ false) ⊎ ((m.lines l).email_id ≢ id)
      → Onward id m.inventory (proceed env l pc r m w).1.inventory
  unfolding proceed
  proceed-Onward l (resetting validity last) r m w (inl never) = absurd (cc never)
  proceed-Onward l (resetting validity last) r m w (inr other) =
      advance_cursor-Onward env id l validity last true m w (inr other)
  proceed-Onward l (storing validity max_uid) r m w safe =
      advance_cursor-Onward env id l validity max_uid false m w (inl refl)
  proceed-Onward l (fanning validity last msgs) r m w safe =
      Onward-refl id _ _ (fanout-inventory env l msgs m)
  proceed-Onward l _ r m w safe = Onward-refl id _ _ refl

  serve-Onward :
      (l : ℕ) (pc : Pc) (a : Answer E) (r : Run E) (m : Manager W) (w : W)
      → (is_resetting pc ≡ false) ⊎ ((m.lines l).email_id ≢ id)
      → Onward id m.inventory (serve env l pc a r m w).1.inventory
  unfolding serve
  serve-Onward l pc go_on r m w safe = proceed-Onward l pc r m w safe
  serve-Onward l pc _ r m w safe = Onward-refl id _ _ refl

  step-Onward :
      (c : Call W E) (s : System W E)
      → rewinds c s ≡ false
      → Onward id s.manager.inventory (step env c s).manager.inventory
  unfolding step backfill receive guard_deletes
  step-Onward (adding e) s calm = add-Onward env id e s.manager s.world
  step-Onward (deleting j) s calm =
      delete_email-Onward env id j s.manager s.world (λ same. ground (arith, calm, same))
  step-Onward (listening_to task j cfg) s calm =
      Onward-refl id _ _ (listen-inventory E task j cfg s.manager)
  step-Onward (closing_feed i) s calm = Onward-refl id _ _ (close-inventory i s.manager)
  step-Onward closing_all s calm = Onward-refl id _ _ (close_manager-inventory s.manager)
  step-Onward (guarding g) s calm = Onward-refl id _ _ refl
  step-Onward (receiving i) s calm = Onward-refl id _ _ refl
  step-Onward (backfilling i msgs) s calm = Onward-refl id _ _ refl
  step-Onward (serving l a) s calm = elim (Bool-cases (ltb l s.manager.next_line)) [
    | inr never ↦ rw (never, step) (Onward-refl id _ _ refl)
    | inl given ↦
        rw (given, step)
          (serve-Onward l (s.runs l).pc a (s.runs l) s.manager s.world
            (elim (str_dec (s.manager.lines l).email_id id) [
              | yes same ↦ inl (ground (arith, calm, same))
              | no other ↦ inr other
            ]))
  ]

  Onward-trans : (n n' n'' : Map Email) → Onward id n n' → Onward id n' n'' → Onward id n n''
  Onward-trans n n' n'' first later e i held inbox =
      let (e', i', held', inbox', same, up) = first e i held inbox in
      let (e'', i'', held'', inbox'', same', up') = later e' i' held' inbox' in
      (e'', i'', held'', inbox'', same' ∙ same, omega (arith, up, up'))

  -- Over calls, receives, deliveries and listeners' steps in any order, in which the inbox is not
  -- deleted and no listener of it takes a step where it is about to reset its cursor: the inbox
  -- stays, under its address, and its cursor's UID at the end is no less than at the start.
  pub run-Onward :
      (cs : List (Call W E)) (s : System W E)
      → NeverRewinds cs s
      → Onward id s.manager.inventory (run env cs s).manager.inventory
  unfolding run
  run-Onward [] s calm = Onward-refl id _ _ refl
  run-Onward (c ∷ cs) s (now, later) =
      Onward-trans _ _ _ (step-Onward c s now) (run-Onward cs (step env c s) later)
