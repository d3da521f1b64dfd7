-- ===== src/Accounts/Forwarding.antt =====
-- accounts/manager.go with email/manager.go: proofs about Delete of an inbox that accounts forward
-- to.
use rogojin.Prelude.{
  ℕ, ◌≡◌, ◌≢◌, ◌⊎◌, refl, sym, ap, ◌∙◌, String, List, [], ◌∷◌, Option, none, some, true, is_one_of,
  sort_strings, is_one_of-sort_strings, List-cases, inl, inr,
}
use rogojin.Prelude.Map.{Map, lookup}
use rogojin.Leasing.Types.{Env, Result, ok, err}
use rogojin.Leasing.Load.{new_manager as load_manager}
use rogojin.Leasing.State.{Manager, group_of}
use rogojin.Email.Types.{
  Env as Services, Email, Error, err as refusal, ok as deleted, Result as Outcome, listened_to,
  forwarding_held,
}
use rogojin.Email.Inventory.{delete_email, delete_guarded, listening, guarded, erased}
use rogojin.Email.State.{guard_deletes, Manager as Mailboxes}
use rogojin.Accounts.{
  Own, Account, Config, forwarding_email, delete_guard, new_manager, configure, finish_new,
}
use rogojin.Accounts.Guarding.{delete_guard-held, delete_guard-locked}

-- The email manager after a NewManager that succeeded has the accounts' guard.
new_manager-guard :
    {C S W : Type 0} (env : Env Own C S) (now : ℕ) (current : W → Manager Own C S)
    (opts : List (Config W → Config W)) (s : S) (am : Manager Own C S) (em : Mailboxes W)
    → new_manager env now current opts s ≡ (ok am, some em)
    → em.guard ≡ some (λ e w. delete_guard (current w) e)
unfolding new_manager guard_deletes
new_manager-guard {C} {S} {W} env now current opts s am em built =
    sym (go (configure opts none) (load_manager env now [] s) built)
  where
    go :
        (cfg : Config W) (r : Result (Manager Own C S))
        → finish_new env now current cfg r ≡ (ok am, some em)
        → some (λ e w. delete_guard (current w) e) ≡ em.guard
    go cfg (err x) e = absurd (cc e)
    go none (ok m) e = absurd (cc e)
    go (some em0) (ok m) e =
        ap
          (λ (r : Result (Manager Own C S) × Config W). elim r.1 [ none ↦ none | some z ↦ z.guard ])
          e

module _ {W E : Type 0} (services : Services W E) (m : Mailboxes W) (w : W) (e : String) where
  delete_guarded-held :
      (r : List String × List String) (u : String) (us : List String)
      → r.0 ≡ u ∷ us
      → delete_guarded services e r m w ≡ (refusal (forwarding_held e (sort_strings r.0)), m, w)
  delete_guarded-held (x ∷ xs, locked) u us some_held = refl
  delete_guarded-held ([], locked) u us none_held = absurd (cc none_held)

  delete_guarded-idle :
      (r : List String × List String)
      → r.0 ≡ []
      → delete_guarded services e r m w
        ≡ erased e (sort_strings r.1) m (services.repo.delete_row e w)
  delete_guarded-idle ([], locked) idle = refl
  delete_guarded-idle (x ∷ xs, locked) idle = absurd (cc idle)

-- The refusals of Delete: the tasks that listen to the inbox, or the holders of accounts that
-- forward to it, with the task among them.
abbrev pub Refused : {E : Type 0} → String → String → Error E → Type 0
Refused e t x =
    ((ts : List String) × (x ≡ listened_to e ts))
    ⊎ ((ts : List String) × (x ≡ forwarding_held e ts) × (is_one_of t ts ≡ true))

-- An answer of Delete that names the task among the stranded, or a failure that changes nothing.
abbrev pub Reported :
    {W E : Type 0} → Mailboxes W → String → Outcome E (List String) × Mailboxes W × W → Type 0
Reported m t (deleted ts, m', w) = is_one_of t ts ≡ true
Reported m t (refusal x, m', w) = m' ≡ m

module _ {C S W E : Type 0} (env : Env Own C S) (now : ℕ) (current : W → Manager Own C S)
    (opts : List (Config W → Config W)) (s : S) (am : Manager Own C S) (em : Mailboxes W)
    (built : new_manager env now current opts s ≡ (ok am, some em)) (services : Services W E)
    (em' : Mailboxes W) (same : em'.guard ≡ em.guard) (w : W) (e t id : String) (p : Account)
    (named : e ≢ "") (here : lookup id (current w).pool ≡ some p)
    (forwards : forwarding_email p (group_of p.group_id (current w).groups) ≡ e) (box : Email)
    (stored : lookup e em'.inventory ≡ some box) where
  guarded-report : guarded e em' w ≡ delete_guard (current w) e
  guarded-report = rw (same ∙ new_manager-guard env now current opts s am em built) refl

  -- While the email manager has the guard that a successful NewManager of the accounts handed to
  -- it: Delete of a loaded inbox with a nonempty id is refused, and changes nothing, if a task has a
  -- live lease on a pooled account that forwards to the inbox by its own field or by its group's
  -- ref. Either tasks listen to the inbox and the refusal says so, or it names the holders, this
  -- task among them.
  pub delete_email-Refused :
      (hs : Map ℕ) (n : ℕ)
      → lookup id (current w).holders ≡ some hs
      → lookup t hs ≡ some n
      → (x : Error E) × Refused e t x × (delete_email services e em' w ≡ (refusal x, em', w))
  unfolding delete_email is_one_of
  delete_email-Refused hs n leased by = elim (List-cases (listening e em')) [
    | inr (u, us, heard) ↦
        (listened_to e (u ∷ us), inl (u ∷ us, refl), rw (stored, delete_email, heard) refl)
    | inl unheard ↦ elim (List-cases (delete_guard (current w) e).0) [
      | inl nobody ↦ absurd (cc (nobody, reported))
      | inr (u, us, holders) ↦ (
        forwarding_held e (sort_strings (delete_guard (current w) e).0),
        inr (_, refl, is_one_of-sort_strings t _ ∙ reported),
        rw (stored, delete_email, unheard, guarded-report)
            (delete_guarded-held services em' w e (delete_guard (current w) e) u us holders),
      )
    ]
  ]
    where
      reported : is_one_of t (delete_guard (current w) e).0 ≡ true
      reported = delete_guard-held (current w) e t id p named here forwards hs n leased by

  -- While the email manager has the guard that a successful NewManager of the accounts handed to
  -- it: if a task has a durable lock on a pooled account that forwards to a loaded inbox with a
  -- nonempty id, then Delete of the inbox names the task among the stranded when it succeeds, and
  -- leaves the manager as it was when it fails.
  pub delete_email-Reported :
      lookup t (current w).bindings ≡ some id → Reported em' t (delete_email services e em' w)
  unfolding delete_email
  delete_email-Reported bound = elim (List-cases (listening e em')) [
    | inr (u, us, heard) ↦ rw (stored, delete_email, heard) refl
    | inl unheard ↦ elim (List-cases (delete_guard (current w) e).0) [
      | inr (u, us, holders) ↦
          rw
            (
              stored,
              delete_email,
              unheard,
              guarded-report,
              delete_guarded-held services em' w e (delete_guard (current w) e) u us holders,
            )
            refl
      | inl nobody ↦
          rw
            (
              stored,
              delete_email,
              unheard,
              guarded-report,
              delete_guarded-idle services em' w e (delete_guard (current w) e) nobody,
            )
            (answered (services.repo.delete_row e w))
    ]
  ]
    where
      answered :
          (r : Option E × W)
          → Reported em' t (erased e (sort_strings (delete_guard (current w) e).1) em' r)
      answered (some x, w') = refl
      answered (none, w') =
          is_one_of-sort_strings t _
          ∙ delete_guard-locked (current w) e t id p named here forwards bound
