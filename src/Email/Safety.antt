-- ===== src/Email/Safety.antt =====
-- email: proofs about every state that calls, deliveries and listeners' steps lead to.
use rogojin.Prelude.{
  ℕ, ◌≡◌, refl, ap, subst, String, List, [], ◌∷◌, Option, none, some, true, false, Bool-cases, inl,
  inr, List-cases, Option-cases, arith, ltb, is_one_of,
}
use rogojin.Prelude.Map.{Map, lookup, insert, lookup-insert}
use rogojin.Prelude.Handles.{occurs}
use rogojin.Prelude.Channels.{make_chan}
use rogojin.Email.Types.{Email, Env, Repository, Result, ok, err, listened_to}
use rogojin.Email.State.{Manager}
use rogojin.Email.Inventory.{
  load, new_manager, listening, delete_email, fresh_manager, loaded, listing, repository_of,
}
use rogojin.Email.Serving.{
  Pc, Answer, Run, proceed, serve, new_run, resetting, fanning, storing, go_on,
}
use rogojin.Email.System.{
  System, Call, adding, deleting, listening_to, closing_feed, closing_all, guarding, receiving,
  backfilling, serving, step, run,
}
use rogojin.Email.Wiring.{IsWired, guard-IsWired}
use rogojin.Email.Wiring.Feeds.{fanout-IsWired, backfill-IsWired, receive-IsWired}
use rogojin.Email.Wiring.Lines.{listen-IsWired}
use rogojin.Email.Wiring.Closing.{close-IsWired}
use rogojin.Email.Wiring.Shutdown.{close_manager-IsWired}
use rogojin.Email.Wiring.Listeners.{open-listening, listening-open}
use rogojin.Email.Wiring.Rows.{
  add-IsWired, delete_email-IsWired, advance_cursor-IsWired, not-listening-nil,
}

-- Every loaded email stands under its own id.
abbrev IsKeyed : Map Email → Type 0
IsKeyed inventory = (id : String) (e : Email) → lookup id inventory ≡ some e → e.id ≡ id

load-IsKeyed :
    (E : Type 0) (es : List Email) (m m' : Map Email)
    → IsKeyed m
    → load {E = E} es m ≡ ok m'
    → IsKeyed m'
unfolding load
load-IsKeyed E [] m m' keyed e = λ id x held. keyed id x (ground (arith, e, held))
load-IsKeyed E (x ∷ es) m m' keyed e = elim (Option-cases (lookup x.id m)) [
  | inr (dup, there) ↦ absurd (ground (arith, e, there))
  | inl new ↦
      load-IsKeyed E es (insert x.id x m) m'
        (λ id y held. ground (arith, held, keyed id y, lookup-insert x.id id x m))
        (ground (arith, e, new))
]

module _ {W : Type 0} where
  fresh-IsWired :
      (inventory : Map Email) → IsKeyed inventory → IsWired (fresh_manager {W = W} inventory)
  unfolding lookup occurs make_chan
  fresh-IsWired inventory keyed = record {
    linked = record {
      attached = λ l i. refl;
      served = λ i open_. absurd (cc open_);
      registered = λ id l e. absurd (cc e);
      keyed = keyed;
      feeds_calm = λ i. record { shut = refl; calm = refl };
      lines_calm = λ l. refl;
      unused = λ i late. refl;
      ended = λ shut. absurd (cc shut);
      closing_calm = (refl, refl);
    };
    busy = λ id l e. absurd (cc e);
  }

module _ {W E : Type 0} where
  loaded-IsWired :
      (es : List Email) (m : Manager W) (r : Result E (Map Email))
      → load es [] ≡ r
      → loaded r ≡ ok m
      → IsWired m
  unfolding lookup
  loaded-IsWired es m (ok inventory) from e =
      let v =
        fresh-IsWired {W = W} inventory
          (load-IsKeyed E es [] inventory (λ id x held. absurd (cc held)) from) in
      subst (λ (m' : Manager W). IsWired m')
        (ap (λ (r : Result E (Manager W)). elim r [ ok m' ↦ m' | err x ↦ fresh_manager inventory ])
          e)
        v
  loaded-IsWired es m (err x) from e = absurd (cc e)

  pub new_manager-IsWired :
      (repo : Option (Repository W E)) (w : W) (m : Manager W)
      → (new_manager repo w).0 ≡ ok m
      → IsWired m
  unfolding new_manager
  new_manager-IsWired repo w m e = listed ((repository_of repo).list w).0 e
    where
      listed : (r : Option E × List Email) → listing r ≡ ok m → IsWired m
      listed (some x, es) e = absurd (cc e)
      listed (none, es) e = loaded-IsWired es m (load es []) refl e

module _ {W E : Type 0} (env : Env W E) where
  proceed-IsWired :
      (l : ℕ) (pc : Pc) (r : Run E) (m : Manager W) (w : W)
      → IsWired m
      → IsWired (proceed env l pc r m w).1
  unfolding proceed
  proceed-IsWired l (resetting validity last) r m w v =
      advance_cursor-IsWired env l validity last true m w v
  proceed-IsWired l (storing validity max_uid) r m w v =
      advance_cursor-IsWired env l validity max_uid false m w v
  proceed-IsWired l (fanning validity last msgs) r m w v = fanout-IsWired env l msgs m v
  proceed-IsWired l _ r m w v = v

  serve-IsWired :
      (l : ℕ) (pc : Pc) (a : Answer E) (r : Run E) (m : Manager W) (w : W)
      → IsWired m
      → IsWired (serve env l pc a r m w).1
  unfolding serve
  serve-IsWired l pc go_on r m w v = proceed-IsWired l pc r m w v
  serve-IsWired l pc _ r m w v = v

  pub step-IsWired :
      (c : Call W E) (s : System W E) → IsWired s.manager → IsWired (step env c s).manager
  unfolding step
  step-IsWired (adding e) s v = add-IsWired env e s.manager s.world v
  step-IsWired (deleting id) s v = delete_email-IsWired env id s.manager s.world v
  step-IsWired (listening_to task id cfg) s v = listen-IsWired E task id cfg s.manager v
  step-IsWired (closing_feed i) s v = close-IsWired i s.manager v
  step-IsWired closing_all s v = close_manager-IsWired s.manager v
  step-IsWired (guarding g) s v = guard-IsWired g s.manager v
  step-IsWired (receiving i) s v = receive-IsWired i s.manager v
  step-IsWired (backfilling i msgs) s v =
      backfill-IsWired env (s.manager.feeds i).email_id i msgs s.manager v
  step-IsWired (serving l a) s v = elim (Bool-cases (ltb l s.manager.next_line)) [
    | inl given ↦ rw (given, step) (serve-IsWired l (s.runs l).pc a (s.runs l) s.manager s.world v)
    | inr never ↦ rw (never, step) v
  ]

  pub run-IsWired_from :
      (cs : List (Call W E)) (s : System W E) → IsWired s.manager → IsWired (run env cs s).manager
  unfolding run
  run-IsWired_from [] s v = v
  run-IsWired_from (c ∷ cs) s v = run-IsWired_from cs (step env c s) (step-IsWired c s v)

  -- Whatever calls, receives, deliveries and listeners' steps follow on NewManager, in any order:
  -- each open subscription is held once by the one listener of its inbox, which runs and serves a
  -- known email, and no other listener holds it; a listener without subscriptions is not
  -- registered; after the manager's Close none is; and no channel was closed twice or had a send
  -- after its close.
  pub run-IsWired :
      (repo : Option (Repository W E)) (w : W) (m : Manager W)
      → (new_manager repo w).0 ≡ ok m
      → (cs : List (Call W E))
      → IsWired (run env cs (record { manager = m; world = w; runs = λ l. new_run })).manager
  run-IsWired repo w m loads cs = run-IsWired_from cs _ (new_manager-IsWired repo w m loads)

  -- In a wired manager, while a subscription to an email that the inventory holds is open, Delete is
  -- refused and changes neither the manager nor the store. The refusal names the tasks that listen:
  -- the task of every open subscription to the email, and no other.
  pub delete_email-listened :
      (m : Manager W) (w : W) (i : ℕ) (e : Email)
      → IsWired m
      → (m.feeds i).is_closed ≡ false
      → lookup (m.feeds i).email_id m.inventory ≡ some e
      → (ts : List String) × (delete_email env (m.feeds i).email_id m w
          ≡ (err (listened_to (m.feeds i).email_id ts), m, w))
        × ((j : ℕ)
            → (m.feeds j).is_closed ≡ false
            → (m.feeds j).email_id ≡ (m.feeds i).email_id
            → is_one_of (m.feeds j).task_id ts ≡ true)
        × ((u : String)
            → is_one_of u ts ≡ true
            → (j : ℕ) × ((m.feeds j).is_closed ≡ false)
              × ((m.feeds j).email_id ≡ (m.feeds i).email_id)
              × ((m.feeds j).task_id ≡ u))
  unfolding delete_email
  delete_email-listened m w i e v open_ held =
      elim (Option-cases (lookup (m.feeds i).email_id m.listeners)) [
        | inl none_there ↦ absurd (v.linked.served i open_ none_there)
        | inr (l, there) ↦ elim (List-cases (listening (m.feeds i).email_id m)) [
          | inl quiet ↦ absurd (not-listening-nil m (m.feeds i).email_id l there v quiet)
          | inr (t, ts, tasks) ↦ (
            listening (m.feeds i).email_id m,
            rw (held, tasks, delete_email) refl,
            open-listening m (m.feeds i).email_id l v there,
            listening-open m (m.feeds i).email_id l v there,
          )
        ]
      ]
