-- ===== src/Email/Inventory.antt =====
-- email/manager.go: loading the inventory, Add, Get and Delete.
use rogojin.Prelude.{
  ℕ, String, List, [], ◌∷◌, map, false, Option, none, some, ite, str_dec, sort_strings, dedup,
}
use rogojin.Prelude.Map.{Map, lookup, insert, delete}
use rogojin.Prelude.Channels.{make_chan}
use rogojin.Email.Types.{
  Inbox, Email, Error, Repository, Env, noop_repository, Result, ok, err, email_not_found,
  listened_to, forwarding_held, id_required, address_required, already_exists, invalid_inbox,
  duplicate_id, service,
}
use rogojin.Email.Vendors.{validate_inbox}
use rogojin.Email.State.{Subscription, Manager, no_line, no_feed}

module _ {W : Type 0} where
  abbrev pub fresh_manager : Map Email → Manager W
  fresh_manager inventory = record {
    guard = none;
    inventory = inventory;
    listeners = [];
    is_closed = false;
    closing = make_chan 0;
    lines = λ _. no_line;
    feeds = λ _. no_feed;
    next_line = 0;
    next_feed = 0;
  }

module _ {E : Type 0} where
  -- The loop of NewManager over the listed emails.
  unfoldable pub load : List Email → Map Email → Result E (Map Email)
  load [] inventory = ok inventory
  load (e ∷ es) inventory = elim (lookup e.id inventory) [
    | some dup ↦ err (duplicate_id e.id)
    | none ↦ load es (insert e.id e inventory)
  ]

module _ {W E : Type 0} where
  abbrev pub loaded : Result E (Map Email) → Result E (Manager W)
  loaded (ok inventory) = ok (fresh_manager inventory)
  loaded (err e) = err e

  abbrev pub repository_of : Option (Repository W E) → Repository W E
  repository_of none = noop_repository W E
  repository_of (some repo) = repo

  abbrev pub listing : (Option E × List Email) → Result E (Manager W)
  listing (some e, es) = err (service "load emails" e)
  listing (none, es) = loaded (load es [])

  -- NewManager, where a nil repository is `none`.
  unfoldable pub new_manager : Option (Repository W E) → W → Result E (Manager W) × W
  unfolding load noop_repository
  new_manager repo w = let (listed, w') = (repository_of repo).list w in (listing listed, w')

-- taskIDs of a listener: the tasks subscribed, each once, sorted.
unfoldable pub task_ids : List ℕ → (ℕ → Subscription) → List String
task_ids subs feeds = sort_strings (dedup [] (map (λ i. (feeds i).task_id) subs))

module _ {E : Type 0} where
  abbrev inbox_error : Option Inbox → Option (Error E)
  inbox_error none = none
  inbox_error (some i) = validate_inbox i

module _ {W : Type 0} where
  abbrev pub listening : String → Manager W → List String
  listening id m = elim (lookup id m.listeners) [
    | none ↦ []
    | some l ↦ task_ids (m.lines l).subs m.feeds
  ]

  abbrev pub guarded : String → Manager W → W → List String × List String
  guarded id m w = elim m.guard [ none ↦ ([], []) | some g ↦ g id w ]

module _ {W E : Type 0} where
  -- The checks of Add, before anything is stored.
  unfoldable pub check_add : Email → Manager W → Option (Error E)
  unfolding validate_inbox
  check_add e m = ite (str_dec e.id "") (some id_required) (
      ite (str_dec e.address "") (some (address_required e.id)) (elim (lookup e.id m.inventory) [
        | some dup ↦ some (already_exists e.id)
        | none ↦ elim (inbox_error e.inbox) [ some i ↦ some (invalid_inbox e.id i) | none ↦ none ]
      ]))

  -- Get
  unfoldable pub get : String → Manager W → Result E Email
  get id m = elim (lookup id m.inventory) [ none ↦ err (email_not_found id) | some e ↦ ok e ]

  abbrev pub install : Email → Manager W → Option E × W → Result E Unit × Manager W × W
  install e m (some x, w) = (err (service "persist email" x), m, w)
  install e m (none, w) = (ok tt, record m { inventory = insert e.id e m.inventory }, w)

  abbrev pub unloaded : Manager W → Option E × W → Result E (List String) × Manager W × W
  unloaded m (some x, w) = (err (service "" x), m, w)
  unloaded m (none, w) = (ok [], m, w)

  abbrev pub erased :
      String → List String → Manager W → Option E × W → Result E (List String) × Manager W × W
  erased id stranded m (some x, w) = (err (service "delete email" x), m, w)
  erased id stranded m (none, w) = (ok stranded, record m { inventory = delete id m.inventory }, w)

module _ {W E : Type 0} (env : Env W E) where
  -- Add
  unfoldable pub add : Email → Manager W → W → Result E Unit × Manager W × W
  unfolding check_add
  add e m w = elim (check_add e m) [
    | some x ↦ (err x, m, w)
    | none ↦
        let e' = record e { created_at = env.now w; updated_at = env.now w } in
        install e' m (env.repo.save e' w)
  ]

  abbrev pub delete_guarded :
      String → List String × List String → Manager W → W → Result E (List String) × Manager W × W
  delete_guarded id (t ∷ ts, locked) m w = (err (forwarding_held id (sort_strings (t ∷ ts))), m, w)
  delete_guarded id ([], locked) m w = erased id (sort_strings locked) m (env.repo.delete_row id w)

  abbrev pub delete_unheard :
      String → List String → Manager W → W → Result E (List String) × Manager W × W
  delete_unheard id (t ∷ ts) m w = (err (listened_to id (t ∷ ts)), m, w)
  delete_unheard id [] m w = delete_guarded id (guarded id m w) m w

  -- Delete: refused while a subscription covers the email or the guard reports a live lease.
  unfoldable pub delete_email : String → Manager W → W → Result E (List String) × Manager W × W
  unfolding task_ids
  delete_email id m w = elim (lookup id m.inventory) [
    | none ↦ unloaded m (env.repo.delete_row id w)
    | some e ↦ delete_unheard id (listening id m) m w
  ]
