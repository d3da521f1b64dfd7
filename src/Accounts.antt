-- ===== src/Accounts.antt =====
-- accounts/accounts.go and accounts/manager.go: the leasing manager over accounts, and the guard
-- that it installs on the email manager. The guard is a closure over the pointer of the account
-- manager: `current` reads what that pointer refers to in a world.
pub mod Guarding
pub mod Forwarding
pub mod Tests
use rogojin.Prelude.{
  ℕ, String, List, [], ◌∷◌, map, Option, none, some, ite, Bool, true, false, str_dec, dedup,
}
use rogojin.Prelude.Map.{lookup}
use rogojin.Leasing.Types.{Model, Group, Assignment, Env, Result, ok, err}
use rogojin.Leasing.State.{Manager}
use rogojin.Leasing.Load.{new_manager as load_manager}
use rogojin.Leasing.Queries.{held, locked}
use rogojin.Email.State.{guard_deletes, Manager as Mailboxes}

abbrev pub email_ref : String
email_ref = "email"

-- What an account adds to leasing.Resource; `fields` is opaque JSON.
pub record Own : Type 0 where
  pub email_id : String
  pub fields : List ℕ

abbrev pub Account : Type 0
Account = Model Own

-- `g.Refs[EmailRef]`, where a missing key reads as the empty string.
abbrev pub group_email : Group → String
group_email g = elim (lookup email_ref g.refs) [ none ↦ "" | some e ↦ e ]

-- ForwardingEmail
unfoldable pub forwarding_email : Account → Group → String
forwarding_email a g = ite (str_dec a.own.email_id "") (group_email g) a.own.email_id

-- The predicate of the guard: `ForwardingEmail(a, g) == emailID`.
unfoldable pub forwards_to : String → Account → Group → Bool
unfolding forwarding_email
forwards_to e a g = ite (str_dec (forwarding_email a g) e) true false

-- taskIDs
unfoldable pub task_ids_of : List Assignment → List String
task_ids_of found = dedup [] (map (λ (a : Assignment). a.task_id) found)

module _ {C S : Type 0} where
  -- The guard that NewManager installs: the tasks with a live lease, and the tasks with a lock.
  unfoldable pub delete_guard : Manager Own C S → String → List String × List String
  unfolding forwards_to task_ids_of held locked
  delete_guard m e =
      ite (str_dec e "") ([], [])
        (task_ids_of (held m (forwards_to e)), task_ids_of (locked m (forwards_to e)))

-- Bind, over the library's json.Unmarshal into a zero value.
unfoldable pub bind_fields :
    {F E : Type 0} → (List ℕ → F → F × Option E) → F → Account → F × Option E
bind_fields unmarshal zero_fields a = elim a.own.fields [
  | [] ↦ (zero_fields, none)
  | b ∷ bs ↦ unmarshal (b ∷ bs) zero_fields
]

-- config: the email manager of the last WithEmail.
abbrev pub Config : Type 0 → Type 0
Config W = Option (Mailboxes W)

-- WithEmail; a nil manager panics.
unfoldable pub with_email : {W : Type 0} → Option (Mailboxes W) → Option (Config W → Config W)
with_email none = none
with_email (some m) = some (λ c. some m)

abbrev pub configure : {W : Type 0} → List (Config W → Config W) → Config W → Config W
configure [] c = c
configure (opt ∷ opts) c = configure opts (opt c)

module _ {C S W : Type 0} (env : Env Own C S) (now : ℕ) (current : W → Manager Own C S) where
  abbrev pub install_guard : Config W → Config W
  install_guard none = none
  install_guard (some m) = some (guard_deletes (λ e w. delete_guard (current w) e) m)

  abbrev pub finish_new : Config W → Result (Manager Own C S) → Result (Manager Own C S) × Config W
  finish_new cfg (err e) = (err e, cfg)
  finish_new cfg (ok m) = (ok m, install_guard cfg)

  -- NewManager, with the email manager as it leaves it.
  unfoldable pub new_manager : List (Config W → Config W) → S → Result (Manager Own C S) × Config W
  unfolding delete_guard guard_deletes
  new_manager opts s = finish_new (configure opts none) (load_manager env now [] s)
