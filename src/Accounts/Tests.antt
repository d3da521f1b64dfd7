-- ===== src/Accounts/Tests.antt =====
-- Runs of the accounts' guard over in-memory repositories.
use rogojin.Prelude.{◌≡◌, refl, String, List, [], ◌∷◌, map, none, some, pos, true, dec_lt, str_dec}
use rogojin.Prelude.Map.{Map, insert, delete, lookup}
use rogojin.Leasing.Types.{Model, Group, Assignment, Env, round_robin, ok}
use rogojin.Leasing.State.{Manager, pooled, total, holders_of, hold, group_of, count_of}
use rogojin.Leasing.Inventory.{add}
use rogojin.Leasing.Load.{new_manager as load_manager}
use rogojin.Leasing.Acquire.{acquire, in_group, check_pin, is_candidate}
use rogojin.Leasing.Calls.{adds, acquires, run, step}
use rogojin.Email.Types.{Email, Env as Services, noop_repository, Error, err as refusal}
use rogojin.Email.Inventory.{fresh_manager, delete_email}
use rogojin.Email.State.{Manager as Mailboxes, guard_deletes}
use rogojin.Accounts.{Own, Account, Config, new_manager, forwarding_email, delete_guard}
use rogojin.Accounts.Forwarding.{Refused, Reported, delete_email-Refused, delete_email-Reported}

abbrev Rows : Type 0
Rows = Map (Model Own) × Map Group

abbrev Pool : Type 0
Pool = Manager Own (Unit {0}) Rows

abbrev memory : Env Own (Unit {0}) Rows
memory = record {
  list = λ s. some (map (λ r. r.1) s.0);
  save = λ p s. (none, (insert p.id p s.0, s.1));
  remove_row = λ id s. (none, (delete id s.0, s.1));
  list_groups = λ s. some (map (λ r. r.1) s.1);
  save_group = λ g s. (none, (s.0, insert g.id g s.1));
  remove_group = λ id s. (none, (s.0, delete id s.1));
  choose = λ c ps. (none, c);
  empty = record { email_id = ""; fields = [] };
}

abbrev everyone : Group
everyone = record {
  id = "global";
  strategy = "roundrobin";
  refs = [];
  created_at = 0;
  updated_at = 0;
}

abbrev opened : Pool
opened = record {
  store = ([], ("global", everyone) ∷ []);
  factories = ("roundrobin", round_robin 0) ∷ [];
  groups = ("global", everyone) ∷ [];
  strategies = ("global", round_robin 0) ∷ [];
  pool = [];
  order = [];
  holders = [];
  bindings = [];
  broadcasts = 0;
}

abbrev services : Services Pool String
services = record { repo = noop_repository Pool String; now = λ w. 0; lower = λ s. s }

abbrev inbox : Email
inbox = record { id = "box"; address = "a@b"; inbox = none; created_at = 0; updated_at = 0 }

abbrev mailboxes : Mailboxes Pool
mailboxes = fresh_manager (("box", inbox) ∷ [])

abbrev guarded_mailboxes : Mailboxes Pool
guarded_mailboxes = guard_deletes (λ e w. delete_guard w e) mailboxes

abbrev options : List (Config Pool → Config Pool)
options = (λ c. some mailboxes) ∷ []

opens : new_manager memory 0 (λ w. w) options ([], []) ≡ (ok opened, some guarded_mailboxes)
unfolding new_manager load_manager lookup str_dec insert delete_guard guard_deletes
opens = refl

abbrev persona : Account
persona = record {
  core = record {
    id = "r1";
    group_id = "";
    owner_id = "";
    max_holders = pos 1;
    created_at = 0;
    updated_at = 0;
  };
  own = record { email_id = "box"; fields = [] };
}

abbrev by_task : Assignment
by_task = record { task_id = "t"; group_id = ""; resource_id = "" }

abbrev busy : Pool
busy = run memory ((1, adds persona) ∷ (2, acquires none by_task true) ∷ []) opened

abbrev leased_persona : Account
leased_persona = record {
  core = record {
    id = "r1";
    group_id = "global";
    owner_id = "t";
    max_holders = pos 1;
    created_at = 1;
    updated_at = 2;
  };
  own = record { email_id = "box"; fields = [] };
}

delete_email-Refused_example :
    (x : Error String) × Refused "box" "t" x
    × (delete_email services "box" guarded_mailboxes busy ≡ (refusal x, guarded_mailboxes, busy))
unfolding new_manager load_manager lookup str_dec insert delete_guard guard_deletes run step add
    acquire in_group check_pin is_candidate dec_lt pooled total holders_of hold group_of count_of
    forwarding_email
delete_email-Refused_example =
    delete_email-Refused memory 0 (λ w. w) options ([], []) opened guarded_mailboxes opens services
      guarded_mailboxes refl busy "box" "t" "r1" leased_persona (λ e. cc e) refl refl inbox refl
      (("t", 1) ∷ []) 1 refl refl

delete_email-Reported_example :
    Reported guarded_mailboxes "t" (delete_email services "box" guarded_mailboxes busy)
unfolding new_manager load_manager lookup str_dec insert delete_guard guard_deletes run step add
    acquire in_group check_pin is_candidate dec_lt pooled total holders_of hold group_of count_of
    forwarding_email
delete_email-Reported_example =
    delete_email-Reported memory 0 (λ w. w) options ([], []) opened guarded_mailboxes opens services
      guarded_mailboxes refl busy "box" "t" "r1" leased_persona (λ e. cc e) refl refl inbox refl
      refl
