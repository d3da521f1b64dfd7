-- ===== src/Email/Types.antt =====
-- email/email.go: the records, the errors, and the services of the manager's environment.
use rogojin.Prelude.{ℕ, String, List, [], Option, none}

pub record Auth : Type 0 where
  pub kind : String
  pub username : String
  pub password : String
  pub client_id : String
  pub client_secret : String
  pub refresh_token : String
  pub token_url : String

-- A vendor is a Go string. The cursor is `last_uid` with `uid_validity`.
pub record Inbox : Type 0 where
  pub vendor : String
  pub auth : Auth
  pub last_uid : ℕ
  pub uid_validity : ℕ

pub record Email : Type 0 where
  pub id : String
  pub address : String
  pub inbox : Option Inbox
  pub created_at : ℕ
  pub updated_at : ℕ

pub record Message : Type 0 where
  pub email_id : String
  pub uid : ℕ
  pub message_id : String
  pub from : String
  pub to : List String
  pub subject : String
  pub date : ℕ
  pub text : String
  pub html : String

-- `E` is the type of the errors that the repository and the mailbox return.
pub data Error (E : Type 0) : Type 0 where
  email_not_found : String → Error E
  no_inbox : String → Error E
  listened_to : String → List String → Error E
  forwarding_held : String → List String → Error E
  vendor_unknown : String → Error E
  password_retired : String → Error E
  password_required : Error E
  oauth2_incomplete : Error E
  unknown_auth_kind : String → Error E
  id_required : Error E
  address_required : String → Error E
  already_exists : String → Error E
  invalid_inbox : String → Error E → Error E
  duplicate_id : String → Error E
  task_required : Error E
  buffer_too_small : Error E
  manager_closed : Error E
  service : String → E → Error E

-- Repository, over a world `W`.
pub record Repository (W E : Type 0) : Type 0 where
  pub list : W → (Option E × List Email) × W
  pub save : Email → W → Option E × W
  pub delete_row : String → W → Option E × W

-- The repository, the clock, and the library's `strings.ToLower`.
pub record Env (W E : Type 0) : Type 0 where
  pub repo : Repository W E
  pub now : W → ℕ
  pub lower : String → String

-- noopRepository: it loads nothing and drops every write.
unfoldable pub noop_repository : (W E : Type 0) → Repository W E
noop_repository W E = record {
  list = λ w. ((none, []), w);
  save = λ e w. (none, w);
  delete_row = λ id w. (none, w);
}

pub data Result (E A : Type 0) : Type 0 where
  ok : A → Result E A
  err : Error E → Result E A
