-- ===== src/Email/Vendors.antt =====
-- email/vendors.go: the vendors' endpoints, which inboxes are accepted, and what FetchSince keeps.
use rogojin.Prelude.{String, Option, none, some, ite, str_dec, List, [], ◌∷◌, ℕ, if◌then◌else◌, leb}
use rogojin.Email.Types.{
  Auth, Inbox, Message, Error, vendor_unknown, password_retired, password_required,
  oauth2_incomplete, unknown_auth_kind,
}

abbrev pub gmail : String
gmail = "gmail"

abbrev pub outlook : String
outlook = "outlook"

abbrev pub auth_password : String
auth_password = "password"

abbrev pub auth_oauth2 : String
auth_oauth2 = "oauth2"

unfoldable pub endpoint : String → Option String
endpoint v =
    ite (str_dec v gmail) (some "imap.gmail.com:993")
      (ite (str_dec v outlook) (some "outlook.office365.com:993") none)

unfoldable pub token_url : String → Auth → String
token_url v a =
    ite (str_dec a.token_url "")
      (ite (str_dec v outlook) "https://login.microsoftonline.com/common/oauth2/v2.0/token"
        "https://oauth2.googleapis.com/token")
      a.token_url

module _ {E : Type 0} where
  unfoldable pub validate_auth : String → Auth → Option (Error E)
  validate_auth v a =
      ite (str_dec a.kind auth_password)
        (ite (str_dec v gmail) (ite (str_dec a.password "") (some password_required) none)
          (some (password_retired v)))
        (ite (str_dec a.kind auth_oauth2)
          (ite (str_dec a.client_id "") (some oauth2_incomplete)
            (ite (str_dec a.refresh_token "") (some oauth2_incomplete) none))
          (some (unknown_auth_kind a.kind)))

  unfoldable pub validate_inbox : Inbox → Option (Error E)
  unfolding validate_auth endpoint
  validate_inbox i = elim (endpoint i.vendor) [
    | none ↦ some (vendor_unknown i.vendor)
    | some address ↦ validate_auth i.vendor i.auth
  ]

-- imapMailbox.FetchSince keeps what lies above the cursor: `n:*` also returns the last message.
unfoldable pub above : ℕ → List Message → List Message
above uid [] = []
above uid (msg ∷ msgs) = if leb msg.uid uid then above uid msgs else msg ∷ above uid msgs
