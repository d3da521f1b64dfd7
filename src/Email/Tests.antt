-- ===== src/Email/Tests.antt =====
-- email: the theorems at a manager with one inbox.
use rogojin.Prelude.{
  ℕ, ◌≡◌, ◌≤◌, ◌+◌, ◌⊎◌, ◌++◌, refl, String, List, [], ◌∷◌, none, some, true, false, length, arith,
  str_dec, ℕ_discrete, is_one_of,
}
use rogojin.Prelude.Map.{lookup, insert}
use rogojin.Prelude.Channels.{try_send, make_chan, close_chan}
use rogojin.Prelude.Handles.{remove}
use rogojin.Email.Types.{Auth, Email, Message, Repository, Env, err, listened_to}
use rogojin.Email.Vendors.{gmail, auth_password}
use rogojin.Email.State.{Subscription, Manager, owns, retire}
use rogojin.Email.Inventory.{fresh_manager, new_manager, delete_email}
use rogojin.Email.Listening.{
  default_config, new_subscription, new_listener, listen, line_for, establish, attach, close,
  detach, leave,
}
use rogojin.Email.Delivery.{fanout, matches, fan_each, offer_each, offer}
use rogojin.Email.Serving.{
  selected, fetched, cursor, moved, new_run, advance_cursor, go_on, dialed, serve, proceed, answer,
}
use rogojin.Email.System.{System, Call, listening_to, serving, closing_feed, step, run, receive}
use rogojin.Email.Wiring.{IsWired}
use rogojin.Email.Safety.{run-IsWired, delete_email-listened}
use rogojin.Email.Fanout.{offer_all, admitted, highest, fanout-delivers, delivered}
use rogojin.Email.Fanout.Counts.{offer_all-queues, offer_all-counts}
use rogojin.Email.Cursors.Rows.{Onward}
use rogojin.Email.Cursors.Monotone.{run-Onward}

abbrev password : Auth
password = record {
  kind = auth_password;
  username = "";
  password = "secret";
  client_id = "";
  client_secret = "";
  refresh_token = "";
  token_url = "";
}

abbrev post : Email
post = record {
  id = "post";
  address = "post@example.com";
  inbox = some (record { vendor = gmail; auth = password; last_uid = 5; uid_validity = 1 });
  created_at = 0;
  updated_at = 0;
}

abbrev code : ℕ → Message
code uid = record {
  email_id = "";
  uid = uid;
  message_id = "";
  from = "shop@example.com";
  to = [];
  subject = "";
  date = 0;
  text = "";
  html = "";
}

-- A repository with the one email, whose writes succeed.
abbrev shelf : Repository Unit Unit
shelf = record {
  list = λ w. ((none, post ∷ []), w);
  save = λ e w. (none, w);
  delete_row = λ id w. (none, w);
}

abbrev here : Env Unit Unit
here = record { repo = shelf; now = λ w. 0; lower = λ s. s }

abbrev start : Manager Unit
start = fresh_manager (("post", post) ∷ [])

abbrev two_listen : List (Call Unit Unit)
two_listen =
    listening_to "t1" "post" default_config
    ∷ listening_to "t2" "post" default_config
    ∷ serving 0 go_on
    ∷ serving 0 dialed
    ∷ closing_feed 0
    ∷ []

run-IsWired_example :
    IsWired
      (run here two_listen (record { manager = start; world = tt; runs = λ l. new_run })).manager
unfolding new_manager lookup insert
run-IsWired_example = run-IsWired here (some shelf) tt start refl two_listen

-- The manager after those calls: the second subscription is open.
abbrev later : Manager Unit
later = (run here two_listen (record { manager = start; world = tt; runs = λ l. new_run })).manager

later-IsWired : IsWired later
unfolding new_manager lookup insert
later-IsWired = run-IsWired here (some shelf) tt start refl two_listen

delete_email-listened_example :
    (ts : List String) × (delete_email here (later.feeds 1).email_id later tt
      ≡ (err (listened_to (later.feeds 1).email_id ts), later, tt))
    × ((j : ℕ)
        → (later.feeds j).is_closed ≡ false
        → (later.feeds j).email_id ≡ (later.feeds 1).email_id
        → is_one_of (later.feeds j).task_id ts ≡ true)
    × ((u : String)
        → is_one_of u ts ≡ true
        → (j : ℕ) × ((later.feeds j).is_closed ≡ false)
          × ((later.feeds j).email_id ≡ (later.feeds 1).email_id)
          × ((later.feeds j).task_id ≡ u))
unfolding run step listen establish attach close detach leave proceed serve answer lookup insert
    remove new_listener retire receive str_dec make_chan line_for close_chan ℕ_discrete
delete_email-listened_example = delete_email-listened here later tt 1 post later-IsWired refl refl

fanout-delivers_example :
    ((owns 0 later ≡ false) × (fanout here 0 (code 7 ∷ []) later ≡ (none, [], later)))
    ⊎ ((owns 0 later ≡ true)
        × ((fanout here 0 (code 7 ∷ []) later).0 ≡ some (highest 0 (code 7 ∷ [])))
        × ((j : ℕ)
            → (fanout here 0 (code 7 ∷ []) later).2.feeds j
              ≡ delivered here 0 (code 7 ∷ []) later (later.feeds j)))
fanout-delivers_example = fanout-delivers here 0 (code 7 ∷ []) later later-IsWired

abbrev small : Subscription
small = new_subscription "post" "t1" "" 2

offer_all-queues_example : offer_all here "post" (code 7 ∷ code 8 ∷ []) small ≡ record small {
  ch = record small.ch {
    queue = small.ch.queue ++ admitted here "post" (code 7 ∷ code 8 ∷ []) small;
  };
}
unfolding make_chan admitted matches str_dec
offer_all-queues_example =
    offer_all-queues here "post" (code 7 ∷ code 8 ∷ []) small (record { shut = refl; calm = refl })
      (omega arith)

offer_all-counts_example :
    (length (offer_all here "post" (code 7 ∷ code 8 ∷ code 9 ∷ []) small).ch.queue
        + (offer_all here "post" (code 7 ∷ code 8 ∷ code 9 ∷ []) small).dropped
      ≡ length small.ch.queue
        + small.dropped
        + length (admitted here "post" (code 7 ∷ code 8 ∷ code 9 ∷ []) small))
    × (length (offer_all here "post" (code 7 ∷ code 8 ∷ code 9 ∷ []) small).ch.queue ≤ small.ch.cap)
unfolding make_chan admitted matches str_dec
offer_all-counts_example =
    offer_all-counts here "post" (code 7 ∷ code 8 ∷ code 9 ∷ []) small
      (record { shut = refl; calm = refl }) (omega arith) (omega arith)

-- A listener reads one message and stores the cursor behind it.
abbrev reads_one : List (Call Unit Unit)
reads_one =
    listening_to "t1" "post" default_config
    ∷ serving 0 go_on
    ∷ serving 0 dialed
    ∷ serving 0 (selected 1 9)
    ∷ serving 0 go_on
    ∷ serving 0 go_on
    ∷ serving 0 (fetched (code 7 ∷ []))
    ∷ serving 0 go_on
    ∷ serving 0 go_on
    ∷ []

abbrev begun : System Unit Unit
begun = record { manager = start; world = tt; runs = λ l. new_run }

run-Onward_example : Onward "post" start.inventory (run here reads_one begun).manager.inventory
unfolding run step listen establish attach proceed serve answer lookup insert new_listener str_dec
    make_chan line_for ℕ_discrete cursor fanout advance_cursor moved owns
run-Onward_example =
    run-Onward here "post" reads_one begun
      (refl, (refl, (refl, (refl, (refl, (refl, (refl, (refl, (refl, tt)))))))))

-- The cursor stands behind that message.
reads_one-last_uid :
    cursor 0 (run here reads_one begun).manager
    ≡ some (record { vendor = gmail; auth = password; last_uid = 7; uid_validity = 1 })
unfolding run step listen establish attach proceed serve answer lookup insert new_listener str_dec
    make_chan line_for ℕ_discrete cursor fanout advance_cursor moved owns fan_each offer_each offer
    matches try_send
reads_one-last_uid = refl
