-- ===== src/Email/Wiring/Shutdown.antt =====
-- email/manager.go: proofs about the Close of the manager.
use rogojin.Prelude.{
  ℕ, ◌≡◌, refl, String, List, [], ◌∷◌, map, none, some, Bool, true, false, if◌then◌else◌, inl, inr,
  Option-cases, is_one_of, ◌⊎◌, str_dec, arith,
}
use rogojin.Prelude.Map.{Map, lookup, delete, lookup-delete}
use rogojin.Prelude.Channels.{Chan, close_chan}
use rogojin.Email.State.{Manager, retire_each}
use rogojin.Email.Listening.{close_line, close_lines, close_manager}
use rogojin.Email.Wiring.{IsWired, retire_each-at}
use rogojin.Email.Wiring.Closing.{hung_up-IsWired}

keys_complete :
    (m : Map ℕ) (j : String) → (lookup j m ≡ none) ⊎ (is_one_of j (map (λ entry. entry.0) m) ≡ true)
unfolding lookup is_one_of
keys_complete [] j = inl refl
keys_complete ((id, l) ∷ m) j = elim (str_dec j id) [
  | yes same ↦ inr (ground (arith, same))
  | no other ↦ elim (keys_complete m j) [
    | inl gone ↦ inl (ground (arith, gone, other))
    | inr e ↦ inr (ground (arith, e))
  ]
]

module _ {W : Type 0} where
  close_line-IsWired :
      (m : Manager W) (id : String) (l : ℕ)
      → lookup id m.listeners ≡ some l
      → IsWired m
      → IsWired (close_line id l m)
  unfolding close_line
  close_line-IsWired m id l serving v =
      hung_up-IsWired m id l (retire_each (m.lines l).subs m.feeds) serving
        (retire_each-at (m.lines l).subs m.feeds) v

  close_lines-IsWired :
      (ids : List String) (m : Manager W) → IsWired m → IsWired (close_lines ids m)
  unfolding close_lines
  close_lines-IsWired [] m v = v
  close_lines-IsWired (id ∷ ids) m v = elim (Option-cases (lookup id m.listeners)) [
    | inl gone ↦ rw (gone, close_lines) (close_lines-IsWired ids m v)
    | inr (l, serving) ↦
        rw (serving, close_lines)
          (close_lines-IsWired ids (close_line id l m) (close_line-IsWired m id l serving v))
  ]

  -- The manager where the flag of the Close and the channel that ends the backfills are these.
  abbrev flagged : Bool → Chan Unit → Manager W → Manager W
  flagged b c m = record m { is_closed = b; closing = c }

  close_lines-flagged :
      (b : Bool) (c : Chan Unit) (ids : List String) (m : Manager W)
      → close_lines ids (flagged b c m) ≡ flagged b c (close_lines ids m)
  unfolding close_lines close_line
  close_lines-flagged b c [] m = refl
  close_lines-flagged b c (id ∷ ids) m = elim (Option-cases (lookup id m.listeners)) [
    | inl gone ↦ rw (gone, close_lines) (close_lines-flagged b c ids m)
    | inr (l, serving) ↦ rw (serving, close_lines) (close_lines-flagged b c ids (close_line id l m))
  ]

  close_lines-lookup :
      (ids : List String) (m : Manager W) (j : String)
      → (lookup j m.listeners ≡ none) ⊎ (is_one_of j ids ≡ true)
      → lookup j (close_lines ids m).listeners ≡ none
  unfolding close_lines close_line is_one_of
  close_lines-lookup [] m j (inl gone) = gone
  close_lines-lookup [] m j (inr e) = absurd (cc e)
  close_lines-lookup (id ∷ ids) m j h = elim (Option-cases (lookup id m.listeners)) [
    | inl gone ↦ rw (gone, close_lines) (close_lines-lookup ids m j (passed gone h))
    | inr (l, serving) ↦
        rw (serving, close_lines) (close_lines-lookup ids (close_line id l m) j (erased h))
  ]
    where
      passed :
          lookup id m.listeners ≡ none
          → (lookup j m.listeners ≡ none) ⊎ (is_one_of j (id ∷ ids) ≡ true)
          → (lookup j m.listeners ≡ none) ⊎ (is_one_of j ids ≡ true)
      passed gone (inl e) = inl e
      passed gone (inr e) = elim (str_dec j id) [
        | yes same ↦ inl (rw same gone)
        | no other ↦ inr (ground (arith, e, other))
      ]

      erased :
          (lookup j m.listeners ≡ none) ⊎ (is_one_of j (id ∷ ids) ≡ true)
          → (lookup j (delete id m.listeners) ≡ none) ⊎ (is_one_of j ids ≡ true)
      erased (inl e) = inl (ground (arith, e, lookup-delete id j m.listeners))
      erased (inr e) = elim (str_dec j id) [
        | yes same ↦ inl (ground (arith, same, lookup-delete id j m.listeners))
        | no other ↦ inr (ground (arith, e, other))
      ]

  flagged-IsWired :
      (b : Bool) (c : Chan Unit) (m : Manager W)
      → c.closed ≡ b
      → c.panicked ≡ false
      → ((j : String) → lookup j m.listeners ≡ none)
      → IsWired m
      → IsWired (flagged b c m)
  flagged-IsWired b c m shut_ calm gone v = record {
    linked = record {
      attached = v.linked.attached;
      served = v.linked.served;
      registered = λ id l e. absurd (cc (gone id, e));
      keyed = v.linked.keyed;
      feeds_calm = v.linked.feeds_calm;
      lines_calm = v.linked.lines_calm;
      unused = v.linked.unused;
      ended = λ e. gone;
      closing_calm = (shut_, calm);
    };
    busy = v.busy;
  }

  pub close_manager-lookup :
      (m : Manager W) (j : String) → lookup j (close_manager m).listeners ≡ none
  unfolding close_manager
  close_manager-lookup m j = cleared m.is_closed
    where
      keys : List String
      keys = map (λ entry. entry.0) m.listeners

      cleared :
          (b : Bool)
          → lookup j
              (close_lines keys (
                if b
                then m
                else record m { is_closed = true; closing = close_chan m.closing })).listeners
            ≡ none
      cleared true = close_lines-lookup keys m j (keys_complete m.listeners j)
      cleared false =
          close_lines-lookup keys (flagged true (close_chan m.closing) m) j
            (keys_complete m.listeners j)

  pub close_manager-IsWired : (m : Manager W) → IsWired m → IsWired (close_manager m)
  unfolding close_manager close_chan
  close_manager-IsWired m v = shut_down m.is_closed refl
    where
      keys : List String
      keys = map (λ entry. entry.0) m.listeners

      shut_down :
          (b : Bool)
          → m.is_closed ≡ b
          → IsWired (
              close_lines keys
                (if b then m else record m { is_closed = true; closing = close_chan m.closing }))
      shut_down true e = close_lines-IsWired keys m v
      shut_down false e = rw (close_lines-flagged true (close_chan m.closing) keys m) (
          flagged-IsWired true (close_chan m.closing) (close_lines keys m)
            (ground (arith, e, v.linked.closing_calm)) (ground (arith, e, v.linked.closing_calm))
            (λ j. close_lines-lookup keys m j (keys_complete m.listeners j))
            (close_lines-IsWired keys m v))
