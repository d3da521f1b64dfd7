-- ===== src/Leasing/State/Holds.antt =====
-- leasing/manager.go: what hold and unhold do to the live lease counts.
use rogojin.Prelude.{
  ℕ, ◌+◌, ◌-◌, ◌≤◌, ◌≡◌, ◌≢◌, refl, ◌∙◌, String, [], ◌∷◌, none, ite, str_dec, dec_lt, ℕ_discrete,
  arith,
}
use rogojin.Prelude.Map.{Map, lookup, insert, delete, lookup-insert, lookup-delete}
use rogojin.Leasing.State.{
  total, count_of, holders_of, hold, unhold, drop_zero, decrement, store_holders,
}

count_of-nil : (t : String) → count_of t [] ≡ 0
unfolding count_of lookup
count_of-nil t = refl

count_of-cons :
    (t : String) (j : String) (w : ℕ) (hs : Map ℕ)
    → count_of t ((j, w) ∷ hs) ≡ ite (str_dec j t) w (count_of t hs)
unfolding count_of lookup
count_of-cons t j w hs = ground arith

pub count_of-insert :
    (t u : String) (n : ℕ) (hs : Map ℕ)
    → count_of u (insert t n hs) ≡ ite (str_dec t u) n (count_of u hs)
unfolding count_of
count_of-insert t u n hs = ground (arith, lookup-insert t u n hs)

pub count_of-delete :
    (t u : String) (hs : Map ℕ) → count_of u (delete t hs) ≡ ite (str_dec t u) 0 (count_of u hs)
unfolding count_of
count_of-delete t u hs = ground (arith, lookup-delete t u hs)

-- A written count replaces the old one in the total.
pub total-insert :
    (t : String) (n : ℕ) (hs : Map ℕ) → total (insert t n hs) + count_of t hs ≡ total hs + n
unfolding total insert
total-insert t n [] = ground (arith, count_of-nil t)
total-insert t n ((j, w) ∷ hs) = ground (arith, count_of-cons t j w hs, total-insert t n hs)

pub count-le-total : (t : String) (hs : Map ℕ) → count_of t hs ≤ total hs
unfolding total
count-le-total t [] = ground (arith, count_of-nil t)
count-le-total t ((j, w) ∷ hs) = ground (arith, count_of-cons t j w hs, count-le-total t hs)

pub total-delete-le : (t : String) (hs : Map ℕ) → total (delete t hs) + count_of t hs ≤ total hs
unfolding total delete
total-delete-le t [] = ground (arith, count_of-nil t)
total-delete-le t ((j, w) ∷ hs) = ground (arith, count_of-cons t j w hs, total-delete-le t hs)

pub holders_of-insert :
    (id j : String) (hs : Map ℕ) (all : Map (Map ℕ))
    → holders_of j (insert id hs all) ≡ ite (str_dec id j) hs (holders_of j all)
unfolding holders_of
holders_of-insert id j hs all = ground (arith, lookup-insert id j hs all)

pub holders_of-delete :
    (id j : String) (all : Map (Map ℕ))
    → holders_of j (delete id all) ≡ ite (str_dec id j) [] (holders_of j all)
unfolding holders_of
holders_of-delete id j all = ground (arith, lookup-delete id j all)

holders_of-store :
    (id j : String) (hs : Map ℕ) (all : Map (Map ℕ))
    → holders_of j (store_holders id hs all) ≡ ite (str_dec id j) hs (holders_of j all)
holders_of-store id j [] all = holders_of-delete id j all
holders_of-store id j (h ∷ hs) all = holders_of-insert id j (h ∷ hs) all

-- A lease adds one to the resource's count and leaves every other resource's alone.
pub total-hold :
    (id t j : String) (all : Map (Map ℕ))
    → total (holders_of j (hold id t all))
      ≡ ite (str_dec id j) (total (holders_of j all) + 1) (total (holders_of j all))
unfolding hold
total-hold id t j all =
    rw
      (holders_of-insert id j (insert t (count_of t (holders_of id all) + 1) (holders_of id all))
        all)
      (ground (arith, total-insert t (count_of t (holders_of id all) + 1) (holders_of id all)))

pub count-hold :
    (id t j u : String) (all : Map (Map ℕ))
    → count_of u (holders_of j (hold id t all))
      ≡ ite
          (str_dec id j)
          (ite (str_dec t u) (count_of u (holders_of j all) + 1) (count_of u (holders_of j all)))
          (count_of u (holders_of j all))
unfolding hold
count-hold id t j u all =
    rw
      (holders_of-insert id j (insert t (count_of t (holders_of id all) + 1) (holders_of id all))
        all)
      (ground (arith, count_of-insert t u (count_of t (holders_of id all) + 1) (holders_of id all)))

total-decrement : (t : String) (hs : Map ℕ) → total (decrement t hs) + 1 ≤ total hs + 1
total-decrement t hs = ground (arith, total-insert t (count_of t hs - 1) hs)

total-drop_zero : (t : String) (hs : Map ℕ) → total (drop_zero t hs) ≤ total hs
total-drop_zero t hs = ground (arith, total-delete-le t hs)

count-decrement :
    (t u : String) (hs : Map ℕ)
    → count_of u (decrement t hs) ≡ ite (str_dec t u) (count_of u hs - 1) (count_of u hs)
count-decrement t u hs = ground (arith, count_of-insert t u (count_of t hs - 1) hs)

count-drop_zero : (t u : String) (hs : Map ℕ) → count_of u (drop_zero t hs) ≡ count_of u hs
count-drop_zero t u hs = ground (arith, count_of-delete t u hs)

-- A release never raises a count.
pub total-unhold-le :
    (id t j : String) (all : Map (Map ℕ))
    → total (holders_of j (unhold id t all)) ≤ total (holders_of j all)
unfolding unhold
total-unhold-le id t j all = rw (holders_of-store id j _ all) (
    ground (
      arith,
      total-drop_zero t (decrement t (holders_of id all)),
      total-decrement t (holders_of id all),
    ))

-- A release takes one lease from the task on the resource, if it has one, and no other.
pub count-unhold :
    (id t j u : String) (all : Map (Map ℕ))
    → count_of u (holders_of j (unhold id t all))
      ≡ ite
          (str_dec id j)
          (ite (str_dec t u) (count_of u (holders_of j all) - 1) (count_of u (holders_of j all)))
          (count_of u (holders_of j all))
unfolding unhold
count-unhold id t j u all = rw (holders_of-store id j _ all) (
    ground (
      arith,
      count-drop_zero t u (decrement t (holders_of id all)),
      count-decrement t u (holders_of id all),
    ))

pub total-hold_self :
    (id t : String) (all : Map (Map ℕ))
    → total (holders_of id (hold id t all)) ≡ total (holders_of id all) + 1
total-hold_self id t all = ground (arith, total-hold id t id all)

-- Another resource's holders are not touched.
pub holders_of-hold_ne :
    (id t j : String) (all : Map (Map ℕ)) → id ≢ j → holders_of j (hold id t all) ≡ holders_of j all
unfolding hold
holders_of-hold_ne id t j all ne = ground (
  arith,
  holders_of-insert id j (insert t (count_of t (holders_of id all) + 1) (holders_of id all)) all,
)

lookup-store_ne :
    (id j : String) (hs : Map ℕ) (all : Map (Map ℕ))
    → id ≢ j
    → lookup j (store_holders id hs all) ≡ lookup j all
lookup-store_ne id j [] all ne = ground (arith, lookup-delete id j all)
lookup-store_ne id j (h ∷ hs) all ne = ground (arith, lookup-insert id j (h ∷ hs) all)

pub holders_of-none :
    (id : String) (all : Map (Map ℕ)) → lookup id all ≡ none → holders_of id all ≡ []
unfolding holders_of
holders_of-none id all e = ground arith

emptied : (t : String) → drop_zero t (decrement t []) ≡ []
unfolding count_of lookup delete dec_lt ℕ_discrete
emptied t = refl

-- A resource without an entry has none after a stray release.
pub lookup-unhold-none :
    (id t j : String) (all : Map (Map ℕ)) → lookup j all ≡ none → lookup j (unhold id t all) ≡ none
unfolding unhold
lookup-unhold-none id t j all e = elim (str_dec id j) [
  | no ne ↦ lookup-store_ne id j _ all ne ∙ e
  | yes same ↦ rw (same, holders_of-none j all e, emptied t) (ground (arith, lookup-delete j j all))
]
