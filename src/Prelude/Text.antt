-- ===== src/Prelude/Text.antt =====
-- Go strings that are only compared: ids, group names, kinds, statuses.
use Prim.Native.Nat.{Ordering}
use Prim.Native.String.{String, compare}
use text.Mathlib.Text.{◌==◌}
use text.Mathlib.TextEquality.{eq_iff}
use mathlib.Core.Path.{◌≡◌, refl}
use mathlib.Core.Logic.{◌↔◌, ◌≢◌}
use mathlib.Core.Bool.{Bool, true, false, false≢true, ◌||◌}
use native.Mathlib.Omega.{arith}
use mathlib.Core.List.{List, [], ◌∷◌, ◌++◌}

abbrev dec_of {ℓ} : {P : Type ℓ} (b : Bool) → (b ≡ true) ↔ P → Dec P
dec_of true e = yes (e.0 refl)
dec_of false e = no (λ p. false≢true (e.1 p))

-- `s == t` on strings.
unfoldable pub str_dec : Discrete String
str_dec s t = dec_of (s == t) (eq_iff s t)

-- `s <= t` on strings, the byte order.
abbrev pub str_le : String → String → Bool
str_le s t = elim (compare s t) [ Ordering.gt ↦ false | _ ↦ true ]

insert_sorted : String → List String → List String
insert_sorted s [] = s ∷ []
insert_sorted s (t ∷ ts) = elim (str_le s t) [ true ↦ s ∷ t ∷ ts | false ↦ t ∷ insert_sorted s ts ]

-- `sort.Strings`: the strings in ascending order.
unfoldable pub sort_strings : List String → List String
unfolding insert_sorted
sort_strings [] = []
sort_strings (s ∷ ss) = insert_sorted s (sort_strings ss)

unfoldable pub is_one_of : String → List String → Bool
is_one_of s [] = false
is_one_of s (t ∷ ts) = elim (str_dec s t) [ yes same ↦ true | no other ↦ is_one_of s ts ]

-- Each string once, where it first stands; `seen` are the strings before.
unfoldable pub dedup : List String → List String → List String
dedup seen [] = []
dedup seen (s ∷ ss) = elim (is_one_of s seen) [
  | true ↦ dedup seen ss
  | false ↦ s ∷ dedup (s ∷ seen) ss
]

-- Sorting a list and dropping repetitions leaves something of it.
pub not-sort_strings-nil : (s : String) (ss : List String) → sort_strings (s ∷ ss) ≢ []
unfolding sort_strings insert_sorted
not-sort_strings-nil s ss = inserted s (sort_strings ss)
  where
    inserted : (s : String) (ts : List String) → insert_sorted s ts ≢ []
    inserted s [] e = absurd (cc e)
    inserted s (t ∷ ts) e = ground (arith, e)

-- Sorting keeps what occurs.
pub is_one_of-sort_strings :
    (t : String) (ss : List String) → is_one_of t (sort_strings ss) ≡ is_one_of t ss
unfolding sort_strings insert_sorted is_one_of
is_one_of-sort_strings t [] = refl
is_one_of-sort_strings t (s ∷ ss) =
    ground (arith, inserted s (sort_strings ss), is_one_of-sort_strings t ss)
  where
    inserted :
        (s : String) (ts : List String) → is_one_of t (insert_sorted s ts) ≡ is_one_of t (s ∷ ts)
    inserted s [] = refl
    inserted s (u ∷ ts) = ground (arith, inserted s ts)

-- Dropping repetitions keeps what occurs.
pub is_one_of-dedup :
    (t : String) (seen ss : List String)
    → is_one_of t seen ≡ false
    → is_one_of t ss ≡ true
    → is_one_of t (dedup seen ss) ≡ true
unfolding dedup is_one_of
is_one_of-dedup t seen [] fresh there = there
is_one_of-dedup t seen (s ∷ ss) fresh there = elim (str_dec t s) [
  | yes same ↦ ground (arith, same, fresh)
  | no other ↦
      ground (
        arith,
        other,
        fresh,
        there,
        is_one_of-dedup t seen ss fresh,
        is_one_of-dedup t (s ∷ seen) ss,
      )
]

pub is_one_of-append :
    (t : String) (ss us : List String) → is_one_of t (ss ++ us) ≡ (is_one_of t ss || is_one_of t us)
unfolding is_one_of
is_one_of-append t [] us = refl
is_one_of-append t (s ∷ ss) us = ground (arith, is_one_of-append t ss us)

-- Dropping repetitions adds nothing.
pub dedup-is_one_of :
    (t : String) (seen ss : List String)
    → is_one_of t (dedup seen ss) ≡ true
    → is_one_of t ss ≡ true
unfolding dedup is_one_of
dedup-is_one_of t seen [] there = there
dedup-is_one_of t seen (s ∷ ss) there =
    ground (arith, there, dedup-is_one_of t seen ss, dedup-is_one_of t (s ∷ seen) ss)
