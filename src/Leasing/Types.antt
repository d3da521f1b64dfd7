-- ===== src/Leasing/Types.antt =====
-- leasing/leasing.go: the records and errors of the package, and its two ports. A model embeds
-- Resource by value and adds fields of its own, here of any type X; time is a number that each call
-- is given. Error texts are dropped: a constructor stands for the sentinel or the message.
use rogojin.Prelude.{ℕ, String, List, Option, none, some, ite, ℤ, ◌≡◌, refl, ◌⊎◌, inl, inr}
use rogojin.Prelude.Map.{Map}

abbrev pub global_group : String
global_group = "global"

abbrev pub strategy_round_robin : String
strategy_round_robin = "roundrobin"

pub record Resource : Type 0 where
  pub id : String
  pub group_id : String
  pub owner_id : String
  pub max_holders : ℤ
  pub created_at : ℕ
  pub updated_at : ℕ

-- A struct that embeds Resource: `p.id` is the promoted field.
pub record Model (X : Type 0) : Type 0 where
  pub core : Resource
  pub open core use *
  pub own : X

pub record Group : Type 0 where
  pub id : String
  pub strategy : String
  pub refs : Map String
  pub created_at : ℕ
  pub updated_at : ℕ

pub record Assignment : Type 0 where
  pub task_id : String
  pub group_id : String
  pub resource_id : String

pub data Error : Type 0 where
  no_resources group_not_found resource_not_found resource_not_in_group : Error
  resource_locked pin_conflict : Error
  group_in_use : String → List String → Error
  resource_in_use : String → List String → Error
  id_required task_id_required already_exists add_unlocked invalid_policy : Error
  unknown_strategy global_undeletable not_in_pool no_candidates not_a_candidate : Error
  duplicate_id locked_twice go_panic : Error
  selection_failed : String → Error
  store_failed : String → Error
  cancelled : String → Error

pub data Result {ℓ} (A : Type ℓ) : Type ℓ where
  ok : A → Result A
  err : Error → Result A

-- The early return of an error.
infixl 5 ◌>>=◌
abbrev pub ◌>>=◌ {ℓ κ} : {A : Type ℓ} {B : Type κ} → Result A → (A → Result B) → Result B
err e >>= rest = err e
ok a >>= rest = rest a

infixl 5 ◌>>◌
abbrev pub ◌>>◌ {ℓ} : {B : Type ℓ} → Result (Unit {0}) → Result B → Result B
check >> rest = check >>= λ _. rest

-- Go on if the decision is positive, and fail otherwise.
abbrev pub require {ℓ} : {P : Type ℓ} → Dec P → Error → Result (Unit {0})
require d e = ite d (ok tt) (err e)

abbrev pub refuse {ℓ} : {P : Type ℓ} → Dec P → Error → Result (Unit {0})
refuse d e = ite d (err e) (ok tt)

abbrev pub found {ℓ} : {A : Type ℓ} → Option A → Error → Result A
found none e = err e
found (some a) e = ok a

-- What a strategy instance holds: round robin its cursor, any other strategy a state of its own.
pub data Selection (C : Type 0) : Type 0 where
  round_robin : ℕ → Selection C
  custom : C → Selection C

-- The code that the manager is handed: the persistence port over a store S, whose calls may fail
-- with a message, and the choice of a registered strategy. `empty` is the zero value of the model's
-- own fields.
pub record Env (X C S : Type 0) : Type 0 where
  pub list : S → Option (List (Model X))
  pub save : Model X → S → Option String × S
  pub remove_row : String → S → Option String × S
  pub list_groups : S → Option (List Group)
  pub save_group : Group → S → Option String × S
  pub remove_group : String → S → Option String × S
  pub choose : C → List (Model X) → Option (Model X) × C
  pub empty : X

pub Result-cases {ℓ} :
    {A : Type ℓ} (r : Result A) → ((e : Error) × (r ≡ err e)) ⊎ ((a : A) × (r ≡ ok a))
Result-cases (err e) = inl (e, refl)
Result-cases (ok a) = inr (a, refl)

-- A chain that succeeds has succeeded at each step.
pub >>=-eq-ok {ℓ κ} :
    {A : Type ℓ} {B : Type κ} (r : Result A) (f : A → Result B) {b : B}
    → (r >>= f) ≡ ok b
    → (a : A) × (r ≡ ok a) × (f a ≡ ok b)
>>=-eq-ok (ok a) f h = (a, refl, h)
>>=-eq-ok (err e) f h = absurd (cc)

pub found-eq-ok {ℓ} :
    {A : Type ℓ} (o : Option A) (e : Error) {a : A} → found o e ≡ ok a → o ≡ some a
found-eq-ok none e h = absurd (cc)
found-eq-ok (some b) e h = cc
