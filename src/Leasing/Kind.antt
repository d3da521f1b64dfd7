-- ===== src/Leasing/Kind.antt =====
-- leasing/leasing.go: Kind.Validate. A Go string is ranged over by code point.
use Prim.Native.Char.{code}
use Prim.Native.String.{String, [], ◌∷◌}
use rogojin.Prelude.{ℕ, Bool, true, false, ◌&&◌, ◌||◌, leb, ◌==◌, ◌≡◌, refl}

abbrev pub is_between : ℕ → ℕ → ℕ → Bool
is_between low high n = leb low n && leb n high

-- a letter, a digit, '-' or '_'
abbrev pub is_legal : ℕ → Bool
is_legal n =
    is_between 97 122 n || is_between 65 90 n || is_between 48 57 n || (n == 45) || (n == 95)

abbrev pub all_legal : String → Bool
all_legal [] = true
all_legal (c ∷ s) = is_legal (code c) && all_legal s

-- Kind.Validate: not empty, and legal characters only.
unfoldable pub is_valid_kind : String → Bool
is_valid_kind [] = false
is_valid_kind (c ∷ s) = is_legal (code c) && all_legal s

legal_kind : is_valid_kind "proxies-2_x" ≡ true
unfolding is_valid_kind
legal_kind = refl

dotted_kind : is_valid_kind "a.b" ≡ false
unfolding is_valid_kind
dotted_kind = refl
