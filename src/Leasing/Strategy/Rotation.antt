-- ===== src/Leasing/Strategy/Rotation.antt =====
-- leasing/roundrobin.go: proofs about the rotation.
use rogojin.Prelude.{
  get_elem?-lt, mod_length, ℕ, zero, suc, ◌+◌, ◌%◌, ◌^◌, ◌≤◌, ◌<◌, ◌≡◌, refl, subst, List, ◌∷◌,
  some, arith, length, get_elem?, dec_lt, if_pos,
}
use rogojin.Leasing.Types.{ok}
use rogojin.Leasing.Strategy.{word, cursor_index, select_round_robin, select_times}

cursor_index_lem : (next len : ℕ) → next < 2 ^ 63 → cursor_index next len ≡ some (next % len)
unfolding cursor_index
cursor_index_lem next len h = if_pos (dec_lt next (2 ^ 63)) h _ _

small_word : (next : ℕ) → next < 2 ^ 63 → (next + 1) % word ≡ next + 1
small_word next h = omega arith

module _ {A : Type 0} (c : A) (cs : List A) where
  -- Below 2^63 a selection returns the candidate at the cursor modulo their number.
  select-at :
      (next : ℕ)
      → next < 2 ^ 63
      → (x : A) × (get_elem? (c ∷ cs) (next % length (c ∷ cs)) ≡ some x)
        × (select_round_robin next (c ∷ cs) ≡ (ok x, next + 1))
  unfolding select_round_robin
  select-at next h =
      let (x, here) = get_elem?-lt (c ∷ cs) (next % length (c ∷ cs)) (mod_length c cs next) in
      (
        x,
        here,
        rw (cursor_index_lem next (length (c ∷ cs)) h, here, small_word next h, select_round_robin)
            refl,
      )

  -- From a cursor next, the i-th of k selections over the same candidates is the candidate at
  -- (next + i) modulo their number, as long as the cursor stays below 2^63.
  pub select_times-get_elem? :
      (k next i : ℕ)
      → next + k ≤ 2 ^ 63
      → i < k
      → (x : A) × (get_elem? (c ∷ cs) ((next + i) % length (c ∷ cs)) ≡ some x)
        × (get_elem? (select_times k next (c ∷ cs)) i ≡ some (ok x))
  unfolding select_times
  select_times-get_elem? zero next i small h = absurd (omega arith)
  select_times-get_elem? (suc k) next zero small h =
      let (x, here, picked) = select-at next (omega arith) in
      let same : next ≡ next + 0 = omega arith in
      (
        x,
        subst (λ n. get_elem? (c ∷ cs) (n % length (c ∷ cs)) ≡ some x) same here,
        rw (picked, select_times) refl,
      )
  select_times-get_elem? (suc k) next (suc i) small h =
      let (x, here, picked) = select-at next (omega arith) in
      let (y, there, rest) = select_times-get_elem? k (next + 1) i (omega arith) (omega arith) in
      let same : (next + 1) + i ≡ next + suc i = omega arith in
      (
        y,
        subst (λ n. get_elem? (c ∷ cs) (n % length (c ∷ cs)) ≡ some y) same there,
        rw (picked, select_times) rest,
      )
