-- ===== src/Tasks/Cascade/Refusals.antt =====
-- tasks/manager.go: proofs about which tasks the sealing of a group stops at.
use rogojin.Prelude.{
  ◌≡◌, refl, sym, ap, subst, ◌∙◌, true, str_dec, String, List, [], ◌∷◌, Option, none, some, false,
  Bool-cases, Option-cases, inl, inr, arith, is_one_of,
}
use rogojin.Prelude.Map.{Map, lookup, insert}
use rogojin.Tasks.Engine.{Engine, is_live, seal}
use rogojin.Tasks.Registry.Deletions.{IsRunning, IsResting}
use rogojin.Tasks.Cascade.{seal_each}
use rogojin.Tasks.Cascade.Sealing.{Sealed, seal_opt, some-inj, one_more-Sealed}

-- Sealing changes neither a task's status nor whether there is one.
seal_opt-live :
    (o : Option Engine) (e : Engine)
    → seal_opt o ≡ some e
    → (e₀ : Engine) × (o ≡ some e₀)
      × (is_live e.state e.detach_done ≡ is_live e₀.state e₀.detach_done)
unfolding seal
seal_opt-live none e same = absurd (cc same)
seal_opt-live (some e₀) e same =
    (e₀, refl, ap (λ (x : Engine). is_live x.state x.detach_done) (sym (some-inj same)))

seal_opt-none : (o : Option Engine) → seal_opt o ≡ none → o ≡ none
seal_opt-none none same = refl
seal_opt-none (some e) same = absurd (cc same)

unsealed :
    (id : String) (sealed : List String) (before live : Map Engine) (e : Engine)
    → Sealed before sealed live
    → lookup id live ≡ some e
    → (e₀ : Engine) × (lookup id before ≡ some e₀)
      × (is_live e.state e.detach_done ≡ is_live e₀.state e₀.detach_done)
unsealed id sealed before live e inv known = elim (Bool-cases (is_one_of id sealed)) [
  | inl was ↦ seal_opt-live (lookup id before) e (ground (arith, inv id, was, known))
  | inr apart ↦ (e, ground (arith, inv id, apart, known), refl)
]

unsealed-none :
    (id : String) (sealed : List String) (before live : Map Engine)
    → Sealed before sealed live
    → lookup id live ≡ none
    → lookup id before ≡ none
unsealed-none id sealed before live inv unknown = elim (Bool-cases (is_one_of id sealed)) [
  | inl was ↦ seal_opt-none (lookup id before) (ground (arith, inv id, was, unknown))
  | inr apart ↦ ground (arith, inv id, apart, unknown)
]

unsealed-IsRunning :
    (id : String) (sealed : List String) (before live : Map Engine) (e : Engine)
    → Sealed before sealed live
    → lookup id live ≡ some e
    → is_live e.state e.detach_done ≡ true
    → IsRunning id before
unsealed-IsRunning id sealed before live e inv known runs =
    let (e₀, there, same) = unsealed id sealed before live e inv known in
    (e₀, there, sym same ∙ runs)

unsealed-IsResting :
    (id : String) (sealed : List String) (before live : Map Engine) (e : Engine)
    → Sealed before sealed live
    → lookup id live ≡ some e
    → is_live e.state e.detach_done ≡ false
    → IsResting id before
unsealed-IsResting id sealed before live e inv known quiet e' known' =
    let (e₀, there, same) = unsealed id sealed before live e inv known in
    let one : e₀ ≡ e' = some-inj (sym there ∙ known') in
    subst (λ (x : Engine). is_live x.state x.detach_done ≡ false) one (sym same ∙ quiet)

-- The first of the tasks that runs, where the loop stops.
pub seal_each-runs :
    (ids sealed : List String) (before live : Map Engine) (t : String)
    → Sealed before sealed live
    → (seal_each ids sealed live).2 ≡ some t
    → (is_one_of t ids ≡ true) × IsRunning t before
unfolding seal_each is_one_of
seal_each-runs [] sealed before live t inv found = absurd (cc found)
seal_each-runs (id ∷ ids) sealed before live t inv found = elim (Option-cases (lookup id live)) [
  | inl unknown ↦
      let (member, runs) =
        seal_each-runs ids sealed before live t inv (rw (unknown, seal_each) at found) in
      (ground (arith, member), runs)
  | inr (e, known) ↦ elim (Bool-cases (is_live e.state e.detach_done)) [
    | inl runs ↦
        let same : id ≡ t = some-inj (rw (known, runs, seal_each) at found) in
        (
          ground (arith, same),
          rw (← same) (unsealed-IsRunning id sealed before live e inv known runs),
        )
    | inr quiet ↦
        let (member, runs) =
          seal_each-runs ids (id ∷ sealed) before (insert id (seal e) live) t
            (one_more-Sealed id sealed before live e inv known)
            (rw (known, quiet, seal_each) at found) in
        (ground (arith, member), runs)
  ]
]

-- Where the loop passes, none of the tasks runs.
pub seal_each-rests :
    (ids sealed : List String) (before live : Map Engine)
    → Sealed before sealed live
    → (seal_each ids sealed live).2 ≡ none
    → (t : String) → is_one_of t ids ≡ true
    → IsResting t before
unfolding seal_each is_one_of
seal_each-rests [] sealed before live inv passed t member = absurd (cc member)
seal_each-rests (id ∷ ids) sealed before live inv passed t member =
    elim (Option-cases (lookup id live)) [
      | inl unknown ↦ elim (str_dec t id) [
        | yes same ↦
            λ e known. absurd (cc (known, same, unsealed-none id sealed before live inv unknown))
        | no other ↦
            seal_each-rests ids sealed before live inv (rw (unknown, seal_each) at passed) t
              (ground (arith, member, other))
      ]
      | inr (e, known) ↦ elim (Bool-cases (is_live e.state e.detach_done)) [
        | inl runs ↦ absurd (cc (rw (known, runs, seal_each) at passed))
        | inr quiet ↦ elim (str_dec t id) [
          | yes same ↦ rw same (unsealed-IsResting id sealed before live e inv known quiet)
          | no other ↦
              seal_each-rests ids (id ∷ sealed) before (insert id (seal e) live)
                (one_more-Sealed id sealed before live e inv known)
                (rw (known, quiet, seal_each) at passed) t (ground (arith, member, other))
        ]
      ]
    ]
