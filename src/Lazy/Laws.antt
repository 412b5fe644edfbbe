-- ===== src/Lazy/Laws.antt =====
-- The value is made once, and no thread reads it before.
use malloc_kit.Base.{
  ℕ, ◌≡◌, ◌≢◌, inl, inr, refl, sym, ap, ◌∙◌, subst, true, ◌==◌, Bool-cases, ==→eq, ==→ne, Option,
  none, some,
}
use malloc_kit.Lazy.{Pc, System, Step, Steps, new, start, initialized}
use malloc_kit.Lazy.Phases.{
  initializes, waits, Owner, After, Phase, quiet, from_before, from_owner, from_other, settled_step,
}

module _ (T F : Type 0) where
  stays : (s : System T F) (i : ℕ) (s' : System T F) → Phase T F s → Step T F i s s' → Phase T F s'
  stays s i s' (Phase.before e f all) (Step.step here move) =
      from_before T F s i e f all (ap (waits T F) (sym here) ∙ all i) move
  stays s i s' (Phase.under_way j e own all) (Step.step here move) = elim (Bool-cases (i == j)) [
    | inl same ↦
        let is_j : j ≡ i = sym (==→eq i j same) in
        from_owner T F s i e
          (subst (Owner T F s.lazy) here (subst (λ (k : ℕ). Owner T F s.lazy (s.pc k)) is_j own))
          (λ k ne. all k (λ h. ne (h ∙ is_j))) move
    | inr other ↦
        let ne : i ≢ j = ==→ne i j other in
        from_other T F s i j e own all ne (ap (waits T F) (sym here) ∙ all i ne) move
  ]
  stays s i s' (Phase.after v) (Step.step here move) =
      Phase.after (settled_step T F s i v (ap (initializes T F) (sym here) ∙ v.idle i) move).0

  reached : (f : F) (s : System T F) → Steps T F (start T F f) s → Phase T F s
  unfolding new
  reached f s Steps.here = Phase.before refl (λ h. cc) (λ i. refl)
  reached f s (Steps.next {i = i} {t = t} steps one) = stays t i s (reached f t steps) one

  -- In every state that is reached from a new value, at most one thread initialises the value, and it finds the function that makes it.
  pub alone_lem :
      (f : F) (s : System T F) (i j : ℕ)
      → Steps T F (start T F f) s
      → initializes T F (s.pc i) ≡ true
      → initializes T F (s.pc j) ≡ true
      → (i ≡ j) × (s.pc i ≢ Pc.panicked)
  alone_lem f s i j steps busy busy' = by_phase (reached f s steps)
    where
      by_phase : Phase T F s → (i ≡ j) × (s.pc i ≢ Pc.panicked)
      by_phase (Phase.before e g all) = cc (quiet T F (s.pc i) (all i), busy)
      by_phase (Phase.under_way k e own all) =
          let is_k : (h : ℕ) → initializes T F (s.pc h) ≡ true → h ≡ k = λ h b.
            elim (Bool-cases (h == k)) [
              | inl same ↦ ==→eq h k same
              | inr other ↦ cc (quiet T F (s.pc h) (all h (==→ne h k other)), b)
            ] in
          (
            is_k i busy ∙ sym (is_k j busy'),
            (λ bad.
                subst (Owner T F s.lazy) bad
                  (subst (λ (h : ℕ). Owner T F s.lazy (s.pc h)) (sym (is_k i busy)) own)),
          )
      by_phase (Phase.after v) = cc (v.idle i, busy)

  later :
      (s s' : System T F)
      → After T F s
      → Steps T F s s'
      → After T F s' × (s'.lazy.value ≡ s.lazy.value)
  later s s' v Steps.here = (v, refl)
  later s s' v (Steps.next {i = i} {t = t} steps (Step.step here move)) =
      let (v', same) = later s t v steps in
      let (v'', same') =
        settled_step T F t i v' (ap (initializes T F) (sym here) ∙ v'.idle i) move in
      (v'', same' ∙ same)

  -- From a new value on, when `force` has returned to a thread, the value is there, and it is the same in all later states.
  pub forced_lem :
      (f : F) (s s' : System T F) (i : ℕ)
      → Steps T F (start T F f) s
      → s.pc i ≡ Pc.forced
      → Steps T F s s'
      → (s'.lazy.state ≡ initialized)
        × ((v : T) × (s.lazy.value ≡ some v) × (s'.lazy.value ≡ some v))
  forced_lem f s s' i steps at_i after_that = by_phase (reached f s steps)
    where
      found :
          (o : Option T)
          → s.lazy.value ≡ o
          → o ≢ none
          → s'.lazy.value ≡ s.lazy.value
          → (v : T) × (s.lazy.value ≡ some v) × (s'.lazy.value ≡ some v)
      found none e ne same = absurd (ne refl)
      found (some v) e ne same = (v, e, same ∙ e)

      by_phase :
          Phase T F s
          → (s'.lazy.state ≡ initialized)
            × ((v : T) × (s.lazy.value ≡ some v) × (s'.lazy.value ≡ some v))
      by_phase (Phase.before e g all) = cc (all i, ap (waits T F) at_i)
      by_phase (Phase.under_way k e own all) = elim (Bool-cases (i == k)) [
        | inl same ↦ absurd (
            subst (Owner T F s.lazy) at_i
              (subst (λ (h : ℕ). Owner T F s.lazy (s.pc h)) (sym (==→eq i k same)) own))
        | inr other ↦ cc (all i (==→ne i k other), ap (waits T F) at_i)
      ]
      by_phase (Phase.after v) =
          let (v', same) = later s s' v after_that in
          (v'.done, found s.lazy.value refl v.present same)
