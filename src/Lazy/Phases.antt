-- ===== src/Lazy/Phases.antt =====
-- The three phases of a value, and the steps within and between them.
use malloc_kit.Base.{
  ℕ, ◌≡◌, ◌≢◌, inl, inr, refl, sym, ap, ◌∙◌, arith, subst, Bool, true, false, ◌==◌, Bool-cases,
  ==→ne, eq→==, ne→==, none, some,
}
use malloc_kit.Lazy.{Lazy, Pc, Move, System, at, new, uninitialized, initializing, initialized}

module _ (T F : Type 0) where
  -- Not initialising, and not past `force`.
  abbrev pub waits : Pc T F → Bool
  waits Pc.outside = true
  waits Pc.slow = true
  waits Pc.spinning = true
  waits (Pc.claimed) = false
  waits (Pc.calling f) = false
  waits (Pc.made v) = false
  waits Pc.written = false
  waits Pc.panicked = false
  waits Pc.forced = false

  -- In `force_initialize`.
  abbrev pub initializes : Pc T F → Bool
  initializes Pc.outside = false
  initializes Pc.slow = false
  initializes Pc.spinning = false
  initializes Pc.claimed = true
  initializes (Pc.calling f) = true
  initializes (Pc.made v) = true
  initializes Pc.written = true
  initializes Pc.panicked = true
  initializes Pc.forced = false

  -- What holds of the thread that initialises.
  abbrev pub Owner : Lazy T F → Pc T F → Type 0
  Owner l Pc.outside = ⊥
  Owner l Pc.slow = ⊥
  Owner l Pc.spinning = ⊥
  Owner l Pc.claimed = l.init ≢ none
  Owner l (Pc.calling f) = Unit
  Owner l (Pc.made v) = Unit
  Owner l Pc.written = l.value ≢ none
  Owner l Pc.panicked = ⊥
  Owner l Pc.forced = ⊥

  -- The value is there, and no thread is initialising.
  pub record After (s : System T F) : Type 0 where
    pub done : s.lazy.state ≡ initialized
    pub present : s.lazy.value ≢ none
    pub idle : (i : ℕ) → initializes (s.pc i) ≡ false

  -- The three phases.
  pub data Phase (s : System T F) : Type 0 where
    before :
        s.lazy.state ≡ uninitialized
        → s.lazy.init ≢ none
        → ((i : ℕ) → waits (s.pc i) ≡ true)
        → Phase s
    under_way :
        (j : ℕ)
        → s.lazy.state ≡ initializing
        → Owner s.lazy (s.pc j)
        → ((i : ℕ) → i ≢ j → waits (s.pc i) ≡ true)
        → Phase s
    after : After s → Phase s

  at_self : (pc : ℕ → Pc T F) (i : ℕ) (p : Pc T F) → at T F pc i p i ≡ p
  at_self pc i p = rw (eq→== i i refl) refl

  at_other : (pc : ℕ → Pc T F) (i j : ℕ) (p : Pc T F) → j ≢ i → at T F pc i p j ≡ pc j
  at_other pc i j p ne = rw (ne→== j i ne) refl

  -- What holds of all threads still does when it holds of the new place.
  at_all :
      (b : Pc T F → Bool) (v : Bool) (pc : ℕ → Pc T F) (i : ℕ) (p : Pc T F)
      → ((j : ℕ) → b (pc j) ≡ v)
      → b p ≡ v
      → (j : ℕ) → b (at T F pc i p j) ≡ v
  at_all b v pc i p all new j = elim (Bool-cases (j == i)) [
    | inl same ↦ rw same new
    | inr other ↦ rw other (all j)
  ]

  others :
      (i : ℕ) (pc : ℕ → Pc T F) (p : Pc T F)
      → ((j : ℕ) → j ≢ i → waits (pc j) ≡ true)
      → (j : ℕ) → j ≢ i
      → waits (at T F pc i p j) ≡ true
  others i pc p all j ne = ap waits (at_other pc i j p ne) ∙ all j ne

  -- A thread that waits does not initialise.
  pub quiet : (p : Pc T F) → waits p ≡ true → initializes p ≡ false
  quiet Pc.outside w = refl
  quiet Pc.slow w = refl
  quiet Pc.spinning w = refl
  quiet Pc.claimed w = cc
  quiet (Pc.calling f) w = cc
  quiet (Pc.made v) w = cc
  quiet Pc.written w = cc
  quiet Pc.panicked w = cc
  quiet Pc.forced w = cc

  -- Only thread `i` moves, from one place to another outside the initialisation.
  still :
      (s : System T F) (i j : ℕ) (p : Pc T F)
      → s.lazy.state ≡ initializing
      → Owner s.lazy (s.pc j)
      → ((k : ℕ) → k ≢ j → waits (s.pc k) ≡ true)
      → i ≢ j
      → waits p ≡ true
      → Phase (record { lazy = s.lazy; pc = at T F s.pc i p })
  still s i j p e own all ne w =
      Phase.under_way j e (subst (Owner s.lazy) (sym (at_other s.pc i j p (λ h. ne (sym h)))) own)
        (λ k apart. elim (Bool-cases (k == i)) [
          | inl same ↦ rw same w
          | inr other ↦ rw other (all k apart)
        ])

  settled :
      (s : System T F) (i : ℕ) (p : Pc T F)
      → After s
      → initializes p ≡ false
      → After (record { lazy = s.lazy; pc = at T F s.pc i p }) × (s.lazy.value ≡ s.lazy.value)
  settled s i p v w = (
    record {
      done = v.done;
      present = v.present;
      idle = at_all initializes false s.pc i p v.idle w;
    },
    refl,
  )

  -- A step while no thread has claimed the value.
  pub from_before :
      (s : System T F) (i : ℕ) {p p' : Pc T F} {l' : Lazy T F}
      → s.lazy.state ≡ uninitialized
      → s.lazy.init ≢ none
      → ((j : ℕ) → waits (s.pc j) ≡ true)
      → waits p ≡ true
      → Move T F s.lazy p l' p'
      → Phase (record { lazy = l'; pc = at T F s.pc i p' })
  from_before s i e f all w (Move.load_initialized g) = absurd (omega (arith, e, g))
  from_before s i e f all w (Move.load_other g) =
      Phase.before e f (at_all waits true s.pc i Pc.slow all refl)
  from_before s i e f all w (Move.update g) =
      Phase.under_way i refl
        (subst (Owner (record (s.lazy) { state = initializing })) (sym (at_self s.pc i Pc.claimed))
          f)
        (others i s.pc Pc.claimed (λ j ne. all j))
  from_before s i e f all w (Move.update_initializing g) = absurd (omega (arith, e, g))
  from_before s i e f all w (Move.update_initialized g) = absurd (omega (arith, e, g))
  from_before s i e f all w (Move.take_init g) = cc
  from_before s i e f all w (Move.unwrap_none g) = cc
  from_before s i e f all w (Move.call v) = cc
  from_before s i e f all w Move.write_value = cc
  from_before s i e f all w Move.store_initialized = cc
  from_before s i e f all w (Move.spin_initialized g) = absurd (omega (arith, e, g))
  from_before s i e f all w (Move.spin_again g) =
      Phase.before e f (at_all waits true s.pc i Pc.spinning all refl)
  from_before s i e f all w Move.read = cc

  -- A step of the thread that initialises.
  pub from_owner :
      (s : System T F) (i : ℕ) {p p' : Pc T F} {l' : Lazy T F}
      → s.lazy.state ≡ initializing
      → Owner s.lazy p
      → ((j : ℕ) → j ≢ i → waits (s.pc j) ≡ true)
      → Move T F s.lazy p l' p'
      → Phase (record { lazy = l'; pc = at T F s.pc i p' })
  from_owner s i e own all (Move.load_initialized g) = absurd own
  from_owner s i e own all (Move.load_other g) = absurd own
  from_owner s i e own all (Move.update g) = absurd own
  from_owner s i e own all (Move.update_initializing g) = absurd own
  from_owner s i e own all (Move.update_initialized g) = absurd own
  from_owner s i e own all (Move.take_init {f = f} g) =
      Phase.under_way i e
        (subst (Owner (record (s.lazy) { init = none })) (sym (at_self s.pc i (Pc.calling f))) tt)
        (others i s.pc (Pc.calling f) all)
  from_owner s i e own all (Move.unwrap_none g) = absurd (own g)
  from_owner s i e own all (Move.call v) =
      Phase.under_way i e (subst (Owner s.lazy) (sym (at_self s.pc i (Pc.made v))) tt)
        (others i s.pc (Pc.made v) all)
  from_owner s i e own all (Move.write_value {v = v}) =
      Phase.under_way i e
        (subst (Owner (record (s.lazy) { value = some v })) (sym (at_self s.pc i Pc.written))
          (λ h. cc))
        (others i s.pc Pc.written all)
  from_owner s i e own all Move.store_initialized = Phase.after (record {
    done = refl;
    present = own;
    idle = λ j. elim (Bool-cases (j == i)) [
      | inl same ↦ rw same refl
      | inr other ↦ rw other (quiet (s.pc j) (all j (==→ne j i other)))
    ];
  })
  from_owner s i e own all (Move.spin_initialized g) = absurd own
  from_owner s i e own all (Move.spin_again g) = absurd own
  from_owner s i e own all Move.read = absurd own

  -- A step of another thread meanwhile.
  pub from_other :
      (s : System T F) (i j : ℕ) {p p' : Pc T F} {l' : Lazy T F}
      → s.lazy.state ≡ initializing
      → Owner s.lazy (s.pc j)
      → ((k : ℕ) → k ≢ j → waits (s.pc k) ≡ true)
      → i ≢ j
      → waits p ≡ true
      → Move T F s.lazy p l' p'
      → Phase (record { lazy = l'; pc = at T F s.pc i p' })
  from_other s i j e own all ne w (Move.load_initialized g) = absurd (omega (arith, e, g))
  from_other s i j e own all ne w (Move.load_other g) = still s i j Pc.slow e own all ne refl
  from_other s i j e own all ne w (Move.update g) = absurd (omega (arith, e, g))
  from_other s i j e own all ne w (Move.update_initializing g) =
      still s i j Pc.spinning e own all ne refl
  from_other s i j e own all ne w (Move.update_initialized g) = absurd (omega (arith, e, g))
  from_other s i j e own all ne w (Move.take_init g) = cc
  from_other s i j e own all ne w (Move.unwrap_none g) = cc
  from_other s i j e own all ne w (Move.call v) = cc
  from_other s i j e own all ne w Move.write_value = cc
  from_other s i j e own all ne w Move.store_initialized = cc
  from_other s i j e own all ne w (Move.spin_initialized g) = absurd (omega (arith, e, g))
  from_other s i j e own all ne w (Move.spin_again g) = still s i j Pc.spinning e own all ne refl
  from_other s i j e own all ne w Move.read = cc

  -- A step when the value is there keeps it.
  pub settled_step :
      (s : System T F) (i : ℕ) {p p' : Pc T F} {l' : Lazy T F}
      → After s
      → initializes p ≡ false
      → Move T F s.lazy p l' p'
      → After (record { lazy = l'; pc = at T F s.pc i p' }) × (l'.value ≡ s.lazy.value)
  settled_step s i v w (Move.load_initialized g) = settled s i Pc.forced v refl
  settled_step s i v w (Move.load_other g) = absurd (g v.done)
  settled_step s i v w (Move.update g) = absurd (omega (arith, v.done, g))
  settled_step s i v w (Move.update_initializing g) = settled s i Pc.spinning v refl
  settled_step s i v w (Move.update_initialized g) = settled s i Pc.outside v refl
  settled_step s i v w (Move.take_init g) = cc
  settled_step s i v w (Move.unwrap_none g) = cc
  settled_step s i v w (Move.call x) = cc
  settled_step s i v w Move.write_value = cc
  settled_step s i v w Move.store_initialized = cc
  settled_step s i v w (Move.spin_initialized g) = settled s i Pc.forced v refl
  settled_step s i v w (Move.spin_again g) = absurd (g v.done)
  settled_step s i v w Move.read = settled s i Pc.outside v refl
