-- ===== src/Lazy/Tests.antt =====
-- Thread 0 makes the value 5 while thread 1 waits for it.
use malloc_kit.Base.{ℕ, ◌≡◌, ◌≢◌, arith, refl, some}
use malloc_kit.Lazy.{Pc, Move, System, Step, Steps, start, new, initialized}
use malloc_kit.Lazy.Laws.{alone_lem, forced_lem}

-- A run with one more step.
infixl 20 ◌▹◌
abbrev ◌▹◌ : {i : ℕ} {s t u : System ℕ ℕ} → Steps ℕ ℕ s t → Step ℕ ℕ i t u → Steps ℕ ℕ s u
r ▹ st = Steps.next r st

abbrev turn : (i : ℕ) {s t : System ℕ ℕ} → Step ℕ ℕ i s t → Step ℕ ℕ i s t
turn i st = st

new-state : (new ℕ ℕ 7).state ≡ 2
unfolding new
new-state = refl

new-init : (new ℕ ℕ 7).init ≡ some 7
unfolding new
new-init = refl

-- Thread 0 has claimed the value.
abbrev claimed : (s : System ℕ ℕ) × Steps ℕ ℕ (start ℕ ℕ 7) s
claimed = (
  _,
  Steps.here
      ▹ turn 0 (Step.step refl (Move.load_other (λ e. absurd (omega (arith, e, new-state)))))
      ▹ turn 1 (Step.step refl (Move.load_other (λ e. absurd (omega (arith, e, new-state)))))
      ▹ turn 0 (Step.step refl (Move.update new-state)),
)

abbrev first : ℕ
first = 0

alone_example : (first ≡ first) × (claimed.0.pc first ≢ Pc.panicked)
alone_example = alone_lem ℕ ℕ 7 claimed.0 first first claimed.1 refl refl

-- It has made the value, and `force` has returned to it.
abbrev made : (s : System ℕ ℕ) × Steps ℕ ℕ (start ℕ ℕ 7) s
made = (
  _,
  claimed.1
      ▹ turn 1 (Step.step refl (Move.update_initializing refl))
      ▹ turn 0 (Step.step refl (Move.take_init new-init))
      ▹ turn 0 (Step.step refl (Move.call 5))
      ▹ turn 0 (Step.step refl Move.write_value)
      ▹ turn 0 (Step.step refl Move.store_initialized),
)

-- Then thread 1 sees the value.
abbrev seen : (s : System ℕ ℕ) × Steps ℕ ℕ made.0 s
seen = (_, Steps.here ▹ turn 1 (Step.step refl (Move.spin_initialized refl)))

forced_example :
    (seen.0.lazy.state ≡ initialized)
    × ((v : ℕ) × (made.0.lazy.value ≡ some v) × (seen.0.lazy.value ≡ some v))
forced_example = forced_lem ℕ ℕ 7 made.0 seen.0 0 made.1 refl seen.1
