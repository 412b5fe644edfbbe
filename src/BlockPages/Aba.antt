-- ===== src/BlockPages/Aba.antt =====
-- Two threads that acquire blocks at the same time may both get the same one.
use malloc_kit.Base.{ℕ, ◌≡◌, ◌≢◌, refl, arith, true, some, List, ◌∷◌}
use malloc_kit.Address.{Address}
use malloc_kit.Chain.{has}
use malloc_kit.Linked.{erase}
use malloc_kit.BlockPages.{get_next, count_acquired}
use malloc_kit.BlockPages.Threads.{Pc, Move, System, Step, Steps}

module _ (log_bytes : ℕ) where
  -- A run with one more step.
  infixl 20 ◌▹◌
  abbrev ◌▹◌ :
      {i : ℕ} {s t u : System log_bytes}
      → Steps log_bytes s t
      → Step log_bytes i t u
      → Steps log_bytes s u
  r ▹ st = Steps.next r st

  abbrev turn : (i : ℕ) {s t : System log_bytes} → Step log_bytes i s t → Step log_bytes i s t
  turn i st = st

  held_first : (a b : Address) (held : List Address) → has a (b ∷ a ∷ held) ≡ true
  held_first a b held = ground arith

  has_self : (b : Address) (held : List Address) → has b (b ∷ held) ≡ true
  has_self b held = ground arith

  has_second : (a b : Address) (held : List Address) → a ≢ b → has b (erase a (b ∷ a ∷ held)) ≡ true
  has_second a b held ne = ground (arith, ne)

  -- On a stack of two blocks or more, there is an order of the steps of two idle threads after which both hold the second
  -- block: between the moment when thread 0 reads the link of the first block and its exchange, thread 1 takes both blocks and
  -- gives the first one back.
  pub aba_lem :
      (s : System log_bytes) (a b : Address)
      → s.pc 0 ≡ Pc.idle
      → s.pc 1 ≡ Pc.idle
      → a ≢ b
      → s.shared.resource.head ≡ some a
      → get_next s.shared.memory a ≡ some b
      → (s' : System log_bytes) × Steps log_bytes s s'
        × (has b (s'.held 0) ≡ true)
        × (has b (s'.held 1) ≡ true)
  unfolding count_acquired
  aba_lem s a b idle0 idle1 ne head next = (
    _,
    Steps.here
        ▹ turn 0 (Step.step idle0 refl Move.start_acquire)
        ▹ turn 0 (Step.step refl refl (Move.load_head head))
        ▹ turn 0 (Step.step refl refl (Move.read_next))
        ▹ turn 1 (Step.step idle1 refl Move.start_acquire)
        ▹ turn 1 (Step.step refl refl (Move.load_head head))
        ▹ turn 1 (Step.step refl refl (Move.read_next))
        ▹ turn 1 (Step.step refl refl (Move.exchange head))
        ▹ turn 1 (Step.step refl refl (Move.count))
        ▹ turn 1 (Step.step refl refl Move.start_acquire)
        ▹ turn 1 (Step.step refl refl (Move.load_head next))
        ▹ turn 1 (Step.step refl refl (Move.read_next))
        ▹ turn 1 (Step.step refl refl (Move.exchange next))
        ▹ turn 1 (Step.step refl refl (Move.count))
        ▹ turn 1 (Step.step refl refl (Move.release (held_first a b (s.held 1))))
        ▹ turn 1 (Step.step refl refl (Move.load_for_release))
        ▹ turn 1 (Step.step refl refl (Move.store_next))
        ▹ turn 1 (Step.step refl refl (Move.put_back refl))
        ▹ turn 1 (Step.step refl refl (Move.discount))
        ▹ turn 0 (Step.step refl refl (Move.exchange refl))
        ▹ turn 0 (Step.step refl refl (Move.count))
        ▹ turn 0 (Step.step refl refl Move.start_acquire)
        ▹ turn 0 (Step.step refl refl (Move.load_head next))
        ▹ turn 0 (Step.step refl refl (Move.read_next))
        ▹ turn 0 (Step.step refl refl (Move.exchange next))
        ▹ turn 0 (Step.step refl refl (Move.count)),
    has_self b (a ∷ s.held 0),
    has_second a b (s.held 1) ne,
  )
