-- ===== src/BlockPages/Progress.antt =====
-- A thread that runs alone finishes its call, wherever the others wait.
use malloc_kit.Base.{
  ℕ, ◌≤◌, ◌<◌, ◌≡◌, ◌≢◌, ◌⊎◌, inl, inr, refl, ap, ◌∙◌, arith, Option, none, some, List, ◌==◌, eq→==,
  if◌then◌else◌,
}
use malloc_kit.Address.{Address}
use malloc_kit.Linked.{points_to-cases}
use malloc_kit.BlockPages.{get_next}
use malloc_kit.BlockPages.Threads.{Shared, Pc, Move, System, Step, Alone, at}

at_self {ℓ} : {A : Type ℓ} (f : ℕ → A) (i : ℕ) (a : A) → (if i == i then a else f i) ≡ a
at_self f i a = rw (eq→== i i refl) refl

same_head : (p q : Option Address) → (p ≡ q) ⊎ (p ≢ q)
same_head none none = inl refl
same_head none (some b) = inr (λ e. cc)
same_head (some a) none = inr (λ e. cc)
same_head (some a) (some b) = elim (points_to-cases (some a) b) [
  | inl same ↦ inl same.0
  | inr other ↦ inr other.0
]

module _ (log_bytes i : ℕ) where
  -- The thread has no call under way after some steps of its own.
  pub Finishes : System log_bytes → Type 0
  Finishes s = (t : System log_bytes) × Alone log_bytes i s t × (t.pc i ≡ Pc.idle)

  -- A step to a place from which the thread finishes.
  via :
      (s : System log_bytes) {p p' : Pc} {held held' : List Address} {shared' : Shared}
      → s.pc i ≡ p
      → s.held i ≡ held
      → Move log_bytes s.shared p held shared' p' held'
      → ((t : System log_bytes) → t.shared ≡ shared' → t.pc i ≡ p' → Finishes t)
      → Finishes s
  unfolding Finishes
  via s {p' = p'} {held' = held'} {shared' = shared'} e h move rest =
      let t : System log_bytes = record {
        shared = shared';
        pc = at log_bytes s.pc i p';
        held = at log_bytes s.held i held';
      } in
      let (last, steps, idle) = rest t refl (at_self s.pc i p') in
      (last, Alone.then_step (Step.step e h move) steps, idle)

  from_idle : (s : System log_bytes) → s.pc i ≡ Pc.idle → Finishes s
  unfolding Finishes
  from_idle s e = (s, Alone.done, e)

  from_released : (s : System log_bytes) → s.pc i ≡ Pc.released → Finishes s
  from_released s e = via s e refl Move.discount (λ t shared pc. from_idle t pc)

  from_taken : (s : System log_bytes) (b : Address) → s.pc i ≡ Pc.taken b → Finishes s
  from_taken s b e = via s e refl Move.count (λ t shared pc. from_idle t pc)

  from_cut : (s : System log_bytes) (b : Address) → s.pc i ≡ Pc.cut b → Finishes s
  from_cut s b e = via s e refl Move.clear_next (λ t shared pc. from_taken t b pc)

  from_empty : (s : System log_bytes) → s.pc i ≡ Pc.empty → Finishes s
  from_empty s e = elim (room s.shared.resource.cursor s.shared.resource.highwater) [
    | inl under ↦
        via s e refl (Move.cut_block under) (λ t shared pc. from_cut t s.shared.resource.cursor pc)
    | inr over ↦ via s e refl (Move.cut_fails over) (λ t shared pc. from_idle t pc)
  ]
    where
      room : (c h : ℕ) → (c < h) ⊎ (h ≤ c)
      room c h = omega arith

  -- While no other thread runs, the exchange finds the head that was loaded.
  from_acquiring : (s : System log_bytes) → s.pc i ≡ Pc.acquiring → Finishes s
  from_acquiring s e = by_head s.shared.resource.head refl
    where
      by_head : (o : Option Address) → s.shared.resource.head ≡ o → Finishes s
      by_head none empty = via s e refl (Move.load_none empty) (λ t shared pc. from_empty t pc)
      by_head (some b) head = via s e refl (Move.load_head head) (λ t shared pc.
          via t pc refl Move.read_next (λ u shared' pc'.
            via u pc' refl
              (Move.exchange (ap (λ (x : Shared). x.resource.head) (shared' ∙ shared) ∙ head))
              (λ w shared'' pc''. from_taken w b pc'')))

  from_linked :
      (s : System log_bytes) (b : Address) (next : Option Address)
      → s.pc i ≡ Pc.linked b next
      → Finishes s
  from_linked s b next e = elim (same_head s.shared.resource.head (some b)) [
    | inl same ↦ via s e refl (Move.exchange same) (λ t shared pc. from_taken t b pc)
    | inr other ↦ via s e refl (Move.exchange_fails other) (λ t shared pc. from_acquiring t pc)
  ]

  from_loaded : (s : System log_bytes) (b : Address) → s.pc i ≡ Pc.loaded b → Finishes s
  from_loaded s b e =
      via s e refl Move.read_next (λ t shared pc. from_linked t b (get_next s.shared.memory b) pc)

  -- While no other thread runs, the head is still the one that was loaded.
  from_stored_same :
      (s : System log_bytes) (b : Address) (head : Option Address)
      → s.shared.resource.head ≡ head
      → s.pc i ≡ Pc.link_stored b head
      → Finishes s
  from_stored_same s b head same e =
      via s e refl (Move.put_back same) (λ t shared pc. from_released t pc)

  from_releasing : (s : System log_bytes) (b : Address) → s.pc i ≡ Pc.releasing b → Finishes s
  from_releasing s b e = via s e refl Move.load_for_release (λ t shared pc.
      via t pc refl Move.store_next (λ u shared' pc'.
        from_stored_same u b s.shared.resource.head
          (ap (λ (x : Shared). x.resource.head) shared'
            ∙ ap (λ (x : Shared). x.resource.head) shared)
          pc'))

  from_stored :
      (s : System log_bytes) (b : Address) (head : Option Address)
      → s.pc i ≡ Pc.link_stored b head
      → Finishes s
  from_stored s b head e = elim (same_head s.shared.resource.head head) [
    | inl same ↦ from_stored_same s b head same e
    | inr other ↦ via s e refl (Move.put_back_fails other) (λ t shared pc. from_releasing t b pc)
  ]

  from_head_loaded :
      (s : System log_bytes) (b : Address) (head : Option Address)
      → s.pc i ≡ Pc.head_loaded b head
      → Finishes s
  from_head_loaded s b head e =
      via s e refl Move.store_next (λ t shared pc. from_stored t b head pc)

  -- From any state, a thread that runs alone ends its call of `acquire_block` or `release_block`, and so its loops, in some steps.
  pub alone-Finishes : (s : System log_bytes) → Finishes s
  alone-Finishes s = by_pc (s.pc i) refl
    where
      by_pc : (p : Pc) → s.pc i ≡ p → Finishes s
      by_pc Pc.idle e = from_idle s e
      by_pc Pc.acquiring e = from_acquiring s e
      by_pc (Pc.loaded b) e = from_loaded s b e
      by_pc (Pc.linked b next) e = from_linked s b next e
      by_pc Pc.empty e = from_empty s e
      by_pc (Pc.cut b) e = from_cut s b e
      by_pc (Pc.taken b) e = from_taken s b e
      by_pc (Pc.releasing b) e = from_releasing s b e
      by_pc (Pc.head_loaded b head) e = from_head_loaded s b head e
      by_pc (Pc.link_stored b head) e = from_stored s b head e
      by_pc Pc.released e = from_released s e
