-- ===== src/Hoard/EmptyClass/Kept.antt =====
-- The operations on the groups write only the links and the mark of a block: what does not depend on these is kept.
use malloc_kit.Base.{
  ℕ, ◌≡◌, inl, inr, refl, sym, ap, ◌∙◌, ◌==◌, Bool-cases, ==→eq, Option, none, some, get_or,
}
use malloc_kit.Address.{Address}
use malloc_kit.Hoard.SuperBlock.{BlockMeta}
use malloc_kit.Hoard.EmptyClass.{
  EmptyClass, Metas, update, is_block, set_prev, set_next, push_front, unlink, transfer,
}

module _ (f : BlockMeta → ℕ)
    (stable : (meta : BlockMeta) (group : ℕ) (next prev : Option Address)
      → f (record meta { group = group; next = next; prev = prev }) ≡ f meta) where
  pub update-kept :
      (m : Metas) (b : Address) (meta : BlockMeta)
      → f meta ≡ f (m b)
      → (a : Address) → f (update m b meta a) ≡ f (m a)
  update-kept m b meta same a = elim (Bool-cases (a == b)) [
    | inl here ↦ rw here (same ∙ ap (λ (x : Address). f (m x)) (sym (==→eq a b here)))
    | inr other ↦ rw other refl
  ]

  set_prev-kept : (m : Metas) (p q : Option Address) (a : Address) → f (set_prev m p q a) ≡ f (m a)
  unfolding set_prev
  set_prev-kept m none q a = refl
  set_prev-kept m (some p) q a =
      update-kept m p (record (m p) { prev = q }) (stable (m p) (m p).group (m p).next q) a

  set_next-kept : (m : Metas) (p q : Option Address) (a : Address) → f (set_next m p q a) ≡ f (m a)
  unfolding set_next
  set_next-kept m none q a = refl
  set_next-kept m (some p) q a =
      update-kept m p (record (m p) { next = q }) (stable (m p) (m p).group q (m p).prev) a

  push_front-kept :
      (groups : EmptyClass) (m : Metas) (b g : ℕ) (a : Address)
      → f ((push_front groups m b g).1 a) ≡ f (m a)
  unfolding push_front
  push_front-kept groups m b g a =
      set_prev-kept _ _ _ a ∙ update-kept m b _ (stable (m b) _ (get_or groups g none) none) a

  unlink-kept :
      (groups : EmptyClass) (m : Metas) (b g : ℕ) (a : Address)
      → f ((unlink groups m b g).1 a) ≡ f (m a)
  unfolding unlink
  unlink-kept groups m b g a = set_prev-kept _ _ _ a ∙ set_next-kept m (m b).prev (m b).next a

  pub transfer-kept :
      (groups : EmptyClass) (m : Metas) (b oldg newg : ℕ) (a : Address)
      → f ((transfer groups m b oldg newg).1 a) ≡ f (m a)
  unfolding transfer
  transfer-kept groups m b oldg newg a = elim (Bool-cases (is_block (get_or groups newg none) b)) [
    | inl first ↦ rw first refl
    | inr later ↦ elim (Bool-cases (newg == oldg)) [
      | inl same ↦ rw (later, same) refl
      | inr other ↦
          rw (later, other)
            (push_front-kept (unlink groups m b oldg).0 (unlink groups m b oldg).1 b newg a
              ∙ unlink-kept groups m b oldg a)
    ]
  ]
