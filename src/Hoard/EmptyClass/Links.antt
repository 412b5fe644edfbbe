-- ===== src/Hoard/EmptyClass/Links.antt =====
-- What the operations on the groups of blocks do to the pointers of the blocks.
use malloc_kit.Base.{
  ℕ, ◌%◌, ◌^◌, ◌≡◌, ◌≢◌, ◌⊎◌, inl, inr, refl, ◌∙◌, arith, true, false, ◌==◌, if◌then◌else◌, Option,
  none, some, List, get_or, set,
}
use malloc_kit.Address.{Address}
use malloc_kit.Linked.{Links, points_to-cases}
use malloc_kit.Linked.Laws.{some-inj, Bypassed}
use malloc_kit.Hoard.EmptyClass.{
  EmptyClass, Metas, is_block, update, set_next, set_prev, push_front, unlink,
}

pub is_block-cases :
    (p : Option Address) (a : Address)
    → (p ≡ some a × (is_block p a ≡ true)) ⊎ (p ≢ some a × (is_block p a ≡ false))
unfolding is_block
is_block-cases none a = inr (λ e. cc, refl)
is_block-cases (some b) a = points_to-cases (some b) a

abbrev pub prev_of : Metas → Links
prev_of m a = (m a).prev

abbrev pub next_of : Metas → Links
next_of m a = (m a).next

pub set_prev-next :
    (m : Metas) (p q : Option Address) (a : Address) → next_of (set_prev m p q) a ≡ next_of m a
unfolding set_prev
set_prev-next m none q a = refl
set_prev-next m (some p) q a = ground arith

pub set_prev-group :
    (m : Metas) (p q : Option Address) (a : Address) → (set_prev m p q a).group ≡ (m a).group
unfolding set_prev
set_prev-group m none q a = refl
set_prev-group m (some p) q a = ground arith

pub set_prev_self :
    (m : Metas) (p q : Option Address) (a : Address) → p ≡ some a → prev_of (set_prev m p q) a ≡ q
unfolding set_prev
set_prev_self m none q a e = cc
set_prev_self m (some p) q a e = ground (arith, some-inj p a e)

pub set_prev-other :
    (m : Metas) (p q : Option Address) (a : Address)
    → p ≢ some a
    → prev_of (set_prev m p q) a ≡ prev_of m a
unfolding set_prev
set_prev-other m none q a ne = refl
set_prev-other m (some p) q a ne = elim (points_to-cases (some p) a) [
  | inl same ↦ absurd (ne same.0)
  | inr other ↦ rw (flip other.1, prev_of) refl
]
  where
    flip : (p == a) ≡ false → (a == p) ≡ false
    flip h = ground (arith, h)

set_next-prev :
    (m : Metas) (p q : Option Address) (a : Address) → prev_of (set_next m p q) a ≡ prev_of m a
unfolding set_next
set_next-prev m none q a = refl
set_next-prev m (some p) q a = ground arith

set_next-group :
    (m : Metas) (p q : Option Address) (a : Address) → (set_next m p q a).group ≡ (m a).group
unfolding set_next
set_next-group m none q a = refl
set_next-group m (some p) q a = ground arith

set_next_self :
    (m : Metas) (p q : Option Address) (a : Address) → p ≡ some a → next_of (set_next m p q) a ≡ q
unfolding set_next
set_next_self m none q a e = cc
set_next_self m (some p) q a e = ground (arith, some-inj p a e)

set_next-other :
    (m : Metas) (p q : Option Address) (a : Address)
    → p ≢ some a
    → next_of (set_next m p q) a ≡ next_of m a
unfolding set_next
set_next-other m none q a ne = refl
set_next-other m (some p) q a ne = elim (points_to-cases (some p) a) [
  | inl same ↦ absurd (ne same.0)
  | inr other ↦ rw (flip other.1, next_of) refl
]
  where
    flip : (p == a) ≡ false → (a == p) ≡ false
    flip h = ground (arith, h)

module _ (groups : EmptyClass) (m : Metas) (b : Address) (g : ℕ) where
  abbrev head : Option Address
  head = get_or groups g none

  -- The metadata after the first step of `push_front`.
  abbrev placed : Metas
  placed = update m b (record (m b) { group = g % 2 ^ 8; next = head; prev = none })

  pub push-groups : (push_front groups m b g).0 ≡ set groups g (some b)
  unfolding push_front
  push-groups = refl

  pub push-next :
      (a : Address) → next_of (push_front groups m b g).1 a ≡ (if a == b then head else next_of m a)
  unfolding push_front
  push-next a = set_prev-next placed head (some b) a ∙ placed_next
    where
      placed_next : next_of placed a ≡ (if a == b then head else next_of m a)
      placed_next = ground arith

  pub push-group :
      (a : Address)
      → ((push_front groups m b g).1 a).group ≡ (if a == b then g % 2 ^ 8 else (m a).group)
  unfolding push_front
  push-group a = set_prev-group placed head (some b) a ∙ placed_group
    where
      placed_group : (placed a).group ≡ (if a == b then g % 2 ^ 8 else (m a).group)
      placed_group = ground arith

  pub push-prev_head :
      (a : Address) → head ≡ some a → prev_of (push_front groups m b g).1 a ≡ some b
  unfolding push_front
  push-prev_head a e = set_prev_self placed head (some b) a e

  pub push-prev :
      (a : Address)
      → head ≢ some a
      → prev_of (push_front groups m b g).1 a ≡ (if a == b then none else prev_of m a)
  unfolding push_front
  push-prev a ne = set_prev-other placed head (some b) a ne ∙ placed_prev
    where
      placed_prev : prev_of placed a ≡ (if a == b then none else prev_of m a)
      placed_prev = ground arith

  abbrev bypassing : Metas
  bypassing = set_next m (prev_of m b) (next_of m b)

  pub unlink-group : (a : Address) → ((unlink groups m b g).1 a).group ≡ (m a).group
  unfolding unlink
  unlink-group a =
      set_prev-group bypassing (next_of bypassing b) (prev_of bypassing b) a
      ∙ set_next-group m (prev_of m b) (next_of m b) a

  -- When the block is not its own neighbour, its neighbours point to each other.
  pub unlink-Bypassed :
      (us : List Address)
      → prev_of m b ≢ some b
      → Bypassed
          (prev_of m)
          (next_of m)
          (prev_of (unlink groups m b g).1)
          (next_of (unlink groups m b g).1)
          b
          us
  unfolding unlink
  unlink-Bypassed us apart =
      let after : next_of bypassing b ≡ next_of m b =
        set_next-other m (prev_of m b) (next_of m b) b apart in
      let before : prev_of bypassing b ≡ prev_of m b =
        set_next-prev m (prev_of m b) (next_of m b) b in
      rw (after, before)
        (record {
          forth_self = λ a h ne e.
              set_prev-next bypassing (next_of m b) (prev_of m b) a
              ∙ set_next_self m (prev_of m b) (next_of m b) a e;
          forth = λ a h ne e.
              set_prev-next bypassing (next_of m b) (prev_of m b) a
              ∙ set_next-other m (prev_of m b) (next_of m b) a e;
          back_self = λ a h ne e. set_prev_self bypassing (next_of m b) (prev_of m b) a e;
          back = λ a h ne e.
              set_prev-other bypassing (next_of m b) (prev_of m b) a e
              ∙ set_next-prev m (prev_of m b) (next_of m b) a;
        })
