-- ===== src/Intrusive/CellList/Cells.antt =====
-- What a push and a split do to the cells and to the heads.
use malloc_kit.Base.{
  ℕ, ◌-◌, ◌%◌, ◌^◌, ◌≡◌, ◌≢◌, refl, ap, ◌∙◌, arith, Bool, false, ◌==◌, if◌then◌else◌, Option, none,
  some, get_or, set,
}
use malloc_kit.Address.{Address}
use malloc_kit.Buddy.{sibling, push}
use malloc_kit.Intrusive.CellList.{
  State, write_prev, is_free, set_as_free, set_as_used, push_cell, split_cell, intrusive,
}
use malloc_kit.Intrusive.CellList.Writes.{
  prev_of, next_of, mark, write_prev-next, write_prev-mark, write_prev_self, write_prev-other,
  finished-next, finished-prev, finished-mark, marked, marked-owner, marked-next, marked-prev,
  write_prev-owner, unmarked, unmarked-mark, unmarked-prev, unmarked-next,
}

module _ (self : Address) (n t : ℕ) where
  -- Pushing a cell marks it, and changes no other mark.
  pub push-mark :
      (s : State) (unit k v c : ℕ)
      → is_free self (push (intrusive self n t) s unit k) v c
        ≡ (if v == unit then k % 2 ^ 32 == c % 2 ^ 32 else is_free self s v c)
  unfolding push push_cell set_as_free is_free
  push-mark s unit k v c =
      let head = get_or s.table k none in
      let m1 = marked self s.cell unit k in
      finished-mark self (write_prev m1 head (some unit)) unit k head v c
        (write_prev-owner m1 head (some unit) unit ∙ marked-owner self s.cell unit k)
      ∙ ap (λ (b : Bool). if v == unit then k % 2 ^ 32 == c % 2 ^ 32 else b)
          (write_prev-mark self m1 head (some unit) v c)
      ∙ unmarked v c (mark self (m1 v) c) (λ other. rw other refl)
    where
      unmarked :
          (v c : ℕ) (b : Bool)
          → ((v == unit) ≡ false → b ≡ mark self (s.cell v) c)
          → (if v == unit then k % 2 ^ 32 == c % 2 ^ 32 else b)
            ≡ (if v == unit then k % 2 ^ 32 == c % 2 ^ 32 else mark self (s.cell v) c)
      unmarked v c b same = ground (arith, same)

  pub push-table :
      (s : State) (unit k : ℕ)
      → (push (intrusive self n t) s unit k).table ≡ set s.table k (some unit)
  unfolding push push_cell set_as_free
  push-table s unit k = refl

  pub push-next :
      (s : State) (unit k v : ℕ)
      → next_of (push (intrusive self n t) s unit k) v
        ≡ (if v == unit then get_or s.table k none else next_of s v)
  unfolding push push_cell set_as_free
  push-next s unit k v =
      let head = get_or s.table k none in
      let m1 = marked self s.cell unit k in
      finished-next (write_prev m1 head (some unit)) unit k head v
      ∙ ap (λ (o : Option ℕ). if v == unit then head else o) (write_prev-next m1 head (some unit) v)
      ∙ ap (λ (o : Option ℕ). if v == unit then head else o) (marked-next self s.cell unit k v)

  pub push-prev :
      (s : State) (unit k v : ℕ)
      → get_or s.table k none ≢ some v
      → prev_of (push (intrusive self n t) s unit k) v ≡ (if v == unit then none else prev_of s v)
  unfolding push push_cell set_as_free
  push-prev s unit k v ne =
      let head = get_or s.table k none in
      let m1 = marked self s.cell unit k in
      finished-prev (write_prev m1 head (some unit)) unit k head v
      ∙ write_prev-other m1 head (some unit) v ne
      ∙ marked-prev self s.cell unit k v

  pub push-prev_head :
      (s : State) (unit k v : ℕ)
      → get_or s.table k none ≡ some v
      → prev_of (push (intrusive self n t) s unit k) v ≡ some unit
  unfolding push push_cell set_as_free
  push-prev_head s unit k v e =
      let head = get_or s.table k none in
      let m1 = marked self s.cell unit k in
      finished-prev (write_prev m1 head (some unit)) unit k head v
      ∙ write_prev_self m1 head (some unit) v e

  -- Splitting marks both halves as in use.
  pub split-mark :
      (s : State) (u class v c : ℕ)
      → is_free self (split_cell self s u class) v c ≡ (
          if v == sibling u (class - 1)
          then false
          else if v == u
          then false
          else is_free self s v c)
  unfolding is_free split_cell set_as_used
  split-mark s u class v c =
      let m = unmarked s.cell u in
      unmarked-mark self m (sibling u (class - 1)) v c
      ∙ ap (λ (b : Bool). if v == sibling u (class - 1) then false else b)
          (unmarked-mark self s.cell u v c)

  pub split-prev : (s : State) (u class v : ℕ) → prev_of (split_cell self s u class) v ≡ prev_of s v
  unfolding split_cell set_as_used
  split-prev s u class v =
      unmarked-prev (unmarked s.cell u) (sibling u (class - 1)) v ∙ unmarked-prev s.cell u v

  pub split-next : (s : State) (u class v : ℕ) → next_of (split_cell self s u class) v ≡ next_of s v
  unfolding split_cell set_as_used
  split-next s u class v =
      unmarked-next (unmarked s.cell u) (sibling u (class - 1)) v ∙ unmarked-next s.cell u v

  pub split-table : (s : State) (u class : ℕ) → (split_cell self s u class).table ≡ s.table
  unfolding split_cell set_as_used
  split-table s u class = refl
