-- ===== src/Intrusive/CellList/Taken.antt =====
-- What taking a cell out does to the cells and to the heads: `pop` and `remove`.
use malloc_kit.Base.{
  ℕ, ◌≡◌, ◌≢◌, inl, inr, refl, ap, ◌∙◌, Bool, false, ◌==◌, if◌then◌else◌, Option, none, some, List,
  get_or, set,
}
use malloc_kit.Address.{Address}
use malloc_kit.Linked.{points_to, points_to-cases}
use malloc_kit.Linked.Laws.{Bypassed}
use malloc_kit.Buddy.{pop, remove}
use malloc_kit.Intrusive.CellList.{
  Cell, State, write, write_prev, write_next, is_free, set_as_used, pop_cell, remove_cell,
  intrusive,
}
use malloc_kit.Intrusive.CellList.Writes.{
  prev_of, next_of, write_prev-next, write_prev-mark, write_prev_self, write_prev-other,
  write_next-prev, write_next-mark, write_next_self, write_next-other, cleared, cleared-next,
  cleared-prev, cleared-mark,
}

module _ (self : Address) (n t : ℕ) where
  -- The state after a pop of class `k` that found cell `h`.
  abbrev pub popped : State → (k h : ℕ) → State
  popped s k h =
      let next = (s.cell h).next in
      record { table = set s.table k next; cell = cleared (write_prev s.cell next none) h }

  -- `pop_cell` and `pop` by the head of the list.
  abbrev pop_from : State → ℕ → Option ℕ → Option ℕ × State
  pop_from s k none = (none, s)
  pop_from s k (some h) = (
    some h,
    record {
      table = set s.table k (s.cell h).next;
      cell =
          let m1 = write_prev s.cell (s.cell h).next none in
          write m1 h (record (m1 h) { free = 0; class = 0; owner = 0 });
    },
  )

  pop_cell-eq :
      (s : State) (k : ℕ) (o : Option ℕ)
      → get_or s.table k none ≡ o
      → pop_cell self s k ≡ pop_from s k o
  unfolding pop_cell
  pop_cell-eq s k o e = by_head (get_or s.table k none) ∙ ap (pop_from s k) e
    where
      by_head :
          (o : Option ℕ)
          → elim o [
            | none ↦ (none, s)
            | some head ↦
                let next = (s.cell head).next in
                let m1 = write_prev s.cell next none in
                (
                  some head,
                  record {
                    table = set s.table k next;
                    cell = write m1 head (record (m1 head) { free = 0; class = 0; owner = 0 });
                  },
                )
          ]
            ≡ pop_from s k o
      by_head none = refl
      by_head (some head) = refl

  abbrev use_found : ℕ → Option ℕ × State → Option ℕ × State
  use_found k (none, s) = (none, s)
  use_found k (some h, s) = (some h, set_as_used self s h k)

  pop-eq :
      (s : State) (k : ℕ) (r : Option ℕ × State)
      → pop_cell self s k ≡ r
      → pop (intrusive self n t) s k ≡ use_found k r
  unfolding pop
  pop-eq s k r e = by_result (pop_cell self s k) ∙ ap (use_found k) e
    where
      by_result :
          (r : Option ℕ × State)
          → elim r.0 [ none ↦ (none, r.1) | some unit ↦ (some unit, set_as_used self r.1 unit k) ]
            ≡ use_found k r
      by_result (none, s') = refl
      by_result (some h, s') = refl

  pub pop-none :
      (s : State) (k : ℕ) → get_or s.table k none ≡ none → pop (intrusive self n t) s k ≡ (none, s)
  pop-none s k e = pop-eq s k (none, s) (pop_cell-eq s k none e)

  pub pop-some :
      (s : State) (k h : ℕ)
      → get_or s.table k none ≡ some h
      → pop (intrusive self n t) s k ≡ (some h, popped s k h)
  unfolding set_as_used
  pop-some s k h e = pop-eq s k (pop_from s k (some h)) (pop_cell-eq s k (some h) e)

  pub popped-mark :
      (s : State) (k h v c : ℕ)
      → is_free self (popped s k h) v c ≡ (if v == h then false else is_free self s v c)
  unfolding is_free
  popped-mark s k h v c =
      cleared-mark self (write_prev s.cell (next_of s h) none) h v c
      ∙ ap (λ (b : Bool). if v == h then false else b)
          (write_prev-mark self s.cell (next_of s h) none v c)

  pub popped-next : (s : State) (k h v : ℕ) → next_of (popped s k h) v ≡ next_of s v
  popped-next s k h v =
      cleared-next (write_prev s.cell (next_of s h) none) h v
      ∙ write_prev-next s.cell (next_of s h) none v

  pub popped-prev_next :
      (s : State) (k h v : ℕ) → next_of s h ≡ some v → prev_of (popped s k h) v ≡ none
  popped-prev_next s k h v e =
      cleared-prev (write_prev s.cell (next_of s h) none) h v
      ∙ write_prev_self s.cell (next_of s h) none v e

  pub popped-prev :
      (s : State) (k h v : ℕ) → next_of s h ≢ some v → prev_of (popped s k h) v ≡ prev_of s v
  popped-prev s k h v ne =
      cleared-prev (write_prev s.cell (next_of s h) none) h v
      ∙ write_prev-other s.cell (next_of s h) none v ne

  -- The cells after cell `u` is removed.
  abbrev removed : State → ℕ → ℕ → Cell
  removed s u =
      cleared
        (write_prev (write_next s.cell (prev_of s u) (next_of s u)) (next_of s u) (prev_of s u)) u

  remove-cell : (s : State) (u k : ℕ) → (remove (intrusive self n t) s u k).cell ≡ removed s u
  unfolding remove remove_cell set_as_used
  remove-cell s u k = refl

  pub remove-mark :
      (s : State) (u k v c : ℕ)
      → is_free self (remove (intrusive self n t) s u k) v c
        ≡ (if v == u then false else is_free self s v c)
  unfolding is_free remove remove_cell set_as_used
  remove-mark s u k v c =
      cleared-mark self
        (write_prev (write_next s.cell (prev_of s u) (next_of s u)) (next_of s u) (prev_of s u)) u v
        c
      ∙ ap (λ (b : Bool). if v == u then false else b)
          (write_prev-mark self (write_next s.cell (prev_of s u) (next_of s u)) (next_of s u)
              (prev_of s u) v c
            ∙ write_next-mark self s.cell (prev_of s u) (next_of s u) v c)

  -- The neighbours of a cell that is removed point to each other.
  pub remove-Bypassed :
      (s : State) (u k : ℕ) (us : List ℕ)
      → let s' = remove (intrusive self n t) s u k in
        Bypassed (prev_of s) (next_of s) (prev_of s') (next_of s') u us
  unfolding remove remove_cell set_as_used
  remove-Bypassed s u k us =
      let m1 = write_next s.cell (prev_of s u) (next_of s u) in
      let m2 = write_prev m1 (next_of s u) (prev_of s u) in
      record {
        forth_self = λ v h ne e.
            cleared-next m2 u v
            ∙ write_prev-next m1 (next_of s u) (prev_of s u) v
            ∙ write_next_self s.cell (prev_of s u) (next_of s u) v e;
        forth = λ v h ne e.
            cleared-next m2 u v
            ∙ write_prev-next m1 (next_of s u) (prev_of s u) v
            ∙ write_next-other s.cell (prev_of s u) (next_of s u) v e;
        back_self =
            λ v h ne e. cleared-prev m2 u v ∙ write_prev_self m1 (next_of s u) (prev_of s u) v e;
        back = λ v h ne e.
            cleared-prev m2 u v
            ∙ write_prev-other m1 (next_of s u) (prev_of s u) v e
            ∙ write_next-prev s.cell (prev_of s u) (next_of s u) v;
      }

  -- The heads after a removal: the list of a first cell starts at the next one.
  pub remove-table_first :
      (s : State) (u k : ℕ)
      → prev_of s u ≡ none
      → get_or s.table k none ≡ some u
      → (remove (intrusive self n t) s u k).table ≡ set s.table k (next_of s u)
  unfolding remove remove_cell set_as_used
  remove-table_first s u k first e =
      ap
        (λ (o : Option ℕ).
          let out : List (Option ℕ) = elim o [ some p ↦ s.table | none ↦ here ] in out)
        first
      ∙ elim (points_to-cases (get_or s.table k none) u) [
        | inl yes_head ↦ rw (yes_head.1) refl
        | inr not_head ↦ absurd (not_head.0 e)
      ]
    where
      here : List (Option ℕ)
      here = if points_to (get_or s.table k none) u then set s.table k (next_of s u) else s.table

  pub remove-table_later :
      (s : State) (u k : ℕ)
      → get_or s.table k none ≢ some u
      → (remove (intrusive self n t) s u k).table ≡ s.table
  unfolding remove remove_cell set_as_used
  remove-table_later s u k ne = by_prev (prev_of s u)
    where
      here :
          (if points_to (get_or s.table k none) u then set s.table k (next_of s u) else s.table)
          ≡ s.table
      here = elim (points_to-cases (get_or s.table k none) u) [
        | inl yes_head ↦ absurd (ne yes_head.0)
        | inr not_head ↦ rw (not_head.1) refl
      ]

      by_prev :
          (o : Option ℕ)
          → let out : List (Option ℕ) = elim o [
            | some p ↦ s.table
            | none ↦
                if points_to (get_or s.table k none) u then set s.table k (next_of s u) else s.table
          ] in
            out ≡ s.table
      by_prev none = here
      by_prev (some p) = refl
