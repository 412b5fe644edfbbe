-- ===== src/BlockPages/Threads.antt =====
-- `acquire_block` and `release_block` of mallockit/src/space/page_resource/block_page_resource.rs by several threads, whose loads,
-- stores and exchanges of the shared words interleave in any order.
use malloc_kit.Base.{
  ℕ, ◌<◌, ◌≤◌, ◌≡◌, ◌≢◌, true, Option, none, some, List, ◌∷◌, ◌==◌, if◌then◌else◌, wrapping_add,
  wrapping_sub, ◌<<<◌,
}
use malloc_kit.Address.{Address}
use malloc_kit.Chain.{Memory, has}
use malloc_kit.Linked.{erase}
use malloc_kit.BlockPages.{BlockPageResource, set_next, get_next, count_acquired}

-- Where a thread is, with its local variables.
pub data Pc : Type 0 where
  idle : Pc
  -- In `acquire_block`: at the start of the loop; the head was loaded; its link was read; the stack was empty; a new block was cut; the block is
  -- its own and is to be counted.
  acquiring : Pc
  loaded : Address → Pc
  linked : Address → Option Address → Pc
  empty : Pc
  cut : Address → Pc
  taken : Address → Pc
  -- In `release_block`: before the load; the head was loaded; the link was stored; the block is to be discounted.
  releasing : Address → Pc
  head_loaded : Address → Option Address → Pc
  link_stored : Address → Option Address → Pc
  released : Pc

-- The shared words.
pub record Shared : Type 0 where
  pub resource : BlockPageResource
  pub memory : Memory

abbrev pub with_head : Shared → Option Address → Shared
with_head s head = record s { resource = record (s.resource) { head = head } }

module _ (log_bytes : ℕ) where
  -- One step of a thread, with the blocks that it holds.
  pub data Move (s : Shared) : Pc → List Address → Shared → Pc → List Address → Type 0 where
    start_acquire : {held : List Address} → Move s idle held s acquiring held
    load_head :
        {b : Address} {held : List Address}
        → s.resource.head ≡ some b
        → Move s acquiring held s (loaded b) held
    load_none : {held : List Address} → s.resource.head ≡ none → Move s acquiring held s empty held
    read_next :
        {b : Address} {held : List Address}
        → Move s (loaded b) held s (linked b (get_next s.memory b)) held
    exchange :
        {b : Address} {next : Option Address} {held : List Address}
        → s.resource.head ≡ some b
        → Move s (linked b next) held (with_head s next) (taken b) held
    exchange_fails :
        {b : Address} {next : Option Address} {held : List Address}
        → s.resource.head ≢ some b
        → Move s (linked b next) held s acquiring held
    cut_block :
        {held : List Address}
        → s.resource.cursor < s.resource.highwater
        → Move s empty held
            (record s {
              resource = record (s.resource) {
                cursor = wrapping_add s.resource.cursor (1 <<< log_bytes);
              };
            })
            (cut s.resource.cursor)
            held
    cut_fails :
        {held : List Address}
        → s.resource.highwater ≤ s.resource.cursor
        → Move s empty held s idle held
    clear_next :
        {b : Address} {held : List Address}
        → Move s (cut b) held (record s { memory = set_next s.memory b none }) (taken b) held
    count :
        {b : Address} {held : List Address}
        → Move s
            (taken b)
            held
            (record s { resource = count_acquired log_bytes s.resource })
            idle
            (b ∷ held)
    release :
        {b : Address} {held : List Address}
        → has b held ≡ true
        → Move s idle held s (releasing b) (erase b held)
    load_for_release :
        {b : Address} {held : List Address}
        → Move s (releasing b) held s (head_loaded b s.resource.head) held
    store_next :
        {b : Address} {head : Option Address} {held : List Address}
        → Move s
            (head_loaded b head)
            held
            (record s { memory = set_next s.memory b head })
            (link_stored b head)
            held
    put_back :
        {b : Address} {head : Option Address} {held : List Address}
        → s.resource.head ≡ head
        → Move s (link_stored b head) held (with_head s (some b)) released held
    put_back_fails :
        {b : Address} {head : Option Address} {held : List Address}
        → s.resource.head ≢ head
        → Move s (link_stored b head) held s (releasing b) held
    discount :
        {held : List Address}
        → Move s released held
            (record s {
              resource = record (s.resource) {
                reserved_bytes = wrapping_sub s.resource.reserved_bytes (1 <<< log_bytes);
              };
            })
            idle
            held

  -- A state of the program: each thread has its place and the blocks that it holds.
  pub record System : Type 0 where
    pub shared : Shared
    pub pc : ℕ → Pc
    pub held : ℕ → List Address

  abbrev pub at {ℓ} : {A : Type ℓ} → (ℕ → A) → ℕ → A → ℕ → A
  at f i a j = if j == i then a else f j

  -- A step of thread `i`.
  pub data Step (i : ℕ) (s : System) : System → Type 0 where
    step :
        {p p' : Pc} {held held' : List Address} {shared' : Shared}
        → s.pc i ≡ p
        → s.held i ≡ held
        → Move s.shared p held shared' p' held'
        → Step i s (record { shared = shared'; pc = at s.pc i p'; held = at s.held i held' })

  -- Steps of any threads, in any order.
  pub data Steps (s : System) : System → Type 0 where
    here : Steps s s
    next : {i : ℕ} {t u : System} → Steps s t → Step i t u → Steps s u

  -- Steps of thread `i` while the others wait.
  pub data Alone (i : ℕ) : System → System → Type 0 where
    done : {s : System} → Alone i s s
    then_step : {s t u : System} → Step i s t → Alone i t u → Alone i s u
