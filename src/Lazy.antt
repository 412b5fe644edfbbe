-- ===== src/Lazy.antt =====
-- mallockit/src/util/lazy.rs: `Lazy` with the locality `Shared`, a value that several threads force and that the first of them
-- initialises. The loads, stores and exchanges of the threads interleave in any order.
pub mod Phases
pub mod Laws
pub mod Tests
use malloc_kit.Base.{ℕ, ◌≡◌, ◌≢◌, Option, none, some, ◌==◌, if◌then◌else◌}

abbrev pub uninitialized : ℕ
uninitialized = 2

abbrev pub initializing : ℕ
initializing = 1

abbrev pub initialized : ℕ
initialized = 0

-- `T` is the type of the value, and `F` that of the function that makes it.
module _ (T F : Type 0) where
  pub record Lazy : Type 0 where
    pub state : ℕ
    pub value : Option T
    pub init : Option F

  unfoldable pub new : F → Lazy
  new f = record { state = uninitialized; value = none; init = some f }

  -- Where a thread is.
  pub data Pc : Type 0 where
    -- Outside, in `force_slow`, and in its loop.
    outside : Pc
    slow : Pc
    spinning : Pc
    -- In `force_initialize`: at its start; `f` is called; it has returned; the value was written; there was no `f`.
    claimed : Pc
    calling : F → Pc
    made : T → Pc
    written : Pc
    panicked : Pc
    -- `force` has returned, and the value may be read.
    forced : Pc

  -- One step of a thread.
  pub data Move (l : Lazy) : Pc → Lazy → Pc → Type 0 where
    load_initialized : l.state ≡ initialized → Move l Pc.outside l Pc.forced
    load_other : l.state ≢ initialized → Move l Pc.outside l Pc.slow
    update : l.state ≡ uninitialized → Move l Pc.slow (record l { state = initializing }) Pc.claimed
    update_initializing : l.state ≡ initializing → Move l Pc.slow l Pc.spinning
    update_initialized : l.state ≡ initialized → Move l Pc.slow l Pc.outside
    take_init :
        {f : F} → l.init ≡ some f → Move l Pc.claimed (record l { init = none }) (Pc.calling f)
    unwrap_none : l.init ≡ none → Move l Pc.claimed l Pc.panicked
    -- `f` may return any value.
    call : {f : F} (v : T) → Move l (Pc.calling f) l (Pc.made v)
    write_value : {v : T} → Move l (Pc.made v) (record l { value = some v }) Pc.written
    store_initialized : Move l Pc.written (record l { state = initialized }) Pc.forced
    spin_initialized : l.state ≡ initialized → Move l Pc.spinning l Pc.forced
    spin_again : l.state ≢ initialized → Move l Pc.spinning l Pc.spinning
    -- The thread reads the value and goes on.
    read : Move l Pc.forced l Pc.outside

  pub record System : Type 0 where
    pub lazy : Lazy
    pub pc : ℕ → Pc

  abbrev pub at : (ℕ → Pc) → ℕ → Pc → ℕ → Pc
  at pc i p j = if j == i then p else pc j

  -- A step of thread `i`.
  pub data Step (i : ℕ) (s : System) : System → Type 0 where
    step :
        {p p' : Pc} {lazy' : Lazy}
        → s.pc i ≡ p
        → Move s.lazy p lazy' p'
        → Step i s (record { lazy = lazy'; pc = at s.pc i p' })

  -- Steps of any threads, in any order.
  pub data Steps (s : System) : System → Type 0 where
    here : Steps s s
    next : {i : ℕ} {t u : System} → Steps s t → Step i t u → Steps s u

  -- All threads are outside, and nothing was forced.
  abbrev pub start : F → System
  start f = record { lazy = new f; pc = λ (i : ℕ). Pc.outside }
