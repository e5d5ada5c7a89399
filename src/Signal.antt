-- ===== src/Signal.antt =====
-- src/signal/bc_concurrency_signal.c: the handler of stop signals and the interruptible sleep. This
-- file has the handler; `Signal.Sleep` has the sleep.
pub mod Handling
pub mod Restore
pub mod Sleep
mod Tests
use bc_concurrency.Base.{
  ℕ, zero, suc, ◌+◌, Bool, true, false, not, Option, none, some, leb, ◌==◌, ◌≡◌, if◌then◌else◌,
  update, List, [], ◌∷◌, ◌++◌,
}
use bc_concurrency.Allocator.{Allocator}

-- BC_CONCURRENCY_SIGNAL_MAX_INSTALLED_SIGNALS
abbrev pub max_installed_signals : ℕ
max_installed_signals = 8

-- sizeof(bc_concurrency_signal_handler_t): 8 + 4 + 8 * 4 + 4 (padding) + 8 + 8 * 152
abbrev pub handler_bytes : ℕ
handler_bytes = 1272

-- The signal dispositions of the process, which the kernel keeps: `sigaction number new` answers the
-- old disposition and installs the new one, or answers `none` (a result other than 0).
pub record Kernel : Type 1 where
  pub State : Type 0
  pub Action : Type 0
  pub action : State → ℕ → Action
  pub sigaction : State → ℕ → Action → State × Option Action
  -- `sa_handler = signal_callback_function`, empty mask, no flags
  pub callback : Action
  -- the bytes that bc_core_zero leaves
  pub zero_action : Action

-- The documented behaviour of sigaction(2).
pub record IsKernel (k : Kernel) : Type 0 where
  pub sigaction_some :
      (s : k.State) (n : ℕ) (new old : k.Action) (m : ℕ)
      → (k.sigaction s n new).1 ≡ some old
      → (old ≡ k.action s n) × (k.action (k.sigaction s n new).0 m ≡ update (k.action s) n new m)
  pub sigaction_none :
      (s : k.State) (n : ℕ) (new : k.Action) (m : ℕ)
      → (k.sigaction s n new).1 ≡ none
      → k.action (k.sigaction s n new).0 m ≡ k.action s m
  -- Whether a signal number is accepted does not depend on the disposition.
  pub sigaction_accepts :
      (s t : k.State) (n : ℕ) (new new' : k.Action)
      → (k.sigaction s n new).1 ≡ none
      → (k.sigaction t n new').1 ≡ none

module _ (k : Kernel) (a : Allocator) where
  -- `struct bc_concurrency_signal_handler`
  pub record Handler : Type 0 where
    pub should_stop_flag : ℕ
    pub installed_signal_numbers : ℕ → ℕ
    pub installed_signal_count : ℕ
    pub previous_signal_actions : ℕ → k.Action

  -- Memory, the handlers in it, the kernel's dispositions, and `global_signal_handler_pointer`
  -- (`none` for NULL).
  pub record World : Type 0 where
    pub heap : a.Heap
    pub handlers : ℕ → Handler
    pub kernel : k.State
    pub global : Option ℕ

  abbrev pub new_handler : Handler
  new_handler = record {
    should_stop_flag = 0;
    installed_signal_numbers = λ _. 0;
    installed_signal_count = 0;
    previous_signal_actions = λ _. k.zero_action;
  }

  -- signal_callback_function
  pub deliver : World → World
  deliver w = elim w.global [
    | none ↦ w
    | some p ↦ record w {
      handlers = update w.handlers p (record (w.handlers p) { should_stop_flag = 1 });
    }
  ]

  -- bc_concurrency_signal_handler_create: the handler's address, `none` for false.
  pub create : World → World × Option ℕ
  create w =
      let (heap, block) = a.allocate w.heap handler_bytes in
      elim block [
        | none ↦ (record w { heap = heap }, none)
        | some p ↦ (
          record w { heap = heap; handlers = update w.handlers p new_handler; global = some p },
          some p,
        )
      ]

  -- The loop of `destroy`, over the `n` signals from `i` on; the results of sigaction are ignored.
  pub restore : Handler → ℕ → ℕ → k.State → k.State
  restore h zero i s = s
  restore h (suc n) i s =
      restore h n (i + 1)
        (k.sigaction s (h.installed_signal_numbers i) (h.previous_signal_actions i)).0

  abbrev pub forget : Option ℕ → ℕ → Option ℕ
  forget none p = none
  forget (some g) p = if g == p then none else some g

  -- bc_concurrency_signal_handler_destroy; `none` for a NULL argument.
  pub destroy : World → Option ℕ → World
  destroy w none = w
  destroy w (some p) = record w {
    heap = a.free w.heap p;
    kernel = restore (w.handlers p) (w.handlers p).installed_signal_count 0 w.kernel;
    global = forget w.global p;
  }

  abbrev pub installed : Handler → ℕ → k.Action → Handler
  installed h signal_number old = record h {
    installed_signal_numbers =
        update h.installed_signal_numbers h.installed_signal_count signal_number;
    installed_signal_count = h.installed_signal_count + 1;
    previous_signal_actions = update h.previous_signal_actions h.installed_signal_count old;
  }

  -- bc_concurrency_signal_handler_install
  pub install : World → ℕ → ℕ → World × Bool
  install w p signal_number =
      let (kernel, result) = k.sigaction w.kernel signal_number k.callback in
      let done : World × Bool = elim result [
        | none ↦ (record w { kernel = kernel }, false)
        | some old ↦ (
          record w {
            kernel = kernel;
            handlers = update w.handlers p (installed (w.handlers p) signal_number old);
          },
          true,
        )
      ] in
      if leb max_installed_signals (w.handlers p).installed_signal_count then (w, false) else done

  -- bc_concurrency_signal_handler_should_stop
  pub should_stop : World → ℕ → Bool
  should_stop w p = not ((w.handlers p).should_stop_flag == 0)

  -- A client's `install` calls in order; false at the first that fails.
  pub install_all : World → ℕ → List ℕ → World × Bool
  install_all w p [] = (w, true)
  install_all w p (n ∷ ns) =
      let (w', ok) = install w p n in elim ok [ true ↦ install_all w' p ns | false ↦ (w', false) ]
