-- ===== src/Exec/SafeRun.antt =====
-- The states that the loop of Exec_start (src/interpreter/exec_unit.cxx) reaches, and what holds in
-- all of them.
use uwasm_vm.Base.{ℕ, ◌-◌, ◌/◌, ◌%◌, ◌<◌, ◌≡◌, some, none, get_elem?}
use uwasm_vm.Base.{ok, err, >>=-eq-ok, ok-injective, in_bounds, assertion}
use mathlib.Core.Path.{subst}
use uwasm_vm.Isa.Table.{op_of}
use uwasm_vm.Machine.State.{Machine, Module}
use uwasm_vm.Machine.Call.{init_env, func_epilogue}
use uwasm_vm.Machine.Frames.{IsSynced}
use uwasm_vm.Exec.Step.{
  Host, Next, advance, stay, stop, Outcome, running, stopped, finish, step, dispatch, valty_of,
}
use uwasm_vm.Exec.Keeps.{inc_machine_pc-SameFrames}
use uwasm_vm.Exec.Linked.{IsSafe, SameFrames-IsSafe}
use uwasm_vm.Exec.SafeReturns.{func_epilogue-ok}
use uwasm_vm.Exec.SafeCalls.{init_env-IsSafe}
use uwasm_vm.Exec.SafeOps.{HostKeeps, machine_of, dispatch-IsSafe}

-- The machines at the start of the iterations of a run that starts with `m`.
pub data Reaches (mod_ : Module) (h : Host) (m : Machine) : Machine → Type 0 where
  start : Reaches mod_ h m m
  next : {n k : Machine} → Reaches mod_ h m n → step mod_ h n ≡ ok (running k) → Reaches mod_ h m k

abbrev pub outcome_machine : Outcome → Machine
outcome_machine (running m) = m
outcome_machine (stopped m) = m

module _ (mod_ : Module) (h : Host) where
  -- A run that begins with a step.
  pub Reaches-cons :
      (m n : Machine) {k : Machine}
      → step mod_ h m ≡ ok (running n)
      → Reaches mod_ h n k
      → Reaches mod_ h m k
  Reaches-cons m n first start = next start first
  Reaches-cons m n first (next reached stepped) = next (Reaches-cons m n first reached) stepped

  finish-IsSafe : (n : Next) → IsSafe mod_ (machine_of n) → IsSafe mod_ (outcome_machine (finish n))
  finish-IsSafe (advance m) safe = SameFrames-IsSafe mod_ m _ (inc_machine_pc-SameFrames m) safe
  finish-IsSafe (stay m) safe = safe
  finish-IsSafe (stop m) safe = safe

  step-IsSafe :
      HostKeeps h
      → (m : Machine) (o : Outcome) → step mod_ h m ≡ ok o
      → IsSafe mod_ m
      → IsSafe mod_ (outcome_machine o)
  unfolding step
  step-IsSafe host m o e safe =
      let (entry, _, e1) = >>=-eq-ok (in_bounds (get_elem? m.table m.current.pc)) _ e in
      let (op, _, e2) =
        >>=-eq-ok (elim (op_of (entry.opcode_l / 4)) [ some o ↦ ok o | none ↦ err assertion ]) _
          e1 in
      let (n, made, e3) =
        >>=-eq-ok (dispatch mod_ h m.current.pc op (valty_of (entry.opcode_l % 4)) entry m) _ e2 in
      subst (λ t. IsSafe mod_ (outcome_machine t)) (ok-injective e3)
        (finish-IsSafe n (
          dispatch-IsSafe mod_ h host m.current.pc op (valty_of (entry.opcode_l % 4)) entry m n made
            safe))

  reached-IsSafe :
      HostKeeps h → (m n : Machine) → Reaches mod_ h m n → IsSafe mod_ m → IsSafe mod_ n
  reached-IsSafe host m _ start safe = safe
  reached-IsSafe host m k (next {n} reached stepped) safe =
      step-IsSafe host n (running k) stepped (reached-IsSafe host m n reached safe)

  -- In every machine that a run reaches from Init_env, the frame pointers of the register files are
  -- those of the current context, and every frame of the context stack belongs to a known function
  -- and has the frame pointers that a return to it leaves alone. The context stack is empty before
  -- Init_env, and the system calls do not touch frames.
  pub reached_from_init-IsSafe :
      HostKeeps h
      → (func_idx : ℕ) (m m0 n : Machine) → IsSynced m
      → m.ctx_stack.depth ≡ 0
      → init_env mod_ func_idx m ≡ ok m0
      → Reaches mod_ h m0 n
      → IsSafe mod_ n
  reached_from_init-IsSafe host func_idx m m0 n synced empty starts reached =
      reached-IsSafe host m0 n reached (init_env-IsSafe mod_ func_idx m m0 starts synced empty)

  -- In every machine that a run reaches from Init_env and that has two frames left, the one of
  -- Init_env and another, a return succeeds: the saved context is current again, and the frame
  -- pointers of the four register files are its own. The context stack is empty before Init_env, and
  -- the system calls do not touch frames.
  pub func_epilogue-reached :
      HostKeeps h
      → (func_idx : ℕ) (m m0 n : Machine) → IsSynced m
      → m.ctx_stack.depth ≡ 0
      → init_env mod_ func_idx m ≡ ok m0
      → Reaches mod_ h m0 n
      → 1 < n.ctx_stack.depth
      → (n' : Machine) × (func_epilogue mod_ n ≡ ok n')
        × (n'.current ≡ n.ctx_stack.ctx_sta (n.ctx_stack.depth - 1))
        × IsSynced n'
  func_epilogue-reached host func_idx m m0 n synced empty starts reached left =
      let safe = reached_from_init-IsSafe host func_idx m m0 n synced empty starts reached in
      let (n', returned, still, current) = func_epilogue-ok mod_ n safe left in
      (n', returned, current, still.synced)
