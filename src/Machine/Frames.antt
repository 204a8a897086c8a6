-- ===== src/Machine/Frames.antt =====
-- What calls and returns keep (src/interpreter/exec_unit.cxx).
use uwasm_vm.Base.{ℕ, ◌+◌, ◌<◌, ◌≡◌, ◌∙◌, arith, false, ltb, ◌||◌}
use uwasm_vm.Base.{Result-cases, err-ne-ok, inl, inr, Result, ok}
use uwasm_vm.Machine.Context
use uwasm_vm.Machine.Context.{ExecContext, ContextStack}
use uwasm_vm.Machine.State.{Machine, Module, Func, Counts, packed}
use uwasm_vm.Machine.Call.{
  get_func, fp_shs_of, shift_frames, alloc_registers, enter_code, func_prologue,
}

-- The frame pointers of the current context are those of the register files.
pub record IsSynced (m : Machine) : Type 0 where
  pub i32 : m.current.fp_i32 ≡ m.reg_i32.fp
  pub i64 : m.current.fp_i64 ≡ m.reg_i64.fp
  pub f32 : m.current.fp_f32 ≡ m.reg_f32.fp
  pub f64 : m.current.fp_f64 ≡ m.reg_f64.fp

-- Nothing is left over: the same frames, the same frame pointers.
pub record IsBalanced (m m' : Machine) : Type 0 where
  pub depth : m'.ctx_stack.depth ≡ m.ctx_stack.depth
  pub frames : (i : ℕ) → i < m.ctx_stack.depth → m'.ctx_stack.ctx_sta i ≡ m.ctx_stack.ctx_sta i
  pub i32 : m'.reg_i32.fp ≡ m.reg_i32.fp
  pub i64 : m'.reg_i64.fp ≡ m.reg_i64.fp
  pub f32 : m'.reg_f32.fp ≡ m.reg_f32.fp
  pub f64 : m'.reg_f64.fp ≡ m.reg_f64.fp

pub shift_frames-IsSynced : (n : Counts) (m : Machine) → IsSynced m → IsSynced (shift_frames n m)
unfolding shift_frames
shift_frames-IsSynced n m s = ground arith

alloc_registers-IsSynced : (n : Counts) (m : Machine) → IsSynced m → IsSynced (alloc_registers n m)
unfolding alloc_registers
alloc_registers-IsSynced n m s = ground arith

enter_code-IsSynced :
    (f : Func) (m m' : Machine) → enter_code f m ≡ ok m' → IsSynced m → IsSynced m'
unfolding enter_code
enter_code-IsSynced f m m' e s = ground (arith)

-- A call that has been entered: the caller's context is on top of the stack, over the frames that
-- were there, and the frame pointers that a return leaves alone have not moved.
pub record IsEntered (mod_ : Module) (m m' : Machine) : Type 0 where
  pub caller : Func
  pub found : get_func mod_ m.current.func_idx ≡ ok caller
  pub depth : m'.ctx_stack.depth ≡ m.ctx_stack.depth + 1
  pub saved : m'.ctx_stack.ctx_sta m.ctx_stack.depth ≡ m.current
  pub frames : (i : ℕ) → i < m.ctx_stack.depth → m'.ctx_stack.ctx_sta i ≡ m.ctx_stack.ctx_sta i
  pub i64 : ltb 0xffff (packed (fp_shs_of caller)) ≡ false → m'.reg_i64.fp ≡ m.reg_i64.fp
  pub f32 : ltb 0xffff (packed (fp_shs_of caller)) ≡ false → m'.reg_f32.fp ≡ m.reg_f32.fp
  pub f64 : ltb 0xffff (packed (fp_shs_of caller)) ≡ false → m'.reg_f64.fp ≡ m.reg_f64.fp

pub push_lem :
    (s t : ContextStack) (c : ExecContext)
    → Context.push s c ≡ ok t
    → (t.depth ≡ s.depth + 1)
      × (t.ctx_sta s.depth ≡ c)
      × ((i : ℕ) → i < s.depth → t.ctx_sta i ≡ s.ctx_sta i)
unfolding Context.push
push_lem s t c e = (ground arith, ground arith, λ i h. ground arith)

enter_code_keeps :
    (f : Func) (m m' : Machine)
    → enter_code f m ≡ ok m'
    → (m'.ctx_stack ≡ m.ctx_stack)
      × (m'.reg_i64.fp ≡ m.reg_i64.fp)
      × (m'.reg_f32.fp ≡ m.reg_f32.fp)
      × (m'.reg_f64.fp ≡ m.reg_f64.fp)
unfolding enter_code
enter_code_keeps f m m' e = ground arith

pub shift_frames_keeps : (n : Counts) (m : Machine) → (shift_frames n m).ctx_stack ≡ m.ctx_stack
unfolding shift_frames
shift_frames_keeps n m = ground arith

pub shift_frames_few :
    (n : Counts) (m : Machine)
    → ltb 0xffff (packed n) ≡ false
    → ((shift_frames n m).reg_i64.fp ≡ m.reg_i64.fp)
      × ((shift_frames n m).reg_f32.fp ≡ m.reg_f32.fp)
      × ((shift_frames n m).reg_f64.fp ≡ m.reg_f64.fp)
unfolding shift_frames
shift_frames_few n m few = ground arith

module _ (mod_ : Module) (call_sys_call : ℕ → Machine → Result Machine) (callee_idx : ℕ)
    (m : Machine) where
  -- What the prologue does to reach code: the steps that it consists of.
  prologue_steps :
      (callee : Func) (m' : Machine)
      → get_func mod_ callee_idx ≡ ok callee
      → (callee.is_extern || callee.is_native) ≡ false
      → func_prologue mod_ call_sys_call callee_idx m ≡ ok m'
      → (caller : Func) × (stack : ContextStack) × (get_func mod_ m.current.func_idx ≡ ok caller)
        × (Context.push m.ctx_stack m.current ≡ ok stack)
        × (enter_code callee (
              shift_frames (fp_shs_of caller) (record m {
                ctx_stack = stack;
                current = record m.current { func_idx = callee_idx };
              }))
            ≡ ok m')
  unfolding func_prologue
  prologue_steps callee m' found has_code e =
      elim (Result-cases (get_func mod_ m.current.func_idx)) [
        | inl (caller, known) ↦ elim (Result-cases (Context.push m.ctx_stack m.current)) [
          | inl (stack, pushed) ↦
              (caller, stack, known, pushed, rw (found, known, pushed, has_code) at e)
          | inr (f, bad) ↦ absurd (err-ne-ok (rw (found, known, bad) at e))
        ]
        | inr (f, bad) ↦ absurd (err-ne-ok (rw (found, bad) at e))
      ]

  -- Calling a function with code leaves the frame pointers of the context and of the register
  -- files equal.
  pub func_prologue-IsSynced :
      (callee : Func) (m' : Machine)
      → get_func mod_ callee_idx ≡ ok callee
      → (callee.is_extern || callee.is_native) ≡ false
      → func_prologue mod_ call_sys_call callee_idx m ≡ ok m'
      → IsSynced m
      → IsSynced m'
  func_prologue-IsSynced callee m' found has_code e s =
      let (caller, stack, known, pushed, entered) = prologue_steps callee m' found has_code e in
      enter_code-IsSynced callee _ m' entered (
        shift_frames-IsSynced (fp_shs_of caller) _
          (record { i32 = s.i32; i64 = s.i64; f32 = s.f32; f64 = s.f64 }))

  pub func_prologue-IsEntered :
      (callee : Func) (m' : Machine)
      → get_func mod_ callee_idx ≡ ok callee
      → (callee.is_extern || callee.is_native) ≡ false
      → func_prologue mod_ call_sys_call callee_idx m ≡ ok m'
      → IsEntered mod_ m m'
  func_prologue-IsEntered callee m' found has_code e =
      let (caller, stack, known, pushed, entered) = prologue_steps callee m' found has_code e in
      entered_by caller stack known pushed (enter_code_keeps callee _ m' entered)
    where
      entered_by :
          (caller : Func) (stack : ContextStack)
          → get_func mod_ m.current.func_idx ≡ ok caller
          → Context.push m.ctx_stack m.current ≡ ok stack
          → (let shifted : Machine = shift_frames (fp_shs_of caller) (record m {
            ctx_stack = stack;
            current = record m.current { func_idx = callee_idx };
          }) in
              (m'.ctx_stack ≡ shifted.ctx_stack)
              × (m'.reg_i64.fp ≡ shifted.reg_i64.fp)
              × (m'.reg_f32.fp ≡ shifted.reg_f32.fp)
              × (m'.reg_f64.fp ≡ shifted.reg_f64.fp))
          → IsEntered mod_ m m'
      entered_by caller stack known pushed (same_stack, i64, f32, f64) =
          let start : Machine = record m {
            ctx_stack = stack;
            current = record m.current { func_idx = callee_idx };
          } in
          let (depth, saved, frames) = push_lem m.ctx_stack stack m.current pushed in
          let kept : m'.ctx_stack ≡ stack =
            same_stack ∙ shift_frames_keeps (fp_shs_of caller) start in
          record {
            caller = caller;
            found = known;
            depth = rw kept depth;
            saved = rw kept saved;
            frames = rw kept frames;
            i64 = λ few. i64 ∙ (shift_frames_few (fp_shs_of caller) start few).0;
            f32 = λ few. f32 ∙ (shift_frames_few (fp_shs_of caller) start few).1;
            f64 = λ few. f64 ∙ (shift_frames_few (fp_shs_of caller) start few).2;
          }
