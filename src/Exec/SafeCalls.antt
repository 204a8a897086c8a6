-- ===== src/Exec/SafeCalls.antt =====
-- Func_prologue and Init_env of src/interpreter/exec_unit.cxx keep the invariant of the frames.
use uwasm_vm.Base.{ℕ, suc, ◌≡◌, ◌∙◌, ap, sym, arith, false}
use uwasm_vm.Base.{Result, ok, >>=-eq-ok, ok-injective, ◌||◌, Bool, true, if◌then◌else◌}
use mathlib.Core.Path.{subst}
use uwasm_vm.Machine.Context
use uwasm_vm.Machine.Context.{ExecContext, ContextStack}
use uwasm_vm.Machine.Register
use uwasm_vm.Machine.Register.{Register}
use uwasm_vm.Machine.State.{Machine, Module, Func, Counts}
use uwasm_vm.Machine.Call.{
  get_func, fp_shs_of, allocate_stack, shift_frames, func_epilogue, enter_code, enter_native,
  func_prologue, init_env, alloc_some,
}
use uwasm_vm.Machine.Frames.{
  IsSynced, push_lem, shift_frames-IsSynced, shift_frames_keeps, shift_frames_few,
}
use uwasm_vm.Exec.SafeReturns.{func_epilogue-IsSafe}
use uwasm_vm.Exec.Keeps.{SameFrames, Keeps, inc_machine_pc-SameFrames}
use uwasm_vm.Exec.Linked.{Fits, IsLinked, IsSafe, IsLinked-below, SameFrames-IsSafe}

-- The callee's frame, before its registers and its stack.
abbrev called : Func → ContextStack → ℕ → Machine → Machine
called caller stack callee_idx m =
    shift_frames (fp_shs_of caller)
      (record m { ctx_stack = stack; current = record m.current { func_idx = callee_idx } })

called-IsSafe :
    (mod_ : Module) (m : Machine) (caller : Func) (stack : ContextStack) (callee_idx : ℕ)
    → get_func mod_ m.current.func_idx ≡ ok caller
    → Context.push m.ctx_stack m.current ≡ ok stack
    → IsSafe mod_ m
    → IsSafe mod_ (called caller stack callee_idx m)
called-IsSafe mod_ m caller stack callee_idx found pushed safe =
    let start : Machine = record m {
      ctx_stack = stack;
      current = record m.current { func_idx = callee_idx };
    } in
    let n : Counts = fp_shs_of caller in
    let synced : IsSynced (shift_frames n start) = shift_frames-IsSynced n start (record {
      i32 = safe.synced.i32;
      i64 = safe.synced.i64;
      f32 = safe.synced.f32;
      f64 = safe.synced.f64;
    }) in
    let (depth, saved, frames) = push_lem m.ctx_stack stack m.current pushed in
    let fits : Fits mod_ m.current (shift_frames n start).current = record {
      caller = caller;
      found = found;
      i64 = λ few. synced.i64 ∙ (shift_frames_few n start few).0 ∙ sym safe.synced.i64;
      f32 = λ few. synced.f32 ∙ (shift_frames_few n start few).1 ∙ sym safe.synced.f32;
      f64 = λ few. synced.f64 ∙ (shift_frames_few n start few).2 ∙ sym safe.synced.f64;
    } in
    let below : IsLinked mod_ stack.ctx_sta m.ctx_stack.depth m.current =
      IsLinked-below mod_ m.ctx_stack.ctx_sta stack.ctx_sta m.ctx_stack.depth m.current frames
        safe.linked in
    let linked : IsLinked mod_ stack.ctx_sta (suc m.ctx_stack.depth)
        (shift_frames n start).current =
      (rw saved fits, rw saved below) in
    let deeper : suc m.ctx_stack.depth ≡ stack.depth = omega arith in
    record {
      synced = synced;
      linked =
          rw (shift_frames_keeps n start) (
            subst (λ d. IsLinked mod_ stack.ctx_sta d (shift_frames n start).current) deeper
              linked);
    }

enter_code-Keeps : (callee : Func) (m : Machine) → Keeps m (enter_code callee m)
unfolding enter_code
enter_code-Keeps callee m m' e = ground arith

enter_native-IsSafe :
    (mod_ : Module) (call_sys_call : ℕ → Machine → Result Machine) (callee_idx : ℕ)
    → ((m : Machine) → Keeps m (call_sys_call callee_idx m))
    → (m m' : Machine) → enter_native mod_ call_sys_call callee_idx m ≡ ok m'
    → IsSafe mod_ m
    → IsSafe mod_ m'
unfolding enter_native
enter_native-IsSafe mod_ call_sys_call callee_idx keeps m m' e safe =
    let (done, e1, e2) = >>=-eq-ok (call_sys_call callee_idx m) _ e in
    let (back, e3, e4) = >>=-eq-ok (func_epilogue mod_ done) _ e2 in
    let returned =
      func_epilogue-IsSafe mod_ done back e3
        (SameFrames-IsSafe mod_ m done (keeps m done e1) safe) in
    SameFrames-IsSafe mod_ back m'
      (subst (λ t. SameFrames back t) (ok-injective e4) (inc_machine_pc-SameFrames back)) returned

module _ (mod_ : Module) (call_sys_call : ℕ → Machine → Result Machine) (callee_idx : ℕ)
    (keeps : (m : Machine) → Keeps m (call_sys_call callee_idx m)) where
  entered-IsSafe :
      (callee : Func) (m m' : Machine) (native : Bool)
      → (if native then enter_native mod_ call_sys_call callee_idx m else enter_code callee m)
        ≡ ok m'
      → IsSafe mod_ m
      → IsSafe mod_ m'
  entered-IsSafe callee m m' true e safe =
      enter_native-IsSafe mod_ call_sys_call callee_idx keeps m m' e safe
  entered-IsSafe callee m m' false e safe =
      SameFrames-IsSafe mod_ m m' (enter_code-Keeps callee m m' e) safe

  pub func_prologue-IsSafe :
      (m m' : Machine)
      → func_prologue mod_ call_sys_call callee_idx m ≡ ok m'
      → IsSafe mod_ m
      → IsSafe mod_ m'
  unfolding func_prologue
  func_prologue-IsSafe m m' e safe =
      let (callee, _, e1) = >>=-eq-ok (get_func mod_ callee_idx) _ e in
      let (caller, found, e2) = >>=-eq-ok (get_func mod_ m.current.func_idx) _ e1 in
      let (stack, pushed, e3) = >>=-eq-ok (Context.push m.ctx_stack m.current) _ e2 in
      entered-IsSafe callee (called caller stack callee_idx m) m'
        (callee.is_extern || callee.is_native) e3
        (called-IsSafe mod_ m caller stack callee_idx found pushed safe)

allocate_stack_keeps :
    (f : Func) (c c' : ExecContext)
    → allocate_stack f c ≡ ok c'
    → (c'.fp_i32 ≡ c.fp_i32)
      × (c'.fp_i64 ≡ c.fp_i64)
      × (c'.fp_f32 ≡ c.fp_f32)
      × (c'.fp_f64 ≡ c.fp_f64)
unfolding allocate_stack
allocate_stack_keeps f c c' e = ground arith

alloc_some_keeps : (r : Register) (n : ℕ) → (alloc_some r n).fp ≡ r.fp
unfolding Register.alloc
alloc_some_keeps r n = ground arith

-- Init_env establishes the invariant where the context stack was empty.
pub init_env-IsSafe :
    (mod_ : Module) (func_idx : ℕ) (m m' : Machine)
    → init_env mod_ func_idx m ≡ ok m'
    → IsSynced m
    → m.ctx_stack.depth ≡ 0
    → IsSafe mod_ m'
unfolding init_env
init_env-IsSafe mod_ func_idx m m' e synced empty =
    let bottom : ExecContext = record m.current { func_idx = func_idx; pc = mod_.end_pc } in
    let (f, found, e1) = >>=-eq-ok (get_func mod_ func_idx) _ e in
    let (stack, pushed, e2) = >>=-eq-ok (Context.push m.ctx_stack bottom) _ e1 in
    let (ctx, allocated, e3) =
      >>=-eq-ok (allocate_stack f (record bottom { label_tab = f.labels; pc = f.base; sp = m.sta }))
        _ e2 in
    let (i32, i64, f32, f64) = allocate_stack_keeps f _ ctx allocated in
    let (depth, pushed_at, frames) = push_lem m.ctx_stack stack bottom pushed in
    let saved : stack.ctx_sta 0 ≡ bottom = ap stack.ctx_sta (sym empty) ∙ pushed_at in
    let fits : Fits mod_ (stack.ctx_sta 0) ctx = record {
      caller = f;
      found = rw saved found;
      i64 = λ few. i64 ∙ ap (λ c. c.fp_i64) (sym saved);
      f32 = λ few. f32 ∙ ap (λ c. c.fp_f32) (sym saved);
      f64 = λ few. f64 ∙ ap (λ c. c.fp_f64) (sym saved);
    } in
    let one : 1 ≡ stack.depth = omega arith in
    subst (λ t. IsSafe mod_ t) (ok-injective e3)
      (record {
        synced = record {
          i32 = i32 ∙ synced.i32 ∙ sym (alloc_some_keeps m.reg_i32 _);
          i64 = i64 ∙ synced.i64 ∙ sym (alloc_some_keeps m.reg_i64 _);
          f32 = f32 ∙ synced.f32 ∙ sym (alloc_some_keeps m.reg_f32 _);
          f64 = f64 ∙ synced.f64 ∙ sym (alloc_some_keeps m.reg_f64 _);
        };
        linked = subst (λ d. IsLinked mod_ stack.ctx_sta d ctx) one (fits, tt);
      })
