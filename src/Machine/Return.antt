-- ===== src/Machine/Return.antt =====
-- A call with its return (Func_prologue and Func_epilogue of src/interpreter/exec_unit.cxx).
use uwasm_vm.Base.{ℕ, ◌+◌, ◌-◌, ◌<◌, ◌≡◌, ◌∙◌, ap, sym, refl, arith, false, ltb, ◌||◌}
use uwasm_vm.Base.{lt→ltb, Result, ok}
use uwasm_vm.Machine.Context
use uwasm_vm.Machine.Context.{ExecContext, ContextStack}
use uwasm_vm.Machine.State.{Machine, Module, Func, Counts, packed}
use uwasm_vm.Machine.Call.{get_func, fp_shs_of, restore_frames, func_epilogue, func_prologue}
use uwasm_vm.Machine.Frames.{IsSynced, IsBalanced, IsEntered, func_prologue-IsEntered}

-- The machine after the return.
abbrev pub returned : Func → Machine → Machine → Machine
returned caller m m2 = restore_frames (fp_shs_of caller) (record m2 {
  current = m.current;
  ctx_stack = record m2.ctx_stack { depth = m2.ctx_stack.depth - 1 };
})

module _ (mod_ : Module) (m m1 m2 : Machine) where
  epilogue_steps :
      (entered : IsEntered mod_ m m1)
      → IsBalanced m1 m2
      → 0 < m.ctx_stack.depth
      → func_epilogue mod_ m2 ≡ ok (returned entered.caller m m2)
  unfolding func_epilogue Context.top Context.pop
  epilogue_steps entered body some =
      let depth : m2.ctx_stack.depth ≡ m.ctx_stack.depth + 1 =
        omega (arith, body.depth, entered.depth) in
      let saved : m2.ctx_stack.ctx_sta (m2.ctx_stack.depth - 1) ≡ m.current =
        ap m2.ctx_stack.ctx_sta (omega arith)
        ∙ body.frames m.ctx_stack.depth (omega (arith, entered.depth))
        ∙ entered.saved in
      let some_left : 0 < m2.ctx_stack.depth = omega arith in
      let two_left : 1 < m2.ctx_stack.depth = omega arith in
      rw
        (
          lt→ltb 0 m2.ctx_stack.depth some_left,
          lt→ltb 1 m2.ctx_stack.depth two_left,
          saved,
          entered.found,
        )
        refl

restore_keeps :
    (n : Counts) (m m2 : Machine)
    → IsSynced m
    → m2.current ≡ m.current
    → (ltb 0xffff (packed n) ≡ false → m2.reg_i64.fp ≡ m.reg_i64.fp)
    → (ltb 0xffff (packed n) ≡ false → m2.reg_f32.fp ≡ m.reg_f32.fp)
    → (ltb 0xffff (packed n) ≡ false → m2.reg_f64.fp ≡ m.reg_f64.fp)
    → ((restore_frames n m2).reg_i32.fp ≡ m.reg_i32.fp)
      × ((restore_frames n m2).reg_i64.fp ≡ m.reg_i64.fp)
      × ((restore_frames n m2).reg_f32.fp ≡ m.reg_f32.fp)
      × ((restore_frames n m2).reg_f64.fp ≡ m.reg_f64.fp)
unfolding restore_frames
restore_keeps n m m2 s same i64 f32 f64 = ground arith

restore_frames_rest :
    (n : Counts) (m : Machine)
    → ((restore_frames n m).current ≡ m.current)
      × ((restore_frames n m).ctx_stack ≡ m.ctx_stack)
      × ((restore_frames n m).mem ≡ m.mem)
      × ((restore_frames n m).globals ≡ m.globals)
unfolding restore_frames
restore_frames_rest n m = ground arith

module _ (mod_ : Module) (call_sys_call : ℕ → Machine → Result Machine) (callee_idx : ℕ) where
  -- A call of a function with code, whose body leaves the context stack and the frame pointers as
  -- it found them, returns: the epilogue succeeds, the caller's context is current again, frames
  -- and frame pointers are those before the call, and memory and globals those that the body left.
  -- The frame pointers of the context and of the register files must agree before the call, and
  -- they agree after it; the context stack has a frame before the call, as after Init_env.
  pub func_epilogue-func_prologue :
      (m m1 m2 : Machine) (callee : Func)
      → get_func mod_ callee_idx ≡ ok callee
      → (callee.is_extern || callee.is_native) ≡ false
      → IsSynced m
      → 0 < m.ctx_stack.depth
      → func_prologue mod_ call_sys_call callee_idx m ≡ ok m1
      → IsBalanced m1 m2
      → (m3 : Machine) × (func_epilogue mod_ m2 ≡ ok m3)
        × (m3.current ≡ m.current)
        × IsBalanced m m3
        × IsSynced m3
        × (m3.mem ≡ m2.mem)
        × (m3.globals ≡ m2.globals)
  func_epilogue-func_prologue m m1 m2 callee found has_code synced some called body =
      after
        (func_prologue-IsEntered mod_ call_sys_call callee_idx m callee m1 found has_code called)
    where
      after :
          IsEntered mod_ m m1
          → (m3 : Machine) × (func_epilogue mod_ m2 ≡ ok m3)
            × (m3.current ≡ m.current)
            × IsBalanced m m3
            × IsSynced m3
            × (m3.mem ≡ m2.mem)
            × (m3.globals ≡ m2.globals)
      after entered =
          let n : Counts = fp_shs_of entered.caller in
          let back : Machine = record m2 {
            current = m.current;
            ctx_stack = record m2.ctx_stack { depth = m2.ctx_stack.depth - 1 };
          } in
          let (i32, i64, f32, f64) =
            restore_keeps n m back synced refl (λ few. body.i64 ∙ entered.i64 few)
              (λ few. body.f32 ∙ entered.f32 few) (λ few. body.f64 ∙ entered.f64 few) in
          let (same_current, same_stack, same_mem, same_globals) = restore_frames_rest n back in
          let depth : m2.ctx_stack.depth ≡ m.ctx_stack.depth + 1 =
            omega (arith, body.depth, entered.depth) in
          (
            restore_frames n back,
            epilogue_steps mod_ m m1 m2 entered body some,
            same_current,
            record {
              depth = rw same_stack (omega arith);
              frames = λ i h.
                  rw same_stack (body.frames i (omega (arith, entered.depth)) ∙ entered.frames i h);
              i32 = i32;
              i64 = i64;
              f32 = f32;
              f64 = f64;
            },
            record {
              i32 = rw same_current (synced.i32 ∙ sym i32);
              i64 = rw same_current (synced.i64 ∙ sym i64);
              f32 = rw same_current (synced.f32 ∙ sym f32);
              f64 = rw same_current (synced.f64 ∙ sym f64);
            },
            same_mem,
            same_globals,
          )
