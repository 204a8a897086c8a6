-- ===== src/Exec/SafeReturns.antt =====
-- Func_epilogue of src/interpreter/exec_unit.cxx keeps the invariant of the frames, and succeeds
-- where two frames are left.
use uwasm_vm.Base.{◌-◌, ◌<◌, ◌≡◌, ◌∙◌, ap, sym, refl, arith, false, ltb}
use uwasm_vm.Base.{ok, >>=-eq-ok, ok-injective, lt→ltb}
use uwasm_vm.Machine.Context
use uwasm_vm.Machine.Context.{ExecContext, ContextStack}
use uwasm_vm.Machine.State.{Machine, Module, Func, Counts, packed}
use uwasm_vm.Machine.Call.{get_func, fp_shs_of, restore_frames, func_epilogue}
use uwasm_vm.Machine.Frames.{IsSynced}
use uwasm_vm.Exec.Linked.{IsLinked, IsSafe, IsLinked-top}

-- A return, taken apart.
epilogue_parts :
    (mod_ : Module) (m m' : Machine)
    → func_epilogue mod_ m ≡ ok m'
    → (prev : ExecContext) × (rest : ContextStack) × (caller : Func) × (Context.top m.ctx_stack
        ≡ ok prev)
      × (Context.pop m.ctx_stack ≡ ok rest)
      × (get_func mod_ prev.func_idx ≡ ok caller)
      × (m' ≡ restore_frames (fp_shs_of caller) (record m { current = prev; ctx_stack = rest }))
unfolding func_epilogue
epilogue_parts mod_ m m' e =
    let (prev, top, e1) = >>=-eq-ok (Context.top m.ctx_stack) _ e in
    let (rest, pop, e2) = >>=-eq-ok (Context.pop m.ctx_stack) _ e1 in
    let (caller, found, e3) = >>=-eq-ok (get_func mod_ prev.func_idx) _ e2 in
    (prev, rest, caller, top, pop, found, sym (ok-injective e3))

top_lem :
    (s : ContextStack) (c : ExecContext)
    → Context.top s ≡ ok c
    → (0 < s.depth) × (c ≡ s.ctx_sta (s.depth - 1))
unfolding Context.top
top_lem s c e = (ground arith, ground arith)

pop_lem : (s t : ContextStack) → Context.pop s ≡ ok t → t ≡ record s { depth = s.depth - 1 }
unfolding Context.pop
pop_lem s t e = ground arith

restore-IsSynced :
    (n : Counts) (m : Machine) (prev : ExecContext) (rest : ContextStack)
    → (ltb 0xffff (packed n) ≡ false → m.reg_i64.fp ≡ prev.fp_i64)
    → (ltb 0xffff (packed n) ≡ false → m.reg_f32.fp ≡ prev.fp_f32)
    → (ltb 0xffff (packed n) ≡ false → m.reg_f64.fp ≡ prev.fp_f64)
    → IsSynced (restore_frames n (record m { current = prev; ctx_stack = rest }))
unfolding restore_frames
restore-IsSynced n m prev rest i64 f32 f64 = ground arith

restore_rest :
    (n : Counts) (m : Machine)
    → ((restore_frames n m).current ≡ m.current) × ((restore_frames n m).ctx_stack ≡ m.ctx_stack)
unfolding restore_frames
restore_rest n m = ground arith

-- `restore` after a return, with the parts of the machine named.
restored-IsSafe :
    (mod_ : Module) (n : Counts) (m : Machine) (prev : ExecContext) (rest : ContextStack)
    → IsSynced (restore_frames n (record m { current = prev; ctx_stack = rest }))
    → IsLinked mod_ rest.ctx_sta rest.depth prev
    → IsSafe mod_ (restore_frames n (record m { current = prev; ctx_stack = rest }))
restored-IsSafe mod_ n m prev rest synced linked =
    let (current, stack) = restore_rest n (record m { current = prev; ctx_stack = rest }) in
    record { synced = synced; linked = rw (current, stack) linked }

pub func_epilogue-IsSafe :
    (mod_ : Module) (m m' : Machine) → func_epilogue mod_ m ≡ ok m' → IsSafe mod_ m → IsSafe mod_ m'
func_epilogue-IsSafe mod_ m m' e safe =
    let (prev, rest, caller, top, pop, found, done) = epilogue_parts mod_ m m' e in
    let (some, here) = top_lem m.ctx_stack prev top in
    let (fits, linked) =
      IsLinked-top mod_ m.ctx_stack.ctx_sta m.ctx_stack.depth m.current some safe.linked in
    let known : get_func mod_ prev.func_idx ≡ ok fits.caller = rw here fits.found in
    let same : fits.caller ≡ caller = ok-injective (sym known ∙ found) in
    let rest_eq = pop_lem m.ctx_stack rest pop in
    rw done (
      restored-IsSafe mod_ (fp_shs_of caller) m prev rest
        (restore-IsSynced (fp_shs_of caller) m prev rest
          (λ few. sym safe.synced.i64 ∙ fits.i64 (rw same few) ∙ ap (λ c. c.fp_i64) (sym here))
          (λ few. sym safe.synced.f32 ∙ fits.f32 (rw same few) ∙ ap (λ c. c.fp_f32) (sym here))
          (λ few. sym safe.synced.f64 ∙ fits.f64 (rw same few) ∙ ap (λ c. c.fp_f64) (sym here)))
        (rw (rest_eq, here) linked))

returns :
    (mod_ : Module) (m : Machine) (caller : Func)
    → 1 < m.ctx_stack.depth
    → get_func mod_ (m.ctx_stack.ctx_sta (m.ctx_stack.depth - 1)).func_idx ≡ ok caller
    → func_epilogue mod_ m
      ≡ ok (
          restore_frames (fp_shs_of caller) (record m {
            current = m.ctx_stack.ctx_sta (m.ctx_stack.depth - 1);
            ctx_stack = record m.ctx_stack { depth = m.ctx_stack.depth - 1 };
          }))
unfolding func_epilogue Context.top Context.pop
returns mod_ m caller two found =
    let some : 0 < m.ctx_stack.depth = omega arith in
    rw (lt→ltb 0 m.ctx_stack.depth some, lt→ltb 1 m.ctx_stack.depth two, found) refl

-- Where two frames are left, a return succeeds.
pub func_epilogue-ok :
    (mod_ : Module) (m : Machine)
    → IsSafe mod_ m
    → 1 < m.ctx_stack.depth
    → (m' : Machine) × (func_epilogue mod_ m ≡ ok m')
      × IsSafe mod_ m'
      × (m'.current ≡ m.ctx_stack.ctx_sta (m.ctx_stack.depth - 1))
func_epilogue-ok mod_ m safe two =
    let some : 0 < m.ctx_stack.depth = omega arith in
    let fits =
      (IsLinked-top mod_ m.ctx_stack.ctx_sta m.ctx_stack.depth m.current some safe.linked).0 in
    let e = returns mod_ m fits.caller two fits.found in
    (_, e, func_epilogue-IsSafe mod_ m _ e safe, (restore_rest (fp_shs_of fits.caller) _).0)
