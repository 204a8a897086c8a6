-- ===== src/Exec/SafeOps.antt =====
-- Every instruction of the switch of Exec_start (src/interpreter/exec_unit.cxx) keeps the
-- invariant of the frames.
use uwasm_vm.Base.{ℕ, ◌≡◌}
use uwasm_vm.Base.{Result, ok, >>=-eq-ok, ok-injective, err-ne-ok}
use mathlib.Core.Path.{subst}
use uwasm_vm.Isa.Opcode
use uwasm_vm.Isa.Opcode.{Valty, Op, i32, i64, f32, f64}
use uwasm_vm.Isa.Expand.{AmExpand}
use uwasm_vm.Machine.State.{Machine, Module, get_reg}
use uwasm_vm.Exec.Step.{
  Host, Next, advance, stay, stop, advancing, staying, call_indirect, dispatch,
}
use uwasm_vm.Exec.Keeps.{Keeps, with_table-SameFrames, jmp-Keeps}
use uwasm_vm.Exec.Linked.{IsSafe, SameFrames-IsSafe}
use uwasm_vm.Exec.SafeReturns.{func_epilogue-IsSafe}
use uwasm_vm.Exec.SafeCalls.{func_prologue-IsSafe}
use uwasm_vm.Exec.Steady.{
  add_ri-Keeps, add_rr-Keeps, add_rri-Keeps, adds-Keeps, arith_op-Keeps, compare-Keeps,
  const_l-Keeps, const_l_high-Keeps, const_short-Keeps, ctz-Keeps, eqz-Keeps, gget-Keeps,
  glda-Keeps, gset-Keeps, jmp_indirect-Keeps, jump_cmp-Keeps, jump_cmp_l-Keeps, jump_zero-Keeps,
  llda-Keeps, llda_l-Keeps, lload-Keeps, load-Keeps, lstore-Keeps, memorygrow-Keeps,
  memorysize-Keeps, mov-Keeps, popcnt-Keeps, rotl-Keeps, rotr-Keeps, store-Keeps, subs-Keeps,
}
use uwasm_vm.Exec.ConvertKeeps.{
  builtin-Keeps, ceil-Keeps, conv_f32-Keeps, conv_f64-Keeps, conv_i32-Keeps, conv_i32_u-Keeps,
  conv_i64-Keeps, floor-Keeps, neg-Keeps, reinterpret_f32-Keeps, reinterpret_f64-Keeps,
  reinterpret_i32-Keeps, reinterpret_i64-Keeps, sqrt-Keeps,
}

abbrev pub machine_of : Next → Machine
machine_of (advance m) = m
machine_of (stay m) = m
machine_of (stop m) = m

-- The system calls leave the frames alone.
abbrev pub HostKeeps : Host → Type 0
HostKeeps h = (callee_idx : ℕ) (m : Machine) → Keeps m (h.call_sys_call callee_idx m)

module _ (mod_ : Module) (h : Host) (host : HostKeeps h) where
  advancing-IsSafe :
      (r : Result Machine) (n : Next)
      → ((m' : Machine) → r ≡ ok m' → IsSafe mod_ m')
      → advancing r ≡ ok n
      → IsSafe mod_ (machine_of n)
  advancing-IsSafe r n safely e =
      let (m', made, done) = >>=-eq-ok r _ e in
      subst (λ t. IsSafe mod_ (machine_of t)) (ok-injective done) (safely m' made)

  staying-IsSafe :
      (r : Result Machine) (n : Next)
      → ((m' : Machine) → r ≡ ok m' → IsSafe mod_ m')
      → staying r ≡ ok n
      → IsSafe mod_ (machine_of n)
  staying-IsSafe r n safely e =
      let (m', made, done) = >>=-eq-ok r _ e in
      subst (λ t. IsSafe mod_ (machine_of t)) (ok-injective done) (safely m' made)

  advancing_kept :
      {m : Machine} {r : Result Machine} {n : Next}
      → Keeps m r
      → advancing r ≡ ok n
      → IsSafe mod_ m
      → IsSafe mod_ (machine_of n)
  advancing_kept {m} {r} {n} keeps e safe =
      advancing-IsSafe r n (λ m' made. SameFrames-IsSafe mod_ m m' (keeps m' made) safe) e

  staying_kept :
      {m : Machine} {r : Result Machine} {n : Next}
      → Keeps m r
      → staying r ≡ ok n
      → IsSafe mod_ m
      → IsSafe mod_ (machine_of n)
  staying_kept {m} {r} {n} keeps e safe =
      staying-IsSafe r n (λ m' made. SameFrames-IsSafe mod_ m m' (keeps m' made) safe) e

  call_indirect-IsSafe :
      (pc : ℕ) (e : AmExpand) (m m' : Machine)
      → call_indirect mod_ h pc e m ≡ ok m'
      → IsSafe mod_ m
      → IsSafe mod_ m'
  unfolding call_indirect
  call_indirect-IsSafe pc e m m' r safe =
      let (ofs, got, entered) = >>=-eq-ok (get_reg i32 m e.expand1) _ r in
      func_prologue-IsSafe mod_ h.call_sys_call ofs (host ofs) _ m' entered
        (SameFrames-IsSafe mod_ m _ (with_table-SameFrames m _) safe)

  pub dispatch-IsSafe :
      (pc : ℕ) (o : Op) (v : Valty) (e : AmExpand) (m : Machine) (n : Next)
      → dispatch mod_ h pc o v e m ≡ ok n
      → IsSafe mod_ m
      → IsSafe mod_ (machine_of n)
  unfolding dispatch
  dispatch-IsSafe pc Opcode.break v e m n r safe =
      subst (λ t. IsSafe mod_ (machine_of t)) (ok-injective r) safe
  dispatch-IsSafe pc Opcode.nop v e m n r safe =
      subst (λ t. IsSafe mod_ (machine_of t)) (ok-injective r) safe
  dispatch-IsSafe pc Opcode.call v e m n r safe =
      staying-IsSafe _ n
        (λ m' made.
          func_prologue-IsSafe mod_ h.call_sys_call e.expand3 (host e.expand3) m m' made safe)
        r
  dispatch-IsSafe pc Opcode.call_indirect v e m n r safe =
      staying-IsSafe _ n (λ m' made. call_indirect-IsSafe pc e m m' made safe) r
  dispatch-IsSafe pc Opcode.return v e m n r safe =
      advancing-IsSafe _ n (λ m' made. func_epilogue-IsSafe mod_ m m' made safe) r
  dispatch-IsSafe pc Opcode.unreach v e m n r safe = absurd (err-ne-ok r)
  dispatch-IsSafe pc Opcode.select v e m n r safe = absurd (err-ne-ok r)
  dispatch-IsSafe pc Opcode.unused v e m n r safe = absurd (err-ne-ok r)
  dispatch-IsSafe pc Opcode.jmp v e m n r safe = staying_kept (jmp-Keeps e.expand3 m) r safe
  dispatch-IsSafe pc Opcode.jmp_indirect v e m n r safe =
      staying_kept (jmp_indirect-Keeps h.floats v e m pc) r safe
  dispatch-IsSafe pc (Opcode.jump_zero t) v e m n r safe =
      staying_kept (jump_zero-Keeps h.floats v e m t) r safe
  dispatch-IsSafe pc (Opcode.jump_cmp c) v e m n r safe =
      staying_kept (jump_cmp-Keeps h.floats v e m c) r safe
  dispatch-IsSafe pc (Opcode.jump_cmp_l c) v e m n r safe =
      staying_kept (jump_cmp_l-Keeps h.floats v e m c) r safe
  dispatch-IsSafe pc Opcode.memorysize v e m n r safe =
      advancing_kept (memorysize-Keeps h.floats v e m) r safe
  dispatch-IsSafe pc Opcode.memorygrow v e m n r safe =
      advancing_kept (memorygrow-Keeps h.floats v e m h.realloc) r safe
  dispatch-IsSafe pc Opcode.add_ri v e m n r safe =
      advancing_kept (add_ri-Keeps h.floats v e m) r safe
  dispatch-IsSafe pc Opcode.llda v e m n r safe = advancing_kept (llda-Keeps h.floats v e m) r safe
  dispatch-IsSafe pc Opcode.glda v e m n r safe =
      advancing_kept (glda-Keeps h.floats v e m mod_) r safe
  dispatch-IsSafe pc Opcode.mov v e m n r safe = advancing_kept (mov-Keeps h.floats v e m) r safe
  dispatch-IsSafe pc Opcode.add_rr v e m n r safe =
      advancing_kept (add_rr-Keeps h.floats v e m) r safe
  dispatch-IsSafe pc Opcode.const_short v e m n r safe =
      advancing_kept (const_short-Keeps h.floats v e m) r safe
  dispatch-IsSafe pc Opcode.adds_i v e m n r safe =
      advancing_kept (add_rri-Keeps h.floats v e m) r safe
  dispatch-IsSafe pc (Opcode.load a) v e m n r safe =
      advancing_kept (load-Keeps h.floats v e m a) r safe
  dispatch-IsSafe pc (Opcode.store s) v e m n r safe =
      advancing_kept (store-Keeps h.floats v e m s) r safe
  dispatch-IsSafe pc (Opcode.lload a) v e m n r safe =
      advancing_kept (lload-Keeps h.floats v e m a) r safe
  dispatch-IsSafe pc (Opcode.lstore s) v e m n r safe =
      advancing_kept (lstore-Keeps h.floats v e m s) r safe
  dispatch-IsSafe pc Opcode.adds v e m n r safe = advancing_kept (adds-Keeps h.floats v e m) r safe
  dispatch-IsSafe pc Opcode.subs v e m n r safe = advancing_kept (subs-Keeps h.floats v e m) r safe
  dispatch-IsSafe pc Opcode.rotl v e m n r safe = advancing_kept (rotl-Keeps h.floats v e m) r safe
  dispatch-IsSafe pc Opcode.rotr v e m n r safe = advancing_kept (rotr-Keeps h.floats v e m) r safe
  dispatch-IsSafe pc Opcode.conv_i32 v e m n r safe =
      advancing_kept (conv_i32-Keeps h.floats e m v) r safe
  dispatch-IsSafe pc Opcode.conv_i32_u v e m n r safe =
      advancing_kept (conv_i32_u-Keeps h.floats e m v) r safe
  dispatch-IsSafe pc Opcode.conv_i64 v e m n r safe =
      advancing_kept (conv_i64-Keeps h.floats e m v) r safe
  dispatch-IsSafe pc Opcode.conv_f32 v e m n r safe =
      advancing_kept (conv_f32-Keeps h.floats e m v) r safe
  dispatch-IsSafe pc Opcode.conv_f64 v e m n r safe =
      advancing_kept (conv_f64-Keeps h.floats e m v) r safe
  dispatch-IsSafe pc Opcode.eqz v e m n r safe = advancing_kept (eqz-Keeps h.floats v e m) r safe
  dispatch-IsSafe pc Opcode.ceil v e m n r safe = advancing_kept (ceil-Keeps h.floats e m v) r safe
  dispatch-IsSafe pc Opcode.floor v e m n r safe =
      advancing_kept (floor-Keeps h.floats e m v) r safe
  dispatch-IsSafe pc Opcode.sqrt v e m n r safe = advancing_kept (sqrt-Keeps h.floats e m v) r safe
  dispatch-IsSafe pc Opcode.neg v e m n r safe = advancing_kept (neg-Keeps h.floats e m v) r safe
  dispatch-IsSafe pc Opcode.reinterpret_f32 v e m n r safe =
      advancing_kept (reinterpret_f32-Keeps h.floats e m v) r safe
  dispatch-IsSafe pc Opcode.reinterpret_f64 v e m n r safe =
      advancing_kept (reinterpret_f64-Keeps h.floats e m v) r safe
  dispatch-IsSafe pc Opcode.reinterpret_i32 v e m n r safe =
      advancing_kept (reinterpret_i32-Keeps h.floats e m v) r safe
  dispatch-IsSafe pc Opcode.reinterpret_i64 v e m n r safe =
      advancing_kept (reinterpret_i64-Keeps h.floats e m v) r safe
  dispatch-IsSafe pc Opcode.const_l v e m n r safe =
      advancing_kept (const_l-Keeps h.floats v e m) r safe
  dispatch-IsSafe pc Opcode.const_l_high v e m n r safe =
      advancing_kept (const_l_high-Keeps h.floats v e m) r safe
  dispatch-IsSafe pc Opcode.ctz v e m n r safe = advancing_kept (ctz-Keeps h.floats v e m) r safe
  dispatch-IsSafe pc Opcode.popcnt v e m n r safe =
      advancing_kept (popcnt-Keeps h.floats v e m) r safe
  dispatch-IsSafe pc Opcode.add_rri v e m n r safe =
      advancing_kept (add_rri-Keeps h.floats v e m) r safe
  dispatch-IsSafe pc (Opcode.load_l a) v e m n r safe =
      advancing_kept (load-Keeps h.floats v e m a) r safe
  dispatch-IsSafe pc (Opcode.store_l s) v e m n r safe =
      advancing_kept (store-Keeps h.floats v e m s) r safe
  dispatch-IsSafe pc (Opcode.lload_l a) v e m n r safe =
      advancing_kept (lload-Keeps h.floats v e m a) r safe
  dispatch-IsSafe pc (Opcode.lstore_l s) v e m n r safe =
      advancing_kept (lstore-Keeps h.floats v e m s) r safe
  dispatch-IsSafe pc (Opcode.compare c) v e m n r safe =
      advancing_kept (compare-Keeps h.floats v e m c) r safe
  dispatch-IsSafe pc (Opcode.arith_op o) v e m n r safe =
      advancing_kept (arith_op-Keeps h.floats v e m o) r safe
  dispatch-IsSafe pc Opcode.llda_l v e m n r safe =
      advancing_kept (llda_l-Keeps h.floats v e m) r safe
  dispatch-IsSafe pc Opcode.builtin v e m n r safe =
      advancing_kept (builtin-Keeps h.floats e m v) r safe
  dispatch-IsSafe pc Opcode.gget v e m n r safe = advancing_kept (gget-Keeps h.floats v e m) r safe
  dispatch-IsSafe pc Opcode.gset v e m n r safe = advancing_kept (gset-Keeps h.floats v e m) r safe
