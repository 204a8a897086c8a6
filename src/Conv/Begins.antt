-- ===== src/Conv/Begins.antt =====
-- Create_ubh_code (src/wasm/converter.cxx) gives registers to parameters and locals, and the conversion
-- of the body begins in a state that has them.
use uwasm_vm.Base.{
  ℕ, ◌+◌, ◌-◌, ◌≡◌, ◌≤◌, refl, ap, sym, ◌∙◌, arith, true, List, [], ◌++◌, length, get_elem?,
  get_elem?-All, some_of_lt, take, ltb, leb, some, if◌then◌else◌,
}
use uwasm_vm.Isa.Opcode.{Valty, i32, i64, f32, f64}
use uwasm_vm.Conv.Pool.{Pool, new_pool, preoccupy_registers, return_reg, wasm_local, reg_tab_size}
use uwasm_vm.Conv.State.{
  local, formal_param, ConvState, update_at, done, ◌>>=◌, ◌>>◌, modify, gets, lift,
}
use uwasm_vm.Conv.Env.{Env}
use uwasm_vm.Conv.Locals.{add_locals, preoccupy, create_locals}
use uwasm_vm.Conv.Forward.{PoolIs}
use uwasm_vm.Conv.Registers.{IsApart}
use uwasm_vm.Conv.Holds.{Holds, LocalIs}
use uwasm_vm.Conv.Places.{count, count-take, layout_of, loc_lem, layout_of-IsApart}
use uwasm_vm.Conv.Begun.{IsOwn, Begun, add_locals-Begun}

-- The registers of a type with so many locals.
abbrev occupied : ℕ → ℕ → Pool
occupied ret n = record {
  next_reg_id = ret + n;
  register_state = λ i.
      if ltb i ret
      then return_reg
      else if ltb i (ret + n)
      then wasm_local
      else new_pool.register_state i;
}

occupied-PoolIs : (ret n : ℕ) → PoolIs (ret + n) (occupied ret n)
occupied-PoolIs ret n = record {
  within = omega arith;
  temps = λ i lo hi. absurd (omega arith);
  rest = λ i lo. ground arith;
}

abbrev occupied_state : ℕ → Valty → ConvState → ConvState
occupied_state ret v s = record s {
  regs = update_at v (occupied ret (length (s.local_tab v).content)) s.regs;
}

preoccupy-ok :
    (ret : ℕ) (v : Valty) (s : ConvState)
    → s.regs v ≡ new_pool
    → ret + length (s.local_tab v).content ≤ reg_tab_size
    → preoccupy ret v s ≡ done tt (occupied_state ret v s)
unfolding preoccupy ◌>>=◌ lift gets modify preoccupy_registers
preoccupy-ok ret v s unused small =
    let fits : leb (ret + length (s.local_tab v).content) reg_tab_size ≡ true = ground arith in
    rw (unused, fits) refl

abbrev all_occupied : ℕ → ConvState → ConvState
all_occupied ret s =
    occupied_state ret f64
      (occupied_state ret f32 (occupied_state ret i64 (occupied_state ret i32 s)))

preoccupied :
    (ret : ℕ) (s : ConvState)
    → ((v : Valty) → s.regs v ≡ new_pool)
    → ((v : Valty) → ret + length (s.local_tab v).content ≤ reg_tab_size)
    → (preoccupy ret i32 >> (preoccupy ret i64 >> (preoccupy ret f32 >> preoccupy ret f64))) s
      ≡ done tt (all_occupied ret s)
unfolding ◌>>=◌
preoccupied ret s unused fits =
    let a = occupied_state ret i32 s in
    let b = occupied_state ret i64 a in
    let c = occupied_state ret f32 b in
    cc (
      preoccupy-ok ret i32 s (unused i32) (fits i32),
      preoccupy-ok ret i64 a (unused i64) (fits i64),
      preoccupy-ok ret f32 b (unused f32) (fits f32),
      preoccupy-ok ret f64 c (unused f64) (fits f64),
    )

module _ (ret : ℕ) {o s : ConvState} {d : List Valty} (b : Begun ret o d s) where
  all_occupied-regs :
      (v : Valty) → (all_occupied ret s).regs v ≡ occupied ret (length (s.local_tab v).content)
  all_occupied-regs i32 = refl
  all_occupied-regs i64 = refl
  all_occupied-regs f32 = refl
  all_occupied-regs f64 = refl

  begun_local :
      (i : ℕ) (v : Valty)
      → get_elem? d i ≡ some v
      → LocalIs (layout_of ret d) ret s.local_map (s.local_tab v).content i v
  begun_local i v is =
      let (e, found, ty, reg) = b.entries i v is in
      let at : (layout_of ret d).loc i ≡ ret + count v (take i d) = loc_lem ret d i v is in
      let (t, in_tab) =
        some_of_lt (s.local_tab v).content (count v (take i d))
          (omega (arith, count-take v d i is, b.sizes v)) in
      let (own, known) = get_elem?-All IsOwn (s.local_tab v).content _ (b.owns v) in_tab in
      let place : (layout_of ret d).loc i - ret ≡ count v (take i d) = omega (arith, at) in
      record {
        elem = e;
        found = found;
        has_ty = ty;
        has_reg = reg ∙ sym at;
        above = omega (arith, at);
        tab_elem = t;
        in_tab = ap (λ k. get_elem? (s.local_tab v).content k) place ∙ in_tab;
        not_temp = own;
        not_unreachable = known;
      }

  all_occupied-Holds : s.wasm_stack ≡ [] → Holds (layout_of ret d) ret [] (all_occupied ret s)
  all_occupied-Holds empty = record {
    stack = rw empty tt;
    pools = λ v. rw (all_occupied-regs v, b.sizes v) (occupied-PoolIs ret (count v d), omega arith);
    tables = λ v. omega (arith, b.sizes v);
    locals = begun_local;
  }

-- A function whose parameters and locals have, with the return registers, no more than 4096
-- registers of a type begins well: from empty tables, create_locals succeeds and leaves a state in
-- which every parameter and every local has a register of its own, behind the return registers and
-- the ones of its type before it, and the temporaries of each type begin behind them.
pub create_locals-Holds :
    (env : Env) (locals : List Valty) (s : ConvState)
    → ((v : Valty) → s.regs v ≡ new_pool)
    → ((v : Valty) → (s.local_tab v).content ≡ [])
    → s.local_map ≡ []
    → s.wasm_stack ≡ []
    → ((v : Valty) → env.ret_reg_num + count v (env.own_sig.params ++ locals) ≤ reg_tab_size)
    → (s' : ConvState) × (create_locals env locals s ≡ done tt s')
      × Holds (layout_of env.ret_reg_num (env.own_sig.params ++ locals)) env.ret_reg_num [] s'
      × IsApart (layout_of env.ret_reg_num (env.own_sig.params ++ locals))
unfolding create_locals ◌>>=◌ modify
create_locals-Holds env locals s unused empty no_map no_stack small =
    let ret = env.ret_reg_num in
    let start : Begun ret s [] s = record {
      sizes = λ v. ap length (empty v);
      owns = λ v. rw (empty v) tt;
      many = ap length no_map;
      entries = λ i v is. absurd (cc);
      regs = refl;
      wasm_stack = refl;
    } in
    let params = add_locals-Begun formal_param refl refl env.own_sig.params [] start in
    let b = add_locals-Begun local refl refl locals env.own_sig.params params in
    let s2 = add_locals ret local locals (add_locals ret formal_param env.own_sig.params s) in
    let unused2 : (v : Valty) → s2.regs v ≡ new_pool = λ v. ap (λ f. f v) b.regs ∙ unused v in
    let fits : (v : Valty) → ret + length (s2.local_tab v).content ≤ reg_tab_size =
      λ v. omega (arith, small v, b.sizes v) in
    let runs = preoccupied ret s2 unused2 fits in
    (
      all_occupied ret s2,
      cc (runs),
      all_occupied-Holds ret b (b.wasm_stack ∙ no_stack),
      layout_of-IsApart ret (env.own_sig.params ++ locals),
    )
