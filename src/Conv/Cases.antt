-- ===== src/Conv/Cases.antt =====
-- The cases of Wasm_to_uwasm (src/wasm/converter.cxx) for constants, for one operand and for
-- locals.
use uwasm_vm.Base.{
  ℕ, ltb, ◌%◌, ◌/◌, ◌^◌, ◌≡◌, ◌<◌, refl, ap, ◌∙◌, arith, false, List, [], ◌∷◌, get_elem?, Option,
  some, none,
}
use uwasm_vm.Isa.Opcode.{Valty, i32, i64, f32, f64}
use uwasm_vm.Isa.Operands.{Short, Long}
use uwasm_vm.Isa.CodeRoundTrip.{short, long, IsEncodable}
use uwasm_vm.Isa.Table.{ty_am_of, opcode_table}
use uwasm_vm.Conv.OpMap.{mov_op, const_l_op, const_l_high_op}
use uwasm_vm.Conv.State.{ConvState, StackElem, ◌>>◌, Conv, emit, ◌>>=◌, pure, lift, gets, modify}
use uwasm_vm.Conv.Env.{Env}
use uwasm_vm.Conv.Stack.{known, push_elem}
use uwasm_vm.Conv.Data.{
  conv_one, conv_local_set, get_wasm_local_ty, conv_drop, conv_local_get, get_tab_elem, conv_const,
  const_insts,
}
use uwasm_vm.Conv.Straight.{Slot}
use uwasm_vm.Conv.Registers.{Layout, top, reg_of, const_code, same_valty_refl}
use uwasm_vm.Conv.Holds.{Holds, pop-Holds, push-Holds, temps-le}
use uwasm_vm.Conv.Emits.{Emitted, emit-short, emit-long, add-one, HasRoom, Converts}

module _ {l : Layout} {ret : ℕ} {sl : List Slot} {s : ConvState} (v : Valty) (rd k : ℕ)
    (small : rd < 126) (h : Holds l ret sl s) where
  abbrev low : Long
  low = Long.r_imm rd (k % 2 ^ 32)

  abbrev high : Long
  high = Long.r_imm rd (k / 2 ^ 32 % 2 ^ 32)

  low_word : Emitted l ret sl const_l_op v (rd ∷ k % 2 ^ 32 ∷ []) (long const_l_op v low) s
  unfolding ty_am_of opcode_table
  low_word = emit-long const_l_op v low (refl, (omega arith, omega arith)) h

  one_const :
      (act : Conv (Unit {0}))
      → act s ≡ emit const_l_op v (rd ∷ k % 2 ^ 32 ∷ []) s
      → Converts l ret act (long const_l_op v low ∷ []) sl s
  one_const act is =
      let d = low_word in
      record {
        after = d.after;
        runs = is ∙ d.runs;
        adds = add-one _ _ (long const_l_op v low) refl d.adds;
        holds = d.holds;
        graph = d.graph;
      }

  two_consts :
      Converts l ret
        (emit const_l_op v (rd ∷ k % 2 ^ 32 ∷ [])
          >> emit const_l_high_op v (rd ∷ k / 2 ^ 32 % 2 ^ 32 ∷ []))
        (long const_l_op v low ∷ long const_l_high_op v high ∷ [])
        sl
        s
  unfolding ty_am_of opcode_table ◌>>=◌
  two_consts =
      let d = low_word in
      let e = emit-long const_l_high_op v high (refl, (omega arith, omega arith)) d.holds in
      record {
        after = e.after;
        runs = cc (d.runs, e.runs);
        adds = rw d.adds (add-one _ _ (long const_l_high_op v high) refl e.adds);
        holds = e.holds;
        graph = e.graph ∙ d.graph;
      }

module _ {l : Layout} {ret : ℕ} {sl : List Slot} {s : ConvState} where
  const_insts-Converts :
      (v : Valty) (rd k : ℕ)
      → rd < 126
      → Holds l ret sl s
      → Converts l ret (const_insts v rd k) (const_code v rd k) sl s
  unfolding const_insts
  const_insts-Converts i32 rd k small h = one_const i32 rd k small h (const_insts i32 rd k) refl
  const_insts-Converts i64 rd k small h = two_consts i64 rd k small h
  const_insts-Converts f32 rd k small h = one_const f32 rd k small h (const_insts f32 rd k) refl
  const_insts-Converts f64 rd k small h = two_consts f64 rd k small h

module _ (l : Layout) (env : Env) (n : ℕ) (v : Valty) (sl : List Slot) {s : ConvState} where
  pub conv_one-Converts :
      (op : ℕ) (o : Option ℕ)
      → IsEncodable (short op v (Short.r_r (top l v sl) (reg_of l (v, o) sl)))
      → HasRoom l ((v, o) ∷ sl)
      → Holds l env.ret_reg_num ((v, o) ∷ sl) s
      → Converts l env.ret_reg_num
          (conv_one env n op v v)
          (short op v (Short.r_r (top l v sl) (reg_of l (v, o) sl)) ∷ [])
          ((v, none) ∷ sl)
          s
  unfolding conv_one ◌>>=◌
  conv_one-Converts op o encodable room h =
      let small : top l v sl < 126 = omega (arith, room v, temps-le v sl o v) in
      let a = pop-Holds (some v) o (same_valty_refl v) small h in
      let c = push-Holds n v small a.holds in
      let d = emit-short op v (Short.r_r (top l v sl) (reg_of l (v, o) sl)) encodable c.holds in
      record {
        after = d.after;
        runs = cc (a.runs, a.has_idx, c.runs, c.is_top, d.runs);
        adds =
            add-one _ _ (short op v (Short.r_r (top l v sl) (reg_of l (v, o) sl)))
              (ap (λ t. t.inst_tab) (c.same.body ∙ a.same.body)) d.adds;
        holds = d.holds;
        graph = d.graph ∙ c.same.graph ∙ a.same.graph;
      }

  pub conv_local_set-Converts :
      (i : ℕ) (o : Option ℕ)
      → get_elem? l.locals i ≡ some v
      → IsEncodable (short mov_op v (Short.r_r (l.loc i) (reg_of l (v, o) sl)))
      → HasRoom l ((v, o) ∷ sl)
      → Holds l env.ret_reg_num ((v, o) ∷ sl) s
      → Converts l env.ret_reg_num
          (conv_local_set i)
          (short mov_op v (Short.r_r (l.loc i) (reg_of l (v, o) sl)) ∷ [])
          sl
          s
  unfolding conv_local_set ◌>>=◌ get_wasm_local_ty lift gets known pure
  conv_local_set-Converts i o is encodable room h =
      let small : top l v sl < 126 = omega (arith, room v, temps-le v sl o v) in
      let x = h.locals i v is in
      let a = pop-Holds (some v) o (same_valty_refl v) small h in
      let d = emit-short mov_op v (Short.r_r (l.loc i) (reg_of l (v, o) sl)) encodable a.holds in
      record {
        after = d.after;
        runs = cc (x.found, x.has_ty, x.has_reg, a.runs, a.has_ty, a.has_idx, d.runs);
        adds =
            add-one _ _ (short mov_op v (Short.r_r (l.loc i) (reg_of l (v, o) sl)))
              (ap (λ t. t.inst_tab) a.same.body) d.adds;
        holds = d.holds;
        graph = d.graph ∙ a.same.graph;
      }

  pub conv_drop-Converts :
      (o : Option ℕ)
      → HasRoom l ((v, o) ∷ sl)
      → Holds l env.ret_reg_num ((v, o) ∷ sl) s
      → Converts l env.ret_reg_num conv_drop [] sl s
  unfolding conv_drop ◌>>=◌ pure
  conv_drop-Converts o room h =
      let small : top l v sl < 126 = omega (arith, room v, temps-le v sl o v) in
      let a = pop-Holds none o tt small h in
      record {
        after = a.after;
        runs = cc (a.runs);
        adds = rw a.same.body refl;
        holds = a.holds;
        graph = a.same.graph;
      }

  pub conv_local_get-Converts :
      (i : ℕ)
      → get_elem? l.locals i ≡ some v
      → Holds l env.ret_reg_num sl s
      → Converts l env.ret_reg_num (conv_local_get env n i) [] ((v, some i) ∷ sl) s
  unfolding conv_local_get ◌>>=◌ get_wasm_local_ty get_tab_elem lift gets push_elem modify
  conv_local_get-Converts i is h =
      let x = h.locals i v is in
      let not_below : ltb x.elem.reg_idx env.ret_reg_num ≡ false =
        ground (arith, x.has_reg, x.above) in
      let e : StackElem = record {
        kind = x.tab_elem.kind;
        val_type = some x.elem.ty;
        idx = x.elem.reg_idx;
        push_stmt = n;
      } in
      record {
        after = record s { wasm_stack = e ∷ s.wasm_stack };
        runs = cc (x.found, x.has_ty, x.has_reg, x.in_tab, not_below);
        adds = refl;
        holds = record {
          stack = (ap some x.has_ty, x.has_reg, (x.not_temp, x.not_unreachable), h.stack);
          pools = h.pools;
          tables = h.tables;
          locals = h.locals;
        };
        graph = refl;
      }

  pub conv_const-Converts :
      (k : ℕ)
      → HasRoom l sl
      → Holds l env.ret_reg_num sl s
      → Converts l env.ret_reg_num
          (conv_const env n v k)
          (const_code v (top l v sl) k)
          ((v, none) ∷ sl)
          s
  unfolding conv_const ◌>>=◌
  conv_const-Converts k room h =
      let c = push-Holds n v (room v) h in
      let d = const_insts-Converts v (top l v sl) k (room v) c.holds in
      record {
        after = d.after;
        runs = cc (c.runs, c.is_top, d.runs);
        adds = rw⁻¹ c.same.body d.adds;
        holds = d.holds;
        graph = d.graph ∙ c.same.graph;
      }
