-- ===== src/Tests/Converting.antt =====
-- The theorems on the converter, at a small function.
use uwasm_vm.Base.{
  ℕ, zero, suc, ◌+◌, ◌≡◌, ◌<◌, ◌≤◌, refl, arith, List, [], ◌∷◌, ◌++◌, none, some, ok, err,
  assertion, false, length, ltb, ◌==◌, if◌then◌else◌, get_elem?,
}
use uwasm_vm.Isa.Opcode.{Valty, i32, i64, f32, f64}
use uwasm_vm.Isa.Expand.{AmExpand}
use uwasm_vm.Isa.Code.{expand_words}
use uwasm_vm.Isa.CodeRoundTrip.{written_all}
use uwasm_vm.StrTab.Table
use uwasm_vm.Encoder.Code.{new_code_body}
use uwasm_vm.Machine.Register
use uwasm_vm.Machine.State.{Machine, get_reg}
use uwasm_vm.Exec.Arith.{int_arith}
use uwasm_vm.Exec.SafeRun.{Reaches}
use uwasm_vm.Conv.Pool.{
  Pool, Taken, return_reg, wasm_local, temp_occupied, free, is_free, new_pool, reg_tab_size,
  set_state, get_available_reg, free_register,
}
use uwasm_vm.Conv.PoolLaws.{start, free_register-get_available_reg, free_register-Uses}
use uwasm_vm.Conv.Winst
use uwasm_vm.Conv.Winst.{Winst, int32}
use uwasm_vm.Conv.Graph.{
  Stmt, new_stmt, instr, root_block, stmt_by_inst, stmt_id, get_stmt_id_by_inst,
}
use uwasm_vm.Conv.State.{
  ConvState, LocalTab, LocalTabElem, LocalMapElem, formal_param, done, new_local_tab,
}
use uwasm_vm.Conv.Env.{Env}
use uwasm_vm.Conv.Forward.{PoolIs}
use uwasm_vm.Conv.Inst.{conv_all}
use uwasm_vm.Conv.Locals.{create_locals}
use uwasm_vm.Conv.Places.{count, layout_of}
use uwasm_vm.Conv.Begins.{create_locals-Holds}
use uwasm_vm.Conv.Registers.{Layout, IsApart, codes, top}
use uwasm_vm.Conv.Holds.{Holds, LocalIs, PoolAt}
use uwasm_vm.Conv.Progress.{HasStmts, Fit, freeable, conv_all-codes}
use uwasm_vm.Conv.Values.{Agrees}
use uwasm_vm.Conv.Correct.{HasCode, conv_all-eval_all}
use uwasm_vm.Tests.Sample.{machine, two_functions, host, entry}

abbrev env : Env
env = record {
  ret_reg_num = 1;
  moved = λ n. false;
  global_of = λ i. err assertion;
  func_sig = λ i. err assertion;
  type_sig = λ i. err assertion;
  own_sig = record { params = i32 ∷ i32 ∷ []; results = i32 ∷ [] };
  stack_check = false;
}

abbrev code : List Winst
code = Winst.local_get 0 ∷ Winst.local_get 1 ∷ Winst.int_binary int32 Winst.IntBinary.add ∷ []

-- Two parameters in the i32 registers 1 and 2.
abbrev layout : Layout
layout = record {
  locals = i32 ∷ i32 ∷ [];
  loc = λ i. i + 1;
  base = λ v. elim v [ i32 ↦ 3 | i64 ↦ 1 | f32 ↦ 1 | f64 ↦ 1 ];
}

abbrev param : LocalTabElem
param = record { kind = formal_param; val_type = i32; push_stmt = 0 }

abbrev param_at : ℕ → LocalMapElem
param_at r = record { reg_idx = r; ty = i32; map_kind = formal_param }

abbrev pool_after : ℕ → Pool
pool_after n = record {
  next_reg_id = n;
  register_state = λ i. if ltb i 1 then return_reg else if ltb i n then wasm_local else free;
}

abbrev tab_of : Valty → LocalTab
tab_of i32 = record { content = param ∷ param ∷ []; max_call_param = 0 }
tab_of v = record { content = []; max_call_param = 0 }

abbrev inst_stmt : ℕ → Winst → Stmt
inst_stmt i w = record (new_stmt instr w i) { id = i }

-- The state before the first instruction, with a statement for each.
abbrev prepared : ConvState
prepared = record {
  regs = λ v. pool_after (layout.base v);
  local_tab = tab_of;
  local_map = param_at 1 ∷ param_at 2 ∷ [];
  wasm_stack = [];
  graph = record {
    stmts =
        record (new_stmt root_block Winst.unreachable 1) { children = 1 ∷ 2 ∷ 3 ∷ [] }
        ∷ inst_stmt 1 (Winst.local_get 0)
        ∷ inst_stmt 2 (Winst.local_get 1)
        ∷ inst_stmt 3 (Winst.int_binary int32 Winst.IntBinary.add)
        ∷ [];
    ins_to_stmt = λ i. if ltb i 4 then some i else none;
  };
  body = new_code_body;
  types = record { type_list = []; nn_tab = Table.new_str_tab };
  call_insts_pc = [];
  icall_type_idx_map = [];
}

below : (i : ℕ) (v : Valty) → get_elem? layout.locals i ≡ some v → layout.loc i < layout.base v
below zero i32 is = omega arith
below (suc zero) i32 is = omega arith
below _ _ is = absurd (cc)

layout-IsApart : IsApart layout
layout-IsApart = record { below = below; apart = λ i j v is isj e. omega arith }

pool_after-PoolIs : (n : ℕ) → 1 ≤ n → PoolIs n (pool_after n)
pool_after-PoolIs n le = record {
  within = omega arith;
  temps = λ i lo hi. absurd (omega arith);
  rest = λ i lo. ground arith;
}

pools : (v : Valty) → PoolAt layout [] v (prepared.regs v)
pools i32 = (pool_after-PoolIs 3 (omega arith), refl)
pools i64 = (pool_after-PoolIs 1 (omega arith), refl)
pools f32 = (pool_after-PoolIs 1 (omega arith), refl)
pools f64 = (pool_after-PoolIs 1 (omega arith), refl)

tables : (v : Valty) → top layout v [] ≤ length (prepared.local_tab v).content + 1
tables i32 = omega arith
tables i64 = omega arith
tables f32 = omega arith
tables f64 = omega arith

locals :
    (i : ℕ) (v : Valty)
    → get_elem? layout.locals i ≡ some v
    → LocalIs layout 1 prepared.local_map (prepared.local_tab v).content i v
locals zero i32 is = record {
  elem = param_at 1;
  found = refl;
  has_ty = refl;
  has_reg = refl;
  above = omega arith;
  tab_elem = param;
  in_tab = refl;
  not_temp = refl;
  not_unreachable = refl;
}
locals (suc zero) i32 is = record {
  elem = param_at 2;
  found = refl;
  has_ty = refl;
  has_reg = refl;
  above = omega arith;
  tab_elem = param;
  in_tab = refl;
  not_temp = refl;
  not_unreachable = refl;
}
locals _ _ is = absurd (cc)

prepared-Holds : Holds layout 1 [] prepared
prepared-Holds = record { stack = tt; pools = pools; tables = tables; locals = locals }

base_le : (v : Valty) → layout.base v ≤ 3
base_le i32 = omega arith
base_le i64 = omega arith
base_le f32 = omega arith
base_le f64 = omega arith

fits : (size : Valty → ℕ) → ((v : Valty) → 8 ≤ size v) → Fit size layout code []
fits size large = (
  λ v. omega (arith, base_le v, large v),
  (λ v. omega (arith, base_le v, large v), (λ v. omega (arith, base_le v, large v), tt)),
)

fit : Fit freeable layout code []
fit = fits freeable (λ v. omega arith)

room : Fit (λ v. 8) layout code []
room = fits (λ v. 8) (λ v. omega arith)

stmts : HasStmts prepared.graph 1 code
unfolding stmt_by_inst stmt_id get_stmt_id_by_inst
stmts = ((_, refl), ((_, refl), ((_, refl), tt)))

abbrev raw : ℕ → AmExpand
raw n = entry 0 0 0 0

conv_all-codes_example :
    (after : ConvState) × (words : List ℕ) × (conv_all env 1 code prepared ≡ done tt after)
    × (after.body.inst_tab ≡ [] ++ words)
    × (expand_words raw words 0 0 ≡ ok (written_all raw (codes layout code []) 0 0))
    × Holds layout 1 ((i32, none) ∷ []) after
conv_all-codes_example =
    conv_all-codes layout env layout-IsApart code 1 [] prepared tt fit stmts refl prepared-Holds raw
      0 0

-- The words of the addition, and a machine that is at their expansion.
abbrev insts : List AmExpand
insts = (written_all raw (codes layout code []) 0 0).insts

abbrev loaded : Machine
loaded = record machine {
  reg_i32 = record machine.reg_i32 { cells = λ i. if i == 1 then 5 else if i == 2 then 7 else 0 };
  current = record machine.current { pc = 0 };
  table = insts;
}

readable : (v : Valty) (i : ℕ) → i < 8 → (x : ℕ) × (get_reg v loaded i ≡ ok x)
unfolding get_reg Register.get
readable i32 i lt = (loaded.reg_i32.cells (0 + i), ground arith)
readable i64 i lt = (loaded.reg_i64.cells (0 + i), ground arith)
readable f32 i lt = (loaded.reg_f32.cells (0 + i), ground arith)
readable f64 i lt = (loaded.reg_f64.cells (0 + i), ground arith)

values :
    (i : ℕ) (v : Valty) (x : ℕ)
    → get_elem? layout.locals i ≡ some v
    → get_elem? (5 ∷ 7 ∷ []) i ≡ some x
    → get_reg v loaded (layout.loc i) ≡ ok x
unfolding get_reg Register.get
values zero i32 x is has = cc
values (suc zero) i32 x is has = cc
values _ _ x is has = absurd (cc)

loaded-Agrees : Agrees layout (λ v. 8) (5 ∷ 7 ∷ []) [] [] loaded
loaded-Agrees = record { readable = readable; locals = values; stack = tt }

has_code : HasCode insts loaded
has_code j e g = let at : 0 + j ≡ j = omega arith in cc

converted :
    (after : ConvState) × (words : List ℕ) × (conv_all env 1 code prepared ≡ done tt after)
    × (after.body.inst_tab ≡ [] ++ words)
    × (expand_words raw words 0 0 ≡ ok (written_all raw (codes layout code []) 0 0))
    × Holds layout 1 ((i32, none) ∷ []) after
converted =
    conv_all-codes layout env layout-IsApart code 1 [] prepared tt fit stmts refl prepared-Holds raw
      0 0

conv_all-eval_all_example :
    (m' : Machine) × Reaches two_functions host loaded m'
    × (m'.current.pc ≡ 0 + 1)
    × Agrees layout (λ v. 8) (5 ∷ 7 ∷ []) (12 ∷ []) ((i32, none) ∷ []) m'
unfolding int_arith
conv_all-eval_all_example =
    conv_all-eval_all layout env two_functions host code 1 [] prepared converted.0 converted.1 raw 0
      0 (written_all raw (codes layout code []) 0 0) loaded (λ v. 8) (5 ∷ 7 ∷ []) []
      (record { locals = 5 ∷ 7 ∷ []; stack = 12 ∷ [] }) layout-IsApart tt fit stmts refl
      prepared-Holds converted.2 converted.3 converted.4 room loaded-Agrees has_code
      (tt, (tt, (tt, tt))) refl

-- The register 3 of the pool after two locals.
abbrev register_3 : Taken
register_3 = record {
  reg_id = 3;
  pool = record {
    next_reg_id = 4;
    register_state = set_state 3 temp_occupied (pool_after 3).register_state;
  };
}

takes : get_available_reg (pool_after 3) ≡ ok register_3
unfolding get_available_reg
takes = refl

free_register-get_available_reg_example :
    (q : Pool) × (free_register 3 register_3.pool ≡ ok q)
    × (q.next_reg_id ≡ 3)
    × ((i : ℕ) → is_free (q.register_state i) ≡ is_free ((pool_after 3).register_state i))
free_register-get_available_reg_example =
    free_register-get_available_reg (pool_after 3) register_3 takes (omega arith)

free_register-Uses_example : free_register 5 (pool_after 127) ≡ err assertion
free_register-Uses_example =
    free_register-Uses (pool_after 127) (pool_after 127) 5 (omega arith) start (omega arith)

-- The same function, before its registers are given out.
abbrev unprepared : ConvState
unprepared = record prepared {
  regs = λ v. new_pool;
  local_tab = λ v. new_local_tab;
  local_map = [];
}

few : (v : Valty) → 1 + count v (i32 ∷ i32 ∷ f64 ∷ []) ≤ reg_tab_size
few i32 = omega arith
few i64 = omega arith
few f32 = omega arith
few f64 = omega arith

create_locals-Holds_example :
    (s' : ConvState) × (create_locals env (f64 ∷ []) unprepared ≡ done tt s')
    × Holds (layout_of 1 (i32 ∷ i32 ∷ f64 ∷ [])) 1 [] s'
    × IsApart (layout_of 1 (i32 ∷ i32 ∷ f64 ∷ []))
create_locals-Holds_example =
    create_locals-Holds env (f64 ∷ []) unprepared (λ v. refl) (λ v. refl) refl refl few
