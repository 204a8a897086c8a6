-- ===== src/Exec/Global.antt =====
-- Addresses, the global table and the size of the memory: Llda, Glda, Globalget, Globalset,
-- Memorysize and Memorygrow of src/interpreter/exec_unit_func.h, with Get_ofst_addr
-- (src/interpreter/exec_unit.h) and Grow_memory (src/interpreter/exec_unit.cxx).
use uwasm_vm.Base.{ℕ, ◌+◌, ◌-◌, ◌*◌, ◌/◌, ◌%◌, ◌^◌, false, ltb, leb, ◌==◌}
use uwasm_vm.Base.{get_elem?, set, Result, ok, err, assertion, ◌>>=◌, ◌>>◌}
use uwasm_vm.Base.{is_true, defined_if, in_bounds}
use uwasm_vm.Isa.Opcode.{is_int, Valty, i32}
use uwasm_vm.Isa.Expand.{AmExpand}
use uwasm_vm.Machine.State.{Machine, Module, get_reg, set_reg}
use uwasm_vm.Exec.Arith.{imm_of}

-- Get_ofst_addr(ofst, true), an INT32: where a local is, seen from the end of the stack.
abbrev pub stack_ofst : Machine → ℕ → ℕ
stack_ofst m ofs = (m.current.sp + ofs + 2 ^ 32 - m.sta % 2 ^ 32) % 2 ^ 32

-- Llda_i32_am32_r_ofs and Llda_i64_am32_r_ofs.
unfoldable pub llda : Valty → AmExpand → Machine → Result Machine
llda v e m = is_true (is_int v) >> set_reg v m e.expand1 (imm_of v (stack_ofst m e.expand3))

-- Llda_i32_am64_r_ofs and Llda_i64_am64_r_ofs, which both end in Llda_i32_am32_r_ofs.
unfoldable pub llda_l : Valty → AmExpand → Machine → Result Machine
unfolding llda
llda_l v e m = is_true (is_int v) >> llda i32 e m

-- Glda_i32_am32_r_ofs and Glda_i64_am32_r_ofs.
unfoldable pub glda : Module → Valty → AmExpand → Machine → Result Machine
glda mod_ v e m = is_true (is_int v) >> (do
  idx ← in_bounds (get_elem? mod_.data_idx e.expand3)
  set_reg v m e.expand1 (imm_of v (idx % 2 ^ 32)))

-- Globalget_i32_am64_r_ofs, and those of the other types, which assert.
unfoldable pub gget : Valty → AmExpand → Machine → Result Machine
gget i32 e m = do
  x ← in_bounds (get_elem? m.globals e.expand3)
  set_reg i32 m e.expand1 (x % 2 ^ 32)
gget _ e m = err assertion

-- Globalset_i32_am64_r_ofs, which writes the low half of the entry.
unfoldable pub gset : Valty → AmExpand → Machine → Result Machine
gset i32 e m = do
  old ← in_bounds (get_elem? m.globals e.expand3)
  x ← get_reg i32 m e.expand1
  ok (record m { globals = set m.globals e.expand3 (old / 2 ^ 32 * 2 ^ 32 + x) })
gset _ e m = err assertion

-- MEM_PAGE_SIZE.
abbrev pub mem_page_size : ℕ
mem_page_size = 65536

unfoldable pub memorysize : AmExpand → Machine → Result Machine
memorysize e m =
    is_true (m.mem_size % mem_page_size == 0)
    >> set_reg i32 m e.expand1 (m.mem_size / mem_page_size)

-- What `realloc` did with the block.
pub data Realloc : Type 0 where
  refused in_place moved : Realloc

-- The machine afterwards, and the result.
pub record Grown : Type 0 where
  pub machine : Machine
  pub result : ℕ

-- _mem_p keeps the old address, also where the block moved.
abbrev pub reallocated : Realloc → ℕ → Machine → Grown
reallocated refused target m = record { machine = m; result = 2 ^ 32 - 1 }
reallocated in_place target m = record { machine = record m { mem_size = target }; result = target }
reallocated moved target m = record {
  machine = record m { mem_size = target; mem_valid = false };
  result = target;
}

-- The test after the assertions repeats them.
unfoldable pub grow_memory : (ℕ → Realloc) → ℕ → Machine → Result Grown
grow_memory realloc target m = do
  is_true (leb m.mem_size target)
  is_true (target % mem_page_size == 0)
  defined_if m.mem_valid
  ok (reallocated (realloc target) target m)

unfoldable pub memorygrow : (ℕ → Realloc) → AmExpand → Machine → Result Machine
unfolding grow_memory
memorygrow realloc e m = do
  is_true (m.mem_size % mem_page_size == 0)
  pages_cnt ← get_reg i32 m e.expand2
  is_true (ltb pages_cnt ((2 ^ 32 - 1) / mem_page_size))
  let total = pages_cnt + m.mem_size / mem_page_size
  is_true (ltb total ((2 ^ 32 - 1) / mem_page_size))
  grown ← grow_memory realloc (total * mem_page_size) m
  set_reg i32 grown.machine e.expand1 grown.result
