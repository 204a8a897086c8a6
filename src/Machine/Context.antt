-- ===== src/Machine/Context.antt =====
-- EXEC_CONTEXT and CONTEXT_STACK of src/interpreter/exec_unit.h. A pointer into the expanded table
-- is an index, and the stack pointer is an offset from the start of the memory.
use uwasm_vm.Base.{ℕ, ◌+◌, ◌-◌, ◌*◌, ltb, ◌==◌, if◌then◌else◌, List}
use uwasm_vm.Base.{Result, ok, ◌>>◌, is_true, defined_if}

pub record ExecContext : Type 0 where
  pub fp_i32 : ℕ
  pub fp_i64 : ℕ
  pub fp_f32 : ℕ
  pub fp_f64 : ℕ
  pub func_idx : ℕ
  pub pc : ℕ
  pub label_tab : List ℕ
  pub sp : ℕ

abbrev pub inc_pc : ExecContext → ExecContext
inc_pc c = record c { pc = c.pc + 1 }

-- `depth` is _sta_top_idx + 1, and `ctx_sta` the contents of the vector, whose size is the capacity.
pub record ContextStack : Type 0 where
  pub ctx_sta : ℕ → ExecContext
  pub capacity : ℕ
  pub depth : ℕ

-- DEFAULT_STACK_SIZE.
abbrev pub default_stack_size : ℕ
default_stack_size = 1024

abbrev pub new_stack : (ℕ → ExecContext) → ContextStack
new_stack ctx_sta = record { ctx_sta = ctx_sta; capacity = default_stack_size; depth = 0 }

abbrev pub update : (ℕ → ExecContext) → ℕ → ExecContext → ℕ → ExecContext
update f i v j = if j == i then v else f j

-- The vector grows where _sta_top_idx equals the capacity, that is at depth capacity + 1.
abbrev pub grow : ContextStack → ContextStack
grow s = if s.depth == s.capacity + 1 then record s { capacity = s.capacity * 2 } else s

unfoldable pub push : ContextStack → ExecContext → Result ContextStack
push s c =
    let t = grow s in
    defined_if (ltb t.depth t.capacity)
    >> ok (record t { ctx_sta = update t.ctx_sta t.depth c; depth = t.depth + 1 })

-- Pop evaluates _ctx_sta[--_sta_top_idx], the frame below the one that goes; below the first frame
-- there is none.
unfoldable pub pop : ContextStack → Result ContextStack
pop s =
    is_true (ltb 0 s.depth) >> (defined_if (ltb 1 s.depth) >> ok (record s { depth = s.depth - 1 }))

unfoldable pub top : ContextStack → Result ExecContext
top s = defined_if (ltb 0 s.depth) >> ok (s.ctx_sta (s.depth - 1))
