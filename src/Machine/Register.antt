-- ===== src/Machine/Register.antt =====
-- The class template REGISTER of src/interpreter/exec_unit.h: a growing array of cells, seen
-- through a frame pointer. A cell holds the bit pattern of a value, for floats too.
use uwasm_vm.Base.{ℕ, ◌+◌, ◌*◌, ◌%◌, ◌^◌, ltb, ◌==◌, if◌then◌else◌}
use uwasm_vm.Base.{Result, ok, ◌>>◌, defined_if}

-- `cells` is the memory at _register_begin. What it holds from `cur_mem_size` on stands for what
-- the memory that `realloc` adds will hold.
pub record Register : Type 0 where
  pub fp : ℕ
  pub cur_mem_size : ℕ
  pub cells : ℕ → ℕ

-- INITIAL_REG_SIZE.
abbrev pub initial_reg_size : ℕ
initial_reg_size = 16 * 1024

-- The constructor, which clears the cells.
abbrev pub new_register : (ℕ → ℕ) → Register
new_register later = record {
  fp = 0;
  cur_mem_size = initial_reg_size;
  cells = λ i. if ltb i initial_reg_size then 0 else later i;
}

abbrev pub update : (ℕ → ℕ) → ℕ → ℕ → ℕ → ℕ
update f i v j = if j == i then v else f j

-- An access beyond the array is undefined; the code checks none.
unfoldable pub get : Register → ℕ → Result ℕ
get r i = defined_if (ltb (r.fp + i) r.cur_mem_size) >> ok (r.cells (r.fp + i))

unfoldable pub set : Register → ℕ → ℕ → Result Register
set r i v =
    defined_if (ltb (r.fp + i) r.cur_mem_size)
    >> ok (record r { cells = update r.cells (r.fp + i) v })

-- Sizes are UINT32. `realloc` is taken to succeed.
unfoldable pub alloc : Register → ℕ → Register
alloc r len =
    if ltb r.cur_mem_size ((r.fp + len) % 2 ^ 32)
    then record r { cur_mem_size = (r.cur_mem_size + r.fp + len) * 2 % 2 ^ 32 }
    else r

unfoldable pub set_fp : Register → ℕ → Register
set_fp r fp = record r { fp = fp }

unfoldable pub increment : Register → ℕ → Register
increment r size = record r { fp = (r.fp + size) % 2 ^ 32 }
