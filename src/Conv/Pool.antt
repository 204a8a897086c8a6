-- ===== src/Conv/Pool.antt =====
-- REG_ALLOC_HELPER (src/wasm/converter.h): the registers of one value type. The constructor reserves
-- 4096 of them.
use uwasm_vm.Base.{ℕ, ◌+◌, ◌^◌, ◌-◌, Bool, true, false, ltb, leb, ◌==◌, if◌then◌else◌}
use uwasm_vm.Base.{Result, ok, ◌>>◌, is_true, defined_if}

-- REG_ALLOC_STATE; ALLOC_OTHER has the value of ALLOC_RETURN_REG.
pub data RegAllocState : Type 0 where
  free temp_occupied wasm_local return_reg : RegAllocState

abbrev pub is_free : RegAllocState → Bool
is_free free = true
is_free _ = false

abbrev pub is_temp_occupied : RegAllocState → Bool
is_temp_occupied temp_occupied = true
is_temp_occupied _ = false

pub record Pool : Type 0 where
  pub next_reg_id : ℕ
  pub register_state : ℕ → RegAllocState

abbrev pub new_pool : Pool
new_pool = record { next_reg_id = 0; register_state = λ i. free }

-- The size of _register_state, and REG_L_MAX.
abbrev pub reg_tab_size : ℕ
reg_tab_size = 4096

abbrev pub reg_l_max : ℕ
reg_l_max = 2 ^ 10 - 1

abbrev pub set_state : ℕ → RegAllocState → (ℕ → RegAllocState) → ℕ → RegAllocState
set_state i x f j = if j == i then x else f j

-- The loops of Preoccupy_registers, which is declared to return a number and returns none.
unfoldable pub preoccupy_registers : ℕ → ℕ → Pool → Result Pool
preoccupy_registers basic local_count p =
    defined_if (leb (basic + local_count) reg_tab_size)
    >> ok (record {
      next_reg_id = basic + local_count;
      register_state = λ i.
          if ltb i basic
          then return_reg
          else if ltb i (basic + local_count)
          then wasm_local
          else p.register_state i;
    })

pub record Taken : Type 0 where
  pub reg_id : ℕ
  pub pool : Pool

unfoldable pub get_available_reg : Pool → Result Taken
get_available_reg p =
    is_true (ltb p.next_reg_id reg_l_max)
    >> is_true (is_free (p.register_state p.next_reg_id))
    >> ok (record {
      reg_id = p.next_reg_id;
      pool = record {
        next_reg_id = p.next_reg_id + 1;
        register_state = set_state p.next_reg_id temp_occupied p.register_state;
      };
    })

-- The last test compares with a UINT32 that wraps at 0, where no such register equals it.
unfoldable pub free_register : ℕ → Pool → Result Pool
free_register reg_id p =
    if leb 126 reg_id
    then ok p
    else is_true (is_temp_occupied (p.register_state reg_id))
      >> is_true (reg_id + 1 == p.next_reg_id)
      >> ok (record {
        next_reg_id = p.next_reg_id - 1;
        register_state = set_state reg_id free p.register_state;
      })
