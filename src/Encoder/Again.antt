-- ===== src/Encoder/Again.antt =====
-- A function that is requested a second time (Inner_request_func, src/encoder/u_encoder.cxx).
use uwasm_vm.Base.{refl, arith}
use uwasm_vm.Base.{[], ◌∷◌}
use uwasm_vm.StrTab.Order.{equivalent-same_bytes}
use uwasm_vm.StrTab.Table
use uwasm_vm.StrTab.Table.{StrTab, find}
use uwasm_vm.StrTab.Names.{index_from}
use uwasm_vm.StrTab.Refines.{IsWf}
use uwasm_vm.Encoder.Funcs.{started_tab}

pub started-IsWf : IsWf started_tab
unfolding find index_from
started-IsWf = record {
  bytes = (omega arith, tt);
  entries = (record { some_bytes = omega arith; within = omega arith }, tt);
  keys = (record { some_bytes = omega arith; within = omega arith }, tt);
  finds = λ s bytes. rw (equivalent-same_bytes (0 ∷ []) s (omega arith, tt) bytes) refl;
}
