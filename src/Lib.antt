-- ===== src/Lib.antt =====
-- A model of the uwasm virtual machine (uwasm-vm) and theorems about it.
--
-- uwasm-vm turns wasm modules into its own register instructions (src/wasm), keeps them in UBH files,
-- and runs them. An instruction is encoded in one or two 32-bit words (src/ubh/u_inst.cxx,
-- src/encoder); when a module is prepared, Expand_code (src/ubh/u_module.cxx) takes the words apart
-- into a table of AM_EXPAND entries; UWASM_MACHINE (src/interpreter) executes the table with four
-- register files, a stack of contexts and a linear memory.
--
-- The modules and the code that they model:
--   Base     numbers, tests, lists, signed integers and fallible results
--   Isa      include/u_am.h, src/ubh/u_opcode_list.def, src/ubh/u_inst.h and src/ubh/u_inst.cxx: the
--            opcode list (Table), bit fields (Word), Init_inst32 and Init_inst64 (Encode), the two
--            switches of Expand_code (Expand), Add_inst and the inner loop of Expand_code (Code), and
--            its loop over functions (Module); Operands describes operands apart from the layout, and
--            RoundTrip, CodeRoundTrip, PcMaps, Links and Limits have the theorems
--   Machine  src/interpreter/exec_unit.h and src/interpreter/exec_unit.cxx: REGISTER (Register),
--            EXEC_CONTEXT and CONTEXT_STACK (Context), the machine and the module (State), Init_env,
--            Func_prologue and Func_epilogue (Call), and the data segments of src/ubh/u_module.cxx
--            (DataSegs); Frames, Return, Overflow, Registers and Segments have the theorems
--   Exec     src/interpreter/exec_unit_func.h and src/interpreter/exec_unit_op.def: the instructions
--            (Jump, Arith, Const, Memory, Global, Convert) on words (Word), the loop of Exec_start
--            (Step), and Fix_up_reloc of src/ubh/u_module.cxx (Prepare); Relocs, Counting, LoadStore,
--            Unsigned and SafeRun have the theorems. Keeps, Steady and ConvertKeeps show that the
--            instructions leave frames alone, Linked says how the frames of the context stack fit,
--            and SafeReturns, SafeCalls and SafeOps carry that through returns, calls and the switch
--   StrTab   src/utilities/u_str_tab.h and src/utilities/u_str_tab.cxx: the order of the cache
--            (Order) and U_STR_TAB (Table). Names is the list of names that the table stands for;
--            Cache and Refines show that the cache finds what the list has, and Run has the theorems
--   Types    src/encoder/u_type_encoder.cxx, with the parts of src/encoder/u_encoder.cxx and
--            src/ubh/u_module.cxx that pack (Encode) and read (Decode) function types; Slots and
--            LongForm are about the 2-bit fields, and ShortForm, RoundTrip and Stored have the
--            theorems
--   Encoder  src/encoder/u_encoder.cxx, src/encoder/u_inst_encoder.cxx and src/ubh/ubh.cxx: section
--            headers (Shdr), code bodies (Code), the file that is written (Sections), the module
--            header, section headers and sections that src/ubh/u_module.cxx reads in a file (Load),
--            and requests for functions and globals (Funcs); Headers is about the bit fields of a
--            header, Small about their range and about reading headers back, Buffers about writes to
--            the file's buffer, Collects about one step of the loop over the sections, Pointers and
--            HeaderMap about what Load finds, Writes about the length of the file, and ReadBack,
--            CodeLayout, Labels, FileLayout, Loaded, Requests and Again have the theorems
--   Conv     src/wasm/converter.cxx, src/wasm/converter.h, src/wasm/local_table.h,
--            src/wasm/conv_map.cxx, src/wasm/op_map.h and src/wasm/op_short_long_map.h:
--            REG_ALLOC_HELPER (Pool), the wasm instructions (Winst), the maps of opcodes (OpMap),
--            WINST_STMT_GRAPH (Graph), what Wasm_to_uwasm changes (State), the virtual stack (Stack),
--            Build_block_hierarchy and the labels (Blocks), branches (Control), the ends of blocks
--            (Ends), the other cases of the switch (Data, MemInst, Calls), the switch and its loop
--            (Inst), the registers of the locals (Locals), and what stands before and behind the loop
--            (Func). PoolLaws is about the registers. Numeric has the operations of the wasm
--            specification and Straight what straight-line code does with the stack and the locals,
--            apart from the converter and the interpreter; Arithmetic compares Numeric with the
--            interpreter, and Registers says which registers and instructions the code is to get;
--            Typing has the typing as a relation. Places, Begun and Begins are about the registers of
--            the locals, Forward, Holds, Emits, Cases, Encodable and Progress about the conversion,
--            Writes, Values, Rules and Computes about the interpreter on its instructions, and
--            Correct has the theorem on both
--   Tests    concrete runs
--
-- How the code corresponds. A function that changes the machine takes the machine and returns a
-- Result: `err assertion` is a failed Is_True, which ends the process of the debug build, and
-- `err undefined` is what the C++ standard leaves undefined: an access out of bounds, a shift by the
-- width or more, a division by zero, a conversion out of range. A word is the number of its bit
-- pattern, `% 2 ^ w` written out, and signed arithmetic wraps. Pointers into the expanded table are
-- indices, and pointers into the memory offsets from _mem_p. Bit fields and memory are little-endian.
-- A family of functions that differ in a type or a comparison is one function with that type or
-- comparison as an argument, and a combination for which the switch of Exec_start has no case ends in
-- the assertion of its default. The build is the one without DIRECT_ACC_MEM, __M64__ and
-- UWASM_MEM_CHECK.
--
-- Parameters. Floating-point arithmetic, the system calls (U_RUNTIME::Call_sys_call) and what realloc
-- does with the memory are arguments (Floats and Host). The realloc of a register file is taken to
-- succeed. Whether an insertion moves the buffer of a string table is an argument (`moved`), and a
-- pointer into the buffer is an offset. The bytes of a UBH_CODE are an argument too (`head`), of
-- which only the size counts. What new tables hold before they are written is an argument (`raw`).
-- What the converter reads of the wasm module and of its options is the record Env of Conv: the
-- number of return registers, the signatures of functions and types, the globals, and which
-- insertions of names move a buffer; the immediates of a wasm instruction are arguments of its
-- constructor. A UINT32 function of the converter whose end is reached without a return statement is
-- taken to have succeeded. The map of the string table is its list of keys, and an operation looks
-- for an equivalent one.
--
-- Fuel. exec_start takes the number of iterations that it may make; it says `none` where the machine
-- has not stopped by then. The loop of Ctz has 32 steps, since the next shift is undefined.
--
-- Not modelled: of the converter, the reading of immediates (LEB128) from the wasm bytes, the
-- requests of Create_ubh_code to the encoder, and printing; Straight and the theorems on the
-- conversion leave aside control, calls, memory, globals, conversions, rotations, comparisons of
-- floats, and the comparisons and shifts of i64; the theorem on the interpreter leaves aside the
-- operands on which it does not compute what wasm asks for (unsigned division from half the range on,
-- the remainder of the least number by -1, shifts by the width or more). Nor are the loading of a UBH
-- file apart from its sections, types and code, the static linker, the runtime's system calls, the
-- debugger, traces, the vendored libraries.
pub mod Base
pub mod Conv
pub mod StrTab
pub mod Types
pub mod Encoder
pub mod Isa
pub mod Machine
pub mod Exec
pub mod Tests
