-- ===== src/Conv/Blocks.antt =====
-- Labels and blocks: Add_label, Create_new_block, Finish_old_block and Build_block_hierarchy
-- (src/wasm/converter.cxx).
use uwasm_vm.Base.{
  ℕ, zero, suc, ◌+◌, ◌-◌, ◌/◌, ◌%◌, ltb, Bool, true, false, if◌then◌else◌, List, [], ◌∷◌, ◌++◌,
}
use uwasm_vm.Base.{length, none, some, err, assertion, undefined}
use uwasm_vm.Isa.Opcode.{valty_code}
use uwasm_vm.Encoder.Code
use uwasm_vm.Encoder.Code.{Labelled}
use uwasm_vm.Conv.Winst.{Winst}
use uwasm_vm.Conv.Graph.{block_stmt, root_block, instr, new_stmt, add_stmt, add_stmt_to_parent}
use uwasm_vm.Conv.State.{Conv, ◌>>=◌, ◌>>◌, pure, lift, gets, modify, check, get_stmt, change_stmt}
use uwasm_vm.Conv.Env.{Env, block_result}

-- The digits that `%u` prints of a UINT32.
abbrev decimal : ℕ → ℕ → List ℕ
decimal zero n = []
decimal (suc fuel) n =
    let front = decimal fuel (n / 10) in (if ltb n 10 then [] else front) ++ ((b'0' + n % 10) ∷ [])

abbrev pub digits : ℕ → List ℕ
digits n = decimal 10 n

-- ".L_begin_%u", ".L_end_%u" and ".L_select_%u", with the 0 at the end.
abbrev pub begin_name : ℕ → List ℕ
begin_name pc =
    b'.' ∷ b'L' ∷ b'_' ∷ b'b' ∷ b'e' ∷ b'g' ∷ b'i' ∷ b'n' ∷ b'_' ∷ (digits pc ++ (0 ∷ []))

abbrev pub end_name : ℕ → List ℕ
end_name pc = b'.' ∷ b'L' ∷ b'_' ∷ b'e' ∷ b'n' ∷ b'd' ∷ b'_' ∷ (digits pc ++ (0 ∷ []))

abbrev pub select_name : ℕ → List ℕ
select_name pc =
    b'.' ∷ b'L' ∷ b'_' ∷ b's' ∷ b'e' ∷ b'l' ∷ b'e' ∷ b'c' ∷ b't' ∷ b'_' ∷ (digits pc ++ (0 ∷ []))

-- Request_label and Add_label of the encoder, on the code body.
unfoldable pub request_label : Env → List ℕ → Conv ℕ
unfolding ◌>>=◌ pure lift gets modify
request_label env name = do
  b ← gets (λ s. s.body)
  r ← lift (Code.request_label (env.moved (length b.lab_names.raw_buf)) b name)
  modify (λ s. record s { body = r.body })
  pure r.label_idx

unfoldable pub new_label : Env → List ℕ → Conv ℕ
unfolding ◌>>=◌ pure lift gets modify
new_label env name = do
  b ← gets (λ s. s.body)
  r ← lift (Code.add_label (env.moved (length b.lab_names.raw_buf)) b name)
  modify (λ s. record s { body = r.body })
  pure r.label_idx

unfoldable pub add_label : Env → Bool → ℕ → Bool → Conv ℕ
unfolding request_label new_label
add_label env begin pc add_new_label =
    let name = if begin then begin_name pc else end_name pc in
    if add_new_label then new_label env name else request_label env name

-- Where Create_new_block asks for a label at the begin.
abbrev has_begin : Winst → Bool
has_begin (Winst.loop t) = true
has_begin Winst.else_ = true
has_begin _ = false

abbrev is_if : Winst → Bool
is_if (Winst.if_ t) = true
is_if _ = false

-- The block inside its parent, and the root.
unfoldable pub create_inner_block : Env → ℕ → Winst → ℕ → ℕ → Conv ℕ
unfolding ◌>>=◌ pure lift gets modify add_label change_stmt
create_inner_block env parent opc wasm_ty ins_cnt = do
  g ← gets (λ s. s.graph)
  g' ← lift (add_stmt_to_parent g (new_stmt block_stmt opc ins_cnt) ins_cnt parent)
  let stmt_id = length g.stmts
  modify (λ s. record s { graph = g' })
  if has_begin opc
      then (do
        begin ← add_label env true stmt_id false
        change_stmt stmt_id (λ x. record x { begin_label = some begin }))
      else pure tt
  end ← add_label env false stmt_id false
  change_stmt stmt_id (λ x. record x { end_label = some end })
  result ← lift (block_result wasm_ty)
  change_stmt stmt_id (λ x. elim result [
    | none ↦ record x { result_cnt = 0 }
    | some v ↦ record x { result_cnt = 1; result_type = v }
  ])
  pure stmt_id

unfoldable pub create_root : Winst → ℕ → Conv ℕ
unfolding ◌>>=◌ pure gets modify
create_root opc ins_cnt = do
  g ← gets (λ s. s.graph)
  modify (λ s. record s { graph = add_stmt g (new_stmt root_block opc ins_cnt) ins_cnt })
  pure (length g.stmts)

-- An instruction inside its block.
unfoldable pub add_instr : ℕ → Winst → ℕ → Conv (Unit {0})
unfolding ◌>>=◌ lift gets modify
add_instr parent w ins_cnt = do
  g ← gets (λ s. s.graph)
  g' ← lift (add_stmt_to_parent g (new_stmt instr w ins_cnt) ins_cnt parent)
  modify (λ s. record s { graph = g' })

-- The else block takes the results of the if block, whose type its own is made from first.
unfoldable pub create_else : Env → ℕ → ℕ → ℕ → Conv ℕ
unfolding ◌>>=◌ pure lift create_inner_block get_stmt change_stmt
create_else env parent if_id ins_cnt = do
  x ← get_stmt if_id
  else_id ← create_inner_block env parent Winst.else_ (0x7f - valty_code x.result_type) ins_cnt
  change_stmt if_id (λ s. record s { else_stmt = else_id })
  change_stmt else_id
      (λ s. record s { else_stmt = if_id; result_cnt = x.result_cnt; result_type = x.result_type })
  check (is_if x.opcode)
  pure else_id

-- A case of the switch, inside the block `top`: what the work list is then, its top first.
unfoldable pub build_one : Env → Winst → ℕ → List ℕ → ℕ → Conv (List ℕ)
unfolding ◌>>=◌ pure lift create_inner_block create_else add_instr
build_one env (Winst.if_ t) top work ins_cnt = do
  id ← create_inner_block env top (Winst.if_ t) t ins_cnt
  pure (id ∷ top ∷ work)
build_one env (Winst.block t) top work ins_cnt = do
  id ← create_inner_block env top (Winst.block t) t ins_cnt
  pure (id ∷ top ∷ work)
build_one env (Winst.loop t) top work ins_cnt = do
  id ← create_inner_block env top (Winst.loop t) t ins_cnt
  pure (id ∷ top ∷ work)
build_one env Winst.else_ top [] ins_cnt = lift (err assertion)
build_one env Winst.else_ top (parent ∷ work) ins_cnt = do
  id ← create_else env parent top ins_cnt
  pure (id ∷ parent ∷ work)
build_one env Winst.end top work ins_cnt = do add_instr top Winst.end ins_cnt; pure work
build_one env w top work ins_cnt = do add_instr top w ins_cnt; pure (top ∷ work)

-- With an empty work list, behind the end of the function.
unfoldable pub build_outside : Winst → ℕ → Conv (List ℕ)
unfolding ◌>>=◌ pure lift create_root
build_outside (Winst.if_ t) ins_cnt = do id ← create_root (Winst.if_ t) ins_cnt; pure (id ∷ [])
build_outside (Winst.block t) ins_cnt = do id ← create_root (Winst.block t) ins_cnt; pure (id ∷ [])
build_outside (Winst.loop t) ins_cnt = do id ← create_root (Winst.loop t) ins_cnt; pure (id ∷ [])
build_outside Winst.else_ ins_cnt = lift (err assertion)
build_outside Winst.end ins_cnt = lift (err assertion)
build_outside w ins_cnt = lift (err undefined)

-- The loop of Build_block_hierarchy.
unfoldable pub build_from : Env → List Winst → List ℕ → ℕ → Conv (Unit {0})
unfolding ◌>>=◌ pure build_one build_outside
build_from env [] work ins_cnt = pure tt
build_from env (w ∷ ws) [] ins_cnt = do
  next ← build_outside w ins_cnt
  build_from env ws next (ins_cnt + 1)
build_from env (w ∷ ws) (top ∷ work) ins_cnt = do
  next ← build_one env w top work ins_cnt
  build_from env ws next (ins_cnt + 1)

-- Instructions count from BLOCK_INSTR_BEGIN, 1.
unfoldable pub build_block_hierarchy : Env → List Winst → Conv (Unit {0})
unfolding ◌>>=◌ create_root build_from
build_block_hierarchy env ws = do
  id ← create_root Winst.unreachable 1
  build_from env ws (id ∷ []) 1
