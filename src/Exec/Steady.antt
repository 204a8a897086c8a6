-- ===== src/Exec/Steady.antt =====
-- The instructions of src/interpreter/exec_unit_func.h other than calls and returns keep the frames,
-- one by one.
use uwasm_vm.Base.{ℕ, ◌≡◌}
use uwasm_vm.Base.{ok, ◌>>=◌, arith, in_bounds, get_elem?}
use uwasm_vm.Isa.Opcode.{Valty, i32, i64, f32, f64, Access, StoreWidth, Arith, Cmp, ZeroTest}
use uwasm_vm.Isa.Expand.{AmExpand}
use uwasm_vm.Machine.State.{Machine, Module, get_reg, set_reg}
use uwasm_vm.Exec.Word.{Floats}
use uwasm_vm.Exec.Keeps.{
  SameFrames, Keeps, bind-Keeps, ok-Keeps, set_reg-Keeps, then-Keeps, jmp-Keeps, keeping,
  bind-Keeps-of, with_table-SameFrames, with_globals-SameFrames,
}
use uwasm_vm.Exec.Const
use uwasm_vm.Exec.Arith
use uwasm_vm.Exec.Memory
use uwasm_vm.Exec.Jump
use uwasm_vm.Exec.Global
use uwasm_vm.Exec.Global.{Realloc, Grown}

module _ (fl : Floats) (v : Valty) (e : AmExpand) (m : Machine) where
  pub mov-Keeps : Keeps m (Const.mov v e m)
  unfolding Const.mov
  mov-Keeps = search keeping

  pub const_short-Keeps : Keeps m (Const.const_short v e m)
  unfolding Const.const_short
  const_short-Keeps = search keeping

  pub ctz-Keeps : Keeps m (Const.ctz v e m)
  unfolding Const.ctz
  ctz-Keeps = search keeping

  pub popcnt-Keeps : Keeps m (Const.popcnt v e m)
  unfolding Const.popcnt
  popcnt-Keeps = search keeping

  pub add_ri-Keeps : Keeps m (Arith.add_ri v e m)
  unfolding Arith.add_ri
  add_ri-Keeps = search keeping

  pub add_rri-Keeps : Keeps m (Arith.add_rri v e m)
  unfolding Arith.add_rri
  add_rri-Keeps = search keeping

  pub adds-Keeps : Keeps m (Arith.adds fl v e m)
  unfolding Arith.adds
  adds-Keeps = search keeping

  pub subs-Keeps : Keeps m (Arith.subs fl v e m)
  unfolding Arith.subs
  subs-Keeps = search keeping

  pub add_rr-Keeps : Keeps m (Arith.add_rr fl v e m)
  unfolding Arith.add_rr
  add_rr-Keeps = search keeping

  pub rotl-Keeps : Keeps m (Arith.rotl v e m)
  unfolding Arith.rotl
  rotl-Keeps = search keeping

  pub rotr-Keeps : Keeps m (Arith.rotr v e m)
  unfolding Arith.rotr
  rotr-Keeps = search keeping

  pub load-Keeps : (a : Access) → Keeps m (Memory.load a v e m)
  unfolding Memory.load
  load-Keeps a = search keeping

  pub lload-Keeps : (a : Access) → Keeps m (Memory.lload a v e m)
  unfolding Memory.lload
  lload-Keeps a = search keeping

  pub store-Keeps : (s : StoreWidth) → Keeps m (Memory.store s v e m)
  unfolding Memory.store
  store-Keeps s = search keeping

  pub lstore-Keeps : (s : StoreWidth) → Keeps m (Memory.lstore s v e m)
  unfolding Memory.lstore
  lstore-Keeps s = search keeping

  pub arith_op-Keeps : (o : Arith) → Keeps m (Arith.arith_op fl o v e m)
  unfolding Arith.arith_op
  arith_op-Keeps o = search keeping

  pub jump_zero-Keeps : (t : ZeroTest) → Keeps m (Jump.jump_zero fl t v e m)
  unfolding Jump.jump_zero
  jump_zero-Keeps t = search keeping

  pub jump_cmp-Keeps : (c : Cmp) → Keeps m (Jump.jump_cmp fl c v e m)
  unfolding Jump.jump_cmp
  jump_cmp-Keeps c = search keeping

  pub jump_cmp_l-Keeps : (c : Cmp) → Keeps m (Jump.jump_cmp_l fl c v e m)
  unfolding Jump.jump_cmp_l
  jump_cmp_l-Keeps c = search keeping

  pub compare-Keeps : (c : Cmp) → Keeps m (Jump.compare fl c v e m)
  unfolding Jump.compare
  compare-Keeps c = search keeping

  pub eqz-Keeps : Keeps m (Jump.eqz fl v e m)
  unfolding Jump.eqz
  eqz-Keeps = search keeping

  pub llda-Keeps : Keeps m (Global.llda v e m)
  unfolding Global.llda
  llda-Keeps = search keeping

  pub llda_l-Keeps : Keeps m (Global.llda_l v e m)
  unfolding Global.llda_l
  llda_l-Keeps = search keeping

  pub memorysize-Keeps : Keeps m (Global.memorysize e m)
  unfolding Global.memorysize
  memorysize-Keeps = search keeping

  pub const_l-Keeps : Keeps m (Const.const_l v e m)
  unfolding Const.const_l
  const_l-Keeps = by_type v
    where
      by_type : (v : Valty) → Keeps m (Const.const_l v e m)
      by_type i32 = search keeping
      by_type i64 = search keeping
      by_type f32 = search keeping
      by_type f64 = search keeping

  pub const_l_high-Keeps : Keeps m (Const.const_l_high v e m)
  unfolding Const.const_l_high
  const_l_high-Keeps = by_type v
    where
      by_type : (v : Valty) → Keeps m (Const.const_l_high v e m)
      by_type i32 = search keeping
      by_type i64 = search keeping
      by_type f32 = search keeping
      by_type f64 = search keeping

  pub glda-Keeps : (mod_ : Module) → Keeps m (Global.glda mod_ v e m)
  unfolding Global.glda
  glda-Keeps mod_ = search keeping

  pub gget-Keeps : Keeps m (Global.gget v e m)
  unfolding Global.gget
  gget-Keeps = by_type v
    where
      by_type : (v : Valty) → Keeps m (Global.gget v e m)
      by_type i32 = search keeping
      by_type i64 = search keeping
      by_type f32 = search keeping
      by_type f64 = search keeping

  pub gset-Keeps : Keeps m (Global.gset v e m)
  unfolding Global.gset
  gset-Keeps = by_type v
    where
      by_type : (v : Valty) → Keeps m (Global.gset v e m)
      by_type i32 = bind-Keeps (in_bounds (get_elem? m.globals e.expand3)) _ λ old.
          bind-Keeps (get_reg i32 m e.expand1) _ λ x. ok-Keeps _ (with_globals-SameFrames m _)
      by_type i64 = search keeping
      by_type f32 = search keeping
      by_type f64 = search keeping

  pub jmp_indirect-Keeps : (pc : ℕ) → Keeps m (Jump.jmp_indirect pc e m)
  unfolding Jump.jmp_indirect
  jmp_indirect-Keeps pc =
      bind-Keeps _ _ λ ofs. then-Keeps m _ _ (with_table-SameFrames m _) (jmp-Keeps ofs _)

  grow_memory-SameFrames :
      (realloc : ℕ → Realloc) (target : ℕ) (g : Grown)
      → Global.grow_memory realloc target m ≡ ok g
      → SameFrames m g.machine
  unfolding Global.grow_memory
  grow_memory-SameFrames realloc target g grows = ground arith

  grown-Keeps :
      (realloc : ℕ → Realloc) (target i : ℕ)
      → Keeps m (Global.grow_memory realloc target m >>= λ g. set_reg i32 g.machine i g.result)
  grown-Keeps realloc target i = bind-Keeps-of (Global.grow_memory realloc target m) _ λ g grown.
      then-Keeps m g.machine _ (grow_memory-SameFrames realloc target g grown)
        (set_reg-Keeps i32 g.machine i g.result)

  pub memorygrow-Keeps : (realloc : ℕ → Realloc) → Keeps m (Global.memorygrow realloc e m)
  unfolding Global.memorygrow
  memorygrow-Keeps realloc = search (keeping, grown-Keeps)
