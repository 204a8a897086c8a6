-- ===== src/Exec/Keeps.antt =====
-- What the instructions of src/interpreter/exec_unit_func.h other than calls and returns leave alone:
-- the context stack and every frame pointer.
use uwasm_vm.Base.{ℕ, ◌≡◌, refl, ◌∙◌, Bool, true, false, if◌then◌else◌, List}
use uwasm_vm.Base.{
  Fault, Result, is_true, ok, err, ◌>>=◌, ◌>>◌, >>=-eq-ok, ok-injective, err-ne-ok, arith,
}
use mathlib.Core.Path.{subst}
use uwasm_vm.Isa.Opcode.{Valty, i32, i64, f32, f64}
use uwasm_vm.Isa.Expand.{AmExpand}
use uwasm_vm.Machine.Register
use uwasm_vm.Machine.Register.{Register}
use uwasm_vm.Machine.Call.{inc_machine_pc}
use uwasm_vm.Exec.Jump.{jmp, branch}
use uwasm_vm.Exec.Memory.{write_mem, write_le}
use uwasm_vm.Machine.State.{Machine, reg, with_reg, set_reg}

-- The same frames: nothing that calls and returns rely on differs.
pub record SameFrames (m m' : Machine) : Type 0 where
  pub stack : m'.ctx_stack ≡ m.ctx_stack
  pub func_idx : m'.current.func_idx ≡ m.current.func_idx
  pub fp_i32 : m'.current.fp_i32 ≡ m.current.fp_i32
  pub fp_i64 : m'.current.fp_i64 ≡ m.current.fp_i64
  pub fp_f32 : m'.current.fp_f32 ≡ m.current.fp_f32
  pub fp_f64 : m'.current.fp_f64 ≡ m.current.fp_f64
  pub i32 : m'.reg_i32.fp ≡ m.reg_i32.fp
  pub i64 : m'.reg_i64.fp ≡ m.reg_i64.fp
  pub f32 : m'.reg_f32.fp ≡ m.reg_f32.fp
  pub f64 : m'.reg_f64.fp ≡ m.reg_f64.fp

abbrev pub Keeps : Machine → Result Machine → Type 0
Keeps m r = (m' : Machine) → r ≡ ok m' → SameFrames m m'

-- By the way the result is made.
pub bind-Keeps {ℓ} :
    {A : Type ℓ} {m : Machine} (r : Result A) (f : A → Result Machine)
    → ((a : A) → Keeps m (f a))
    → Keeps m (r >>= f)
bind-Keeps r f keeps m' e = let (a, made, rest) = >>=-eq-ok r f e in keeps a m' rest

pub bind-Keeps-of {ℓ} :
    {A : Type ℓ} {m : Machine} (r : Result A) (f : A → Result Machine)
    → ((a : A) → r ≡ ok a → Keeps m (f a))
    → Keeps m (r >>= f)
bind-Keeps-of r f keeps m' e = let (a, made, rest) = >>=-eq-ok r f e in keeps a made m' rest

pub guard-Keeps :
    {m : Machine} (b : Bool) (r : Result Machine) → Keeps m r → Keeps m (is_true b >> r)
guard-Keeps true r keeps m' e = keeps m' e
guard-Keeps false r keeps m' e = absurd (err-ne-ok e)

pub if-Keeps :
    {m : Machine} (b : Bool) (r other : Result Machine)
    → Keeps m r
    → Keeps m other
    → Keeps m (if b then r else other)
if-Keeps true r other holds fails = holds
if-Keeps false r other holds fails = fails

pub ok-Keeps : {m : Machine} (n : Machine) → SameFrames m n → Keeps m (ok n)
ok-Keeps {m} n same m' e = subst (λ t. SameFrames m t) (ok-injective e) same

pub err-Keeps : {m : Machine} {f : Fault} → Keeps m (err f)
err-Keeps m' e = absurd (err-ne-ok e)

pub SameFrames-refl : (m : Machine) → SameFrames m m
SameFrames-refl m = record {
  stack = refl;
  func_idx = refl;
  fp_i32 = refl;
  fp_i64 = refl;
  fp_f32 = refl;
  fp_f64 = refl;
  i32 = refl;
  i64 = refl;
  f32 = refl;
  f64 = refl;
}

set-fp : (r r' : Register) (i x : ℕ) → Register.set r i x ≡ ok r' → r'.fp ≡ r.fp
unfolding Register.set
set-fp r r' i x e = ground arith

with_reg-SameFrames :
    (v : Valty) (m : Machine) (r : Register) → r.fp ≡ (reg v m).fp → SameFrames m (with_reg v r m)
with_reg-SameFrames i32 m r same = ground arith
with_reg-SameFrames i64 m r same = ground arith
with_reg-SameFrames f32 m r same = ground arith
with_reg-SameFrames f64 m r same = ground arith

pub set_reg-Keeps : (v : Valty) (m : Machine) (i x : ℕ) → Keeps m (set_reg v m i x)
unfolding set_reg
set_reg-Keeps v m i x m' e =
    let (r, written, done) = >>=-eq-ok (Register.set (reg v m) i x) _ e in
    ok-Keeps _ (with_reg-SameFrames v m r (set-fp (reg v m) r i x written)) m' done

pub inc_machine_pc-SameFrames : (m : Machine) → SameFrames m (inc_machine_pc m)
inc_machine_pc-SameFrames m = record {
  stack = refl;
  func_idx = refl;
  fp_i32 = refl;
  fp_i64 = refl;
  fp_f32 = refl;
  fp_f64 = refl;
  i32 = refl;
  i64 = refl;
  f32 = refl;
  f64 = refl;
}

pub with_table-SameFrames :
    (m : Machine) (t : List AmExpand) → SameFrames m (record m { table = t })
with_table-SameFrames m t = ground arith

pub with_globals-SameFrames : (m : Machine) (g : List ℕ) → SameFrames m (record m { globals = g })
with_globals-SameFrames m g = ground arith

pub jmp-Keeps : (ofs : ℕ) (m : Machine) → Keeps m (jmp ofs m)
unfolding jmp
jmp-Keeps ofs m = bind-Keeps _ _ λ pc. ok-Keeps _ (same pc)
  where
    same : (pc : ℕ) → SameFrames m (record m { current = record m.current { pc = pc } })
    same pc = ground arith

pub branch-Keeps : (taken : Bool) (e : AmExpand) (m : Machine) → Keeps m (branch taken e m)
branch-Keeps true e m = jmp-Keeps e.expand3 m
branch-Keeps false e m = ok-Keeps _ (inc_machine_pc-SameFrames m)

pub write_mem-Keeps : (m : Machine) (addr n x : ℕ) → Keeps m (write_mem m addr n x)
unfolding write_mem
write_mem-Keeps m addr n x = bind-Keeps _ _ λ inside. ok-Keeps _ (same)
  where
    same : SameFrames m (record m { mem = write_le m.mem addr n x })
    same = ground arith

pub SameFrames-trans : (m n k : Machine) → SameFrames m n → SameFrames n k → SameFrames m k
SameFrames-trans m n k p q = record {
  stack = q.stack ∙ p.stack;
  func_idx = q.func_idx ∙ p.func_idx;
  fp_i32 = q.fp_i32 ∙ p.fp_i32;
  fp_i64 = q.fp_i64 ∙ p.fp_i64;
  fp_f32 = q.fp_f32 ∙ p.fp_f32;
  fp_f64 = q.fp_f64 ∙ p.fp_f64;
  i32 = q.i32 ∙ p.i32;
  i64 = q.i64 ∙ p.i64;
  f32 = q.f32 ∙ p.f32;
  f64 = q.f64 ∙ p.f64;
}

-- An instruction in two parts.
pub then-Keeps : (m n : Machine) (r : Result Machine) → SameFrames m n → Keeps n r → Keeps m r
then-Keeps m n r first keeps m' e = SameFrames-trans m n m' first (keeps m' e)

pub ruleset keeping =
    (bind-Keeps, guard-Keeps, set_reg-Keeps, err-Keeps, jmp-Keeps, branch-Keeps, write_mem-Keeps)
