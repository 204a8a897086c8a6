-- ===== src/Exec/Linked.antt =====
-- The invariant of calls and returns (src/interpreter/exec_unit.cxx): what every frame of the
-- context stack says of the frame above it.
use uwasm_vm.Base.{ℕ, zero, suc, ◌-◌, ◌<◌, ◌≡◌, ◌∙◌, sym, arith, false, ltb}
use uwasm_vm.Base.{Result, ok}
use mathlib.Core.Path.{subst}
use uwasm_vm.Machine.Context.{ExecContext}
use uwasm_vm.Machine.State.{Machine, Module, Func, packed}
use uwasm_vm.Machine.Call.{get_func, fp_shs_of}
use uwasm_vm.Machine.Frames.{IsSynced}
use uwasm_vm.Exec.Keeps.{SameFrames, Keeps}

-- The function of the frame is known, and where a return to it leaves the frame pointers of i64,
-- f32 and f64 alone, those of the context above it are its own.
pub record Fits (mod_ : Module) (saved above : ExecContext) : Type 0 where
  pub caller : Func
  pub found : get_func mod_ saved.func_idx ≡ ok caller
  pub i64 : ltb 0xffff (packed (fp_shs_of caller)) ≡ false → above.fp_i64 ≡ saved.fp_i64
  pub f32 : ltb 0xffff (packed (fp_shs_of caller)) ≡ false → above.fp_f32 ≡ saved.fp_f32
  pub f64 : ltb 0xffff (packed (fp_shs_of caller)) ≡ false → above.fp_f64 ≡ saved.fp_f64

abbrev pub IsLinked : Module → (ℕ → ExecContext) → ℕ → ExecContext → Type 0
IsLinked mod_ ctx_sta zero above = Unit
IsLinked mod_ ctx_sta (suc below) above =
    Fits mod_ (ctx_sta below) above × IsLinked mod_ ctx_sta below (ctx_sta below)

-- The register files agree with the current context, and the frames with one another.
pub record IsSafe (mod_ : Module) (m : Machine) : Type 0 where
  pub synced : IsSynced m
  pub linked : IsLinked mod_ m.ctx_stack.ctx_sta m.ctx_stack.depth m.current

module _ (mod_ : Module) where
  -- Only the frame pointers of the upper context count.
  Fits-above :
      (saved above other : ExecContext)
      → (other.fp_i64 ≡ above.fp_i64)
      → (other.fp_f32 ≡ above.fp_f32)
      → (other.fp_f64 ≡ above.fp_f64)
      → Fits mod_ saved above
      → Fits mod_ saved other
  Fits-above saved above other i64 f32 f64 fits = record {
    caller = fits.caller;
    found = fits.found;
    i64 = λ few. i64 ∙ fits.i64 few;
    f32 = λ few. f32 ∙ fits.f32 few;
    f64 = λ few. f64 ∙ fits.f64 few;
  }

  pub IsLinked-above :
      (sta : ℕ → ExecContext) (depth : ℕ) (above other : ExecContext)
      → (other.fp_i64 ≡ above.fp_i64)
      → (other.fp_f32 ≡ above.fp_f32)
      → (other.fp_f64 ≡ above.fp_f64)
      → IsLinked mod_ sta depth above
      → IsLinked mod_ sta depth other
  IsLinked-above sta zero above other i64 f32 f64 linked = tt
  IsLinked-above sta (suc below) above other i64 f32 f64 (fits, linked) =
      (Fits-above (sta below) above other i64 f32 f64 fits, linked)

  -- Only the frames below the depth count.
  pub IsLinked-below :
      (sta sta' : ℕ → ExecContext) (depth : ℕ) (above : ExecContext)
      → ((i : ℕ) → i < depth → sta' i ≡ sta i)
      → IsLinked mod_ sta depth above
      → IsLinked mod_ sta' depth above
  IsLinked-below sta sta' zero above same linked = tt
  IsLinked-below sta sta' (suc below) above same (fits, linked) =
      let here : sta below ≡ sta' below = sym (same below (omega arith)) in
      (
        subst (λ saved. Fits mod_ saved above) here fits,
        subst (λ saved. IsLinked mod_ sta' below saved) here
            (IsLinked-below sta sta' below (sta below) (λ i h. same i (omega arith)) linked),
      )

  pub IsLinked-top :
      (sta : ℕ → ExecContext) (depth : ℕ) (above : ExecContext)
      → 0 < depth
      → IsLinked mod_ sta depth above
      → Fits mod_ (sta (depth - 1)) above × IsLinked mod_ sta (depth - 1) (sta (depth - 1))
  IsLinked-top sta zero above some linked = absurd (omega arith)
  IsLinked-top sta (suc below) above some linked =
      let same : below ≡ suc below - 1 = omega arith in
      subst (λ d. Fits mod_ (sta d) above × IsLinked mod_ sta d (sta d)) same linked

  -- What keeps the frames keeps them safe.
  pub SameFrames-IsSafe : (m m' : Machine) → SameFrames m m' → IsSafe mod_ m → IsSafe mod_ m'
  SameFrames-IsSafe m m' same safe = record {
    synced = record {
      i32 = same.fp_i32 ∙ safe.synced.i32 ∙ sym same.i32;
      i64 = same.fp_i64 ∙ safe.synced.i64 ∙ sym same.i64;
      f32 = same.fp_f32 ∙ safe.synced.f32 ∙ sym same.f32;
      f64 = same.fp_f64 ∙ safe.synced.f64 ∙ sym same.f64;
    };
    linked = rw same.stack (
        IsLinked-above m.ctx_stack.ctx_sta m.ctx_stack.depth m.current m'.current same.fp_i64
          same.fp_f32 same.fp_f64 safe.linked);
  }

  pub Keeps-IsSafe :
      (m m' : Machine) (r : Result Machine) → Keeps m r → r ≡ ok m' → IsSafe mod_ m → IsSafe mod_ m'
  Keeps-IsSafe m m' r keeps e = SameFrames-IsSafe m m' (keeps m' e)
