-- ===== src/Transformer/StepRanges.antt =====
-- Every step of the transformations, where it succeeds, turns a value of an integer type into a value
-- of that type, whatever the floats compute.
use device_sdk_python.Base.{
  ◌≡◌, refl, Bool, true, false, Option, none, some, arith, if◌then◌else◌, inl, inr, Bool-cases,
}
use mathlib.Core.Path.{subst}
use device_sdk_python.Base.Int.{ℤ, eq_ℤ, ◌*ℤ◌}
use device_sdk_python.Raise.{Result, ok, raise, ◌>>=◌}
use device_sdk_python.Floats.{Floats}
use device_sdk_python.Model.ValueType.{ValueType, is_integer, is_numeric}
use device_sdk_python.Model.Value.{Value}
use device_sdk_python.Model.Metadata.{ResourceProperties}
use device_sdk_python.Model.CommandValue.{CommandValue}
use device_sdk_python.Transformer.Words.{truncate_int, trunc_div}
use device_sdk_python.Transformer.Words.Bounds.{
  Fits, truncate_int-Fits, transform_mask-Fits, transform_shift-Fits,
}
use device_sdk_python.Transformer.Numbers
use device_sdk_python.Transformer.Numbers.{
  Number, int, float, as_int, as_number, transform_base, transform_scale, transform_offset,
  from_value_float,
}
use device_sdk_python.Transformer.ReadResult.{
  optional_step, mask_step, shift_step, base_step, scale_step, offset_step, assign, is_float_type,
}

ok-injective : {A : Type 0} {a b : A} → ok a ≡ ok b → a ≡ b
ok-injective e = cc

pub numeric_of_integer : (vt : ValueType) → is_integer vt ≡ true → is_numeric vt ≡ true
unfolding is_integer is_numeric
numeric_of_integer ValueType.uint8 h = refl
numeric_of_integer vt h = ground arith

pub not_float_of_integer : (vt : ValueType) → is_integer vt ≡ true → is_float_type vt ≡ false
unfolding is_integer
not_float_of_integer ValueType.uint8 h = refl
not_float_of_integer vt h = ground arith

module _ (fl : Floats) where
  open fl use {Float}

  -- The number is a value of the integer type.
  abbrev pub NumberFits : ValueType → Number Float → Type 0
  NumberFits vt (int i) = Fits vt i
  NumberFits vt (float f) = ⊥

  -- If the step succeeds, its number is a value of the type.
  abbrev pub Keeps : ValueType → Result (Number Float) → Type 0
  Keeps vt (ok n) = NumberFits vt n
  Keeps vt (raise e) = Unit

  Keeps-bind :
      {A : Type 0} (vt : ValueType) (m : Result A) (f : A → Result (Number Float))
      → ((a : A) → m ≡ ok a → Keeps vt (f a))
      → Keeps vt (m >>= f)
  Keeps-bind vt (ok a) f h = h a refl
  Keeps-bind vt (raise e) f h = tt

  Keeps-truncate :
      (vt : ValueType) (i : ℤ)
      → is_integer vt ≡ true
      → Keeps vt (truncate_int i vt >>= λ j. ok (int j))
  Keeps-truncate vt i h = let (r, e, fits) = truncate_int-Fits i vt h in rw e fits

  Keeps-optional :
      {P : Type 0} (vt : ValueType) (o : Option P) (applies : P → Bool)
      (f : P → Result (Number Float)) (n : Number Float)
      → NumberFits vt n
      → ((p : P) → Keeps vt (f p))
      → Keeps vt (optional_step fl o applies f n)
  unfolding optional_step
  Keeps-optional vt none applies f n fits h = fits
  Keeps-optional vt (some p) applies f n fits h = elim (Bool-cases (applies p)) [
    | inl e ↦ rw e (h p)
    | inr e ↦ rw e fits
  ]

  from_value_float-Keeps :
      (x : Float) (vt : ValueType) → is_integer vt ≡ true → Keeps vt (from_value_float fl x vt)
  unfolding from_value_float is_integer
  from_value_float-Keeps x ValueType.float32 h = cc
  from_value_float-Keeps x ValueType.float64 h = cc
  from_value_float-Keeps x vt h = Keeps-bind vt (fl.to_int x) _ (λ i _. Keeps-truncate vt i h)

  Keeps-quotient :
      (m : Result ℤ) (vt : ValueType)
      → is_integer vt ≡ true
      → Keeps vt ((m >>= λ q. truncate_int q vt) >>= λ j. ok (int j))
  Keeps-quotient (ok q) vt h = Keeps-truncate vt q h
  Keeps-quotient (raise e) vt h = tt

  scale_int-Keeps :
      (i k : ℤ) (read : Bool) (vt : ValueType)
      → is_integer vt ≡ true
      → Keeps vt (Numbers.scale_int fl i k read vt >>= λ j. ok (int j))
  unfolding Numbers.scale_int
  scale_int-Keeps i k true vt h = Keeps-truncate vt (i *ℤ k) h
  scale_int-Keeps i k false vt h = Keeps-quotient (trunc_div i k) vt h

  module _ (props : ResourceProperties Float) (vt : ValueType)
      (integer : is_integer vt ≡ true) where
    pub mask_step-Keeps : (n : Number Float) → NumberFits vt n → Keeps vt (mask_step fl props vt n)
    unfolding mask_step
    mask_step-Keeps n fits = Keeps-optional vt props.mask _ _ n fits (λ mask.
        Keeps-bind vt (as_int n) _
          (λ i _. let (r, e, h) = transform_mask-Fits i mask vt integer in rw e h))

    pub shift_step-Keeps :
        (shift : Option ℤ) (n : Number Float)
        → NumberFits vt n
        → Keeps vt (shift_step fl shift vt n)
    unfolding shift_step
    shift_step-Keeps shift n fits = Keeps-optional vt shift _ _ n fits (λ s.
        Keeps-bind vt (as_int n) _
          (λ i _. let (r, e, h) = transform_shift-Fits i s vt integer in rw e h))

    pub base_step-Keeps :
        (read : Bool) (n : Number Float) → NumberFits vt n → Keeps vt (base_step fl props read vt n)
    unfolding base_step transform_base
    base_step-Keeps read n fits = Keeps-optional vt props.base _ _ n fits (λ b.
        Keeps-bind vt (Numbers.to_value_float fl n vt) _ (λ x _. Keeps-bind vt _ _ (λ y _.
          Keeps-bind vt (Numbers.check_in_range fl vt y) _
            (λ _ _. from_value_float-Keeps y vt integer))))

    pub scale_step-Keeps :
        (read : Bool) (n : Number Float)
        → NumberFits vt n
        → Keeps vt (scale_step fl props read vt n)
    unfolding scale_step transform_scale
    scale_step-Keeps read n fits = Keeps-optional vt props.scale _ _ n fits (λ s.
        Keeps-bind vt (Numbers.to_value_float fl n vt) _ (λ x _.
          Keeps-bind vt (if read then ok (fl.mul x s) else fl.div x s) _ (λ y _.
            Keeps-bind vt (Numbers.check_in_range fl vt y) _ (λ _ _. rw integer (
              Keeps-bind vt (fl.to_int s) _ (λ k _.
                Keeps-bind vt (as_int n) _ (λ i _. scale_int-Keeps i k read vt integer)))))))

    pub offset_step-Keeps :
        (read : Bool) (n : Number Float)
        → NumberFits vt n
        → Keeps vt (offset_step fl props read vt n)
    unfolding offset_step transform_offset
    offset_step-Keeps read n fits = Keeps-optional vt props.offset _ _ n fits (λ o.
        Keeps-bind vt (Numbers.to_value_float fl n vt) _ (λ x _.
          Keeps-bind vt (Numbers.check_in_range fl vt _) _ (λ _ _. rw integer (
            Keeps-bind vt (fl.to_int o) _
              (λ k _. Keeps-bind vt (as_int n) _ (λ i _. Keeps-truncate vt _ integer))))))

    -- The next step starts from a number that fits.
    pub Keeps-then :
        (m : Result (Number Float)) (f : Number Float → Result (Number Float))
        → Keeps vt m
        → ((n : Number Float) → NumberFits vt n → Keeps vt (f n))
        → Keeps vt (m >>= f)
    Keeps-then (ok n) f k h = h n k
    Keeps-then (raise e) f k h = tt

  -- A `CommandValue` of an integer type that holds a value of that type.
  pub record HoldsInteger (cv : CommandValue Float) : Type 0 where
    pub integer : is_integer cv.value_type ≡ true
    pub held : ℤ
    pub value : cv.value ≡ Value.int held
    pub fits : Fits cv.value_type held

  assign-HoldsInteger :
      (cv : CommandValue Float) (n : Number Float) (v : HoldsInteger cv)
      → NumberFits cv.value_type n
      → HoldsInteger (assign fl cv (int v.held) n)
  unfolding assign
  assign-HoldsInteger cv (int j) v h = elim (Bool-cases (eq_ℤ v.held j)) [
    | inl e ↦ rw e v
    | inr e ↦ rw e (record { integer = v.integer; held = j; value = refl; fits = h })
  ]
  assign-HoldsInteger cv (float f) v h = elim h [ ]

  assign-unchanged :
      (cv : CommandValue Float) (n m : Number Float)
      → ((assign fl cv n m).value_type ≡ cv.value_type)
        × ((assign fl cv n m).device_resource_name ≡ cv.device_resource_name)
  unfolding assign
  assign-unchanged cv n m = ground arith

  -- What both transformations end in.
  pub assigned :
      (cv : CommandValue Float) (v : HoldsInteger cv) (m : Result (Number Float))
      {cv' : CommandValue Float}
      → Keeps cv.value_type m
      → (m >>= λ n. ok (assign fl cv (int v.held) n)) ≡ ok cv'
      → HoldsInteger cv'
        × (cv'.value_type ≡ cv.value_type)
        × (cv'.device_resource_name ≡ cv.device_resource_name)
  assigned cv v (ok n) h e =
      let p = ok-injective e in
      let (same_type, same_name) = assign-unchanged cv (int v.held) n in
      (
        subst HoldsInteger p (assign-HoldsInteger cv n v h),
        subst (λ c. c.value_type ≡ cv.value_type) p same_type,
        subst (λ c. c.device_resource_name ≡ cv.device_resource_name) p same_name,
      )
  assigned cv v (raise x) h e = cc
