-- ===== src/Pfb.antt =====
-- src/pfb_fir.cu: the polyphase filter, one call of the kernel for each thread. The arithmetic of floats
-- is the device's: the type and its operations are parameters, and no law of them is used. `#pragma
-- unroll` changes nothing. The input, the weights and the output are addressed by the element.
pub mod Fir
pub mod Grid
use serendip6_reobs.Base.{
  ℕ, zero, suc, ◌+◌, ◌-◌, ◌*◌, ◌/◌, ◌%◌, leb, if◌then◌else◌, update, for_each,
}

abbrev pub wgs : ℕ
wgs = 128

abbrev pub taps : ℕ
taps = 4

-- The floats of the device: 0.0f, +, *, and the conversion of an int.
pub record Floats : Type 1 where
  pub Float : Type 0
  pub nought : Float
  pub plus : Float → Float → Float
  pub times : Float → Float → Float
  pub of_int : ℕ → Float

-- The arguments of the kernel but for `out`, which it writes.
pub record Args (fl : Floats) : Type 0 where
  pub in_data : ℕ → ℕ
  pub weights : ℕ → fl.Float
  pub n : ℕ
  pub step : ℕ
  pub stepy : ℕ
  pub in_offset : ℕ
  pub out_offset : ℕ

-- get_group_id(0), get_group_id(1) and get_local_id(0).
pub record Ids : Type 0 where
  pub group_x : ℕ
  pub group_y : ℕ
  pub lid : ℕ

-- int pos = group_x *   + lid: what stands between the two is a product.
abbrev pub pos_of : Ids → ℕ
pos_of t = t.group_x * t.lid

module _ {fl : Floats} (a : Args fl) where
  abbrev pub offset_of : Ids → ℕ
  offset_of t = t.group_y * a.stepy + pos_of t

  unfoldable pub get_sample_10bit : (idx : ℕ) → fl.Float
  get_sample_10bit idx = fl.of_int (a.in_data idx)

  -- The loop that fills all taps but one, with the array and `in_offset` before it.
  abbrev pub prime : (samples : ℕ → fl.Float) (in_offset : ℕ) → (ℕ → fl.Float) × ℕ
  prime samples in_offset =
      for_each (taps - 1)
        (λ i (s : (ℕ → fl.Float) × ℕ). (update s.0 i (get_sample_10bit s.1), s.1 + a.step))
        (samples, in_offset)

  -- The sum of row `i`.
  abbrev pub fir_sum : (rweights samples : ℕ → fl.Float) (i : ℕ) → fl.Float
  fir_sum rweights samples i =
      for_each taps (λ j sum. fl.plus sum (fl.times (rweights j) (samples ((i + j) % taps))))
        fl.nought

  -- The loop over the rows from row `i` on, `k` of them left; `out` starts at `to`. The int `n` may be
  -- negative: then the first test ends the loop, as it does for 0.
  unfoldable pub fir_rows :
      (k i : ℕ) (rweights samples : ℕ → fl.Float) (in_offset n to : ℕ)
      → (ℕ → fl.Float)
      → ℕ
      → fl.Float
  fir_rows zero i rweights samples in_offset n to out = out
  fir_rows (suc k) i rweights samples in_offset n to out =
      let idx = i * a.step in
      let s = update samples ((i + taps - 1) % taps) (get_sample_10bit (in_offset + idx)) in
      let rest =
        fir_rows k (i + 1) rweights s in_offset n to
          (update out (to + idx) (fir_sum rweights s i)) in
      if leb n idx then out else rest

  -- The kernel as one thread runs it. `samples` is the array of the thread before it is written.
  unfoldable pub pfb_fir : Ids → (samples out : ℕ → fl.Float) → ℕ → fl.Float
  pfb_fir t samples out =
      let offset = offset_of t in
      let (primed, in_offset) = prime samples (a.in_offset + offset) in
      fir_rows (a.stepy / a.step) 0 (λ i. a.weights (i * a.step + pos_of t)) primed in_offset
        (a.n - offset) (offset + a.out_offset) out
