-- ===== src/Tests/Filter.antt =====
-- The theorems on the filter, with numbers for floats.
use serendip6_reobs.Base.{ℕ, ◌+◌, ◌-◌, ◌*◌, ◌/◌, ◌%◌, ◌<◌, ◌≡◌, ◌≢◌, arith, refl}
use serendip6_reobs.Pfb.{Floats, Args, Ids, pfb_fir}
use serendip6_reobs.Pfb.Fir.{direct, place, pfb_fir_lem}
use serendip6_reobs.Pfb.Grid.{launch, launch-unwritten}

abbrev whole : Floats
whole = record { Float = ℕ; nought = 0; plus = λ x y. x + y; times = λ x y. x * y; of_int = λ x. x }

-- Two groups to a step of 256 positions, three rows.
abbrev args : Args whole
args = record {
  in_data = λ i. i % 256;
  weights = λ i. i / 256 + 1;
  n = 768;
  step = 256;
  stepy = 768;
  in_offset = 0;
  out_offset = 0;
}

abbrev one_thread : Ids
one_thread = record { group_x = 1; group_y = 0; lid = 5 }

pfb_fir_lem_example :
    ((i : ℕ)
      → i < 768 / 256
      → i * 256 < 768 - 5
      → pfb_fir args one_thread (λ _. 0) (λ _. 0) (place args (5 + 0) i)
        ≡ direct args (λ j. (j * 256 + 5) / 256 + 1) 5 i)
    × ((q : ℕ)
        → ((i : ℕ) → i < 768 / 256 → i * 256 < 768 - 5 → q ≢ place args (5 + 0) i)
        → pfb_fir args one_thread (λ _. 0) (λ _. 0) q ≡ 0)
pfb_fir_lem_example = pfb_fir_lem args one_thread (λ _. 0) (λ _. 0) (omega arith)

launch-unwritten_example : ◌≡◌ {A = ℕ} (launch args 2 1 (λ t j. 0) (λ j. 7) (256 + 200)) 7
launch-unwritten_example =
    launch-unwritten args 2 1 3 0 (λ t j. 0) (λ j. 7) (256 + 200) (omega arith) refl refl refl
      (omega arith)
