-- ===== src/Pipeline/Parcels.antt =====
-- What the frames alone say of the blocks that are handed over, for SOURCE_FAST, and of the files.
use serendip6_reobs.Base.{
  ℕ, ◌+◌, ◌*◌, ◌%◌, ◌/◌, ◌<◌, ◌≡◌, true, Option, none, some, List, [], ◌∷◌, ◌++◌,
}
use serendip6_reobs.Config.{Config, fast_of, n_data_bytes_per_block}
use serendip6_reobs.Window.{hands_over}
use serendip6_reobs.Pktsock.{Frame, nm}
use serendip6_reobs.Pktsock.Header.{get_header}
use serendip6_reobs.Pktsock.Trace.{shape}
use serendip6_reobs.Pktsock.Start.{at_zero}
use serendip6_reobs.Pktsock.Assembly.{IsWhole, Assembly, receive}
use serendip6_reobs.Output.{File}
use serendip6_reobs.Pipeline.System.{Outcome}

-- A block that is handed over: its number, and the payloads that were accepted for its mcnts.
pub record Parcel : Type 0 where
  pub seq : ℕ
  pub latest : ℕ → Option (ℕ → ℕ)

-- All the frames are whole.
abbrev pub AreWhole : List Frame → Type 0
AreWhole [] = Unit
AreWhole (f ∷ fs) = IsWhole f × AreWhole fs

module _ (c : Config) where
  -- What the frames, the last of which comes first, leave to be in the blocks of the window.
  abbrev pub assembly : List Frame → Assembly
  assembly [] = record { window = at_zero; latest = λ m. none }
  assembly (f ∷ fs) = receive c f (assembly fs)

  abbrev pub parcel : Option ℕ → Assembly → List Parcel
  parcel none a = []
  parcel (some seq) a = record { seq = seq; latest = a.latest } ∷ []

  -- The blocks that they hand over, in order.
  abbrev pub parcels : List Frame → List Parcel
  parcels [] = []
  parcels (f ∷ fs) =
      parcels fs
      ++ parcel (hands_over (shape c) (get_header c f).mcnt (assembly fs).window) (assembly fs)

-- The data have, for each mcnt of the block, the payload that was last accepted for it, the payloads in the
-- order of the mcnts, 4096 bytes each.
abbrev pub HoldsParcel : (n : ℕ) → (ℕ → ℕ) → Parcel → Type 0
HoldsParcel n bytes q =
    (m : ℕ) (pay : ℕ → ℕ)
    → q.latest m ≡ some pay
    → m / nm (fast_of n) ≡ q.seq
    → (i : ℕ) → i < 4096
    → bytes (m % nm (fast_of n) * 4096 + i) ≡ pay i

-- If a round is to write, it has left a file of the length of the data of a block that holds them.
abbrev pub IsFileOf : ℕ → Outcome → Parcel → Type 0
IsFileOf n r q =
    r.wants ≡ true
    → (f : File) × (r.file ≡ some f)
      × (f.length ≡ n_data_bytes_per_block (fast_of n))
      × HoldsParcel n f.bytes q
